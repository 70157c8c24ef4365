-- ===== src/Base/Attempts.antt =====
-- Calls that are tried in turn until one succeeds.
use mathlib.Core.Option.{Option, none, some}
use mathlib.Core.List.{List, [], ◌∷◌}
use video_processor_go.Base.Effects.{Error, Eff}

module _ {S : Type 0} where
  -- The first call's success ends it; each later call is made only after the one before failed, and
  -- the last error stays.
  unfoldable pub try_in_turn :
      Eff S (Option Error) → List (Eff S (Option Error)) → Eff S (Option Error)
  try_in_turn first [] s = first s
  try_in_turn first (next ∷ rest) s =
      let r = first s in elim r.0 [ none ↦ (none, r.1) | some e ↦ try_in_turn next rest r.1 ]
