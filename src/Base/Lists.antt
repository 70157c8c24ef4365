-- ===== src/Base/Lists.antt =====
-- Lists measured by native numbers, and lists of texts.
use Prim.Native.Nat.{ℕ, zero, suc}
use Prim.Native.String.{String}
use mathlib.Core.List.{List, [], ◌∷◌}
use text.Mathlib.Text.{◌==◌ as str_eq}
use video_processor_go.Base.Tests.{if◌then◌else◌}

module _ {ℓ} {A : Type ℓ} where
  abbrev pub length : List A → ℕ
  length [] = 0
  length (x ∷ xs) = suc (length xs)

  abbrev pub All {κ} : (A → Type κ) → List A → Type κ
  All P [] = Unit
  All P (x ∷ xs) = P x × All P xs

module _ {ℓ} {A : Type ℓ} where
  abbrev pub take : ℕ → List A → List A
  take zero xs = []
  take (suc n) [] = []
  take (suc n) (x ∷ xs) = x ∷ take n xs

-- LREM key 1 v: the first occurrence from the head goes.
unfoldable pub erase : String → List String → List String
erase v [] = []
erase v (x ∷ xs) = if str_eq x v then xs else x ∷ erase v xs

-- How often `v` stands in a list.
unfoldable pub count : String → List String → ℕ
count v [] = 0
count v (x ∷ xs) = if str_eq x v then suc (count v xs) else count v xs
