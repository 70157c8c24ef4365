-- ===== src/Base.antt =====
-- The names that the other modules share: the libraries', passed on, and those of the children.
mod Tests
mod Effects
mod Int
mod Lists
mod Format
mod Parse
mod Text
mod Attempts
pub use Tests.*
pub use Effects.*
pub use Int.*
pub use Lists.*
unfoldable pub use Parse.{atoi}
unfoldable pub use Text.{trim_space, to_lower, contains, join, split_slashes}
unfoldable pub use Attempts.{try_in_turn}
unfoldable pub use Int.{increment, wrap64, add64, unix, second_before, unix_before}
unfoldable pub use Lists.{erase, count}
unfoldable pub use Format.{format_int, format_nat, format_padded}
pub use Prim.Native.Nat.{ℕ, zero, suc, ◌+◌, ◌-◌, ◌*◌, ◌/◌, ◌%◌, ◌^◌, ◌≤◌, ◌<◌, max}
pub use Prim.Native.String.{String}
pub use mathlib.Core.Path.{◌≡◌, refl, sym, ap, ◌∙◌, fun_ext, subst}
pub use mathlib.Core.Logic.{◌≢◌, ◌↔◌, ◌⊎◌, inl, inr}
pub use mathlib.Core.Bool.{Bool, true, false, not, ◌&&◌, ◌||◌}
pub use mathlib.Core.Option.{Option, none, some}
pub use mathlib.Core.List.{List, [], ◌∷◌, ◌++◌, map}
pub use native.Mathlib.Omega.{arith}
pub use text.Mathlib.Text.{◌==◌ as str_eq}
pub use text.Mathlib.TextEquality.{eq_iff}
pub use text.Mathlib.TextPositions.{eq_refl}
