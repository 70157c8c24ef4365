-- ===== src/Base/Effects.antt =====
-- Go's `error` as its message, `(T, error)` as a result, and calls that act on the world outside.
use Prim.Native.String.{String}
use mathlib.Core.Path.{◌≡◌, refl}
use mathlib.Core.Logic.{◌⊎◌, inl, inr}
use mathlib.Core.Bool.{Bool, true, false}
use mathlib.Core.Option.{Option, none, some}

-- An error is known by its message: the program reads no more of it than `err.Error()`.
abbrev pub Error : Type 0
Error = String

pub data Result {ℓ} (A : Type ℓ) : Type ℓ where
  ok : A → Result A
  err : Error → Result A

abbrev pub is_ok {ℓ} : {A : Type ℓ} → Result A → Bool
is_ok (ok a) = true
is_ok (err e) = false

-- `a, _ := f()` for a pointer `a`: the error is dropped and nil stays.
abbrev pub ok? {ℓ} : {A : Type ℓ} → Result A → Option A
ok? (ok a) = some a
ok? (err e) = none

-- A nil error is `none`.
abbrev pub error? {ℓ} : {A : Type ℓ} → Result A → Option Error
error? (ok a) = none
error? (err e) = some e

abbrev pub of_error? : Option Error → Result (Unit {0})
of_error? none = ok tt
of_error? (some e) = err e

pub Result-cases {ℓ} :
    {A : Type ℓ} (r : Result A) → ((a : A) × (r ≡ ok a)) ⊎ ((e : Error) × (r ≡ err e))
Result-cases (ok a) = inl (a, refl)
Result-cases (err e) = inr (e, refl)

-- A call takes the outside as it finds it and leaves it changed.
abbrev pub Eff : Type 0 → Type 0 → Type 0
Eff S A = S → A × S

abbrev pub pure : {S A : Type 0} → A → Eff S A
pure a s = (a, s)

infixl 5 ◌>>=◌ ◌>>◌
abbrev pub ◌>>=◌ : {S A B : Type 0} → Eff S A → (A → Eff S B) → Eff S B
◌>>=◌ m f s = let r = m s in f r.0 r.1

abbrev pub ◌>>◌ : {S A B : Type 0} → Eff S A → Eff S B → Eff S B
m >> k = m >>= λ _. k
