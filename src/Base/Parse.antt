-- ===== src/Base/Parse.antt =====
-- strconv.Atoi, as far as its number goes: the program drops the error.
use Prim.Native.Nat.{ℕ, ◌+◌, ◌*◌, ◌-◌}
use Prim.Native.Char.{code}
use Prim.Native.String.{String}
use mathlib.Core.Path.{◌≡◌, refl}
use mathlib.Core.Bool.{◌&&◌}
use mathlib.Core.Option.{Option, none, some}
use video_processor_go.Base.Int.{ℤ, pos, negsuc, max_int64}
use video_processor_go.Base.Tests.{leb, ◌==◌, if◌then◌else◌}

digits : ℕ → String → Option ℕ
digits n String.[] = some n
digits n (String.◌∷◌ c rest) =
    if leb b'0' (code c) && leb (code c) b'9' then digits (n * 10 + (code c - b'0')) rest else none

some_digits : String → Option ℕ
unfolding digits
some_digits String.[] = none
some_digits (String.◌∷◌ c rest) = digits 0 (String.◌∷◌ c rest)

-- A number out of range becomes the nearest one, and what is no number becomes 0.
positive : Option ℕ → ℤ
positive none = pos 0
positive (some n) = if leb n max_int64 then pos n else pos max_int64

negative : Option ℕ → ℤ
negative none = pos 0
negative (some n) =
    if n == 0 then pos 0 else if leb n max_int64 then negsuc (n - 1) else negsuc max_int64

unfoldable pub atoi : String → ℤ
unfolding some_digits positive negative
atoi String.[] = pos 0
atoi (String.◌∷◌ c rest) =
    if code c == b'-'
    then negative (some_digits rest)
    else if code c == b'+'
    then positive (some_digits rest)
    else positive (some_digits (String.◌∷◌ c rest))

atoi_height : atoi "1080" ≡ pos 1080
unfolding atoi
atoi_height = refl

atoi_none : atoi "N/A" ≡ pos 0
unfolding atoi
atoi_none = refl
