-- ===== src/Base/Format.antt =====
-- fmt.Sprintf and strconv on integers: %d and %03d.
use Prim.Native.Nat.{ℕ, zero, suc, ◌/◌, ◌%◌, ◌+◌}
use Prim.Native.String.{String}
use mathlib.Core.Path.{◌≡◌, refl}
use video_processor_go.Base.Int.{ℤ, pos, negsuc}
use video_processor_go.Base.Tests.{ltb, if◌then◌else◌, ◌⧺◌}

digit : ℕ → String
digit zero = "0"
digit (suc zero) = "1"
digit (suc (suc zero)) = "2"
digit (suc (suc (suc zero))) = "3"
digit (suc (suc (suc (suc zero)))) = "4"
digit (suc (suc (suc (suc (suc zero))))) = "5"
digit (suc (suc (suc (suc (suc (suc zero)))))) = "6"
digit (suc (suc (suc (suc (suc (suc (suc zero))))))) = "7"
digit (suc (suc (suc (suc (suc (suc (suc (suc zero)))))))) = "8"
digit _ = "9"

-- The digits of `n`, on fuel: a number has no more digits than its own value plus one.
digits_from : ℕ → ℕ → String
digits_from zero n = ""
digits_from (suc f) n =
    let front = digits_from f (n / 10) in if ltb n 10 then digit n else front ⧺ digit (n % 10)

unfoldable pub format_nat : ℕ → String
unfolding digits_from digit
format_nat n = digits_from (n + 1) n

-- %d, strconv.Itoa
unfoldable pub format_int : ℤ → String
unfolding format_nat
format_int (pos n) = format_nat n
format_int (negsuc n) = "-" ⧺ format_nat (n + 1)

-- %03d of a number that is not negative
unfoldable pub format_padded : ℕ → String
unfolding format_nat
format_padded n =
    if ltb n 10 then "00" ⧺ format_nat n else if ltb n 100 then "0" ⧺ format_nat n else format_nat n

format_padded_small : format_padded 5 ≡ "005"
unfolding format_padded
format_padded_small = refl

format_int_large : format_int (pos 2928000) ≡ "2928000"
unfolding format_int
format_int_large = refl
