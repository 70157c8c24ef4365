-- ===== src/Base/Int.antt =====
-- Go's `int` and `int64`: signed integers, with the wrap-around at 64 bits written out.
use Prim.Native.Nat.{ℕ, suc, ◌+◌, ◌-◌, ◌/◌, ◌%◌, ◌^◌, ◌≤◌, ◌<◌}
use mathlib.Core.Bool.{Bool}
use video_processor_go.Base.Tests.{ltb, leb, ◌==◌, if◌then◌else◌}

-- `negsuc n` is -(n + 1).
pub data ℤ : Type 0 where
  pos : ℕ → ℤ
  negsuc : ℕ → ℤ

abbrev pub pos_part : ℤ → ℕ
pos_part (pos n) = n
pos_part (negsuc n) = 0

abbrev pub neg_part : ℤ → ℕ
neg_part (pos n) = 0
neg_part (negsuc n) = suc n

infix 50 ◌≤ℤ◌ ◌<ℤ◌
abbrev pub ◌≤ℤ◌ : ℤ → ℤ → Type 0
a ≤ℤ b = pos_part a + neg_part b ≤ pos_part b + neg_part a

abbrev pub ◌<ℤ◌ : ℤ → ℤ → Type 0
a <ℤ b = pos_part a + neg_part b < pos_part b + neg_part a

abbrev pub leb_ℤ : ℤ → ℤ → Bool
leb_ℤ a b = leb (pos_part a + neg_part b) (pos_part b + neg_part a)

abbrev pub ltb_ℤ : ℤ → ℤ → Bool
ltb_ℤ a b = ltb (pos_part a + neg_part b) (pos_part b + neg_part a)

abbrev pub max_int64 : ℕ
max_int64 = 9223372036854775807

-- `n++` on a 64-bit `int`: the largest value wraps to the smallest.
unfoldable pub increment : ℤ → ℤ
increment (pos n) = if n == max_int64 then negsuc max_int64 else pos (n + 1)
increment (negsuc n) = if n == 0 then pos 0 else negsuc (n - 1)

-- The int64 with the same 64 bits as a natural number.
unfoldable pub wrap64 : ℕ → ℤ
wrap64 n = let r = n % 2 ^ 64 in if leb r max_int64 then pos r else negsuc (2 ^ 64 - 1 - r)

abbrev pub second : ℕ
second = 1000000000

abbrev pub minute : ℕ
minute = 60000000000

-- `t.Unix()` for a time in nanoseconds since 1970.
unfoldable pub unix : ℕ → ℤ
unix t = pos (t / second)

-- A sum of an int64 and one that is not negative.
unfoldable pub add64 : ℤ → ℕ → ℤ
unfolding wrap64
add64 (pos n) d = wrap64 (n + d)
add64 (negsuc n) d = if leb d n then negsuc (n - d) else pos (d - n - 1)

-- The second of the time `d` nanoseconds before `t`, rounded down, which may lie before 1970.
unfoldable pub second_before : ℕ → ℕ → ℤ
second_before t d = if leb d t then pos ((t - d) / second) else negsuc ((d - t - 1) / second)

-- `t.Add(-d).Unix()` for a duration, an int64: the least one is its own negative.
unfoldable pub unix_before : ℕ → ℤ → ℤ
unfolding second_before unix
unix_before t (pos d) = second_before t d
unix_before t (negsuc d) = if d == max_int64 then second_before t (suc d) else unix (t + suc d)
