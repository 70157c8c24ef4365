-- ===== src/Base/Text.antt =====
-- Go's `strings` package as far as the program uses it: TrimSpace, ToLower, Contains, Join.
use Prim.Native.Nat.{ℕ, zero, suc, ◌-◌}
use Prim.Native.Char.{Char, code}
use Prim.Native.String.{String}
use mathlib.Core.Path.{◌≡◌, refl}
use mathlib.Core.Bool.{Bool, ◌&&◌, ◌||◌}
use mathlib.Core.List.{List, [], ◌∷◌}
use text.Mathlib.Text.{starts_with}
use video_processor_go.Base.Tests.{leb, ◌==◌, if◌then◌else◌, ◌⧺◌}

-- unicode.IsSpace
is_space : ℕ → Bool
is_space c =
    (leb 9 c && leb c 13)
    || c == 32
    || c == 133
    || c == 160
    || c == 5760
    || (leb 8192 c && leb c 8202)
    || c == 8232
    || c == 8233
    || c == 8239
    || c == 8287
    || c == 12288

unfoldable pub trim_left : String → String
unfolding is_space
trim_left String.[] = String.[]
trim_left (String.◌∷◌ c s) = if is_space (code c) then trim_left s else String.◌∷◌ c s

-- The text is empty after its spaces are dropped.
drop_if_empty : Char → String → String
drop_if_empty c String.[] = if is_space (code c) then String.[] else String.◌∷◌ c String.[]
drop_if_empty c (String.◌∷◌ d s) = String.◌∷◌ c (String.◌∷◌ d s)

unfoldable pub trim_right : String → String
unfolding drop_if_empty is_space
trim_right String.[] = String.[]
trim_right (String.◌∷◌ c s) = drop_if_empty c (trim_right s)

-- strings.TrimSpace
unfoldable pub trim_space : String → String
unfolding trim_left trim_right
trim_space s = trim_right (trim_left s)

letter_at : String → ℕ → Char → Char
letter_at String.[] n other = other
letter_at (String.◌∷◌ c s) zero other = c
letter_at (String.◌∷◌ c s) (suc n) other = letter_at s n other

-- Capital letters, among them the two outside ASCII whose small letter is in ASCII. Other letters
-- stay: no text that the program compares with holds one.
lower_char : Char → Char
unfolding letter_at
lower_char c =
    let n = code c in
    if leb b'A' n && leb n b'Z'
    then letter_at "abcdefghijklmnopqrstuvwxyz" (n - b'A') c
    else if n == 304
    then letter_at "i" 0 c
    else if n == 8490
    then letter_at "k" 0 c
    else c

-- strings.ToLower
unfoldable pub to_lower : String → String
unfolding lower_char
to_lower String.[] = String.[]
to_lower (String.◌∷◌ c s) = String.◌∷◌ (lower_char c) (to_lower s)

-- strings.Contains(s, part)
unfoldable pub contains : String → String → Bool
contains String.[] part = starts_with String.[] part
contains (String.◌∷◌ c s) part = starts_with (String.◌∷◌ c s) part || contains s part

-- strings.Join(parts, separator)
unfoldable pub join : List String → String → String
join [] separator = ""
join (x ∷ []) separator = x
join (x ∷ y ∷ rest) separator = x ⧺ separator ⧺ join (y ∷ rest) separator

-- The first part of a split text grows by a letter.
grow : Char → List String → List String
grow c [] = String.◌∷◌ c String.[] ∷ []
grow c (part ∷ parts) = String.◌∷◌ c part ∷ parts

-- strings.Split(s, "/")
unfoldable pub split_slashes : String → List String
unfolding grow
split_slashes String.[] = String.[] ∷ []
split_slashes (String.◌∷◌ c s) =
    let parts = split_slashes s in if code c == 47 then String.[] ∷ parts else grow c parts

split_rate : split_slashes "30000/1001" ≡ "30000" ∷ "1001" ∷ []
unfolding split_slashes
split_rate = refl

trimmed : to_lower (trim_space "  NVENC\n") ≡ "nvenc"
unfolding to_lower trim_space
trimmed = refl

joined : join ("a" ∷ "b" ∷ "c" ∷ []) ";" ≡ "a;b;c"
unfolding join
joined = refl
