-- ===== src/Prelude/Text.antt =====
-- Text: decimal printing, and Python's `strip`.
use Prim.Native.Nat.{ℕ, zero, suc, ◌+◌, ◌/◌, ◌%◌}
use Prim.Native.Char.{Char, code}
use Prim.Native.String.{String, ◌++◌}
use mathlib.Core.Bool.{Bool, true, ◌&&◌, ◌||◌}
use alo_bot_dashboard.Prelude.Tests.{◌==◌, ltb, leb, if◌then◌else◌}
pub use text.Mathlib.Text.{◌==◌ as str_eq}
pub use text.Mathlib.TextEquality.{eq_iff as str_eq_iff}
pub use Prim.Native.String.{◌++◌ as str_append}

digit : ℕ → String
digit d =
    if d == 0
    then "0"
    else if d == 1
    then "1"
    else if d == 2
    then "2"
    else if d == 3
    then "3"
    else if d == 4
    then "4"
    else if d == 5
    then "5"
    else if d == 6
    then "6"
    else if d == 7
    then "7"
    else if d == 8
    then "8"
    else "9"

print_fuel : ℕ → ℕ → String
unfolding digit
print_fuel zero n = ""
print_fuel (suc f) n =
    let rest = print_fuel f (n / 10) in if ltb n 10 then digit n else rest ++ digit (n % 10)

-- `str(n)` of a non-negative number: `n + 1` rounds are more than it has digits
unfoldable pub print : ℕ → String
unfolding print_fuel
print n = print_fuel (n + 1) n

-- `str.isspace` of one character
unfoldable pub is_space : ℕ → Bool
is_space c =
    (leb 9 c && leb c 13)
    || (leb 28 c && leb c 32)
    || c == 133
    || c == 160
    || c == 5760
    || (leb 8192 c && leb c 8202)
    || c == 8232
    || c == 8233
    || c == 8239
    || c == 8287
    || c == 12288

strip_left : String → String
unfolding is_space
strip_left String.[] = String.[]
strip_left (String.◌∷◌ c s) = if is_space (code c) then strip_left s else String.◌∷◌ c s

-- a blank that only blanks follow is dropped
drop_blank : Char → String → String
drop_blank c String.[] = if is_space (code c) then String.[] else String.◌∷◌ c String.[]
drop_blank c s = String.◌∷◌ c s

strip_right : String → String
unfolding drop_blank is_space
strip_right String.[] = String.[]
strip_right (String.◌∷◌ c s) = drop_blank c (strip_right s)

-- `text.strip()`
unfoldable pub strip : String → String
unfolding strip_left strip_right
strip s = strip_right (strip_left s)

abbrev pub is_blank : String → Bool
is_blank s = str_eq s ""

-- `[a-z0-9]`, and the characters of the class `[a-z0-9_-]`
unfoldable pub is_plain : ℕ → Bool
is_plain c = (leb 97 c && leb c 122) || (leb 48 c && leb c 57)

unfoldable pub all_in_class : String → Bool
unfolding is_plain
all_in_class String.[] = true
all_in_class (String.◌∷◌ c s) =
    (is_plain (code c) || code c == 95 || code c == 45) && all_in_class s

unfoldable pub text_length : String → ℕ
text_length String.[] = 0
text_length (String.◌∷◌ c s) = text_length s + 1
