-- ===== src/Unicode.antt =====
-- What the code reads of Python's Unicode database: `str.isdigit`, the decimal digits that `\d` and
-- `int` know, and the word characters of `\b`. The database is a parameter; the laws are those of
-- ASCII. A text is the list of its code points.
use alo_bot_dashboard.Prelude.{
  ℕ, ◌+◌, ◌<◌, ◌≡◌, Bool, true, false, String, Option, some, List, [], ◌∷◌, is_some, arith, leb,
  ◌==◌, ◌&&◌, ◌||◌,
}
use mathlib.Core.Logic.{dite}
use native.Mathlib.Decide.{dec_lt}
use Prim.Native.Char.{Char, char, code, nul, IsScalar}

abbrev pub Text : Type 0
Text = List ℕ

abbrev pub codes : String → Text
codes String.[] = []
codes (String.◌∷◌ c s) = code c ∷ codes s

pub record Unicode : Type 0 where
  -- the value of a character of the category Nd
  pub decimal : ℕ → Option ℕ
  -- `str.isdigit` of one character
  pub is_digit : ℕ → Bool
  -- `\w`
  pub is_word : ℕ → Bool
  pub decimal_ascii : (d : ℕ) → d < 10 → decimal (48 + d) ≡ some d
  pub decimal_below : (c d : ℕ) → decimal c ≡ some d → d < 10
  pub decimal-is_digit : (c : ℕ) → is_some (decimal c) ≡ true → is_digit c ≡ true
  pub is_digit_ascii : (c : ℕ) → c < 128 → is_digit c ≡ (leb 48 c && leb c 57)

-- `\d`
abbrev pub is_decimal : Unicode → ℕ → Bool
is_decimal u c = is_some (u.decimal c)

pub low : (n : ℕ) → n < 55296 → IsScalar n
low n h = ground arith

pub high : (n : ℕ) → 57343 < n → n < 1114112 → IsScalar n
high n h k = ground arith

-- `chr`, where there is such a character
to_char : ℕ → Char
unfolding dec_lt
to_char n =
    dite (dec_lt n 55296) (λ h. char n (low n h))
      (λ _.
        dite (dec_lt 57343 n) (λ h. dite (dec_lt n 1114112) (λ k. char n (high n h k)) (λ _. nul))
          (λ _. nul))

unfoldable pub to_string : Text → String
unfolding to_char
to_string [] = String.[]
to_string (c ∷ cs) = String.◌∷◌ (to_char c) (to_string cs)

-- a text that ends with another one
abbrev pub text_eq : Text → Text → Bool
text_eq [] [] = true
text_eq (c ∷ cs) (d ∷ ds) = c == d && text_eq cs ds
text_eq _ _ = false

unfoldable pub ends_with : Text → Text → Bool
ends_with [] end = text_eq [] end
ends_with (c ∷ cs) end = text_eq (c ∷ cs) end || ends_with cs end
