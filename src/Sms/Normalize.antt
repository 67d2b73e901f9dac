-- ===== src/Sms/Normalize.antt =====
-- app/sms/normalize.py: one alphabet of digits, one of letters, and single spaces.
use alo_bot_dashboard.Prelude.{
  ℕ, ◌+◌, ◌*◌, ◌-◌, Bool, true, false, not, ◌&&◌, ◌||◌, Option, none, some, [], ◌∷◌, ◌==◌, ltb, leb,
  if◌then◌else◌, keep, map, length, is_space, Result, done, refused,
}
use alo_bot_dashboard.Unicode.{Text, Unicode}
use alo_bot_dashboard.Sms.{ValueError}

-- `_DIGITS`: the Persian and the Arabic digits
unfoldable pub to_ascii_digit : ℕ → ℕ
to_ascii_digit c =
    if leb 1776 c && leb c 1785 then c - 1728 else if leb 1632 c && leb c 1641 then c - 1584 else c

-- `_LETTERS`, but for the fathatan, which it deletes
unfoldable pub to_persian_letter : ℕ → ℕ
to_persian_letter c =
    if c == 1610
    then 1740
    else if c == 1603
    then 1705
    else if c == 1609
    then 1740
    else if c == 1577
    then 1607
    else c

-- the fathatan, and `_INVISIBLE`
unfoldable pub is_dropped : ℕ → Bool
is_dropped c =
    c == 1611 || c == 8203 || c == 8206 || c == 8207 || (leb 8234 c && leb c 8238) || c == 65279

unfoldable pub translate : Text → Text
unfolding to_ascii_digit to_persian_letter is_dropped
translate cs = keep (λ c. not (is_dropped c)) (map (λ c. to_persian_letter (to_ascii_digit c)) cs)

-- one space before a text, where it neither is empty nor starts with one
unfoldable pub space_before : Text → Text
space_before [] = []
space_before (c ∷ cs) = if c == 32 then c ∷ cs else 32 ∷ c ∷ cs

-- `\s+` to one space, with none at the end
unfoldable pub squeeze : Text → Text
unfolding is_space space_before
squeeze [] = []
squeeze (c ∷ cs) = let rest = squeeze cs in if is_space c then space_before rest else c ∷ rest

unfoldable pub strip_start : Text → Text
strip_start [] = []
strip_start (c ∷ cs) = if c == 32 then cs else c ∷ cs

unfoldable pub normalize : Text → Text
unfolding translate squeeze strip_start
normalize cs = strip_start (squeeze (translate cs))

-- `_AMOUNT_JUNK`
unfoldable pub is_junk : ℕ → Bool
unfolding is_space
is_junk c = c == 44 || c == 1644 || c == 1643 || c == 39 || c == 46 || is_space c

-- `lstrip("+-−")`
unfoldable pub is_sign : ℕ → Bool
is_sign c = c == 43 || c == 45 || c == 8722

unfoldable pub strip_signs : Text → Text
unfolding is_sign
strip_signs [] = []
strip_signs (c ∷ cs) = if is_sign c then strip_signs cs else c ∷ cs

unfoldable pub all_of : (ℕ → Bool) → Text → Bool
all_of p [] = true
all_of p (c ∷ cs) = p c && all_of p cs

-- the digits of `int`, from the left; a digit that is no decimal one is an error
unfoldable pub decimal_value : Unicode → ℕ → Text → Result ValueError ℕ
decimal_value u acc [] = done acc
decimal_value u acc (c ∷ cs) = elim (u.decimal c) [
  | none ↦ refused ValueError.not_an_integer
  | some d ↦ decimal_value u (acc * 10 + d) cs
]

-- `int(text)` of a text of digits: at most `sys.int_info.default_max_str_digits`
unfoldable pub int_of : Unicode → Text → Result ValueError ℕ
unfolding decimal_value
int_of u cs =
    if ltb 4300 (length cs) then refused ValueError.not_an_integer else decimal_value u 0 cs

unfoldable pub is_empty : Text → Bool
is_empty [] = true
is_empty (c ∷ cs) = false

-- the text of an amount without its separators and its signs
unfoldable pub cleaned_amount : Text → Text
unfolding is_junk strip_signs
cleaned_amount raw = strip_signs (keep (λ c. not (is_junk c)) (normalize raw))

unfoldable pub parse_amount : Unicode → Text → Result ValueError (Option ℕ)
unfolding cleaned_amount is_empty all_of
parse_amount u raw =
    let cleaned = cleaned_amount raw in
    if is_empty cleaned || not (all_of (u.is_digit) cleaned)
    then done none
    else elim (int_of u cleaned) [ done n ↦ done (some n) | refused e ↦ refused e ]
