-- ===== src/Sms/Words.antt =====
-- What the regular expressions of app/sms/parsers.py are made of.
use alo_bot_dashboard.Prelude.{
  ℕ, zero, suc, ◌+◌, ◌-◌, ◌/◌, ◌%◌, if◌then◌else◌, false, ◌&&◌, ◌||◌, String, none, some, List, [],
  ◌∷◌, ◌++◌, ◌==◌, is_space,
}
use alo_bot_dashboard.Unicode.{Text, codes, Unicode, is_decimal}
use alo_bot_dashboard.Regex.{Regex}

unfoldable pub char : ℕ → Regex
char c = Regex.one_of (λ x. x == c)

-- under `re.I`: the Latin letter in both cases, and the characters that fold to it
letter : ℕ → Regex
letter c = Regex.one_of (λ x.
    x == c
    || x == c - 32
    || (c == 105 && (x == 304 || x == 305))
    || (c == 115 && x == 383)
    || (c == 107 && x == 8490))

unfoldable pub in_order : List Regex → Regex
in_order [] = Regex.empty
in_order (r ∷ rs) = Regex.both r (in_order rs)

unfoldable pub any_of : List Regex → Regex
any_of [] = Regex.one_of (λ c. false)
any_of (r ∷ []) = r
any_of (r ∷ s ∷ rs) = Regex.either r (any_of (s ∷ rs))

chars_of : (ℕ → Regex) → Text → Regex
chars_of f [] = Regex.empty
chars_of f (c ∷ cs) = Regex.both (f c) (chars_of f cs)

-- the Arabic block's letters, each by the last two digits of its number
persian_digits : ℕ → ℕ → Text
persian_digits zero n = []
persian_digits (suc f) n =
    let rest = persian_digits f (n / 256) in if n == 0 then [] else rest ++ (1536 + n % 256) ∷ []

-- no word has more than twelve letters
unfoldable pub persian : ℕ → Text
unfolding persian_digits
persian n = persian_digits 12 n

unfoldable pub literal : Text → Regex
unfolding char chars_of
literal cs = chars_of char cs

unfoldable pub word : ℕ → Regex
unfolding literal persian
word n = literal (persian n)

-- of a text in small letters, under `re.I`
unfoldable pub word_ci : String → Regex
unfolding letter chars_of
word_ci s = chars_of letter (codes s)

unfoldable pub optional : Regex → Regex
optional r = Regex.repeated 0 (some 1) r

space : Regex
space = Regex.one_of is_space

unfoldable pub spaces : Regex
unfolding space
spaces = Regex.repeated 0 none space

unfoldable pub digit : Unicode → Regex
digit u = Regex.one_of (λ c. is_decimal u c)

unfoldable pub times : ℕ → ℕ → Regex → Regex
times least most r = Regex.repeated least (some most) r

-- the class of a sign: `+`, `-` and the minus U+2212
unfoldable pub sign : Regex
sign = Regex.one_of (λ c. c == 43 || c == 45 || c == 8722)

-- blanks, a colon (or U+FF1A) that may be missing, and blanks
unfoldable pub colon : Regex
unfolding in_order spaces optional
colon = in_order (spaces ∷ optional (Regex.one_of (λ c. c == 58 || c == 65306)) ∷ spaces ∷ [])

-- one to three digits, and groups of three behind a comma, the separator U+066C or a dot
unfoldable pub grouped : Unicode → Regex
unfolding in_order times digit
grouped u = in_order (
    times 1 3 (digit u)
    ∷ Regex.repeated 1 none
        (in_order (Regex.one_of (λ c. c == 44 || c == 1644 || c == 46) ∷ times 3 3 (digit u) ∷ []))
    ∷ [])

-- `NUMBER`
unfoldable pub number : Unicode → Regex
unfolding in_order optional grouped any_of sign digit
number u = any_of (
    in_order (optional sign ∷ grouped u ∷ [])
    ∷ in_order (optional sign ∷ Regex.repeated 1 none (digit u) ∷ [])
    ∷ [])

-- blanks, and the unit that may be missing
-- the words: ryal, tvman
unfoldable pub unit : Regex
unfolding in_order spaces optional any_of word
unit =
    in_order
      (spaces ∷ optional (Regex.group 2 (any_of (word 0x31CC2744 ∷ word 0x2A48452746 ∷ []))) ∷ [])

-- a transfer, with the word for funds or without
-- the words: antqal, vjh
unfoldable pub transfer : Regex
unfolding in_order optional spaces word
transfer = in_order (word 0x27462A422744 ∷ optional (in_order (spaces ∷ word 0x482C47 ∷ [])) ∷ [])
