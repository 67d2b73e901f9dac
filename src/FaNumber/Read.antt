-- ===== src/FaNumber/Read.antt =====
-- What the pages print of a number is read back.
use alo_bot_dashboard.Prelude.{
  ℕ, suc, ◌+◌, ◌*◌, ◌-◌, ◌≤◌, ◌<◌, ◌≡◌, refl, ap, subst, inl, inr, true, false, not, some, List, [],
  ◌∷◌, arith, ◌==◌, ltb, if◌then◌else◌, length, keep, is_space, Bool-cases, done,
}
use alo_bot_dashboard.Unicode.{Text, codes, Unicode}
use alo_bot_dashboard.FaNumber.{grouped, fa_number}
use alo_bot_dashboard.Sms.Normalize.{
  to_ascii_digit, to_persian_letter, is_dropped, translate, squeeze, strip_start, normalize,
  is_junk, is_sign, strip_signs, cleaned_amount, all_of, is_empty, decimal_value, int_of,
  parse_amount,
}
use alo_bot_dashboard.FaNumber.Printed.{values, number, IsPrinted, is_nonempty, grouped-Reads}

-- what `translate` makes of a printed text, and the digits in it
abbrev translated : Text → Text
translated [] = []
translated (c ∷ cs) = (if c == 1644 then c else c - 1728) ∷ translated cs

abbrev ascii_digits : List ℕ → Text
ascii_digits [] = []
ascii_digits (d ∷ ds) = (48 + d) ∷ ascii_digits ds

abbrev AllDigits : List ℕ → Type 0
AllDigits [] = Unit
AllDigits (d ∷ ds) = (d < 10) × AllDigits ds

values-AllDigits : (cs : Text) → IsPrinted cs → AllDigits (values cs)
values-AllDigits [] h = tt
values-AllDigits (c ∷ cs) h = elim (Bool-cases (c == 1644)) [
  | inl separator ↦ rw separator (values-AllDigits cs h.1)
  | inr digit ↦ rw digit (ground (arith, h.0, digit), values-AllDigits cs h.1)
]

translate-printed : (cs : Text) → IsPrinted cs → translate cs ≡ translated cs
unfolding translate to_ascii_digit to_persian_letter is_dropped
translate-printed [] h = refl
translate-printed (c ∷ cs) h = ground (arith, h.0, translate-printed cs h.1)

squeeze-translated : (cs : Text) → IsPrinted cs → squeeze (translated cs) ≡ translated cs
unfolding squeeze is_space
squeeze-translated [] h = refl
squeeze-translated (c ∷ cs) h = ground (arith, h.0, squeeze-translated cs h.1)

start-translated : (cs : Text) → IsPrinted cs → strip_start (translated cs) ≡ translated cs
unfolding strip_start
start-translated [] h = refl
start-translated (c ∷ cs) h = ground (arith, h.0)

keep-translated :
    (cs : Text)
    → IsPrinted cs
    → keep (λ c. not (is_junk c)) (translated cs) ≡ ascii_digits (values cs)
unfolding is_junk is_space
keep-translated [] h = refl
keep-translated (c ∷ cs) h = ground (arith, h.0, keep-translated cs h.1)

signs-digits : (ds : List ℕ) → AllDigits ds → strip_signs (ascii_digits ds) ≡ ascii_digits ds
unfolding strip_signs is_sign
signs-digits [] h = refl
signs-digits (d ∷ ds) h = ground (arith, h.0)

cleaned-printed : (cs : Text) → IsPrinted cs → cleaned_amount cs ≡ ascii_digits (values cs)
unfolding cleaned_amount normalize
cleaned-printed cs h = rw (translate-printed cs h) (
    rw (squeeze-translated cs h) (
      rw (start-translated cs h)
        (rw (keep-translated cs h) (signs-digits (values cs) (values-AllDigits cs h)))))

module _ (u : Unicode) where
  digits-AllDigits : (ds : List ℕ) → AllDigits ds → all_of (u.is_digit) (ascii_digits ds) ≡ true
  unfolding all_of
  digits-AllDigits [] h = refl
  digits-AllDigits (d ∷ ds) h =
      let own : u.is_digit (48 + d) ≡ true =
        rw (u.is_digit_ascii (48 + d) (omega (arith, h.0))) (ground (arith, h.0)) in
      rw own (digits-AllDigits ds h.1)

  value-digits :
      (acc : ℕ) (ds : List ℕ)
      → AllDigits ds
      → decimal_value u acc (ascii_digits ds) ≡ done (number acc ds)
  unfolding decimal_value
  value-digits acc [] h = refl
  value-digits acc (d ∷ ds) h = rw (u.decimal_ascii d h.0) (value-digits (acc * 10 + d) ds h.1)

length-digits : (ds : List ℕ) → length (ascii_digits ds) ≡ length ds
length-digits [] = refl
length-digits (d ∷ ds) = ap suc (length-digits ds)

length-values-le : (cs : Text) → length (values cs) ≤ length cs
length-values-le [] = omega arith
length-values-le (c ∷ cs) = ground (arith, length-values-le cs)

int-digits :
    (u : Unicode) (ds : List ℕ)
    → AllDigits ds
    → length ds ≤ 4300
    → int_of u (ascii_digits ds) ≡ done (number 0 ds)
unfolding int_of
int-digits u ds h short =
    let fits : ltb 4300 (length (ascii_digits ds)) ≡ false =
      ground (arith, length-digits ds, short) in
    rw fits (value-digits u 0 ds h)

parse-digits :
    (u : Unicode) (raw : Text) (ds : List ℕ)
    → cleaned_amount raw ≡ ascii_digits ds
    → AllDigits ds
    → is_nonempty ds ≡ true
    → length ds ≤ 4300
    → parse_amount u raw ≡ done (some (number 0 ds))
unfolding parse_amount is_empty
parse-digits u raw [] e h full short = absurd (cc)
parse-digits u raw (d ∷ ds) e h full short =
    rw e (rw (digits-AllDigits u (d ∷ ds) h) (rw (int-digits u (d ∷ ds) h short) refl))

-- An amount that the pages print is read back: `parse_amount` on the text of `fa_number`, with its
-- Persian digits and separators, gives the number, as long as the text is within the 4300 characters
-- that `int` takes.
pub parse_amount-fa_number :
    (u : Unicode) (n : ℕ)
    → length (codes (fa_number n)) ≤ 4300
    → parse_amount u (codes (fa_number n)) ≡ done (some n)
unfolding fa_number
parse_amount-fa_number u n short =
    let r = grouped-Reads (n + 1) n (omega arith) in
    let cs = codes (grouped (n + 1) n) in
    subst (λ (k : ℕ). parse_amount u cs ≡ done (some k)) r.value
      (parse-digits u cs (values cs) (cleaned-printed cs r.printed) (values-AllDigits cs r.printed)
        r.full (omega (arith, length-values-le cs, short)))
