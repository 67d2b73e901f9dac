-- ===== src/Sms/Sound.antt =====
-- What every result of `parse` has, and what the operators' patterns may add to it.
use alo_bot_dashboard.Prelude.{
  ℕ, ◌≤◌, ◌≡◌, refl, sym, inl, inr, Bool, true, false, not, ◌&&◌, String, Option, none, some, List,
  [], ◌∷◌, arith, leb, length, is_some, is_none, Bool-cases, keep, sort_by, Result, Ensures,
  Ensures-done, Ensures-bind,
}
use alo_bot_dashboard.Model.{Direction}
use alo_bot_dashboard.Unicode.{Text, Unicode, is_decimal}
use alo_bot_dashboard.Regex.{find, matches, group_of}
use alo_bot_dashboard.Sms.{
  Classification, AmountFrom, DirectionFrom, ParseResult, parse_result, ValueError, carries_money,
}
use alo_bot_dashboard.Sms.Normalize.{normalize, parse_amount}
use alo_bot_dashboard.Sms.Expressions.{otp_re, promo_re, amount_after_label_re, account_re}
use alo_bot_dashboard.Sms.Parsers.{
  version, last_four, Found, text_of, account_from, is_label, is_unknown, generic_rest,
  generic_amount, generic_from, balance_result, find_amount, find_account, rial, direction,
  without_dates, parse_otp, parse_promo, parse_generic, parse_balance, parse_unknown, read_generic,
  generic_result,
}
use alo_bot_dashboard.Sms.Patterns.{
  DbPattern, RegexModule, search, some_text, or_next, account_in, pattern_result, name_bank,
  has_amount, try_patterns, is_noise, apply_patterns,
}
use alo_bot_dashboard.Sms.Parse.{or_else, parse_built_in, parse}

unfoldable pub is_transaction : Classification → Bool
is_transaction Classification.bank_transaction = true
is_transaction _ = false

abbrev hint_length : Option Text → ℕ
hint_length none = 0
hint_length (some h) = length h

-- money is named where the classification says so and nowhere else, and an account by four characters
pub record IsSound (r : ParseResult) : Type 0 where
  pub amount : is_some r.amount_irr ≡ is_transaction r.classification
  pub balance : carries_money r.classification ≡ false → r.balance_irr ≡ none
  pub hint : hint_length r.account_hint ≤ 4

last_four_le : (cs : Text) → length (last_four cs) ≤ 4
last_four_le [] = omega arith
last_four_le (c ∷ cs) = ground (arith, last_four_le cs)

account_from_le :
    (u : Unicode) (m : Option (Text × List (ℕ × Text)))
    → hint_length (elim (account_from u m) [ none ↦ none | some a ↦ some (a.0) ]) ≤ 4
unfolding account_from
account_from_le u none = omega arith
account_from_le u (some m) =
    elim (Bool-cases (leb 4 (length (keep (λ c. is_decimal u c) (text_of (group_of 1 (m.1))))))) [
      | inl long ↦ rw long (last_four_le (keep (λ c. is_decimal u c) (text_of (group_of 1 (m.1)))))
      | inr short ↦ rw short (omega arith)
    ]

plain-IsSound :
    (c : Classification) (id v : String) (n : ℕ)
    → is_transaction c ≡ false
    → IsSound (parse_result c id v n)
plain-IsSound c id v n h = record { amount = sym h; balance = λ k. refl; hint = omega arith }

abbrev AllSound : Option ParseResult → Type 0
AllSound none = Unit
AllSound (some r) = IsSound r

read-AllSound :
    (u : Unicode) (body : Text) (n : ℕ) (source : AmountFrom) (way : Direction × DirectionFrom)
    → Ensures {E = ValueError} AllSound (read_generic u body n source way)
unfolding read_generic generic_rest generic_result find_account is_transaction carries_money
read-AllSound u body n source way =
    elim (Bool-cases (is_unknown (way.0) && not (is_label source))) [
      | inl bare ↦ rw bare (Ensures-done none tt)
      | inr told ↦ rw told (
          Ensures-bind _ _ λ (b : Option ℕ) e. Ensures-done _ record {
            amount = refl;
            balance = λ k. cc;
            hint = account_from_le u (find u (account_re u) body);
          })
    ]

amount-AllSound :
    (u : Unicode) (body : Text) (f : Found) (o : Option ℕ)
    → Ensures {E = ValueError} AllSound (generic_amount u body f o)
unfolding generic_amount
amount-AllSound u body f none = Ensures-done none tt
amount-AllSound u body f (some n) =
    read-AllSound u body (rial n f.unit) f.source (direction u body f.sign)

generic-AllSound :
    (u : Unicode) (body : Text) (o : Option Found)
    → Ensures {E = ValueError} AllSound (generic_from u body o)
unfolding generic_from
generic-AllSound u body none = Ensures-done none tt
generic-AllSound u body (some f) =
    Ensures-bind (parse_amount u f.raw) (generic_amount u body f)
      λ (o : Option ℕ) e. amount-AllSound u body f o

balance-AllSound : (o : Option ℕ) → AllSound (balance_result o)
unfolding balance_result is_transaction carries_money
balance-AllSound none = tt
balance-AllSound (some n) = record { amount = refl; balance = λ k. cc; hint = omega arith }

parse_balance-AllSound :
    (u : Unicode) (text : Text) → Ensures {E = ValueError} AllSound (parse_balance u text)
unfolding parse_balance
parse_balance-AllSound u text =
    Ensures-bind _ _ λ (b : Option ℕ) e. Ensures-done (balance_result b) (balance-AllSound b)

or_else-IsSound :
    (next : Result ValueError ParseResult) (o : Option ParseResult)
    → AllSound o
    → Ensures IsSound next
    → Ensures IsSound (or_else next o)
unfolding or_else
or_else-IsSound next none h k = k
or_else-IsSound next (some r) h k = Ensures-done r h

otp-AllSound : (u : Unicode) (text : Text) → AllSound (parse_otp u text)
unfolding parse_otp is_transaction
otp-AllSound u text = elim (Bool-cases (matches u otp_re text)) [
  | inl hit ↦ rw hit (plain-IsSound Classification.otp "otp" version 100 refl)
  | inr miss ↦ rw miss tt
]

promo-AllSound : (u : Unicode) (text : Text) → AllSound (parse_promo u text)
unfolding parse_promo is_transaction
promo-AllSound u text =
    elim (Bool-cases (matches u promo_re text && not (matches u (amount_after_label_re u) text))) [
      | inl hit ↦ rw hit (plain-IsSound Classification.promotional "promo" version 80 refl)
      | inr miss ↦ rw miss tt
    ]

built_in-IsSound : (u : Unicode) (text : Text) → Ensures IsSound (parse_built_in u text)
unfolding parse_built_in parse_generic parse_unknown is_transaction
built_in-IsSound u text = or_else-IsSound _ (parse_otp u text) (otp-AllSound u text) (
    or_else-IsSound _ (parse_promo u text) (promo-AllSound u text) (
      Ensures-bind _ _ λ (g : Option ParseResult) e.
        or_else-IsSound _ g
          ((generic-AllSound u (without_dates u text) (find_amount u (without_dates u text))).at g
            e)
          (Ensures-bind _ _ λ (b : Option ParseResult) e'.
            or_else-IsSound _ b ((parse_balance-AllSound u text).at b e')
              (Ensures-done _ (plain-IsSound Classification.unknown "unknown" version 0 refl)))))

some_text_le : (cs : Text) → hint_length (some_text cs) ≤ length cs
unfolding some_text
some_text_le [] = omega arith
some_text_le (c ∷ cs) = omega arith

account_in_le : (u : Unicode) (o : Option Text) → hint_length (account_in u o) ≤ 4
unfolding account_in
account_in_le u none = omega arith
account_in_le u (some raw) =
    omega (
      arith,
      some_text_le (last_four (keep (u.is_digit) raw)),
      last_four_le (keep (u.is_digit) raw),
    )

pattern-IsSound :
    (u : Unicode) (m : RegexModule) (p : DbPattern) (text : Text) (n : ℕ) (b : Option ℕ)
    → IsSound (pattern_result u m p text n b)
unfolding pattern_result is_transaction carries_money
pattern-IsSound u m p text n b = record {
  amount = refl;
  balance = λ k. cc;
  hint = account_in_le u (search m p.account_re text);
}

named-IsSound : (p : DbPattern) (r : ParseResult) → IsSound r → IsSound (name_bank p r)
unfolding name_bank
named-IsSound p r h = elim (Bool-cases (is_none r.bank_name)) [
  | inl unnamed ↦ rw unnamed record { amount = h.amount; balance = h.balance; hint = h.hint }
  | inr named ↦ rw named h
]

or_next-IsSound :
    (u : Unicode) (m : RegexModule) (p : DbPattern) (text : Text)
    (rest : Result ValueError ParseResult) (o : Option ℕ)
    → Ensures IsSound rest
    → Ensures IsSound (or_next u m p text rest o)
unfolding or_next
or_next-IsSound u m p text rest none h = h
or_next-IsSound u m p text rest (some n) h =
    Ensures-bind _ _ λ (b : Option ℕ) e. Ensures-done _ (pattern-IsSound u m p text n b)

try-IsSound :
    (u : Unicode) (m : RegexModule) (text : Text) (r : ParseResult) (ps : List DbPattern)
    → IsSound r
    → Ensures IsSound (try_patterns u m text r ps)
unfolding try_patterns
try-IsSound u m text r [] h = Ensures-done r h
try-IsSound u m text r (p ∷ ps) h = elim (Bool-cases (is_none (search m (some p.detect_re) text))) [
  | inl other ↦ rw other (try-IsSound u m text r ps h)
  | inr mine ↦ rw mine (elim (Bool-cases (has_amount r)) [
    | inl full ↦ rw full (Ensures-done _ (named-IsSound p r h))
    | inr bare ↦ rw bare (
        Ensures-bind _ _ λ (o : Option ℕ) e.
          or_next-IsSound u m p text (try_patterns u m text r ps) o (try-IsSound u m text r ps h))
  ])
]

apply-IsSound :
    (u : Unicode) (m : RegexModule) (text : Text) (r : ParseResult) (ps : List DbPattern)
    → IsSound r
    → Ensures IsSound (apply_patterns u m text r ps)
unfolding apply_patterns
apply-IsSound u m text r ps h = elim (Bool-cases (is_noise r.classification)) [
  | inl noise ↦ rw noise (Ensures-done r h)
  | inr plain ↦
      rw plain (try-IsSound u m text r (sort_by (λ p. p.priority) (keep (λ p. p.enabled) ps)) h)
]

-- Every result of `parse`, whatever the message and the operators' patterns, names an amount exactly if
-- it is a bank transaction, a balance only if it is a transaction or a balance message, and an account by
-- at most four characters.
pub parse-IsSound :
    (u : Unicode) (m : RegexModule) (ps : List DbPattern) (body : Text)
    → Ensures IsSound (parse u m ps body)
unfolding parse
parse-IsSound u m ps body = Ensures-bind _ _ λ (r : ParseResult) e.
    apply-IsSound u m (normalize body) r ps ((built_in-IsSound u (normalize body)).at r e)
