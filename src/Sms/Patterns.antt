-- ===== src/Sms/Patterns.antt =====
-- app/sms/patterns.py: the patterns that operators write. The third-party module `regex` is a
-- parameter: whether it compiles an expression, and what a search with the time budget answers.
use alo_bot_dashboard.Prelude.{
  ℕ, ◌*◌, Bool, true, false, not, ◌||◌, String, Option, none, some, List, [], ◌∷◌, ◌==◌, leb, ltb,
  if◌then◌else◌, keep, sort_by, length, is_none, is_some, Result, done, ◌>>=◌, str_append,
}
use alo_bot_dashboard.Model.{Direction}
use alo_bot_dashboard.Unicode.{Text, codes, Unicode}
use alo_bot_dashboard.Sms.{Classification, no_evidence, ParseResult, parse_result, ValueError}
use alo_bot_dashboard.Sms.Normalize.{parse_amount}
use alo_bot_dashboard.Sms.Parsers.{last_four}

pub data AmountUnit : Type 0 where
  irr toman : AmountUnit

pub record DbPattern : Type 0 where
  pub id : String
  pub bank_name : String
  pub enabled : Bool
  pub priority : ℕ
  pub detect_re : String
  pub amount_re : String
  pub amount_unit : AmountUnit
  pub direction : Direction
  pub balance_re : Option String
  pub account_re : Option String
  pub reference_re : Option String

-- what `search` gives: an error or a timeout, no match, or the match with whether the expression has
-- groups, its first group and its whole text
pub data Searched : Type 0 where
  failed missed : Searched
  hit : Bool → Option Text → Text → Searched

pub record RegexModule : Type 0 where
  pub compiles : String → Bool
  pub search : String → Text → Searched

answer : Searched → Option Text
answer Searched.failed = none
answer Searched.missed = none
answer (Searched.hit true first whole) = first
answer (Searched.hit false first whole) = some whole

-- `_search`
unfoldable pub search : RegexModule → Option String → Text → Option Text
unfolding answer
search m none text = none
search m (some expression) text =
    if length (codes expression) == 0 then none else answer (m.search expression text)

-- `parse_amount(raw) if raw else None`
unfoldable pub amount_in : Unicode → Option Text → Result ValueError (Option ℕ)
amount_in u none = done none
amount_in u (some []) = done none
amount_in u (some (c ∷ cs)) = parse_amount u (c ∷ cs)

unfoldable pub some_text : Text → Option Text
some_text [] = none
some_text (c ∷ cs) = some (c ∷ cs)

-- `"".join(ch for ch in raw_account if ch.isdigit())[-4:] or None`
unfoldable pub account_in : Unicode → Option Text → Option Text
unfolding some_text
account_in u none = none
account_in u (some raw) = some_text (last_four (keep (u.is_digit) raw))

factor : AmountUnit → ℕ
factor AmountUnit.irr = 1
factor AmountUnit.toman = 10

-- the result of a pattern that read an amount
unfoldable pub pattern_result :
    Unicode → RegexModule → DbPattern → Text → ℕ → Option ℕ → ParseResult
unfolding search account_in factor
pattern_result u m p text amount balance =
    record (parse_result Classification.bank_transaction (str_append "pattern:" p.id) "db" 75) {
      direction = p.direction;
      amount_irr = some (amount * factor p.amount_unit);
      balance_irr = elim balance [ none ↦ none | some b ↦ some (b * factor p.amount_unit) ];
      account_hint = account_in u (search m p.account_re text);
      reference = search m p.reference_re text;
      bank_name = some p.bank_name;
      evidence = record no_evidence { pattern = some p.id };
    }

-- `classification == "BANK_TRANSACTION" and amount_irr is not None`
unfoldable pub has_amount : ParseResult → Bool
has_amount r = elim r.classification [
  | Classification.bank_transaction ↦ is_some r.amount_irr
  | _ ↦ false
]

-- the bank's name, where the built-in parser named none
unfoldable pub name_bank : DbPattern → ParseResult → ParseResult
name_bank p r =
    if is_none r.bank_name
    then record r {
      bank_name = some p.bank_name;
      evidence = record r.evidence { bank_from_pattern = some p.id };
    }
    else r

-- the result of a pattern, or of the patterns behind it where it reads no amount
unfoldable pub or_next :
    Unicode
    → RegexModule
    → DbPattern
    → Text
    → Result ValueError ParseResult
    → Option ℕ
    → Result ValueError ParseResult
unfolding amount_in pattern_result
or_next u m p text rest none = rest
or_next u m p text rest (some n) = amount_in u (search m p.balance_re text) >>= λ balance.
    done (pattern_result u m p text n balance)

-- the loop over the patterns
unfoldable pub try_patterns :
    Unicode → RegexModule → Text → ParseResult → List DbPattern → Result ValueError ParseResult
unfolding amount_in or_next name_bank has_amount
try_patterns u m text r [] = done r
try_patterns u m text r (p ∷ ps) =
    let rest = try_patterns u m text r ps in
    if is_none (search m (some p.detect_re) text)
    then rest
    else if has_amount r
    then done (name_bank p r)
    else (amount_in u (search m (some p.amount_re) text) >>= or_next u m p text rest)

-- `classification in ("OTP", "PROMOTIONAL")`
unfoldable pub is_noise : Classification → Bool
is_noise Classification.otp = true
is_noise Classification.promotional = true
is_noise _ = false

unfoldable pub apply_patterns :
    Unicode → RegexModule → Text → ParseResult → List DbPattern → Result ValueError ParseResult
unfolding is_noise try_patterns
apply_patterns u m text r patterns =
    if is_noise r.classification
    then done r
    else try_patterns u m text r (sort_by (λ p. p.priority) (keep (λ p. p.enabled) patterns))

pub data PatternRefused : Type 0 where
  bad_length invalid too_slow : PatternRefused

-- `check_pattern`: `bait` are the long texts that it is tried on, `slow` whether one exceeds the budget
unfoldable pub check_pattern :
    RegexModule → (String → Text → Bool) → List Text → String → Option PatternRefused
check_pattern m slow bait expression =
    if length (codes expression) == 0 || ltb 500 (length (codes expression))
    then some PatternRefused.bad_length
    else if not (m.compiles expression)
    then some PatternRefused.invalid
    else if leb 1 (length (keep (slow expression) bait))
    then some PatternRefused.too_slow
    else none
