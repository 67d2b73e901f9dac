-- ===== src/Sms/Parsers.antt =====
-- app/sms/parsers.py: the built-in parsers. `ValueError` is what `int` may raise.
use alo_bot_dashboard.Prelude.{
  ℕ, ◌*◌, Bool, true, false, not, ◌&&◌, ◌||◌, String, Option, none, some, List, [], ◌∷◌, ◌==◌, leb,
  if◌then◌else◌, keep, length, Result, done, refused, ◌>>=◌,
}
use alo_bot_dashboard.Model.{Direction}
use alo_bot_dashboard.Unicode.{Text, Unicode, is_decimal}
use alo_bot_dashboard.Regex.{find, matches, sub, group_of}
use alo_bot_dashboard.Sms.{
  Classification, AmountFrom, DirectionFrom, no_evidence, ParseResult, parse_result, ValueError,
}
use alo_bot_dashboard.Sms.Normalize.{parse_amount, is_sign}
use alo_bot_dashboard.Sms.Expressions.{
  otp_re, promo_re, credit_re, debit_re, date_time_re, amount_after_label_re,
  amount_after_direction_re, signed_amount_re, balance_re, account_re, reference_re,
}

abbrev pub version : String
version = "0.1-provisional"

-- the unit is the whole word for toman, or the whole word for rial, where it stands: the first
-- letter, U+062A, tells toman
is_toman : Option Text → Bool
is_toman (some (c ∷ cs)) = c == 1578
is_toman _ = false

unfoldable pub rial : ℕ → Option Text → ℕ
unfolding is_toman
rial amount unit = if is_toman unit then amount * 10 else amount

unfoldable pub parse_otp : Unicode → Text → Option ParseResult
parse_otp u text =
    if matches u otp_re text then some (parse_result Classification.otp "otp" version 100) else none

unfoldable pub parse_promo : Unicode → Text → Option ParseResult
parse_promo u text =
    if matches u promo_re text && not (matches u (amount_after_label_re u) text)
    then some (parse_result Classification.promotional "promo" version 80)
    else none

-- `_direction`, on whether the phrases are there and on the sign
unfoldable pub direction_of : Bool → Bool → Option ℕ → Direction × DirectionFrom
direction_of true false sign = (Direction.credit, DirectionFrom.credit_phrase)
direction_of false true sign = (Direction.debit, DirectionFrom.debit_phrase)
direction_of credit debit none = (
  Direction.unknown,
  if credit && debit then DirectionFrom.conflicting_phrases else DirectionFrom.none_found,
)
direction_of credit debit (some sign) =
    if sign == 43
    then (Direction.credit, DirectionFrom.sign)
    else if sign == 45
    then (Direction.debit, DirectionFrom.sign)
    else if credit && debit
    then (Direction.unknown, DirectionFrom.conflicting_phrases)
    else (Direction.unknown, DirectionFrom.none_found)

unfoldable pub direction : Unicode → Text → Option ℕ → Direction × DirectionFrom
unfolding direction_of
direction u text sign = direction_of (matches u credit_re text) (matches u debit_re text) sign

-- the first character, where it is a sign
leading_sign : Text → Option ℕ
leading_sign [] = none
leading_sign (c ∷ cs) = if is_sign c then some c else none

-- `"-" if m.group(1)[0] in "-−" else "+"`
forced_sign : Text → Option ℕ
forced_sign (c ∷ cs) = if c == 45 || c == 8722 then some 45 else some 43
forced_sign [] = none

unfoldable pub text_of : Option Text → Text
text_of none = []
text_of (some t) = t

-- the amount's text, its unit, where it was found, and its sign
pub record Found : Type 0 where
  pub raw : Text
  pub unit : Option Text
  pub source : AmountFrom
  pub sign : Option ℕ

found_by : AmountFrom → (Text → Option ℕ) → List (ℕ × Text) → Found
found_by source sign_of gs = record {
  raw = text_of (group_of 1 gs);
  unit = group_of 2 gs;
  source = source;
  sign = sign_of (text_of (group_of 1 gs));
}

-- the three places of an amount, in their order
unfoldable pub find_amount : Unicode → Text → Option Found
unfolding found_by text_of leading_sign forced_sign is_sign
find_amount u body = elim (find u (amount_after_label_re u) body) [
  | some m ↦ some (found_by AmountFrom.label leading_sign (m.1))
  | none ↦ elim (find u (amount_after_direction_re u) body) [
    | some m ↦ some (found_by AmountFrom.direction_word leading_sign (m.1))
    | none ↦ elim (find u (signed_amount_re u) body) [
      | some m ↦ some (found_by AmountFrom.sign forced_sign (m.1))
      | none ↦ none
    ]
  ]
]

-- `parse_amount(m.group(1)) or 0` in rials
read_balance : Unicode → List (ℕ × Text) → Result ValueError ℕ
unfolding rial text_of
read_balance u gs = do
  amount ← parse_amount u (text_of (group_of 1 gs))
  done (rial (elim amount [ none ↦ 0 | some n ↦ n ]) (group_of 2 gs))

-- the balance of a text, where it names one
unfoldable pub find_balance : Unicode → Text → Result ValueError (Option ℕ)
unfolding read_balance
find_balance u body = elim (find u (balance_re u) body) [
  | none ↦ done none
  | some m ↦ elim (read_balance u (m.1)) [ done n ↦ done (some n) | refused e ↦ refused e ]
]

abbrev pub last_four : Text → Text
last_four [] = []
last_four (c ∷ cs) = if leb (length (c ∷ cs)) 4 then c ∷ cs else last_four cs

-- the last four digits, the text they were read from, and whether it was called a card, which is
-- the only one of the three words that starts with U+06A9
unfoldable pub account_from :
    Unicode → Option (Text × List (ℕ × Text)) → Option (Text × Text × Bool)
unfolding text_of
account_from u none = none
account_from u (some m) =
    let raw = text_of (group_of 1 (m.1)) in
    let digits = keep (λ c. is_decimal u c) raw in
    if leb 4 (length digits)
    then some (last_four digits, raw, elim m.0 [ [] ↦ false | (c ∷ cs) ↦ c == 1705 ])
    else none

unfoldable pub find_account : Unicode → Text → Option (Text × Text × Bool)
find_account u body = account_from u (find u (account_re u) body)

unfoldable pub is_unknown : Direction → Bool
is_unknown Direction.unknown = true
is_unknown _ = false

unfoldable pub is_label : AmountFrom → Bool
is_label AmountFrom.label = true
is_label _ = false

unfoldable pub is_phrase : DirectionFrom → Bool
is_phrase DirectionFrom.credit_phrase = true
is_phrase DirectionFrom.debit_phrase = true
is_phrase DirectionFrom.conflicting_phrases = false
is_phrase _ = false

-- the fields of `parse_generic`'s result
unfoldable pub generic_result :
    ℕ
    → AmountFrom
    → Direction
    → DirectionFrom
    → Option ℕ
    → Option (Text × Text × Bool)
    → Option Text
    → ParseResult
unfolding is_unknown is_label is_phrase
generic_result amount source way way_source balance account reference =
    record (parse_result Classification.bank_transaction "generic-fa" version 0) {
      direction = way;
      amount_irr = some amount;
      balance_irr = balance;
      account_hint = elim account [ none ↦ none | some a ↦ some (a.0) ];
      reference = reference;
      confidence =
          if is_phrase way_source && is_label source
          then 90
          else if not (is_unknown way)
          then 70
          else 40;
      evidence = record no_evidence {
        amount_from = some source;
        direction_from = some way_source;
        account_raw = elim account [ none ↦ none | some a ↦ some (a.1) ];
        is_card = elim account [ none ↦ none | some a ↦ some (a.2) ];
      };
      warnings = if is_unknown way then "direction could not be determined" ∷ [] else [];
    }

-- the fields that come behind the amount and the direction
unfoldable pub generic_rest :
    Unicode → Text → ℕ → AmountFrom → Direction × DirectionFrom → Option ℕ → ParseResult
unfolding generic_result find_account
generic_rest u body amount source way balance =
    generic_result amount source (way.0) (way.1) balance (find_account u body)
      (elim (find u (reference_re u) body) [ none ↦ none | some m ↦ group_of 1 (m.1) ])

-- `parse_generic` once the amount and the direction are read
unfoldable pub read_generic :
    Unicode
    → Text
    → ℕ
    → AmountFrom
    → Direction × DirectionFrom
    → Result ValueError (Option ParseResult)
unfolding generic_rest is_unknown is_label find_balance
read_generic u body amount source way =
    if is_unknown (way.0) && not (is_label source)
    then done none
    else (find_balance u body >>= λ balance.
        done (some (generic_rest u body amount source way balance)))

-- the text without dates and times
unfoldable pub without_dates : Unicode → Text → Text
without_dates u text = sub u (date_time_re u) (32 ∷ []) text

unfoldable pub generic_amount :
    Unicode → Text → Found → Option ℕ → Result ValueError (Option ParseResult)
unfolding read_generic direction rial
generic_amount u body found none = done none
generic_amount u body found (some n) =
    read_generic u body (rial n found.unit) found.source (direction u body found.sign)

unfoldable pub generic_from : Unicode → Text → Option Found → Result ValueError (Option ParseResult)
unfolding generic_amount
generic_from u body none = done none
generic_from u body (some found) = parse_amount u found.raw >>= generic_amount u body found

unfoldable pub parse_generic : Unicode → Text → Result ValueError (Option ParseResult)
unfolding without_dates find_amount generic_from
parse_generic u text = let body = without_dates u text in generic_from u body (find_amount u body)

unfoldable pub balance_result : Option ℕ → Option ParseResult
balance_result none = none
balance_result (some n) =
    some
      (record (parse_result Classification.balance "balance" version 80) { balance_irr = some n })

unfoldable pub parse_balance : Unicode → Text → Result ValueError (Option ParseResult)
unfolding without_dates find_balance balance_result
parse_balance u text =
    find_balance u (without_dates u text) >>= λ balance. done (balance_result balance)

unfoldable pub parse_unknown : ParseResult
parse_unknown = parse_result Classification.unknown "unknown" version 0
