-- ===== src/Sms.antt =====
-- app/sms/types.py: what the parser reads out of a bank's message. Amounts are whole rials, and the
-- confidence is in hundredths. The evidence has one field for each key that the parsers write.
pub mod Normalize
pub mod Words
pub mod Expressions
pub mod Parsers
pub mod Patterns
pub mod Parse
pub mod Redacted
pub mod Sound
pub mod Additive
use alo_bot_dashboard.Prelude.{ℕ, Bool, true, false, String, Option, none, some, List, []}
use alo_bot_dashboard.Model.{Direction}
use alo_bot_dashboard.Unicode.{Text}

pub data Classification : Type 0 where
  bank_transaction balance otp promotional unknown : Classification

unfoldable pub classification_text : Classification → String
classification_text Classification.bank_transaction = "BANK_TRANSACTION"
classification_text Classification.balance = "BALANCE"
classification_text Classification.otp = "OTP"
classification_text Classification.promotional = "PROMOTIONAL"
classification_text Classification.unknown = "UNKNOWN"

pub data AmountFrom : Type 0 where
  label direction_word sign : AmountFrom

pub data DirectionFrom : Type 0 where
  credit_phrase debit_phrase sign conflicting_phrases none_found : DirectionFrom

pub record Evidence : Type 0 where
  pub amount_from : Option AmountFrom
  pub direction_from : Option DirectionFrom
  pub account_raw : Option Text
  pub is_card : Option Bool
  pub bank_from_pattern : Option String
  pub pattern : Option String

abbrev pub no_evidence : Evidence
no_evidence = record {
  amount_from = none;
  direction_from = none;
  account_raw = none;
  is_card = none;
  bank_from_pattern = none;
  pattern = none;
}

pub record ParseResult : Type 0 where
  pub classification : Classification
  pub direction : Direction
  pub amount_irr : Option ℕ
  pub balance_irr : Option ℕ
  pub account_hint : Option Text
  pub reference : Option Text
  pub bank_name : Option String
  pub confidence : ℕ
  pub parser_id : Option String
  pub parser_version : Option String
  pub evidence : Evidence
  pub warnings : List String

-- `ParseResult(classification, ...)` with its defaults
abbrev pub parse_result : Classification → String → String → ℕ → ParseResult
parse_result classification parser_id parser_version confidence = record {
  classification = classification;
  direction = Direction.unknown;
  amount_irr = none;
  balance_irr = none;
  account_hint = none;
  reference = none;
  bank_name = none;
  confidence = confidence;
  parser_id = some parser_id;
  parser_version = some parser_version;
  evidence = no_evidence;
  warnings = [];
}

-- `classification in ("BANK_TRANSACTION", "BALANCE")`
unfoldable pub carries_money : Classification → Bool
carries_money Classification.bank_transaction = true
carries_money Classification.balance = true
carries_money _ = false

-- `matched`
unfoldable pub matched : ParseResult → Bool
unfolding carries_money
matched r = carries_money r.classification

-- what `int` raises on a text of digits that are no decimal ones, or on too many
pub data ValueError : Type 0 where
  not_an_integer : ValueError
