-- ===== src/Banks.antt =====
-- services/banks.py: the prefixes of cards and the operators' patterns for a bank's messages.
-- `upper` and `lower` are the methods of `str`.
pub mod Forms
pub mod Tried
pub mod Ready
pub mod Switched
use Prim.Native.Char.{Char, code}
use alo_bot_dashboard.Prelude.{
  ℕ, zero, suc, ◌+◌, ◌-◌, Bool, true, false, not, ◌&&◌, ◌||◌, String, Option, none, some, List, [],
  ◌∷◌, ◌==◌, leb, ltb, if◌then◌else◌, str_eq, strip, is_blank, is_plain, all_in_class, text_length,
  is_none, is_some, any_where, find_where, update_where, keep, Result, done, refused, require,
  or_refuse, ◌>>=◌, ◌>>◌,
}
use alo_bot_dashboard.Model.{Direction}
use alo_bot_dashboard.Audit.{Json, Fields, AuditRow, Actor, audit_row, single, optional_text}
use alo_bot_dashboard.Unicode.{Text, codes, Unicode, to_string}
use alo_bot_dashboard.Integers.{ℤ, int_text}
use alo_bot_dashboard.Sms.{ParseResult, ValueError}
use alo_bot_dashboard.Sms.Patterns.{
  AmountUnit, DbPattern, RegexModule, PatternRefused, check_pattern,
}
use alo_bot_dashboard.Sms.Parse.{parse}

pub record BankCardPrefix : Type 0 where
  pub prefix : String
  pub bank_name : String
  pub updated_by : Option String

-- a priority is counted from the least value of its column, -2147483648
pub record BankSmsPattern : Type 0 where
  pub id : String
  pub bank_name : String
  pub enabled : Bool
  pub priority : ℕ
  pub detect_re : String
  pub amount_re : String
  pub amount_unit : AmountUnit
  pub direction : Direction
  pub balance_re : Option String
  pub account_re : Option String
  pub reference_re : Option String
  pub notes : Option String
  pub updated_by : Option String

pub record Vocabulary : Type 0 where
  pub prefixes : List BankCardPrefix
  pub patterns : List BankSmsPattern
  pub audit : List AuditRow

-- the sentences of `BankError`, of which `bad_expression` names the field, and the database's refusal of
-- a value that its column does not hold
pub data BankError : Type 0 where
  bad_prefix no_such_prefix bad_id bank_needed bad_unit bad_priority no_such_pattern out_of_range :
      BankError
  bad_expression : String → PatternRefused → BankError

abbrev pub VocabularyResult : Type 0
VocabularyResult = Result BankError Vocabulary

-- `str.maketrans` of the Persian digits to ASCII
persian_to_ascii : Text → Text
persian_to_ascii [] = []
persian_to_ascii (c ∷ cs) = (if leb 1776 c && leb c 1785 then c - 1728 else c) ∷ persian_to_ascii cs

only_digits : String → Bool
only_digits String.[] = true
only_digits (String.◌∷◌ c s) = leb 48 (code c) && leb (code c) 57 && only_digits s

-- `re.fullmatch(r"[0-9]{4,8}", prefix)`
unfoldable pub is_prefix : String → Bool
unfolding only_digits text_length
is_prefix s = only_digits s && leb 4 (text_length s) && leb (text_length s) 8

pub log : AuditRow → Vocabulary → Vocabulary
log row v = record v { audit = row ∷ v.audit }

unfoldable pub clean_prefix : String → String
unfolding persian_to_ascii strip to_string
clean_prefix raw = to_string (persian_to_ascii (codes (strip raw)))

unfoldable pub has_prefix : String → BankCardPrefix → Bool
has_prefix s r = str_eq r.prefix s

unfoldable pub upsert_prefix : Actor → String → String → Vocabulary → VocabularyResult
unfolding is_prefix clean_prefix has_prefix log audit_row optional_text strip text_length
upsert_prefix actor raw bank_name v = do
  require (is_prefix (clean_prefix raw) && not (is_blank (strip bank_name))) bad_prefix
  require (leb (text_length (strip bank_name)) 64) out_of_range
  let row = find_where (has_prefix (clean_prefix raw)) v.prefixes
  done (
      log
        (audit_row actor "bank.prefix.set" "bank_card_prefix" (clean_prefix raw)
          (some (single "bank" (elim row [ none ↦ Json.null | some r ↦ Json.text r.bank_name ])))
          (some (single "bank" (Json.text (strip bank_name)))))
        (record v {
          prefixes =
              if is_some row
              then update_where (has_prefix (clean_prefix raw))
                  (λ r. record r { bank_name = strip bank_name; updated_by = some actor.email })
                  v.prefixes
              else record {
                prefix = clean_prefix raw;
                bank_name = strip bank_name;
                updated_by = some actor.email;
              }
                ∷ v.prefixes;
        }))

unfoldable pub delete_prefix : Actor → String → Vocabulary → VocabularyResult
unfolding has_prefix log audit_row
delete_prefix actor prefix v = do
  row ← or_refuse (find_where (has_prefix prefix) v.prefixes) no_such_prefix
  done (
      log
        (audit_row actor "bank.prefix.delete" "bank_card_prefix" prefix
          (some (single "bank" (Json.text row.bank_name))) none)
        (record v { prefixes = keep (λ r. not (has_prefix prefix r)) v.prefixes }))
