-- ===== src/Banks/Forms.antt =====
-- The patterns that operators write for a bank's messages: their form, their switch and the sandbox.
use Prim.Native.Char.{code}
use alo_bot_dashboard.Prelude.{
  ℕ, ◌+◌, ◌-◌, Bool, true, false, not, ◌&&◌, ◌||◌, String, Option, none, some, List, [], ◌∷◌, leb,
  ltb, if◌then◌else◌, str_eq, strip, is_blank, is_plain, all_in_class, text_length, is_some,
  find_where, update_where, keep, Result, done, refused, require, or_refuse, ◌>>=◌, ◌>>◌,
}
use alo_bot_dashboard.Model.{Direction}
use alo_bot_dashboard.Audit.{Json, Fields, Actor, audit_row, single, optional_text}
use alo_bot_dashboard.Unicode.{Text, codes, Unicode}
use alo_bot_dashboard.Integers.{ℤ, int_text}
use alo_bot_dashboard.Sms.{ParseResult, ValueError}
use alo_bot_dashboard.Sms.Patterns.{AmountUnit, DbPattern, RegexModule, check_pattern}
use alo_bot_dashboard.Sms.Parse.{parse}
use alo_bot_dashboard.Banks.{BankSmsPattern, Vocabulary, BankError, VocabularyResult, log}

-- the form's fields, each of which may be missing
pub record PatternForm : Type 0 where
  pub id : Option String
  pub bank_name : Option String
  pub detect_re : Option String
  pub amount_re : Option String
  pub amount_unit : Option String
  pub direction : Option String
  pub balance_re : Option String
  pub account_re : Option String
  pub reference_re : Option String
  pub priority : Option String
  pub notes : Option String

-- `(value or "").strip()`
unfoldable pub given : Option String → String
unfolding strip
given none = ""
given (some s) = strip s

-- `_clean`
unfoldable pub clean : Option String → Option String
unfolding given
clean value = if is_blank (given value) then none else some (given value)

-- `value or default`
or_default : Option String → String → String
or_default none d = d
or_default (some s) d = if is_blank s then d else s

-- `re.fullmatch(r"[a-z0-9][a-z0-9_-]{0,63}", pid)`
unfoldable pub is_pattern_id : String → Bool
unfolding is_plain all_in_class text_length
is_pattern_id String.[] = false
is_pattern_id (String.◌∷◌ c s) = is_plain (code c) && all_in_class s && leb (text_length s) 63

unit_of : String → Option AmountUnit
unit_of s =
    if str_eq s "IRR"
    then some AmountUnit.irr
    else if str_eq s "TOMAN"
    then some AmountUnit.toman
    else none

direction_of : String → Option Direction
direction_of s =
    if str_eq s "CREDIT"
    then some Direction.credit
    else if str_eq s "DEBIT"
    then some Direction.debit
    else none

-- the value of the column, where it holds it
column_value : ℤ → Option ℕ
column_value (ℤ.pos n) = if ltb n 2147483648 then some (2147483648 + n) else none
column_value (ℤ.negsuc n) = if ltb n 2147483648 then some (2147483647 - n) else none

module _ (u : Unicode) (upper lower : String → String) (m : RegexModule)
    (slow : String → Text → Bool) (bait : List Text) where
  unfoldable pub expression_ok : String → String → Result BankError (Unit {0})
  expression_ok key expression = elim (check_pattern m slow bait expression) [
    | none ↦ done tt
    | some e ↦ refused (BankError.bad_expression key e)
  ]

  -- an expression that may be missing
  unfoldable pub optional_ok : String → Option String → Result BankError (Unit {0})
  unfolding expression_ok clean
  optional_ok key value = elim (clean value) [ none ↦ done tt | some s ↦ expression_ok key s ]

  -- the row of a form, with its switch off
  unfoldable pub validate_pattern_fields : PatternForm → Result BankError BankSmsPattern
  unfolding expression_ok optional_ok given clean or_default is_pattern_id unit_of direction_of
      column_value int_text strip text_length
  validate_pattern_fields f = do
    require (is_pattern_id (lower (given f.id))) BankError.bad_id
    require (not (is_blank (given f.bank_name))) BankError.bank_needed
    expression_ok "detect_re" (given f.detect_re)
    expression_ok "amount_re" (given f.amount_re)
    optional_ok "balance_re" f.balance_re
    optional_ok "account_re" f.account_re
    optional_ok "reference_re" f.reference_re
    unit ← or_refuse (unit_of (upper (strip (or_default f.amount_unit "IRR")))) BankError.bad_unit
    way ←
        or_refuse (direction_of (upper (strip (or_default f.direction "CREDIT"))))
          BankError.bad_unit
    number ←
        or_refuse (int_text u (codes (strip (or_default f.priority "100")))) BankError.bad_priority
    priority ← or_refuse (column_value number) BankError.out_of_range
    require (leb (text_length (given f.bank_name)) 64) BankError.out_of_range
    done (record {
      id = lower (given f.id);
      bank_name = given f.bank_name;
      enabled = false;
      priority = priority;
      detect_re = given f.detect_re;
      amount_re = given f.amount_re;
      amount_unit = unit;
      direction = way;
      balance_re = clean f.balance_re;
      account_re = clean f.account_re;
      reference_re = clean f.reference_re;
      notes = clean f.notes;
      updated_by = none;
    })

unfoldable pub has_id : String → BankSmsPattern → Bool
has_id s p = str_eq p.id s

unit_text : AmountUnit → String
unit_text AmountUnit.irr = "IRR"
unit_text AmountUnit.toman = "TOMAN"

way_text : Direction → String
way_text Direction.credit = "CREDIT"
way_text Direction.debit = "DEBIT"
way_text Direction.unknown = "UNKNOWN"

-- the fields of a form, as the audit row has them; the priority stands as the column's number
form_json : BankSmsPattern → Json
form_json p = Json.obj (
    Fields.field "id" (Json.text p.id) (
      Fields.field "bank_name" (Json.text p.bank_name) (
        Fields.field "detect_re" (Json.text p.detect_re) (
          Fields.field "amount_re" (Json.text p.amount_re) (
            Fields.field "amount_unit" (Json.text (unit_text p.amount_unit)) (
              Fields.field "direction" (Json.text (way_text p.direction)) (
                Fields.field "balance_re" (optional_text p.balance_re) (
                  Fields.field "account_re" (optional_text p.account_re) (
                    Fields.field "reference_re" (optional_text p.reference_re) (
                      Fields.field "priority" (Json.num p.priority)
                        (Fields.field "notes" (optional_text p.notes) Fields.end)))))))))))

-- the fields of the form in a row that is there: the switch stays as it is
unfoldable pub overwrite : Actor → BankSmsPattern → BankSmsPattern → BankSmsPattern
overwrite actor new p = record new { enabled = p.enabled; updated_by = some actor.email }

unfoldable pub save_pattern :
    Actor → Result BankError BankSmsPattern → Vocabulary → VocabularyResult
unfolding has_id overwrite log audit_row form_json unit_text way_text
save_pattern actor validated v = do
  row ← validated
  let known = is_some (find_where (has_id row.id) v.patterns)
  done (
      log
        (audit_row actor (if known then "bank.pattern.update" else "bank.pattern.create")
          "bank_sms_pattern" row.id none (some (form_json row)))
        (record v {
          patterns =
              if known
              then update_where (has_id row.id) (overwrite actor row) v.patterns
              else record row { updated_by = some actor.email } ∷ v.patterns;
        }))

unfoldable pub set_pattern_enabled : Actor → String → Bool → Vocabulary → VocabularyResult
unfolding has_id log audit_row
set_pattern_enabled actor pattern_id enabled v = do
  row ← or_refuse (find_where (has_id pattern_id) v.patterns) BankError.no_such_pattern
  done (
      log
        (audit_row actor "bank.pattern.enabled" "bank_sms_pattern" pattern_id none
          (some (single "enabled" (Json.flag enabled))))
        (record v {
          patterns =
              update_where (has_id pattern_id)
                (λ p. record p { enabled = enabled; updated_by = some actor.email }) v.patterns;
        }))

unfoldable pub delete_pattern : Actor → String → Vocabulary → VocabularyResult
unfolding has_id log audit_row
delete_pattern actor pattern_id v = do
  row ← or_refuse (find_where (has_id pattern_id) v.patterns) BankError.no_such_pattern
  done (
      log (audit_row actor "bank.pattern.delete" "bank_sms_pattern" pattern_id none none)
        (record v { patterns = keep (λ p. not (has_id pattern_id p)) v.patterns }))

unfoldable pub to_db_pattern : BankSmsPattern → Bool → DbPattern
to_db_pattern p force_enabled = record {
  id = p.id;
  bank_name = p.bank_name;
  enabled = p.enabled || force_enabled;
  priority = p.priority;
  detect_re = p.detect_re;
  amount_re = p.amount_re;
  amount_unit = p.amount_unit;
  direction = p.direction;
  balance_re = p.balance_re;
  account_re = p.account_re;
  reference_re = p.reference_re;
}

unfoldable pub sandbox :
    Unicode → RegexModule → BankSmsPattern → Text → Result ValueError ParseResult
unfolding to_db_pattern
sandbox u m p sample = parse u m (to_db_pattern p true ∷ []) sample
