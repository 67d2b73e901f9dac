-- ===== src/Accounts.antt =====
-- services/accounts.py: the accounts of the shop, the identifiers by which an SMS names them, and the
-- cards that customers pay to. A card number is the list of the values of its digits: `digits` reads
-- those of a text (`normalize_card` before its length is checked), and `spell` writes them.
pub mod Luhn
pub mod Unique
use alo_bot_dashboard.Prelude.{
  ℕ, ◌+◌, ◌-◌, ◌*◌, ◌%◌, Bool, true, false, not, ◌&&◌, ◌||◌, String, Option, none, some, List, [],
  ◌∷◌, ◌==◌, if◌then◌else◌, ltb, leb, str_eq, strip, is_blank, print, any_where, find_where,
  update_where, keep, length, Result, done, refused, require, or_refuse, ◌>>=◌, ◌>>◌,
}
use alo_bot_dashboard.Model.{AccountStatus}
use alo_bot_dashboard.Audit.{Json, AuditRow, Actor, audit_row, single, two}

pub data IdentifierKind : Type 0 where
  card card_last4 account account_last4 iban other : IdentifierKind

pub data CardStatus : Type 0 where
  active disabled : CardStatus

pub record FinancialAccount : Type 0 where
  pub id : ℕ
  pub bank_name : String
  pub display_name : String
  pub owner_label : Option String
  pub status : AccountStatus
  pub device_id : Option ℕ
  pub inferred_from_account_id : Option ℕ
  pub notes : Option String

pub record Identifier : Type 0 where
  pub id : ℕ
  pub account_id : ℕ
  pub kind : IdentifierKind
  pub value : String
  pub label : Option String

pub record PaymentCard : Type 0 where
  pub id : ℕ
  pub account_id : ℕ
  pub card_number : List ℕ
  pub holder_name : String
  pub status : CardStatus

-- the tables and their sequences
pub record Registry : Type 0 where
  pub accounts : List FinancialAccount
  pub next_account_id : ℕ
  pub identifiers : List Identifier
  pub next_identifier_id : ℕ
  pub cards : List PaymentCard
  pub next_card_id : ℕ
  pub audit : List AuditRow

-- the sentences of `AccountError`
pub data AccountError : Type 0 where
  names_needed bad_status no_such_account bad_kind four_digits empty_value identifier_taken
        no_such_identifier :
      AccountError
  sixteen_digits bad_check_digit holder_needed card_taken bad_card_status no_such_card :
      AccountError

abbrev pub RegistryResult : Type 0
RegistryResult = Result AccountError Registry

unfoldable pub status_text : AccountStatus → String
status_text AccountStatus.pending = "PENDING"
status_text AccountStatus.active = "ACTIVE"
status_text AccountStatus.muted = "MUTED"
status_text AccountStatus.declined = "DECLINED"

unfoldable pub card_status_text : CardStatus → String
card_status_text CardStatus.active = "ACTIVE"
card_status_text CardStatus.disabled = "DISABLED"

unfoldable pub kind_text : IdentifierKind → String
kind_text IdentifierKind.card = "CARD"
kind_text IdentifierKind.card_last4 = "CARD_LAST4"
kind_text IdentifierKind.account = "ACCOUNT"
kind_text IdentifierKind.account_last4 = "ACCOUNT_LAST4"
kind_text IdentifierKind.iban = "IBAN"
kind_text IdentifierKind.other = "OTHER"

-- `kind.endswith("LAST4")`
is_last4 : IdentifierKind → Bool
is_last4 IdentifierKind.card_last4 = true
is_last4 IdentifierKind.account_last4 = true
is_last4 _ = false

-- what a digit counts in the sum, by whether its index from the right is odd
unfoldable pub weight : Bool → ℕ → ℕ
weight odd d = if odd then (if ltb 4 d then d * 2 - 9 else d * 2) else d

-- the loop over `reversed(number)`: the sum, and whether the next index is odd
unfoldable pub luhn_sum : List ℕ → ℕ × Bool
unfolding weight
luhn_sum [] = (0, false)
luhn_sum (d ∷ ds) = let (total, odd) = luhn_sum ds in (total + weight odd d, not odd)

-- `luhn_ok`, of a text of digits
unfoldable pub luhn_ok : List ℕ → Bool
unfolding luhn_sum
luhn_ok number = if ltb (length number) 12 then false else (luhn_sum number).0 % 10 == 0

-- `normalize_card`
unfoldable pub normalize_card : (String → List ℕ) → String → Option (List ℕ)
normalize_card digits raw = if length (digits raw) == 16 then some (digits raw) else none

same_kind : IdentifierKind → IdentifierKind → Bool
unfolding kind_text
same_kind k k' = str_eq (kind_text k) (kind_text k')

unfoldable pub has_identifier : IdentifierKind → String → Identifier → Bool
unfolding same_kind
has_identifier kind value i = same_kind i.kind kind && str_eq i.value value

log : AuditRow → Registry → Registry
log row r = record r { audit = row ∷ r.audit }

-- the foreign key of an identifier and of a card, whose breach is the same `IntegrityError`
unfoldable pub has_account : ℕ → Registry → Bool
has_account account_id r = any_where (λ a. a.id == account_id) r.accounts

-- the checks and the row of `add_identifier`; `clean` translates the digits and drops the blanks,
-- `four` tells a text of four digits
unfoldable pub add_identifier :
    (String → String)
    → (String → Bool)
    → Actor
    → ℕ
    → Option IdentifierKind
    → String
    → Registry
    → RegistryResult
unfolding is_last4 has_identifier has_account log audit_row kind_text print
add_identifier clean four actor account_id kind value r = do
  k ← or_refuse kind bad_kind
  require (not (is_last4 k) || four (clean value)) four_digits
  require (not (str_eq (clean value) "")) empty_value
  require
      (has_account account_id r && not (any_where (has_identifier k (clean value)) r.identifiers))
      identifier_taken
  done (
      log
        (audit_row actor "account.identifier.add" "financial_account" (print account_id) none
          (some (two "kind" (Json.text (kind_text k)) "value" (Json.text (clean value)))))
        (record r {
          identifiers =
              record {
                id = r.next_identifier_id;
                account_id = account_id;
                kind = k;
                value = clean value;
                label = none;
              }
              ∷ r.identifiers;
          next_identifier_id = r.next_identifier_id + 1;
        }))

-- the row of `create_account`
insert_account : String → String → String → Registry → Registry
unfolding strip
insert_account bank_name display_name owner_label r = record r {
  accounts =
      record {
        id = r.next_account_id;
        bank_name = strip bank_name;
        display_name = strip display_name;
        owner_label = if is_blank (strip owner_label) then none else some (strip owner_label);
        status = AccountStatus.active;
        device_id = none;
        inferred_from_account_id = none;
        notes = none;
      }
      ∷ r.accounts;
  next_account_id = r.next_account_id + 1;
}

unfoldable pub create_account :
    (String → String)
    → (String → Bool)
    → Actor
    → String
    → String
    → String
    → Option IdentifierKind
    → String
    → Registry
    → RegistryResult
unfolding insert_account add_identifier log audit_row print strip
create_account clean four actor bank_name display_name owner_label kind value r = do
  require (not (is_blank (strip bank_name) || is_blank (strip display_name))) names_needed
  named ←
      if is_blank (strip value)
      then done (insert_account bank_name display_name owner_label r)
      else add_identifier clean four actor r.next_account_id kind value
          (insert_account bank_name display_name owner_label r)
  done (
      log
        (audit_row actor "account.create" "financial_account" (print r.next_account_id) none
          (some (two "bank" (Json.text (strip bank_name)) "name" (Json.text (strip display_name)))))
        named)

unfoldable pub set_status : Actor → ℕ → Option AccountStatus → Registry → RegistryResult
unfolding log audit_row print status_text
set_status actor account_id status r = do
  s ← or_refuse status bad_status
  found ← or_refuse (find_where (λ a. a.id == account_id) r.accounts) no_such_account
  done (
      log
        (audit_row actor "account.status" "financial_account" (print found.id)
          (some (single "status" (Json.text (status_text found.status))))
          (some (single "status" (Json.text (status_text s)))))
        (record r {
          accounts =
              update_where (λ a. a.id == account_id) (λ a. record a { status = s }) r.accounts;
        }))

unfoldable pub delete_identifier : Actor → ℕ → ℕ → Registry → RegistryResult
unfolding log audit_row print kind_text
delete_identifier actor account_id identifier_id r = do
  ident ← or_refuse (find_where (λ i. i.id == identifier_id) r.identifiers) no_such_identifier
  require (ident.account_id == account_id) no_such_identifier
  done (
      log
        (audit_row actor "account.identifier.delete" "financial_account" (print account_id)
          (some (two "kind" (Json.text (kind_text ident.kind)) "value" (Json.text ident.value)))
          none)
        (record r { identifiers = keep (λ i. not (i.id == identifier_id)) r.identifiers }))

-- two card numbers
unfoldable pub same_number : List ℕ → List ℕ → Bool
same_number [] [] = true
same_number [] (d ∷ ds) = false
same_number (d ∷ ds) [] = false
same_number (d ∷ ds) (e ∷ es) = d == e && same_number ds es

unfoldable pub add_card :
    (String → List ℕ) → (List ℕ → String) → Actor → ℕ → String → String → Registry → RegistryResult
unfolding normalize_card luhn_ok same_number has_account log audit_row print strip
add_card digits spell actor account_id card_number holder_name r = do
  number ← or_refuse (normalize_card digits card_number) sixteen_digits
  require (luhn_ok number) bad_check_digit
  require (not (is_blank (strip holder_name))) holder_needed
  require
      (has_account account_id r && not (any_where (λ c. same_number c.card_number number) r.cards))
      card_taken
  done (
      log
        (audit_row actor "card.add" "financial_account" (print account_id) none
          (some (two "card" (Json.text (spell number)) "holder" (Json.text (strip holder_name)))))
        (record r {
          cards =
              record {
                id = r.next_card_id;
                account_id = account_id;
                card_number = number;
                holder_name = strip holder_name;
                status = CardStatus.active;
              }
              ∷ r.cards;
          next_card_id = r.next_card_id + 1;
        }))

unfoldable pub set_card_status :
    (List ℕ → String) → Actor → ℕ → Option CardStatus → Registry → RegistryResult
unfolding log audit_row card_status_text
set_card_status spell actor card_id status r = do
  s ← or_refuse status bad_card_status
  found ← or_refuse (find_where (λ c. c.id == card_id) r.cards) no_such_card
  done (
      log
        (audit_row actor "card.status" "payment_card" (spell found.card_number)
          (some (single "status" (Json.text (card_status_text found.status))))
          (some (single "status" (Json.text (card_status_text s)))))
        (record r {
          cards = update_where (λ c. c.id == card_id) (λ c. record c { status = s }) r.cards;
        }))
