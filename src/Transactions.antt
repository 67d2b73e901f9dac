-- ===== src/Transactions.antt =====
-- services/transactions.py: what operators correct of what the parser read. The lists and the
-- coverage report are plain queries.
pub mod Filed
pub mod Reread
pub mod Rerun
pub mod Filing
pub mod Resent
use alo_bot_dashboard.Prelude.{
  ℕ, ◌+◌, Bool, true, false, not, ◌&&◌, ◌||◌, String, Option, none, some, List, [], ◌∷◌, ◌==◌,
  if◌then◌else◌, str_eq, strip, is_blank, print, is_some, length, any_where, find_where,
  update_where, keep, Result, done, refused, require, or_refuse, ◌>>=◌, ◌>>◌,
}
use alo_bot_dashboard.Model.{Disposition}
use alo_bot_dashboard.Audit.{
  Json, AuditRow, Actor, audit_row, single, two, optional_num, optional_text,
}
use alo_bot_dashboard.Sms.{Classification, ParseResult, matched}
use alo_bot_dashboard.Sms.Parse.{parse}
use alo_bot_dashboard.Sms.Patterns.{DbPattern}
use alo_bot_dashboard.Accounts.{Registry, has_account}
use alo_bot_dashboard.Inbox.{
  SmsEvent, TransactionCandidate, Inbox, Outside, IngestError, load_patterns, event_fits,
}
use alo_bot_dashboard.Inbox.Candidate.{persist_candidate}
use alo_bot_dashboard.Inbox.Receive.{from_parser}

pub data TransactionError : Type 0 where
  no_such_transaction no_such_account bad_disposition : TransactionError

log : AuditRow → Inbox → Inbox
log row s = record s { audit = row ∷ s.audit }

unfoldable pub get_candidate : ℕ → Inbox → Option TransactionCandidate
get_candidate i s = find_where (λ t. t.id == i) s.transactions

unfoldable pub set_candidate : ℕ → (TransactionCandidate → TransactionCandidate) → Inbox → Inbox
set_candidate i f s = record s { transactions = update_where (λ t. t.id == i) f s.transactions }

-- `account_id is not None and session.get(FinancialAccount, account_id) is None`
missing_account : Option ℕ → Inbox → Bool
missing_account none s = false
missing_account (some a) s = not (has_account a s.registry)

unfoldable pub assign_account : Actor → ℕ → Option ℕ → Inbox → Result TransactionError Inbox
unfolding get_candidate set_candidate missing_account has_account log audit_row optional_num print
assign_account actor transaction_id account_id s = do
  tx ← or_refuse (get_candidate transaction_id s) no_such_transaction
  require (not (missing_account account_id s)) no_such_account
  done (
      log
        (audit_row actor "transaction.assign_account" "transaction" (print tx.id)
          (some (single "account_id" (optional_num tx.account_id)))
          (some (single "account_id" (optional_num account_id))))
        (set_candidate transaction_id (λ t. record t { account_id = account_id }) s))

unfoldable pub disposition_text : Disposition → String
disposition_text Disposition.actionable = "ACTIONABLE"
disposition_text Disposition.declined_income = "DECLINED_INCOME"
disposition_text Disposition.ignored = "IGNORED"

-- `note.strip() or None`
note_of : String → Option String
unfolding strip
note_of note = if is_blank (strip note) then none else some (strip note)

unfoldable pub set_disposition :
    Actor → ℕ → Option Disposition → String → Inbox → Result TransactionError Inbox
unfolding get_candidate set_candidate note_of log audit_row optional_text print disposition_text
set_disposition actor transaction_id disposition note s = do
  d ← or_refuse disposition bad_disposition
  tx ← or_refuse (get_candidate transaction_id s) no_such_transaction
  done (
      log
        (audit_row actor "transaction.disposition" "transaction" (print tx.id)
          (some (single "disposition" (Json.text (disposition_text tx.disposition))))
          (some (
            two "disposition" (Json.text (disposition_text d)) "note"
              (optional_text (note_of note)))))
        (set_candidate transaction_id
          (λ t. record t { disposition = d; disposition_note = note_of note }) s))

unfoldable pub is_unknown : Classification → Bool
is_unknown Classification.unknown = true
is_unknown _ = false

-- what the parser says now of an event
reclassified : ParseResult → SmsEvent → SmsEvent
reclassified p e = record e {
  classification = p.classification;
  parser_id = p.parser_id;
  parser_version = p.parser_version;
}

unfoldable pub reclassify : SmsEvent → ParseResult → Inbox → Inbox
unfolding reclassified
reclassify ev p s = record s {
  events = update_where (λ e. e.id == ev.id) (reclassified p) s.events;
}

-- the state without the row, which `persist_candidate` returns too
state_of : Inbox × TransactionCandidate × Bool → Inbox
state_of x = x.0

-- one event whose classification is known by now
unfoldable pub reparse_known : SmsEvent → ParseResult → Registry → Inbox → Result IngestError Inbox
unfolding reclassify reclassified event_fits persist_candidate matched state_of
reparse_known ev p seen s = do
  require (event_fits (reclassified p ev)) IngestError.data_error
  if matched p
      then (persist_candidate ev.id p ev.sms_timestamp seen (reclassify ev p s) >>= λ x.
          done (state_of x))
      else done (reclassify ev p s)

reparse_one :
    Outside
    → (Registry → Registry)
    → List DbPattern
    → Bool
    → SmsEvent
    → Inbox × ℕ
    → Result IngestError (Inbox × ℕ)
unfolding reparse_known is_unknown parse from_parser
reparse_one o lookup patterns apply ev (s, changed) = do
  p ← from_parser (parse o.unicode o.regex patterns ev.body)
  if is_unknown p.classification
      then done (s, changed)
      else if apply
      then (reparse_known ev p (lookup s.registry) s >>= λ s'. done (s', changed + 1))
      else done (s, changed + 1)

unfoldable pub reparse_all :
    Outside
    → (Registry → Registry)
    → List DbPattern
    → Bool
    → List SmsEvent
    → Inbox × ℕ
    → Result IngestError (Inbox × ℕ)
unfolding reparse_one
reparse_all o lookup patterns apply [] acc = done acc
reparse_all o lookup patterns apply (ev ∷ evs) acc =
    reparse_one o lookup patterns apply ev acc >>= reparse_all o lookup patterns apply evs

-- what the page shows of a run
pub record Reparsed : Type 0 where
  pub inbox : Inbox
  pub examined : ℕ
  pub changed : ℕ

-- `reparse_unparsed`; `lookup` gives the registry that the lookup of an account reads, where other
-- requests write between it and the rows
unfoldable pub reparse_unparsed :
    Outside → (Registry → Registry) → Actor → Bool → Inbox → Result IngestError Reparsed
unfolding reparse_all is_unknown load_patterns log audit_row
reparse_unparsed o lookup actor apply s = do
  let events = keep (λ e. is_unknown e.classification) s.events
  (s', changed) ← reparse_all o lookup (load_patterns s) apply events (s, 0)
  done (record {
    inbox =
        if apply
        then log
            (audit_row actor "transactions.reparse" "sms_events" "unknown" none
              (some (single "reparsed" (Json.num changed))))
            s'
        else s';
    examined = length events;
    changed = changed;
  })
