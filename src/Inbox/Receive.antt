-- ===== src/Inbox/Receive.antt =====
-- `ingest` of services/ingest.py.
use alo_bot_dashboard.Prelude.{
  ℕ, ◌+◌, Bool, true, false, String, Option, none, some, List, [], ◌∷◌, ◌++◌, if◌then◌else◌,
  is_blank, take, Result, done, refused, require, ◌>>=◌, ◌>>◌,
}
use alo_bot_dashboard.Unicode.{Text}
use alo_bot_dashboard.Sms.{Classification, ParseResult, matched, ValueError}
use alo_bot_dashboard.Sms.Parse.{parse, redact_otp}
use alo_bot_dashboard.Accounts.{Registry}
use alo_bot_dashboard.Devices.{set_device}
use alo_bot_dashboard.Inbox.{
  SmsEvent, TransactionCandidate, Inbox, Outside, IngestError, event_fits, load_patterns,
  find_event,
}
use alo_bot_dashboard.Inbox.Stamp.{parse_timestamp, body_hash, dedupe_key, IngestOutcome}
use alo_bot_dashboard.Inbox.Candidate.{persist_candidate}

unfoldable pub duplicate_of : SmsEvent → IngestOutcome
duplicate_of e = record {
  event_id = e.id;
  duplicate = true;
  classification = e.classification;
  actionable = false;
  transaction_id = none;
}

unfoldable pub is_otp : Classification → Bool
is_otp Classification.otp = true
is_otp _ = false

-- a request of a phone: what came, and the instants of the server's and the database's clocks
pub record Delivery : Type 0 where
  pub device_id : ℕ
  pub sender : Text
  pub message : Text
  pub timestamp_raw : Option Text
  pub checksum : Option String
  pub now : ℕ
  pub received_at : ℕ
  pub request_id : Option String

-- `sms_timestamp`, and the warning where it is the server's
unfoldable pub stamp : Option ℕ → ℕ → ℕ × List String
stamp (some at) now = (at, [])
stamp none now = (now, "timestamp_unparsed_used_received_at" ∷ [])

-- the row of a message
unfoldable pub new_event : Outside → Delivery → ℕ × List String → ParseResult → ℕ → SmsEvent
unfolding is_otp redact_otp body_hash dedupe_key
new_event o d at p id = record {
  id = id;
  device_id = d.device_id;
  sender = take 64 d.sender;
  body = if is_otp p.classification then redact_otp o.unicode d.message else d.message;
  body_hash = body_hash o d.message;
  dedupe_key = dedupe_key o d.device_id d.sender (at.0) d.message;
  checksum = elim d.checksum [ none ↦ none | some c ↦ if is_blank c then none else some c ];
  sms_timestamp = at.0;
  received_at = d.received_at;
  classification = p.classification;
  parser_id = p.parser_id;
  parser_version = p.parser_version;
  warnings = at.1 ++ p.warnings;
  request_id = d.request_id;
}

-- `device.last_success_at = now`
unfoldable pub touch : ℕ → ℕ → Inbox → Inbox
unfolding set_device
touch device_id now s = record s {
  relays = set_device device_id (λ d. record d { last_success_at = some now }) s.relays;
}

unfoldable pub from_parser : {A : Type 0} → Result ValueError A → Result IngestError A
from_parser (done a) = done a
from_parser (refused e) = refused IngestError.value_error

unfoldable pub outcome_of : SmsEvent → ParseResult → Bool → Option ℕ → IngestOutcome
outcome_of e p actionable transaction_id = record {
  event_id = e.id;
  duplicate = false;
  classification = p.classification;
  actionable = actionable;
  transaction_id = transaction_id;
}

-- what a row of transaction_candidates adds
unfoldable pub with_row :
    Delivery → SmsEvent → ParseResult → Inbox × TransactionCandidate × Bool → Inbox × IngestOutcome
unfolding touch outcome_of
with_row d e p (s, t, actionable) =
    (touch d.device_id d.now s, outcome_of e p actionable (some t.id))

-- the rest of `ingest` once the event's row is in
unfoldable pub finish :
    Delivery
    → SmsEvent
    → ParseResult
    → Registry
    → Inbox
    → Result IngestError (Inbox × IngestOutcome)
unfolding persist_candidate with_row matched outcome_of
finish d e p seen s =
    if matched p
    then (persist_candidate e.id p e.sms_timestamp seen s >>= λ x. done (with_row d e p x))
    else done (s, outcome_of e p false none)

unfoldable pub insert_event : SmsEvent → Inbox → Inbox
insert_event e s = record s { events = e ∷ s.events; next_event_id = s.next_event_id + 1 }

-- the flush of the event's row: the unique key may be there by now
unfoldable pub flush_event :
    Delivery
    → SmsEvent
    → ParseResult
    → Option SmsEvent
    → Registry
    → Inbox
    → Result IngestError (Inbox × IngestOutcome)
unfolding finish duplicate_of insert_event
flush_event d e p (some other) seen s = done (s, duplicate_of other)
flush_event d e p none seen s = finish d e p seen (insert_event e s)

-- the transaction that stores a message whose key was not there
unfoldable pub store :
    Outside
    → Delivery
    → ℕ × List String
    → Registry
    → Inbox
    → Result IngestError (Inbox × IngestOutcome)
unfolding new_event flush_event parse load_patterns event_fits from_parser find_event
store o d at seen s = do
  p ← from_parser (parse o.unicode o.regex (load_patterns s) d.message)
  let e = new_event o d at p s.next_event_id
  require (event_fits e) IngestError.data_error
  flush_event d e p (find_event e.dedupe_key s) seen s

-- the instant of a message, and its key
unfoldable pub stamp_of : Outside → Delivery → Result IngestError (ℕ × List String)
unfolding parse_timestamp stamp from_parser
stamp_of o d = do raw ← from_parser (parse_timestamp o d.timestamp_raw); done (stamp raw d.now)

unfoldable pub known_or_store :
    Outside
    → Delivery
    → ℕ × List String
    → Option SmsEvent
    → Registry
    → Inbox
    → Result IngestError (Inbox × IngestOutcome)
unfolding store duplicate_of
known_or_store o d at (some e) seen s = done (s, duplicate_of e)
known_or_store o d at none seen s = store o d at seen s

-- what the two lookups of `ingest` read: the inbox, for the message's key, and the registry, for the
-- account
pub record Seen : Type 0 where
  pub inbox : Inbox
  pub registry : Registry

-- `ingest`. What is looked up is read in `early`; when the rows are written, in the state `s`, another
-- request may have written them.
unfoldable pub ingest :
    Outside → Delivery → Seen → Inbox → Result IngestError (Inbox × IngestOutcome)
unfolding known_or_store stamp_of dedupe_key find_event
ingest o d early s = do
  at ← stamp_of o d
  known_or_store o d at
      (find_event (dedupe_key o d.device_id d.sender (at.0) d.message) early.inbox) early.registry s
