-- ===== src/Inbox.antt =====
-- The state behind the SMS door: services/ingest.py and the tables of models/ingest.py that it writes.
-- A text of a message is the list of its code points.
pub mod Resolve
pub mod Stamp
pub mod Candidate
pub mod Receive
pub mod Once
pub mod Redacted
pub mod Named
pub mod Unraced
pub mod Filed
use alo_bot_dashboard.Prelude.{
  ℕ, ◌+◌, ◌^◌, Bool, true, false, ◌&&◌, ◌||◌, String, Option, none, some, List, [], ◌∷◌, ◌++◌, ◌==◌,
  leb, ltb, if◌then◌else◌, length, text_length, str_eq, find_where, map, keep,
}
use alo_bot_dashboard.Model.{Direction, Disposition}
use alo_bot_dashboard.Audit.{AuditRow}
use alo_bot_dashboard.Unicode.{Text, codes, Unicode}
use alo_bot_dashboard.Accounts.{Registry}
use alo_bot_dashboard.Devices.{Relays}
use alo_bot_dashboard.Sms.{Classification, Evidence, ParseResult}
use alo_bot_dashboard.Sms.Patterns.{DbPattern, RegexModule}
use alo_bot_dashboard.Banks.{BankSmsPattern}
use alo_bot_dashboard.Banks.Forms.{to_db_pattern}

pub record SmsEvent : Type 0 where
  pub id : ℕ
  pub device_id : ℕ
  pub sender : Text
  pub body : Text
  pub body_hash : String
  pub dedupe_key : String
  pub checksum : Option String
  pub sms_timestamp : ℕ
  pub received_at : ℕ
  pub classification : Classification
  pub parser_id : Option String
  pub parser_version : Option String
  pub warnings : List String
  pub request_id : Option String

pub record TransactionCandidate : Type 0 where
  pub id : ℕ
  pub sms_event_id : ℕ
  pub account_id : Option ℕ
  pub inferred_account_id : Option ℕ
  pub direction : Direction
  pub amount_irr : Option ℕ
  pub balance_irr : Option ℕ
  pub reference : Option String
  pub account_hint : Option String
  pub bank_name : Option String
  pub bank_timestamp : Option ℕ
  pub confidence : ℕ
  pub parser_id : String
  pub parser_version : String
  pub evidence : Evidence
  pub disposition : Disposition
  pub disposition_note : Option String

pub record Inbox : Type 0 where
  pub registry : Registry
  pub relays : Relays
  pub patterns : List BankSmsPattern
  pub events : List SmsEvent
  pub next_event_id : ℕ
  pub transactions : List TransactionCandidate
  pub next_transaction_id : ℕ
  pub audit : List AuditRow

-- what is not in the repository: the Unicode database, the module `regex`, SHA-256 in hexadecimal
-- digits, the milliseconds of an instant by floating point, and `datetime.fromisoformat`
pub record Outside : Type 0 where
  pub unicode : Unicode
  pub regex : RegexModule
  pub sha256 : Text → String
  pub millis : ℕ → ℕ
  pub from_iso : Text → Option ℕ

-- the exceptions that leave `ingest`
pub data IngestError : Type 0 where
  value_error data_error integrity_error : IngestError

-- a column `String(n)`
unfoldable pub fits : ℕ → Option String → Bool
unfolding text_length
fits n none = true
fits n (some s) = leb (text_length s) n

-- a column `BigInteger`, of an amount
unfoldable pub fits_bigint : Option ℕ → Bool
fits_bigint none = true
fits_bigint (some n) = ltb n (2 ^ 63)

unfoldable pub event_fits : SmsEvent → Bool
unfolding fits
event_fits e =
    leb (length e.sender) 64
    && fits 64 e.checksum
    && fits 64 e.parser_id
    && fits 16 e.parser_version
    && fits 64 e.request_id

unfoldable pub candidate_fits : TransactionCandidate → Bool
unfolding fits fits_bigint
candidate_fits t =
    fits_bigint t.amount_irr
    && fits_bigint t.balance_irr
    && fits 64 t.reference
    && fits 64 t.account_hint
    && fits 64 t.bank_name
    && fits 64 (some t.parser_id)
    && fits 16 (some t.parser_version)

-- `load_patterns`
unfoldable pub load_patterns : Inbox → List DbPattern
unfolding to_db_pattern
load_patterns s = map (λ p. to_db_pattern p false) (keep (λ p. p.enabled) s.patterns)

unfoldable pub find_event : String → Inbox → Option SmsEvent
find_event key s = find_where (λ e. str_eq e.dedupe_key key) s.events
