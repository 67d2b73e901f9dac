-- ===== src/Door.antt =====
-- app/api/ingest.py: the door through which the phones' messages come in. The body's bytes are decoded and
-- read as JSON by a parameter, which gives the object, if it is one.
pub mod Handle
pub mod Guarded
use alo_bot_dashboard.Prelude.{
  ℕ, ◌+◌, Bool, true, false, not, ◌&&◌, ◌||◌, String, Option, none, some, List, [], ◌∷◌, ◌++◌, ◌==◌,
  leb, ltb, if◌then◌else◌, length, take, str_eq, is_blank, strip, is_some, Result, done, refused,
  ◌>>=◌,
}
use alo_bot_dashboard.Unicode.{Text, codes, to_string, Unicode}
use alo_bot_dashboard.RateLimit.{Buckets, hit}
use alo_bot_dashboard.Devices.{Device, Relays}
use alo_bot_dashboard.Devices.Admission.{authenticate}
use alo_bot_dashboard.Sms.{ValueError}
use alo_bot_dashboard.Sms.Normalize.{all_of, int_of, is_empty}
use alo_bot_dashboard.Inbox.{Inbox, Outside, IngestError}
use alo_bot_dashboard.Inbox.Stamp.{IngestOutcome}
use alo_bot_dashboard.Inbox.Receive.{Delivery, ingest}

-- a value of the object: none, a text, or another one with its truth and its `str`
pub data Value : Type 0 where
  null : Value
  text : Text → Value
  other : Bool → Text → Value

abbrev pub Object : Type 0
Object = List (String × Value)

-- the settings that the door reads; the header is there if it is configured
pub record DoorConfig : Type 0 where
  pub trusted_proxy_ip_header : Option String
  pub ingest_max_body_bytes : ℕ
  pub ingest_device_rate_per_minute : ℕ
  pub ingest_ip_rate_per_minute : ℕ

-- a request: its headers, the chunks of its body, the clocks that are read on its way, and whether the
-- pool of connections is used up
pub record Request : Type 0 where
  pub header : String → Option Text
  pub chunks : List Text
  pub monotonic : ℕ
  pub now : ℕ
  pub received_at : ℕ
  pub request_id : Option String
  pub saturated : Bool

pub record Door : Type 0 where
  pub inbox : Inbox
  pub ip_limiter : Buckets
  pub device_limiter : Buckets

-- the answers; `failed` is an exception that leaves the handler
pub data Answer : Type 0 where
  ip_rate_limited body_too_large bad_json missing_fields busy unauthorized device_rate_limited
        failed :
      Answer
  accepted : IngestOutcome → Answer

unfoldable pub status_code : Answer → ℕ
status_code Answer.ip_rate_limited = 429
status_code Answer.body_too_large = 413
status_code Answer.bad_json = 400
status_code Answer.missing_fields = 400
status_code Answer.busy = 503
status_code Answer.unauthorized = 401
status_code Answer.device_rate_limited = 429
status_code Answer.failed = 500
status_code (Answer.accepted outcome) = 200

abbrev pub limiter_window : ℕ
limiter_window = 60

unfoldable pub field_of : String → Object → Option Value
field_of name [] = none
field_of name ((key, value) ∷ rest) = if str_eq key name then some value else field_of name rest

-- `_pick`, by the aliases of a name
unfoldable pub pick : List String → Object → Value
unfolding field_of
pick [] object = Value.null
pick (alias ∷ aliases) object = elim (field_of alias object) [
  | some value ↦ value
  | none ↦ pick aliases object
]

abbrev pub api_key_names : List String
api_key_names = "apiKey" ∷ "apikey" ∷ "api_key" ∷ "APIKey" ∷ []

abbrev pub device_id_names : List String
device_id_names = "deviceId" ∷ "deviceid" ∷ "device_id" ∷ []

abbrev pub message_names : List String
message_names = "message" ∷ "Message" ∷ "body" ∷ "text" ∷ "content" ∷ []

abbrev pub sender_names : List String
sender_names = "sender" ∷ "Sender" ∷ "from" ∷ "From" ∷ []

abbrev pub timestamp_names : List String
timestamp_names = "timestamp" ∷ "Timestamp" ∷ "time" ∷ "date" ∷ []

abbrev pub checksum_names : List String
checksum_names = "checksum" ∷ "Checksum" ∷ []

-- `isinstance(v, str) and v`
unfoldable pub filled : Value → Option Text
filled Value.null = none
filled (Value.text t) = if length t == 0 then none else some t
filled (Value.other truth t) = none

-- `parse_timestamp` asks for `str(raw)` of what is not none
unfoldable pub raw_text : Value → Option Text
raw_text Value.null = none
raw_text (Value.text t) = some t
raw_text (Value.other truth t) = some t

-- `str(v)[:64] if v else None`
unfoldable pub checksum_of : Value → Option String
checksum_of Value.null = none
checksum_of (Value.text t) = if length t == 0 then none else some (to_string (take 64 t))
checksum_of (Value.other truth t) = if truth then some (to_string (take 64 t)) else none

-- the chunks while they stream
unfoldable pub read_chunks : ℕ → ℕ → List Text → Option Text
read_chunks cap size [] = some []
read_chunks cap size (chunk ∷ chunks) =
    let rest = read_chunks cap (size + length chunk) chunks in
    if ltb cap (size + length chunk)
    then none
    else elim rest [ none ↦ none | some r ↦ some (chunk ++ r) ]

-- whether the declared length is over the cap; `int` may refuse what `isdigit` takes
unfoldable pub declared_over : Unicode → ℕ → Option Text → Result ValueError Bool
unfolding all_of is_empty int_of
declared_over u cap none = done false
declared_over u cap (some declared) =
    if not (is_empty declared) && all_of (u.is_digit) declared
    then (int_of u declared >>= λ n. done (ltb cap n))
    else done false

-- `_read_capped`
unfoldable pub read_capped : Unicode → ℕ → Request → Result ValueError (Option Text)
unfolding declared_over read_chunks
read_capped u cap r = declared_over u cap (r.header "content-length") >>= λ over.
    done (if over then none else read_chunks cap 0 r.chunks)

-- the four texts that a message needs
pub record Fields : Type 0 where
  pub api_key : Text
  pub device_code : Text
  pub message : Text
  pub sender : Text

unfoldable pub fields_of : Object → Option Fields
unfolding pick filled
fields_of object = elim (filled (pick api_key_names object)) [
  | none ↦ none
  | some api_key ↦ elim (filled (pick device_id_names object)) [
    | none ↦ none
    | some device_code ↦ elim (filled (pick message_names object)) [
      | none ↦ none
      | some message ↦ elim (filled (pick sender_names object)) [
        | none ↦ none
        | some sender ↦ some record {
          api_key = api_key;
          device_code = device_code;
          message = message;
          sender = sender;
        }
      ]
    ]
  ]
]
