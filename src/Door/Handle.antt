-- ===== src/Door/Handle.antt =====
-- The handler of the public door, stage by stage.
use alo_bot_dashboard.Prelude.{
  ℕ, Bool, true, false, String, Option, none, some, ◌==◌, if◌then◌else◌, length, is_blank, strip,
  Result, done, refused,
}
use alo_bot_dashboard.Unicode.{Text, to_string}
use alo_bot_dashboard.RateLimit.{Buckets, hit}
use alo_bot_dashboard.Devices.{Device, Relays}
use alo_bot_dashboard.Devices.Admission.{authenticate}
use alo_bot_dashboard.Sms.{ValueError}
use alo_bot_dashboard.Inbox.{Inbox, Outside, IngestError}
use alo_bot_dashboard.Inbox.Stamp.{IngestOutcome}
use alo_bot_dashboard.Inbox.Receive.{Delivery, Seen, ingest}
use alo_bot_dashboard.Door.{
  Object, DoorConfig, Request, Door, Answer, limiter_window, pick, timestamp_names, checksum_names,
  raw_text, checksum_of, read_capped, Fields, fields_of,
}

-- `client_ip`
unfoldable pub client_ip : DoorConfig → Request → Option String
unfolding strip
client_ip config r = elim config.trusted_proxy_ip_header [
  | none ↦ none
  | some name ↦ if is_blank name then none else elim (r.header name) [
    | none ↦ none
    | some value ↦ if length value == 0 then none else some (strip (to_string value))
  ]
]

-- the requests of an address, where it is known
unfoldable pub hit_ip : ℕ → ℕ → Option String → Buckets → Buckets × Bool
hit_ip limit at none buckets = (buckets, true)
hit_ip limit at (some ip) buckets = hit limit limiter_window ip at buckets

unfoldable pub delivery_of : Request → Device → Object → Fields → Delivery
unfolding raw_text checksum_of pick
delivery_of r device object f = record {
  device_id = device.id;
  sender = f.sender;
  message = f.message;
  timestamp_raw = raw_text (pick timestamp_names object);
  checksum = checksum_of (pick checksum_names object);
  now = r.now;
  received_at = r.received_at;
  request_id = r.request_id;
}

-- the end of a request: what was not committed is gone with the session, also where the message is a
-- duplicate
unfoldable pub close_session : Door → Result IngestError (Inbox × IngestOutcome) → Door × Answer
close_session door (refused e) = (door, Answer.failed)
close_session door (done (s, outcome)) =
    (if outcome.duplicate then door else record door { inbox = s }, Answer.accepted outcome)

-- `_handle` for a device that was let in; its new timestamps are not committed yet
unfoldable pub handle_device :
    Outside → DoorConfig → Request → Object → Fields → Seen → Relays → Device → Door → Door × Answer
unfolding delivery_of close_session
handle_device o config r object f early relays device door =
    let (buckets, ok) =
      hit config.ingest_device_rate_per_minute limiter_window device.code_name r.monotonic
        door.device_limiter in
    let door' = record door { device_limiter = buckets } in
    if ok
    then close_session door'
        (ingest o (delivery_of r device object f) early (record door.inbox { relays = relays }))
    else (door', Answer.device_rate_limited)

unfoldable pub handle_known :
    Outside
    → DoorConfig
    → Request
    → Object
    → Fields
    → Seen
    → Relays × Option Device
    → Door
    → Door × Answer
unfolding handle_device
handle_known o config r object f early (relays, none) door =
    (record door { inbox = record door.inbox { relays = relays } }, Answer.unauthorized)
handle_known o config r object f early (relays, some device) door =
    handle_device o config r object f early relays device door

-- `_handle`
unfoldable pub handle :
    Outside
    → (String → String)
    → DoorConfig
    → Request
    → Object
    → Fields
    → Seen
    → Door
    → Door × Answer
unfolding handle_known
handle o hash config r object f early door =
    handle_known o config r object f early
      (authenticate hash (to_string f.device_code) (to_string f.api_key) r.now door.inbox.relays)
      door

-- `PoolTimeout`
unfoldable pub or_busy : Bool → Door → Door × Answer → Door × Answer
or_busy true door x = (door, Answer.busy)
or_busy false door x = x

unfoldable pub receive_fields :
    Outside
    → (String → String)
    → DoorConfig
    → Request
    → Object
    → Option Fields
    → Seen
    → Door
    → Door × Answer
unfolding handle or_busy
receive_fields o hash config r object none early door = (door, Answer.missing_fields)
receive_fields o hash config r object (some f) early door =
    or_busy r.saturated door (handle o hash config r object f early door)

unfoldable pub receive_object :
    Outside → (String → String) → DoorConfig → Request → Option Object → Seen → Door → Door × Answer
unfolding receive_fields fields_of
receive_object o hash config r none early door = (door, Answer.bad_json)
receive_object o hash config r (some object) early door =
    receive_fields o hash config r object (fields_of object) early door

unfoldable pub receive_body :
    Outside
    → (String → String)
    → (Text → Option Object)
    → DoorConfig
    → Request
    → Result ValueError (Option Text)
    → Seen
    → Door
    → Door × Answer
unfolding receive_object
receive_body o hash loads config r (refused e) early door = (door, Answer.failed)
receive_body o hash loads config r (done none) early door = (door, Answer.body_too_large)
receive_body o hash loads config r (done (some raw)) early door =
    receive_object o hash config r (loads raw) early door

-- `receive_sms`: what `ingest` looks up is read in `early`
unfoldable pub receive_sms :
    Outside
    → (String → String)
    → (Text → Option Object)
    → DoorConfig
    → Request
    → Seen
    → Door
    → Door × Answer
unfolding receive_body read_capped client_ip hit_ip
receive_sms o hash loads config r early door =
    let (buckets, ok) =
      hit_ip config.ingest_ip_rate_per_minute r.monotonic (client_ip config r) door.ip_limiter in
    let door' = record door { ip_limiter = buckets } in
    if ok
    then receive_body o hash loads config r (read_capped o.unicode config.ingest_max_body_bytes r)
        early door'
    else (door', Answer.ip_rate_limited)
