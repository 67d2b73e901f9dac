-- ===== src/Examples/Entering.antt =====
-- app/api/ingest.py on a request of the phone, and on one with another key.
use alo_bot_dashboard.Prelude.{
  ◌≡◌, refl, ◌⊎◌, false, String, Option, none, some, [], ◌∷◌, find_where, ◌>>=◌,
}
use alo_bot_dashboard.Unicode.{Text, codes, to_string}
use alo_bot_dashboard.RateLimit.{no_buckets, hit}
use alo_bot_dashboard.Devices.Admission.{authenticate, admit}
use alo_bot_dashboard.Regex.{matches, sub}
use alo_bot_dashboard.Sms.Expressions.{
  otp_re, promo_re, date_time_re, amount_after_label_re, amount_after_direction_re,
  signed_amount_re, balance_re,
}
use alo_bot_dashboard.Sms.Patterns.{apply_patterns}
use alo_bot_dashboard.Inbox.Receive.{ingest}
use alo_bot_dashboard.Door.{Value, Object, DoorConfig, Request, Door, Answer, status_code}
use alo_bot_dashboard.Door.Handle.{receive_sms}
use alo_bot_dashboard.Door.Guarded.{IsUntouched, IsLetIn, receive_sms-IsLetIn}
use alo_bot_dashboard.Examples.Receiving.{seen, outside, no_messages}
use alo_bot_dashboard.Examples.Relaying.{relays, hash}

abbrev config : DoorConfig
config = record {
  trusted_proxy_ip_header = none;
  ingest_max_body_bytes = 8192;
  ingest_device_rate_per_minute = 600;
  ingest_ip_rate_per_minute = 120;
}

abbrev request : Request
request = record {
  header = λ name. none;
  chunks = codes "{}" ∷ [];
  monotonic = 70;
  now = 5;
  received_at = 6;
  request_id = none;
  saturated = false;
}

abbrev door : Door
door = record {
  inbox = record no_messages { relays = relays };
  ip_limiter = no_buckets;
  device_limiter = no_buckets;
}

-- the object of a body, with a key
abbrev object_with : String → Text → Option Object
object_with key raw = some (
    ("apiKey", Value.text (codes key))
    ∷ ("device_id", Value.text (codes "phone-1"))
    ∷ ("text", Value.text (codes "hi"))
    ∷ ("from", Value.text (codes "Bank"))
    ∷ ("timestamp", Value.text (codes "1700000000"))
    ∷ [])

wrong_key :
    (receive_sms outside hash (object_with "abcd2222") config request (seen no_messages) door).1
    ≡ Answer.unauthorized
unfolding receive_sms authenticate find_where ◌>>=◌ to_string admit
wrong_key = refl

right_key :
    status_code
      (receive_sms outside hash (object_with "abcd1111") config request (seen no_messages) door).1
    ≡ 200
unfolding receive_sms authenticate find_where ◌>>=◌ to_string admit status_code hit ingest matches
    otp_re promo_re sub date_time_re amount_after_label_re amount_after_direction_re
    signed_amount_re balance_re apply_patterns
right_key = refl

receive_sms-IsLetIn_example :
    IsUntouched door.inbox
      (receive_sms outside hash
        (object_with "abcd1111")
        config
        request
        (seen no_messages)
        door).0.inbox
    ⊎ IsLetIn outside hash
        (object_with "abcd1111")
        config
        request
        (seen no_messages)
        door
        (receive_sms outside hash (object_with "abcd1111") config request (seen no_messages) door)
receive_sms-IsLetIn_example =
    receive_sms-IsLetIn outside hash (object_with "abcd1111") config request (seen no_messages) door
