-- ===== src/Door/Guarded.antt =====
-- What a request must have passed before it changes what the inbox holds.
use alo_bot_dashboard.Prelude.{
  ◌≡◌, refl, inl, inr, ◌⊎◌, Bool, true, false, String, Option, none, some, Bool-cases, Result, done,
  refused,
}
use alo_bot_dashboard.Unicode.{Text, to_string}
use alo_bot_dashboard.RateLimit.{Buckets, hit}
use alo_bot_dashboard.Devices.{Device, Relays}
use alo_bot_dashboard.Devices.Admission.{authenticate}
use alo_bot_dashboard.Sms.{ValueError}
use alo_bot_dashboard.Inbox.{Inbox, Outside, IngestError}
use alo_bot_dashboard.Inbox.Stamp.{IngestOutcome}
use alo_bot_dashboard.Inbox.Receive.{Seen, ingest}
use alo_bot_dashboard.Door.{
  Object, DoorConfig, Request, Door, Answer, Fields, limiter_window, fields_of, read_capped,
}
use alo_bot_dashboard.Door.Handle.{
  client_ip, hit_ip, delivery_of, close_session, handle_device, handle_known, handle, or_busy,
  receive_fields, receive_object, receive_body, receive_sms,
}

-- the messages, the transactions and the accounts are as they were
abbrev pub IsUntouched : Inbox → Inbox → Type 0
IsUntouched s s' =
    (s'.events ≡ s.events) × (s'.transactions ≡ s.transactions) × (s'.registry ≡ s.registry)

-- a message that was stored
abbrev pub IsStored : Result IngestError (Inbox × IngestOutcome) → Door × Answer → Type 0
IsStored m x =
    (y : Inbox × IngestOutcome) × (m ≡ done y)
    × (y.1.duplicate ≡ false)
    × (x.0.inbox ≡ y.0)
    × (x.1 ≡ Answer.accepted (y.1))

close_session-IsStored :
    (door : Door) (m : Result IngestError (Inbox × IngestOutcome))
    → IsUntouched door.inbox (close_session door m).0.inbox ⊎ IsStored m (close_session door m)
unfolding close_session
close_session-IsStored door (refused e) = inl (refl, refl, refl)
close_session-IsStored door (done (s, outcome)) = elim (Bool-cases outcome.duplicate) [
  | inl again ↦ inl (rw again (refl, refl, refl))
  | inr first ↦ inr ((s, outcome), refl, first, rw first refl, rw first refl)
]

or_busy-cases :
    (Q : Door × Answer → Type 0) (b : Bool) (door : Door) (x : Door × Answer)
    → IsUntouched door.inbox x.0.inbox ⊎ Q x
    → IsUntouched door.inbox (or_busy b door x).0.inbox ⊎ Q (or_busy b door x)
unfolding or_busy
or_busy-cases Q true door x h = inl (refl, refl, refl)
or_busy-cases Q false door x h = h

module _ (o : Outside) (hash : String → String) (loads : Text → Option Object) (config : DoorConfig)
    (r : Request) (early : Seen) where
  -- what `_handle` has checked of a request
  pub record IsAuthentic (door : Door) (object : Object) (f : Fields) (x : Door × Answer)
      : Type 0 where
    pub relays : Relays
    pub device : Device
    pub opened :
        authenticate hash (to_string f.device_code) (to_string f.api_key) r.now door.inbox.relays
        ≡ (relays, some device)
    pub within :
        (hit config.ingest_device_rate_per_minute limiter_window device.code_name r.monotonic
          door.device_limiter).1
        ≡ true
    pub stored :
        IsStored
          (ingest o (delivery_of r device object f) early (record door.inbox { relays = relays }))
          x

  handle_device-IsAuthentic :
      (object : Object) (f : Fields) (relays : Relays) (device : Device) (door : Door)
      → authenticate hash (to_string f.device_code) (to_string f.api_key) r.now door.inbox.relays
        ≡ (relays, some device)
      → IsUntouched door.inbox (handle_device o config r object f early relays device door).0.inbox
        ⊎ IsAuthentic door object f (handle_device o config r object f early relays device door)
  unfolding handle_device
  handle_device-IsAuthentic object f relays device door opened =
      let tried =
        hit config.ingest_device_rate_per_minute limiter_window device.code_name r.monotonic
          door.device_limiter in
      elim (Bool-cases (tried.1)) [
        | inr over ↦ inl (rw over (refl, refl, refl))
        | inl ok ↦
            rw ok
              (elim (close_session-IsStored (record door { device_limiter = tried.0 })
                (ingest o (delivery_of r device object f) early
                  (record door.inbox { relays = relays }))) [
                    | inl same ↦ inl same
                    | inr stored ↦ inr record {
                      relays = relays;
                      device = device;
                      opened = opened;
                      within = ok;
                      stored = stored;
                    }
                  ])
      ]

  handle_known-IsAuthentic :
      (object : Object) (f : Fields) (admitted : Relays × Option Device) (door : Door)
      → authenticate hash (to_string f.device_code) (to_string f.api_key) r.now door.inbox.relays
        ≡ admitted
      → IsUntouched door.inbox (handle_known o config r object f early admitted door).0.inbox
        ⊎ IsAuthentic door object f (handle_known o config r object f early admitted door)
  unfolding handle_known
  handle_known-IsAuthentic object f (relays, none) door e = inl (refl, refl, refl)
  handle_known-IsAuthentic object f (relays, some device) door e =
      handle_device-IsAuthentic object f relays device door e

  -- what a request has passed behind the limit of its address
  pub record IsComplete (door : Door) (body : Result ValueError (Option Text)) (x : Door × Answer)
      : Type 0 where
    pub raw : Text
    pub object : Object
    pub fields : Fields
    pub read : body ≡ done (some raw)
    pub json : loads raw ≡ some object
    pub filled : fields_of object ≡ some fields
    pub authentic : IsAuthentic door object fields x

  fields-IsAuthentic :
      (object : Object) (known : Option Fields) (door : Door)
      → IsUntouched door.inbox (receive_fields o hash config r object known early door).0.inbox
        ⊎ ((f : Fields) × (known ≡ some f)
            × IsAuthentic door object f (receive_fields o hash config r object known early door))
  unfolding receive_fields handle
  fields-IsAuthentic object none door = inl (refl, refl, refl)
  fields-IsAuthentic object (some f) door =
      or_busy-cases (λ x. (g : Fields) × (some f ≡ some g) × IsAuthentic door object g x)
        r.saturated door _
        (elim (handle_known-IsAuthentic object f
          (authenticate hash (to_string f.device_code) (to_string f.api_key) r.now
            door.inbox.relays)
          door refl) [ inl same ↦ inl same | inr authentic ↦ inr (f, refl, authentic) ])

  object-IsComplete :
      (raw : Text) (known : Option Object) (door : Door)
      → loads raw ≡ known
      → IsUntouched door.inbox (receive_object o hash config r known early door).0.inbox
        ⊎ IsComplete door (done (some raw)) (receive_object o hash config r known early door)
  unfolding receive_object
  object-IsComplete raw none door e = inl (refl, refl, refl)
  object-IsComplete raw (some object) door e =
      elim (fields-IsAuthentic object (fields_of object) door) [
        | inl same ↦ inl same
        | inr (f, filled, authentic) ↦ inr record {
          raw = raw;
          object = object;
          fields = f;
          read = refl;
          json = e;
          filled = filled;
          authentic = authentic;
        }
      ]

  body-IsComplete :
      (body : Result ValueError (Option Text)) (door : Door)
      → IsUntouched door.inbox (receive_body o hash loads config r body early door).0.inbox
        ⊎ IsComplete door body (receive_body o hash loads config r body early door)
  unfolding receive_body
  body-IsComplete (refused e) door = inl (refl, refl, refl)
  body-IsComplete (done none) door = inl (refl, refl, refl)
  body-IsComplete (done (some raw)) door = object-IsComplete raw (loads raw) door refl

  -- the request of an address within its limit
  abbrev pub let_in : Door → Buckets × Bool
  let_in door =
      hit_ip config.ingest_ip_rate_per_minute r.monotonic (client_ip config r) door.ip_limiter

  pub record IsLetIn (door : Door) (x : Door × Answer) : Type 0 where
    pub address : (let_in door).1 ≡ true
    pub complete :
        IsComplete
          (record door { ip_limiter = (let_in door).0 })
          (read_capped o.unicode config.ingest_max_body_bytes r)
          x

  -- Whatever comes to the public door, the messages, the transactions and the accounts stay as they are, or
  -- the request has passed every guard: its address is within its limit, its body is under the cap and is a
  -- JSON object with the four texts, its key is the one that `authenticate` accepts for the device it names,
  -- and the device is within its own limit; then the inbox is the one that `ingest` gives for this device,
  -- and the answer tells of a new event.
  pub receive_sms-IsLetIn :
      (door : Door)
      → IsUntouched door.inbox (receive_sms o hash loads config r early door).0.inbox
        ⊎ IsLetIn door (receive_sms o hash loads config r early door)
  unfolding receive_sms
  receive_sms-IsLetIn door = elim (Bool-cases ((let_in door).1)) [
    | inr over ↦ inl (rw over (refl, refl, refl))
    | inl ok ↦
        rw ok
          (elim (body-IsComplete (read_capped o.unicode config.ingest_max_body_bytes r)
            (record door { ip_limiter = (let_in door).0 })) [
              | inl same ↦ inl same
              | inr complete ↦ inr record { address = ok; complete = complete }
            ])
  ]
