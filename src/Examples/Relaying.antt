-- ===== src/Examples/Relaying.antt =====
-- services/devices.py on one phone, with a hash that keeps the token.
use alo_bot_dashboard.Prelude.{
  ◌≡◌, refl, true, false, String, none, some, [], ◌∷◌, arith, str_eq, is_some, find_where,
  any_where, update_where, count_where, done, refused, ◌>>=◌,
}
use alo_bot_dashboard.Audit.{Actor}
use alo_bot_dashboard.Devices.{
  CredentialStatus, Device, Relays, RelayResult, is_code, is_key_of, text_take, revoke, rotate,
}
use alo_bot_dashboard.Devices.Admission.{authenticate}
use alo_bot_dashboard.Devices.Single.{HasOneKey, Relayed, Relaying, Relaying-HasOneKey}
use alo_bot_dashboard.Devices.Keys.{rotate-opens}

abbrev actor_sara : Actor
actor_sara = record { id = 1; email = "sara@shop.example"; role = "ADMIN" }

abbrev pub hash : String → String
hash token = token

abbrev phone : Device
phone = record {
  id = 3;
  code_name = "phone-1";
  display_name = "Phone";
  description = none;
  is_active = true;
  last_seen_at = none;
  last_success_at = none;
  last_auth_failure_at = none;
}

abbrev pub relays : Relays
relays = record {
  devices = phone ∷ [];
  next_device_id = 4;
  credentials =
      record {
        id = 1;
        device_id = 3;
        token_hash = "abcd1111";
        token_prefix = "abcd";
        status = CredentialStatus.active;
        revoked_at = none;
        last_used_at = none;
      }
      ∷ [];
  next_credential_id = 2;
  audit = [];
}

abbrev or_relays : RelayResult → Relays
or_relays (done s) = s
or_relays (refused e) = relays

abbrev after_revoke : Relays
after_revoke = or_relays (revoke actor_sara 3 100 relays)

revokes : revoke actor_sara 3 100 relays ≡ done after_revoke
unfolding revoke ◌>>=◌ find_where
revokes = refl

abbrev after_rotate : Relays
after_rotate = or_relays (rotate hash "wxyz2222" actor_sara 3 100 relays)

rotates : rotate hash "wxyz2222" actor_sara 3 100 relays ≡ done after_rotate
unfolding rotate ◌>>=◌ find_where any_where update_where
rotates = refl

finds_phone : find_where (λ x. str_eq x.code_name "phone-1") relays.devices ≡ some phone
unfolding find_where
finds_phone = refl

code_taken_in : is_code "phone-1" ≡ true
unfolding is_code
code_taken_in = refl

code_too_short : is_code "p" ≡ false
unfolding is_code
code_too_short = refl

rotate-opens_example : is_some (authenticate hash "phone-1" "wxyz2222" 200 after_rotate).1 ≡ true
unfolding text_take
rotate-opens_example =
    (rotate-opens hash "wxyz2222" actor_sara 100 200 "phone-1" "wxyz2222" relays phone
        finds_phone).at
      after_rotate rotates

relays-HasOneKey : HasOneKey relays
unfolding count_where is_key_of
relays-HasOneKey = record { one = λ i. ground arith }

Relaying-HasOneKey_example : HasOneKey after_rotate
Relaying-HasOneKey_example =
    Relaying-HasOneKey
      (Relaying.and_then Relaying.idle
        (Relayed.rotated hash "wxyz2222" actor_sara 3 100 relays after_rotate rotates))
      relays-HasOneKey
