-- ===== src/Devices/Admission.antt =====
-- `authenticate` of services/ingest.py: whether a key opens the door.
use alo_bot_dashboard.Prelude.{
  ℕ, Bool, false, ◌&&◌, String, Option, none, some, ◌==◌, if◌then◌else◌, str_eq, find_where,
  update_where,
}
use alo_bot_dashboard.Devices.{Device, DeviceCredential, Relays, is_key_of, text_take, set_device}

-- the row that a key is compared with: the device's ACTIVE one, by its prefix
unfoldable pub credential_for : ℕ → String → Relays → Option DeviceCredential
unfolding is_key_of text_take
credential_for device_id api_key s =
    find_where (λ c. is_key_of device_id c && str_eq c.token_prefix (text_take 4 api_key))
      s.credentials

-- `credential is not None and compare_digest(...) and device.is_active`
unfoldable pub accepts : (String → String) → String → Device → Option DeviceCredential → Bool
accepts hash api_key device none = false
accepts hash api_key device (some c) = str_eq c.token_hash (hash api_key) && device.is_active

-- the rest of `authenticate`, once the device is known
unfoldable pub admit : (String → String) → Device → String → ℕ → Relays → Relays × Option Device
unfolding set_device credential_for accepts
admit hash device api_key now s =
    let credential = credential_for device.id api_key s in
    if accepts hash api_key device credential
    then (
      record (set_device device.id (λ d. record d { last_seen_at = some now }) s) {
        credentials =
            update_where (λ c. elim credential [ none ↦ false | some used ↦ c.id == used.id ])
              (λ c. record c { last_used_at = some now }) s.credentials;
      },
      some (record device { last_seen_at = some now }),
    )
    else (set_device device.id (λ d. record d { last_auth_failure_at = some now }) s, none)

-- ... or is not
unfoldable pub admit_known :
    (String → String) → Option Device → String → ℕ → Relays → Relays × Option Device
admit_known hash none api_key now s = (s, none)
admit_known hash (some device) api_key now s = admit hash device api_key now s

unfoldable pub authenticate :
    (String → String) → String → String → ℕ → Relays → Relays × Option Device
unfolding admit_known
authenticate hash device_code api_key now s =
    admit_known hash (find_where (λ d. str_eq d.code_name device_code) s.devices) api_key now s
