-- ===== src/Devices.antt =====
-- services/devices.py and the credentials of services/ingest.py: the relay phones and their tokens.
-- `hash` is the SHA-256 of a token in hexadecimal digits, and the tokens are drawn by the caller.
pub mod Admission
pub mod Single
pub mod Keys
use Prim.Native.Char.{Char, code}
use alo_bot_dashboard.Prelude.{
  ℕ, zero, suc, ◌+◌, Bool, true, false, not, ◌&&◌, ◌||◌, String, Option, none, some, List, [], ◌∷◌,
  ◌==◌, leb, if◌then◌else◌, str_eq, strip, is_blank, print, is_some, is_plain, all_in_class,
  text_length, any_where, count_where, find_where, update_where, Result, done, refused, require,
  or_refuse, ◌>>=◌, ◌>>◌,
}
use alo_bot_dashboard.Audit.{Json, AuditRow, Actor, audit_row, single}

pub data CredentialStatus : Type 0 where
  active revoked : CredentialStatus

pub record Device : Type 0 where
  pub id : ℕ
  pub code_name : String
  pub display_name : String
  pub description : Option String
  pub is_active : Bool
  pub last_seen_at : Option ℕ
  pub last_success_at : Option ℕ
  pub last_auth_failure_at : Option ℕ

pub record DeviceCredential : Type 0 where
  pub id : ℕ
  pub device_id : ℕ
  pub token_hash : String
  pub token_prefix : String
  pub status : CredentialStatus
  pub revoked_at : Option ℕ
  pub last_used_at : Option ℕ

pub record Relays : Type 0 where
  pub devices : List Device
  pub next_device_id : ℕ
  pub credentials : List DeviceCredential
  pub next_credential_id : ℕ
  pub audit : List AuditRow

-- the sentences of `DeviceError`; `integrity_error` is the exception of a flush that nothing catches
pub data DeviceError : Type 0 where
  bad_code name_needed code_taken no_such_device integrity_error : DeviceError

abbrev pub RelayResult : Type 0
RelayResult = Result DeviceError Relays

unfoldable pub is_live : CredentialStatus → Bool
is_live CredentialStatus.active = true
is_live CredentialStatus.revoked = false

-- the predicate of the partial unique index
unfoldable pub is_key_of : ℕ → DeviceCredential → Bool
unfolding is_live
is_key_of device_id c = c.device_id == device_id && is_live c.status

-- `text[:n]`
unfoldable pub text_take : ℕ → String → String
text_take zero s = String.[]
text_take (suc n) String.[] = String.[]
text_take (suc n) (String.◌∷◌ c s) = String.◌∷◌ c (text_take n s)

-- `revoke_credentials`, before any commit, and its rowcount
unfoldable pub revoke_credentials : ℕ → ℕ → Relays → Relays × ℕ
unfolding is_key_of
revoke_credentials device_id now s = (
  record s {
    credentials =
        update_where (is_key_of device_id)
          (λ c. record c { status = CredentialStatus.revoked; revoked_at = some now })
          s.credentials;
  },
  count_where (is_key_of device_id) s.credentials,
)

-- the row of a fresh token
unfoldable pub new_credential : (String → String) → String → ℕ → ℕ → DeviceCredential
unfolding text_take
new_credential hash token device_id id = record {
  id = id;
  device_id = device_id;
  token_hash = hash token;
  token_prefix = text_take 4 token;
  status = CredentialStatus.active;
  revoked_at = none;
  last_used_at = none;
}

-- its flush: the hash is unique, and so is a device's ACTIVE row
unfoldable pub insert_credential : (String → String) → String → ℕ → Relays → RelayResult
unfolding is_key_of new_credential
insert_credential hash token device_id s =
    if any_where (λ c. str_eq c.token_hash (hash token)) s.credentials
      || any_where (is_key_of device_id) s.credentials
    then refused integrity_error
    else done (record s {
      credentials = new_credential hash token device_id s.next_credential_id ∷ s.credentials;
      next_credential_id = s.next_credential_id + 1;
    })

unfoldable pub issue_credential : (String → String) → String → ℕ → ℕ → Relays → RelayResult
unfolding revoke_credentials insert_credential
issue_credential hash token device_id now s =
    insert_credential hash token device_id (revoke_credentials device_id now s).0

log : AuditRow → Relays → Relays
log row s = record s { audit = row ∷ s.audit }

-- `re.fullmatch(r"[a-z0-9][a-z0-9_-]{1,31}", code)`
unfoldable pub is_code : String → Bool
unfolding is_plain all_in_class text_length
is_code String.[] = false
is_code (String.◌∷◌ c s) =
    is_plain (code c) && all_in_class s && leb 1 (text_length s) && leb (text_length s) 31

-- `code.strip().lower()`; `lower` is `str.lower`
unfoldable pub create_device :
    (String → String)
    → (String → String)
    → String
    → Actor
    → String
    → String
    → ℕ
    → Relays
    → RelayResult
unfolding is_code issue_credential log audit_row strip
create_device lower hash token actor raw display_name now s = do
  require (is_code (lower (strip raw))) bad_code
  require (not (is_blank (strip display_name))) name_needed
  require (not (any_where (λ d. str_eq d.code_name (lower (strip raw))) s.devices)) code_taken
  issued ← issue_credential hash token s.next_device_id now (record s {
    devices =
        record {
          id = s.next_device_id;
          code_name = lower (strip raw);
          display_name = strip display_name;
          description = none;
          is_active = true;
          last_seen_at = none;
          last_success_at = none;
          last_auth_failure_at = none;
        }
        ∷ s.devices;
    next_device_id = s.next_device_id + 1;
  })
  done (
      log
        (audit_row actor "device.create" "device" (lower (strip raw)) none
          (some (single "display_name" (Json.text (strip display_name)))))
        issued)

unfoldable pub get_device : ℕ → Relays → Option Device
get_device device_id s = find_where (λ d. d.id == device_id) s.devices

unfoldable pub rotate : (String → String) → String → Actor → ℕ → ℕ → Relays → RelayResult
unfolding get_device issue_credential log audit_row
rotate hash token actor device_id now s = do
  device ← or_refuse (get_device device_id s) no_such_device
  issued ← issue_credential hash token device.id now s
  done (log (audit_row actor "device.rotate" "device" device.code_name none none) issued)

unfoldable pub revoke : Actor → ℕ → ℕ → Relays → RelayResult
unfolding get_device revoke_credentials log audit_row
revoke actor device_id now s = do
  device ← or_refuse (get_device device_id s) no_such_device
  let (s', n) = revoke_credentials device.id now s in
      done (
        log
          (audit_row actor "device.revoke" "device" device.code_name none
            (some (single "revoked" (Json.num n))))
          s')

unfoldable pub set_device : ℕ → (Device → Device) → Relays → Relays
set_device device_id f s = record s { devices = update_where (λ d. d.id == device_id) f s.devices }

unfoldable pub switch_device : Actor → ℕ → Bool → Relays → RelayResult
unfolding get_device set_device log audit_row
switch_device actor device_id on s = do
  device ← or_refuse (get_device device_id s) no_such_device
  done (
      log
        (audit_row actor "device.active" "device" device.code_name
          (some (single "is_active" (Json.flag device.is_active)))
          (some (single "is_active" (Json.flag on))))
        (set_device device_id (λ d. record d { is_active = on }) s))

unfoldable pub rename : Actor → ℕ → String → Relays → RelayResult
unfolding get_device set_device log audit_row strip
rename actor device_id display_name s = do
  device ← or_refuse (get_device device_id s) name_needed
  require (not (is_blank (strip display_name))) name_needed
  done (
      log
        (audit_row actor "device.rename" "device" device.code_name
          (some (single "display_name" (Json.text device.display_name)))
          (some (single "display_name" (Json.text (strip display_name)))))
        (set_device device_id (λ d. record d { display_name = strip display_name }) s))
