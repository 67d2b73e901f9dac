-- ===== src/Devices/Keys.antt =====
-- Which keys open the door of services/ingest.py after a revocation and after a rotation.
use alo_bot_dashboard.Prelude.{
  ℕ, ◌≡◌, refl, ap, sym, inl, inr, false, ◌&&◌, and_true, String, none, some, List, ◌∷◌, arith,
  ◌==◌, ==_iff, str_eq, if◌then◌else◌, is_some, count_where, count_mono, find_where,
  find_where_holds, subst, find-none_of_count, Bool-cases, done, Ensures, Ensures-bind,
  Ensures-done, or_refuse-done,
}
use alo_bot_dashboard.Audit.{Actor}
use alo_bot_dashboard.Devices.{
  Device, DeviceCredential, Relays, text_take, is_key_of, revoke_credentials, issue_credential,
  new_credential, rotate, revoke, get_device, log,
}
use alo_bot_dashboard.Devices.Admission.{authenticate, admit, admit_known, accepts, credential_for}
use alo_bot_dashboard.Devices.Single.{keys_of, revoked_keys, insert-done}

-- whether the door opens, by the row of the device and the row of the key
admit-opens :
    (hash : String → String) (d : Device) (key : String) (now : ℕ) (s : Relays)
    → is_some (admit hash d key now s).1 ≡ accepts hash key d (credential_for d.id key s)
unfolding admit
admit-opens hash d key now s = elim (Bool-cases (accepts hash key d (credential_for d.id key s))) [
  | inl fits ↦ rw fits refl
  | inr misfit ↦ rw misfit refl
]

authenticate-opens :
    (hash : String → String) (code key : String) (now : ℕ) (s : Relays) (d : Device)
    → find_where (λ x. str_eq x.code_name code) s.devices ≡ some d
    → is_some (authenticate hash code key now s).1 ≡ accepts hash key d (credential_for d.id key s)
unfolding authenticate admit_known
authenticate-opens hash code key now s d found =
    let opens = admit-opens hash d key now s in
    subst
      (λ o.
        is_some (admit_known hash o key now s).1 ≡ accepts hash key d (credential_for d.id key s))
      (sym found) opens

keyless : (i : ℕ) (key : String) (s : Relays) → keys_of i s ≡ 0 → credential_for i key s ≡ none
unfolding credential_for
keyless i key s h =
    find-none_of_count (λ c. is_key_of i c && str_eq c.token_prefix (text_take 4 key)) s.credentials
      (omega (
        arith,
        h,
        count_mono (λ c. is_key_of i c && str_eq c.token_prefix (text_take 4 key)) (is_key_of i)
            s.credentials (λ c k. (and_true _ _ k).0),
      ))

-- the id of the row that an id finds
found_id : (i : ℕ) (s : Relays) (d : Device) → get_device i s ≡ some d → d.id ≡ i
unfolding get_device
found_id i s d e = (==_iff d.id i).0 (find_where_holds (λ x. x.id == i) s.devices d e)

keyless_shut :
    (hash : String → String) (code key : String) (now : ℕ) (s : Relays) (d : Device)
    → find_where (λ x. str_eq x.code_name code) s.devices ≡ some d
    → keys_of d.id s ≡ 0
    → is_some (authenticate hash code key now s).1 ≡ false
unfolding accepts
keyless_shut hash code key now s d found h =
    let opens = authenticate-opens hash code key now s d found in
    let gone = keyless d.id key s h in cc (rw gone at opens)

-- Revoking a device's keys leaves nothing that still works: once `revoke` is done for a device, a
-- request that names the device is refused whatever key it brings.
pub revoke_shuts :
    (hash : String → String) (actor : Actor) (clock now : ℕ) (code key : String) (s : Relays)
    (d : Device)
    → find_where (λ x. str_eq x.code_name code) s.devices ≡ some d
    → Ensures
        (λ (s' : Relays). is_some (authenticate hash code key now s').1 ≡ false)
        (revoke actor d.id clock s)
unfolding revoke log revoke_credentials
revoke_shuts hash actor clock now code key s d found = Ensures-bind _ _ λ (x : Device) e.
    let same : x.id ≡ d.id = found_id d.id s x (or_refuse-done (get_device d.id s) _ x e) in
    let shut : keys_of d.id (revoke_credentials x.id clock s).0 ≡ 0 =
      rw same (revoked_keys d.id clock s) in
    Ensures-done _ (keyless_shut hash code key now _ d found shut)

-- the row of a key, right after it is issued
fresh-found :
    (hash : String → String) (token key : String) (i n : ℕ) (cs : List DeviceCredential)
    → count_where (is_key_of i) cs ≡ 0
    → find_where
        (λ c. is_key_of i c && str_eq c.token_prefix (text_take 4 key))
        (new_credential hash token i n ∷ cs)
      ≡ (if str_eq (text_take 4 token) (text_take 4 key)
          then some (new_credential hash token i n)
          else none)
unfolding find_where is_key_of new_credential
fresh-found hash token key i n cs h =
    let own = (==_iff i i).1 refl in
    let gone =
      find-none_of_count (λ c. is_key_of i c && str_eq c.token_prefix (text_take 4 key)) cs
        (omega (
          arith,
          h,
          count_mono (λ c. is_key_of i c && str_eq c.token_prefix (text_take 4 key)) (is_key_of i)
              cs (λ c k. (and_true _ _ k).0),
        )) in
    rw own (rw gone refl)

opens_of_fresh :
    (hash : String → String) (token key : String) (d : Device) (i n : ℕ)
    → accepts hash key d (
        if str_eq (text_take 4 token) (text_take 4 key)
        then some (new_credential hash token i n)
        else none)
      ≡ (str_eq (text_take 4 token) (text_take 4 key)
          && (str_eq (hash token) (hash key) && d.is_active))
unfolding accepts new_credential
opens_of_fresh hash token key d i n =
    elim (Bool-cases (str_eq (text_take 4 token) (text_take 4 key))) [
      | inl fits ↦ rw fits refl
      | inr misfit ↦ rw misfit refl
    ]

fresh-opens :
    (hash : String → String) (token code key : String) (now n : ℕ) (cs : List DeviceCredential)
    (s : Relays) (d : Device)
    → find_where (λ x. str_eq x.code_name code) s.devices ≡ some d
    → s.credentials ≡ new_credential hash token d.id n ∷ cs
    → count_where (is_key_of d.id) cs ≡ 0
    → is_some (authenticate hash code key now s).1 ≡ (
        str_eq (text_take 4 token) (text_take 4 key)
        && (str_eq (hash token) (hash key) && d.is_active))
unfolding credential_for
fresh-opens hash token code key now n cs s d found rows none_yet =
    let opens = authenticate-opens hash code key now s d found in
    let row : credential_for d.id key s ≡ (
        if str_eq (text_take 4 token) (text_take 4 key)
        then some (new_credential hash token d.id n)
        else none) =
      rw rows (fresh-found hash token key d.id n cs none_yet) in
    rw opens (rw row (opens_of_fresh hash token key d d.id n))

-- After a rotation only the new token opens the door: once `rotate` is done for a device, a request
-- that names the device is let in exactly if its key has the first four characters and the hash of the
-- new token, and the device is active; every earlier token is refused.
pub rotate-opens :
    (hash : String → String) (token : String) (actor : Actor) (clock now : ℕ) (code key : String)
    (s : Relays) (d : Device)
    → find_where (λ x. str_eq x.code_name code) s.devices ≡ some d
    → Ensures
        (λ (s' : Relays). is_some (authenticate hash code key now s').1 ≡ (
          str_eq (text_take 4 token) (text_take 4 key)
          && (str_eq (hash token) (hash key) && d.is_active)))
        (rotate hash token actor d.id clock s)
unfolding rotate log issue_credential revoke_credentials
rotate-opens hash token actor clock now code key s d found = Ensures-bind _ _ λ (x : Device) e.
    Ensures-bind _ _ λ (issued : Relays) e'.
      let same : x.id ≡ d.id = found_id d.id s x (or_refuse-done (get_device d.id s) _ x e) in
      let mine : issue_credential hash token d.id clock s ≡ done issued = rw same at e' in
      let made = (insert-done hash token d.id (revoke_credentials d.id clock s).0 issued mine).1 in
      Ensures-done _ (
        fresh-opens hash token code key now s.next_credential_id
          (revoke_credentials d.id clock s).0.credentials _ d
          (rw (ap (λ (r : Relays). r.devices) made) found) (ap (λ (r : Relays). r.credentials) made)
          (revoked_keys d.id clock s))
