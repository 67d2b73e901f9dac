-- ===== src/Devices/Single.antt =====
-- The partial unique index on the credentials of services/devices.py, which its operations never meet.
use alo_bot_dashboard.Prelude.{
  ℕ, ◌+◌, ◌≤◌, ◌≡◌, refl, inl, inr, Bool, false, not, ◌&&◌, String, Option, none, some, List, ◌∷◌,
  arith, ◌==◌, ==_iff, str_eq, count_where, count_zero, subst, count-update_drop, count-update,
  count-update_shrink, any_where, find_where, Bool-cases, done, Ensures, Ensures-bind, Ensures-done,
}
use alo_bot_dashboard.Audit.{Actor}
use alo_bot_dashboard.Devices.{
  CredentialStatus, Device, DeviceCredential, Relays, is_key_of, revoke_credentials,
  insert_credential, issue_credential, create_device, rotate, revoke, switch_device, rename,
  set_device, log, new_credential,
}
use alo_bot_dashboard.Devices.Admission.{authenticate, admit, admit_known, accepts, credential_for}

-- a device has at most one key that works
pub record HasOneKey (s : Relays) : Type 0 where
  pub one : (i : ℕ) → count_where (is_key_of i) s.credentials ≤ 1

abbrev pub keys_of : ℕ → Relays → ℕ
keys_of i s = count_where (is_key_of i) s.credentials

pub revoked_keys : (i now : ℕ) (s : Relays) → keys_of i (revoke_credentials i now s).0 ≡ 0
unfolding revoke_credentials is_key_of
revoked_keys i now s =
    rw
      (count-update_drop (is_key_of i) (is_key_of i)
        (λ c. record c { status = CredentialStatus.revoked; revoked_at = some now }) s.credentials
        (λ c. ground arith))
      (count_zero (λ c. is_key_of i c && not (is_key_of i c)) s.credentials (λ c. ground arith))

revoke-keeps_fewer :
    (i j now : ℕ) (s : Relays) → keys_of j (revoke_credentials i now s).0 ≤ keys_of j s
unfolding revoke_credentials is_key_of
revoke-keeps_fewer i j now s =
    count-update_shrink (is_key_of j) (is_key_of i)
      (λ c. record c { status = CredentialStatus.revoked; revoked_at = some now }) s.credentials
      (λ c. ground arith)

pub insert-done :
    (hash : String → String) (token : String) (i : ℕ) (s s' : Relays)
    → insert_credential hash token i s ≡ done s'
    → (any_where (is_key_of i) s.credentials ≡ false)
      × (s' ≡ record s {
        credentials = new_credential hash token i s.next_credential_id ∷ s.credentials;
        next_credential_id = s.next_credential_id + 1;
      })
unfolding insert_credential
insert-done hash token i s s' e =
    elim (Bool-cases (any_where (λ c. str_eq c.token_hash (hash token)) s.credentials)) [
      | inl taken ↦ absurd (cc (rw taken at e))
      | inr fresh ↦ elim (Bool-cases (any_where (is_key_of i) s.credentials)) [
        | inl held ↦ absurd (cc (rw held at (rw fresh at e)))
        | inr free ↦ (free, cc (rw free at (rw fresh at e)))
      ]
    ]

-- the key of another device counts for it alone
new-key :
    (hash : String → String) (token : String) (i j n : ℕ) (cs : List DeviceCredential)
    → (count_where (is_key_of i) cs ≡ 0)
    → count_where (is_key_of j) cs ≤ 1
    → count_where (is_key_of j) (new_credential hash token i n ∷ cs) ≤ 1
unfolding is_key_of new_credential count_where
new-key hash token i j n cs none_yet one = elim (Bool-cases (i == j)) [
  | inl same ↦
      let own : count_where (is_key_of j) cs ≡ 0 =
        subst (λ k. count_where (is_key_of k) cs ≡ 0) ((==_iff i j).0 same) none_yet in
      ground (arith, own)
  | inr other ↦ ground (arith, other, one)
]

issue-HasOneKey :
    (hash : String → String) (token : String) (i now : ℕ) (s : Relays)
    → HasOneKey s
    → Ensures HasOneKey (issue_credential hash token i now s)
unfolding issue_credential
issue-HasOneKey hash token i now s h = record {
  at = λ s' e.
      let (free, made) = insert-done hash token i _ s' e in
      rw made record {
        one = λ j.
            new-key hash token i j _ _ (revoked_keys i now s)
              (omega (arith, revoke-keeps_fewer i j now s, h.one j));
      };
}

create-HasOneKey :
    (lower hash : String → String) (token : String) (actor : Actor) (raw name : String) (now : ℕ)
    (s : Relays)
    → HasOneKey s
    → Ensures HasOneKey (create_device lower hash token actor raw name now s)
unfolding create_device log
create-HasOneKey lower hash token actor raw name now s h = Ensures-bind _ _ λ (a : Unit {0}) o.
    Ensures-bind _ _ λ (b : Unit {0}) o'. Ensures-bind _ _ λ (c : Unit {0}) o''.
      Ensures-bind _ _ λ (issued : Relays) e. Ensures-done _ record {
        one =
            ((issue-HasOneKey hash token s.next_device_id now _ record { one = h.one }).at issued
              e).one;
      }

rotate-HasOneKey :
    (hash : String → String) (token : String) (actor : Actor) (i now : ℕ) (s : Relays)
    → HasOneKey s
    → Ensures HasOneKey (rotate hash token actor i now s)
unfolding rotate log
rotate-HasOneKey hash token actor i now s h = Ensures-bind _ _ λ (d : Device) found.
    Ensures-bind _ _ λ (issued : Relays) e.
      Ensures-done _ record { one = ((issue-HasOneKey hash token d.id now s h).at issued e).one }

revoke-HasOneKey :
    (actor : Actor) (i now : ℕ) (s : Relays)
    → HasOneKey s
    → Ensures HasOneKey (revoke actor i now s)
unfolding revoke log
revoke-HasOneKey actor i now s h = Ensures-bind _ _ λ (d : Device) found.
    Ensures-done _ record { one = λ j. omega (arith, revoke-keeps_fewer d.id j now s, h.one j) }

switch-HasOneKey :
    (actor : Actor) (i : ℕ) (on : Bool) (s : Relays)
    → HasOneKey s
    → Ensures HasOneKey (switch_device actor i on s)
unfolding switch_device log set_device
switch-HasOneKey actor i on s h =
    Ensures-bind _ _ λ (d : Device) found. Ensures-done _ record { one = h.one }

rename-HasOneKey :
    (actor : Actor) (i : ℕ) (name : String) (s : Relays)
    → HasOneKey s
    → Ensures HasOneKey (rename actor i name s)
unfolding rename log set_device
rename-HasOneKey actor i name s h =
    Ensures-bind _ _ λ (d : Device) found.
      Ensures-bind _ _ λ (a : Unit {0}) o. Ensures-done _ record { one = h.one }

admit-HasOneKey :
    (hash : String → String) (d : Device) (key : String) (now : ℕ) (s : Relays)
    → HasOneKey s
    → HasOneKey (admit hash d key now s).0
unfolding admit set_device is_key_of
admit-HasOneKey hash d key now s h =
    elim (Bool-cases (accepts hash key d (credential_for d.id key s))) [
      | inl fits ↦ rw fits record {
        one = λ j.
            rw
              (count-update (is_key_of j)
                (λ c. elim (credential_for d.id key s) [
                  | none ↦ false
                  | some used ↦ c.id == used.id
                ])
                (λ c. record c { last_used_at = some now }) s.credentials (λ c. refl))
              (h.one j);
      }
      | inr misfit ↦ rw misfit record { one = h.one }
    ]

known-HasOneKey :
    (hash : String → String) (o : Option Device) (key : String) (now : ℕ) (s : Relays)
    → HasOneKey s
    → HasOneKey (admit_known hash o key now s).0
unfolding admit_known
known-HasOneKey hash none key now s h = h
known-HasOneKey hash (some d) key now s h = admit-HasOneKey hash d key now s h

authenticate-HasOneKey :
    (hash : String → String) (code key : String) (now : ℕ) (s : Relays)
    → HasOneKey s
    → HasOneKey (authenticate hash code key now s).0
unfolding authenticate
authenticate-HasOneKey hash code key now s h =
    known-HasOneKey hash (find_where (λ d. str_eq d.code_name code) s.devices) key now s h

-- one change by an operator, or one request of a phone
pub data Relayed : Relays → Relays → Type 0 where
  created :
      (lower hash : String → String) (token : String) (actor : Actor) (raw name : String) (now : ℕ)
      (s s' : Relays)
      → create_device lower hash token actor raw name now s ≡ done s'
      → Relayed s s'
  rotated :
      (hash : String → String) (token : String) (actor : Actor) (i now : ℕ) (s s' : Relays)
      → rotate hash token actor i now s ≡ done s'
      → Relayed s s'
  shut : (actor : Actor) (i now : ℕ) (s s' : Relays) → revoke actor i now s ≡ done s' → Relayed s s'
  switched :
      (actor : Actor) (i : ℕ) (on : Bool) (s s' : Relays)
      → switch_device actor i on s ≡ done s'
      → Relayed s s'
  renamed :
      (actor : Actor) (i : ℕ) (name : String) (s s' : Relays)
      → rename actor i name s ≡ done s'
      → Relayed s s'
  knocked :
      (hash : String → String) (code key : String) (now : ℕ) (s : Relays)
      → Relayed s (authenticate hash code key now s).0

pub data Relaying (start : Relays) : Relays → Type 0 where
  idle : Relaying start start
  and_then : {s s' : Relays} → Relaying start s → Relayed s s' → Relaying start s'

Relayed-HasOneKey : {s s' : Relays} → Relayed s s' → HasOneKey s → HasOneKey s'
Relayed-HasOneKey (created lower hash token actor raw name now s s' e) h =
    (create-HasOneKey lower hash token actor raw name now s h).at s' e
Relayed-HasOneKey (rotated hash token actor i now s s' e) h =
    (rotate-HasOneKey hash token actor i now s h).at s' e
Relayed-HasOneKey (shut actor i now s s' e) h = (revoke-HasOneKey actor i now s h).at s' e
Relayed-HasOneKey (switched actor i on s s' e) h = (switch-HasOneKey actor i on s h).at s' e
Relayed-HasOneKey (renamed actor i name s s' e) h = (rename-HasOneKey actor i name s h).at s' e
Relayed-HasOneKey (knocked hash code key now s) h = authenticate-HasOneKey hash code key now s h

-- After any sequence of changes to devices and of requests, from relays where it holds, each device has
-- at most one credential that is ACTIVE.
pub Relaying-HasOneKey : {s s' : Relays} → Relaying s s' → HasOneKey s → HasOneKey s'
Relaying-HasOneKey idle h = h
Relaying-HasOneKey (and_then before step) h = Relayed-HasOneKey step (Relaying-HasOneKey before h)
