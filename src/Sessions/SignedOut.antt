-- ===== src/Sessions/SignedOut.antt =====
-- What ends the sessions of one operator: a deactivation (services/operators.py) and a change of
-- the password (services/auth.py).
use alo_bot_dashboard.Prelude.{
  ℕ, ◌≡◌, refl, ap, subst, inl, inr, Bool, true, false, ◌&&◌, String, none, some, arith, ◌==◌,
  ==_iff, str_eq, str_eq_iff, find_where_holds, is_none, All, All-update, Bool-cases, Option-cases,
  done,
}
use alo_bot_dashboard.Audit.{Actor}
use alo_bot_dashboard.Staff.{SignIn, Staff, get_operator}
use alo_bot_dashboard.Auth.{is_locked}
use alo_bot_dashboard.Operators.{set_active, revoke_all}
use alo_bot_dashboard.Operators.LastAdmin.{set_active-sessions}
use alo_bot_dashboard.Sessions.{
  has_token, resolve_session, is_other, revoke_other_sessions, change_password,
}
use alo_bot_dashboard.Sessions.Revoked.{IsOver, IsEnded, Visits, Visits-IsEnded, ended_refused}

module _ (token_hash : String → String) where
  -- every session under the token is the operator's
  abbrev pub IsOwned : String → ℕ → Staff → Type 0
  IsOwned token i s = All (λ x. has_token token_hash token x ≡ true → x.operator_id ≡ i) s.sessions

  -- A deactivated operator is signed out everywhere for good: whatever requests and switches come
  -- after it, a reactivation included, a token from before lets nobody in.
  pub deactivation_signs_out :
      (actor : Actor) (i clock later : ℕ) (token : String) (s s' s'' : Staff)
      → IsOwned token i s
      → set_active actor i false clock s ≡ done s'
      → Visits token_hash token s' s''
      → resolve_session token_hash token later s'' ≡ (s'', none)
  unfolding revoke_all
  deactivation_signs_out actor i clock later token s s' s'' owned e visits =
      ended_refused token_hash token 0 later s''
        (Visits-IsEnded token_hash token 0 visits (
          rw ((set_active-sessions actor i false clock s).at s' e) (
            All-update _ (IsOver token_hash token 0)
              (λ x. x.operator_id == i && is_none x.revoked_at) _ s.sessions
              (λ (x : SignIn) (own : has_token token_hash token x ≡ true → x.operator_id ≡ i).
                elim (Bool-cases (x.operator_id == i && is_none x.revoked_at)) [
                  | inl hit ↦ rw hit (λ mine. refl)
                  | inr miss ↦ rw miss (λ mine. ground (arith, own mine, miss))
                ])
              owned)))
        (omega arith)

  -- a row that the change revokes, or that was over before
  other-IsOver :
      (i : ℕ) (kept token : String) (x : SignIn)
      → str_eq (token_hash token) (token_hash kept) ≡ false
      → (has_token token_hash token x ≡ true → x.operator_id ≡ i)
      → has_token token_hash token x ≡ true
      → is_none x.revoked_at ≡ true
      → is_other token_hash i (some kept) x ≡ true
  unfolding is_other
  other-IsOver i kept token x apart own mine unrevoked =
      rw ((str_eq_iff x.token_hash (token_hash token)).0 mine)
        (ground (arith, own mine, unrevoked, apart))

  revoked-IsEnded :
      (i : ℕ) (kept token : String) (now : ℕ) (s : Staff)
      → str_eq (token_hash token) (token_hash kept) ≡ false
      → IsOwned token i s
      → IsEnded token_hash token 0 (revoke_other_sessions token_hash i (some kept) now s).0
  unfolding revoke_other_sessions
  revoked-IsEnded i kept token now s apart owned =
      All-update _ (IsOver token_hash token 0) (is_other token_hash i (some kept)) _ s.sessions
        (λ (x : SignIn) (own : has_token token_hash token x ≡ true → x.operator_id ≡ i).
          elim (Bool-cases (is_other token_hash i (some kept) x)) [
            | inl hit ↦ rw hit (λ mine. refl)
            | inr miss ↦
                rw miss (λ mine. ground (arith, miss, other-IsOver i kept token x apart own mine))
          ])
        owned

  changed-IsEnded :
      (verify : String → String → Bool) (i now : ℕ) (current new_hash kept token : String)
      (s : Staff)
      → IsOwned token i s
      → str_eq (token_hash token) (token_hash kept) ≡ false
      → (change_password token_hash verify i current new_hash (some kept) now s).1 ≡ true
      → IsEnded token_hash token 0
          (change_password token_hash verify i current new_hash (some kept) now s).0
  unfolding change_password revoke_other_sessions
  changed-IsEnded verify i now current new_hash kept token s owned apart h =
      elim (Option-cases (get_operator i s)) [
        | inl gone ↦ absurd (cc (rw (gone, change_password) at h))
        | inr (o, found) ↦
            let mine = (==_iff o.id i).0 (find_where_holds (λ r. r.id == i) s.operators o found) in
            elim (Bool-cases (is_locked now o)) [
              | inl locked ↦ absurd (cc (rw (found, change_password) at h, locked))
              | inr free ↦ elim (Bool-cases (verify current o.password_hash)) [
                | inr wrong ↦ absurd (ground (arith, rw (found, change_password) at h, free, wrong))
                | inl right ↦
                    rw (found, change_password)
                      (rw (free, right) (rw mine (revoked-IsEnded i kept token now s apart owned)))
              ]
            ]
      ]

  -- A change of the password signs the operator out everywhere but where it was made: a token other
  -- than the kept one lets nobody in from then on.
  pub password_change_signs_out :
      (verify : String → String → Bool) (i now later : ℕ) (current new_hash kept token : String)
      (s s' s'' : Staff)
      → IsOwned token i s
      → str_eq (token_hash token) (token_hash kept) ≡ false
      → change_password token_hash verify i current new_hash (some kept) now s ≡ (s', true)
      → Visits token_hash token s' s''
      → resolve_session token_hash token later s'' ≡ (s'', none)
  password_change_signs_out verify i now later current new_hash kept token s s' s'' owned apart e
        visits =
      ended_refused token_hash token 0 later s''
        (Visits-IsEnded token_hash token 0 visits (
          subst (λ (x : Staff). IsEnded token_hash token 0 x) (ap (λ (x : Staff × Bool). x.0) e)
            (changed-IsEnded verify i now current new_hash kept token s owned apart
              (ap (λ (x : Staff × Bool). x.1) e))))
        (omega arith)
