-- ===== src/Sessions.antt =====
-- services/auth.py: the sessions of signed-in browsers, the change of a password, and the enrolment
-- of one-time codes. `token_hash` is `hash_token`, `verify` is `verify_password`; a new token, a new
-- secret and a new hash are arguments, since they are drawn at random.
pub mod Revoked
pub mod SignedOut
use alo_bot_dashboard.Prelude.{
  ℕ, ◌+◌, ◌≤◌, Bool, true, false, not, ◌&&◌, ◌||◌, String, Option, none, some, List, [], ◌∷◌, ◌==◌,
  if◌then◌else◌, ltb, leb, str_eq, is_blank, is_none, find_where, count_where, update_where,
}
use alo_bot_dashboard.Staff.{Operator, SignIn, Staff, get_operator}
use alo_bot_dashboard.Totp.{TotpCheck, totp_verify, unix_time}
use alo_bot_dashboard.Auth.{
  session_idle, session_absolute, session_slide, by_id, is_locked, charge_failure, reset_failures,
  has_text,
}

module _ (token_hash : String → String) where
  -- `open_session`; `agent` is `(user_agent or "")[:256] or None`
  unfoldable pub open_session :
      Operator → String → ℕ → Option String → Option String → Staff → Staff
  open_session o token now ip agent s = record s {
    sessions =
        record {
          operator_id = o.id;
          token_hash = token_hash token;
          created_at = now;
          last_seen_at = now;
          expires_at = now + session_absolute;
          revoked_at = none;
          ip = ip;
          user_agent = agent;
        }
        ∷ s.sessions;
  }

  abbrev pub has_token : String → SignIn → Bool
  has_token token x = str_eq x.token_hash (token_hash token)

  -- the write of `last_seen_at`, when it is stale: `now - last_seen_at >= slide`
  unfoldable pub slide : String → ℕ → SignIn → Staff → Staff
  slide token now x s =
      if leb (x.last_seen_at + session_slide) now
      then record s {
        sessions = update_where (has_token token) (λ y. record y { last_seen_at = now }) s.sessions;
      }
      else s

  -- the guards of `resolve_session`, in their order
  unfoldable pub is_live : ℕ → SignIn → Operator → Bool
  is_live now x o =
      if not (is_none x.revoked_at) || leb x.expires_at now
      then false
      else if leb (x.last_seen_at + session_idle) now
      then false
      else o.is_active

  unfoldable pub resolve_session : String → ℕ → Staff → Staff × Option Operator
  unfolding slide is_live
  resolve_session token now s = elim (find_where (has_token token) s.sessions) [
    | none ↦ (s, none)
    | some x ↦ elim (get_operator x.operator_id s) [
      | none ↦ (s, none)
      | some o ↦ if is_live now x o then (slide token now x s, some o) else (s, none)
    ]
  ]

  unfoldable pub revoke_session : String → ℕ → Staff → Staff
  revoke_session token now s = record s {
    sessions =
        update_where (λ x. has_token token x && is_none x.revoked_at)
          (λ x. record x { revoked_at = some now }) s.sessions;
  }

  -- the rows that `revoke_other_sessions` reaches
  unfoldable pub is_other : ℕ → Option String → SignIn → Bool
  is_other operator_id none x = x.operator_id == operator_id && is_none x.revoked_at
  is_other operator_id (some kept) x =
      x.operator_id == operator_id
      && is_none x.revoked_at
      && (is_blank kept || not (has_token kept x))

  unfoldable pub revoke_other_sessions : ℕ → Option String → ℕ → Staff → Staff × ℕ
  unfolding is_other
  revoke_other_sessions operator_id keep_token now s = (
    record s {
      sessions =
          update_where (is_other operator_id keep_token) (λ x. record x { revoked_at = some now })
            s.sessions;
    },
    count_where (is_other operator_id keep_token) s.sessions,
  )

  unfoldable pub change_password :
      (String → String → Bool) → ℕ → String → String → Option String → ℕ → Staff → Staff × Bool
  unfolding is_locked charge_failure revoke_other_sessions
  change_password verify i current new_hash keep_token now s = elim (get_operator i s) [
    | none ↦ (s, false)
    | some o ↦
        if is_locked now o
        then (s, false)
        else if not (verify current o.password_hash)
        then ((charge_failure o.id now s).0, false)
        else (
          reset_failures o.id
              (revoke_other_sessions o.id keep_token now
                (by_id o.id (λ r. record r { password_hash = new_hash }) s)).0,
          true,
        )
  ]

-- `enrol_totp`, of a secret that was drawn and encoded
abbrev pub enrol_totp : ℕ → String → Staff → Staff
enrol_totp i secret s =
    by_id i
      (λ o. record o { totp_secret = some secret; totp_confirmed_at = none; totp_last_step = none })
      s

-- `confirm_totp`; `none` is the TypeError
unfoldable pub confirm_totp :
    (Option String → ℕ → List ℕ) → ℕ → String → ℕ → Staff → Staff × Option Bool
unfolding has_text totp_verify
confirm_totp mac i text now s = elim (get_operator i s) [
  | none ↦ (s, some false)
  | some o ↦
      if not (has_text o.totp_secret)
      then (s, some false)
      else elim (totp_verify (mac o.totp_secret) text (unix_time now) o.totp_last_step) [
        | TotpCheck.raised ↦ (s, none)
        | TotpCheck.refused ↦ (s, some false)
        | TotpCheck.matched step ↦ if step == 0 then (s, some false) else (
          by_id i (λ r. record r { totp_confirmed_at = some now; totp_last_step = some step }) s,
          some true,
        )
      ]
]

abbrev pub disable_totp : ℕ → Staff → Staff
disable_totp i s =
    by_id i (λ o. record o { totp_secret = none; totp_confirmed_at = none; totp_last_step = none })
      s
