-- ===== src/Auth.antt =====
-- services/auth.py and the one-time codes of core/security.py: login, lockout, sessions. The
-- cryptographic functions are parameters: `verify` is `verify_password`, `mac` the HMAC-SHA1 of a
-- counter under a stored secret, `token_hash` is `hash_token`; so is `lower`, `str.lower`. What is
-- drawn at random (a token, a secret, the salt of a hash) is an argument.
pub mod Lockout
pub mod Entry
use alo_bot_dashboard.Prelude.{
  ℕ, ◌+◌, ◌-◌, ◌*◌, ◌/◌, ◌%◌, ◌^◌, ◌≤◌, ◌<◌, Bool, true, false, not, ◌&&◌, ◌||◌, String, Option,
  none, some, List, [], ◌∷◌, ◌++◌, ◌==◌, if◌then◌else◌, ltb, leb, str_eq, strip, is_blank, is_none,
  is_some, find_where, count_where, update_where, print, str_append,
}
use alo_bot_dashboard.Model.{second, minute, hour, day}
use alo_bot_dashboard.Staff.{Role, Operator, SignIn, Staff, get_operator}
use alo_bot_dashboard.Totp.{TotpCheck, totp_verify, unix_time}

abbrev pub max_failed_attempts : ℕ
max_failed_attempts = 5

abbrev pub lock_time : ℕ
lock_time = 15 * minute

abbrev pub session_idle : ℕ
session_idle = 12 * hour

abbrev pub session_absolute : ℕ
session_absolute = 30 * day

abbrev pub session_slide : ℕ
session_slide = 5 * minute

-- `reason`, and `ok` where there is none
pub data AuthReason : Type 0 where
  bad_credentials locked totp_required bad_totp : AuthReason

pub record AuthResult : Type 0 where
  pub ok : Bool
  pub reason : Option AuthReason
  pub operator : Option Operator
  pub locked_until : Option ℕ

-- a call returns, or raises the TypeError of `compare_digest`
pub data Attempt : Type 0 where
  raised : Attempt
  answered : AuthResult → Attempt

abbrev pub fail : AuthReason → Option ℕ → Attempt
fail reason locked_until =
    Attempt.answered
      (record { ok = false; reason = some reason; operator = none; locked_until = locked_until })

abbrev pub by_id : ℕ → (Operator → Operator) → Staff → Staff
by_id i f s = record s { operators = update_where (λ o. o.id == i) f s.operators }

-- the SET of `_charge_failure`
unfoldable pub charge : ℕ → Operator → Operator
charge now o = record o {
  failed_attempts = o.failed_attempts + 1;
  locked_until =
      if leb max_failed_attempts (o.failed_attempts + 1)
      then some (now + lock_time)
      else o.locked_until;
}

-- `_charge_failure`; the row is there, since it was read
unfoldable pub charge_failure : ℕ → ℕ → Staff → Staff × Option ℕ
unfolding charge
charge_failure i now s =
    let s' = by_id i (charge now) s in
    (s', elim (get_operator i s') [ none ↦ none | some o ↦ o.locked_until ])

abbrev pub forgive : Operator → Operator
forgive o = record o { failed_attempts = 0; locked_until = none }

-- `_reset_failures`
abbrev pub reset_failures : ℕ → Staff → Staff
reset_failures i s = by_id i forgive s

-- `bool(operator.totp_secret) and operator.totp_confirmed_at is not None`
unfoldable pub has_text : Option String → Bool
has_text none = false
has_text (some t) = not (is_blank t)

unfoldable pub totp_enrolled : Operator → Bool
unfolding has_text
totp_enrolled o = has_text o.totp_secret && is_some o.totp_confirmed_at

unfoldable pub is_before : Option ℕ → ℕ → Bool
is_before none step = true
is_before (some last) step = ltb last step

-- `_burn_totp_step`
unfoldable pub burn_totp_step : ℕ → ℕ → Staff → Staff × Bool
unfolding is_before
burn_totp_step i step s =
    let fresh = λ (o : Operator). o.id == i && is_before o.totp_last_step step in
    (
      record s {
        operators = update_where fresh (λ o. record o { totp_last_step = some step }) s.operators;
      },
      count_where fresh s.operators == 1,
    )

-- `operator.locked_until is not None and operator.locked_until > now`
unfoldable pub is_locked : ℕ → Operator → Bool
is_locked now o = elim o.locked_until [ none ↦ false | some until ↦ ltb now until ]

-- the end of `authenticate`
unfoldable pub sign_in : ℕ → Staff → Staff × Attempt
sign_in i s =
    let s' = reset_failures i s in
    (
      s',
      Attempt.answered
          (record { ok = true; reason = none; operator = get_operator i s'; locked_until = none }),
    )

-- `_charge_failure` and the answer that follows it
unfoldable pub charged : AuthReason → ℕ → ℕ → Staff → Staff × Attempt
unfolding charge_failure
charged reason i now s =
    let (s', locked_until) = charge_failure i now s in (s', fail reason locked_until)

-- `not step or not await _burn_totp_step(...)`, on a step that matched
unfoldable pub spend_step : ℕ → ℕ → ℕ → Staff → Staff × Attempt
unfolding burn_totp_step sign_in charged
spend_step i now step s =
    let (s', burnt) = burn_totp_step i step s in
    if step == 0
    then charged AuthReason.bad_totp i now s
    else if burnt
    then sign_in i s'
    else charged AuthReason.bad_totp i now s'

-- what follows the check of the code
unfoldable pub settle_code : TotpCheck → ℕ → ℕ → Staff → Staff × Attempt
unfolding spend_step charged
settle_code TotpCheck.raised i now s = (s, Attempt.raised)
settle_code TotpCheck.refused i now s = charged AuthReason.bad_totp i now s
settle_code (TotpCheck.matched step) i now s = spend_step i now step s

module _ (lower : String → String) (verify : String → String → Bool)
    (mac : Option String → ℕ → List ℕ) where
  -- `get_operator_by_email`
  abbrev pub by_email : String → Staff → Option Operator
  by_email email s = find_where (λ o. str_eq o.email (lower (strip email))) s.operators

  -- the second factor
  unfoldable pub second_factor : Operator → Option String → ℕ → Staff → Staff × Attempt
  unfolding settle_code
  second_factor o none now s = (s, fail AuthReason.totp_required none)
  second_factor o (some totp) now s =
      if is_blank totp
      then (s, fail AuthReason.totp_required none)
      else settle_code (totp_verify (mac o.totp_secret) totp (unix_time now) o.totp_last_step) o.id
          now s

  -- once the operator is found
  unfoldable pub admit : Operator → String → Option String → ℕ → Staff → Staff × Attempt
  unfolding is_locked charged totp_enrolled second_factor sign_in
  admit o password totp now s =
      if not o.is_active
      then (s, fail AuthReason.bad_credentials none)
      else if is_locked now o
      then (s, fail AuthReason.locked o.locked_until)
      else if not (verify password o.password_hash)
      then charged AuthReason.bad_credentials o.id now s
      else if totp_enrolled o
      then second_factor o totp now s
      else sign_in o.id s

  unfoldable pub authenticate : String → String → Option String → ℕ → Staff → Staff × Attempt
  unfolding admit
  authenticate email password totp now s = elim (by_email email s) [
    | none ↦ (s, fail AuthReason.bad_credentials none)
    | some o ↦ admit o password totp now s
  ]

-- `create_operator` and `set_active` of the scripts, which refuse nothing
unfoldable pub create_operator :
    (String → String) → (String → String) → String → String → String → Role → Staff → Staff
unfolding strip
create_operator lower hash email display_name password role s = record s {
  operators =
      record {
        id = s.next_operator_id;
        email = lower (strip email);
        display_name = strip display_name;
        password_hash = hash password;
        role = role;
        totp_secret = none;
        totp_confirmed_at = none;
        totp_last_step = none;
        failed_attempts = 0;
        locked_until = none;
        is_active = true;
      }
      ∷ s.operators;
  next_operator_id = s.next_operator_id + 1;
}

abbrev pub set_active : ℕ → Bool → Staff → Staff
set_active i active s = by_id i (λ o. record o { is_active = active }) s
