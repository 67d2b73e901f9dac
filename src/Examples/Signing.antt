-- ===== src/Examples/Signing.antt =====
-- services/auth.py and services/operators.py on two operators, with toy hashes.
use alo_bot_dashboard.Prelude.{
  strip, ◌%◌, ℕ, ◌+◌, ◌*◌, ◌≤◌, ◌≡◌, refl, Bool, true, false, Option, none, some, List, [], ◌∷◌,
  String, arith, count_where, find_where, any_where, update_where, str_eq, done, refused, ◌>>=◌,
}
use alo_bot_dashboard.Model.{second, minute, hour, day}
use alo_bot_dashboard.Audit.{Actor}
use alo_bot_dashboard.Staff.{Role, Operator, SignIn, Staff, is_admin}
use alo_bot_dashboard.Operators.{StaffResult, set_active}
use alo_bot_dashboard.Operators.LastAdmin.{active_admins, Managed, Management, Management-HasAdmin}
use alo_bot_dashboard.Totp.{totp_code, totp_verify, try_steps, unix_time}
use alo_bot_dashboard.Auth.{
  AuthReason, Attempt, lock_time, fail, by_email, authenticate, is_locked, totp_enrolled,
  session_absolute,
}
use alo_bot_dashboard.Auth.Lockout.{Login, logins, fifth_failure-locks}
use alo_bot_dashboard.Auth.Entry.{is_ok, Entered, Advanced, authenticate_sound, codes_advance}
use alo_bot_dashboard.Sessions.{open_session, resolve_session, revoke_session, change_password}
use alo_bot_dashboard.Sessions.Revoked.{IsEnded, Visit, Visits, revoked_for_good, absolute_end}
use alo_bot_dashboard.Sessions.SignedOut.{IsOwned, deactivation_signs_out}

-- 2024-01-01, in microseconds since year 1
abbrev now : ℕ
now = 63839664000 * second

abbrev lower : String → String
lower t = t

abbrev verify : String → String → Bool
verify password stored = str_eq password stored

-- a digest whose fourth byte is the counter's low byte
abbrev mac : Option String → ℕ → List ℕ
mac secret counter = 0 ∷ 0 ∷ 0 ∷ counter % 256 ∷ 0 ∷ []

abbrev token_hash : String → String
token_hash t = t

abbrev sara : Operator
sara = record {
  id = 1;
  email = "sara@example.com";
  display_name = "Sara";
  password_hash = "right";
  role = Role.admin;
  totp_secret = some "JBSWY3DP";
  totp_confirmed_at = some (now + 0);
  totp_last_step = none;
  failed_attempts = 4;
  locked_until = none;
  is_active = true;
}

abbrev omid : Operator
omid = record sara {
  id = 2;
  email = "omid@example.com";
  totp_secret = none;
  totp_confirmed_at = none;
}

abbrev phone : SignIn
phone = record {
  operator_id = 2;
  token_hash = "t2";
  created_at = now;
  last_seen_at = now;
  expires_at = now + session_absolute;
  revoked_at = none;
  ip = none;
  user_agent = none;
}

abbrev staff : Staff
staff = record {
  operators = sara ∷ omid ∷ [];
  next_operator_id = 3;
  sessions = phone ∷ [];
  audit = [];
}

abbrev actor_sara : Actor
actor_sara = record { id = 1; email = "sara@example.com"; role = "ADMIN" }

sara_found : by_email lower verify mac "sara@example.com" staff ≡ some sara
unfolding find_where strip
sara_found = refl

-- omid, who has not failed yet
abbrev fresh : Operator
fresh = record omid { failed_attempts = 0 }

abbrev fresh_staff : Staff
fresh_staff = record staff { operators = sara ∷ fresh ∷ [] }

abbrev guess : ℕ → Login
guess at = record { password = "wrong"; totp = none; at = at }

abbrev guesses : List Login
guesses =
    guess now ∷ guess (now + second) ∷ guess (now + 2 * second) ∷ guess (now + 3 * second) ∷ []

fresh_found : by_email lower verify mac "omid@example.com" fresh_staff ≡ some fresh
unfolding find_where strip
fresh_found = refl

fifth_failure-locks_example :
    let before = logins lower verify mac "omid@example.com" guesses fresh_staff in
    let s' =
      (authenticate lower verify mac "omid@example.com" "wrong" none (now + 4 * second) before).0 in
    authenticate lower verify mac "omid@example.com" "right" none (now + 14 * minute) s'
    ≡ (s', fail AuthReason.locked (some (now + 4 * second + lock_time)))
unfolding is_locked
fifth_failure-locks_example =
    fifth_failure-locks lower verify mac "omid@example.com" guesses (guess (now + 4 * second))
      "right" none (now + 14 * minute) fresh_staff fresh fresh_found refl
      ((refl, refl), ((refl, refl), ((refl, refl), ((refl, refl), tt)))) (refl, refl) refl
      (omega arith)

-- the code of this half minute, and of the next
abbrev code_now : String
code_now = "000192"

abbrev code_next : String
code_next = "000193"

abbrev once : Staff × Attempt
once = authenticate lower verify mac "sara@example.com" "right" (some code_now) now staff

abbrev twice : Staff × Attempt
twice =
    authenticate lower verify mac "sara@example.com" "right" (some code_next) (now + 10 * second)
      once.0

once-is_ok : is_ok once.1 ≡ true
unfolding is_ok authenticate find_where strip totp_verify try_steps unix_time totp_code count_where
    update_where
once-is_ok = refl

twice-is_ok : is_ok twice.1 ≡ true
unfolding is_ok authenticate find_where strip totp_verify try_steps unix_time totp_code count_where
    update_where
twice-is_ok = refl

-- the same code again is refused
again-is_ok :
    is_ok
      (authenticate lower verify mac "sara@example.com" "right"
        (some code_now)
        (now + second)
        once.0).1
    ≡ false
unfolding is_ok authenticate find_where strip totp_verify try_steps unix_time totp_code count_where
    update_where
again-is_ok = refl

authenticate_sound_example :
    Entered lower verify mac "sara@example.com" "right" (some code_now) now staff once.0
authenticate_sound_example =
    authenticate_sound lower verify mac "sara@example.com" "right" (some code_now) now staff
      once-is_ok

codes_advance_example :
    Advanced lower verify mac sara (some code_now) (some code_next) now (now + 10 * second)
unfolding totp_enrolled
codes_advance_example =
    codes_advance lower verify mac "sara@example.com" "right" "right" (some code_now)
      (some code_next) now (now + 10 * second) staff once.0 twice.0 once.1 twice.1 sara sara_found
      refl refl once-is_ok refl twice-is_ok

abbrev signed_out : Staff
signed_out = revoke_session token_hash "t2" (now + minute) staff

revoked_for_good_example :
    resolve_session token_hash "t2" (now + hour) signed_out ≡ (signed_out, none)
revoked_for_good_example =
    revoked_for_good token_hash "t2" (now + minute) (now + hour) staff signed_out Visits.here

abbrev opened : Staff
opened = open_session token_hash omid "t3" now none none staff

abbrev used : Staff
used = (resolve_session token_hash "t3" (now + hour) opened).0

t3-IsEnded : IsEnded token_hash "t3" (now + session_absolute) staff
t3-IsEnded = ((λ mine. refl), tt)

absolute_end_example : resolve_session token_hash "t3" (now + 31 * day) used ≡ (used, none)
absolute_end_example =
    absolute_end token_hash omid "t3" now (now + 31 * day) none none staff used t3-IsEnded
      (Visits.next Visits.here (Visit.resolved "t3" (now + hour) opened)) (omega arith)

abbrev staff_of : StaffResult → Staff
staff_of m = elim m [ done s ↦ s | refused e ↦ staff ]

abbrev switched_off : Staff
switched_off = staff_of (set_active actor_sara 2 false now staff)

switches_off : set_active actor_sara 2 false now staff ≡ done switched_off
unfolding set_active ◌>>=◌ find_where count_where any_where is_admin
switches_off = refl

t2-IsOwned : IsOwned token_hash "t2" 2 staff
t2-IsOwned = ((λ mine. refl), tt)

deactivation_signs_out_example :
    resolve_session token_hash "t2" (now + hour) switched_off ≡ (switched_off, none)
deactivation_signs_out_example =
    deactivation_signs_out token_hash actor_sara 2 now (now + hour) "t2" staff switched_off
      switched_off t2-IsOwned switches_off Visits.here

abbrev changed : Staff
changed = (change_password token_hash verify 2 "right" "new" (some "t9") now staff).0

changes : change_password token_hash verify 2 "right" "new" (some "t9") now staff ≡ (changed, true)
unfolding change_password find_where is_locked
changes = refl

some_admin : 1 ≤ active_admins staff
unfolding count_where is_admin
some_admin = omega arith

Management-HasAdmin_example : 1 ≤ active_admins switched_off
Management-HasAdmin_example =
    Management-HasAdmin
      (Management.next Management.here
        (Managed.switched actor_sara 2 false now staff switched_off switches_off))
      some_admin
