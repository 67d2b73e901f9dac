-- ===== src/Auth/Lockout.antt =====
-- The lockout of services/auth.py.
use alo_bot_dashboard.Prelude.{
  All, suc, leb, ◌&&◌, is_none, ℕ, ◌+◌, ◌≤◌, ◌<◌, ◌≡◌, refl, ◌∙◌, Bool, true, false, String, Option,
  some, List, [], ◌∷◌, arith, ◌==◌, str_eq, strip, find-update_self, find_where_holds, length,
}
use alo_bot_dashboard.Staff.{Operator, Staff, get_operator}
use alo_bot_dashboard.Auth.{
  AuthReason, max_failed_attempts, lock_time, fail, charge, charge_failure, charged, is_locked,
  by_email, admit, authenticate,
}

-- what is sent to log in, and when
pub record Login : Type 0 where
  pub password : String
  pub totp : Option String
  pub at : ℕ

charged-active : (o : Operator) (now : ℕ) → o.is_active ≡ true → (charge now o).is_active ≡ true
unfolding charge
charged-active o now h = h

charged-count :
    (o : Operator) (now n : ℕ)
    → o.failed_attempts + suc n + 1 ≡ max_failed_attempts
    → (charge now o).failed_attempts + n + 1 ≡ max_failed_attempts
unfolding charge
charged-count o now n h = omega (arith, h)

module _ (lower : String → String) (verify : String → String → Bool)
    (mac : Option String → ℕ → List ℕ) where
  -- a failure on the operator that an email leads to changes what the email leads to
  by_email-charge :
      (email : String) (i now : ℕ) (s : Staff) (o : Operator)
      → o.id ≡ i
      → by_email lower verify mac email s ≡ some o
      → by_email lower verify mac email (charge_failure i now s).0 ≡ some (charge now o)
  unfolding charge_failure charge
  by_email-charge email i now s o e found =
      find-update_self (λ r. str_eq r.email (lower (strip email))) (λ r. r.id == i) (charge now)
        s.operators o (λ r. refl) found
      ∙ ground (arith, e)

  locked_by_charge :
      (o : Operator) (now : ℕ)
      → max_failed_attempts ≤ o.failed_attempts + 1
      → (charge now o).locked_until ≡ some (now + lock_time)
  unfolding charge
  locked_by_charge o now fifth = ground (arith, fifth)

  -- a locked operator is refused, and nothing is written
  admit-locked :
      (o : Operator) (until now : ℕ) (password : String) (totp : Option String) (s : Staff)
      → o.is_active ≡ true
      → o.locked_until ≡ some until
      → now < until
      → admit lower verify mac o password totp now s ≡ (s, fail AuthReason.locked (some until))
  unfolding admit is_locked
  admit-locked o until now password totp s active locked early =
      rw active (rw locked (ground (arith, early, locked)))

  after_wrong :
      (email password : String) (totp : Option String) (now : ℕ) (s : Staff) (o : Operator)
      → by_email lower verify mac email s ≡ some o
      → o.is_active ≡ true
      → is_locked now o ≡ false
      → verify password o.password_hash ≡ false
      → (authenticate lower verify mac email password totp now s).0 ≡ (charge_failure o.id now s).0
  unfolding authenticate admit charged
  after_wrong email password totp now s o found active free wrong =
      rw (found, authenticate) (rw (active, admit) (rw (free, admit) (rw wrong refl)))

  last_failure-locks :
      (email password password' : String) (totp totp' : Option String) (now later : ℕ) (s : Staff)
      (o : Operator)
      → by_email lower verify mac email s ≡ some o
      → o.is_active ≡ true
      → is_locked now o ≡ false
      → verify password o.password_hash ≡ false
      → max_failed_attempts ≤ o.failed_attempts + 1
      → later < now + lock_time
      → let s' = (authenticate lower verify mac email password totp now s).0 in
        authenticate lower verify mac email password' totp' later s'
        ≡ (s', fail AuthReason.locked (some (now + lock_time)))
  unfolding authenticate charge
  last_failure-locks email password password' totp totp' now later s o found active free wrong fifth
        early =
      rw (after_wrong email password totp now s o found active free wrong) (
        rw (by_email-charge email o.id now s o refl found, authenticate)
          (admit-locked (charge now o) (now + lock_time) later password' totp'
            (charge_failure o.id now s).0 active (locked_by_charge o now fifth) early))

  -- the logins of one email, one after the other
  pub logins : String → List Login → Staff → Staff
  logins email [] s = s
  logins email (l ∷ ls) s =
      logins email ls (authenticate lower verify mac email l.password l.totp l.at s).0

  -- a login with a wrong password, at a time at which the operator is not locked
  abbrev pub IsWrong : Operator → Login → Type 0
  IsWrong o l = (verify l.password o.password_hash ≡ false) × (is_locked l.at o ≡ false)

  still-IsWrong :
      (o : Operator) (now : ℕ) (ls : List Login)
      → o.failed_attempts + 1 < max_failed_attempts
      → All (IsWrong o) ls
      → All (IsWrong (charge now o)) ls
  unfolding charge is_locked
  still-IsWrong o now [] few h = tt
  still-IsWrong o now (l ∷ ls) few h =
      ((h.0.0, ground (arith, few, h.0.1)), still-IsWrong o now ls few h.1)

  -- Wrong passwords, one after the other, lock the account with the fifth: from an operator whose
  -- failures and these logins make five, the last of them locks the account for fifteen minutes.
  -- Until then no password and no code is accepted, not even the right ones, and nothing is
  -- written.
  pub fifth_failure-locks :
      (email : String) (ls : List Login) (last : Login) (password : String) (totp : Option String)
      (later : ℕ) (s : Staff) (o : Operator)
      → by_email lower verify mac email s ≡ some o
      → o.is_active ≡ true
      → All (IsWrong o) ls
      → IsWrong o last
      → o.failed_attempts + length ls + 1 ≡ max_failed_attempts
      → later < last.at + lock_time
      → let before = logins email ls s in
        let s' = (authenticate lower verify mac email last.password last.totp last.at before).0 in
        authenticate lower verify mac email password totp later s'
        ≡ (s', fail AuthReason.locked (some (last.at + lock_time)))
  unfolding logins
  fifth_failure-locks email [] last password totp later s o found active wrong ends count early =
      last_failure-locks email last.password password last.totp totp last.at later s o found active
        ends.1 ends.0 (omega (arith, count)) early
  fifth_failure-locks email (l ∷ ls) last password totp later s o found active wrong ends count
        early =
      let few : o.failed_attempts + 1 < max_failed_attempts = omega (arith, count) in
      rw (after_wrong email l.password l.totp l.at s o found active wrong.0.1 wrong.0.0) (
        fifth_failure-locks email ls last password totp later (charge_failure o.id l.at s).0
          (charge l.at o) (by_email-charge email o.id l.at s o refl found)
          (charged-active o l.at active) (still-IsWrong o l.at ls few wrong.1)
          (still-IsWrong o l.at (last ∷ []) few (ends, tt)).0
          (charged-count o l.at (length ls) count) early)

-- `_charge_failure` by several requests, in the order in which the row lock lets them through
pub charge_all : ℕ → List ℕ → Staff → Staff
charge_all i [] s = s
charge_all i (now ∷ times) s = charge_all i times (charge_failure i now s).0

get-charge :
    (i now : ℕ) (s : Staff) (o : Operator)
    → get_operator i s ≡ some o
    → get_operator i (charge_failure i now s).0 ≡ some (charge now o)
unfolding charge_failure charge
get-charge i now s o found =
    find-update_self (λ r. r.id == i) (λ r. r.id == i) (charge now) s.operators o (λ r. refl) found
    ∙ ground (arith, find_where_holds (λ r. r.id == i) s.operators o found)

-- Every wrong guess counts, however many come at once and in whatever order they are let through:
-- the counter grows by their number, and the account is locked once it has reached five.
pub charges_count :
    (i : ℕ) (times : List ℕ) (s : Staff) (o : Operator)
    → get_operator i s ≡ some o
    → 1 ≤ length times
    → (r : Operator) × (get_operator i (charge_all i times s) ≡ some r)
      × (r.failed_attempts ≡ o.failed_attempts + length times)
      × ((leb max_failed_attempts r.failed_attempts && is_none r.locked_until) ≡ false)
unfolding charge_all charge
charges_count i [] s o found some_left = absurd (omega arith)
charges_count i (now ∷ []) s o found some_left =
    (charge now o, get-charge i now s o found, ground arith, ground arith)
charges_count i (now ∷ later ∷ times) s o found some_left =
    let (r, found', count, locks) =
      charges_count i (later ∷ times) (charge_failure i now s).0 (charge now o)
        (get-charge i now s o found) (omega arith) in
    (r, found', ground (arith, count), locks)
