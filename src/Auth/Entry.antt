-- ===== src/Auth/Entry.antt =====
-- What a successful login of services/auth.py has checked.
use alo_bot_dashboard.Prelude.{
  ℕ, ◌<◌, ◌≡◌, refl, ap, subst, ◌∙◌, inl, inr, Bool, true, false, ◌&&◌, String, Option, none, some,
  List, arith, ◌==◌, ==_self, str_eq, strip, is_blank, find-update_self, count_where, Bool-cases,
  Option-cases,
}
use alo_bot_dashboard.Staff.{Operator, Staff}
use alo_bot_dashboard.Totp.{
  TotpCheck, totp_verify, totp_verify-IsCodeOf, IsCodeOf, is_spent, unix_time,
}
use alo_bot_dashboard.Auth.{
  AuthReason, Attempt, charged, is_locked, forgive, reset_failures, totp_enrolled, is_before,
  burn_totp_step, sign_in, spend_step, settle_code, by_email, second_factor, admit, authenticate,
}

-- the answer lets the operator in
unfoldable pub is_ok : Attempt → Bool
is_ok Attempt.raised = false
is_ok (Attempt.answered r) = r.ok

is_before_fresh :
    (last : Option ℕ) (step : ℕ) → is_spent last step ≡ false → is_before last step ≡ true
unfolding is_before is_spent
is_before_fresh none step h = refl
is_before_fresh (some n) step h = ground (arith, h)

later_step : (n n' : ℕ) → is_spent (some n) n' ≡ false → n < n'
unfolding is_spent
later_step n n' h = ground (arith, h)

module _ (lower : String → String) (verify : String → String → Bool)
    (mac : Option String → ℕ → List ℕ) where
  -- the second factor as a login has checked it: the code that was given is the one of a new step under
  -- the operator's secret, and that step is the last one from now on
  pub record Spent (o : Operator) (email : String) (totp : Option String) (now : ℕ) (s' : Staff)
      : Type 0 where
    pub text : String
    pub given : totp ≡ some text
    pub step : ℕ
    pub code : IsCodeOf (mac o.totp_secret) text (unix_time now) o.totp_last_step step
    pub after : Operator
    pub found : by_email lower verify mac email s' ≡ some after
    pub burnt : after.totp_last_step ≡ some step
    pub same_secret : after.totp_secret ≡ o.totp_secret
    pub still_enrolled : totp_enrolled after ≡ totp_enrolled o

  pub record Entered (email password : String) (totp : Option String) (now : ℕ) (s s' : Staff)
      : Type 0 where
    pub operator : Operator
    pub found : by_email lower verify mac email s ≡ some operator
    pub active : operator.is_active ≡ true
    pub unlocked : is_locked now operator ≡ false
    pub verified : verify password operator.password_hash ≡ true
    pub second : totp_enrolled operator ≡ true → Spent operator email totp now s'

  charged-not_ok :
      (reason : AuthReason) (i now : ℕ) (s : Staff) → is_ok (charged reason i now s).1 ≡ false
  unfolding charged is_ok
  charged-not_ok reason i now s = refl

  email-burn :
      (email : String) (step : ℕ) (s : Staff) (o : Operator)
      → by_email lower verify mac email s ≡ some o
      → is_spent o.totp_last_step step ≡ false
      → by_email lower verify mac email (reset_failures o.id (burn_totp_step o.id step s).0)
        ≡ some (forgive (record o { totp_last_step = some step }))
  unfolding burn_totp_step
  email-burn email step s o found fresh =
      find-update_self (λ r. str_eq r.email (lower (strip email))) (λ r. r.id == o.id) forgive
        (burn_totp_step o.id step s).0.operators (record o { totp_last_step = some step })
        (λ r. refl)
        (find-update_self (λ r. str_eq r.email (lower (strip email)))
            (λ r. r.id == o.id && is_before r.totp_last_step step) _ s.operators o (λ r. refl) found
          ∙ rw (==_self o.id) (rw (is_before_fresh o.totp_last_step step fresh) refl))
      ∙ rw (==_self o.id) refl

  spend_step-ok :
      (email text : String) (now step : ℕ) (s : Staff) (o : Operator)
      → by_email lower verify mac email s ≡ some o
      → IsCodeOf (mac o.totp_secret) text (unix_time now) o.totp_last_step step
      → is_ok (spend_step o.id now step s).1 ≡ true
      → Spent o email (some text) now (spend_step o.id now step s).0
  unfolding spend_step burn_totp_step sign_in totp_enrolled
  spend_step-ok email text now step s o found code h = elim (Bool-cases (step == 0)) [
    | inl zero_step ↦ absurd (cc (rw zero_step at h, charged-not_ok AuthReason.bad_totp o.id now s))
    | inr positive ↦
        elim (Bool-cases (
          count_where (λ (r : Operator). r.id == o.id && is_before r.totp_last_step step)
            s.operators
          == 1)) [
            | inr lost ↦
                absurd
                  (cc (rw (positive, lost) at h, charged-not_ok AuthReason.bad_totp o.id now _))
            | inl won ↦
                rw (positive, won)
                  record {
                    text = text;
                    given = refl;
                    step = step;
                    code = code;
                    after = forgive (record o { totp_last_step = some step });
                    found = email-burn email step s o found code.fresh;
                    burnt = refl;
                    same_secret = refl;
                    still_enrolled = refl;
                  }
          ]
  ]

  settle_code-ok :
      (email text : String) (now : ℕ) (s : Staff) (o : Operator) (check : TotpCheck)
      → by_email lower verify mac email s ≡ some o
      → ((step : ℕ)
          → check ≡ TotpCheck.matched step
          → IsCodeOf (mac o.totp_secret) text (unix_time now) o.totp_last_step step)
      → is_ok (settle_code check o.id now s).1 ≡ true
      → Spent o email (some text) now (settle_code check o.id now s).0
  unfolding settle_code is_ok
  settle_code-ok email text now s o TotpCheck.raised found code h = absurd (cc)
  settle_code-ok email text now s o TotpCheck.refused found code h =
      absurd (cc (h, charged-not_ok AuthReason.bad_totp o.id now s))
  settle_code-ok email text now s o (TotpCheck.matched step) found code h =
      spend_step-ok email text now step s o found (code step refl) h

  second_factor-ok :
      (email : String) (totp : Option String) (now : ℕ) (s : Staff) (o : Operator)
      → by_email lower verify mac email s ≡ some o
      → is_ok (second_factor lower verify mac o totp now s).1 ≡ true
      → Spent o email totp now (second_factor lower verify mac o totp now s).0
  unfolding second_factor is_ok
  second_factor-ok email none now s o found h = absurd (cc)
  second_factor-ok email (some text) now s o found h = elim (Bool-cases (is_blank text)) [
    | inl blank ↦ absurd (cc (rw blank at h))
    | inr given ↦ rw given (
        settle_code-ok email text now s o
          (totp_verify (mac o.totp_secret) text (unix_time now) o.totp_last_step) found
          (totp_verify-IsCodeOf (mac o.totp_secret) text (unix_time now) o.totp_last_step)
          (rw given at h))
  ]

  admit-second_factor :
      (password : String) (totp : Option String) (now : ℕ) (s : Staff) (o : Operator)
      → o.is_active ≡ true
      → is_locked now o ≡ false
      → verify password o.password_hash ≡ true
      → totp_enrolled o ≡ true
      → admit lower verify mac o password totp now s ≡ second_factor lower verify mac o totp now s
  unfolding admit
  admit-second_factor password totp now s o active free right enrolled =
      simp (active, free, right, enrolled) refl

  admit-ok :
      (email password : String) (totp : Option String) (now : ℕ) (s : Staff) (o : Operator)
      → by_email lower verify mac email s ≡ some o
      → is_ok (admit lower verify mac o password totp now s).1 ≡ true
      → Entered email password totp now s (admit lower verify mac o password totp now s).0
  unfolding admit is_ok
  admit-ok email password totp now s o found h = elim (Bool-cases o.is_active) [
    | inr idle ↦ absurd (cc (rw idle at h))
    | inl active ↦ elim (Bool-cases (is_locked now o)) [
      | inl locked ↦ absurd (cc (rw (active, locked) at h))
      | inr free ↦ elim (Bool-cases (verify password o.password_hash)) [
        | inr wrong ↦ absurd (
            cc
              (rw (active, free, wrong) at h, charged-not_ok AuthReason.bad_credentials o.id now s))
        | inl right ↦ record {
          operator = o;
          found = found;
          active = active;
          unlocked = free;
          verified = right;
          second = λ enrolled.
              let same = admit-second_factor password totp now s o active free right enrolled in
              rw same (second_factor-ok email totp now s o found (rw same at h));
        }
      ]
    ]
  ]

  -- Whoever is let in is an active operator under that email, not locked at that moment, with the
  -- right password, and, where one-time codes are enrolled, with a code of a step that was not used
  -- before, which is the last step of the operator from then on.
  pub authenticate_sound :
      (email password : String) (totp : Option String) (now : ℕ) (s : Staff)
      → is_ok (authenticate lower verify mac email password totp now s).1 ≡ true
      → Entered email password totp now s
          (authenticate lower verify mac email password totp now s).0
  unfolding authenticate is_ok
  authenticate_sound email password totp now s h =
      elim (Option-cases (by_email lower verify mac email s)) [
        | inl nobody ↦ absurd (cc (rw (nobody, authenticate) at h))
        | inr (o, found) ↦
            rw (found, authenticate)
              (admit-ok email password totp now s o found (rw (found, authenticate) at h))
      ]

  entered :
      (email password : String) (totp : Option String) (now : ℕ) (s s' : Staff) (r : Attempt)
      → authenticate lower verify mac email password totp now s ≡ (s', r)
      → is_ok r ≡ true
      → Entered email password totp now s s'
  entered email password totp now s s' r e h =
      subst (λ (x : Staff). Entered email password totp now s x)
        (ap (λ (x : Staff × Attempt). x.0) e)
        (authenticate_sound email password totp now s
          (ap (λ (x : Staff × Attempt). is_ok x.1) e ∙ h))

  -- two codes of an operator, one after the other
  pub record Advanced (o : Operator) (totp totp' : Option String) (now later : ℕ) : Type 0 where
    pub text : String
    pub text' : String
    pub step : ℕ
    pub step' : ℕ
    pub given : totp ≡ some text
    pub given' : totp' ≡ some text'
    pub code : IsCodeOf (mac o.totp_secret) text (unix_time now) o.totp_last_step step
    pub code' : IsCodeOf (mac o.totp_secret) text' (unix_time later) (some step) step'
    pub advanced : step < step'

  next_code :
      (email : String) (totp : Option String) (later step : ℕ) (s : Staff) (o x : Operator)
      → x.totp_secret ≡ o.totp_secret
      → x.totp_last_step ≡ some step
      → Spent x email totp later s
      → (text : String) × (n : ℕ) × (totp ≡ some text)
        × IsCodeOf (mac o.totp_secret) text (unix_time later) (some step) n
  next_code email totp later step s o x secret last spent = (
    spent.text,
    spent.step,
    spent.given,
    subst
        (λ (k : Option String).
          IsCodeOf (mac k) spent.text (unix_time later) (some step) spent.step)
        secret
        (subst
          (λ (l : Option ℕ). IsCodeOf (mac x.totp_secret) spent.text (unix_time later) l spent.step)
          last spent.code),
  )

  codes_after :
      (email password' : String) (totp totp' : Option String) (now later : ℕ) (s' s'' : Staff)
      (o : Operator)
      → totp_enrolled o ≡ true
      → Spent o email totp now s'
      → Entered email password' totp' later s' s''
      → Advanced o totp totp' now later
  codes_after email password' totp totp' now later s' s'' o enrolled spent second =
      let again : second.operator ≡ spent.after = cc (second.found, spent.found) in
      let spent' = second.second (ap totp_enrolled again ∙ spent.still_enrolled ∙ enrolled) in
      let (text', n', given', code') =
        next_code email totp' later spent.step s'' o second.operator
          (ap (λ (x : Operator). x.totp_secret) again ∙ spent.same_secret)
          (ap (λ (x : Operator). x.totp_last_step) again ∙ spent.burnt) spent' in
      record {
        text = spent.text;
        text' = text';
        step = spent.step;
        step' = n';
        given = spent.given;
        given' = given';
        code = spent.code;
        code' = code';
        advanced = later_step spent.step n' code'.fresh;
      }

  -- Of two successful logins in a row of an operator who has enrolled one-time codes, each gave the code of
  -- a step near its own moment, under the same secret, and the step of the second is later than that of the
  -- first: the step whose code has let somebody in lets nobody in again. A text lets in twice only if the two
  -- steps have the same code.
  pub codes_advance :
      (email password password' : String) (totp totp' : Option String) (now later : ℕ)
      (s s' s'' : Staff) (r r' : Attempt) (o : Operator)
      → by_email lower verify mac email s ≡ some o
      → totp_enrolled o ≡ true
      → authenticate lower verify mac email password totp now s ≡ (s', r)
      → is_ok r ≡ true
      → authenticate lower verify mac email password' totp' later s' ≡ (s'', r')
      → is_ok r' ≡ true
      → Advanced o totp totp' now later
  codes_advance email password password' totp totp' now later s s' s'' r r' o found enrolled e h e'
        h' =
      let first = entered email password totp now s s' r e h in
      let same : first.operator ≡ o = cc (first.found, found) in
      subst (λ (x : Operator). Advanced x totp totp' now later) same
        (codes_after email password' totp totp' now later s' s'' first.operator
          (ap totp_enrolled same ∙ enrolled) (first.second (ap totp_enrolled same ∙ enrolled))
          (entered email password' totp' later s' s'' r' e' h'))
