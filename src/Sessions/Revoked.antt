-- ===== src/Sessions/Revoked.antt =====
-- The end of a session of services/auth.py: a session that was revoked, or whose thirty days are
-- over, lets nobody in again.
use alo_bot_dashboard.Prelude.{
  ℕ, ◌+◌, ◌≤◌, ◌≡◌, refl, inl, inr, Bool, true, false, not, ◌&&◌, ◌||◌, String, Option, none, arith,
  leb, str_eq, is_none, find_where, find_where_holds, update_where, All, All-update, All-find_where,
  All-trivial, Bool-cases, Option-cases, done,
}
use alo_bot_dashboard.Audit.{Actor}
use alo_bot_dashboard.Staff.{Operator, SignIn, Staff, get_operator}
use alo_bot_dashboard.Auth.{session_absolute, session_slide, charge_failure, is_locked}
use alo_bot_dashboard.Operators.{set_active, revoke_all}
use alo_bot_dashboard.Operators.LastAdmin.{set_active-sessions}
use alo_bot_dashboard.Sessions.{
  open_session, has_token, slide, is_live, resolve_session, revoke_session, revoke_other_sessions,
  change_password,
}

module _ (token_hash : String → String) where
  -- from the moment `end` on, no session of the token is live
  abbrev pub IsOver : String → ℕ → SignIn → Type 0
  IsOver token end x =
      has_token token_hash token x ≡ true
      → (not (is_none x.revoked_at) || leb x.expires_at end) ≡ true

  abbrev pub IsEnded : String → ℕ → Staff → Type 0
  IsEnded token end s = All (IsOver token end) s.sessions

  -- what other requests do to the sessions meanwhile, by whomever
  pub data Visit (token : String) : Staff → Staff → Type 0 where
    resolved :
        (other : String) (now : ℕ) (s : Staff)
        → Visit token s (resolve_session token_hash other now s).0
    revoked :
        (other : String) (now : ℕ) (s : Staff)
        → Visit token s (revoke_session token_hash other now s)
    opened :
        (o : Operator) (other : String) (now : ℕ) (ip agent : Option String) (s : Staff)
        → str_eq (token_hash other) (token_hash token) ≡ false
        → Visit token s (open_session token_hash o other now ip agent s)
    changed :
        (verify : String → String → Bool) (i : ℕ) (current new_hash : String) (kept : Option String)
        (now : ℕ) (s : Staff)
        → Visit token s (change_password token_hash verify i current new_hash kept now s).0
    switched :
        (actor : Actor) (i : ℕ) (active : Bool) (clock : ℕ) (s s' : Staff)
        → set_active actor i active clock s ≡ done s'
        → Visit token s s'

  pub data Visits (token : String) (start : Staff) : Staff → Type 0 where
    here : Visits token start start
    next : {s s' : Staff} → Visits token start s → Visit token s s' → Visits token start s'

  -- nobody is let in with the token once its sessions have ended
  pub ended_refused :
      (token : String) (end now : ℕ) (s : Staff)
      → IsEnded token end s
      → end ≤ now
      → resolve_session token_hash token now s ≡ (s, none)
  unfolding resolve_session is_live
  ended_refused token end now s all after =
      elim (Option-cases (find_where (has_token token_hash token) s.sessions)) [
        | inl gone ↦ rw (gone, resolve_session) refl
        | inr (x, found) ↦
            let over =
              All-find_where (IsOver token end) (has_token token_hash token) s.sessions x all found
                (find_where_holds (has_token token_hash token) s.sessions x found) in
            let dead : (not (is_none x.revoked_at) || leb x.expires_at now) ≡ true =
              ground (arith, over, after) in
            rw (found, resolve_session)
              (elim (Option-cases (get_operator x.operator_id s)) [
                | inl lost ↦ rw (lost, resolve_session) refl
                | inr (o, there) ↦ rw (there, resolve_session) (rw dead refl)
              ])
      ]

  -- updates that keep the token and the expiry, and revive nothing
  update-IsEnded :
      (token : String) (end : ℕ) (p : SignIn → Bool) (f : SignIn → SignIn) (s : Staff)
      → ((x : SignIn) → IsOver token end x → IsOver token end (f x))
      → IsEnded token end s
      → All (IsOver token end) (update_where p f s.sessions)
  update-IsEnded token end p f s keeps all =
      All-update (IsOver token end) (IsOver token end) p f s.sessions
        (λ x h. elim (Bool-cases (p x)) [ inl hit ↦ rw hit (keeps x h) | inr miss ↦ rw miss h ]) all

  slide-IsEnded :
      (token other : String) (end now : ℕ) (x : SignIn) (s : Staff)
      → IsEnded token end s
      → IsEnded token end (slide token_hash other now x s)
  unfolding slide
  slide-IsEnded token other end now x s all =
      elim (Bool-cases (leb (x.last_seen_at + session_slide) now)) [
        | inl stale ↦ rw stale (update-IsEnded token end _ _ s (λ y h. h) all)
        | inr recent ↦ rw recent all
      ]

  resolve-IsEnded :
      (token other : String) (end now : ℕ) (s : Staff)
      → IsEnded token end s
      → IsEnded token end (resolve_session token_hash other now s).0
  unfolding resolve_session
  resolve-IsEnded token other end now s all =
      elim (Option-cases (find_where (has_token token_hash other) s.sessions)) [
        | inl gone ↦ rw (gone, resolve_session) all
        | inr (x, found) ↦
            rw (found, resolve_session)
              (elim (Option-cases (get_operator x.operator_id s)) [
                | inl lost ↦ rw (lost, resolve_session) all
                | inr (o, there) ↦
                    rw (there, resolve_session)
                      (elim (Bool-cases (is_live token_hash now x o)) [
                        | inl live ↦ rw live (slide-IsEnded token other end now x s all)
                        | inr dead ↦ rw dead all
                      ])
              ])
      ]

  change-IsEnded :
      (token : String) (end : ℕ) (verify : String → String → Bool) (i : ℕ)
      (current new_hash : String) (kept : Option String) (now : ℕ) (s : Staff)
      → IsEnded token end s
      → IsEnded token end (change_password token_hash verify i current new_hash kept now s).0
  unfolding change_password revoke_other_sessions charge_failure
  change-IsEnded token end verify i current new_hash kept now s all =
      elim (Option-cases (get_operator i s)) [
        | inl gone ↦ rw (gone, change_password) all
        | inr (o, found) ↦
            rw (found, change_password)
              (elim (Bool-cases (is_locked now o)) [
                | inl locked ↦ rw locked all
                | inr free ↦ elim (Bool-cases (verify current o.password_hash)) [
                  | inr wrong ↦ rw (free, wrong) all
                  | inl right ↦
                      rw (free, right)
                        (update-IsEnded token end _ _ s (λ y h mine. ground arith) all)
                ]
              ])
      ]

  Visit-IsEnded :
      (token : String) (end : ℕ) {s s' : Staff}
      → Visit token s s'
      → IsEnded token end s
      → IsEnded token end s'
  unfolding revoke_session open_session revoke_all
  Visit-IsEnded token end (resolved other now s) all = resolve-IsEnded token other end now s all
  Visit-IsEnded token end (revoked other now s) all =
      update-IsEnded token end _ _ s (λ y h mine. ground arith) all
  Visit-IsEnded token end (opened o other now ip agent s apart) all =
      ((λ mine. absurd (ground (arith, mine, apart))), all)
  Visit-IsEnded token end (changed verify i current new_hash kept now s) all =
      change-IsEnded token end verify i current new_hash kept now s all
  Visit-IsEnded token end (switched actor i active clock s s' e) all =
      rw ((set_active-sessions actor i active clock s).at s' e) (elim (Bool-cases active) [
        | inl on ↦ rw on all
        | inr off ↦ rw off (update-IsEnded token end _ _ s (λ y h mine. ground arith) all)
      ])

  pub Visits-IsEnded :
      (token : String) (end : ℕ) {s s' : Staff}
      → Visits token s s'
      → IsEnded token end s
      → IsEnded token end s'
  Visits-IsEnded token end here all = all
  Visits-IsEnded token end (next vs v) all =
      Visit-IsEnded token end v (Visits-IsEnded token end vs all)

  -- After a sign-out the token lets nobody in again, whatever requests come in between (its own
  -- included), as long as no new session gets the same token.
  pub revoked_for_good :
      (token : String) (now later : ℕ) (s s' : Staff)
      → Visits token (revoke_session token_hash token now s) s'
      → resolve_session token_hash token later s' ≡ (s', none)
  unfolding revoke_session
  revoked_for_good token now later s s' visits =
      ended_refused token 0 later s'
        (Visits-IsEnded token 0 visits (
          All-update (λ x. Unit {0}) (IsOver token 0) _ _ s.sessions
            (λ x h. elim (Bool-cases (has_token token_hash token x && is_none x.revoked_at)) [
              | inl hit ↦ rw hit (λ mine. refl)
              | inr miss ↦ rw miss (λ mine. ground (arith, mine, miss))
            ])
            (All-trivial s.sessions)))
        (omega arith)

  -- Thirty days after it was opened a session is over, however often it was used: its token lets
  -- nobody in.
  pub absolute_end :
      (o : Operator) (token : String) (now later : ℕ) (ip agent : Option String) (s s' : Staff)
      → IsEnded token (now + session_absolute) s
      → Visits token (open_session token_hash o token now ip agent s) s'
      → now + session_absolute ≤ later
      → resolve_session token_hash token later s' ≡ (s', none)
  unfolding open_session
  absolute_end o token now later ip agent s s' before visits after =
      ended_refused token (now + session_absolute) later s'
        (Visits-IsEnded token (now + session_absolute) visits ((λ mine. ground arith), before))
        after
