-- ===== src/Review/Trail.antt =====
-- The audit trail of services/review.py: the row that each action adds in its own transaction.
use alo_bot_dashboard.Prelude.{
  ℕ, ◌≡◌, refl, ap, ◌∙◌, Bool, true, false, String, Option, none, some, ◌∷◌, ◌==◌, ==_iff,
  find_where_holds, print, done, ◌>>=◌, Ensures, Ensures-bind, Ensures-done, or_refuse-done,
}
use alo_bot_dashboard.Model.{ClaimStatus, is_open, claim_status_text}
use alo_bot_dashboard.Audit.{Json, AuditRow, Actor, single, audit_row}
use alo_bot_dashboard.Books.{PaymentClaim, Transaction, Books, get_claim, update_claim, add_match}
use alo_bot_dashboard.Books.Invariant.{insert_settling-some}
use alo_bot_dashboard.Review.{
  ReviewError, lock, log, claim_audit, transition, approve_with_transaction, verify_manually,
  decide, reject, mark_fake, set_claim, park, unpark, is_decided, free_matches, reopen,
  send_template, message,
}
use alo_bot_dashboard.Review.Actions.{transition-done}

-- one row more, by this operator, on this claim, with the status that it had
pub record IsLogged (actor : Actor) (i : ℕ) (b b' : Books) : Type 0 where
  pub claim : PaymentClaim
  pub row : AuditRow
  pub found : get_claim i b ≡ some claim
  pub appended : b'.audit ≡ row ∷ b.audit
  pub who : row.actor_operator_id ≡ some actor.id
  pub whom : row.entity_id ≡ print i
  pub before : row.before ≡ some (single "status" (Json.text (claim_status_text claim.status)))

module _ (actor : Actor) (now i : ℕ) (b : Books) where
  logged :
      (action : String) (claim : PaymentClaim) (after : Option Json) (moved : Books)
      → get_claim i b ≡ some claim
      → moved.audit ≡ b.audit
      → Ensures {E = ReviewError}
          (IsLogged actor i b)
          (done (log (claim_audit actor action claim after) moved))
  unfolding log claim_audit audit_row
  logged action claim after moved found same = Ensures-done _ record {
    claim = claim;
    row = claim_audit actor action claim after;
    found = found;
    appended = ap (λ rows. claim_audit actor action claim after ∷ rows) same;
    who = refl;
    whom =
        ap print ((==_iff claim.id i).0 (find_where_holds (λ c. c.id == i) b.claims claim found));
    before = refl;
  }

  transition-IsLogged :
      (to : ClaimStatus) (allowed : ClaimStatus → Bool) (v : Bool) (why : Option String)
      (action : String) (claim : PaymentClaim) (after : Option Json) (b1 : Books)
      → get_claim i b ≡ some claim
      → b1.audit ≡ b.audit
      → Ensures (IsLogged actor i b) (
          transition claim.id to allowed now actor v why b1 >>= λ moved.
          done (log (claim_audit actor action claim after) moved))
  unfolding update_claim
  transition-IsLogged to allowed v why action claim after b1 found same =
      Ensures-bind _ _ λ moved e.
        let (moved_to, one) = transition-done claim.id to allowed now actor v why b1 moved e in
        logged action claim after moved found (ap (λ (x : Books). x.audit) moved_to ∙ same)

  pub approve-IsLogged :
      (t : ℕ) → Ensures (IsLogged actor i b) (approve_with_transaction actor i t now b)
  unfolding approve_with_transaction lock add_match
  approve-IsLogged t = Ensures-bind _ _ λ (claim : PaymentClaim) e.
      Ensures-bind _ _ λ (u : Unit {0}) o. Ensures-bind _ _ λ (tx : Transaction) e'.
        Ensures-bind _ _ λ flushed e''.
          let (same, free, none_yet) =
            insert_settling-some _ _ _ _ _ _ _ b flushed (or_refuse-done _ _ _ e'') in
          transition-IsLogged ClaimStatus.manual_verified is_open true none "claim.approve" claim _
            flushed (or_refuse-done _ _ _ e) (ap (λ (x : Books). x.audit) same)

  pub verify-IsLogged :
      (note : String) → Ensures (IsLogged actor i b) (verify_manually actor i note now b)
  unfolding verify_manually lock
  verify-IsLogged note = Ensures-bind _ _ λ (u : Unit {0}) o.
      Ensures-bind _ _ λ (claim : PaymentClaim) e.
        transition-IsLogged ClaimStatus.manual_verified is_open true _ "claim.verify_manual" claim _
          b (or_refuse-done _ _ _ e) refl

  pub reject-IsLogged : (note : String) → Ensures (IsLogged actor i b) (reject actor i note now b)
  unfolding reject decide lock
  reject-IsLogged note = Ensures-bind _ _ λ (claim : PaymentClaim) e.
      transition-IsLogged ClaimStatus.rejected is_open false _ "claim.reject" claim _ b
        (or_refuse-done _ _ _ e) refl

  pub fake-IsLogged : (note : String) → Ensures (IsLogged actor i b) (mark_fake actor i note now b)
  unfolding mark_fake decide lock
  fake-IsLogged note = Ensures-bind _ _ λ (claim : PaymentClaim) e.
      transition-IsLogged ClaimStatus.fake is_open false _ "claim.fake" claim _ b
        (or_refuse-done _ _ _ e) refl

  pub park-IsLogged : Ensures (IsLogged actor i b) (park actor i now b)
  unfolding park lock set_claim
  park-IsLogged = Ensures-bind _ _ λ (claim : PaymentClaim) e.
      Ensures-bind _ _
        λ (u : Unit {0}) o. logged "claim.park" claim none _ (or_refuse-done _ _ _ e) refl

  pub unpark-IsLogged : Ensures (IsLogged actor i b) (unpark actor i b)
  unfolding unpark lock set_claim
  unpark-IsLogged =
      Ensures-bind _ _
        λ (claim : PaymentClaim) e. logged "claim.unpark" claim none _ (or_refuse-done _ _ _ e) refl

  pub reopen-IsLogged : Ensures (IsLogged actor i b) (reopen actor i now b)
  unfolding reopen lock free_matches
  reopen-IsLogged = Ensures-bind _ _ λ (claim : PaymentClaim) e.
      Ensures-bind _ _ λ (u : Unit {0}) o.
        transition-IsLogged ClaimStatus.pending is_decided false none "claim.reopen" claim _ _
          (or_refuse-done _ _ _ e) refl

  pub message-IsLogged :
      (template : String) (clock : ℕ)
      → Ensures (IsLogged actor i b) (message actor i template now clock b)
  unfolding message lock set_claim send_template
  message-IsLogged template clock = Ensures-bind _ _ λ (body : String) e.
      Ensures-bind _ _ λ (u : Unit {0}) o.
        Ensures-bind _ _ λ (claim : PaymentClaim) e'.
          logged "claim.message" claim _ _ (or_refuse-done _ _ _ e') refl
