-- ===== src/Review/Closing.antt =====
-- The deciding actions of services/review.py: what a decided claim is, and that a decision leaves one.
use alo_bot_dashboard.Prelude.{
  ℕ, ◌≤◌, ◌≡◌, refl, ap, ◌∙◌, inl, inr, Bool, true, false, Option, none, some, arith, ◌==◌, ==_iff,
  if◌then◌else◌, String, Bool-cases, strip, is_blank, count_where, count-update, count_of_unique,
  find-update_self, find_where_holds, done, refused, ◌>>=◌, Ensures, Ensures-bind, Ensures-done,
  or_refuse-done,
}
use alo_bot_dashboard.Model.{ClaimStatus, is_open}
use alo_bot_dashboard.Audit.{AuditRow, Actor}
use alo_bot_dashboard.Books.{
  PaymentClaim, Transaction, Books, update_claim, claim_in, get_claim, add_match,
}
use alo_bot_dashboard.Books.Invariant.{insert_settling-some}
use alo_bot_dashboard.Review.{
  lock, log, transition, transition_values, approve_with_transaction, verify_manually, some_note,
  decide, reject, mark_fake, already_decided,
}
use alo_bot_dashboard.Review.Actions.{transition-done}

-- the claim is there under a unique id, and decided
pub record IsDecided (i : ℕ) (b : Books) : Type 0 where
  pub claim : PaymentClaim
  pub found : get_claim i b ≡ some claim
  pub unique : count_where (λ c. c.id == i) b.claims ≤ 1
  pub closed : is_open claim.status ≡ false

-- an UPDATE of an open claim to a decided status
update_claim-IsDecided :
    (i j : ℕ) (f : PaymentClaim → PaymentClaim) (b : Books) (claim : PaymentClaim)
    → j ≡ i
    → ((c : PaymentClaim) → (f c).id ≡ c.id)
    → ((c : PaymentClaim) → is_open (f c).status ≡ false)
    → get_claim i b ≡ some claim
    → count_where (λ c. c.id == i) b.claims ≤ 1
    → IsDecided i (update_claim j is_open f b).0
unfolding update_claim
update_claim-IsDecided i j f b claim e ids shut found unique =
    let mine : (claim.id == i) ≡ true = find_where_holds (λ c. c.id == i) b.claims claim found in
    record {
      claim = if claim_in j is_open claim then f claim else claim;
      found =
          find-update_self (λ c. c.id == i) (claim_in j is_open) f b.claims claim
            (λ c. ap (λ x. x == i) (ids c)) found;
      unique =
          rw
            (count-update (λ c. c.id == i) (claim_in j is_open) f b.claims
              (λ c. ap (λ x. x == i) (ids c)))
            unique;
      closed = elim (Bool-cases (is_open claim.status)) [
        | inl opened ↦ rw (e, mine, opened) (shut claim)
        | inr closed ↦ rw (e, mine, closed) closed
      ];
    }

module _ (actor : Actor) (now : ℕ) where
  transition-IsDecided :
      (i : ℕ) (to : ClaimStatus) (v : Bool) (note : Option String) (row : AuditRow) (b : Books)
      (claim : PaymentClaim)
      → is_open to ≡ false
      → get_claim i b ≡ some claim
      → count_where (λ c. c.id == i) b.claims ≤ 1
      → Ensures
          (IsDecided i)
          (transition claim.id to is_open now actor v note b >>= λ moved. done (log row moved))
  unfolding transition_values log
  transition-IsDecided i to v note row b claim shut found unique = Ensures-bind _ _ λ moved e.
      let (same, one) = transition-done claim.id to is_open now actor v note b moved e in
      let mine = (==_iff claim.id i).0 (find_where_holds (λ c. c.id == i) b.claims claim found) in
      let d : IsDecided i moved =
        rw same
          (update_claim-IsDecided i claim.id _ b claim mine (λ c. refl) (λ c. shut) found unique) in
      Ensures-done _
        record { claim = d.claim; found = d.found; unique = d.unique; closed = d.closed }

  module _ (i : ℕ) (b : Books) (unique : count_where (λ c. c.id == i) b.claims ≤ 1) where
    pub approve-IsDecided :
        (t : ℕ) → Ensures (IsDecided i) (approve_with_transaction actor i t now b)
    unfolding approve_with_transaction is_open lock add_match
    approve-IsDecided t = Ensures-bind _ _ λ (claim : PaymentClaim) e.
        Ensures-bind _ _ λ (u : Unit {0}) o. Ensures-bind _ _ λ (tx : Transaction) e'.
          Ensures-bind _ _ λ flushed e''.
            let (same, free, none_yet) =
              insert_settling-some _ _ _ _ _ _ _ b flushed (or_refuse-done _ _ _ e'') in
            transition-IsDecided i ClaimStatus.manual_verified true none _ flushed claim refl
              (rw same (or_refuse-done _ _ _ e)) (rw same unique)

    pub verify-IsDecided :
        (note : String) → Ensures (IsDecided i) (verify_manually actor i note now b)
    unfolding verify_manually is_open lock
    verify-IsDecided note = Ensures-bind _ _ λ (u : Unit {0}) o.
        Ensures-bind _ _ λ (claim : PaymentClaim) e.
          transition-IsDecided i ClaimStatus.manual_verified true _ _ b claim refl
            (or_refuse-done _ _ _ e) unique

    pub reject-IsDecided : (note : String) → Ensures (IsDecided i) (reject actor i note now b)
    unfolding reject is_open lock
    reject-IsDecided note = Ensures-bind _ _ λ (claim : PaymentClaim) e.
        transition-IsDecided i ClaimStatus.rejected false _ _ b claim refl (or_refuse-done _ _ _ e)
          unique

    pub fake-IsDecided : (note : String) → Ensures (IsDecided i) (mark_fake actor i note now b)
    unfolding mark_fake is_open lock
    fake-IsDecided note = Ensures-bind _ _ λ (claim : PaymentClaim) e.
        transition-IsDecided i ClaimStatus.fake false _ _ b claim refl (or_refuse-done _ _ _ e)
          unique

-- a claim that is not open refuses every transition from open
transition-refused :
    (actor : Actor) (now i j : ℕ) (to : ClaimStatus) (v : Bool) (note : Option String) (b : Books)
    (d : IsDecided i b)
    → j ≡ i
    → transition j to is_open now actor v note b ≡ refused already_decided
unfolding transition update_claim
transition-refused actor now i j to v why b d e =
    let zero_rows : count_where (claim_in j is_open) b.claims ≡ 0 = rw e (
      count_of_unique (λ c. c.id == i) (λ c. is_open c.status) b.claims d.claim d.unique d.found
      ∙ ground (arith, d.closed)) in
    ground (arith, zero_rows)

module _ (actor : Actor) (now i : ℕ) (b : Books) (d : IsDecided i b) where
  same_id : d.claim.id ≡ i
  same_id = (==_iff d.claim.id i).0 (find_where_holds (λ c. c.id == i) b.claims d.claim d.found)

  pub approve_refused : (t : ℕ) → approve_with_transaction actor i t now b ≡ refused already_decided
  unfolding approve_with_transaction lock ◌>>=◌
  approve_refused t = rw d.found (rw d.closed refl)

  pub verify_refused :
      (note : String)
      → is_blank (strip note) ≡ false
      → verify_manually actor i note now b ≡ refused already_decided
  unfolding verify_manually lock ◌>>=◌
  verify_refused note given = rw given (
      rw d.found (
        rw
          (transition-refused actor now i d.claim.id ClaimStatus.manual_verified true
            (some (strip note)) b d same_id)
          refl))

  pub reject_refused : (note : String) → reject actor i note now b ≡ refused already_decided
  unfolding reject decide lock ◌>>=◌
  reject_refused note = rw d.found (
      rw
        (transition-refused actor now i d.claim.id ClaimStatus.rejected false (some_note note) b d
          same_id)
        refl)

  pub fake_refused : (note : String) → mark_fake actor i note now b ≡ refused already_decided
  unfolding mark_fake decide lock ◌>>=◌
  fake_refused note = rw d.found (
      rw
        (transition-refused actor now i d.claim.id ClaimStatus.fake false (some_note note) b d
          same_id)
        refl)
