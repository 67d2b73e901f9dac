-- ===== src/Review/Actions.antt =====
-- Every action of services/review.py keeps the books consistent.
use alo_bot_dashboard.Prelude.{
  Ensures, Ensures-bind, Ensures-done, or_refuse-done, ℕ, ◌≡◌, refl, sym, subst, inl, inr, Bool,
  true, false, Option, none, some, arith, ◌==◌, ==_iff, String, Bool-cases, strip, and_true, done,
  ◌>>=◌, or_refuse,
}
use native.Mathlib.Nat.{le_refl}
use alo_bot_dashboard.Model.{ClaimStatus, MatchStatus, is_settling, is_open}
use alo_bot_dashboard.Audit.{AuditRow, Actor}
use alo_bot_dashboard.Matcher.{delta_seconds}
use alo_bot_dashboard.Books.{
  PaymentClaim, Transaction, Books, insert_settling, update_claim, claim_in,
}
use alo_bot_dashboard.Books.Invariant.{
  IsConsistent, Backing, recast-IsConsistent, settle-IsConsistent,
}
use alo_bot_dashboard.Review.{
  Outcome, ReviewError, log, transition, transition_values, approve_with_transaction,
  verify_manually, some_note, reject, mark_fake, set_claim, park, unpark, message,
}

abbrev pub Keeps : Outcome Books → Type 0
Keeps m = Ensures IsConsistent m

pub log-IsConsistent : (row : AuditRow) (b : Books) → IsConsistent b → IsConsistent (log row b)
unfolding log
log-IsConsistent row b k = record {
  one_per_credit = k.one_per_credit;
  unique_ids = k.unique_ids;
  backed = k.backed;
}

pub transition-done :
    (i : ℕ) (to : ClaimStatus) (allowed : ClaimStatus → Bool) (now : ℕ) (actor : Actor) (v : Bool)
    (note : Option String) (b b' : Books)
    → transition i to allowed now actor v note b ≡ done b'
    → (b' ≡ (update_claim i allowed (transition_values to now actor v note) b).0)
      × ((update_claim i allowed (transition_values to now actor v note) b).1 ≡ 1)
unfolding transition
transition-done i to allowed now actor v note b b' h =
    elim (Bool-cases ((update_claim i allowed (transition_values to now actor v note) b).1 == 1)) [
      | inr missed ↦ absurd (cc (rw missed at h))
      | inl hit ↦ (cc (rw hit at h), (==_iff _ 1).0 hit)
    ]

-- an open claim has no settling match
pub open-Backing : (s : ClaimStatus) (n : ℕ) → is_open s ≡ true → Backing s n → n ≡ 0
unfolding is_open
open-Backing ClaimStatus.pending n o h = h
open-Backing ClaimStatus.fulfilled_unreconciled n o h = h
open-Backing ClaimStatus.auto_verified n o h = absurd (cc)
open-Backing ClaimStatus.manual_verified n o h = absurd (cc)
open-Backing ClaimStatus.rejected n o h = absurd (cc)
open-Backing ClaimStatus.fake n o h = absurd (cc)

module _ (actor : Actor) (now : ℕ) where
  -- the settling match and the transition of `approve_with_transaction`
  approve-Keeps :
      (i t : ℕ) (delta : Option ℕ) (row : AuditRow) (b : Books)
      → IsConsistent b
      → Keeps (
          or_refuse
            (insert_settling i t MatchStatus.confirmed "operator" delta
              (some actor.email)
              (some now)
              b)
            ReviewError.transaction_taken
          >>= λ flushed.
              transition i ClaimStatus.manual_verified is_open now actor true none flushed
              >>= λ moved. done (log row moved))
  unfolding is_settling transition_values
  approve-Keeps i t delta row b k = Ensures-bind _ _ λ flushed e. Ensures-bind _ _ λ moved e'.
      let (same, one) =
        transition-done i ClaimStatus.manual_verified is_open now actor true none flushed moved
          e' in
      Ensures-done _ (
        log-IsConsistent row moved (
          rw same (
            settle-IsConsistent i t MatchStatus.confirmed "operator" delta (some actor.email)
              (some now) (transition_values ClaimStatus.manual_verified now actor true none) b
              (λ c. refl) (λ c. le_refl 1) refl flushed (or_refuse-done _ _ _ e) one k)))

  pub approve_with_transaction-Keeps :
      (i t : ℕ) (b : Books) → IsConsistent b → Keeps (approve_with_transaction actor i t now b)
  unfolding approve_with_transaction
  approve_with_transaction-Keeps i t b k = Ensures-bind _ _ λ (claim : PaymentClaim) e.
      Ensures-bind _ _ λ (u : Unit {0}) o. Ensures-bind _ _ λ (tx : Transaction) e'.
        approve-Keeps claim.id tx.id (delta_seconds tx.bank_timestamp claim.paid_clicked_at) _ b k

  -- a transition of an open claim that settles nothing
  close-Keeps :
      (i : ℕ) (to : ClaimStatus) (v : Bool) (note : Option String) (row : AuditRow) (b : Books)
      → ((n : ℕ) → n ≡ 0 → Backing to n)
      → IsConsistent b
      → Keeps (transition i to is_open now actor v note b >>= λ moved. done (log row moved))
  unfolding transition_values update_claim
  close-Keeps i to v note row b fine k = Ensures-bind _ _ λ moved e.
      let (same, one) = transition-done i to is_open now actor v note b moved e in
      Ensures-done _ (
        log-IsConsistent row moved (
          rw same (
            recast-IsConsistent (claim_in i is_open) (transition_values to now actor v note) b
              (λ c. refl)
              (λ c n hit h.
                fine n (open-Backing c.status n (and_true (c.id == i) (is_open c.status) hit).1 h))
              k)))

  pub verify_manually-Keeps :
      (i : ℕ) (note : String) (b : Books)
      → IsConsistent b
      → Keeps (verify_manually actor i note now b)
  unfolding verify_manually
  verify_manually-Keeps i note b k = Ensures-bind _ _ λ (u : Unit {0}) o.
      Ensures-bind _ _ λ (claim : PaymentClaim) e.
        close-Keeps claim.id ClaimStatus.manual_verified true (some (strip note)) _ b
          (λ n z. omega arith) k

  pub reject-Keeps :
      (i : ℕ) (note : String) (b : Books) → IsConsistent b → Keeps (reject actor i note now b)
  unfolding reject
  reject-Keeps i note b k = Ensures-bind _ _ λ (claim : PaymentClaim) e.
      close-Keeps claim.id ClaimStatus.rejected false (some_note note) _ b (λ n z. z) k

  pub mark_fake-Keeps :
      (i : ℕ) (note : String) (b : Books) → IsConsistent b → Keeps (mark_fake actor i note now b)
  unfolding mark_fake
  mark_fake-Keeps i note b k = Ensures-bind _ _ λ (claim : PaymentClaim) e.
      close-Keeps claim.id ClaimStatus.fake false (some_note note) _ b (λ n z. z) k

  set_claim-IsConsistent :
      (i : ℕ) (f : PaymentClaim → PaymentClaim) (row : AuditRow) (b : Books)
      → ((c : PaymentClaim) → (f c).id ≡ c.id)
      → ((c : PaymentClaim) → (f c).status ≡ c.status)
      → IsConsistent b
      → Keeps (done (log row (set_claim i f b)))
  unfolding set_claim
  set_claim-IsConsistent i f row b ids statuses k = Ensures-done _ (
      log-IsConsistent row _ (
        recast-IsConsistent (λ c. c.id == i) f b ids
          (λ c n _ h. subst (λ s. Backing s n) (sym (statuses c)) h) k))

  pub park-Keeps : (i : ℕ) (b : Books) → IsConsistent b → Keeps (park actor i now b)
  unfolding park
  park-Keeps i b k = Ensures-bind _ _ λ (claim : PaymentClaim) e.
      Ensures-bind _ _
        λ (u : Unit {0}) o. set_claim-IsConsistent claim.id _ _ b (λ c. refl) (λ c. refl) k

  pub unpark-Keeps : (i : ℕ) (b : Books) → IsConsistent b → Keeps (unpark actor i b)
  unfolding unpark
  unpark-Keeps i b k =
      Ensures-bind _ _
        λ (claim : PaymentClaim) e. set_claim-IsConsistent claim.id _ _ b (λ c. refl) (λ c. refl) k

  pub message-Keeps :
      (i : ℕ) (template : String) (clock : ℕ) (b : Books)
      → IsConsistent b
      → Keeps (message actor i template now clock b)
  unfolding message
  message-Keeps i template clock b k = Ensures-bind _ _ λ (body : String) e.
      Ensures-bind _ _ λ (u : Unit {0}) o. Ensures-bind _ _ λ (claim : PaymentClaim) e'.
        set_claim-IsConsistent claim.id _ _ _ (λ c. refl) (λ c. refl)
          (record {
            one_per_credit = k.one_per_credit;
            unique_ids = k.unique_ids;
            backed = k.backed;
          })
