-- ===== src/Review/Reopening.antt =====
-- `reopen` of services/review.py: the claim is open again, and the credit that settled it is free.
use alo_bot_dashboard.Prelude.{
  ℕ, ◌≤◌, ◌≡◌, refl, ap, sym, subst, ◌∙◌, inl, inr, true, false, not, ◌&&◌, none, arith, ◌==◌,
  ==_iff, All-update, All-both, All-of_count, Bool-cases, count_where, count-update,
  count-update_at, count-update_drop, count_mono, count_zero, and_true, Ensures-bind, Ensures-done,
}
use alo_bot_dashboard.Model.{ClaimStatus, is_settling}
use alo_bot_dashboard.Audit.{Actor}
use alo_bot_dashboard.Books.{
  PaymentClaim, Books, settles_transaction, settles_claim, update_claim, claim_in,
}
use alo_bot_dashboard.Books.Invariant.{IsConsistent, IsBacked, Backing, settled_by}
use alo_bot_dashboard.Review.{transition_values, is_decided, free_matches, reopen}
use alo_bot_dashboard.Review.Actions.{Keeps, log-IsConsistent, transition-done}

module _ (actor : Actor) (now i : ℕ) (b : Books) where
  abbrev freed : Books
  freed = free_matches actor now i b

  -- no settling match of the claim is left
  settled_by-freed_self : settled_by i freed.matches ≡ 0
  unfolding free_matches is_settling
  settled_by-freed_self =
      count-update_drop (settles_claim i) (settles_claim i) _ b.matches (λ m. ground arith)
      ∙ count_zero _ b.matches λ m. ground arith

  -- and no other claim's is touched
  settled_by-freed_other :
      (j : ℕ) → (i == j) ≡ false → settled_by j freed.matches ≡ settled_by j b.matches
  unfolding free_matches is_settling
  settled_by-freed_other j other =
      count-update_at (settles_claim j) (settles_claim i) _ b.matches
        λ m hit. ground (arith, ==_iff i j)

  pub count-freed :
      (t : ℕ)
      → count_where (settles_transaction t) freed.matches
        ≡ count_where (λ m. settles_transaction t m && not (settles_claim i m)) b.matches
  unfolding free_matches is_settling
  count-freed t =
      count-update_drop (settles_transaction t) (settles_claim i) _ b.matches (λ m. ground arith)

  credits-freed :
      (t : ℕ)
      → count_where (settles_transaction t) freed.matches
        ≤ count_where (settles_transaction t) b.matches
  credits-freed t =
      subst (λ n. n ≤ count_where (settles_transaction t) b.matches) (sym (count-freed t))
        (count_mono _ (settles_transaction t) b.matches
          λ m hit. (and_true (settles_transaction t m) (not (settles_claim i m)) hit).0)

  -- a claim other than `i` keeps its backing, and `i` itself is left with no settling match
  freed-IsConsistent :
      (f : PaymentClaim → PaymentClaim)
      → ((c : PaymentClaim) → (f c).id ≡ c.id)
      → ((c : PaymentClaim) → (f c).status ≡ ClaimStatus.pending)
      → count_where (claim_in i is_decided) b.claims ≡ 1
      → IsConsistent b
      → IsConsistent (update_claim i is_decided f freed).0
  unfolding update_claim free_matches
  freed-IsConsistent f ids statuses one k = record {
    one_per_credit = λ t. omega (arith, credits-freed t, k.one_per_credit t);
    unique_ids = λ j.
        rw
          (count-update (λ c. c.id == j) (claim_in i is_decided) f b.claims
            (λ c. ap (λ x. x == j) (ids c)))
          (k.unique_ids j);
    backed =
        All-update (λ c. IsBacked b.matches c × ((c.id == i) ≡ true → is_decided c.status ≡ true))
          (IsBacked freed.matches) (claim_in i is_decided) f b.claims
          (λ c h. elim (Bool-cases (c.id == i)) [
            | inl mine ↦
                rw (mine, h.1 mine)
                  (subst (λ s. Backing s (settled_by (f c).id freed.matches)) (sym (statuses c))
                    (ap (λ j. settled_by j freed.matches) (ids c ∙ (==_iff c.id i).0 mine)
                      ∙ settled_by-freed_self))
            | inr other ↦ rw other (
                subst (Backing c.status)
                  (sym (
                    settled_by-freed_other c.id
                      (ground (arith, other, ==_iff c.id i, ==_iff i c.id))))
                  h.0)
          ])
          (All-both (IsBacked b.matches) _ b.claims k.backed (
            All-of_count (λ c. c.id == i) (λ c. is_decided c.status) b.claims
              (omega (arith, k.unique_ids i))));
  }

module _ (actor : Actor) (now : ℕ) where
  -- A reopened claim leaves the books consistent.
  pub reopen-Keeps : (i : ℕ) (b : Books) → IsConsistent b → Keeps (reopen actor i now b)
  unfolding reopen transition_values update_claim free_matches
  reopen-Keeps i b k = Ensures-bind _ _ λ (claim : PaymentClaim) e.
      Ensures-bind _ _ λ (u : Unit {0}) o. Ensures-bind _ _ λ moved e'.
        let (same, one) =
          transition-done claim.id ClaimStatus.pending is_decided now actor false none
            (free_matches actor now claim.id b) moved e' in
        Ensures-done _ (
          log-IsConsistent _ moved
            (rw same (freed-IsConsistent actor now claim.id b _ (λ c. refl) (λ c. refl) one k)))
