-- ===== src/Review/Freed.antt =====
-- `reopen` and `approve_with_transaction` of services/review.py together: a reopened claim can be
-- settled again with the credit that it had.
use alo_bot_dashboard.Prelude.{
  ℕ, ◌≡◌, refl, ap, ◌∙◌, true, false, not, ◌&&◌, none, arith, ◌==◌, ==_iff, find_where_holds,
  any_where, any-true_of_count, any-false_of_count, any_where-true, count_where, count_mono,
  count_split, count-update_made, and_true, done, Ensures, Ensures-bind, Ensures-done,
  or_refuse-done, problem,
}
use alo_bot_dashboard.Model.{ClaimStatus, is_open}
use alo_bot_dashboard.Audit.{Actor}
use alo_bot_dashboard.Books.{
  PaymentClaim, Books, settles_transaction, settles_claim, update_claim, claim_in, get_transaction,
}
use alo_bot_dashboard.Books.Invariant.{IsConsistent}
use alo_bot_dashboard.Review.{
  lock, log, transition_values, is_decided, free_matches, reopen, approve_with_transaction,
}
use alo_bot_dashboard.Review.Actions.{transition-done}
use alo_bot_dashboard.Review.Reopening.{reopen-Keeps, count-freed}
use alo_bot_dashboard.Review.Approval.{first_problem, is_incoming, approve-outcome}

-- what reopening claim `i` made of the books
record IsFreed (i : ℕ) (b b' : Books) : Type 0 where
  pub opened : any_where (λ c. c.id == i && is_open c.status) b'.claims ≡ true
  pub same_transactions : b'.transactions ≡ b.transactions
  pub others :
      (t : ℕ)
      → count_where (settles_transaction t) b'.matches
        ≡ count_where (λ m. settles_transaction t m && not (settles_claim i m)) b.matches

module _ (actor : Actor) (now i : ℕ) (b : Books) where
  reopen-IsFreed : Ensures (IsFreed i b) (reopen actor i now b)
  unfolding reopen lock transition_values update_claim free_matches log is_open
  reopen-IsFreed = Ensures-bind _ _ λ (claim : PaymentClaim) e. Ensures-bind _ _ λ (u : Unit {0}) o.
      Ensures-bind _ _ λ moved e'.
        let mine =
          (==_iff claim.id i).0
            (find_where_holds (λ c. c.id == i) b.claims claim (or_refuse-done _ _ _ e)) in
        let (same, one) =
          transition-done claim.id ClaimStatus.pending is_decided now actor false none
            (free_matches actor now claim.id b) moved e' in
        Ensures-done _ record {
          opened =
              any-true_of_count (λ c. c.id == i && is_open c.status) moved.claims
                (rw same (
                  omega (
                    arith,
                    one,
                    count-update_made (λ c. c.id == i && is_open c.status)
                        (claim_in claim.id is_decided)
                        (transition_values ClaimStatus.pending now actor false none) b.claims
                        (λ c hit. ground (arith, mine, hit)),
                  )));
          same_transactions = ap (λ (x : Books). x.transactions) same;
          others = λ t. rw (same, mine) (count-freed actor now i b t);
        }

-- In consistent books, once a claim that a credit settles has been reopened, the claim can be
-- approved with that credit again, which is free.
pub reopen_then_approve :
    (actor again : Actor) (now later i t : ℕ) (b b' : Books)
    → IsConsistent b
    → any_where (λ m. settles_transaction t m && settles_claim i m) b.matches ≡ true
    → is_incoming (get_transaction t b) ≡ true
    → reopen actor i now b ≡ done b'
    → problem (approve_with_transaction again i t later b') ≡ none
unfolding first_problem
reopen_then_approve actor again now later i t b b' k settled credit e =
    let f = (reopen-IsFreed actor now i b).at b' e in
    let free : any_where (settles_transaction t) b'.matches ≡ false =
      any-false_of_count (settles_transaction t) b'.matches (
        omega (
          arith,
          f.others t,
          k.one_per_credit t,
          any_where-true _ b.matches settled,
          count_split (settles_transaction t) (settles_claim i) b.matches,
        )) in
    let there : any_where (λ c. c.id == i) b'.claims ≡ true =
      any-true_of_count (λ c. c.id == i) b'.claims
        (omega (
          arith,
          any_where-true _ b'.claims f.opened,
          count_mono (λ c. c.id == i && is_open c.status) (λ c. c.id == i) b'.claims
              (λ c hit. (and_true (c.id == i) (is_open c.status) hit).0),
        )) in
    approve-outcome again i t later b' ((reopen-Keeps actor now i b k).at b' e)
    ∙ rw (there, f.opened, f.same_transactions) (rw (credit, free) refl)
