-- ===== src/Review/Approval.antt =====
-- `approve_with_transaction` of services/review.py against a description of when it refuses.
use alo_bot_dashboard.Prelude.{
  problem, ℕ, ◌≡◌, refl, sym, ◌∙◌, inl, inr, Bool, true, false, not, ◌&&◌, Option, none, some,
  arith, ◌==◌, ==_iff, if◌then◌else◌, All-find_where, Bool-cases, Option-cases, any_where,
  any-false_of_count, any-true_of_count, any_where-find, count_where, count_of_unique,
  find_where_holds, ◌>>=◌,
}
use alo_bot_dashboard.Model.{is_open, is_credit}
use alo_bot_dashboard.Audit.{Actor}
use alo_bot_dashboard.Books.{
  PaymentClaim, Transaction, Books, settles_transaction, settles_claim, insert_settling,
  update_claim, claim_in, add_match, get_claim, get_transaction,
}
use alo_bot_dashboard.Books.Invariant.{IsConsistent, settled_by}
use alo_bot_dashboard.Review.{
  ReviewError, no_such_claim, already_decided, no_such_credit, transaction_taken, lock, incoming,
  transition, approve_with_transaction,
}
use alo_bot_dashboard.Review.Actions.{open-Backing}

unfoldable pub is_incoming : Option Transaction → Bool
is_incoming none = false
is_incoming (some tx) = is_credit tx.direction

-- the first thing that stands against the approval of a claim with a transaction
unfoldable pub first_problem : ℕ → ℕ → Books → Option ReviewError
unfolding is_incoming
first_problem i t b =
    if not (any_where (λ c. c.id == i) b.claims)
    then some no_such_claim
    else if not (any_where (λ c. c.id == i && is_open c.status) b.claims)
    then some already_decided
    else if not (is_incoming (get_transaction t b))
    then some no_such_credit
    else if any_where (settles_transaction t) b.matches
    then some transaction_taken
    else none

module _ (actor : Actor) (i t now : ℕ) (b : Books) (k : IsConsistent b) where
  -- past the guards on the claim and the transaction, only a spent credit is refused
  settling_problem :
      (claim : PaymentClaim) (tx : Transaction)
      → get_claim i b ≡ some claim
      → is_open claim.status ≡ true
      → get_transaction t b ≡ some tx
      → is_credit tx.direction ≡ true
      → problem (approve_with_transaction actor i t now b)
        ≡ (if any_where (settles_transaction t) b.matches then some transaction_taken else none)
  unfolding problem approve_with_transaction ◌>>=◌ lock incoming insert_settling transition
      update_claim add_match
  settling_problem claim tx found opened there credit =
      let mine = (==_iff claim.id i).0 (find_where_holds (λ c. c.id == i) b.claims claim found) in
      let same_tx =
        (==_iff tx.id t).0 (find_where_holds (λ x. x.id == t) b.transactions tx there) in
      let unsettled : any_where (settles_claim i) b.matches ≡ false =
        any-false_of_count (settles_claim i) b.matches (
          rw mine at (
            open-Backing claim.status (settled_by claim.id b.matches) opened
              (All-find_where _ (λ c. c.id == i) b.claims claim k.backed found))) in
      let moves : count_where (claim_in i is_open) b.claims ≡ 1 =
        count_of_unique (λ c. c.id == i) (λ c. is_open c.status) b.claims claim (k.unique_ids i)
          found
        ∙ ground (arith, opened) in
      rw found (
        rw (opened, there, mine)
          (rw credit (
            rw (same_tx, unsettled)
              (elim (Bool-cases (any_where (settles_transaction t) b.matches)) [
                | inl taken ↦ rw taken refl
                | inr free ↦ rw free (rw moves refl)
              ]))))

  is_open-found :
      (claim : PaymentClaim)
      → get_claim i b ≡ some claim
      → any_where (λ c. c.id == i && is_open c.status) b.claims ≡ is_open claim.status
  is_open-found claim found =
      let n =
        count_of_unique (λ c. c.id == i) (λ c. is_open c.status) b.claims claim (k.unique_ids i)
          found in
      elim (Bool-cases (is_open claim.status)) [
        | inl opened ↦ any-true_of_count _ b.claims (ground (arith, n, opened)) ∙ sym opened
        | inr closed ↦ any-false_of_count _ b.claims (ground (arith, n, closed)) ∙ sym closed
      ]

  -- In consistent books an approval refuses exactly where something stands against it, with the
  -- first of these reasons, and else commits: there is no such claim, the claim is no longer open,
  -- the transaction is not an incoming one, or it already settles a claim.
  pub approve-outcome : problem (approve_with_transaction actor i t now b) ≡ first_problem i t b
  unfolding problem first_problem is_incoming approve_with_transaction ◌>>=◌ lock incoming
  approve-outcome = elim (Option-cases (get_claim i b)) [
    | inl gone ↦ rw (any_where-find (λ c. c.id == i) b.claims) (rw gone refl)
    | inr (claim, found) ↦ elim (Bool-cases (is_open claim.status)) [
      | inr closed ↦
          rw (any_where-find (λ c. c.id == i) b.claims, is_open-found claim found)
            (rw (found, closed) refl)
      | inl opened ↦ elim (Option-cases (get_transaction t b)) [
        | inl missing ↦
            rw (any_where-find (λ c. c.id == i) b.claims, is_open-found claim found)
              (rw (found, opened) (rw missing refl))
        | inr (tx, there) ↦ elim (Bool-cases (is_credit tx.direction)) [
          | inr outgoing ↦
              rw (any_where-find (λ c. c.id == i) b.claims, is_open-found claim found)
                (rw (found, opened) (rw there (rw outgoing refl)))
          | inl credit ↦
              settling_problem claim tx found opened there credit
              ∙ rw (any_where-find (λ c. c.id == i) b.claims, is_open-found claim found)
                  (rw (found, opened, there) (rw credit refl))
        ]
      ]
    ]
  ]
