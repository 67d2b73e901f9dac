-- ===== src/Mirror/Known.antt =====
-- What the mirror of services/claims.py adds to the books: one claim for a payment, open and
-- unsettled, under an id of its own.
use alo_bot_dashboard.Prelude.{
  ℕ, ◌+◌, ◌≤◌, ◌≡◌, refl, ap, ◌∙◌, inl, inr, Bool, true, false, String, Option, List, [], ◌∷◌,
  arith, ◌==◌, ==_iff, if◌then◌else◌, any_where, any_where-false, count_where, update_where, keep,
  All, All-update, count-update, Bool-cases, done, Ensures, Ensures-bind, Ensures-done,
}
use alo_bot_dashboard.Model.{ClaimStatus}
use alo_bot_dashboard.Books.{PaymentClaim, ReconciliationMatch}
use alo_bot_dashboard.Books.Invariant.{IsBacked, Backing, settled_by}
use alo_bot_dashboard.Mirror.{
  Payment, Card, lacks_account, with_account, is_pending, for_payment, is_read, Mirrored, Terms,
  new_claim, differs, follow, open_claim, mirror_row, mirror_rows, mirror_claims,
}

module _ (matches : List ReconciliationMatch) where
  -- the claims that the mirror works on, and the ids that it still may draw
  pub record AreKnown (claims : List PaymentClaim) (next : ℕ) : Type 0 where
    pub one_per_payment : (p : ℕ) → count_where (for_payment p) claims ≤ 1
    pub unique_ids : (i : ℕ) → count_where (λ c. c.id == i) claims ≤ 1
    pub backed : All (IsBacked matches) claims
    pub drawn : (i : ℕ) → next ≤ i → count_where (λ c. c.id == i) claims ≡ 0
    pub unsettled : (i : ℕ) → next ≤ i → settled_by i matches ≡ 0

  update-AreKnown :
      (p : PaymentClaim → Bool) (f : PaymentClaim → PaymentClaim) (claims : List PaymentClaim)
      (next : ℕ)
      → ((c : PaymentClaim) → (f c).id ≡ c.id)
      → ((c : PaymentClaim) → (f c).alobot_payment_id ≡ c.alobot_payment_id)
      → ((c : PaymentClaim) → (f c).status ≡ c.status)
      → AreKnown claims next
      → AreKnown (update_where p f claims) next
  update-AreKnown p f claims next ids payments statuses k = record {
    one_per_payment = λ q.
        rw (count-update (for_payment q) p f claims (λ c. ap (λ x. x == q) (payments c)))
          (k.one_per_payment q);
    unique_ids = λ i.
        rw (count-update (λ c. c.id == i) p f claims (λ c. ap (λ x. x == i) (ids c)))
          (k.unique_ids i);
    backed =
        All-update (IsBacked matches) (IsBacked matches) p f claims
          (λ c h. elim (Bool-cases (p c)) [
            | inl hit ↦ rw hit (rw (statuses c, ids c) h)
            | inr miss ↦ rw miss h
          ])
          k.backed;
    drawn = λ i late.
        count-update (λ c. c.id == i) p f claims (λ c. ap (λ x. x == i) (ids c)) ∙ k.drawn i late;
    unsettled = k.unsettled;
  }

  -- a new claim is open in either mode
  new-Backing :
      (on : Bool) (n : ℕ)
      → n ≡ 0
      → Backing (if on then ClaimStatus.fulfilled_unreconciled else ClaimStatus.pending) n
  new-Backing true n h = h
  new-Backing false n h = h

  new-AreKnown :
      (code : ℕ → String) (terms : Terms) (p : Payment) (rial next : ℕ) (claims : List PaymentClaim)
      → any_where (for_payment p.id) claims ≡ false
      → AreKnown claims next
      → AreKnown (new_claim code terms p rial next ∷ claims) (next + 1)
  unfolding new_claim count_where
  new-AreKnown code terms p rial next claims new k = record {
    one_per_payment = λ q.
        ground (
          arith,
          k.one_per_payment q,
          any_where-false (for_payment p.id) claims new,
          ==_iff p.id q,
        );
    unique_ids = λ i. ground (arith, k.unique_ids i, k.drawn i, ==_iff next i);
    backed = (
      new-Backing terms.continuity_on (settled_by next matches) (k.unsettled next (omega arith)),
      k.backed,
    );
    drawn = λ i late. ground (arith, k.drawn i (omega (arith, late)), late, ==_iff next i);
    unsettled = λ i late. k.unsettled i (omega (arith, late));
  }

  row-AreKnown :
      (code : ℕ → String) (terms : Terms) (p : Payment) (m : Mirrored)
      → AreKnown m.claims m.next_claim_id
      → Ensures (λ (m' : Mirrored). AreKnown m'.claims m'.next_claim_id) (mirror_row code terms p m)
  unfolding mirror_row open_claim follow
  row-AreKnown code terms p m k = elim (Bool-cases (any_where (for_payment p.id) m.claims)) [
    | inl known ↦ rw known (
        Ensures-done _ (
          update-AreKnown (differs p) (follow p) m.claims m.next_claim_id (λ c. refl) (λ c. refl)
            (λ c. refl) k))
    | inr new ↦ rw new (elim (Bool-cases (is_pending p.status)) [
      | inl pending ↦ rw pending (
          Ensures-bind _ _ λ (rial : ℕ) e.
            Ensures-done _ (new-AreKnown code terms p rial m.next_claim_id m.claims new k))
      | inr over ↦ rw over (Ensures-done _ k)
    ])
  ]

  rows-AreKnown :
      (code : ℕ → String) (terms : Terms) (ps : List Payment) (m : Mirrored)
      → AreKnown m.claims m.next_claim_id
      → Ensures
          (λ (m' : Mirrored). AreKnown m'.claims m'.next_claim_id)
          (mirror_rows code terms ps m)
  unfolding mirror_rows
  rows-AreKnown code terms [] m k = Ensures-done _ k
  rows-AreKnown code terms (p ∷ ps) m k =
      Ensures-bind _ _ λ (m' : Mirrored) e.
        rows-AreKnown code terms ps m' ((row-AreKnown code terms p m k).at m' e)

  ensured :
      (code : ℕ → String) (cards : List Card) (card_number : Option String) (on : Bool)
      (payments : List Payment) (next : ℕ) (claims : List PaymentClaim)
      → AreKnown claims next
      → Ensures
          (λ (r : Mirrored × ℕ). AreKnown r.0.claims r.0.next_claim_id)
          (mirror_claims code cards card_number on payments next claims)
  unfolding mirror_claims with_account
  ensured code cards card_number on payments next claims k = Ensures-bind _ _ λ (m : Mirrored) e.
      Ensures-done _ (
        (rows-AreKnown code _ (keep (is_read claims) payments) _ (
            update-AreKnown (lacks_account cards) (with_account cards) claims next (λ c. refl)
              (λ c. refl) (λ c. refl) k)).at
          m e)

  -- The mirror keeps the claims in order: one claim for each payment of the bot, each under an id of
  -- its own, and each backed by as many settling matches as its status says, so that the new ones,
  -- which are open, are settled by none.
  pub mirror-AreKnown :
      (code : ℕ → String) (cards : List Card) (card_number : Option String) (on : Bool)
      (payments : List Payment) (next n : ℕ) (claims : List PaymentClaim) (m : Mirrored)
      → AreKnown claims next
      → mirror_claims code cards card_number on payments next claims ≡ done (m, n)
      → AreKnown m.claims m.next_claim_id
  mirror-AreKnown code cards card_number on payments next n claims m k e =
      (ensured code cards card_number on payments next claims k).at (m, n) e
