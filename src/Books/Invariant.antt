-- ===== src/Books/Invariant.antt =====
-- The money rule of models/claims.py as an invariant, and how the writes of the services keep it.
use alo_bot_dashboard.Prelude.{
  ℕ, ◌+◌, ◌≤◌, ◌≡◌, ap, sym, subst, ◌∙◌, inl, inr, Bool, true, false, Option, some, List, arith,
  ◌==◌, ==_iff, if◌then◌else◌, String, All, All-mono, All-update, All-both, All-of_count,
  Bool-cases, any_where, any_where-false, count_where, count-update, update_where,
}
use alo_bot_dashboard.Model.{ClaimStatus, MatchStatus, is_settling, is_open}
use alo_bot_dashboard.Books.{
  PaymentClaim, ReconciliationMatch, Books, settles_transaction, settles_claim, add_match,
  insert_settling, update_claim, claim_in,
}

abbrev pub settled_by : ℕ → List ReconciliationMatch → ℕ
settled_by c matches = count_where (settles_claim c) matches

-- how many settling rows a claim of each status has
abbrev pub Backing : ClaimStatus → ℕ → Type 0
Backing ClaimStatus.auto_verified n = n ≡ 1
Backing ClaimStatus.manual_verified n = n ≤ 1
Backing _ n = n ≡ 0

abbrev pub IsBacked : List ReconciliationMatch → PaymentClaim → Type 0
IsBacked matches c = Backing c.status (settled_by c.id matches)

-- A credit settles at most one claim, claim ids are unique, and a claim is backed by as many
-- settling matches as its status says: none while it is open or refused, one if it was verified
-- by the matcher, at most one if an operator verified it.
pub record IsConsistent (b : Books) : Type 0 where
  pub one_per_credit : (t : ℕ) → count_where (settles_transaction t) b.matches ≤ 1
  pub unique_ids : (i : ℕ) → count_where (λ c. c.id == i) b.claims ≤ 1
  pub backed : All (IsBacked b.matches) b.claims

-- an update of claims that keeps ids, and keeps each updated claim backed
pub recast-IsConsistent :
    (p : PaymentClaim → Bool) (f : PaymentClaim → PaymentClaim) (b : Books)
    → ((c : PaymentClaim) → (f c).id ≡ c.id)
    → ((c : PaymentClaim) (n : ℕ) → p c ≡ true → Backing c.status n → Backing (f c).status n)
    → IsConsistent b
    → IsConsistent (record b { claims = update_where p f b.claims })
recast-IsConsistent p f b same keep k = record {
  one_per_credit = k.one_per_credit;
  unique_ids = λ i.
      rw (count-update (λ c. c.id == i) p f b.claims (λ c. ap (λ j. j == i) (same c)))
        (k.unique_ids i);
  backed =
      All-update (IsBacked b.matches) (IsBacked b.matches) p f b.claims
        (λ c h. elim (Bool-cases (p c)) [
          | inl hit ↦ rw hit (
              subst (λ j. Backing (f c).status (settled_by j b.matches)) (sym (same c))
                (keep c _ hit h))
          | inr miss ↦ rw miss h
        ])
        k.backed;
}

-- a match row that does not settle changes no count
pub add_match-IsConsistent :
    (i t : ℕ) (status : MatchStatus) (reason : String) (delta : Option ℕ) (who : Option String)
    (at : Option ℕ) (b : Books)
    → is_settling status ≡ false
    → IsConsistent b
    → IsConsistent (add_match i t status reason delta who at b)
unfolding add_match count_where
add_match-IsConsistent i t status reason delta who at b idle k = record {
  one_per_credit = λ t'. ground (arith, k.one_per_credit t');
  unique_ids = k.unique_ids;
  backed =
      All-mono (IsBacked b.matches) _ b.claims
        (λ c h. subst (λ n. Backing c.status n) (ground arith) h) k.backed;
}

-- what the flush of a settling row has checked, and what it did
pub insert_settling-some :
    (i t : ℕ) (status : MatchStatus) (reason : String) (delta : Option ℕ) (who : Option String)
    (at : Option ℕ) (b b1 : Books)
    → insert_settling i t status reason delta who at b ≡ some b1
    → (b1 ≡ add_match i t status reason delta who at b)
      × (count_where (settles_transaction t) b.matches ≡ 0)
      × (settled_by i b.matches ≡ 0)
unfolding insert_settling
insert_settling-some i t status reason delta who at b b1 h =
    elim (Bool-cases (any_where (settles_transaction t) b.matches)) [
      | inl taken ↦ absurd (cc (rw taken at h))
      | inr free ↦ elim (Bool-cases (any_where (settles_claim i) b.matches)) [
        | inl taken ↦ absurd (cc (rw (free, taken) at h))
        | inr unsettled ↦ (
          cc (rw (free, unsettled) at h),
          any_where-false (settles_transaction t) b.matches free,
          any_where-false (settles_claim i) b.matches unsettled,
        )
      ]
    ]

module _ (i t : ℕ) (status : MatchStatus) (reason : String) (delta : Option ℕ) (who : Option String)
    (at : Option ℕ) (f : PaymentClaim → PaymentClaim) (b : Books)
    (same : (c : PaymentClaim) → (f c).id ≡ c.id)
    (backing : (c : PaymentClaim) → Backing (f c).status 1)
    (settling : is_settling status ≡ true) where
  abbrev after : Books
  after = add_match i t status reason delta who at b

  settled_by-after :
      (j : ℕ) → settled_by j after.matches ≡ (if i == j then 1 else 0) + settled_by j b.matches
  unfolding add_match count_where
  settled_by-after j = ground arith

  IsBacked-after :
      (c : PaymentClaim)
      → settled_by i b.matches ≡ 0
      → IsBacked b.matches c × ((c.id == i) ≡ true → is_open c.status ≡ true)
      → IsBacked after.matches (if claim_in i is_open c then f c else c)
  IsBacked-after c none_yet (h, opened) = elim (Bool-cases (c.id == i)) [
    | inl mine ↦
        let one : settled_by (f c).id after.matches ≡ 1 =
          rw (same c) (settled_by-after c.id ∙ ground (arith, (==_iff c.id i).0 mine)) in
        rw (mine, opened mine) (subst (Backing (f c).status) (sym one) (backing c))
    | inr other ↦
        let zero_more : settled_by c.id after.matches ≡ settled_by c.id b.matches =
          settled_by-after c.id ∙ ground arith in
        rw other (subst (Backing c.status) (sym zero_more) h)
  ]

  settled-IsConsistent :
      count_where (settles_transaction t) b.matches ≡ 0
      → settled_by i b.matches ≡ 0
      → count_where (claim_in i is_open) b.claims ≡ 1
      → IsConsistent b
      → IsConsistent (update_claim i is_open f after).0
  unfolding update_claim add_match count_where
  settled-IsConsistent free none_yet one k = record {
    one_per_credit = λ t'. ground (arith, k.one_per_credit t');
    unique_ids = λ j.
        rw
          (count-update (λ c. c.id == j) (claim_in i is_open) f b.claims
            (λ c. ap (λ x. x == j) (same c)))
          (k.unique_ids j);
    backed =
        All-update (λ c. IsBacked b.matches c × ((c.id == i) ≡ true → is_open c.status ≡ true))
          (IsBacked after.matches) (claim_in i is_open) f b.claims (λ c. IsBacked-after c none_yet)
          (All-both (IsBacked b.matches) _ b.claims k.backed (
            All-of_count (λ c. c.id == i) (λ c. is_open c.status) b.claims
              (omega (arith, k.unique_ids i))));
  }

  -- The write that settles, a settling match for an open claim and the claim's transition, keeps
  -- the books consistent.
  pub settle-IsConsistent :
      (b1 : Books)
      → insert_settling i t status reason delta who at b ≡ some b1
      → (update_claim i is_open f b1).1 ≡ 1
      → IsConsistent b
      → IsConsistent (update_claim i is_open f b1).0
  unfolding update_claim add_match
  settle-IsConsistent b1 inserted one k =
      let (e, free, none_yet) = insert_settling-some i t status reason delta who at b b1 inserted in
      rw e (settled-IsConsistent free none_yet (rw e at one) k)
