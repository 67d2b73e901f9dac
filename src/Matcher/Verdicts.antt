-- ===== src/Matcher/Verdicts.antt =====
-- The product rule of services/matcher.py: AUTO_VERIFY exactly an isolated pair.
use alo_bot_dashboard.Prelude.{
  ℕ, ◌≤◌, ◌≡◌, ◌≢◌, refl, sym, ap, subst, ◌∙◌, ◌↔◌, inl, inr, true, Option, none, some, List, [],
  ◌∷◌, arith, ◌==◌, ==_iff, keep, All-keep, All-trivial, sort_by, sort_by-nil, sort_by-one, Dict,
  ListDict, lookup, insert, lookup-insert, count_where, find_where, find_where_holds,
  All-find_where, find-none_of_count, find-sort_by, count-sort_by, Option-cases,
}
use alo_bot_dashboard.Matcher.{
  Claim, Credit, Verdict, Decision, Edges, no_edges, eligible, takes_part, scan_claims,
  auto_decision, judge, rivals, choose, decide, decide_all, live, evaluate,
}
use alo_bot_dashboard.Matcher.Eligible.{Fits, eligible_iff}
use alo_bot_dashboard.Matcher.Scan.{edges_unique}
use alo_bot_dashboard.Matcher.Rivals.{NoRival, NoRivals, NoRivals-iff}

-- No two claims have one id.
abbrev pub HasUniqueIds : List Claim → Type 0
HasUniqueIds claims = (i : ℕ) → count_where (λ c. c.id == i) (live claims) ≤ 1

-- the open claim with an id
abbrev pub open_claim : List Claim → ℕ → Option Claim
open_claim claims i = find_where (λ c. c.id == i) (live claims)

-- One credit fits the claim, and no other open claim on an ACTIVE account fits that credit.
pub record IsIsolated (claims : List Claim) (credits : List Credit) (c : Claim) (k : Credit)
    : Type 0 where
  pub part : takes_part c ≡ true
  pub only : keep (eligible c) credits ≡ k ∷ []
  pub unrivalled : NoRivals c.id k.id (live claims) credits

IsIsolated-Fits :
    (claims : List Claim) (credits : List Credit) (c : Claim) (k : Credit)
    → IsIsolated claims credits c k
    → Fits c k
IsIsolated-Fits claims credits c k s =
    let fit = rw s.only at (All-keep (λ x. Unit {0}) (eligible c) credits (All-trivial credits)) in
    (eligible_iff c k).0 fit.0.1

lookup-decide_all :
    (e : Edges) (now : ℕ) (claims : List Claim) (out : Dict Decision) (i : ℕ)
    → count_where (λ c. c.id == i) claims ≤ 1
    → lookup i (decide_all e now claims out) ≡ elim (find_where (λ c. c.id == i) claims) [
      | none ↦ lookup i out
      | some c ↦ some (decide e now c)
    ]
unfolding decide_all count_where find_where
lookup-decide_all e now [] out i u = refl
lookup-decide_all e now (c ∷ claims) out i u = ground (
  arith,
  lookup-decide_all e now claims (insert c.id (decide e now c) out) i,
  find-none_of_count (λ x. x.id == i) claims,
  lookup-insert c.id i (decide e now c) out,
)

-- the verdict on the open claim with id `i`
lookup-evaluate :
    (claims : List Claim) (credits : List Credit) (now i : ℕ)
    → HasUniqueIds claims
    → lookup i (evaluate claims credits now) ≡ elim (open_claim claims i) [
      | none ↦ none
      | some c ↦ some (decide (scan_claims (live claims) credits no_edges) now c)
    ]
unfolding evaluate lookup
lookup-evaluate claims credits now i u = ground (
  arith,
  lookup-decide_all (scan_claims (live claims) credits no_edges) now
      (sort_by (λ c. c.id) (live claims)) [] i,
  u i,
  count-sort_by (λ c. c.id) (λ c. c.id == i) (live claims),
  find-sort_by (λ c. c.id) i (live claims),
)

-- why `choose` came out AUTO_VERIFY
judge-auto :
    (c : Claim) (k : Credit) (rs : List ℕ)
    → (judge c k rs).decision ≡ Verdict.auto_verify
    → (judge c k rs ≡ auto_decision c k) × (rs ≡ [])
unfolding judge
judge-auto c k [] h = (refl, refl)
judge-auto c k (r ∷ rs) h = absurd (ground arith)

choose-auto :
    (d : ListDict ℕ) (now : ℕ) (c : Claim) (ks : List Credit)
    → (choose d now c ks).decision ≡ Verdict.auto_verify
    → (k : Credit) × (choose d now c ks ≡ auto_decision c k) × (ks ≡ k ∷ []) × (rivals d c k ≡ [])
unfolding choose
choose-auto d now c [] h = absurd (ground arith)
choose-auto d now c (k ∷ []) h =
    let (same, none_left) = judge-auto c k (sort_by (λ cid. cid) (rivals d c k)) h in
    (k, same, refl, sort_by-nil (λ cid. cid) (rivals d c k) none_left)
choose-auto d now c (k ∷ k' ∷ ks) h = absurd (ground arith)

-- what makes `decide` verify without a person
record IsPair (e : Edges) (c : Claim) (k : Credit) : Type 0 where
  part : takes_part c ≡ true
  one : e.edges c.id ≡ k ∷ []
  alone : rivals e.claims_per_credit c k ≡ []

choose-decide :
    (e : Edges) (now : ℕ) (c : Claim)
    → takes_part c ≡ true
    → decide e now c ≡ choose e.claims_per_credit now c (sort_by (λ k. k.id) (e.edges c.id))
unfolding decide takes_part
choose-decide e now c h = ground arith

decide-part :
    (e : Edges) (now : ℕ) (c : Claim)
    → (decide e now c).decision ≡ Verdict.auto_verify
    → takes_part c ≡ true
unfolding decide takes_part
decide-part e now c h = ground arith

decide-auto :
    (e : Edges) (now : ℕ) (c : Claim)
    → (decide e now c).decision ≡ Verdict.auto_verify
    → (k : Credit) × (decide e now c ≡ auto_decision c k) × IsPair e c k
decide-auto e now c h =
    let part = decide-part e now c h in
    let same = choose-decide e now c part in
    let (k, auto, one, alone) =
      choose-auto e.claims_per_credit now c (sort_by (λ x. x.id) (e.edges c.id)) (rw same at h) in
    (
      k,
      same ∙ auto,
      record { part = part; one = sort_by-one (λ x. x.id) (e.edges c.id) k one; alone = alone },
    )

decide_of_pair :
    (e : Edges) (now : ℕ) (c : Claim) (k : Credit)
    → IsPair e c k
    → decide e now c ≡ auto_decision c k
unfolding choose judge
decide_of_pair e now c k p = rw (choose-decide e now c p.part, p.one) (rw p.alone)

module _ (claims : List Claim) (credits : List Credit) (now : ℕ) (u : HasUniqueIds claims) where
  abbrev graph : Edges
  graph = scan_claims (live claims) credits no_edges

  IsIsolated-iff_IsPair :
      (c : Claim) (k : Credit)
      → open_claim claims c.id ≡ some c
      → IsPair graph c k ↔ IsIsolated claims credits c k
  IsIsolated-iff_IsPair c k f = (
    (λ p. record {
      part = p.part;
      only = sym (edges_unique (live claims) credits c (u c.id) f p.part) ∙ p.one;
      unrivalled = (NoRivals-iff c.id k.id (live claims) credits).0 p.alone;
    }),
    (λ s. record {
      part = s.part;
      one = edges_unique (live claims) credits c (u c.id) f s.part ∙ s.only;
      alone = (NoRivals-iff c.id k.id (live claims) credits).1 s.unrivalled;
    }),
  )

  -- A claim that the matcher verifies by itself is open and isolated with one credit, and the
  -- decision names that credit, which is unspent, on the account and of the amount that the claim
  -- names, and within the window.
  pub auto_verify_sound :
      (i : ℕ) (d : Decision)
      → lookup i (evaluate claims credits now) ≡ some d
      → d.decision ≡ Verdict.auto_verify
      → (c : Claim) × (k : Credit) × (open_claim claims i ≡ some c)
        × (d ≡ auto_decision c k)
        × IsIsolated claims credits c k
        × Fits c k
  auto_verify_sound i d h a = elim (Option-cases (open_claim claims i)) [
    | inl none_open ↦ absurd (ground (arith, lookup-evaluate claims credits now i u))
    | inr (c, found) ↦
        let id_eq : c.id ≡ i =
          (==_iff c.id i).0 (find_where_holds (λ x. x.id == i) (live claims) c found) in
        let d_eq : decide graph now c ≡ d =
          ground (arith, lookup-evaluate claims credits now i u) in
        let (k, auto, pair) = decide-auto graph now c (rw d_eq a) in
        let alone =
          (IsIsolated-iff_IsPair c k
              (subst (λ j. open_claim claims j ≡ some c) (sym id_eq) found)).0
            pair in
        (c, k, found, sym d_eq ∙ auto, alone, IsIsolated-Fits claims credits c k alone)
  ]

  -- Every open claim that is isolated with a credit is verified against that credit.
  pub auto_verify_complete :
      (c : Claim) (k : Credit)
      → open_claim claims c.id ≡ some c
      → IsIsolated claims credits c k
      → lookup c.id (evaluate claims credits now) ≡ some (auto_decision c k)
  auto_verify_complete c k f s = ground (
    arith,
    lookup-evaluate claims credits now c.id u,
    decide_of_pair graph now c k ((IsIsolated-iff_IsPair c k f).1 s),
  )

  same_credit :
      (i j : ℕ) (d d' : Decision)
      → lookup i (evaluate claims credits now) ≡ some d
      → lookup j (evaluate claims credits now) ≡ some d'
      → d.decision ≡ Verdict.auto_verify
      → d'.decision ≡ Verdict.auto_verify
      → d.transaction_id ≡ d'.transaction_id
      → i ≡ j
  same_credit i j d d' h h' a a' same =
      let (c, k, found, e, s, fits) = auto_verify_sound i d h a in
      let (c', k', found', e', s', fits') = auto_verify_sound j d' h' a' in
      let rival =
        All-find_where (λ x. takes_part x ≡ true → NoRival c.id k.id x credits) (λ x. x.id == j)
          (live claims) c' s.unrivalled found' s'.part in
      let fit = rw s'.only at (
        All-keep (λ x. eligible c' x ≡ true → x.id ≡ k.id → c'.id ≡ c.id) (eligible c') credits
          rival) in
      let one : k'.id ≡ k.id = ground (
        arith,
        ap (λ (x : Decision). x.transaction_id) e,
        ap (λ (x : Decision). x.transaction_id) e',
      ) in
      let ids : c'.id ≡ c.id = fit.0.0 fit.0.1 one in
      sym ((==_iff c.id i).0 (find_where_holds (λ x. x.id == i) (live claims) c found))
      ∙ sym ids
      ∙ (==_iff c'.id j).0 (find_where_holds (λ x. x.id == j) (live claims) c' found')

  -- One run of the matcher never verifies two claims against one credit.
  pub auto_verify-exclusive :
      (i j : ℕ) (d d' : Decision)
      → i ≢ j
      → lookup i (evaluate claims credits now) ≡ some d
      → lookup j (evaluate claims credits now) ≡ some d'
      → d.decision ≡ Verdict.auto_verify
      → d'.decision ≡ Verdict.auto_verify
      → d.transaction_id ≢ d'.transaction_id
  auto_verify-exclusive i j d d' apart h h' a a' same = apart (same_credit i j d d' h h' a a' same)

  -- Every open claim gets a decision, and no other id gets one.
  pub evaluate_total :
      (i : ℕ) → (lookup i (evaluate claims credits now) ≡ none) ↔ (open_claim claims i ≡ none)
  evaluate_total i = elim (Option-cases (open_claim claims i)) [
    | inl closed ↦ ((λ _. closed), (λ _. ground (arith, lookup-evaluate claims credits now i u)))
    | inr (c, found) ↦ (
      (λ h. absurd (ground (arith, lookup-evaluate claims credits now i u))),
      (λ h. absurd (ground arith)),
    )
  ]
