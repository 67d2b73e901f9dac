-- ===== src/Matcher/Scan.antt =====
-- What `edges` holds after the scan.
use alo_bot_dashboard.Prelude.{
  ℕ, ◌≤◌, ◌≡◌, refl, true, ◌&&◌, List, [], ◌∷◌, ◌++◌, arith, ◌==◌, some, if◌then◌else◌, keep,
  append_at, count_where, find_where,
}
use mathlib.Core.List.{append-nil, append_assoc}
use alo_bot_dashboard.Matcher.{
  Claim, Credit, Edges, no_edges, eligible, join, takes_part, scan_credits, scan_claims,
}

edges-scan_credits :
    (claim : Claim) (credits : List Credit) (e : Edges) (j : ℕ)
    → (scan_credits claim credits e).edges j
      ≡ (if claim.id == j then e.edges j ++ keep (eligible claim) credits else e.edges j)
unfolding scan_credits join append_at
edges-scan_credits claim [] e j = ground (arith, append-nil (e.edges j))
edges-scan_credits claim (k ∷ ks) e j = ground (
  arith,
  edges-scan_credits claim ks (join claim k e) j,
  append_assoc (e.edges j) (k ∷ []) (keep (eligible claim) ks),
)

-- the candidates of the claims with id `j` that take part
gathered : List Claim → List Credit → ℕ → List Credit
gathered [] credits j = []
gathered (claim ∷ claims) credits j =
    (if takes_part claim && claim.id == j then keep (eligible claim) credits else [])
    ++ gathered claims credits j

edges-scan_claims :
    (claims : List Claim) (credits : List Credit) (e : Edges) (j : ℕ)
    → (scan_claims claims credits e).edges j ≡ e.edges j ++ gathered claims credits j
unfolding scan_claims gathered
edges-scan_claims [] credits e j = ground (arith, append-nil (e.edges j))
edges-scan_claims (claim ∷ claims) credits e j = ground (
  arith,
  edges-scan_claims claims credits (if takes_part claim then scan_credits claim credits e else e) j,
  edges-scan_credits claim credits e j,
  append_assoc (e.edges j) (keep (eligible claim) credits) (gathered claims credits j),
)

gathered-nil :
    (claims : List Claim) (credits : List Credit) (j : ℕ)
    → count_where (λ x. x.id == j) claims ≡ 0
    → gathered claims credits j ≡ []
unfolding count_where gathered
gathered-nil [] credits j h = refl
gathered-nil (claim ∷ claims) credits j h = ground (arith, gathered-nil claims credits j)

gathered_unique :
    (claims : List Claim) (credits : List Credit) (j : ℕ) (c : Claim)
    → count_where (λ x. x.id == j) claims ≤ 1
    → find_where (λ x. x.id == j) claims ≡ some c
    → takes_part c ≡ true
    → gathered claims credits j ≡ keep (eligible c) credits
unfolding count_where find_where gathered
gathered_unique [] credits j c u f t = cc
gathered_unique (claim ∷ claims) credits j c u f t = ground (
  arith,
  gathered-nil claims credits j,
  append-nil (keep (eligible c) credits),
  gathered_unique claims credits j c,
)

-- With unique ids, the entry of a claim that takes part is the list of the credits that fit it.
pub edges_unique :
    (claims : List Claim) (credits : List Credit) (c : Claim)
    → count_where (λ x. x.id == c.id) claims ≤ 1
    → find_where (λ x. x.id == c.id) claims ≡ some c
    → takes_part c ≡ true
    → (scan_claims claims credits no_edges).edges c.id ≡ keep (eligible c) credits
edges_unique claims credits c u f t =
    ground
      (arith, edges-scan_claims claims credits no_edges c.id, gathered_unique claims credits c.id c)
