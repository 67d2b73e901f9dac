-- ===== src/Matcher/Rivals.antt =====
-- When `claims_per_credit` names no claim but the one that is judged.
use alo_bot_dashboard.Prelude.{
  ℕ, ◌≡◌, ◌≢◌, refl, true, not, ◌&&◌, List, [], ◌∷◌, ◌++◌, arith, ◌==◌, ◌↔◌, inl, inr,
  if◌then◌else◌, keep, keep-append, All, append_at, Bool-cases,
}
use mathlib.Core.List.{append-nil}
use alo_bot_dashboard.Matcher.{
  Claim, Credit, Edges, no_edges, eligible, join, takes_part, scan_credits, scan_claims,
}

append_one-ne-nil : (xs : List ℕ) (a : ℕ) → xs ++ a ∷ [] ≢ []
append_one-ne-nil [] a h = cc
append_one-ne-nil (x ∷ xs) a h = cc

module _ (own kid : ℕ) where
  -- the other claims that the dict lists under the credit
  abbrev others : Edges → List ℕ
  others e = keep (λ cid. not (cid == own)) (e.claims_per_credit kid)

  -- every credit with the id that fits the claim makes the claim the judged one
  abbrev pub NoRival : Claim → List Credit → Type 0
  NoRival claim = All (λ k. eligible claim k ≡ true → k.id ≡ kid → claim.id ≡ own)

  abbrev pub NoRivals : List Claim → List Credit → Type 0
  NoRivals claims credits = All (λ c. takes_part c ≡ true → NoRival c credits) claims

  others-join :
      (claim : Claim) (k : Credit) (e : Edges)
      → others (join claim k e) ≡ (
          if eligible claim k && k.id == kid && not (claim.id == own)
          then others e ++ claim.id ∷ []
          else others e)
  unfolding join append_at
  others-join claim k e = elim (Bool-cases (eligible claim k)) [
    | inl fits ↦ rw fits (
        ground (
          arith,
          keep-append (λ cid. not (cid == own)) (e.claims_per_credit kid) (claim.id ∷ []),
          append-nil (others e),
        ))
    | inr no_fit ↦ rw no_fit
  ]

  others-join_to :
      (claim : Claim) (k : Credit) (e : Edges)
      → others (join claim k e) ≡ []
      → (others e ≡ []) × (eligible claim k ≡ true → k.id ≡ kid → claim.id ≡ own)
  others-join_to claim k e h = (
    ground (arith, others-join claim k e, append_one-ne-nil (others e) claim.id),
    λ p q. ground (arith, others-join claim k e, append_one-ne-nil (others e) claim.id),
  )

  others-scan_to :
      (claim : Claim) (ks : List Credit) (e : Edges)
      → others (scan_credits claim ks e) ≡ []
      → (others e ≡ []) × NoRival claim ks
  unfolding scan_credits
  others-scan_to claim [] e h = (h, tt)
  others-scan_to claim (k ∷ ks) e h =
      let (h', rest) = others-scan_to claim ks (join claim k e) h in
      let (first, one) = others-join_to claim k e h' in (first, (one, rest))

  others-scan_from :
      (claim : Claim) (ks : List Credit) (e : Edges)
      → others e ≡ []
      → NoRival claim ks
      → others (scan_credits claim ks e) ≡ []
  unfolding scan_credits
  others-scan_from claim [] e h n = h
  others-scan_from claim (k ∷ ks) e h (one, rest) =
      others-scan_from claim ks (join claim k e) (ground (arith, others-join claim k e, one)) rest

  claims_to :
      (claims : List Claim) (ks : List Credit) (e : Edges)
      → others (scan_claims claims ks e) ≡ []
      → (others e ≡ []) × NoRivals claims ks
  unfolding scan_claims
  claims_to [] ks e h = (h, tt)
  claims_to (c ∷ claims) ks e h =
      let (h', rest) = claims_to claims ks (if takes_part c then scan_credits c ks e else e) h in
      elim (Bool-cases (takes_part c)) [
        | inl part ↦
            let (first, one) = others-scan_to c ks e (rw part at h') in (first, ((λ _. one), rest))
        | inr out ↦ (rw out at h', ((λ part. absurd (cc)), rest))
      ]

  claims_from :
      (claims : List Claim) (ks : List Credit) (e : Edges)
      → others e ≡ []
      → NoRivals claims ks
      → others (scan_claims claims ks e) ≡ []
  unfolding scan_claims
  claims_from [] ks e h n = h
  claims_from (c ∷ claims) ks e h (one, rest) =
      claims_from claims ks (if takes_part c then scan_credits c ks e else e)
        (elim (Bool-cases (takes_part c)) [
          | inl part ↦ rw part (others-scan_from c ks e h (one part))
          | inr out ↦ rw out h
        ])
        rest

  -- The dict lists no other claim under the credit exactly when no other claim that takes part
  -- fits a credit with its id.
  pub NoRivals-iff :
      (claims : List Claim) (ks : List Credit)
      → (others (scan_claims claims ks no_edges) ≡ []) ↔ NoRivals claims ks
  NoRivals-iff claims ks =
      ((λ h. (claims_to claims ks no_edges h).1), claims_from claims ks no_edges refl)
