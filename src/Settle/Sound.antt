-- ===== src/Settle/Sound.antt =====
-- A sweep of services/settle.py against the rule of the matcher: what it settles is isolated.
use alo_bot_dashboard.Prelude.{
  ℕ, ◌≤◌, ◌≡◌, ◌⊎◌, refl, sym, ap, inl, inr, false, some, List, [], ◌∷◌, ◌==◌, ==_iff, arith, All,
  All-mono, Dict, lookup, count_where, count-keep, map, Bool-cases,
}
use alo_bot_dashboard.Model.{MatchStatus, is_settling, is_open}
use alo_bot_dashboard.Matcher.{Claim, Credit, Decision}
use alo_bot_dashboard.Matcher.Eligible.{Fits}
use alo_bot_dashboard.Matcher.Keyed.{IsKeyed, evaluate-IsKeyed}
use alo_bot_dashboard.Matcher.Verdicts.{HasUniqueIds, IsIsolated, open_claim, auto_verify_sound}
use alo_bot_dashboard.Books.{PaymentClaim, ReconciliationMatch, Books}
use alo_bot_dashboard.Books.Invariant.{IsConsistent}
use alo_bot_dashboard.Settle.{settle, open_rows, decisions, to_claim, loaded_credits}
use alo_bot_dashboard.Settle.Decided.{IsIn, Verifies, IsDecided, settle-IsDecided}

in-counted :
    {V : Type 0} (i : ℕ) (v : V) (d : Dict V) → IsIn (i, v) d → 1 ≤ count_where (λ e. e.0 == i) d
unfolding count_where
in-counted i v [] there = elim there [ ]
in-counted i v (e ∷ d) (inl here) =
    let same : e.0 ≡ i = sym (ap (λ (x : ℕ × _). x.0) here) in
    let hit = (==_iff (e.0) i).1 same in rw hit (omega arith)
in-counted i v (e ∷ d) (inr there) = omega (arith, in-counted i v d there)

in-lookup :
    {V : Type 0} (i : ℕ) (v : V) (d : Dict V) → IsKeyed d → IsIn (i, v) d → lookup i d ≡ some v
unfolding lookup count_where
in-lookup i v [] h there = elim there [ ]
in-lookup i v ((j, w) ∷ d) h (inl here) =
    let same : j ≡ i = sym (ap (λ (x : ℕ × _). x.0) here) in
    let hit = (==_iff j i).1 same in rw hit (ap (λ (x : ℕ × _). some (x.1)) (sym here))
in-lookup i v ((j, w) ∷ d) h (inr there) = elim (Bool-cases (j == i)) [
  | inl hit ↦ absurd (ground (arith, hit, h i, in-counted i v d there))
  | inr miss ↦ rw miss (in-lookup i v d (λ l. omega (arith, h l)) there)
]

count-to_claim :
    (b : Books) (i : ℕ) (rows : List PaymentClaim)
    → count_where (λ c. c.id == i) (map (to_claim b) rows) ≡ count_where (λ c. c.id == i) rows
unfolding count_where
count-to_claim b i [] = refl
count-to_claim b i (c ∷ rows) = ground (arith, count-to_claim b i rows)

-- the claims that a sweep gives to the matcher
abbrev pub given : Books → List Claim
given b = map (to_claim b) (open_rows b)

given-HasUniqueIds : (b : Books) → IsConsistent b → HasUniqueIds (given b)
given-HasUniqueIds b k i = omega (
  arith,
  count-keep (λ (c : Claim). c.id == i) (λ c. is_open c.status) (given b),
  count-to_claim b i (open_rows b),
  count-keep (λ (c : PaymentClaim). c.id == i) (λ c. is_open c.status) b.claims,
  k.unique_ids i,
)

-- a match of an open claim with the one credit that fits it, for which no other open claim competes
abbrev pub IsEarned : List Claim → List Credit → ReconciliationMatch → Type 0
IsEarned claims credits m =
    (c : Claim) × (k : Credit) × (open_claim claims m.claim_id ≡ some c)
    × (m.transaction_id ≡ k.id)
    × IsIsolated claims credits c k
    × Fits c k
    × (m.status ≡ MatchStatus.auto_verified)

Verifies-IsEarned :
    (now : ℕ) (b : Books) (m : ReconciliationMatch)
    → IsConsistent b
    → Verifies (decisions now b (open_rows b)) m
    → IsEarned (given b) (loaded_credits b (open_rows b)) m
Verifies-IsEarned now b m k (d, there, auto, pair, status) =
    let credits = loaded_credits b (open_rows b) in
    let found =
      in-lookup m.claim_id d (decisions now b (open_rows b))
        (evaluate-IsKeyed (given b) credits now) there in
    let (c, credit, is_there, made, alone, fits) =
      auto_verify_sound (given b) credits now (given-HasUniqueIds b k) m.claim_id d found auto in
    let of_pair : d.transaction_id ≡ some credit.id =
      ap (λ (x : Decision). x.transaction_id) made in
    let same : m.transaction_id ≡ credit.id = cc in (c, credit, is_there, same, alone, fits, status)

-- A sweep settles nothing but what the rule of the matcher allows: from consistent books, every settling
-- match after a sweep was there before, or is marked as automatically verified and pairs an open claim on
-- an ACTIVE account with the only loaded credit that fits it (amount, account, window, unspent), and no
-- other open claim on an ACTIVE account fits that credit.
pub settle_sound :
    (now clock : ℕ) (b : Books)
    → IsConsistent b
    → All
        (λ m.
          (is_settling m.status ≡ false)
          ⊎ (IsIn m b.matches ⊎ IsEarned (given b) (loaded_credits b (open_rows b)) m))
        (settle now clock b).0.matches
settle_sound now clock b k =
    All-mono (IsDecided (decisions now b (open_rows b)) b.matches) _ _
      (λ m h. elim h [
        | inl idle ↦ inl idle
        | inr (inl old) ↦ inr (inl old)
        | inr (inr new) ↦ inr (inr (Verifies-IsEarned now b m k new))
      ])
      (settle-IsDecided now clock b)
