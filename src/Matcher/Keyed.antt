-- ===== src/Matcher/Keyed.antt =====
-- The dict that `evaluate` of services/matcher.py returns has each claim once.
use alo_bot_dashboard.Prelude.{
  ℕ, ◌+◌, ◌≤◌, inl, inr, List, [], ◌∷◌, ◌==◌, arith, Dict, insert, count_where, if◌then◌else◌,
  Bool-cases, sort_by,
}
use alo_bot_dashboard.Matcher.{
  Claim, Credit, Edges, Decision, decide, decide_all, evaluate, scan_claims, live, no_edges,
}

-- a dict has each key once
abbrev pub IsKeyed : {V : Type 0} → Dict V → Type 0
IsKeyed d = (i : ℕ) → count_where (λ e. e.0 == i) d ≤ 1

count-insert :
    {V : Type 0} (k j : ℕ) (v : V) (d : Dict V)
    → count_where (λ e. e.0 == j) (insert k v d)
      ≤ (if k == j then 1 + count_where (λ e. e.0 == j) d else count_where (λ e. e.0 == j) d)
unfolding count_where insert
count-insert k j v [] = ground arith
count-insert k j v ((i, w) ∷ d) = ground (arith, count-insert k j v d)

insert-IsKeyed : {V : Type 0} (k : ℕ) (v : V) (d : Dict V) → IsKeyed d → IsKeyed (insert k v d)
unfolding insert count_where
insert-IsKeyed k v [] h j = ground arith
insert-IsKeyed k v ((i, w) ∷ d) h j = elim (Bool-cases (i == k)) [
  | inl here ↦ rw here (ground (arith, here, h j))
  | inr away ↦ rw away (
      ground
        (arith, away, h j, insert-IsKeyed k v d (λ l. omega (arith, h l)) j, count-insert k j v d))
]

decide_all-IsKeyed :
    (e : Edges) (now : ℕ) (claims : List Claim) (out : Dict Decision)
    → IsKeyed out
    → IsKeyed (decide_all e now claims out)
unfolding decide_all
decide_all-IsKeyed e now [] out h = h
decide_all-IsKeyed e now (c ∷ claims) out h =
    decide_all-IsKeyed e now claims (insert c.id (decide e now c) out)
      (insert-IsKeyed c.id (decide e now c) out h)

pub evaluate-IsKeyed :
    (claims : List Claim) (credits : List Credit) (now : ℕ) → IsKeyed (evaluate claims credits now)
unfolding evaluate count_where
evaluate-IsKeyed claims credits now =
    decide_all-IsKeyed (scan_claims (live claims) credits no_edges) now
      (sort_by (λ c. c.id) (live claims)) [] (λ i. omega arith)
