-- ===== src/Settle/Sweep.antt =====
-- The writes of services/settle.py and the money rule, from whatever snapshot the decisions were made.
use alo_bot_dashboard.Prelude.{
  ℕ, refl, inl, inr, Bool, true, false, none, some, List, [], ◌∷◌, ◌==◌, ==_iff, String, Bool-cases,
  Option-cases, find_where,
}
use alo_bot_dashboard.Model.{MatchStatus, is_settling, is_open}
use alo_bot_dashboard.Matcher.{Verdict, Decision}
use alo_bot_dashboard.Books.{
  PaymentClaim, ReconciliationMatch, Books, insert_settling, update_claim, get_claim,
}
use alo_bot_dashboard.Books.Invariant.{
  IsConsistent, recast-IsConsistent, add_match-IsConsistent, settle-IsConsistent,
}
use alo_bot_dashboard.Settle.{
  Tally, reason_text, mark_verified, notify_verified, auto_verify, add_suggestions,
  record_suggestion, settle_one, settle_all, settle_rows, settle, open_rows, decisions,
  has_suggestion,
}

notify_verified-IsConsistent :
    (notify : Bool) (clock : ℕ) (claim : PaymentClaim) (b : Books)
    → IsConsistent b
    → IsConsistent (notify_verified notify clock claim b)
unfolding notify_verified
notify_verified-IsConsistent true clock claim b k = record {
  one_per_credit = k.one_per_credit;
  unique_ids = k.unique_ids;
  backed = k.backed;
}
notify_verified-IsConsistent false clock claim b k = k

module _ (now clock : ℕ) (notify : Bool) where
  -- A verification keeps the books consistent, whether it lands or loses the race, and whatever
  -- the loaded claim and the decision say.
  pub auto_verify-IsConsistent :
      (claim : PaymentClaim) (d : Decision) (b : Books)
      → IsConsistent b
      → IsConsistent (auto_verify now clock notify claim d b).0
  unfolding auto_verify mark_verified is_settling
  auto_verify-IsConsistent claim d b k = elim (Option-cases d.transaction_id) [
    | inl missing ↦ rw (missing, auto_verify) k
    | inr (t, found) ↦
        elim (Option-cases (
          insert_settling claim.id t MatchStatus.auto_verified (reason_text d.reason)
            d.time_delta_seconds (some "matcher") (some now) b)) [
              | inl taken ↦ rw (found, auto_verify) (rw (taken, auto_verify) k)
              | inr (flushed, inserted) ↦
                  elim (Bool-cases
                    ((update_claim claim.id is_open (mark_verified now) flushed).1 == 1)) [
                      | inr lost ↦ rw (found, auto_verify) (rw (inserted, auto_verify) (rw lost k))
                      | inl won ↦
                          rw (found, auto_verify)
                            (rw (inserted, auto_verify)
                              (rw won (
                                notify_verified-IsConsistent notify clock claim _ (
                                  settle-IsConsistent claim.id t MatchStatus.auto_verified
                                    (reason_text d.reason) d.time_delta_seconds (some "matcher")
                                    (some now) (mark_verified now) b (λ c. refl) (λ c. refl) refl
                                    flushed inserted ((==_iff _ 1).0 won) k))))
                    ]
            ]
  ]

module _ (now : ℕ) where
  add_suggestions-IsConsistent :
      (i : ℕ) (reason : String) (existing : List ReconciliationMatch) (ts : List ℕ) (b : Books)
      → IsConsistent b
      → IsConsistent (add_suggestions i reason existing ts b)
  unfolding add_suggestions is_settling
  add_suggestions-IsConsistent i reason existing [] b k = k
  add_suggestions-IsConsistent i reason existing (t ∷ ts) b k =
      add_suggestions-IsConsistent i reason existing ts _
        (elim (Bool-cases (has_suggestion i t existing)) [
          | inl old ↦ rw old k
          | inr new ↦
              rw new
                (add_match-IsConsistent i t MatchStatus.suggested reason none none none b refl k)
        ])

  -- A suggestion keeps the books consistent, whatever it suggests.
  pub record_suggestion-IsConsistent :
      (i : ℕ) (d : Decision) (b : Books)
      → IsConsistent b
      → IsConsistent (record_suggestion now i d b)
  unfolding record_suggestion
  record_suggestion-IsConsistent i d b k = elim (Option-cases (get_claim i b)) [
    | inl gone ↦ rw (gone, record_suggestion) k
    | inr (claim, found) ↦
        rw (found, record_suggestion)
          (add_suggestions-IsConsistent i (reason_text d.reason) b.matches
            d.candidate_transaction_ids _
            (recast-IsConsistent (λ c. c.id == i) _ b (λ c. refl) (λ c n _ h. h) k))
  ]

module _ (now clock : ℕ) (notify : Bool) where
  settle_one-IsConsistent :
      (claim : PaymentClaim) (v : Verdict) (d : Decision) (b : Books) (n : Tally)
      → IsConsistent b
      → IsConsistent (settle_one now clock notify claim v d (b, n)).0
  unfolding settle_one
  settle_one-IsConsistent claim Verdict.auto_verify d b n k =
      auto_verify-IsConsistent now clock notify claim d b k
  settle_one-IsConsistent claim Verdict.suggest d b n k =
      record_suggestion-IsConsistent now claim.id d b k
  settle_one-IsConsistent claim Verdict.wait d b n k =
      record_suggestion-IsConsistent now claim.id d b k

  -- The loop of the sweep keeps the books consistent for any rows and any decisions: also for
  -- those made from a snapshot that other sweeps and operators have since changed.
  pub settle_all-IsConsistent :
      (rows : List PaymentClaim) (ds : List (ℕ × Decision)) (b : Books) (n : Tally)
      → IsConsistent b
      → IsConsistent (settle_all now clock notify rows ds (b, n)).0
  unfolding settle_all
  settle_all-IsConsistent rows [] b n k = k
  settle_all-IsConsistent rows ((i, d) ∷ ds) b n k =
      elim (Option-cases (find_where (λ c. c.id == i) rows)) [
        | inl missing ↦ rw (missing, settle_all) (settle_all-IsConsistent rows ds b n k)
        | inr (claim, found) ↦
            rw (found, settle_all)
              (let (b', n') = settle_one now clock notify claim d.decision d (b, n) in
                settle_all-IsConsistent rows ds b' n'
                  (settle_one-IsConsistent claim d.decision d b n k))
      ]

settle_rows-IsConsistent :
    (now clock : ℕ) (b : Books) (rows : List PaymentClaim)
    → IsConsistent b
    → IsConsistent (settle_rows now clock b rows).0
unfolding settle_rows
settle_rows-IsConsistent now clock b [] k = k
settle_rows-IsConsistent now clock b (c ∷ rows) k =
    settle_all-IsConsistent now clock b.customers_enabled (c ∷ rows) (decisions now b (c ∷ rows)) b
      _ k

-- A whole sweep keeps the books consistent.
pub settle_keeps :
    (now clock : ℕ) (b : Books) → IsConsistent b → IsConsistent (settle now clock b).0
unfolding settle
settle_keeps now clock b k = settle_rows-IsConsistent now clock b (open_rows b) k
