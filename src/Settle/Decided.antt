-- ===== src/Settle/Decided.antt =====
-- What a sweep of services/settle.py settles: only what the matcher decided on the rows it loaded.
use alo_bot_dashboard.Prelude.{
  ℕ, ◌≡◌, ◌⊎◌, refl, sym, subst, inl, inr, Bool, true, false, ◌||◌, Option, some, List, [], ◌∷◌,
  ◌==◌, ==_iff, String, All, All-mono, In, any_where, Bool-cases, Option-cases, find_where,
  find_where_holds,
}
use alo_bot_dashboard.Model.{MatchStatus, is_settling, is_open}
use alo_bot_dashboard.Matcher.{Verdict, Decision}
use alo_bot_dashboard.Books.{
  PaymentClaim, ReconciliationMatch, Books, insert_settling, add_match, update_claim, get_claim,
  settles_transaction, settles_claim,
}
use alo_bot_dashboard.Settle.{
  Tally, reason_text, mark_verified, notify_verified, auto_verify, add_suggestions,
  record_suggestion, settle_one, settle_all, settle_rows, settle, open_rows, decisions,
  has_suggestion,
}

abbrev pub IsIn : {A : Type 0} → A → List A → Type 0
IsIn x xs = In (λ y. x ≡ y) xs

All-IsIn : {A : Type 0} (xs : List A) → All (λ x. IsIn x xs) xs
All-IsIn [] = tt
All-IsIn (x ∷ xs) =
    (inl refl, All-mono (λ y. IsIn y xs) (λ y. IsIn y (x ∷ xs)) xs (λ y k. inr k) (All-IsIn xs))

-- a decision to verify a claim against a credit
abbrev pub Verifies : List (ℕ × Decision) → ReconciliationMatch → Type 0
Verifies ds m =
    (d : Decision) × IsIn (m.claim_id, d) ds
    × (d.decision ≡ Verdict.auto_verify)
    × (d.transaction_id ≡ some m.transaction_id)
    × (m.status ≡ MatchStatus.auto_verified)

-- a match that does not settle, or is an old one, or that a decision made
abbrev pub IsDecided : List (ℕ × Decision) → List ReconciliationMatch → ReconciliationMatch → Type 0
IsDecided ds old m = (is_settling m.status ≡ false) ⊎ (IsIn m old ⊎ Verifies ds m)

-- the row that a flush adds
insert-adds :
    (i t : ℕ) (status : MatchStatus) (reason : String) (delta : Option ℕ) (by : Option String)
    (at : Option ℕ) (b flushed : Books)
    → insert_settling i t status reason delta by at b ≡ some flushed
    → (m : ReconciliationMatch) × (m.claim_id ≡ i)
      × (m.transaction_id ≡ t)
      × (m.status ≡ status)
      × (flushed.matches ≡ m ∷ b.matches)
unfolding insert_settling add_match
insert-adds i t status reason delta by at b flushed h =
    elim (Bool-cases
      (any_where (settles_transaction t) b.matches || any_where (settles_claim i) b.matches)) [
        | inl taken ↦ absurd (let h' = rw taken at h in cc)
        | inr free ↦
            let same : some (add_match i t status reason delta by at b) ≡ some flushed =
              rw free at h in
            let rows : (add_match i t status reason delta by at b).matches ≡ flushed.matches = cc in
            (_, refl, refl, refl, sym rows)
      ]

notified-matches :
    (notify : Bool) (clock : ℕ) (claim : PaymentClaim) (b : Books)
    → (notify_verified notify clock claim b).matches ≡ b.matches
unfolding notify_verified
notified-matches true clock claim b = refl
notified-matches false clock claim b = refl

module _ (now clock : ℕ) (notify : Bool) (all : List (ℕ × Decision))
    (old : List ReconciliationMatch) where
  abbrev AllDecided : Books → Type 0
  AllDecided b = All (IsDecided all old) b.matches

  auto_verify-AllDecided :
      (claim : PaymentClaim) (d : Decision) (b : Books)
      → IsIn (claim.id, d) all
      → d.decision ≡ Verdict.auto_verify
      → AllDecided b
      → AllDecided (auto_verify now clock notify claim d b).0
  unfolding auto_verify update_claim
  auto_verify-AllDecided claim d b there auto k = elim (Option-cases d.transaction_id) [
    | inl missing ↦ rw (missing, auto_verify) k
    | inr (t, found) ↦
        elim (Option-cases (
          insert_settling claim.id t MatchStatus.auto_verified (reason_text d.reason)
            d.time_delta_seconds (some "matcher") (some now) b)) [
              | inl taken ↦ rw (found, auto_verify) (rw (taken, auto_verify) k)
              | inr (flushed, inserted) ↦
                  elim (Bool-cases
                    ((update_claim claim.id is_open (mark_verified now) flushed).1 == 1)) [
                      | inr lost ↦ rw (found, auto_verify) (rw (inserted, auto_verify) (rw lost k))
                      | inl won ↦
                          let (m, own, pair, status, rows) =
                            insert-adds claim.id t MatchStatus.auto_verified (reason_text d.reason)
                              d.time_delta_seconds (some "matcher") (some now) b flushed inserted in
                          let fresh : IsDecided all old m = inr (
                            inr (
                              d,
                              subst (λ i. IsIn (i, d) all) (sym own) there,
                              auto,
                              rw found (rw pair refl),
                              status,
                            )) in
                          let both : All (IsDecided all old) flushed.matches =
                            subst (λ ms. All (IsDecided all old) ms) (sym rows) (fresh, k) in
                          rw (found, auto_verify)
                            (rw (inserted, auto_verify)
                              (rw won (
                                subst (λ ms. All (IsDecided all old) ms)
                                  (sym (notified-matches notify clock claim _)) both)))
                    ]
            ]
  ]

  suggested-AllDecided :
      (i : ℕ) (reason : String) (existing : List ReconciliationMatch) (ts : List ℕ) (b : Books)
      → AllDecided b
      → AllDecided (add_suggestions i reason existing ts b)
  unfolding add_suggestions add_match is_settling
  suggested-AllDecided i reason existing [] b k = k
  suggested-AllDecided i reason existing (t ∷ ts) b k =
      suggested-AllDecided i reason existing ts _ (elim (Bool-cases (has_suggestion i t existing)) [
        | inl here ↦ rw here k
        | inr new ↦ rw new (inl refl, k)
      ])

  record-AllDecided :
      (i : ℕ) (d : Decision) (b : Books) → AllDecided b → AllDecided (record_suggestion now i d b)
  unfolding record_suggestion
  record-AllDecided i d b k = elim (Option-cases (get_claim i b)) [
    | inl gone ↦ rw (gone, record_suggestion) k
    | inr (claim, found) ↦
        rw (found, record_suggestion)
          (suggested-AllDecided i (reason_text d.reason) b.matches d.candidate_transaction_ids _ k)
  ]

  settle_one-AllDecided :
      (claim : PaymentClaim) (v : Verdict) (d : Decision) (b : Books) (n : Tally)
      → IsIn (claim.id, d) all
      → d.decision ≡ v
      → AllDecided b
      → AllDecided (settle_one now clock notify claim v d (b, n)).0
  unfolding settle_one
  settle_one-AllDecided claim Verdict.auto_verify d b n there e k =
      auto_verify-AllDecided claim d b there e k
  settle_one-AllDecided claim Verdict.suggest d b n there e k = record-AllDecided claim.id d b k
  settle_one-AllDecided claim Verdict.wait d b n there e k = record-AllDecided claim.id d b k

  settle_all-AllDecided :
      (rows : List PaymentClaim) (ds : List (ℕ × Decision)) (b : Books) (n : Tally)
      → All (λ e. IsIn e all) ds
      → AllDecided b
      → AllDecided (settle_all now clock notify rows ds (b, n)).0
  unfolding settle_all
  settle_all-AllDecided rows [] b n there k = k
  settle_all-AllDecided rows ((i, d) ∷ ds) b n there k =
      elim (Option-cases (find_where (λ c. c.id == i) rows)) [
        | inl missing ↦ rw (missing, settle_all) (settle_all-AllDecided rows ds b n there.1 k)
        | inr (claim, found) ↦
            let own : claim.id ≡ i =
              (==_iff claim.id i).0 (find_where_holds (λ c. c.id == i) rows claim found) in
            rw (found, settle_all)
              (let (b', n') = settle_one now clock notify claim d.decision d (b, n) in
                settle_all-AllDecided rows ds b' n' there.1 (
                  settle_one-AllDecided claim d.decision d b n
                    (subst (λ j. IsIn (j, d) all) (sym own) there.0) refl k))
      ]

rows-AllDecided :
    (now clock : ℕ) (b : Books) (rows : List PaymentClaim)
    → All (IsDecided (decisions now b rows) b.matches) (settle_rows now clock b rows).0.matches
unfolding settle_rows
rows-AllDecided now clock b [] =
    All-mono (λ m. IsIn m b.matches) (IsDecided (decisions now b []) b.matches) b.matches
      (λ m k. inr (inl k)) (All-IsIn b.matches)
rows-AllDecided now clock b (c ∷ rows) =
    let ds = decisions now b (c ∷ rows) in
    settle_all-AllDecided now clock b.customers_enabled ds b.matches (c ∷ rows) ds b _ (All-IsIn ds)
      (All-mono (λ m. IsIn m b.matches) (IsDecided ds b.matches) b.matches (λ m k. inr (inl k))
        (All-IsIn b.matches))

-- A sweep settles only what the matcher decided: every settling match after it was there before, or pairs
-- a claim with the credit of the matcher's own decision on that claim, made on the open rows that the
-- sweep loaded, with the verdict to verify automatically; the match says so in its status.
pub settle-IsDecided :
    (now clock : ℕ) (b : Books)
    → All (IsDecided (decisions now b (open_rows b)) b.matches) (settle now clock b).0.matches
unfolding settle
settle-IsDecided now clock b = rows-AllDecided now clock b (open_rows b)
