-- ===== src/Examples/Matching.antt =====
-- services/matcher.py on three claims and two credits.
use alo_bot_dashboard.Prelude.{
  ℕ, ◌+◌, ◌*◌, ◌≡◌, ◌≢◌, ◌↔◌, refl, false, Option, none, some, List, [], ◌∷◌, arith, count_where,
  find_where, lookup, insert,
}
use alo_bot_dashboard.Model.{
  ClaimStatus, AccountStatus, Direction, Disposition, second, minute, is_open, is_active,
}
use alo_bot_dashboard.Matcher.{
  Claim, Credit, Reason, window, eligible, takes_part, evaluate, auto_decision,
}
use alo_bot_dashboard.Matcher.Eligible.{Fits}
use alo_bot_dashboard.Matcher.Verdicts.{
  HasUniqueIds, open_claim, IsIsolated, auto_verify_sound, auto_verify_complete,
  auto_verify-exclusive, evaluate_total,
}

abbrev clicked : ℕ
clicked = 100 * minute

-- a claim on account 7, for 500 000 rials
abbrev claim_one : Claim
claim_one = record {
  id = 1;
  expected_amount_irr = 500000;
  target_account_id = some 7;
  account_status = some AccountStatus.active;
  paid_clicked_at = clicked;
  status = ClaimStatus.pending;
  continuity = false;
}

-- the same claim for another amount
abbrev claim_two : Claim
claim_two = record claim_one { id = 2; expected_amount_irr = 700000 }

-- a claim whose card leads to no account
abbrev claim_three : Claim
claim_three = record claim_one { id = 3; target_account_id = none; account_status = none }

abbrev credit_nine : Credit
credit_nine = record {
  id = 9;
  amount_irr = some 500000;
  account_id = some 7;
  bank_timestamp = some (clicked + 90 * second);
  consumed = false;
  direction = Direction.credit;
  disposition = Disposition.actionable;
}

-- the amount of the second claim, six minutes after the click
abbrev credit_late : Credit
credit_late = record credit_nine {
  id = 10;
  amount_irr = some 700000;
  bank_timestamp = some (clicked + 6 * minute);
}

abbrev claims : List Claim
claims = claim_two ∷ claim_one ∷ claim_three ∷ []

abbrev credits : List Credit
credits = credit_nine ∷ credit_late ∷ []

abbrev now : ℕ
now = clicked + 7 * minute

claims-HasUniqueIds : HasUniqueIds claims
unfolding count_where is_open
claims-HasUniqueIds i = ground arith

verdict_one : lookup 1 (evaluate claims credits now) ≡ some (auto_decision claim_one credit_nine)
unfolding evaluate lookup insert is_active
verdict_one = refl

auto_verify_sound_example :
    (c : Claim) × (k : Credit) × (open_claim claims 1 ≡ some c)
    × (auto_decision claim_one credit_nine ≡ auto_decision c k)
    × IsIsolated claims credits c k
    × Fits c k
auto_verify_sound_example =
    auto_verify_sound claims credits now claims-HasUniqueIds 1 (auto_decision claim_one credit_nine)
      verdict_one refl

one_open : open_claim claims 1 ≡ some claim_one
unfolding find_where is_open
one_open = refl

one-IsIsolated : IsIsolated claims credits claim_one credit_nine
unfolding takes_part eligible window is_active is_open
one-IsIsolated = record { part = refl; only = refl; unrivalled = ground arith }

auto_verify_complete_example :
    lookup 1 (evaluate claims credits now) ≡ some (auto_decision claim_one credit_nine)
auto_verify_complete_example =
    auto_verify_complete claims credits now claims-HasUniqueIds claim_one credit_nine one_open
      one-IsIsolated

-- a credit for the second claim, in time
abbrev credit_eight : Credit
credit_eight = record credit_late { id = 8; bank_timestamp = some (clicked + 4 * minute) }

verdict_one_of_two :
    lookup 1 (evaluate claims (credit_eight ∷ credits) now)
    ≡ some (auto_decision claim_one credit_nine)
unfolding evaluate lookup insert is_active
verdict_one_of_two = refl

verdict_two_of_two :
    lookup 2 (evaluate claims (credit_eight ∷ credits) now)
    ≡ some (auto_decision claim_two credit_eight)
unfolding evaluate lookup insert is_active
verdict_two_of_two = refl

auto_verify-exclusive_example : ◌≢◌ {A = Option ℕ} (some 9) (some 8)
auto_verify-exclusive_example =
    auto_verify-exclusive claims (credit_eight ∷ credits) now claims-HasUniqueIds 1 2
      (auto_decision claim_one credit_nine) (auto_decision claim_two credit_eight) (omega arith)
      verdict_one_of_two verdict_two_of_two refl refl

evaluate_total_example :
    (lookup 4 (evaluate claims credits now) ≡ none) ↔ (open_claim claims 4 ≡ none)
evaluate_total_example = evaluate_total claims credits now claims-HasUniqueIds 4

-- the other verdicts
verdict_two :
    elim (lookup 2 (evaluate claims credits now)) [ none ↦ none | some d ↦ some d.reason ]
    ≡ some Reason.awaiting_bank_sms
unfolding evaluate lookup insert is_active
verdict_two = refl

verdict_three :
    elim (lookup 3 (evaluate claims credits now)) [ none ↦ none | some d ↦ some d.reason ]
    ≡ some Reason.unmapped_card
unfolding evaluate lookup insert is_active
verdict_three = refl

-- a second claim on the same credit makes both ambiguous
verdict_rivals :
    elim (lookup 1 (evaluate (record claim_one { id = 4 } ∷ claims) credits now)) [
      | none ↦ none
      | some d ↦ some d.competing_claim_ids
    ]
    ≡ some (4 ∷ [])
unfolding evaluate lookup insert is_active
verdict_rivals = refl
