-- ===== src/Examples/Reviewing.antt =====
-- services/settle.py and services/review.py on books with an open and a verified claim.
use alo_bot_dashboard.Prelude.{
  All, ◌⊎◌, ℕ, ◌+◌, ◌*◌, ◌≡◌, refl, true, false, none, some, [], ◌∷◌, arith, count_where,
  find_where, any_where, done, refused, ◌>>=◌, problem,
}
use alo_bot_dashboard.Model.{
  ClaimStatus, MatchStatus, AccountStatus, Direction, Disposition, second, minute, is_open,
  is_settling, is_credit,
}
use alo_bot_dashboard.Audit.{Actor}
use alo_bot_dashboard.Matcher.{Verdict, Reason, Decision}
use alo_bot_dashboard.Books.{
  PaymentClaim, ReconciliationMatch, Transaction, Books, insert_settling, update_claim,
}
use alo_bot_dashboard.Books.Invariant.{IsConsistent}
use alo_bot_dashboard.Settle.{auto_verify, settle, open_rows, loaded_credits}
use alo_bot_dashboard.Settle.Decided.{IsIn}
use alo_bot_dashboard.Settle.Sound.{given, IsEarned, settle_sound}
use alo_bot_dashboard.Review.{
  Outcome, already_decided, approve_with_transaction, reopen, is_decided,
}
use alo_bot_dashboard.Review.Approval.{first_problem, is_incoming, approve-outcome}
use alo_bot_dashboard.Review.Freed.{reopen_then_approve}
use alo_bot_dashboard.Review.Trail.{IsLogged}
use alo_bot_dashboard.Desk.{Action, run, decides}
use alo_bot_dashboard.Desk.Reach.{Step, Reach, Reach-IsConsistent}
use alo_bot_dashboard.Desk.Once.{decided_once}
use alo_bot_dashboard.Desk.Trail.{committed-IsLogged}

abbrev clicked : ℕ
clicked = 100 * minute

abbrev now : ℕ
now = clicked + 7 * minute

abbrev open_one : PaymentClaim
open_one = record {
  id = 1;
  alobot_payment_id = 501;
  telegram_id = 77;
  purpose = "purchase";
  expected_amount_irr = 500000;
  ibsng_username = "u1";
  invoice_code = some "AB-501";
  target_card_number = some "6037991234567890";
  target_account_id = some 7;
  paid_clicked_at = clicked;
  receipt_file_id = none;
  status = ClaimStatus.pending;
  alobot_status = "pending";
  alobot_resolved_at = none;
  continuity = false;
  suspect_reason = none;
  candidate_transaction_ids = none;
  last_evaluated_at = none;
  verified_at = none;
  verified_by = none;
  decided_at = none;
  decided_by = none;
  parked_at = none;
  messaged_at = none;
  messaged_template = none;
  note = none;
}

abbrev verified_two : PaymentClaim
verified_two = record open_one {
  id = 2;
  alobot_payment_id = 502;
  status = ClaimStatus.auto_verified;
  verified_at = some clicked;
  verified_by = some "matcher";
}

abbrev credit_nine : Transaction
credit_nine = record {
  id = 9;
  account_id = some 7;
  direction = Direction.credit;
  amount_irr = some 500000;
  bank_timestamp = some (clicked + 90 * second);
  disposition = Disposition.actionable;
  disposition_note = none;
}

abbrev credit_eight : Transaction
credit_eight = record credit_nine { id = 8 }

-- credit 8 settles claim 2
abbrev match_two : ReconciliationMatch
match_two = record {
  id = 1;
  claim_id = 2;
  transaction_id = 8;
  status = MatchStatus.auto_verified;
  reason = "UNIQUE_EXACT_MATCH";
  time_delta_seconds = some 90;
  decided_by = some "matcher";
  decided_at = some clicked;
}

abbrev books : Books
books = record {
  claims = open_one ∷ verified_two ∷ [];
  matches = match_two ∷ [];
  next_match_id = 2;
  transactions = credit_nine ∷ credit_eight ∷ [];
  accounts = record { id = 7; status = AccountStatus.active } ∷ [];
  outbox = record { rows = []; next_id = 1 };
  audit = [];
  customers_enabled = true;
}

abbrev sara : Actor
sara = record { id = 3; email = "sara@example.com"; role = "operator" }

abbrev omid : Actor
omid = record { id = 4; email = "omid@example.com"; role = "admin" }

books-IsConsistent : IsConsistent books
unfolding count_where is_settling
books-IsConsistent = record {
  one_per_credit = λ t. ground arith;
  unique_ids = λ i. ground arith;
  backed = (refl, (refl, tt));
}

-- the books that an action commits, and the same books where it refuses
abbrev committed : Outcome Books → Books → Books
committed m b = elim m [ done b' ↦ b' | refused e ↦ b ]

abbrev approved : Books
approved = committed (run sara now 1 (Action.approve 9) books) books

approves : run sara now 1 (Action.approve 9) books ≡ done approved
unfolding run approve_with_transaction ◌>>=◌ find_where is_open insert_settling any_where
    update_claim count_where
approves = refl

-- the sweep's own decision on claim 1
abbrev verify_one : Decision
verify_one = record {
  claim_id = 1;
  decision = Verdict.auto_verify;
  reason = Reason.unique_exact_match;
  transaction_id = some 9;
  time_delta_seconds = some 90;
  candidate_transaction_ids = 9 ∷ [];
  competing_claim_ids = [];
}

-- an operator's approval lands between the sweep's decision and its write
abbrev raced : Books
raced = (auto_verify now now true open_one verify_one approved).0

raced-Reach : Reach books raced
raced-Reach =
    Reach.next
      (Reach.next Reach.here (Step.acted sara now 1 (Action.approve 9) books approved approves))
      (Step.verified now now true open_one verify_one approved)

Reach-IsConsistent_example : IsConsistent raced
Reach-IsConsistent_example = Reach-IsConsistent raced-Reach books-IsConsistent

settle_sound_example :
    All
      (λ m.
        (is_settling m.status ≡ false)
        ⊎ (IsIn m books.matches
            ⊎ IsEarned (given books) (loaded_credits books (open_rows books)) m))
      (settle now now books).0.matches
settle_sound_example = settle_sound now now books books-IsConsistent

approve-outcome_example :
    problem (approve_with_transaction sara 1 8 now books) ≡ first_problem 1 8 books
approve-outcome_example = approve-outcome sara 1 8 now books books-IsConsistent

decided_once_example : run omid now 1 (Action.reject "late") approved ≡ refused already_decided
unfolding decides
decided_once_example =
    decided_once sara omid now now 1 (Action.approve 9) (Action.reject "late") books approved
      books-IsConsistent refl approves refl

committed-IsLogged_example : IsLogged sara 1 books approved
committed-IsLogged_example =
    committed-IsLogged sara now 1 (Action.approve 9) books approved approves

abbrev reopened : Books
reopened = committed (reopen omid 2 now books) books

reopens : reopen omid 2 now books ≡ done reopened
unfolding reopen ◌>>=◌ find_where is_open is_settling update_claim count_where is_decided
reopens = refl

reopen_then_approve_example : problem (approve_with_transaction sara 2 8 now reopened) ≡ none
unfolding any_where is_incoming find_where is_credit is_settling
reopen_then_approve_example =
    reopen_then_approve omid sara now now 2 8 books reopened books-IsConsistent refl refl reopens
