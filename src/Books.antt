-- ===== src/Books.antt =====
-- models/claims.py and the columns of models/ingest.py that reconciliation reads: the tables that
-- the settle sweep and the review desk share, as one state. A service's transaction takes the
-- committed state to the next one; what it has not committed when it raises is dropped.
pub mod Invariant
use alo_bot_dashboard.Prelude.{
  ℕ, ◌+◌, Bool, true, false, ◌&&◌, ◌||◌, String, Option, none, some, List, ◌∷◌, ◌==◌, if◌then◌else◌,
  any_where, count_where, find_where, update_where,
}
use alo_bot_dashboard.Model.{
  ClaimStatus, MatchStatus, AccountStatus, Direction, Disposition, is_settling,
}
use alo_bot_dashboard.Audit.{AuditRow}
use alo_bot_dashboard.Outbox.{Outbox}

pub record PaymentClaim : Type 0 where
  pub id : ℕ
  pub alobot_payment_id : ℕ
  pub telegram_id : ℕ
  pub purpose : String
  pub expected_amount_irr : ℕ
  pub ibsng_username : String
  pub invoice_code : Option String
  pub target_card_number : Option String
  pub target_account_id : Option ℕ
  pub paid_clicked_at : ℕ
  pub receipt_file_id : Option String
  pub status : ClaimStatus
  pub alobot_status : String
  pub alobot_resolved_at : Option ℕ
  pub continuity : Bool
  pub suspect_reason : Option String
  pub candidate_transaction_ids : Option (List ℕ)
  pub last_evaluated_at : Option ℕ
  pub verified_at : Option ℕ
  pub verified_by : Option String
  pub decided_at : Option ℕ
  pub decided_by : Option String
  pub parked_at : Option ℕ
  pub messaged_at : Option ℕ
  pub messaged_template : Option String
  pub note : Option String

pub record ReconciliationMatch : Type 0 where
  pub id : ℕ
  pub claim_id : ℕ
  pub transaction_id : ℕ
  pub status : MatchStatus
  pub reason : String
  pub time_delta_seconds : Option ℕ
  pub decided_by : Option String
  pub decided_at : Option ℕ

-- TransactionCandidate
pub record Transaction : Type 0 where
  pub id : ℕ
  pub account_id : Option ℕ
  pub direction : Direction
  pub amount_irr : Option ℕ
  pub bank_timestamp : Option ℕ
  pub disposition : Disposition
  pub disposition_note : Option String

-- FinancialAccount
pub record Account : Type 0 where
  pub id : ℕ
  pub status : AccountStatus

pub record Books : Type 0 where
  pub claims : List PaymentClaim
  pub matches : List ReconciliationMatch
  pub next_match_id : ℕ
  pub transactions : List Transaction
  pub accounts : List Account
  pub outbox : Outbox
  pub audit : List AuditRow
  -- the setting notify/customers_enabled
  pub customers_enabled : Bool

-- a settling row of a transaction, or of a claim
abbrev pub settles_transaction : ℕ → ReconciliationMatch → Bool
settles_transaction t m = m.transaction_id == t && is_settling m.status

abbrev pub settles_claim : ℕ → ReconciliationMatch → Bool
settles_claim c m = m.claim_id == c && is_settling m.status

-- `session.get(PaymentClaim, id)`
abbrev pub get_claim : ℕ → Books → Option PaymentClaim
get_claim i b = find_where (λ c. c.id == i) b.claims

abbrev pub get_transaction : ℕ → Books → Option Transaction
get_transaction i b = find_where (λ t. t.id == i) b.transactions

-- a new row of reconciliation_matches
unfoldable pub add_match :
    ℕ → ℕ → MatchStatus → String → Option ℕ → Option String → Option ℕ → Books → Books
add_match claim_id transaction_id status reason delta decided_by decided_at b = record b {
  matches =
      record {
        id = b.next_match_id;
        claim_id = claim_id;
        transaction_id = transaction_id;
        status = status;
        reason = reason;
        time_delta_seconds = delta;
        decided_by = decided_by;
        decided_at = decided_at;
      }
      ∷ b.matches;
  next_match_id = b.next_match_id + 1;
}

-- the flush of a settling row: IntegrityError where one of the two partial unique indexes already
-- has the transaction or the claim
unfoldable pub insert_settling :
    ℕ → ℕ → MatchStatus → String → Option ℕ → Option String → Option ℕ → Books → Option Books
unfolding add_match
insert_settling claim_id transaction_id status reason delta decided_by decided_at b =
    if any_where (settles_transaction transaction_id) b.matches
      || any_where (settles_claim claim_id) b.matches
    then none
    else some (add_match claim_id transaction_id status reason delta decided_by decided_at b)

-- UPDATE payment_claims ... WHERE id = :id AND status IN allowed: the rowcount and the table after
abbrev pub claim_in : ℕ → (ClaimStatus → Bool) → PaymentClaim → Bool
claim_in i allowed c = c.id == i && allowed c.status

unfoldable pub update_claim :
    ℕ → (ClaimStatus → Bool) → (PaymentClaim → PaymentClaim) → Books → Books × ℕ
update_claim i allowed f b = (
  record b { claims = update_where (claim_in i allowed) f b.claims },
  count_where (claim_in i allowed) b.claims,
)
