-- ===== src/Model.antt =====
-- The values that the tables of models/claims.py and models/ingest.py allow (each enumerated by a
-- CHECK constraint), and the units of time: an instant is a number of microseconds, the resolution
-- of Python's `datetime`, since the first instant that `datetime` has.
use alo_bot_dashboard.Prelude.{ℕ, ◌*◌, Bool, true, false, String, Option, some}

pub data ClaimStatus : Type 0 where
  pending auto_verified manual_verified rejected fake fulfilled_unreconciled : ClaimStatus

pub data MatchStatus : Type 0 where
  suggested auto_verified confirmed rejected : MatchStatus

pub data AccountStatus : Type 0 where
  pending active muted declined : AccountStatus

pub data Direction : Type 0 where
  credit debit unknown : Direction

pub data Disposition : Type 0 where
  actionable declined_income ignored : Disposition

-- `status in ("PENDING", "FULFILLED_UNRECONCILED")`
unfoldable pub is_open : ClaimStatus → Bool
is_open ClaimStatus.pending = true
is_open ClaimStatus.fulfilled_unreconciled = true
is_open _ = false

unfoldable pub is_unreconciled : ClaimStatus → Bool
is_unreconciled ClaimStatus.fulfilled_unreconciled = true
is_unreconciled _ = false

-- `SETTLING_MATCH_STATUSES`
unfoldable pub is_settling : MatchStatus → Bool
is_settling MatchStatus.auto_verified = true
is_settling MatchStatus.confirmed = true
is_settling _ = false

unfoldable pub is_credit : Direction → Bool
is_credit Direction.credit = true
is_credit _ = false

unfoldable pub is_actionable : Disposition → Bool
is_actionable Disposition.actionable = true
is_actionable _ = false

-- `account_status == "ACTIVE"`, where the account may be missing
unfoldable pub is_active : Option AccountStatus → Bool
is_active (some AccountStatus.active) = true
is_active _ = false

unfoldable pub claim_status_text : ClaimStatus → String
claim_status_text ClaimStatus.pending = "PENDING"
claim_status_text ClaimStatus.auto_verified = "AUTO_VERIFIED"
claim_status_text ClaimStatus.manual_verified = "MANUAL_VERIFIED"
claim_status_text ClaimStatus.rejected = "REJECTED"
claim_status_text ClaimStatus.fake = "FAKE"
claim_status_text ClaimStatus.fulfilled_unreconciled = "FULFILLED_UNRECONCILED"

abbrev pub second : ℕ
second = 1_000_000

abbrev pub minute : ℕ
minute = 60 * second

abbrev pub hour : ℕ
hour = 60 * minute

abbrev pub day : ℕ
day = 24 * hour
