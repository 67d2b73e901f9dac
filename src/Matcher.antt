-- ===== src/Matcher.antt =====
-- services/matcher.py: may this claim be verified against this bank credit without a person?
-- `evaluate` fills two dicts, which claim fits which credits and which claims fit a credit, and then
-- judges each open claim in the order of the ids.
pub mod Eligible
mod Scan
pub mod Rivals
pub mod Verdicts
pub mod Keyed
use alo_bot_dashboard.Prelude.{
  ℕ, ◌+◌, ◌*◌, ◌/◌, Bool, true, false, not, ◌||◌, Option, none, some, List, [], ◌∷◌, map, ltb, leb,
  ◌==◌, if◌then◌else◌, is_num, abs_diff, keep, sort_by, Dict, ListDict, insert, append_at,
}
use alo_bot_dashboard.Model.{
  ClaimStatus, AccountStatus, Direction, Disposition, is_open, is_unreconciled, is_credit,
  is_actionable, is_active, second, minute, hour,
}

abbrev pub auto_match_window : ℕ
auto_match_window = 5 * minute

abbrev pub continuity_window : ℕ
continuity_window = 24 * hour

abbrev pub waiting_period : ℕ
waiting_period = 10 * minute

pub record Claim : Type 0 where
  pub id : ℕ
  pub expected_amount_irr : ℕ
  pub target_account_id : Option ℕ
  pub account_status : Option AccountStatus
  pub paid_clicked_at : ℕ
  pub status : ClaimStatus
  pub continuity : Bool

pub record Credit : Type 0 where
  pub id : ℕ
  pub amount_irr : Option ℕ
  pub account_id : Option ℕ
  pub bank_timestamp : Option ℕ
  pub consumed : Bool
  pub direction : Direction
  pub disposition : Disposition

pub data Verdict : Type 0 where
  auto_verify suggest wait : Verdict

pub data Reason : Type 0 where
  unmapped_card account_not_active awaiting_bank_sms no_transaction_after_10m : Reason
  ambiguous_transactions ambiguous_claims unique_exact_match : Reason

pub record Decision : Type 0 where
  pub claim_id : ℕ
  pub decision : Verdict
  pub reason : Reason
  pub transaction_id : Option ℕ
  pub time_delta_seconds : Option ℕ
  pub candidate_transaction_ids : List ℕ
  pub competing_claim_ids : List ℕ

unfoldable pub window : Claim → ℕ
unfolding is_unreconciled
window claim =
    if is_unreconciled claim.status || claim.continuity
    then continuity_window
    else auto_match_window

unfoldable pub eligible : Claim → Credit → Bool
unfolding is_credit is_actionable
eligible claim credit =
    if credit.consumed || not (is_credit credit.direction) || not (is_actionable credit.disposition)
    then false
    else elim credit.amount_irr [
      | none ↦ false
      | some amount ↦ elim credit.bank_timestamp [
        | none ↦ false
        | some at ↦ elim claim.target_account_id [
          | none ↦ false
          | some account ↦
              if not (is_num credit.account_id account)
              then false
              else if not (amount == claim.expected_amount_irr)
              then false
              else leb (abs_diff at claim.paid_clicked_at) (window claim)
        ]
      ]
    ]

-- the two `defaultdict`s of `evaluate`
pub record Edges : Type 0 where
  pub edges : ListDict Credit
  pub claims_per_credit : ListDict ℕ

abbrev pub no_edges : Edges
no_edges = record { edges = λ _. []; claims_per_credit = λ _. [] }

join : Claim → Credit → Edges → Edges
unfolding append_at
join claim credit e =
    if eligible claim credit
    then record {
      edges = append_at claim.id credit e.edges;
      claims_per_credit = append_at credit.id claim.id e.claims_per_credit;
    }
    else e

-- `for credit in credits`
scan_credits : Claim → List Credit → Edges → Edges
scan_credits claim [] e = e
scan_credits claim (credit ∷ credits) e = scan_credits claim credits (join claim credit e)

-- a claim takes part when its card leads to an account and that account is ACTIVE
unfoldable pub takes_part : Claim → Bool
takes_part claim = elim claim.target_account_id [
  | none ↦ false
  | some _ ↦ is_active claim.account_status
]

-- `for claim in live`
pub scan_claims : List Claim → List Credit → Edges → Edges
scan_claims [] credits e = e
scan_claims (claim ∷ live) credits e =
    scan_claims live credits (if takes_part claim then scan_credits claim credits e else e)

abbrev plain : Claim → Verdict → Reason → Decision
plain claim v r = record {
  claim_id = claim.id;
  decision = v;
  reason = r;
  transaction_id = none;
  time_delta_seconds = none;
  candidate_transaction_ids = [];
  competing_claim_ids = [];
}

-- whole seconds between the click and the bank's timestamp
abbrev pub delta_seconds : Option ℕ → ℕ → Option ℕ
delta_seconds none paid = none
delta_seconds (some at) paid = some (abs_diff at paid / second)

abbrev pub auto_decision : Claim → Credit → Decision
auto_decision claim credit = record {
  claim_id = claim.id;
  decision = Verdict.auto_verify;
  reason = Reason.unique_exact_match;
  transaction_id = some credit.id;
  time_delta_seconds = delta_seconds credit.bank_timestamp claim.paid_clicked_at;
  candidate_transaction_ids = credit.id ∷ [];
  competing_claim_ids = [];
}

-- one candidate: the verdict by its rivals
judge : Claim → Credit → List ℕ → Decision
judge claim credit [] = auto_decision claim credit
judge claim credit (r ∷ rivals) = record {
  claim_id = claim.id;
  decision = Verdict.suggest;
  reason = Reason.ambiguous_claims;
  transaction_id = none;
  time_delta_seconds = none;
  candidate_transaction_ids = credit.id ∷ [];
  competing_claim_ids = r ∷ rivals;
}

abbrev pub rivals : ListDict ℕ → Claim → Credit → List ℕ
rivals per_credit claim credit = keep (λ cid. not (cid == claim.id)) (per_credit credit.id)

choose : ListDict ℕ → ℕ → Claim → List Credit → Decision
unfolding judge
choose per_credit now claim [] =
    if ltb now (claim.paid_clicked_at + waiting_period)
    then plain claim Verdict.wait Reason.awaiting_bank_sms
    else plain claim Verdict.suggest Reason.no_transaction_after_10m
choose per_credit now claim (credit ∷ []) =
    judge claim credit (sort_by (λ cid. cid) (rivals per_credit claim credit))
choose per_credit now claim (credit ∷ credit' ∷ credits) = record {
  claim_id = claim.id;
  decision = Verdict.suggest;
  reason = Reason.ambiguous_transactions;
  transaction_id = none;
  time_delta_seconds = none;
  candidate_transaction_ids = map (λ c. c.id) (credit ∷ credit' ∷ credits);
  competing_claim_ids = [];
}

-- the body of the second loop
decide : Edges → ℕ → Claim → Decision
decide e now claim = elim claim.target_account_id [
  | none ↦ plain claim Verdict.suggest Reason.unmapped_card
  | some _ ↦
      if not (is_active claim.account_status)
      then plain claim Verdict.suggest Reason.account_not_active
      else choose e.claims_per_credit now claim (sort_by (λ c. c.id) (e.edges claim.id))
]

decide_all : Edges → ℕ → List Claim → Dict Decision → Dict Decision
decide_all e now [] out = out
decide_all e now (claim ∷ claims) out =
    decide_all e now claims (insert claim.id (decide e now claim) out)

abbrev pub live : List Claim → List Claim
live claims = keep (λ c. is_open c.status) claims

unfoldable pub evaluate : List Claim → List Credit → ℕ → Dict Decision
unfolding is_open join eligible window takes_part scan_credits scan_claims decide choose decide_all
evaluate claims credits now =
    decide_all (scan_claims (live claims) credits no_edges) now (sort_by (λ c. c.id) (live claims))
      []
