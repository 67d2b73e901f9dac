-- ===== src/Matcher/Eligible.antt =====
-- What `_eligible` accepts, field by field.
use alo_bot_dashboard.Prelude.{
  ℕ, ◌≤◌, ◌≡◌, ◌↔◌, inl, inr, true, false, some, arith, abs_diff, is_num-eq, Option-cases,
}
use alo_bot_dashboard.Model.{Direction, Disposition}
use alo_bot_dashboard.Matcher.{Claim, Credit, eligible, window}

-- The credit is unspent, incoming and actionable, on the account and of the amount that the claim
-- names, and no further from the click than the window.
pub record Fits (claim : Claim) (credit : Credit) : Type 0 where
  pub unspent : credit.consumed ≡ false
  pub incoming : credit.direction ≡ Direction.credit
  pub usable : credit.disposition ≡ Disposition.actionable
  pub account : ℕ
  pub at : ℕ
  pub targets : claim.target_account_id ≡ some account
  pub same_account : credit.account_id ≡ some account
  pub same_amount : credit.amount_irr ≡ some claim.expected_amount_irr
  pub timed : credit.bank_timestamp ≡ some at
  pub close : abs_diff at claim.paid_clicked_at ≤ window claim

from_Fits : (claim : Claim) (credit : Credit) → Fits claim credit → eligible claim credit ≡ true
unfolding eligible
from_Fits claim credit f = ground arith

-- what is left once the three optional columns are known to hold values
Fits-of_values :
    (claim : Claim) (credit : Credit) (amount account at : ℕ)
    → credit.amount_irr ≡ some amount
    → claim.target_account_id ≡ some account
    → credit.bank_timestamp ≡ some at
    → eligible claim credit ≡ true
    → Fits claim credit
unfolding eligible
Fits-of_values claim credit amount account at ea et eb h = record {
  unspent = ground arith;
  incoming = ground arith;
  usable = ground arith;
  account = account;
  at = at;
  targets = et;
  same_account = is_num-eq credit.account_id account (ground arith);
  same_amount = ground arith;
  timed = eb;
  close = ground arith;
}

to_Fits : (claim : Claim) (credit : Credit) → eligible claim credit ≡ true → Fits claim credit
unfolding eligible
to_Fits claim credit h = elim (Option-cases credit.amount_irr) [
  | inl e ↦ absurd (ground arith)
  | inr (amount, ea) ↦ elim (Option-cases credit.bank_timestamp) [
    | inl e ↦ absurd (ground arith)
    | inr (at, eb) ↦ elim (Option-cases claim.target_account_id) [
      | inl e ↦ absurd (ground arith)
      | inr (account, et) ↦ Fits-of_values claim credit amount account at ea et eb h
    ]
  ]
]

-- `eligible` accepts a credit for a claim exactly when the credit fits the claim.
pub eligible_iff :
    (claim : Claim) (credit : Credit) → (eligible claim credit ≡ true) ↔ Fits claim credit
eligible_iff claim credit = (to_Fits claim credit, from_Fits claim credit)
