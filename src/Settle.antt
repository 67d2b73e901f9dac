-- ===== src/Settle.antt =====
-- services/settle.py: the sweep that asks the matcher about every open claim and writes what it
-- decided. `now` is the sweep's moment and `clock` the database's, by which a new message is due.
pub mod Sweep
pub mod Decided
pub mod Sound
use alo_bot_dashboard.Prelude.{
  ℕ, ◌+◌, ◌/◌, Bool, true, false, not, ◌&&◌, String, Option, none, some, List, [], ◌∷◌, map, leb,
  ltb, ◌==◌, is_some, if◌then◌else◌, str_append, str_eq, print, keep, any_where, find_where,
  update_where,
}
use alo_bot_dashboard.Model.{
  ClaimStatus, MatchStatus, AccountStatus, Direction, is_open, is_settling, is_credit, day, hour,
}
use alo_bot_dashboard.Messages.{verified_before_amount, verified_before_code, verified_end}
use alo_bot_dashboard.FaNumber.{fa_number}
use alo_bot_dashboard.Matcher.{Claim, Credit, Verdict, Reason, Decision, evaluate}
use alo_bot_dashboard.Outbox.{Payload, enqueue}
use alo_bot_dashboard.Books.{
  PaymentClaim, ReconciliationMatch, Transaction, Account, Books, get_claim, add_match,
  insert_settling, update_claim,
}

unfoldable pub reason_text : Reason → String
reason_text Reason.unmapped_card = "UNMAPPED_CARD"
reason_text Reason.account_not_active = "ACCOUNT_NOT_ACTIVE"
reason_text Reason.awaiting_bank_sms = "AWAITING_BANK_SMS"
reason_text Reason.no_transaction_after_10m = "NO_TRANSACTION_AFTER_10M"
reason_text Reason.ambiguous_transactions = "AMBIGUOUS_TRANSACTIONS"
reason_text Reason.ambiguous_claims = "AMBIGUOUS_CLAIMS"
reason_text Reason.unique_exact_match = "UNIQUE_EXACT_MATCH"

abbrev pub open_rows : Books → List PaymentClaim
open_rows b = keep (λ c. is_open c.status) b.claims

pub account_status : Option ℕ → List Account → Option AccountStatus
account_status none accounts = none
account_status (some i) accounts = elim (find_where (λ a. a.id == i) accounts) [
  | none ↦ none
  | some a ↦ some a.status
]

abbrev pub to_claim : Books → PaymentClaim → Claim
to_claim b c = record {
  id = c.id;
  expected_amount_irr = c.expected_amount_irr;
  target_account_id = c.target_account_id;
  account_status = account_status c.target_account_id b.accounts;
  paid_clicked_at = c.paid_clicked_at;
  status = c.status;
  continuity = c.continuity;
}

-- the transactions of the settling matches
unfoldable pub consumed : Books → ℕ → Bool
unfolding is_settling
consumed b t = any_where (λ m. m.transaction_id == t && is_settling m.status) b.matches

abbrev pub to_credit : Books → Transaction → Credit
to_credit b t = record {
  id = t.id;
  amount_irr = t.amount_irr;
  account_id = t.account_id;
  bank_timestamp = t.bank_timestamp;
  consumed = consumed b t.id;
  direction = t.direction;
  disposition = t.disposition;
}

-- `min(c.paid_clicked_at for c in rows)`, of a first row and the rest
earliest : ℕ → List PaymentClaim → ℕ
earliest at [] = at
earliest at (c ∷ rows) = earliest (if ltb c.paid_clicked_at at then c.paid_clicked_at else at) rows

-- the credits that can matter: incoming, with an amount, from a day before the earliest click on;
-- `oldest - 24 hours <= t` is written without the subtraction
near_enough : ℕ → Transaction → Bool
unfolding is_credit
near_enough oldest t =
    is_credit t.direction
    && elim t.bank_timestamp [ none ↦ false | some at ↦ leb oldest (at + day) ]
    && is_some t.amount_irr

pub loaded_credits : Books → List PaymentClaim → List Credit
unfolding near_enough earliest
loaded_credits b [] = []
loaded_credits b (c ∷ rows) =
    map (to_credit b) (keep (near_enough (earliest c.paid_clicked_at rows)) b.transactions)

-- `claim.invoice_code or claim.alobot_payment_id`, in the message
code_text : PaymentClaim → String
code_text c = elim c.invoice_code [
  | none ↦ print c.alobot_payment_id
  | some code ↦ if str_eq code "" then print c.alobot_payment_id else code
]

pub verified_message : PaymentClaim → Payload
unfolding code_text fa_number print
verified_message c = record {
  text = some (
      str_append verified_before_amount (
        str_append (fa_number (c.expected_amount_irr / 10))
          (str_append verified_before_code (str_append (code_text c) verified_end))));
  parse_mode = some "HTML";
  reply_markup = none;
}

abbrev pub verify_key : ℕ → String
verify_key claim_id = str_append "verify:" (print claim_id)

-- the SET of the conditional UPDATE
unfoldable pub mark_verified : ℕ → PaymentClaim → PaymentClaim
mark_verified now c = record c {
  status = ClaimStatus.auto_verified;
  verified_at = some now;
  verified_by = some "matcher";
  suspect_reason = none;
  candidate_transaction_ids = none;
  last_evaluated_at = some now;
}

-- the message of a verification, in the transaction that verifies
pub notify_verified : Bool → ℕ → PaymentClaim → Books → Books
notify_verified notify_customers clock claim b =
    if notify_customers
    then record b {
      outbox =
          (enqueue (verify_key claim.id) claim.telegram_id (verified_message claim) clock
            b.outbox).0;
    }
    else b

-- after the flush: the claim's transition, the message and the commit, or a rollback to `b`
pub finish_verify : ℕ → ℕ → Bool → PaymentClaim → Books → Books → Books × Bool
unfolding notify_verified
finish_verify now clock notify_customers claim b flushed =
    let (moved, rowcount) = update_claim claim.id is_open (mark_verified now) flushed in
    if not (rowcount == 1)
    then (b, false)
    else (notify_verified notify_customers clock claim moved, true)

-- `_auto_verify`; a decision without a transaction would violate the NOT NULL of the match row
unfoldable pub auto_verify : ℕ → ℕ → Bool → PaymentClaim → Decision → Books → Books × Bool
unfolding finish_verify
auto_verify now clock notify_customers claim decision b = elim decision.transaction_id [
  | none ↦ (b, false)
  | some t ↦
      elim (insert_settling claim.id t MatchStatus.auto_verified (reason_text decision.reason)
        decision.time_delta_seconds (some "matcher") (some now) b) [
          | none ↦ (b, false)
          | some flushed ↦ finish_verify now clock notify_customers claim b flushed
        ]
]

-- the SUGGESTED rows of a claim before the sweep wrote its own
is_suggested : MatchStatus → Bool
is_suggested MatchStatus.suggested = true
is_suggested _ = false

has_suggestion : ℕ → ℕ → List ReconciliationMatch → Bool
unfolding is_suggested
has_suggestion claim_id t matches =
    any_where (λ m. m.claim_id == claim_id && is_suggested m.status && m.transaction_id == t)
      matches

-- `for tx_id in decision.candidate_transaction_ids`
pub add_suggestions : ℕ → String → List ReconciliationMatch → List ℕ → Books → Books
unfolding has_suggestion
add_suggestions claim_id reason existing [] b = b
add_suggestions claim_id reason existing (t ∷ ts) b = add_suggestions claim_id reason existing ts (
    if has_suggestion claim_id t existing
    then b
    else add_match claim_id t MatchStatus.suggested reason none none none b)

-- `ids or None`
abbrev some_ids : List ℕ → Option (List ℕ)
some_ids [] = none
some_ids (t ∷ ts) = some (t ∷ ts)

-- `_record_suggestion`
unfoldable pub record_suggestion : ℕ → ℕ → Decision → Books → Books
unfolding add_suggestions
record_suggestion now claim_id decision b = elim (get_claim claim_id b) [
  | none ↦ b
  | some claim ↦
      add_suggestions claim_id (reason_text decision.reason) b.matches
        decision.candidate_transaction_ids
        (record b {
          claims =
              update_where (λ c. c.id == claim_id)
                (λ c. record c {
                  suspect_reason = some (reason_text decision.reason);
                  candidate_transaction_ids = some_ids decision.candidate_transaction_ids;
                  last_evaluated_at = some now;
                })
                b.claims;
        })
]

pub record Tally : Type 0 where
  pub evaluated : ℕ
  pub auto_verified : ℕ
  pub suggested : ℕ
  pub waiting : ℕ

abbrev pub no_tally : Tally
no_tally = record { evaluated = 0; auto_verified = 0; suggested = 0; waiting = 0 }

-- the body of the loop, by the verdict; `claim` is the row that was loaded before the loop
pub settle_one : ℕ → ℕ → Bool → PaymentClaim → Verdict → Decision → Books × Tally → Books × Tally
settle_one now clock notify claim Verdict.auto_verify decision (b, n) =
    let (b', done) = auto_verify now clock notify claim decision b in
    (b', if done then record n { auto_verified = n.auto_verified + 1 } else n)
settle_one now clock notify claim Verdict.suggest decision (b, n) =
    (record_suggestion now claim.id decision b, record n { suggested = n.suggested + 1 })
settle_one now clock notify claim Verdict.wait decision (b, n) =
    (record_suggestion now claim.id decision b, record n { waiting = n.waiting + 1 })

-- `for claim_id, decision in decisions.items()`; `by_id` holds every id that the matcher was given
pub settle_all :
    ℕ → ℕ → Bool → List PaymentClaim → List (ℕ × Decision) → Books × Tally → Books × Tally
unfolding settle_one
settle_all now clock notify rows [] s = s
settle_all now clock notify rows ((i, decision) ∷ decisions) s =
    settle_all now clock notify rows decisions (elim (find_where (λ c. c.id == i) rows) [
      | none ↦ s
      | some claim ↦ settle_one now clock notify claim decision.decision decision s
    ])

count_decisions : List (ℕ × Decision) → ℕ
count_decisions [] = 0
count_decisions (d ∷ ds) = count_decisions ds + 1

-- what the matcher decides on loaded rows
abbrev pub decisions : ℕ → Books → List PaymentClaim → List (ℕ × Decision)
decisions now b rows = evaluate (map (to_claim b) rows) (loaded_credits b rows) now

-- the sweep from the rows that `_load` found
settle_rows : ℕ → ℕ → Books → List PaymentClaim → Books × Tally
unfolding settle_all count_decisions
settle_rows now clock b [] = (b, no_tally)
settle_rows now clock b (c ∷ rows) =
    let ds = decisions now b (c ∷ rows) in
    settle_all now clock b.customers_enabled (c ∷ rows) ds
      (b, record no_tally { evaluated = count_decisions ds })

unfoldable pub settle : ℕ → ℕ → Books → Books × Tally
unfolding settle_rows
settle now clock b = settle_rows now clock b (open_rows b)
