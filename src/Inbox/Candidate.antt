-- ===== src/Inbox/Candidate.antt =====
-- `persist_candidate` of services/ingest.py: the row of what was read out of an event.
use alo_bot_dashboard.Prelude.{
  ℕ, ◌+◌, Bool, true, false, not, ◌&&◌, String, Option, none, some, List, ◌∷◌, ◌==◌, if◌then◌else◌,
  is_some, is_blank, Result, done, require, ◌>>=◌, ◌>>◌, update_where,
}
use alo_bot_dashboard.Model.{AccountStatus, Direction, Disposition}
use alo_bot_dashboard.Unicode.{to_string}
use alo_bot_dashboard.Sms.{Classification, ParseResult}
use alo_bot_dashboard.Accounts.{FinancialAccount, Registry}
use alo_bot_dashboard.Inbox.{TransactionCandidate, Inbox, IngestError, candidate_fits}
use alo_bot_dashboard.Inbox.Resolve.{Resolved, resolve_account, infer_owner_by_balance_chain}

text_or : Option String → String → String
text_or none d = d
text_or (some s) d = if is_blank s then d else s

-- `result.bank_name or (account.bank_name if account and not created else None)`
bank_of : Option String → Resolved → Option String
bank_of (some s) r =
    if is_blank s
    then (elim r.account [ none ↦ none | some a ↦ if r.created then none else some a.bank_name ])
    else some s
bank_of none r = elim r.account [
  | none ↦ none
  | some a ↦ if r.created then none else some a.bank_name
]

is_moving : Direction → Bool
is_moving Direction.credit = true
is_moving Direction.debit = true
is_moving Direction.unknown = false

-- the balance-chain guess, where the account was made for this message
unfoldable pub inferred_owner : ParseResult → ℕ → List TransactionCandidate → Resolved → Option ℕ
unfolding is_moving infer_owner_by_balance_chain
inferred_owner p before ts r = if not r.created then none else elim r.account [
  | none ↦ none
  | some a ↦ elim p.amount_irr [
    | none ↦ none
    | some amount ↦ elim p.balance_irr [
      | none ↦ none
      | some balance ↦
          if is_moving p.direction
          then infer_owner_by_balance_chain a.id p.direction amount balance before ts
              r.registry.accounts
          else none
    ]
  ]
]

-- `account.inferred_from_account_id = inferred`
unfoldable pub note_owner_of : ℕ → Option FinancialAccount → Registry → Registry
note_owner_of i none r = r
note_owner_of i (some a) r = record r {
  accounts =
      update_where (λ x. x.id == a.id) (λ x. record x { inferred_from_account_id = some i })
        r.accounts;
}

unfoldable pub note_owner : Option ℕ → Resolved → Registry
unfolding note_owner_of
note_owner none r = r.registry
note_owner (some i) r = note_owner_of i r.account r.registry

is_active_account : Option FinancialAccount → Bool
is_active_account none = false
is_active_account (some a) = elim a.status [ AccountStatus.active ↦ true | _ ↦ false ]

unfoldable pub is_actionable_result : ParseResult → Option FinancialAccount → Bool
unfolding is_active_account
is_actionable_result p account =
    (elim p.classification [ Classification.bank_transaction ↦ true | _ ↦ false ])
    && (elim p.direction [ Direction.credit ↦ true | _ ↦ false ])
    && is_some p.amount_irr
    && is_active_account account

unfoldable pub resolved_for : ParseResult → Registry → Inbox → Result IngestError Resolved
unfolding resolve_account
resolved_for p seen s =
    resolve_account (elim p.account_hint [ none ↦ none | some h ↦ some (to_string h) ])
      (elim p.evidence.is_card [ none ↦ false | some b ↦ b ]) p.bank_name seen s.registry

-- the row of a parsed event
unfoldable pub new_candidate : ℕ → ParseResult → ℕ → Option ℕ → Resolved → ℕ → TransactionCandidate
unfolding text_or bank_of
new_candidate event_id p at inferred r id = record {
  id = id;
  sms_event_id = event_id;
  account_id = elim r.account [ none ↦ none | some a ↦ some a.id ];
  inferred_account_id = inferred;
  direction = p.direction;
  amount_irr = p.amount_irr;
  balance_irr = p.balance_irr;
  reference = elim p.reference [ none ↦ none | some t ↦ some (to_string t) ];
  account_hint = elim p.account_hint [ none ↦ none | some t ↦ some (to_string t) ];
  bank_name = bank_of p.bank_name r;
  bank_timestamp = some at;
  confidence = p.confidence;
  parser_id = elim p.parser_id [ none ↦ "unknown" | some s ↦ text_or (some s) "unknown" ];
  parser_version = elim p.parser_version [ none ↦ "0" | some s ↦ text_or (some s) "0" ];
  evidence = p.evidence;
  disposition = Disposition.actionable;
  disposition_note = none;
}

-- `persist_candidate`, with the registry that the lookup of the account reads: the state, the row and whether it is actionable
unfoldable pub persist_candidate :
    ℕ
    → ParseResult
    → ℕ
    → Registry
    → Inbox
    → Result IngestError (Inbox × TransactionCandidate × Bool)
unfolding resolved_for inferred_owner note_owner new_candidate is_actionable_result candidate_fits
persist_candidate event_id p at seen s = do
  r ← resolved_for p seen s
  let inferred = inferred_owner p at s.transactions r
  let t = new_candidate event_id p at inferred r s.next_transaction_id
  require (candidate_fits t) IngestError.data_error
  done (
    record s {
      registry = note_owner inferred r;
      transactions = t ∷ s.transactions;
      next_transaction_id = s.next_transaction_id + 1;
    },
    t,
    is_actionable_result p r.account,
  )
