-- ===== src/Review.antt =====
-- services/review.py: what an operator may do to a claim. Each action takes the committed books to
-- the next committed books, or refuses with one of the sentences of `ReviewError` and commits
-- nothing. An action names its own actor and moment.
pub mod Actions
pub mod Reopening
pub mod Closing
pub mod Approval
pub mod Freed
pub mod Trail
use alo_bot_dashboard.Prelude.{
  ℕ, ◌+◌, Bool, true, false, not, ◌&&◌, String, Option, none, some, List, [], ◌∷◌, ◌==◌,
  if◌then◌else◌, str_append, str_eq, print, strip, is_blank, find_where, update_where, Result, done,
  refused, ◌>>=◌, ◌>>◌, require, or_refuse,
}
use alo_bot_dashboard.Model.{
  ClaimStatus, MatchStatus, Direction, is_open, is_settling, is_credit, claim_status_text,
}
use alo_bot_dashboard.Messages.{contact_support_body, receipt_unclear_body, amount_mismatch_body}
use alo_bot_dashboard.Audit.{Json, Fields, AuditRow, Actor, audit_row, single, two, optional_text}
use alo_bot_dashboard.Matcher.{delta_seconds}
use alo_bot_dashboard.Outbox.{Payload, enqueue}
use alo_bot_dashboard.Books.{
  PaymentClaim, ReconciliationMatch, Transaction, Books, get_claim, get_transaction,
  insert_settling, update_claim, settles_claim,
}

-- the sentences of `ReviewError`, by what they say
pub data ReviewError : Type 0 where
  no_such_claim already_decided no_such_credit transaction_taken reason_needed : ReviewError
  already_open no_such_template customers_off : ReviewError

abbrev pub Outcome {ℓ} : Type ℓ → Type ℓ
Outcome A = Result ReviewError A

-- `_lock`
pub lock : ℕ → Books → Outcome PaymentClaim
lock claim_id b = or_refuse (get_claim claim_id b) no_such_claim

-- a row of the audit log, in the transaction of the write
pub log : AuditRow → Books → Books
log row b = record b { audit = row ∷ b.audit }

pub claim_audit : Actor → String → PaymentClaim → Option Json → AuditRow
unfolding audit_row print claim_status_text
claim_audit actor action claim after =
    audit_row actor action "payment_claim" (print claim.id)
      (some (single "status" (Json.text (claim_status_text claim.status)))) after

abbrev is_pending : ClaimStatus → Bool
is_pending ClaimStatus.pending = true
is_pending _ = false

-- the values that `_transition` writes; `note` is written where one is given
unfoldable pub transition_values :
    ClaimStatus → ℕ → Actor → Bool → Option String → PaymentClaim → PaymentClaim
transition_values to now actor verified note c = record c {
  status = to;
  decided_at = some now;
  decided_by = some actor.email;
  verified_at = if verified then some now else none;
  verified_by = if verified then some actor.email else none;
  note = elim note [ none ↦ c.note | some n ↦ some n ];
  suspect_reason = if is_pending to then c.suspect_reason else none;
}

-- `_transition`
pub transition :
    ℕ
    → ClaimStatus
    → (ClaimStatus → Bool)
    → ℕ
    → Actor
    → Bool
    → Option String
    → Books
    → Outcome Books
transition claim_id to allowed now actor verified note b =
    let (b', rowcount) =
      update_claim claim_id allowed (transition_values to now actor verified note) b in
    if not (rowcount == 1) then refused already_decided else done b'

-- an incoming transaction; any other, or none, is refused
pub incoming : Option Transaction → Outcome Transaction
unfolding is_credit
incoming none = refused no_such_credit
incoming (some tx) = if is_credit tx.direction then done tx else refused no_such_credit

unfoldable pub approve_with_transaction : Actor → ℕ → ℕ → ℕ → Books → Outcome Books
unfolding lock incoming transition log claim_audit
approve_with_transaction actor claim_id transaction_id now b = do
  claim ← lock claim_id b
  require (is_open claim.status) already_decided
  tx ← incoming (get_transaction transaction_id b)
  flushed ←
      or_refuse
        (insert_settling claim.id tx.id MatchStatus.confirmed "operator"
          (delta_seconds tx.bank_timestamp claim.paid_clicked_at) (some actor.email) (some now) b)
        transaction_taken
  moved ← transition claim.id ClaimStatus.manual_verified is_open now actor true none flushed
  done (
      log
        (claim_audit actor "claim.approve" claim
          (some (two "status" (Json.text "MANUAL_VERIFIED") "transaction_id" (Json.num tx.id))))
        moved)

unfoldable pub verify_manually : Actor → ℕ → String → ℕ → Books → Outcome Books
unfolding lock transition log claim_audit strip
verify_manually actor claim_id note now b = do
  require (not (is_blank (strip note))) reason_needed
  claim ← lock claim_id b
  moved ←
      transition claim.id ClaimStatus.manual_verified is_open now actor true (some (strip note)) b
  done (
      log
        (claim_audit actor "claim.verify_manual" claim
          (some (two "status" (Json.text "MANUAL_VERIFIED") "note" (Json.text (strip note)))))
        moved)

-- `note.strip() or None`
unfoldable pub some_note : String → Option String
unfolding strip
some_note note = if is_blank (strip note) then none else some (strip note)

-- `_decide`
pub decide : Actor → ℕ → ClaimStatus → String → ℕ → String → Books → Outcome Books
unfolding lock transition log claim_audit claim_status_text optional_text some_note
decide actor claim_id to note now action b = do
  claim ← lock claim_id b
  moved ← transition claim.id to is_open now actor false (some_note note) b
  done (
      log
        (claim_audit actor action claim (
          some (
            two "status" (Json.text (claim_status_text to)) "note"
              (optional_text (some_note note)))))
        moved)

unfoldable pub reject : Actor → ℕ → String → ℕ → Books → Outcome Books
unfolding decide
reject actor claim_id note now b =
    decide actor claim_id ClaimStatus.rejected note now "claim.reject" b

unfoldable pub mark_fake : Actor → ℕ → String → ℕ → Books → Outcome Books
unfolding decide
mark_fake actor claim_id note now b = decide actor claim_id ClaimStatus.fake note now "claim.fake" b

-- an attribute of the locked row, written at the commit
pub set_claim : ℕ → (PaymentClaim → PaymentClaim) → Books → Books
set_claim i f b = record b { claims = update_where (λ c. c.id == i) f b.claims }

unfoldable pub park : Actor → ℕ → ℕ → Books → Outcome Books
unfolding lock log claim_audit set_claim
park actor claim_id now b = do
  claim ← lock claim_id b
  require (is_open claim.status) already_decided
  done (
      log (claim_audit actor "claim.park" claim none)
        (set_claim claim.id (λ c. record c { parked_at = some now }) b))

unfoldable pub unpark : Actor → ℕ → Books → Outcome Books
unfolding lock log claim_audit set_claim
unpark actor claim_id b = do
  claim ← lock claim_id b
  done (
      log (claim_audit actor "claim.unpark" claim none)
        (set_claim claim.id (λ c. record c { parked_at = none }) b))

-- `status IN ('MANUAL_VERIFIED', 'AUTO_VERIFIED', 'REJECTED', 'FAKE')`
unfoldable pub is_decided : ClaimStatus → Bool
is_decided ClaimStatus.manual_verified = true
is_decided ClaimStatus.auto_verified = true
is_decided ClaimStatus.rejected = true
is_decided ClaimStatus.fake = true
is_decided _ = false

-- the UPDATE of the claim's settling matches
pub free_matches : Actor → ℕ → ℕ → Books → Books
free_matches actor now claim_id b = record b {
  matches =
      update_where (settles_claim claim_id)
        (λ m. record m {
          status = MatchStatus.rejected;
          decided_by = some actor.email;
          decided_at = some now;
        })
        b.matches;
}

unfoldable pub reopen : Actor → ℕ → ℕ → Books → Outcome Books
unfolding lock log claim_audit transition free_matches
reopen actor claim_id now b = do
  claim ← lock claim_id b
  require (not (is_open claim.status)) already_open
  moved ←
      transition claim.id ClaimStatus.pending is_decided now actor false none
        (free_matches actor now claim.id b)
  done (
      log (claim_audit actor "claim.reopen" claim (some (single "status" (Json.text "PENDING"))))
        moved)

-- REVIEW_TEMPLATES: the body of a prepared message
pub template_body : String → Option String
unfolding contact_support_body receipt_unclear_body amount_mismatch_body
template_body template =
    if str_eq template "contact_support"
    then some contact_support_body
    else if str_eq template "receipt_unclear"
    then some receipt_unclear_body
    else if str_eq template "amount_mismatch"
    then some amount_mismatch_body
    else none

abbrev pub message_key : ℕ → String → String
message_key claim_id template =
    str_append "msg:" (str_append (print claim_id) (str_append ":" template))

pub send_template : ℕ → PaymentClaim → String → String → Books → Books
send_template clock claim template body b = record b {
  outbox =
      (enqueue (message_key claim.id template) claim.telegram_id
        (record { text = some body; parse_mode = some "HTML"; reply_markup = none }) clock
        b.outbox).0;
}

-- `message`; `clock` is the database's, by which the message is due
unfoldable pub message : Actor → ℕ → String → ℕ → ℕ → Books → Outcome Books
unfolding lock log claim_audit set_claim template_body send_template
message actor claim_id template now clock b = do
  body ← or_refuse (template_body template) no_such_template
  require b.customers_enabled customers_off
  claim ← lock claim_id b
  done (
      log (claim_audit actor "claim.message" claim (some (single "template" (Json.text template))))
        (set_claim claim.id
          (λ c. record c { messaged_at = some now; messaged_template = some template })
          (send_template clock claim template body b)))
