-- ===== src/Mirror.antt =====
-- services/claims.py and alobot/money.py: a claim for each pending card payment of the bot, and the
-- bot's own status followed on the claims that are known. The bot's database is read: `payments` are
-- its card payments and `setting` its card number; `code` is `encode_id`, `is_digit` is
-- `str.isdigit` of a character. The ids of the payments are unique, and a payment has an amount. A Toman amount has two decimals, and is given in hundredths.
use Prim.Native.Char.{code}
pub mod Synced
pub mod Twice
pub mod Known
use alo_bot_dashboard.Prelude.{
  ℕ, ◌+◌, ◌-◌, ◌/◌, ◌%◌, Bool, true, false, not, ◌&&◌, ◌||◌, String, Option, none, some, List, [],
  ◌∷◌, ◌==◌, if◌then◌else◌, str_eq, leb, is_none, is_some, is_blank, any_where, count_where,
  find_where, update_where, keep, length, Result, done, refused, ◌>>=◌,
}
use alo_bot_dashboard.Model.{ClaimStatus, is_open}
use alo_bot_dashboard.Books.{PaymentClaim, Books}

-- a row of the bot's payments, made by card
pub record Payment : Type 0 where
  pub id : ℕ
  pub telegram_id : ℕ
  pub purpose : Option String
  pub amount : ℕ
  pub ibsng_username : Option String
  pub receipt_file_id : Option String
  pub status : String
  pub created_at : ℕ
  pub resolved_at : Option ℕ
  pub invoice_number : Option String

-- PaymentCard, as far as it is read here
pub record Card : Type 0 where
  pub card_number : String
  pub account_id : ℕ

-- the ValueError of an amount that is not a whole number of Rial
pub data MoneyError : Type 0 where
  not_whole : MoneyError

-- `toman_to_rial`
unfoldable pub toman_to_rial : ℕ → Result MoneyError ℕ
toman_to_rial hundredths =
    if hundredths % 10 == 0 then done (hundredths / 10) else refused not_whole

-- `x or default`, of a text
unfoldable pub text_or : Option String → String → String
text_or none default = default
text_or (some t) default = if is_blank t then default else t

-- the digits of a text, the Persian ones translated
digits_of : (ℕ → Bool) → String → List ℕ
digits_of is_digit String.[] = []
digits_of is_digit (String.◌∷◌ ch s) =
    let c = if leb 1776 (code ch) && leb (code ch) 1785 then code ch - 1728 else code ch in
    let rest = digits_of is_digit s in if is_digit c then c ∷ rest else rest

-- `_alobot_card_number`; `spell` is the text of a list of code points
unfoldable pub alobot_card_number : (ℕ → Bool) → (List ℕ → String) → Option String → Option String
unfolding digits_of
alobot_card_number is_digit spell none = none
alobot_card_number is_digit spell (some value) =
    if is_blank value
    then none
    else if length (digits_of is_digit value) == 16
    then some (spell (digits_of is_digit value))
    else none

-- `_account_for_card`
unfoldable pub account_for_card : List Card → Option String → Option ℕ
account_for_card cards none = none
account_for_card cards (some number) = elim (find_where (λ c. str_eq c.card_number number) cards) [
  | none ↦ none
  | some card ↦ some card.account_id
]

-- the claims whose card was registered after they were mirrored
unfoldable pub lacks_account : List Card → PaymentClaim → Bool
unfolding account_for_card
lacks_account cards c =
    is_none c.target_account_id
    && elim c.target_card_number [ none ↦ false | some number ↦ not (is_blank number) ]
    && is_open c.status
    && is_some (account_for_card cards c.target_card_number)

unfoldable pub with_account : List Card → PaymentClaim → PaymentClaim
unfolding account_for_card
with_account cards c = record c { target_account_id = account_for_card cards c.target_card_number }

abbrev pub is_pending : String → Bool
is_pending status = str_eq status "pending"

abbrev pub for_payment : ℕ → PaymentClaim → Bool
for_payment pid c = c.alobot_payment_id == pid

-- the WHERE of the read: pending, or followed by a claim that is unresolved
unfoldable pub is_read : List PaymentClaim → Payment → Bool
is_read claims p =
    is_pending p.status || any_where (λ c. for_payment p.id c && is_pending c.alobot_status) claims

-- what the mirror adds and counts
pub record Mirrored : Type 0 where
  pub claims : List PaymentClaim
  pub next_claim_id : ℕ
  pub created : ℕ
  pub updated : ℕ

-- the card that payments go to now, and whether the continuity mode is on
pub record Terms : Type 0 where
  pub card_number : Option String
  pub account_id : Option ℕ
  pub continuity_on : Bool

-- a new claim
unfoldable pub new_claim : (ℕ → String) → Terms → Payment → ℕ → ℕ → PaymentClaim
unfolding text_or
new_claim code terms p rial id = record {
  id = id;
  alobot_payment_id = p.id;
  telegram_id = p.telegram_id;
  purpose = text_or p.purpose "purchase";
  expected_amount_irr = rial;
  ibsng_username = text_or p.ibsng_username "";
  invoice_code = some (text_or p.invoice_number (code p.id));
  target_card_number = terms.card_number;
  target_account_id = terms.account_id;
  paid_clicked_at = p.created_at;
  receipt_file_id = p.receipt_file_id;
  status = if terms.continuity_on then ClaimStatus.fulfilled_unreconciled else ClaimStatus.pending;
  alobot_status = p.status;
  alobot_resolved_at = none;
  continuity = terms.continuity_on;
  suspect_reason = none;
  candidate_transaction_ids = none;
  last_evaluated_at = none;
  verified_at = none;
  verified_by = none;
  decided_at = none;
  decided_by = none;
  parked_at = none;
  messaged_at = none;
  messaged_template = none;
  note = none;
}

-- a claim that follows this payment, with another status than the payment's
unfoldable pub differs : Payment → PaymentClaim → Bool
differs p c = for_payment p.id c && not (str_eq c.alobot_status p.status)

unfoldable pub follow : Payment → PaymentClaim → PaymentClaim
follow p c = record c { alobot_status = p.status; alobot_resolved_at = p.resolved_at }

-- a payment without a claim
unfoldable pub open_claim : (ℕ → String) → Terms → Payment → Mirrored → Result MoneyError Mirrored
unfolding new_claim toman_to_rial
open_claim code terms p m = do
  rial ← toman_to_rial p.amount
  done (record m {
    claims = new_claim code terms p rial m.next_claim_id ∷ m.claims;
    next_claim_id = m.next_claim_id + 1;
    created = m.created + 1;
  })

-- the body of the loop over the rows
unfoldable pub mirror_row : (ℕ → String) → Terms → Payment → Mirrored → Result MoneyError Mirrored
unfolding open_claim differs follow
mirror_row code terms p m =
    if any_where (for_payment p.id) m.claims
    then done (record m {
      claims = update_where (differs p) (follow p) m.claims;
      updated = m.updated + count_where (differs p) m.claims;
    })
    else if is_pending p.status
    then open_claim code terms p m
    else done m

unfoldable pub mirror_rows :
    (ℕ → String) → Terms → List Payment → Mirrored → Result MoneyError Mirrored
unfolding mirror_row
mirror_rows code terms [] m = done m
mirror_rows code terms (p ∷ ps) m = mirror_row code terms p m >>= λ m'. mirror_rows code terms ps m'

-- the claims after the accounts were resolved
abbrev pub resolve : List Card → List PaymentClaim → List PaymentClaim
resolve cards claims = update_where (lacks_account cards) (with_account cards) claims

-- `mirror_claims` while the bot's database is linked: the tables and the three counts
unfoldable pub mirror_claims :
    (ℕ → String)
    → List Card
    → Option String
    → Bool
    → List Payment
    → ℕ
    → List PaymentClaim
    → Result MoneyError (Mirrored × ℕ)
unfolding is_read mirror_rows lacks_account with_account account_for_card
mirror_claims code cards card_number continuity_on payments next claims = do
  m ←
      mirror_rows code
        (record {
          card_number = card_number;
          account_id = account_for_card cards card_number;
          continuity_on = continuity_on;
        })
        (keep (is_read claims) payments)
        (record { claims = resolve cards claims; next_claim_id = next; created = 0; updated = 0 })
  done (m, count_where (lacks_account cards) claims)
