-- ===== src/Desk.antt =====
-- The review desk: the actions of services/review.py as one type, which run between the writes of
-- the sweep of services/settle.py on the same books.
pub mod Reach
pub mod Once
pub mod Trail
use alo_bot_dashboard.Prelude.{
  ℕ, Bool, true, false, String, Option, none, some, strip, is_blank, not,
}
use alo_bot_dashboard.Audit.{Actor}
use alo_bot_dashboard.Books.{Books}
use alo_bot_dashboard.Review
use alo_bot_dashboard.Review.{Outcome}

-- an action on a claim, with what the operator enters; a message has the database's clock
pub data Action : Type 0 where
  approve : ℕ → Action
  verify : String → Action
  reject fake : String → Action
  park unpark reopen : Action
  message : String → ℕ → Action

unfoldable pub run : Actor → ℕ → ℕ → Action → Books → Outcome Books
run actor now claim_id (Action.approve t) b = Review.approve_with_transaction actor claim_id t now b
run actor now claim_id (Action.verify note) b = Review.verify_manually actor claim_id note now b
run actor now claim_id (Action.reject note) b = Review.reject actor claim_id note now b
run actor now claim_id (Action.fake note) b = Review.mark_fake actor claim_id note now b
run actor now claim_id Action.park b = Review.park actor claim_id now b
run actor now claim_id Action.unpark b = Review.unpark actor claim_id b
run actor now claim_id Action.reopen b = Review.reopen actor claim_id now b
run actor now claim_id (Action.message template clock) b =
    Review.message actor claim_id template now clock b

-- the actions that decide an open claim, the note of a manual verification given
unfoldable pub decides : Action → Bool
unfolding strip
decides (Action.approve t) = true
decides (Action.verify note) = not (is_blank (strip note))
decides (Action.reject note) = true
decides (Action.fake note) = true
decides _ = false
