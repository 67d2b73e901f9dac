-- ===== src/Desk/Reach.antt =====
-- The sweep and the operators interleaved: what holds after any sequence of their writes.
use alo_bot_dashboard.Prelude.{ℕ, ◌≡◌, Bool, done}
use alo_bot_dashboard.Audit.{Actor}
use alo_bot_dashboard.Matcher.{Decision}
use alo_bot_dashboard.Books.{PaymentClaim, Books}
use alo_bot_dashboard.Books.Invariant.{IsConsistent}
use alo_bot_dashboard.Settle.{auto_verify, record_suggestion}
use alo_bot_dashboard.Settle.Sweep.{auto_verify-IsConsistent, record_suggestion-IsConsistent}
use alo_bot_dashboard.Review.Actions.{
  Keeps, approve_with_transaction-Keeps, verify_manually-Keeps, reject-Keeps, mark_fake-Keeps,
  park-Keeps, unpark-Keeps, message-Keeps,
}
use alo_bot_dashboard.Review.Reopening.{reopen-Keeps}
use alo_bot_dashboard.Desk.{Action, run}

-- One committed write. A sweep commits claim by claim, with a row and a decision that it made
-- earlier, perhaps on other books.
pub data Step : Books → Books → Type 0 where
  verified :
      (now clock : ℕ) (notify : Bool) (claim : PaymentClaim) (d : Decision) (b : Books)
      → Step b (auto_verify now clock notify claim d b).0
  suggested : (now i : ℕ) (d : Decision) (b : Books) → Step b (record_suggestion now i d b)
  acted :
      (actor : Actor) (now i : ℕ) (a : Action) (b b' : Books)
      → run actor now i a b ≡ done b'
      → Step b b'

pub data Reach (start : Books) : Books → Type 0 where
  here : Reach start start
  next : {b b' : Books} → Reach start b → Step b b' → Reach start b'

run-Keeps :
    (actor : Actor) (now i : ℕ) (a : Action) (b : Books)
    → IsConsistent b
    → Keeps (run actor now i a b)
unfolding run
run-Keeps actor now i (Action.approve t) b k = approve_with_transaction-Keeps actor now i t b k
run-Keeps actor now i (Action.verify note) b k = verify_manually-Keeps actor now i note b k
run-Keeps actor now i (Action.reject note) b k = reject-Keeps actor now i note b k
run-Keeps actor now i (Action.fake note) b k = mark_fake-Keeps actor now i note b k
run-Keeps actor now i Action.park b k = park-Keeps actor now i b k
run-Keeps actor now i Action.unpark b k = unpark-Keeps actor now i b k
run-Keeps actor now i Action.reopen b k = reopen-Keeps actor now i b k
run-Keeps actor now i (Action.message template clock) b k =
    message-Keeps actor now i template clock b k

Step-IsConsistent : {b b' : Books} → Step b b' → IsConsistent b → IsConsistent b'
Step-IsConsistent (verified now clock notify claim d b) k =
    auto_verify-IsConsistent now clock notify claim d b k
Step-IsConsistent (suggested now i d b) k = record_suggestion-IsConsistent now i d b k
Step-IsConsistent (acted actor now i a b b' e) k = (run-Keeps actor now i a b k).at b' e

-- After any interleaving of the writes of sweeps and of operators, from consistent books, the books
-- are consistent: a credit settles at most one claim, claim ids are unique, and each claim has as
-- many settling matches as its status says.
pub Reach-IsConsistent : {b b' : Books} → Reach b b' → IsConsistent b → IsConsistent b'
Reach-IsConsistent here k = k
Reach-IsConsistent (next r s) k = Step-IsConsistent s (Reach-IsConsistent r k)
