-- ===== src/Desk/Trail.antt =====
-- The audit trail of the desk: nothing is committed without its row.
use alo_bot_dashboard.Prelude.{ℕ, ◌≡◌, done, Ensures}
use alo_bot_dashboard.Audit.{Actor}
use alo_bot_dashboard.Books.{Books}
use alo_bot_dashboard.Review.Trail.{
  IsLogged, approve-IsLogged, verify-IsLogged, reject-IsLogged, fake-IsLogged, park-IsLogged,
  unpark-IsLogged, reopen-IsLogged, message-IsLogged,
}
use alo_bot_dashboard.Desk.{Action, run}

run-IsLogged :
    (actor : Actor) (now i : ℕ) (a : Action) (b : Books)
    → Ensures (IsLogged actor i b) (run actor now i a b)
unfolding run
run-IsLogged actor now i (Action.approve t) b = approve-IsLogged actor now i b t
run-IsLogged actor now i (Action.verify note) b = verify-IsLogged actor now i b note
run-IsLogged actor now i (Action.reject note) b = reject-IsLogged actor now i b note
run-IsLogged actor now i (Action.fake note) b = fake-IsLogged actor now i b note
run-IsLogged actor now i Action.park b = park-IsLogged actor now i b
run-IsLogged actor now i Action.unpark b = unpark-IsLogged actor now i b
run-IsLogged actor now i Action.reopen b = reopen-IsLogged actor now i b
run-IsLogged actor now i (Action.message template clock) b =
    message-IsLogged actor now i b template clock

-- Every action that is committed adds exactly one row to the audit log, which names the operator,
-- the claim, and the status that the claim had before.
pub committed-IsLogged :
    (actor : Actor) (now i : ℕ) (a : Action) (b b' : Books)
    → run actor now i a b ≡ done b'
    → IsLogged actor i b b'
committed-IsLogged actor now i a b b' e = (run-IsLogged actor now i a b).at b' e
