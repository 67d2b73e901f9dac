-- ===== src/Desk/Once.antt =====
-- A decision of the desk lands once: a claim that one operator has decided refuses the next decision.
use alo_bot_dashboard.Prelude.{ℕ, ◌≡◌, true, arith, done, refused, Ensures}
use alo_bot_dashboard.Audit.{Actor}
use alo_bot_dashboard.Books.{Books}
use alo_bot_dashboard.Books.Invariant.{IsConsistent}
use alo_bot_dashboard.Review.{already_decided}
use alo_bot_dashboard.Review.Closing.{
  IsDecided, approve-IsDecided, verify-IsDecided, reject-IsDecided, fake-IsDecided, approve_refused,
  verify_refused, reject_refused, fake_refused,
}
use alo_bot_dashboard.Desk.{Action, run, decides}

module _ (actor : Actor) (now : ℕ) where
  run-IsDecided :
      (i : ℕ) (a : Action) (b : Books)
      → IsConsistent b
      → decides a ≡ true
      → Ensures (IsDecided i) (run actor now i a b)
  unfolding run decides
  run-IsDecided i (Action.approve t) b k d = approve-IsDecided actor now i b (k.unique_ids i) t
  run-IsDecided i (Action.verify note) b k d = verify-IsDecided actor now i b (k.unique_ids i) note
  run-IsDecided i (Action.reject note) b k d = reject-IsDecided actor now i b (k.unique_ids i) note
  run-IsDecided i (Action.fake note) b k d = fake-IsDecided actor now i b (k.unique_ids i) note
  run-IsDecided i Action.park b k d = absurd (cc)
  run-IsDecided i Action.unpark b k d = absurd (cc)
  run-IsDecided i Action.reopen b k d = absurd (cc)
  run-IsDecided i (Action.message template clock) b k d = absurd (cc)

  run-refused :
      (i : ℕ) (a : Action) (b : Books)
      → IsDecided i b
      → decides a ≡ true
      → run actor now i a b ≡ refused already_decided
  unfolding run decides
  run-refused i (Action.approve t) b c d = approve_refused actor now i b c t
  run-refused i (Action.verify note) b c d = verify_refused actor now i b c note (ground (arith, d))
  run-refused i (Action.reject note) b c d = reject_refused actor now i b c note
  run-refused i (Action.fake note) b c d = fake_refused actor now i b c note
  run-refused i Action.park b c d = absurd (cc)
  run-refused i Action.unpark b c d = absurd (cc)
  run-refused i Action.reopen b c d = absurd (cc)
  run-refused i (Action.message template clock) b c d = absurd (cc)

-- In consistent books, once a decision on a claim has been committed (an approval, a manual
-- verification with a note, a rejection or a fake mark), every decision on that claim by anyone is
-- refused as already decided, so that it lands once.
pub decided_once :
    (first second : Actor) (now later i : ℕ) (a a' : Action) (b b' : Books)
    → IsConsistent b
    → decides a ≡ true
    → run first now i a b ≡ done b'
    → decides a' ≡ true
    → run second later i a' b' ≡ refused already_decided
decided_once first second now later i a a' b b' k d e d' =
    run-refused second later i a' b' ((run-IsDecided first now i a b k d).at b' e) d'
