-- ===== src/Transactions/Filing.antt =====
-- The order of the inbox under what phones send and what operators correct, in any sequence.
use alo_bot_dashboard.Prelude.{ℕ, ◌≡◌, Bool, String, Option, done}
use alo_bot_dashboard.Model.{Disposition}
use alo_bot_dashboard.Audit.{Actor}
use alo_bot_dashboard.Accounts.{Registry}
use alo_bot_dashboard.Inbox.{Inbox, Outside}
use alo_bot_dashboard.Inbox.Stamp.{IngestOutcome}
use alo_bot_dashboard.Inbox.Receive.{Delivery, Seen, ingest}
use alo_bot_dashboard.Inbox.Filed.{IsFiled, ingest-IsFiled}
use alo_bot_dashboard.Transactions.{assign_account, set_disposition, reparse_unparsed, Reparsed}
use alo_bot_dashboard.Transactions.Filed.{assign-IsFiled, dispose-IsFiled}
use alo_bot_dashboard.Transactions.Rerun.{reparse-IsFiled}

-- One committed write. A message's key and account were looked up in `early`, which may be another state
-- than the one that its rows are written to; so may be what `lookup` gives of the registry.
pub data Write : Inbox → Inbox → Type 0 where
  arrived :
      (o : Outside) (d : Delivery) (early : Seen) (s : Inbox) (x : Inbox × IngestOutcome)
      → ingest o d early s ≡ done x
      → Write s (x.0)
  assigned :
      (actor : Actor) (i : ℕ) (account : Option ℕ) (s s' : Inbox)
      → assign_account actor i account s ≡ done s'
      → Write s s'
  disposed :
      (actor : Actor) (i : ℕ) (d : Option Disposition) (note : String) (s s' : Inbox)
      → set_disposition actor i d note s ≡ done s'
      → Write s s'
  reread :
      (o : Outside) (lookup : Registry → Registry) (actor : Actor) (apply : Bool) (s : Inbox)
      (x : Reparsed)
      → reparse_unparsed o lookup actor apply s ≡ done x
      → Write s x.inbox

pub data Filing (start : Inbox) : Inbox → Type 0 where
  here : Filing start start
  next : {s s' : Inbox} → Filing start s → Write s s' → Filing start s'

Write-IsFiled : {s s' : Inbox} → Write s s' → IsFiled s → IsFiled s'
Write-IsFiled (arrived o d early s x e) h = (ingest-IsFiled o d early s h).at x e
Write-IsFiled (assigned actor i account s s' e) h = (assign-IsFiled actor i account s h).at s' e
Write-IsFiled (disposed actor i d note s s' e) h = (dispose-IsFiled actor i d note s h).at s' e
Write-IsFiled (reread o lookup actor apply s x e) h =
    (reparse-IsFiled o lookup actor apply s h).at x e

-- After any sequence of messages that arrive, accounts that are assigned, dispositions and runs of the
-- parser over the unknown messages, from an inbox in order, the inbox is in order: no two events share a
-- deduplication key or an id, every event's id is below the next one, no event has two transactions, and
-- every transaction belongs to an event that is classified as a bank transaction or a balance.
pub Filing-IsFiled : {s s' : Inbox} → Filing s s' → IsFiled s → IsFiled s'
Filing-IsFiled here h = h
Filing-IsFiled (next r w) h = Write-IsFiled w (Filing-IsFiled r h)
