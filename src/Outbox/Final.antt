-- ===== src/Outbox/Final.antt =====
-- A message is not retried for ever.
use alo_bot_dashboard.Prelude.{
  ℕ, ◌+◌, ◌≤◌, ◌≡◌, ◌≢◌, refl, inl, inr, Bool, true, false, Option, none, some, List, [], ◌∷◌,
  String, arith, ◌==◌, ==_iff, All, All-update, All-keep, All-mono, All-both, All-take, All-sort_by,
  any_where, Bool-cases,
}
use alo_bot_dashboard.Telegram.{SendResult}
use alo_bot_dashboard.Pace.{Pause, is_paused}
use alo_bot_dashboard.Outbox.Change.{change, rows-deliver}
use alo_bot_dashboard.Outbox.Leases.{IsCharged, flush-IsCharged}
use alo_bot_dashboard.Outbox.{
  NotificationStatus, Notification, Sending, max_attempts, lease, due, batch, has_id, claim_batch,
  retry_time, deliver, deliver_all, flush, is_pending,
}

-- the row with the id has had so many attempts, if it is pending
abbrev pub HasTried : ℕ → ℕ → Notification → Type 0
HasTried i k m = m.id ≡ i → m.status ≡ NotificationStatus.pending → k ≤ m.attempt_count

-- ... as it was claimed
abbrev Claimed : ℕ → ℕ → Notification → Type 0
Claimed i k n = n.id ≡ i → k ≤ n.attempt_count

pending_of : (s : NotificationStatus) → is_pending s ≡ true → s ≡ NotificationStatus.pending
unfolding is_pending
pending_of NotificationStatus.pending h = refl
pending_of NotificationStatus.sent h = absurd (cc)
pending_of NotificationStatus.failed h = absurd (cc)
pending_of NotificationStatus.dead h = absurd (cc)

due-pending :
    (locked : ℕ → Bool) (now : ℕ) (n : Notification)
    → due locked now n ≡ true
    → n.status ≡ NotificationStatus.pending
unfolding due
due-pending locked now n h = pending_of n.status (ground (arith, h))

module _ (i k : ℕ) where
  batch-Claimed :
      (locked : ℕ → Bool) (now limit : ℕ) (rows : List Notification)
      → All (HasTried i k) rows
      → All (Claimed i k) (batch locked now limit rows)
  batch-Claimed locked now limit rows h = All-take _ limit _ (
      All-sort_by _ (λ n. n.id) _
        (All-mono _ _ _ (λ n e own. e.0 own (due-pending locked now n e.1))
          (All-keep (HasTried i k) (due locked now) rows h)))

All-zero : (i : ℕ) (ns : List Notification) → All (HasTried i 0) ns
All-zero i [] = tt
All-zero i (n ∷ ns) = (λ own waits. omega arith, All-zero i ns)

module _ (error_text : SendResult → String) (now i : ℕ) where
  -- a delivery of any row
  deliver-HasTried :
      (k : ℕ) (r : SendResult) (n : Notification) (s : Sending)
      → (n.id ≡ i → k ≤ n.attempt_count + 1)
      → All (HasTried i k) s.rows
      → All (HasTried i k) (deliver error_text now r n s).rows
  unfolding change
  deliver-HasTried k r n s claimed h = rw (rows-deliver error_text now) (
      All-update (HasTried i k) (HasTried i k) (λ m. m.id == n.id) (change error_text now r n)
        s.rows (λ m t. λ own waits. ground arith) h)

  -- ... and of the row itself, which counts, unless it is rate limited
  deliver-counts :
      (k : ℕ) (r : SendResult) (n : Notification) (s : Sending)
      → n.id ≡ i
      → k ≤ n.attempt_count
      → retry_time r.retry_after ≡ none
      → All (HasTried i k) s.rows
      → All (HasTried i (k + 1)) (deliver error_text now r n s).rows
  unfolding change
  deliver-counts k r n s own claimed free h = rw (rows-deliver error_text now) (
      All-update (HasTried i k) (HasTried i (k + 1)) (λ m. m.id == n.id) (change error_text now r n)
        s.rows (λ m t. λ own' waits. ground arith) h)

  deliver_all-HasTried :
      (k : ℕ) (api : Notification → SendResult) (ns : List Notification) (s : Sending)
      → All (λ n. n.id ≡ i → k ≤ n.attempt_count + 1) ns
      → All (HasTried i k) s.rows
      → All (HasTried i k) (deliver_all error_text now api ns s).rows
  unfolding deliver_all
  deliver_all-HasTried k api [] s claimed h = h
  deliver_all-HasTried k api (n ∷ ns) s claimed h =
      deliver_all-HasTried k api ns (deliver error_text now (api n) n s) claimed.1
        (deliver-HasTried k (api n) n s claimed.0 h)

  deliver_all-counts :
      (k : ℕ) (api : Notification → SendResult) (ns : List Notification) (s : Sending)
      → ((n : Notification) → n.id ≡ i → retry_time (api n).retry_after ≡ none)
      → has_id i ns ≡ true
      → All (Claimed i k) ns
      → All (HasTried i k) s.rows
      → All (HasTried i (k + 1)) (deliver_all error_text now api ns s).rows
  unfolding deliver_all any_where
  deliver_all-counts k api [] s free there claimed h = cc
  deliver_all-counts k api (n ∷ ns) s free there claimed h = elim (Bool-cases (n.id == i)) [
    | inl mine ↦
        let own : n.id ≡ i = (==_iff n.id i).0 mine in
        deliver_all-HasTried (k + 1) api ns (deliver error_text now (api n) n s)
          (All-mono _ _ ns (λ m c e. omega (arith, c e)) claimed.1)
          (deliver-counts k (api n) n s own (claimed.0 own) (free n own) h)
    | inr other ↦
        deliver_all-counts k api ns (deliver error_text now (api n) n s) free (rw other at there)
          claimed.1 (deliver-HasTried k (api n) n s (λ e. omega (arith, claimed.0 e)) h)
  ]

  claim-HasTried :
      (k : ℕ) (locked : ℕ → Bool) (limit : ℕ) (rows : List Notification)
      → All (HasTried i k) rows
      → All (HasTried i k) (claim_batch locked now limit rows)
  unfolding claim_batch
  claim-HasTried k locked limit rows h =
      All-update (HasTried i k) (HasTried i k) (λ n. has_id n.id (batch locked now limit rows))
        (λ n. record n { next_attempt_at = now + lease }) rows (λ m t own waits. ground arith) h

  flush-HasTried :
      (k : ℕ) (api : Option (Notification → SendResult)) (locked : ℕ → Bool) (limit : ℕ)
      (rows : List Notification) (pause : Pause)
      → All (HasTried i k) rows
      → All (HasTried i k) (flush error_text now api locked limit rows pause).1.rows
  unfolding flush
  flush-HasTried k none locked limit rows pause h = h
  flush-HasTried k (some api) locked limit rows pause h = elim (Bool-cases (is_paused now pause)) [
    | inl paused ↦ rw paused h
    | inr running ↦ rw running (
        deliver_all-HasTried k api (batch locked now limit rows) _
          (All-mono _ _ _ (λ n c e. omega (arith, c e)) (batch-Claimed i k locked now limit rows h))
          (claim-HasTried k locked limit rows h))
  ]

  flush-counts :
      (k : ℕ) (api : Notification → SendResult) (locked : ℕ → Bool) (limit : ℕ)
      (rows : List Notification) (pause : Pause)
      → is_paused now pause ≡ false
      → has_id i (batch locked now limit rows) ≡ true
      → ((n : Notification) → n.id ≡ i → retry_time (api n).retry_after ≡ none)
      → All (HasTried i k) rows
      → All (HasTried i (k + 1)) (flush error_text now (some api) locked limit rows pause).1.rows
  unfolding flush
  flush-counts k api locked limit rows pause running there free h = rw running (
      deliver_all-counts k api (batch locked now limit rows) _ free there
        (batch-Claimed i k locked now limit rows h) (claim-HasTried k locked limit rows h))

-- The rows after flushes, of which so many have taken the row and got an answer that is no rate limit.
pub data Served (error_text : SendResult → String) (i : ℕ) (start : List Notification)
    : ℕ → List Notification → Type 0 where
  start : Served error_text i start 0 start
  passed :
      {k : ℕ} {rows : List Notification}
      → Served error_text i start k rows
      → (now : ℕ) (api : Option (Notification → SendResult)) (locked : ℕ → Bool) (limit : ℕ)
        (pause : Pause)
      → Served error_text i start k (flush error_text now api locked limit rows pause).1.rows
  taken :
      {k : ℕ} {rows : List Notification}
      → Served error_text i start k rows
      → (now : ℕ) (api : Notification → SendResult) (locked : ℕ → Bool) (limit : ℕ) (pause : Pause)
      → is_paused now pause ≡ false
      → has_id i (batch locked now limit rows) ≡ true
      → ((n : Notification) → n.id ≡ i → retry_time (api n).retry_after ≡ none)
      → Served error_text i start
          (k + 1)
          (flush error_text now (some api) locked limit rows pause).1.rows

module _ (error_text : SendResult → String) (i : ℕ) (first : List Notification) where
  Served-HasTried :
      {k : ℕ} {rows : List Notification}
      → Served error_text i first k rows
      → All (HasTried i k) rows
  Served-HasTried Served.start = All-zero i first
  Served-HasTried (Served.passed {k} {rows} s now api locked limit pause) =
      flush-HasTried error_text now i k api locked limit rows pause (Served-HasTried s)
  Served-HasTried (Served.taken {k} {rows} s now api locked limit pause running there free) =
      flush-counts error_text now i k api locked limit rows pause running there free
        (Served-HasTried s)

  Served-IsCharged :
      {k : ℕ} {rows : List Notification}
      → Served error_text i first k rows
      → All IsCharged first
      → All IsCharged rows
  Served-IsCharged Served.start h = h
  Served-IsCharged (Served.passed {k} {rows} s now api locked limit pause) h =
      flush-IsCharged error_text now api locked limit rows pause (Served-IsCharged s h)
  Served-IsCharged (Served.taken {k} {rows} s now api locked limit pause running there free) h =
      flush-IsCharged error_text now (some api) locked limit rows pause (Served-IsCharged s h)

  -- No message is retried for ever: once `max_attempts` flushes have taken a row and got an answer that is no
  -- rate limit, whatever other flushes ran between them, the row is not pending any more, as long as the rows
  -- kept their retry accounting at the start.
  pub Served-ends :
      {rows : List Notification}
      → Served error_text i first max_attempts rows
      → All IsCharged first
      → All (λ n. n.id ≡ i → n.status ≢ NotificationStatus.pending) rows
  Served-ends {rows} s h =
      All-mono _ _ rows (λ n b own waits. omega (arith, b.0 own waits, b.1.0 waits))
        (All-both _ _ rows (Served-HasTried s) (Served-IsCharged s h))
