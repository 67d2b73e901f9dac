-- ===== src/Outbox/Leases.antt =====
-- The retries and counters of `flush`, and its waits between attempts.
use alo_bot_dashboard.Prelude.{
  ℕ, zero, suc, ◌+◌, ◌*◌, ◌-◌, ◌≤◌, ◌<◌, ◌≡◌, ◌≢◌, ◌∙◌, inl, inr, Bool, false, Option, none, some,
  List, [], ◌∷◌, String, arith, ◌==◌, min, length, All, All-update, Bool-cases,
}
use native.Mathlib.Nat.{two-pow-succ, one-le-pow}
use alo_bot_dashboard.Model.{minute, hour}
use alo_bot_dashboard.Telegram.{SendResult}
use alo_bot_dashboard.Pace.{Pause, is_paused}
use alo_bot_dashboard.Outbox.Change.{change, rows-deliver}
use alo_bot_dashboard.Outbox.{
  NotificationStatus, Notification, Counts, Sending, max_attempts, lease, backoff, batch, has_id,
  claim_batch, deliver, deliver_all, flush,
}

-- the attempts of a row: some are left while it is pending, and a dead one has had one
abbrev pub IsCharged : Notification → Type 0
IsCharged n =
    (n.status ≡ NotificationStatus.pending → n.attempt_count < max_attempts)
    × (n.status ≡ NotificationStatus.dead → 1 ≤ n.attempt_count)
    × (n.status ≡ NotificationStatus.sent → n.sent_at ≢ none)

module _ (error_text : SendResult → String) (now : ℕ) where
  deliver-IsCharged :
      (r : SendResult) (n : Notification) (s : Sending)
      → All IsCharged s.rows
      → All IsCharged (deliver error_text now r n s).rows
  unfolding change
  deliver-IsCharged r n s h = rw (rows-deliver error_text now) (
      All-update IsCharged IsCharged (λ m. m.id == n.id) (change error_text now r n) s.rows
        (λ m k. (ground arith, ground arith, ground arith)) h)

  deliver_all-IsCharged :
      (api : Notification → SendResult) (ns : List Notification) (s : Sending)
      → All IsCharged s.rows
      → All IsCharged (deliver_all error_text now api ns s).rows
  unfolding deliver_all
  deliver_all-IsCharged api [] s h = h
  deliver_all-IsCharged api (n ∷ ns) s h =
      deliver_all-IsCharged api ns (deliver error_text now (api n) n s)
        (deliver-IsCharged (api n) n s h)

  -- A flush keeps the retry accounting: a row that is still pending has attempts left, a dead one
  -- has had at least one, and a sent one carries its time.
  pub flush-IsCharged :
      (api : Option (Notification → SendResult)) (locked : ℕ → Bool) (limit : ℕ)
      (rows : List Notification) (pause : Pause)
      → All IsCharged rows
      → All IsCharged (flush error_text now api locked limit rows pause).1.rows
  unfolding flush claim_batch
  flush-IsCharged none locked limit rows pause h = h
  flush-IsCharged (some api) locked limit rows pause h = elim (Bool-cases (is_paused now pause)) [
    | inl paused ↦ rw paused h
    | inr running ↦ rw running (
        deliver_all-IsCharged api (batch locked now limit rows) _ (
          All-update IsCharged IsCharged (λ n. has_id n.id (batch locked now limit rows))
            (λ n. record n { next_attempt_at = now + lease }) rows
            (λ n k. (ground arith, ground arith, ground arith)) h))
  ]

  abbrev total : Counts → ℕ
  total c = c.sent + c.failed + c.dead + c.rate_limited

  total-deliver_all :
      (api : Notification → SendResult) (ns : List Notification) (s : Sending)
      → total (deliver_all error_text now api ns s).counts ≡ total s.counts + length ns
  unfolding deliver_all deliver
  total-deliver_all api [] s = omega arith
  total-deliver_all api (n ∷ ns) s =
      ground (arith, total-deliver_all api ns (deliver error_text now (api n) n s))

  -- A flush that is not skipped counts each row of its batch exactly once, by how it ended.
  pub flush_counts :
      (api : Notification → SendResult) (locked : ℕ → Bool) (limit : ℕ) (rows : List Notification)
      (pause : Pause)
      → is_paused now pause ≡ false
      → total (flush error_text now (some api) locked limit rows pause).1.counts
        ≡ length (batch locked now limit rows)
  unfolding flush
  flush_counts api locked limit rows pause h =
      rw h (total-deliver_all api (batch locked now limit rows) _ ∙ omega arith)

-- The wait after a failed attempt is between one minute and one hour and doubles with each attempt
-- until it reaches the hour.
pub backoff_bounds :
    (n : ℕ)
    → 1 ≤ n
    → (minute ≤ backoff n) × (backoff n ≤ hour) × (backoff (n + 1) ≡ min (2 * backoff n) hour)
unfolding backoff
backoff_bounds zero h = absurd (omega arith)
backoff_bounds (suc k) h =
    let e : suc k + 1 - 1 ≡ suc k = omega arith in
    let e' : suc k - 1 ≡ k = omega arith in
    rw (e, e') (omega (arith, one-le-pow k 2 (omega arith), two-pow-succ k))
