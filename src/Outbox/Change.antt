-- ===== src/Outbox/Change.antt =====
-- One delivery as an update of the one row: the cases of the loop's body of `flush`.
use alo_bot_dashboard.Prelude.{
  ℕ, ◌+◌, ◌*◌, ◌≡◌, inl, inr, ◌||◌, none, some, String, arith, leb, ◌==◌, if◌then◌else◌,
  update_where, Bool-cases, Option-cases,
}
use alo_bot_dashboard.Model.{second}
use alo_bot_dashboard.Telegram.{SendResult, permanent}
use alo_bot_dashboard.Outbox.{
  NotificationStatus, Notification, Sending, max_attempts, backoff, retry_time, deliver,
}

module _ (error_text : SendResult → String) (now : ℕ) where
  -- what a delivery of `n` writes into the row `m` with its id
  unfoldable pub change : SendResult → Notification → Notification → Notification
  change r n =
      if r.ok
      then (λ m. record m {
        status = NotificationStatus.sent;
        sent_at = some now;
        attempt_count = m.attempt_count + 1;
        last_error = none;
      })
      else elim (retry_time r.retry_after) [
        | none ↦
            if permanent r || leb max_attempts (n.attempt_count + 1)
            then (λ m. record m {
              status = NotificationStatus.dead;
              attempt_count = n.attempt_count + 1;
              last_error = some (error_text r);
            })
            else (λ m. record m {
              attempt_count = n.attempt_count + 1;
              last_error = some (error_text r);
              next_attempt_at = now + backoff (n.attempt_count + 1);
            })
        | some wait ↦ (λ m. record m { next_attempt_at = now + wait * second })
      ]

  pub rows-deliver :
      (r : SendResult) (n : Notification) (s : Sending)
      → (deliver error_text now r n s).rows ≡ update_where (λ m. m.id == n.id) (change r n) s.rows
  unfolding deliver change
  rows-deliver r n s = elim (Bool-cases r.ok) [
    | inl sent ↦ simp sent
    | inr not_sent ↦ elim (Option-cases (retry_time r.retry_after)) [
      | inr (wait, limited) ↦ simp (not_sent, limited)
      | inl failed ↦ elim (Bool-cases (permanent r || leb max_attempts (n.attempt_count + 1))) [
        | inl dead ↦ simp (not_sent, failed, dead)
        | inr again ↦ simp (not_sent, failed, again)
      ]
    ]
  ]

  pub change-key : (r : SendResult) (n m : Notification) → (change r n m).dedupe_key ≡ m.dedupe_key
  unfolding change
  change-key r n m = ground arith

  pub change-id : (r : SendResult) (n m : Notification) → (change r n m).id ≡ m.id
  unfolding change
  change-id r n m = ground arith
