-- ===== src/Examples/Sending.antt =====
-- services/outbox.py and services/pace.py on a table of two messages.
use alo_bot_dashboard.Prelude.{
  ℕ, ◌+◌, ◌*◌, ◌≡◌, ◌≢◌, refl, Bool, true, false, none, some, List, [], ◌∷◌, String, arith, ◌==◌,
  All, count_where, find_where, any_where, update_where,
}
use alo_bot_dashboard.Model.{second, minute, hour}
use alo_bot_dashboard.Telegram.{SendResult, permanent}
use alo_bot_dashboard.Pace.{note_rate_limit, is_paused}
use alo_bot_dashboard.Outbox.{
  NotificationStatus, Notification, Outbox, Sending, no_counts, deliver, enqueue, batch, has_id,
  claim_batch, due, flush, is_pending, backoff,
}
use alo_bot_dashboard.Outbox.Delivery.{flush-keeps_final, enqueue_once}
use alo_bot_dashboard.Outbox.Final.{Served, Served-ends}
use alo_bot_dashboard.Outbox.Leases.{IsCharged}
use alo_bot_dashboard.Outbox.Claims.{Move, Moves, lease_excludes}

abbrev now : ℕ
now = 10 * hour

abbrev waiting : Notification
waiting = record {
  id = 1;
  dedupe_key = "verify:1";
  chat_id = 77;
  payload = record { text = some "hello"; parse_mode = none; reply_markup = none };
  status = NotificationStatus.pending;
  attempt_count = 7;
  next_attempt_at = 9 * hour;
  last_error = none;
  sent_at = none;
}

abbrev delivered : Notification
delivered = record waiting {
  id = 2;
  dedupe_key = "verify:2";
  status = NotificationStatus.sent;
  sent_at = some (9 * hour);
}

abbrev rows : List Notification
rows = delivered ∷ waiting ∷ []

abbrev unlocked : ℕ → Bool
unlocked i = false

-- Telegram's answers
abbrev answer_ok : SendResult
answer_ok = record { ok = true; error_code = none; description = ""; retry_after = none }

abbrev answer_down : SendResult
answer_down = record {
  ok = false;
  error_code = some 502;
  description = "bad gateway";
  retry_after = none;
}

abbrev answer_limit : SendResult
answer_limit = record {
  ok = false;
  error_code = some 429;
  description = "too many requests";
  retry_after = some 5;
}

abbrev up : Notification → SendResult
up n = answer_ok

abbrev down : Notification → SendResult
down n = answer_down

abbrev limited : Notification → SendResult
limited n = answer_limit

abbrev error_text : SendResult → String
error_text r = r.description

flush-keeps_final_example :
    find_where (λ m. m.id == 2) (flush error_text now (some down) unlocked 50 rows none).1.rows
    ≡ some delivered
unfolding count_where find_where is_pending
flush-keeps_final_example =
    flush-keeps_final error_text now 2 50 (some down) unlocked rows none delivered (ground arith)
      refl refl

enqueue_once_example :
    let o' = (enqueue "msg:3" 77 waiting.payload now (record { rows = rows; next_id = 3 })).0 in
    let rows' = (flush error_text now (some up) unlocked 50 o'.rows none).1.rows in
    let (again, done) =
      enqueue "msg:3" 78 waiting.payload (now + hour) (record { rows = rows'; next_id = 4 }) in
    (done ≡ false) × (again.rows ≡ rows')
enqueue_once_example =
    enqueue_once error_text now 50 (some up) unlocked none (record { rows = rows; next_id = 3 })
      "msg:3" 77 78 now (now + hour) 4 waiting.payload waiting.payload

-- another message that is due
abbrev other : Notification
other = record waiting { id = 3; dedupe_key = "verify:3" }

abbrev queue : Outbox
queue = record { rows = other ∷ rows; next_id = 4 }

claimed : has_id 1 (batch unlocked now 1 queue.rows) ≡ true
unfolding due any_where is_pending
claimed = refl

-- a first sweep claims message 1, a second one claims message 3 and records Telegram's answer to it, and
-- a message is queued
abbrev after_first : Outbox
after_first = record queue { rows = claim_batch unlocked now 1 queue.rows }

abbrev second_sweep : Sending
second_sweep = record {
  rows = claim_batch unlocked (now + 1) 50 after_first.rows;
  pause = none;
  counts = no_counts;
}

abbrev after_second : Outbox
after_second = record {
  rows = (deliver error_text (now + 2) answer_down other second_sweep).rows;
  next_id = 4;
}

abbrev after_third : Outbox
after_third = (enqueue "verify:4" 77 waiting.payload now after_second).0

lease_excludes_example : has_id 1 (batch unlocked (now + minute) 50 after_third.rows) ≡ false
lease_excludes_example =
    lease_excludes 1 now (now + minute) 1 50 unlocked unlocked queue after_third (omega arith)
      claimed
      (Moves.next
        (Moves.next
          (Moves.next Moves.here (Move.claimed unlocked (now + 1) 50 after_first (omega arith)))
          (Move.answered error_text (now + 2) answer_down other second_sweep 4 refl))
        (Move.queued "verify:4" 77 waiting.payload now after_second))
      (omega arith)

rows-IsCharged : All IsCharged rows
rows-IsCharged =
    ((ground arith, ground arith, ground arith), ((ground arith, ground arith, ground arith), tt))

not_paused : is_paused now none ≡ false
unfolding is_paused
not_paused = refl

-- the eighth failure is the last, and a 429 pauses
last_failure : (flush error_text now (some down) unlocked 50 rows none).1.counts.dead ≡ 1
unfolding flush permanent due any_where is_pending is_paused
last_failure = refl

rate_limited :
    (flush error_text now (some limited) unlocked 50 rows none).1.pause ≡ some (now + 5 * second)
unfolding flush note_rate_limit due any_where is_pending is_paused
rate_limited = refl

-- a message that fails each time
abbrev failing : List Notification
failing = record waiting { attempt_count = 0 } ∷ []

abbrev at_hour : ℕ → ℕ
at_hour n = n * hour

abbrev failed_at : ℕ → List Notification → List Notification
failed_at n ms = (flush error_text (at_hour n) (some down) unlocked 50 ms none).1.rows

abbrev given_up : List Notification
given_up = failed_at 24 (
    failed_at 22 (
      failed_at 20
        (failed_at 18 (failed_at 16 (failed_at 14 (failed_at 12 (failed_at 10 failing)))))))

eight_failures : Served error_text 1 failing 8 given_up
unfolding flush any_where due is_pending is_paused backoff permanent update_where
eight_failures =
    Served.taken
      (Served.taken
        (Served.taken
          (Served.taken
            (Served.taken
              (Served.taken
                (Served.taken
                  (Served.taken Served.start (at_hour 10) down unlocked 50 none refl refl
                    (λ n e. refl))
                  (at_hour 12) down unlocked 50 none refl refl (λ n e. refl))
                (at_hour 14) down unlocked 50 none refl refl (λ n e. refl))
              (at_hour 16) down unlocked 50 none refl refl (λ n e. refl))
            (at_hour 18) down unlocked 50 none refl refl (λ n e. refl))
          (at_hour 20) down unlocked 50 none refl refl (λ n e. refl))
        (at_hour 22) down unlocked 50 none refl refl (λ n e. refl))
      (at_hour 24) down unlocked 50 none refl refl (λ n e. refl)

failing-IsCharged : All IsCharged failing
failing-IsCharged = ((λ h. omega arith, λ h. cc, λ h. cc), tt)

Served-ends_example : All (λ n. n.id ≡ 1 → n.status ≢ NotificationStatus.pending) given_up
Served-ends_example = Served-ends error_text 1 failing eight_failures failing-IsCharged
