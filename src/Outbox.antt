-- ===== src/Outbox.antt =====
-- services/outbox.py and models/bot_notification.py: a message is a row before it is a request.
mod Change
pub mod Delivery
pub mod Leases
pub mod Claims
pub mod Final
use alo_bot_dashboard.Prelude.{
  ℕ, ◌+◌, ◌-◌, ◌*◌, ◌^◌, Bool, true, false, not, ◌&&◌, ◌||◌, String, Option, none, some, List, [],
  ◌∷◌, leb, ◌==◌, min, if◌then◌else◌, str_eq, str_append, print, keep, take, sort_by, any_where,
  update_where,
}
use alo_bot_dashboard.Model.{second, minute, hour}
use alo_bot_dashboard.Audit.{Json}
use alo_bot_dashboard.Telegram.{SendResult, permanent}
use alo_bot_dashboard.Pace.{Pause, note_rate_limit, is_paused}

pub data NotificationStatus : Type 0 where
  pending sent failed dead : NotificationStatus

pub record Payload : Type 0 where
  pub text : Option String
  pub parse_mode : Option String
  pub reply_markup : Option Json

pub record Notification : Type 0 where
  pub id : ℕ
  pub dedupe_key : String
  pub chat_id : ℕ
  pub payload : Payload
  pub status : NotificationStatus
  pub attempt_count : ℕ
  pub next_attempt_at : ℕ
  pub last_error : Option String
  pub sent_at : Option ℕ

-- the table and its sequence of ids
pub record Outbox : Type 0 where
  pub rows : List Notification
  pub next_id : ℕ

abbrev pub max_attempts : ℕ
max_attempts = 8

abbrev pub lease : ℕ
lease = 2 * minute

abbrev pub max_backoff : ℕ
max_backoff = hour

-- INSERT ... ON CONFLICT (dedupe_key) DO NOTHING; `due` is the caller's `now`, or the database's
-- clock where the caller gives none. A refused insert still draws an id from the sequence.
unfoldable pub enqueue : String → ℕ → Payload → ℕ → Outbox → Outbox × Bool
enqueue key chat_id payload due o =
    if any_where (λ n. str_eq n.dedupe_key key) o.rows
    then (record o { next_id = o.next_id + 1 }, false)
    else (
      record {
        rows =
            record {
              id = o.next_id;
              dedupe_key = key;
              chat_id = chat_id;
              payload = payload;
              status = NotificationStatus.pending;
              attempt_count = 0;
              next_attempt_at = due;
              last_error = none;
              sent_at = none;
            }
            ∷ o.rows;
        next_id = o.next_id + 1;
      },
      true,
    )

-- `_backoff`, for one attempt or more
unfoldable pub backoff : ℕ → ℕ
backoff attempts = min (60 * 2 ^ (attempts - 1) * second) max_backoff

unfoldable pub is_pending : NotificationStatus → Bool
is_pending NotificationStatus.pending = true
is_pending _ = false

-- the WHERE of the claiming statement; `locked` tells the rows that another sweep has locked
unfoldable pub due : (ℕ → Bool) → ℕ → Notification → Bool
unfolding is_pending
due locked now n = is_pending n.status && leb n.next_attempt_at now && not (locked n.id)

-- the batch: the due rows with the lowest ids
abbrev pub batch : (ℕ → Bool) → ℕ → ℕ → List Notification → List Notification
batch locked now limit rows = take limit (sort_by (λ n. n.id) (keep (due locked now) rows))

abbrev pub has_id : ℕ → List Notification → Bool
has_id i rows = any_where (λ n. n.id == i) rows

-- the lease that the claiming statement writes
unfoldable pub claim_batch : (ℕ → Bool) → ℕ → ℕ → List Notification → List Notification
claim_batch locked now limit rows =
    update_where (λ n. has_id n.id (batch locked now limit rows))
      (λ n. record n { next_attempt_at = now + lease }) rows

pub record Counts : Type 0 where
  pub sent : ℕ
  pub failed : ℕ
  pub dead : ℕ
  pub rate_limited : ℕ

abbrev pub no_counts : Counts
no_counts = record { sent = 0; failed = 0; dead = 0; rate_limited = 0 }

-- the state of the loop of `flush`
pub record Sending : Type 0 where
  pub rows : List Notification
  pub pause : Pause
  pub counts : Counts

-- `if result.retry_after` takes 0 for no answer
abbrev pub retry_time : Option ℕ → Option ℕ
retry_time none = none
retry_time (some n) = if n == 0 then none else some n

abbrev update_id : ℕ → (Notification → Notification) → List Notification → List Notification
update_id i f rows = update_where (λ n. n.id == i) f rows

-- `f"{result.error_code}: {result.description}"[:500]`
module _ (error_text : SendResult → String) (now : ℕ) where
  on_sent : Notification → Sending → Sending
  on_sent n s = record s {
    rows =
        update_id n.id
          (λ r. record r {
            status = NotificationStatus.sent;
            sent_at = some now;
            attempt_count = r.attempt_count + 1;
            last_error = none;
          })
          s.rows;
    counts = record s.counts { sent = s.counts.sent + 1 };
  }

  on_rate_limit : ℕ → Notification → Sending → Sending
  on_rate_limit wait n s = record {
    rows = update_id n.id (λ r. record r { next_attempt_at = now + wait * second }) s.rows;
    pause = note_rate_limit wait now s.pause;
    counts = record s.counts { rate_limited = s.counts.rate_limited + 1 };
  }

  on_failure : SendResult → Notification → Sending → Sending
  on_failure result n s =
      let attempts = n.attempt_count + 1 in
      if permanent result || leb max_attempts attempts
      then record s {
        rows =
            update_id n.id
              (λ r. record r {
                status = NotificationStatus.dead;
                attempt_count = attempts;
                last_error = some (error_text result);
              })
              s.rows;
        counts = record s.counts { dead = s.counts.dead + 1 };
      }
      else record s {
        rows =
            update_id n.id
              (λ r. record r {
                attempt_count = attempts;
                last_error = some (error_text result);
                next_attempt_at = now + backoff attempts;
              })
              s.rows;
        counts = record s.counts { failed = s.counts.failed + 1 };
      }

  -- the body of the loop; `n` is the row as it was claimed
  pub deliver : SendResult → Notification → Sending → Sending
  unfolding on_sent on_rate_limit on_failure
  deliver result n s = if result.ok then on_sent n s else elim (retry_time result.retry_after) [
    | none ↦ on_failure result n s
    | some wait ↦ on_rate_limit wait n s
  ]

  -- `api` answers each request of one flush; a row is requested at most once in it
  pub deliver_all : (Notification → SendResult) → List Notification → Sending → Sending
  deliver_all api [] s = s
  deliver_all api (n ∷ ns) s = deliver_all api ns (deliver (api n) n s)

  -- `flush`: the first component is the `skipped` reason
  unfoldable pub flush :
      Option (Notification → SendResult)
      → (ℕ → Bool)
      → ℕ
      → List Notification
      → Pause
      → Option String × Sending
  unfolding deliver deliver_all claim_batch
  flush none locked limit rows pause =
      (some "no_bot_token", record { rows = rows; pause = pause; counts = no_counts })
  flush (some api) locked limit rows pause =
      if is_paused now pause
      then (some "paced", record { rows = rows; pause = pause; counts = no_counts })
      else (
        none,
        deliver_all api (batch locked now limit rows) (record {
          rows = claim_batch locked now limit rows;
          pause = pause;
          counts = no_counts;
        }),
      )
