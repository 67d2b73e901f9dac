-- ===== src/Broadcast.antt =====
-- services/broadcast.py and models/broadcast.py: one message to a snapshot of customers, sent by a
-- sweep. `chats` reads an audience from the bot's database, and is missing while that is not linked;
-- `web_link` tells whether `urlsplit` finds an http(s) scheme and a host.
pub mod Once
pub mod Finished
use alo_bot_dashboard.Prelude.{
  ℕ, zero, suc, ◌+◌, Bool, true, false, not, ◌&&◌, ◌||◌, String, Option, none, some, List, [], ◌∷◌,
  ◌==◌, leb, text_length, if◌then◌else◌, str_eq, strip, is_blank, any_where, count_where,
  find_where, update_where, keep, take, sort_by, length, Result, done, refused, require, or_refuse,
  ◌>>=◌, ◌>>◌,
}
use alo_bot_dashboard.Audit.{Json, Fields, AuditRow, Actor, audit_row}
use alo_bot_dashboard.Telegram.{SendResult}
use alo_bot_dashboard.Pace.{Pause, note_rate_limit, is_paused}
use alo_bot_dashboard.Outbox.{retry_time}

pub data BroadcastStatus : Type 0 where
  pending sending finished : BroadcastStatus

pub data RecipientStatus : Type 0 where
  pending sent failed : RecipientStatus

pub data Audience : Type 0 where
  everyone buyers never_bought active_service : Audience

pub record Broadcast : Type 0 where
  pub id : ℕ
  pub batch_id : String
  pub audience : Audience
  pub body : String
  pub button_text : Option String
  pub button_url : Option String
  pub status : BroadcastStatus
  pub total : ℕ
  pub created_by : String
  pub created_at : ℕ
  pub finished_at : Option ℕ

-- BroadcastRecipient
pub record Recipient : Type 0 where
  pub id : ℕ
  pub broadcast_id : ℕ
  pub chat_id : ℕ
  pub status : RecipientStatus
  pub error : Option String
  pub sent_at : Option ℕ

-- the tables and their sequences
pub record Campaigns : Type 0 where
  pub broadcasts : List Broadcast
  pub next_broadcast_id : ℕ
  pub recipients : List Recipient
  pub next_recipient_id : ℕ
  pub audit : List AuditRow

-- the sentences of `BroadcastError`; the last two are the DataError of a text that is too long for its
-- column and the IntegrityError of a chat that is listed twice
pub data BroadcastError : Type 0 where
  empty_body bad_audience half_button bad_link : BroadcastError
  not_linked no_members too_long duplicate_chat : BroadcastError

unfoldable pub audience_text : Audience → String
audience_text Audience.everyone = "all"
audience_text Audience.buyers = "buyers"
audience_text Audience.never_bought = "never_bought"
audience_text Audience.active_service = "active_service"

unfoldable pub has_words : Option String → Bool
has_words none = false
has_words (some t) = not (is_blank t)

-- `_check_button`
unfoldable pub check_button :
    (Option String → Bool) → Option String → Option String → Result BroadcastError (Unit {0})
unfolding has_words
check_button web_link text url =
    if not (has_words text) && not (has_words url)
    then done tt
    else if not (has_words text) || not (has_words url)
    then refused half_button
    else require (web_link url) bad_link

-- `x or None`
unfoldable pub some_words : Option String → Option String
unfolding has_words
some_words t = if has_words t then t else none

-- the snapshot of the audience
unfoldable pub add_recipients : ℕ → List ℕ → ℕ → List Recipient → List Recipient
add_recipients bid [] next rows = rows
add_recipients bid (chat ∷ chats) next rows = add_recipients bid chats (next + 1) (
    record {
      id = next;
      broadcast_id = bid;
      chat_id = chat;
      status = RecipientStatus.pending;
      error = none;
      sent_at = none;
    }
    ∷ rows)

-- a column `String(n)`
column_fits : ℕ → Option String → Bool
unfolding text_length
column_fits n none = true
column_fits n (some t) = leb (text_length t) n

-- the columns of a broadcast that a submission fills
unfoldable pub row_fits : String → Option String → Option String → Bool
unfolding column_fits some_words
row_fits batch_id text url =
    column_fits 64 (some batch_id)
    && column_fits 64 (some_words text)
    && column_fits 512 (some_words url)

has_duplicates : List ℕ → Bool
has_duplicates [] = false
has_duplicates (n ∷ ns) = any_where (λ m. m == n) ns || has_duplicates ns

-- the rows of a new broadcast, in one transaction
unfoldable pub insert_broadcast :
    Actor
    → String
    → Audience
    → String
    → Option String
    → Option String
    → List ℕ
    → ℕ
    → Campaigns
    → Campaigns
unfolding audit_row audience_text has_words some_words add_recipients strip
insert_broadcast actor batch_id audience body text url chats now c = record {
  broadcasts =
      record {
        id = c.next_broadcast_id;
        batch_id = batch_id;
        audience = audience;
        body = strip body;
        button_text = some_words text;
        button_url = some_words url;
        status = BroadcastStatus.pending;
        total = length chats;
        created_by = actor.email;
        created_at = now;
        finished_at = none;
      }
      ∷ c.broadcasts;
  next_broadcast_id = c.next_broadcast_id + 1;
  recipients = add_recipients c.next_broadcast_id chats c.next_recipient_id c.recipients;
  next_recipient_id = c.next_recipient_id + length chats;
  audit =
      audit_row actor "broadcast.create" "broadcast" batch_id none (
        some (
          Json.obj (
            Fields.field "audience" (Json.text (audience_text audience)) (
              Fields.field "total" (Json.num (length chats))
                (Fields.field "has_button" (Json.flag (has_words text)) Fields.end)))))
      ∷ c.audit;
}

-- a new batch: the checks and the insert
unfoldable pub create_new :
    (Option String → Bool)
    → Option (Audience → List ℕ)
    → Actor
    → String
    → Option Audience
    → String
    → Option String
    → Option String
    → ℕ
    → Campaigns
    → Result BroadcastError (Campaigns × ℕ)
unfolding check_button has_duplicates insert_broadcast strip row_fits
create_new web_link chats actor batch_id audience body text url now c = do
  require (not (is_blank (strip body))) empty_body
  who ← or_refuse audience bad_audience
  check_button web_link text url
  read ← or_refuse chats not_linked
  require (not (length (read who) == 0)) no_members
  require (row_fits batch_id text url) too_long
  require (not (has_duplicates (read who))) duplicate_chat
  done (insert_broadcast actor batch_id who body text url (read who) now c, c.next_broadcast_id)

-- `create`: the id of the broadcast with this batch id
unfoldable pub create :
    (Option String → Bool)
    → Option (Audience → List ℕ)
    → Actor
    → String
    → Option Audience
    → String
    → Option String
    → Option String
    → ℕ
    → Campaigns
    → Result BroadcastError (Campaigns × ℕ)
unfolding create_new
create web_link chats actor batch_id audience body text url now c =
    elim (find_where (λ b. str_eq b.batch_id batch_id) c.broadcasts) [
      | none ↦ create_new web_link chats actor batch_id audience body text url now c
      | some b ↦ done (c, b.id)
    ]

unfoldable pub is_pending : RecipientStatus → Bool
is_pending RecipientStatus.pending = true
is_pending _ = false

unfoldable pub is_running : BroadcastStatus → Bool
is_running BroadcastStatus.finished = false
is_running _ = true

-- the broadcast to go on with: the lowest id that is not DONE
abbrev pub running : List Broadcast → Option Broadcast
running bs = find_where (λ b. is_running b.status) (sort_by (λ b. b.id) bs)

-- the rows that the claiming statement locks; `locked` tells those of another sweep
unfoldable pub claim : (ℕ → Bool) → ℕ → ℕ → List Recipient → List Recipient
unfolding is_pending
claim locked bid limit rows = take limit (
    sort_by (λ r. r.id)
      (keep (λ r. r.broadcast_id == bid && is_pending r.status && not (locked r.id)) rows))

-- the pending recipients of a broadcast
abbrev pub waits : ℕ → Recipient → Bool
waits bid r = r.broadcast_id == bid && is_pending r.status

-- `_finish_if_done`
unfoldable pub finish_if_done : ℕ → ℕ → Campaigns → Campaigns
unfolding is_running
finish_if_done bid now c =
    if count_where (waits bid) c.recipients == 0
    then record c {
      broadcasts =
          update_where (λ b. b.id == bid && is_running b.status)
            (λ b. record b { status = BroadcastStatus.finished; finished_at = some now })
            c.broadcasts;
    }
    else c

-- the state of the loop of `drain`
pub record Draining : Type 0 where
  pub recipients : List Recipient
  pub pause : Pause
  pub sent : ℕ
  pub failed : ℕ
  pub rate_limited : Bool

-- what `drain` returns besides the tables: the reason for which it did nothing, or its counts
pub record Drained : Type 0 where
  pub campaigns : Campaigns
  pub pause : Pause
  pub skipped : Option String
  pub sent : ℕ
  pub failed : ℕ
  pub rate_limited : Bool

-- `row.status = "SENDING"` where it was PENDING
abbrev pub start_sending : ℕ → Campaigns → Campaigns
start_sending bid c = record c {
  broadcasts =
      update_where (λ b. b.id == bid && is_running b.status)
        (λ b. record b { status = BroadcastStatus.sending }) c.broadcasts;
}

abbrev pub start : Pause → Campaigns → Draining
start pause c = record {
  recipients = c.recipients;
  pause = pause;
  sent = 0;
  failed = 0;
  rate_limited = false;
}

-- `f"{result.error_code}: {result.description}"[:500]`
module _ (error_text : SendResult → String) (now : ℕ) where
  -- one answer that is no rate limit
  unfoldable pub record_answer : SendResult → Recipient → Draining → Draining
  record_answer result r d =
      if result.ok
      then record d {
        recipients =
            update_where (λ x. x.id == r.id)
              (λ x. record x { status = RecipientStatus.sent; sent_at = some now }) d.recipients;
        sent = d.sent + 1;
      }
      else record d {
        recipients =
            update_where (λ x. x.id == r.id)
              (λ x. record x {
                status = RecipientStatus.failed;
                error = some (error_text result);
                sent_at = some now;
              })
              d.recipients;
        failed = d.failed + 1;
      }

  -- the loop, which the first rate limit ends
  unfoldable pub send_all : (Recipient → SendResult) → List Recipient → Draining → Draining
  unfolding record_answer
  send_all api [] d = d
  send_all api (r ∷ rs) d =
      let rest = send_all api rs (record_answer (api r) r d) in
      elim (retry_time (api r).retry_after) [
        | some wait ↦ record d { pause = note_rate_limit wait now d.pause; rate_limited = true }
        | none ↦ rest
      ]

  abbrev pub idle : Campaigns → Pause → Option String → Bool → Drained
  idle c pause skipped limited = record {
    campaigns = c;
    pause = pause;
    skipped = skipped;
    sent = 0;
    failed = 0;
    rate_limited = limited;
  }

  -- a batch of a broadcast
  unfoldable pub drain_batch :
      (Recipient → SendResult) → ℕ → List Recipient → Pause → Campaigns → Drained
  unfolding send_all finish_if_done
  drain_batch api bid [] pause c = idle (finish_if_done bid now c) pause none false
  drain_batch api bid (r ∷ rs) pause c =
      let d = send_all api (r ∷ rs) (start pause c) in
      record {
        campaigns =
            finish_if_done bid now (record (start_sending bid c) { recipients = d.recipients });
        pause = d.pause;
        skipped = none;
        sent = d.sent;
        failed = d.failed;
        rate_limited = d.rate_limited;
      }

  unfoldable pub drain :
      Option (Recipient → SendResult) → (ℕ → Bool) → ℕ → Pause → Campaigns → Drained
  unfolding claim is_running drain_batch
  drain none locked limit pause c = idle c pause (some "no_bot_token") false
  drain (some api) locked limit pause c =
      if is_paused now pause
      then idle c pause (some "paced") true
      else elim (running c.broadcasts) [
        | none ↦ idle c pause none false
        | some b ↦ drain_batch api b.id (claim locked b.id limit c.recipients) pause c
      ]
