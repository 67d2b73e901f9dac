-- ===== src/Broadcast/Finished.antt =====
-- A broadcast of services/broadcast.py is DONE only when nobody waits for it.
use alo_bot_dashboard.Prelude.{
  ℕ, ◌+◌, ◌≤◌, ◌<◌, ◌≡◌, refl, ◌∙◌, inl, inr, Bool, false, ◌&&◌, String, Option, none, some, List,
  [], ◌∷◌, arith, ◌==◌, ==_iff, and_true, str_eq, count_where, find_where, All, All-mono,
  All-update, count-update_shrink, Bool-cases, Option-cases, done, Ensures, Ensures-bind,
  Ensures-done,
}
use alo_bot_dashboard.Audit.{Actor}
use alo_bot_dashboard.Telegram.{SendResult}
use alo_bot_dashboard.Pace.{Pause, is_paused}
use alo_bot_dashboard.Outbox.{retry_time}
use alo_bot_dashboard.Broadcast.{
  BroadcastStatus, Broadcast, Recipient, Campaigns, Audience, create_new, create, insert_broadcast,
  add_recipients, is_pending, is_running, claim, running, finish_if_done, waits, Draining,
  record_answer, send_all, start, start_sending, drain_batch, drain,
}

-- a broadcast has an id that was drawn, and nobody waits once it is DONE
abbrev pub IsSound : ℕ → List Recipient → Broadcast → Type 0
IsSound next recipients b =
    (b.id < next) × (b.status ≡ BroadcastStatus.finished → count_where (waits b.id) recipients ≡ 0)

abbrev pub AreSound : Campaigns → Type 0
AreSound c = All (IsSound c.next_broadcast_id c.recipients) c.broadcasts

-- a snapshot for another broadcast adds nobody who waits for this one
waits-add_recipients :
    (bid other : ℕ) (chats : List ℕ) (next : ℕ) (rows : List Recipient)
    → (bid == other) ≡ false
    → count_where (waits other) (add_recipients bid chats next rows)
      ≡ count_where (waits other) rows
unfolding add_recipients count_where
waits-add_recipients bid other [] next rows apart = refl
waits-add_recipients bid other (chat ∷ chats) next rows apart =
    waits-add_recipients bid other chats (next + 1) _ apart ∙ ground (arith, apart)

insert-AreSound :
    (actor : Actor) (batch : String) (who : Audience) (body : String) (text url : Option String)
    (chats : List ℕ) (now : ℕ) (c : Campaigns)
    → AreSound c
    → AreSound (insert_broadcast actor batch who body text url chats now c)
unfolding insert_broadcast
insert-AreSound actor batch who body text url chats now c all = (
  (omega arith, λ over. absurd (cc)),
  All-mono (IsSound c.next_broadcast_id c.recipients) _ c.broadcasts
      (λ b h. (
        omega (arith, h.0),
        λ over.
            waits-add_recipients c.next_broadcast_id b.id chats c.next_recipient_id c.recipients
              (ground (arith, h.0))
            ∙ h.1 over,
      ))
      all,
)

create-AreSound :
    (web_link : Option String → Bool) (chats : Option (Audience → List ℕ)) (actor : Actor)
    (batch : String) (audience : Option Audience) (body : String) (text url : Option String)
    (now : ℕ) (c : Campaigns)
    → AreSound c
    → Ensures
        (λ (r : Campaigns × ℕ). AreSound r.0)
        (create web_link chats actor batch audience body text url now c)
unfolding create create_new
create-AreSound web_link chats actor batch audience body text url now c all =
    elim (Option-cases (find_where (λ x. str_eq x.batch_id batch) c.broadcasts)) [
      | inr (b, old) ↦ rw (old, create) (Ensures-done _ all)
      | inl new ↦
          rw (new, create)
            (Ensures-bind _ _ λ (u : Unit {0}) e. Ensures-bind _ _ λ (who : Audience) e1.
              Ensures-bind _ _ λ (v : Unit {0}) e2.
                Ensures-bind _ _ λ (read : Audience → List ℕ) e3.
                  Ensures-bind _ _ λ (w : Unit {0}) e4. Ensures-bind _ _ λ (y : Unit {0}) e6.
                    Ensures-bind _ _ λ (x : Unit {0}) e5.
                      Ensures-done _
                        (insert-AreSound actor batch who body text url (read who) now c all))
    ]

module _ (error_text : SendResult → String) (now : ℕ) where
  waits-record_answer :
      (j : ℕ) (result : SendResult) (r : Recipient) (d : Draining)
      → count_where (waits j) (record_answer error_text now result r d).recipients
        ≤ count_where (waits j) d.recipients
  unfolding record_answer is_pending
  waits-record_answer j result r d = elim (Bool-cases result.ok) [
    | inl ok ↦ rw ok (
        count-update_shrink (waits j) (λ x. x.id == r.id) _ d.recipients
          (λ x h. absurd (ground (arith, h))))
    | inr bad ↦ rw bad (
        count-update_shrink (waits j) (λ x. x.id == r.id) _ d.recipients
          (λ x h. absurd (ground (arith, h))))
  ]

  waits-send_all :
      (j : ℕ) (api : Recipient → SendResult) (rs : List Recipient) (d : Draining)
      → count_where (waits j) (send_all error_text now api rs d).recipients
        ≤ count_where (waits j) d.recipients
  unfolding send_all record_answer is_pending
  waits-send_all j api [] d = omega arith
  waits-send_all j api (r ∷ rs) d = elim (Option-cases (retry_time (api r).retry_after)) [
    | inr (wait, limited) ↦ rw (limited, send_all) (omega arith)
    | inl free ↦
        rw (free, send_all)
          (omega (
            arith,
            waits-send_all j api rs (record_answer error_text now (api r) r d),
            waits-record_answer j (api r) r d,
          ))
  ]

  finish-AreSound : (bid : ℕ) (c : Campaigns) → AreSound c → AreSound (finish_if_done bid now c)
  unfolding finish_if_done is_running
  finish-AreSound bid c all = elim (Bool-cases (count_where (waits bid) c.recipients == 0)) [
    | inr going ↦ rw going all
    | inl over ↦ rw over (
        All-update (IsSound c.next_broadcast_id c.recipients)
          (IsSound c.next_broadcast_id c.recipients) _ _ c.broadcasts
          (λ b h. elim (Bool-cases (b.id == bid && is_running b.status)) [
            | inl hit ↦
                let mine : b.id ≡ bid =
                  (==_iff b.id bid).0 (and_true (b.id == bid) (is_running b.status) hit).0 in
                rw hit (h.0, λ done_now. rw mine ((==_iff _ 0).0 over))
            | inr miss ↦ rw miss h
          ])
          all)
  ]

  -- the rows that wait do not grow in the loop, so what was DONE stays so
  batch-AreSound :
      (api : Recipient → SendResult) (bid : ℕ) (rs : List Recipient) (pause : Pause) (c : Campaigns)
      → AreSound c
      → AreSound (drain_batch error_text now api bid rs pause c).campaigns
  unfolding drain_batch is_running
  batch-AreSound api bid [] pause c all = finish-AreSound bid c all
  batch-AreSound api bid (r ∷ rs) pause c all =
      let d = send_all error_text now api (r ∷ rs) (start pause c) in
      finish-AreSound bid (record (start_sending bid c) { recipients = d.recipients })
        (All-update (IsSound c.next_broadcast_id c.recipients)
          (IsSound c.next_broadcast_id d.recipients) _ _ c.broadcasts
          (λ b h. elim (Bool-cases (b.id == bid && is_running b.status)) [
            | inl hit ↦ rw hit (h.0, λ over. absurd (cc))
            | inr miss ↦ rw miss (
              h.0,
              λ over. omega (arith, h.1 over, waits-send_all b.id api (r ∷ rs) (start pause c)),
            )
          ])
          all)

  drain-AreSound :
      (api : Option (Recipient → SendResult)) (locked : ℕ → Bool) (limit : ℕ) (pause : Pause)
      (c : Campaigns)
      → AreSound c
      → AreSound (drain error_text now api locked limit pause c).campaigns
  unfolding drain
  drain-AreSound none locked limit pause c all = all
  drain-AreSound (some api) locked limit pause c all = elim (Bool-cases (is_paused now pause)) [
    | inl paused ↦ rw paused all
    | inr free ↦ rw free (elim (Option-cases (running c.broadcasts)) [
      | inl idle ↦ rw (idle, drain) all
      | inr (b, going) ↦
          rw (going, drain)
            (batch-AreSound api b.id (claim locked b.id limit c.recipients) pause c all)
    ])
  ]

-- a submission or a sweep, with any answers and under any pause
pub data Course : Campaigns → Campaigns → Type 0 where
  created :
      (web_link : Option String → Bool) (chats : Option (Audience → List ℕ)) (actor : Actor)
      (batch : String) (audience : Option Audience) (body : String) (text url : Option String)
      (now i : ℕ) (c c' : Campaigns)
      → create web_link chats actor batch audience body text url now c ≡ done (c', i)
      → Course c c'
  drained :
      (error_text : SendResult → String) (now : ℕ) (api : Option (Recipient → SendResult))
      (locked : ℕ → Bool) (limit : ℕ) (pause : Pause) (c : Campaigns)
      → Course c (drain error_text now api locked limit pause c).campaigns

pub data Courses (start : Campaigns) : Campaigns → Type 0 where
  here : Courses start start
  next : {c c' : Campaigns} → Courses start c → Course c c' → Courses start c'

Course-AreSound : {c c' : Campaigns} → Course c c' → AreSound c → AreSound c'
Course-AreSound (created web_link chats actor batch audience body text url now i c c' e) all =
    (create-AreSound web_link chats actor batch audience body text url now c all).at (c', i) e
Course-AreSound (drained error_text now api locked limit pause c) all =
    drain-AreSound error_text now api locked limit pause c all

-- In every state that submissions and sweeps reach from an empty table, a broadcast that is DONE
-- has no recipient that still waits to be sent to.
pub Courses-AreSound : {c c' : Campaigns} → Courses c c' → c.broadcasts ≡ [] → AreSound c'
Courses-AreSound here empty = rw empty tt
Courses-AreSound (next cs step) empty = Course-AreSound step (Courses-AreSound cs empty)
