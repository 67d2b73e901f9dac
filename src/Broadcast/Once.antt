-- ===== src/Broadcast/Once.antt =====
-- What services/broadcast.py promises about one batch and about one recipient.
use alo_bot_dashboard.Prelude.{
  ℕ, ◌≤◌, ◌≡◌, refl, ap, ◌∙◌, inl, inr, Bool, false, String, Option, none, some, List, [], ◌∷◌,
  arith, ◌==◌, str_eq, str_eq_iff, any_where, count_where, find_where, keep, find-update_other,
  find_where-head, any-take, any-sort_by, any-keep_unique, Bool-cases, Option-cases, Result, done,
  Ensures, Ensures-bind, Ensures-done,
}
use alo_bot_dashboard.Audit.{Actor}
use alo_bot_dashboard.Telegram.{SendResult}
use alo_bot_dashboard.Pace.{Pause, is_paused}
use alo_bot_dashboard.Outbox.{retry_time}
use alo_bot_dashboard.Broadcast.{
  Broadcast, Recipient, Campaigns, Audience, BroadcastError, create_new, create, insert_broadcast,
  is_pending, claim, running, finish_if_done, waits, Draining, start, start_sending, record_answer,
  send_all, drain_batch, drain,
}

-- the broadcast with this batch id has this id
abbrev HasBatch : String → Campaigns × ℕ → Type 0
HasBatch batch (c, i) =
    (b : Broadcast) × (find_where (λ x. str_eq x.batch_id batch) c.broadcasts ≡ some b) × (b.id ≡ i)

create_new-HasBatch :
    (web_link : Option String → Bool) (chats : Option (Audience → List ℕ)) (actor : Actor)
    (batch : String) (audience : Option Audience) (body : String) (text url : Option String)
    (now : ℕ) (c : Campaigns)
    → Ensures (HasBatch batch) (create_new web_link chats actor batch audience body text url now c)
unfolding create_new insert_broadcast
create_new-HasBatch web_link chats actor batch audience body text url now c =
    Ensures-bind _ _ λ (u : Unit {0}) e. Ensures-bind _ _ λ (who : Audience) e1.
      Ensures-bind _ _ λ (v : Unit {0}) e2. Ensures-bind _ _ λ (read : Audience → List ℕ) e3.
        Ensures-bind _ _ λ (w : Unit {0}) e4. Ensures-bind _ _ λ (y : Unit {0}) e6.
          Ensures-bind _ _ λ (x : Unit {0}) e5. Ensures-done _ (
            _,
            find_where-head (λ x. str_eq x.batch_id batch) _ c.broadcasts
                ((str_eq_iff batch batch).1 refl),
            refl,
          )

-- A batch id is used once: after a broadcast was created under it, a second submission of it, with
-- whatever text and audience, returns the first broadcast and writes nothing.
pub create_once :
    (web_link : Option String → Bool) (chats chats' : Option (Audience → List ℕ))
    (actor actor' : Actor) (batch : String) (audience audience' : Option Audience)
    (body body' : String) (text text' url url' : Option String) (now later : ℕ) (c c' : Campaigns)
    (i : ℕ)
    → create web_link chats actor batch audience body text url now c ≡ done (c', i)
    → create web_link chats' actor' batch audience' body' text' url' later c' ≡ done (c', i)
unfolding create
create_once web_link chats chats' actor actor' batch audience audience' body body' text text' url
      url' now later c c' i e =
    let (b, found, same) : HasBatch batch (c', i) =
      elim (Option-cases (find_where (λ x. str_eq x.batch_id batch) c.broadcasts)) [
        | inl new ↦
            (create_new-HasBatch web_link chats actor batch audience body text url now c).at (c', i)
              (rw (new, create) at e)
        | inr (b, old) ↦
            let same : ◌≡◌ {A = Result BroadcastError (Campaigns × ℕ)} (done (c, b.id))
                (done (c', i)) =
              rw (old, create) at e in
            let same_books : c ≡ c' = cc same in (b, rw (← same_books) old, cc same)
      ] in
    rw (found, create) (rw same refl)

module _ (error_text : SendResult → String) (now : ℕ) where
  send_all-others :
      (i : ℕ) (api : Recipient → SendResult) (rs : List Recipient) (d : Draining)
      → any_where (λ r. r.id == i) rs ≡ false
      → find_where (λ r. r.id == i) (send_all error_text now api rs d).recipients
        ≡ find_where (λ r. r.id == i) d.recipients
  unfolding send_all any_where record_answer
  send_all-others i api [] d h = refl
  send_all-others i api (r ∷ rs) d h = elim (Option-cases (retry_time (api r).retry_after)) [
    | inr (wait, limited) ↦ rw (limited, send_all) refl
    | inl free ↦
        rw (free, send_all)
          (send_all-others i api rs (record_answer error_text now (api r) r d) (ground (arith, h))
            ∙ elim (Bool-cases (api r).ok) [
              | inl ok ↦ rw ok (
                  find-update_other (λ x. x.id == i) (λ x. x.id == r.id) _ d.recipients (λ x. refl)
                    (λ x e. ground (arith, h, e)))
              | inr bad ↦ rw bad (
                  find-update_other (λ x. x.id == i) (λ x. x.id == r.id) _ d.recipients (λ x. refl)
                    (λ x e. ground (arith, h, e)))
            ])
  ]

  claim-others :
      (i bid limit : ℕ) (locked : ℕ → Bool) (rows : List Recipient) (r : Recipient)
      → count_where (λ x. x.id == i) rows ≤ 1
      → find_where (λ x. x.id == i) rows ≡ some r
      → is_pending r.status ≡ false
      → any_where (λ x. x.id == i) (claim locked bid limit rows) ≡ false
  unfolding claim
  claim-others i bid limit locked rows r u f final =
      any-take (λ x. x.id == i) limit _
        (any-sort_by (λ x. x.id) (λ x. x.id == i) (keep _ rows)
          ∙ any-keep_unique (λ x. x.id == i) _ rows r u f (ground (arith, final)))

  finish-recipients :
      (bid : ℕ) (c : Campaigns) → (finish_if_done bid now c).recipients ≡ c.recipients
  unfolding finish_if_done
  finish-recipients bid c = elim (Bool-cases (count_where (waits bid) c.recipients == 0)) [
    | inl over ↦ rw over refl
    | inr going ↦ rw going refl
  ]

  batch-others :
      (i bid : ℕ) (api : Recipient → SendResult) (rs : List Recipient) (pause : Pause)
      (c : Campaigns)
      → any_where (λ r. r.id == i) rs ≡ false
      → find_where
          (λ r. r.id == i)
          (drain_batch error_text now api bid rs pause c).campaigns.recipients
        ≡ find_where (λ r. r.id == i) c.recipients
  unfolding drain_batch
  batch-others i bid api [] pause c h =
      ap (λ (rows : List Recipient). find_where (λ r. r.id == i) rows) (finish-recipients bid c)
  batch-others i bid api (r ∷ rs) pause c h =
      let d = send_all error_text now api (r ∷ rs) (start pause c) in
      ap (λ (rows : List Recipient). find_where (λ x. x.id == i) rows)
        (finish-recipients bid (record (start_sending bid c) { recipients = d.recipients }))
      ∙ send_all-others i api (r ∷ rs) (start pause c) h

  -- A customer who was sent the broadcast, or whose send failed, is never offered it again: whatever
  -- Telegram answers, a sweep leaves the recipient's row as it is.
  pub drain-keeps_final :
      (i limit : ℕ) (api : Option (Recipient → SendResult)) (locked : ℕ → Bool) (pause : Pause)
      (c : Campaigns) (r : Recipient)
      → count_where (λ x. x.id == i) c.recipients ≤ 1
      → find_where (λ x. x.id == i) c.recipients ≡ some r
      → is_pending r.status ≡ false
      → find_where
          (λ x. x.id == i)
          (drain error_text now api locked limit pause c).campaigns.recipients
        ≡ some r
  unfolding drain
  drain-keeps_final i limit none locked pause c r u f final = f
  drain-keeps_final i limit (some api) locked pause c r u f final =
      elim (Bool-cases (is_paused now pause)) [
        | inl paused ↦ rw paused f
        | inr free ↦ rw free (elim (Option-cases (running c.broadcasts)) [
          | inl idle ↦ rw (idle, drain) f
          | inr (b, going) ↦
              rw (going, drain)
                (batch-others i b.id api (claim locked b.id limit c.recipients) pause c
                    (claim-others i b.id limit locked c.recipients r u f final)
                  ∙ f)
        ])
      ]
