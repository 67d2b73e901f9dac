-- ===== src/Outbox/Delivery.antt =====
-- What the table of services/outbox.py promises: a key is used once for ever, and a row that was
-- sent or given up stays as it is.
use alo_bot_dashboard.Prelude.{
  ℕ, ◌≤◌, ◌≡◌, refl, ap, sym, subst, ◌∙◌, inl, inr, Bool, true, false, Option, none, some, List, [],
  ◌∷◌, String, arith, ◌==◌, ==_iff, str_eq, str_eq_iff, keep, sort_by, any_where, find_where,
  count_where, any-update, find-update_other, any-take, any-sort_by, any-keep_unique, Bool-cases,
}
use alo_bot_dashboard.Telegram.{SendResult}
use alo_bot_dashboard.Pace.{Pause, is_paused}
use alo_bot_dashboard.Outbox.Change.{change, rows-deliver, change-key, change-id}
use alo_bot_dashboard.Outbox.{
  Notification, Payload, Outbox, Sending, enqueue, is_pending, due, batch, has_id, claim_batch,
  deliver, deliver_all, flush,
}

abbrev pub with_key : String → Notification → Bool
with_key key n = str_eq n.dedupe_key key

module _ (error_text : SendResult → String) (now : ℕ) where
  deliver-key :
      (key : String) (r : SendResult) (n : Notification) (s : Sending)
      → any_where (with_key key) (deliver error_text now r n s).rows
        ≡ any_where (with_key key) s.rows
  deliver-key key r n s = rw (rows-deliver error_text now) (
      any-update (with_key key) (λ m. m.id == n.id) (change error_text now r n) s.rows
        (λ m. ap (λ (k : String). str_eq k key) (change-key error_text now r n m)))

  deliver_all-key :
      (key : String) (api : Notification → SendResult) (ns : List Notification) (s : Sending)
      → any_where (with_key key) (deliver_all error_text now api ns s).rows
        ≡ any_where (with_key key) s.rows
  unfolding deliver_all
  deliver_all-key key api [] s = refl
  deliver_all-key key api (n ∷ ns) s =
      deliver_all-key key api ns (deliver error_text now (api n) n s) ∙ deliver-key key (api n) n s

  -- one delivery leaves the rows with other ids as they are
  deliver-others :
      (i : ℕ) (r : SendResult) (n : Notification) (s : Sending)
      → (n.id == i) ≡ false
      → find_where (λ m. m.id == i) (deliver error_text now r n s).rows
        ≡ find_where (λ m. m.id == i) s.rows
  deliver-others i r n s h = rw (rows-deliver error_text now) (
      find-update_other (λ m. m.id == i) (λ m. m.id == n.id) (change error_text now r n) s.rows
        (λ m. ap (λ k. k == i) (change-id error_text now r n m)) (λ m e. ground arith))

  deliver_all-others :
      (i : ℕ) (api : Notification → SendResult) (ns : List Notification) (s : Sending)
      → has_id i ns ≡ false
      → find_where (λ m. m.id == i) (deliver_all error_text now api ns s).rows
        ≡ find_where (λ m. m.id == i) s.rows
  unfolding deliver_all any_where
  deliver_all-others i api [] s h = refl
  deliver_all-others i api (n ∷ ns) s h =
      deliver_all-others i api ns (deliver error_text now (api n) n s) (ground arith)
      ∙ deliver-others i (api n) n s (ground arith)

  flush-key :
      (key : String) (api : Option (Notification → SendResult)) (locked : ℕ → Bool) (limit : ℕ)
      (rows : List Notification) (pause : Pause)
      → any_where (with_key key) (flush error_text now api locked limit rows pause).1.rows
        ≡ any_where (with_key key) rows
  unfolding flush claim_batch
  flush-key key none locked limit rows pause = refl
  flush-key key (some api) locked limit rows pause = elim (Bool-cases (is_paused now pause)) [
    | inl paused ↦ rw paused
    | inr running ↦ rw running (
        deliver_all-key key api (batch locked now limit rows) _
        ∙ any-update (with_key key) (λ n. has_id n.id (batch locked now limit rows)) _ rows
            (λ m. refl))
  ]

  batch-others :
      (i limit : ℕ) (locked : ℕ → Bool) (rows : List Notification) (n : Notification)
      → count_where (λ m. m.id == i) rows ≤ 1
      → find_where (λ m. m.id == i) rows ≡ some n
      → is_pending n.status ≡ false
      → has_id i (batch locked now limit rows) ≡ false
  unfolding due
  batch-others i limit locked rows n u f closed =
      any-take (λ m. m.id == i) limit (sort_by (λ m. m.id) (keep (due locked now) rows))
        (any-sort_by (λ m. m.id) (λ m. m.id == i) (keep (due locked now) rows)
          ∙ any-keep_unique (λ m. m.id == i) (due locked now) rows n u f (ground arith))

  -- A message that was sent, or given up as DEAD, is never touched again: whatever Telegram
  -- answers and whichever rows other sweeps hold, a flush leaves its row as it is.
  pub flush-keeps_final :
      (i limit : ℕ) (api : Option (Notification → SendResult)) (locked : ℕ → Bool)
      (rows : List Notification) (pause : Pause) (n : Notification)
      → count_where (λ m. m.id == i) rows ≤ 1
      → find_where (λ m. m.id == i) rows ≡ some n
      → is_pending n.status ≡ false
      → find_where (λ m. m.id == i) (flush error_text now api locked limit rows pause).1.rows
        ≡ some n
  unfolding flush claim_batch
  flush-keeps_final i limit none locked rows pause n u f closed = f
  flush-keeps_final i limit (some api) locked rows pause n u f closed =
      elim (Bool-cases (is_paused now pause)) [
        | inl paused ↦ rw paused f
        | inr running ↦
            let out = batch-others i limit locked rows n u f closed in
            rw running (
              deliver_all-others i api (batch locked now limit rows) _ out
              ∙ find-update_other (λ m. m.id == i) (λ m. has_id m.id (batch locked now limit rows))
                  _ rows (λ m. refl)
                  (λ m e.
                    subst (λ j. has_id j (batch locked now limit rows) ≡ false)
                      (sym ((==_iff m.id i).0 e)) out)
              ∙ f)
      ]

-- after an enqueue the key is in the table
key-enqueue :
    (key : String) (chat at : ℕ) (p : Payload) (o : Outbox)
    → any_where (with_key key) (enqueue key chat p at o).0.rows ≡ true
unfolding enqueue any_where
key-enqueue key chat at p o = elim (Bool-cases (any_where (with_key key) o.rows)) [
  | inl old ↦ rw old old
  | inr new ↦ rw (new, (str_eq_iff key key).1 refl)
]

-- an enqueue of a key that is in the table writes no row
enqueue_known :
    (key : String) (chat at : ℕ) (p : Payload) (o : Outbox)
    → any_where (with_key key) o.rows ≡ true
    → ((enqueue key chat p at o).1 ≡ false) × ((enqueue key chat p at o).0.rows ≡ o.rows)
unfolding enqueue
enqueue_known key chat at p o h = (rw h, rw h)

-- A key, once enqueued, is never released: any flush later, a second enqueue with the key is
-- refused and writes no row.
pub enqueue_once :
    (error_text : SendResult → String) (now limit : ℕ) (api : Option (Notification → SendResult))
    (locked : ℕ → Bool) (pause : Pause) (o : Outbox) (key : String) (chat chat' at at' id' : ℕ)
    (p p' : Payload)
    → let o' = (enqueue key chat p at o).0 in
      let rows' = (flush error_text now api locked limit o'.rows pause).1.rows in
      let (again, done) = enqueue key chat' p' at' (record { rows = rows'; next_id = id' }) in
      (done ≡ false) × (again.rows ≡ rows')
enqueue_once error_text now limit api locked pause o key chat chat' at at' id' p p' =
    enqueue_known key chat' at' p' _ (
      flush-key error_text now key api locked limit (enqueue key chat p at o).0.rows pause
      ∙ key-enqueue key chat at p o)
