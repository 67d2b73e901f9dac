-- ===== src/Outbox/Claims.antt =====
-- The lease of `flush`, whose statements commit one by one: several sweeps between each other.
use alo_bot_dashboard.Prelude.{
  ℕ, ◌+◌, ◌≤◌, ◌<◌, ◌≡◌, ◌⊎◌, refl, sym, subst, ◌∙◌, inl, inr, Bool, true, false, List, [], ◌∷◌,
  String, arith, ◌==◌, ==_iff, keep, All, any_where, str_eq, update_where, any-take, any-sort_by,
  Bool-cases,
}
use alo_bot_dashboard.Telegram.{SendResult}
use alo_bot_dashboard.Outbox.Change.{change, rows-deliver, change-id}
use alo_bot_dashboard.Outbox.{
  Notification, Payload, Outbox, Sending, lease, due, batch, has_id, claim_batch, enqueue, deliver,
}

-- One commit while the message with the id `i` is leased up to the instant `until`: another sweep claims
-- its batch before then, a sweep records the answer to another message, or a message is queued.
pub data Move (i until : ℕ) : Outbox → Outbox → Type 0 where
  claimed :
      (locked : ℕ → Bool) (now limit : ℕ) (o : Outbox)
      → now < until
      → Move i until o (record o { rows = claim_batch locked now limit o.rows })
  answered :
      (error_text : SendResult → String) (now : ℕ) (r : SendResult) (n : Notification) (s : Sending)
      (next_id : ℕ)
      → (n.id == i) ≡ false
      → Move i until
          (record { rows = s.rows; next_id = next_id })
          (record { rows = (deliver error_text now r n s).rows; next_id = next_id })
  queued :
      (key : String) (chat_id : ℕ) (payload : Payload) (at : ℕ) (o : Outbox)
      → Move i until o (enqueue key chat_id payload at o).0

pub data Moves (i until : ℕ) (start : Outbox) : Outbox → Type 0 where
  here : Moves i until start start
  next : {o o' : Outbox} → Moves i until start o → Move i until o o' → Moves i until start o'

-- a row of another message, or one that is due at the end of the lease at the earliest
abbrev IsLeased : ℕ → ℕ → Notification → Type 0
IsLeased i until n = ((n.id == i) ≡ false) ⊎ (until ≤ n.next_attempt_at)

record AreLeased (i until : ℕ) (o : Outbox) : Type 0 where
  pub leased : All (IsLeased i until) o.rows
  pub known : i < o.next_id

leased-not_due :
    (i until now : ℕ) (locked : ℕ → Bool) (rows : List Notification)
    → now < until
    → All (IsLeased i until) rows
    → any_where (λ n. n.id == i) (keep (due locked now) rows) ≡ false
unfolding any_where due
leased-not_due i until now locked [] early h = refl
leased-not_due i until now locked (n ∷ rows) early (inl other, rest) =
    ground (arith, other, leased-not_due i until now locked rows early rest)
leased-not_due i until now locked (n ∷ rows) early (inr late, rest) =
    ground (arith, early, late, leased-not_due i until now locked rows early rest)

leased-not_claimed :
    (i until now limit : ℕ) (locked : ℕ → Bool) (rows : List Notification)
    → now < until
    → All (IsLeased i until) rows
    → has_id i (batch locked now limit rows) ≡ false
leased-not_claimed i until now limit locked rows early h =
    any-take (λ n. n.id == i) limit _
      (any-sort_by (λ n. n.id) (λ n. n.id == i) (keep (due locked now) rows)
        ∙ leased-not_due i until now locked rows early h)

-- an update of rows that are not the message's
update-IsLeased :
    (i until : ℕ) (p : Notification → Bool) (f : Notification → Notification)
    (rows : List Notification)
    → ((n : Notification) → p n ≡ true → (n.id == i) ≡ false)
    → ((n : Notification) → (f n).id ≡ n.id)
    → All (IsLeased i until) rows
    → All (IsLeased i until) (update_where p f rows)
unfolding update_where
update-IsLeased i until p f [] other same h = tt
update-IsLeased i until p f (n ∷ rows) other same h = elim (Bool-cases (p n)) [
  | inl hit ↦
      rw hit (inl (rw (same n) (other n hit)), update-IsLeased i until p f rows other same h.1)
  | inr miss ↦ rw miss (h.0, update-IsLeased i until p f rows other same h.1)
]

not_in_batch :
    (i : ℕ) (ns : List Notification) (n : Notification)
    → has_id i ns ≡ false
    → has_id n.id ns ≡ true
    → (n.id == i) ≡ false
not_in_batch i ns n out there = elim (Bool-cases (n.id == i)) [
  | inl same ↦
      let e : n.id ≡ i = (==_iff n.id i).0 same in
      let both : has_id i ns ≡ true = subst (λ j. has_id j ns ≡ true) e there in absurd (cc)
  | inr other ↦ other
]

Move-AreLeased :
    {i until : ℕ} {o o' : Outbox} → Move i until o o' → AreLeased i until o → AreLeased i until o'
unfolding claim_batch enqueue change
Move-AreLeased {i} {until} (Move.claimed locked now limit o early) h = record {
  leased =
      update-IsLeased i until (λ n. has_id n.id (batch locked now limit o.rows))
        (λ n. record n { next_attempt_at = now + lease }) o.rows
        (λ n there.
          not_in_batch i (batch locked now limit o.rows) n
            (leased-not_claimed i until now limit locked o.rows early h.leased) there)
        (λ n. refl) h.leased;
  known = h.known;
}
Move-AreLeased {i} {until} (Move.answered error_text now r n s next_id other) h = record {
  leased = rw (rows-deliver error_text now r n s) (
      update-IsLeased i until (λ m. m.id == n.id) (change error_text now r n) s.rows
        (λ m hit. let e : m.id ≡ n.id = (==_iff m.id n.id).0 hit in rw e other)
        (λ m. change-id error_text now r n m) h.leased);
  known = h.known;
}
Move-AreLeased {i} {until} (Move.queued key chat_id payload at o) h =
    elim (Bool-cases (any_where (λ n. str_eq n.dedupe_key key) o.rows)) [
      | inl there ↦ rw there record { leased = h.leased; known = omega (arith, h.known) }
      | inr new ↦ rw new record {
        leased = (inl (ground (arith, h.known)), h.leased);
        known = omega (arith, h.known);
      }
    ]

Moves-AreLeased :
    {i until : ℕ} {o o' : Outbox} → Moves i until o o' → AreLeased i until o → AreLeased i until o'
Moves-AreLeased Moves.here h = h
Moves-AreLeased (Moves.next r m) h = Move-AreLeased m (Moves-AreLeased r h)

claim-IsLeased :
    (i until : ℕ) (p : Notification → Bool) (rows : List Notification)
    → ((n : Notification) → n.id ≡ i → p n ≡ true)
    → All (IsLeased i until) (update_where p (λ n. record n { next_attempt_at = until }) rows)
unfolding update_where
claim-IsLeased i until p [] mine = tt
claim-IsLeased i until p (n ∷ rows) mine = elim (Bool-cases (p n)) [
  | inl hit ↦ rw hit (inr (omega arith), claim-IsLeased i until p rows mine)
  | inr miss ↦ rw miss (inl (ground (arith, miss, mine n)), claim-IsLeased i until p rows mine)
]

-- Two sweeps do not send one message: once a sweep has claimed a message, the message is in no batch
-- that any sweep takes within the lease of two minutes, as long as the answer to it is not recorded,
-- whatever other sweeps claim, whatever answers to other messages they record, and whatever messages are
-- queued in between.
pub lease_excludes :
    (i now now' limit limit' : ℕ) (locked locked' : ℕ → Bool) (o o' : Outbox)
    → i < o.next_id
    → has_id i (batch locked now limit o.rows) ≡ true
    → Moves i (now + lease) (record o { rows = claim_batch locked now limit o.rows }) o'
    → now' < now + lease
    → has_id i (batch locked' now' limit' o'.rows) ≡ false
unfolding claim_batch
lease_excludes i now now' limit limit' locked locked' o o' known mine moves early =
    leased-not_claimed i (now + lease) now' limit' locked' o'.rows early
      (Moves-AreLeased moves (record {
        leased =
            claim-IsLeased i (now + lease) (λ n. has_id n.id (batch locked now limit o.rows)) o.rows
              (λ n e. subst (λ j. has_id j (batch locked now limit o.rows) ≡ true) (sym e) mine);
        known = known;
      })).leased
