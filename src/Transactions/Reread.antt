-- ===== src/Transactions/Reread.antt =====
-- The order of the inbox when the parser reads one unknown message again.
use alo_bot_dashboard.Prelude.{
  ℕ, ◌≤◌, ◌<◌, ◌≡◌, refl, inl, inr, Bool, true, false, List, [], ◌∷◌, arith, ◌==◌, ==_iff, str_eq,
  All, All-mono, All-update, any-true_of_count, count_where, any_where, any_where-true, any-update,
  count-update, count-update_at, update_where, Bool-cases, Ensures, Ensures-done, Ensures-bind,
}
use alo_bot_dashboard.Sms.{ParseResult, matched, carries_money}
use alo_bot_dashboard.Accounts.{Registry}
use alo_bot_dashboard.Inbox.{SmsEvent, TransactionCandidate, Inbox}
use alo_bot_dashboard.Inbox.Filed.{IsFiled, has_money, Adds, persist-Adds, added-IsFiled, none_read}
use alo_bot_dashboard.Transactions.{reclassified, reclassify, reparse_known, state_of}

-- an event that is there and that no transaction was read out of
abbrev pub IsUnread : Inbox → ℕ → Type 0
IsUnread s i =
    (count_where (has_money i) s.events ≡ 0) × (any_where (λ e. e.id == i) s.events ≡ true)

-- another event's classification makes no difference
other-money :
    (ev : SmsEvent) (p : ParseResult) (i : ℕ) (s : Inbox)
    → (ev.id ≡ i → ⊥)
    → count_where (has_money i) (reclassify ev p s).events ≡ count_where (has_money i) s.events
unfolding reclassify reclassified
other-money ev p i s apart =
    count-update_at (has_money i) (λ e. e.id == ev.id) (reclassified p) s.events
      (λ e hit.
        let here : e.id ≡ ev.id = (==_iff e.id ev.id).0 hit in
        let miss : (e.id == i) ≡ false = ground (arith, here, apart) in rw miss refl)

other-there :
    (ev : SmsEvent) (p : ParseResult) (i : ℕ) (s : Inbox)
    → any_where (λ e. e.id == i) (reclassify ev p s).events ≡ any_where (λ e. e.id == i) s.events
unfolding reclassify reclassified
other-there ev p i s =
    any-update (λ e. e.id == i) (λ e. e.id == ev.id) (reclassified p) s.events (λ e. refl)

-- the transactions of other events keep their event
still_read :
    (ev : SmsEvent) (p : ParseResult) (s : Inbox)
    → count_where (has_money ev.id) s.events ≡ 0
    → (t : TransactionCandidate) → any_where (has_money t.sms_event_id) s.events ≡ true
    → any_where (has_money t.sms_event_id) (reclassify ev p s).events ≡ true
still_read ev p s unread t there =
    let apart : ev.id ≡ t.sms_event_id → ⊥ = λ same.
      let some_one : 1 ≤ count_where (has_money ev.id) s.events =
        rw same (any_where-true _ s.events there) in
      omega (arith, some_one, unread) in
    any-true_of_count _ _
      (rw (other-money ev p t.sms_event_id s apart) (any_where-true _ s.events there))

below_update :
    (ev : SmsEvent) (p : ParseResult) (n : ℕ) (es : List SmsEvent)
    → All (λ e. e.id < n) es
    → All (λ e. e.id < n) (update_where (λ e. e.id == ev.id) (reclassified p) es)
unfolding reclassified
below_update ev p n es h =
    All-update (λ e. e.id < n) (λ e. e.id < n) _ _ es (λ e k. ground (arith, k)) h

reclassify-IsFiled :
    (ev : SmsEvent) (p : ParseResult) (s : Inbox)
    → count_where (has_money ev.id) s.events ≡ 0
    → IsFiled s
    → IsFiled (reclassify ev p s)
unfolding reclassify reclassified
reclassify-IsFiled ev p s unread h = record {
  keys = λ k.
      rw
        (count-update (λ e. str_eq e.dedupe_key k) (λ e. e.id == ev.id) (reclassified p) s.events
          (λ e. refl))
        (h.keys k);
  ids = λ i.
      rw (count-update (λ e. e.id == i) (λ e. e.id == ev.id) (reclassified p) s.events (λ e. refl))
        (h.ids i);
  below = below_update ev p s.next_event_id s.events h.below;
  one = h.one;
  money = All-mono _ _ s.transactions (still_read ev p s unread) h.money;
}

-- the event that the parser reads money in
now_read :
    (i : ℕ) (p : ParseResult) (es : List SmsEvent)
    → carries_money p.classification ≡ true
    → any_where (λ e. e.id == i) es ≡ true
    → any_where (has_money i) (update_where (λ e. e.id == i) (reclassified p) es) ≡ true
unfolding any_where update_where reclassified
now_read i p [] money there = cc
now_read i p (e ∷ es) money there = elim (Bool-cases (e.id == i)) [
  | inl hit ↦ rw hit (rw hit (rw money refl))
  | inr miss ↦ rw miss (rw miss (now_read i p es money (rw miss at there)))
]

reread_there :
    (ev : SmsEvent) (p : ParseResult) (s : Inbox)
    → matched p ≡ true
    → any_where (λ e. e.id == ev.id) s.events ≡ true
    → any_where (has_money ev.id) (reclassify ev p s).events ≡ true
unfolding matched reclassify
reread_there ev p s money there = now_read ev.id p s.events money there

-- what a step of the run keeps
abbrev pub Kept : ℕ → Inbox → Inbox → Type 0
Kept i s s' = IsFiled s' × ((j : ℕ) → (i ≡ j → ⊥) → IsUnread s j → IsUnread s' j)

reclassify-IsUnread :
    (ev : SmsEvent) (p : ParseResult) (s : Inbox) (j : ℕ)
    → (ev.id ≡ j → ⊥)
    → IsUnread s j
    → IsUnread (reclassify ev p s) j
reclassify-IsUnread ev p s j apart h =
    (rw (other-money ev p j s apart) h.0, rw (other-there ev p j s) h.1)

added-IsUnread : (i : ℕ) (s s' : Inbox) (j : ℕ) → Adds i s s' → IsUnread s j → IsUnread s' j
added-IsUnread i s s' j (t, own, rows, events, next) h = (rw events h.0, rw events h.1)

pub reparse_known-Kept :
    (ev : SmsEvent) (p : ParseResult) (seen : Registry) (s : Inbox)
    → IsFiled s
    → IsUnread s ev.id
    → Ensures (Kept ev.id s) (reparse_known ev p seen s)
unfolding reparse_known matched state_of
reparse_known-Kept ev p seen s h unread =
    let h' = reclassify-IsFiled ev p s unread.0 h in
    let s1 = reclassify ev p s in
    Ensures-bind _ _ λ (u : Unit {0}) fits. elim (Bool-cases (matched p)) [
      | inr other ↦ rw other (Ensures-done _ (h', reclassify-IsUnread ev p s))
      | inl money ↦ rw money (
          Ensures-bind _ _ λ (x : Inbox × TransactionCandidate × Bool) k.
            let adds = (persist-Adds ev.id p ev.sms_timestamp seen s1).at x k in
            Ensures-done _ (
              added-IsFiled ev.id s1 (x.0) adds (reread_there ev p s money unread.1)
                  (none_read ev.id s.events s.transactions h.money unread.0) h',
              λ j apart k'.
                  added-IsUnread ev.id s1 (x.0) j adds (reclassify-IsUnread ev p s j apart k'),
            ))
    ]
