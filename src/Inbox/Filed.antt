-- ===== src/Inbox/Filed.antt =====
-- The order of the events and of the transactions that were read out of them.
use alo_bot_dashboard.Prelude.{
  ℕ, ◌≤◌, ◌<◌, ◌≡◌, refl, sym, ◌∙◌, subst, inl, inr, Bool, true, ◌&&◌, String, Option, none, some,
  List, [], ◌∷◌, arith, ◌==◌, ==_iff, str_eq, str_eq_iff, All, count_where, any_where,
  any_where-true, unique_cons, none_of_find, All-mono, Bool-cases, Ensures, Ensures-done,
  Ensures-bind,
}
use alo_bot_dashboard.Sms.{ParseResult, matched, carries_money}
use alo_bot_dashboard.Inbox.{SmsEvent, TransactionCandidate, Inbox, Outside, find_event}
use alo_bot_dashboard.Inbox.Stamp.{IngestOutcome}
use alo_bot_dashboard.Accounts.{Registry}
use alo_bot_dashboard.Inbox.Resolve.{Resolved}
use alo_bot_dashboard.Inbox.Candidate.{persist_candidate, new_candidate}
use alo_bot_dashboard.Inbox.Receive.{
  Delivery, Seen, new_event, with_row, finish, flush_event, insert_event, store, known_or_store,
  ingest, touch,
}

abbrev pub has_money : ℕ → SmsEvent → Bool
has_money i e = e.id == i && carries_money e.classification

pub record IsFiled (s : Inbox) : Type 0 where
  pub keys : (k : String) → count_where (λ e. str_eq e.dedupe_key k) s.events ≤ 1
  pub ids : (i : ℕ) → count_where (λ e. e.id == i) s.events ≤ 1
  pub below : All (λ e. e.id < s.next_event_id) s.events
  pub one : (i : ℕ) → count_where (λ t. t.sms_event_id == i) s.transactions ≤ 1
  pub money : All (λ t. any_where (has_money t.sms_event_id) s.events ≡ true) s.transactions

none_below :
    (n i : ℕ) (es : List SmsEvent)
    → All (λ e. e.id < n) es
    → n ≤ i
    → count_where (λ e. e.id == i) es ≡ 0
unfolding count_where
none_below n i [] h le = refl
none_below n i (e ∷ es) h le = ground (arith, h.0, none_below n i es h.1 le)

pub count_money-le :
    (i : ℕ) (es : List SmsEvent) → count_where (has_money i) es ≤ count_where (λ e. e.id == i) es
unfolding count_where
count_money-le i [] = omega arith
count_money-le i (e ∷ es) = ground (arith, count_money-le i es)

-- a transaction's event carries money, so an event without any has no transaction
pub none_read :
    (i : ℕ) (es : List SmsEvent) (ts : List TransactionCandidate)
    → All (λ t. any_where (has_money t.sms_event_id) es ≡ true) ts
    → count_where (has_money i) es ≡ 0
    → count_where (λ t. t.sms_event_id == i) ts ≡ 0
unfolding count_where
none_read i es [] h empty = refl
none_read i es (t ∷ ts) h empty = elim (Bool-cases (t.sms_event_id == i)) [
  | inl mine ↦
      let same : t.sms_event_id ≡ i = (==_iff t.sms_event_id i).0 mine in
      let there : any_where (has_money i) es ≡ true =
        subst (λ j. any_where (has_money j) es ≡ true) same h.0 in
      absurd (omega (arith, empty, any_where-true (has_money i) es there))
  | inr other ↦ rw other (omega (arith, none_read i es ts h.1 empty))
]

any-cons :
    {A : Type 0} (p : A → Bool) (a : A) (xs : List A)
    → any_where p xs ≡ true
    → any_where p (a ∷ xs) ≡ true
unfolding any_where
any-cons p a xs h = ground (arith, h)

-- what `persist_candidate` adds
abbrev pub Adds : ℕ → Inbox → Inbox → Type 0
Adds i s s' =
    (t : TransactionCandidate) × (t.sms_event_id ≡ i)
    × (s'.transactions ≡ t ∷ s.transactions)
    × (s'.events ≡ s.events)
    × (s'.next_event_id ≡ s.next_event_id)

pub persist-Adds :
    (i : ℕ) (p : ParseResult) (at : ℕ) (seen : Registry) (s : Inbox)
    → Ensures
        (λ (x : Inbox × TransactionCandidate × Bool). Adds i s (x.0))
        (persist_candidate i p at seen s)
unfolding persist_candidate new_candidate
persist-Adds i p at seen s = Ensures-bind _ _ λ (r : Resolved) k.
    Ensures-bind _ _ λ (u : Unit {0}) e. Ensures-done _ (_, refl, refl, refl, refl)

-- the first transaction of an event that carries money
pub added-IsFiled :
    (i : ℕ) (s s' : Inbox)
    → Adds i s s'
    → any_where (has_money i) s.events ≡ true
    → count_where (λ (t : TransactionCandidate). t.sms_event_id == i) s.transactions ≡ 0
    → IsFiled s
    → IsFiled s'
added-IsFiled i s s' (t, own, rows, events, next) there none_yet h = record {
  keys = λ k. rw events (h.keys k);
  ids = λ j. rw events (h.ids j);
  below = rw events (rw next h.below);
  one = λ j. rw rows (
      unique_cons (λ x. x.sms_event_id == j) t s.transactions (h.one j)
        (λ hit.
          let same : i ≡ j = sym own ∙ (==_iff t.sms_event_id j).0 hit in
          subst
            (λ k.
              count_where (λ (x : TransactionCandidate). x.sms_event_id == k) s.transactions ≡ 0)
            same none_yet));
  money = rw rows (
    subst (λ k. any_where (has_money k) s'.events ≡ true) (sym own) (rw events there),
    All-mono _ _ s.transactions (λ x k. rw events k) h.money,
  );
}

-- a new event under a key that is not there
inserted-IsFiled :
    (e : SmsEvent) (s : Inbox)
    → e.id ≡ s.next_event_id
    → find_event e.dedupe_key s ≡ none
    → IsFiled s
    → IsFiled (insert_event e s)
unfolding insert_event find_event
inserted-IsFiled e s next new h = record {
  keys = λ k.
      unique_cons (λ x. str_eq x.dedupe_key k) e s.events (h.keys k)
        (λ hit.
          let same : e.dedupe_key ≡ k = (str_eq_iff e.dedupe_key k).0 hit in
          none_of_find (λ x. str_eq x.dedupe_key k) s.events
            (subst (λ j. find_event j s ≡ none) same new));
  ids = λ i.
      unique_cons (λ x. x.id == i) e s.events (h.ids i)
        (λ hit. none_below s.next_event_id i s.events h.below (ground (arith, hit, next)));
  below = (omega (arith, next), All-mono _ _ s.events (λ x k. omega (arith, k)) h.below);
  one = h.one;
  money =
      All-mono _ _ s.transactions (λ t k. any-cons (has_money t.sms_event_id) e s.events k) h.money;
}

matched-money :
    (e : SmsEvent) (p : ParseResult) (s : Inbox)
    → e.classification ≡ p.classification
    → matched p ≡ true
    → any_where (has_money e.id) (insert_event e s).events ≡ true
unfolding matched insert_event any_where
matched-money e p s same money =
    let own = (==_iff e.id e.id).1 refl in
    let carries : carries_money e.classification ≡ true = rw same money in rw own (rw carries refl)

finish-IsFiled :
    (d : Delivery) (e : SmsEvent) (p : ParseResult) (seen : Registry) (s : Inbox)
    → e.id ≡ s.next_event_id
    → e.classification ≡ p.classification
    → find_event e.dedupe_key s ≡ none
    → IsFiled s
    → Ensures (λ (x : Inbox × IngestOutcome). IsFiled (x.0)) (finish d e p seen (insert_event e s))
unfolding finish with_row touch insert_event
finish-IsFiled d e p seen s next same new h =
    let h' = inserted-IsFiled e s next new h in
    elim (Bool-cases (matched p)) [
      | inr other ↦ rw other (Ensures-done _ h')
      | inl money ↦ rw money (
          Ensures-bind _ _ λ (x : Inbox × TransactionCandidate × Bool) k.
            let k' =
              added-IsFiled e.id (insert_event e s) (x.0)
                ((persist-Adds e.id p e.sms_timestamp seen (insert_event e s)).at x k)
                (matched-money e p s same money)
                (none_read e.id s.events s.transactions h.money (
                  omega (
                    arith,
                    count_money-le e.id s.events,
                    none_below s.next_event_id e.id s.events h.below (omega (arith, next)),
                  )))
                h' in
            Ensures-done _ record {
              keys = k'.keys;
              ids = k'.ids;
              below = k'.below;
              one = k'.one;
              money = k'.money;
            })
    ]

flush-IsFiled :
    (d : Delivery) (e : SmsEvent) (p : ParseResult) (known : Option SmsEvent) (seen : Registry)
    (s : Inbox)
    → find_event e.dedupe_key s ≡ known
    → e.id ≡ s.next_event_id
    → e.classification ≡ p.classification
    → IsFiled s
    → Ensures (λ (x : Inbox × IngestOutcome). IsFiled (x.0)) (flush_event d e p known seen s)
unfolding flush_event
flush-IsFiled d e p (some other) seen s found next same h = Ensures-done _ h
flush-IsFiled d e p none seen s found next same h = finish-IsFiled d e p seen s next same found h

known-IsFiled :
    (o : Outside) (d : Delivery) (at : ℕ × List String) (known : Option SmsEvent) (seen : Registry)
    (s : Inbox)
    → IsFiled s
    → Ensures (λ (x : Inbox × IngestOutcome). IsFiled (x.0)) (known_or_store o d at known seen s)
unfolding known_or_store store new_event
known-IsFiled o d at (some e) seen s h = Ensures-done _ h
known-IsFiled o d at none seen s h = Ensures-bind _ _ λ (p : ParseResult) k.
    Ensures-bind _ _ λ (u : Unit {0}) k'.
      flush-IsFiled d (new_event o d at p s.next_event_id) p
        (find_event (new_event o d at p s.next_event_id).dedupe_key s) seen s refl refl refl h

pub ingest-IsFiled :
    (o : Outside) (d : Delivery) (early : Seen) (s : Inbox)
    → IsFiled s
    → Ensures (λ (x : Inbox × IngestOutcome). IsFiled (x.0)) (ingest o d early s)
unfolding ingest
ingest-IsFiled o d early s h =
    Ensures-bind _ _ λ (at : ℕ × List String) k. known-IsFiled o d at _ early.registry s h
