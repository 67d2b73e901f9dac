-- ===== src/Inbox/Once.antt =====
-- A message is stored once, as an abstract log would keep it.
use alo_bot_dashboard.Prelude.{
  ℕ, ◌≡◌, refl, ap, sym, subst, inl, inr, Bool, true, false, String, Option, none, some, List, ◌∷◌,
  str_eq, str_eq_iff, is_some, if◌then◌else◌, find_where, Bool-cases, done, ◌>>=◌, Ensures,
  Ensures-done, Ensures-bind,
}
use alo_bot_dashboard.Sms.{ParseResult, matched}
use alo_bot_dashboard.Inbox.{SmsEvent, TransactionCandidate, Inbox, Outside, find_event}
use alo_bot_dashboard.Inbox.Stamp.{IngestOutcome, dedupe_key}
use alo_bot_dashboard.Accounts.{Registry}
use alo_bot_dashboard.Inbox.Resolve.{Resolved}
use alo_bot_dashboard.Inbox.Candidate.{persist_candidate}
use alo_bot_dashboard.Inbox.Receive.{
  Delivery, Seen, new_event, stamp_of, with_row, outcome_of, finish, insert_event, flush_event,
  store, duplicate_of, known_or_store, ingest, touch,
}

-- a candidate's row leaves the events as they are
persist-events :
    (i : ℕ) (p : ParseResult) (at : ℕ) (seen : Registry) (s : Inbox)
    → Ensures
        (λ (x : Inbox × TransactionCandidate × Bool). x.0.events ≡ s.events)
        (persist_candidate i p at seen s)
unfolding persist_candidate
persist-events i p at seen s =
    Ensures-bind _ _ λ (r : Resolved) k. Ensures-bind _ _ λ (u : Unit {0}) e. Ensures-done _ refl

pub finish-events :
    (d : Delivery) (e : SmsEvent) (p : ParseResult) (seen : Registry) (s : Inbox)
    → Ensures
        (λ (x : Inbox × IngestOutcome).
          (x.0.events ≡ s.events) × (x.1 ≡ outcome_of e p x.1.actionable x.1.transaction_id))
        (finish d e p seen s)
unfolding finish with_row touch outcome_of
finish-events d e p seen s = elim (Bool-cases (matched p)) [
  | inl money ↦ rw money (
      Ensures-bind _ _ λ (x : Inbox × TransactionCandidate × Bool) k.
        Ensures-done _ ((persist-events e.id p e.sms_timestamp seen s).at x k, refl))
  | inr other ↦ rw other (Ensures-done _ (refl, refl))
]

key-new :
    (o : Outside) (d : Delivery) (at : ℕ × List String) (p : ParseResult) (i : ℕ)
    → (new_event o d at p i).dedupe_key ≡ dedupe_key o d.device_id d.sender (at.0) d.message
unfolding new_event
key-new o d at p i = refl

-- a state that gained an event
abbrev pub Gained : SmsEvent → Inbox → Inbox × IngestOutcome → Type 0
Gained e s x =
    (x.0.events ≡ e ∷ s.events)
    × (x.1.event_id ≡ e.id)
    × (x.1.classification ≡ e.classification)
    × (x.1.duplicate ≡ false)

flush-Gained :
    (d : Delivery) (e : SmsEvent) (p : ParseResult) (seen : Registry) (s : Inbox)
    → e.classification ≡ p.classification
    → Ensures (Gained e s) (flush_event d e p none seen s)
unfolding flush_event insert_event outcome_of
flush-Gained d e p seen s same = record {
  at = λ x k.
      let (events, out) = (finish-events d e p seen (insert_event e s)).at x k in
      (events, rw out refl, rw out (sym same), rw out refl);
}

pub store-Gained :
    (o : Outside) (d : Delivery) (at : ℕ × List String) (seen : Registry) (s : Inbox)
    → find_event (dedupe_key o d.device_id d.sender (at.0) d.message) s ≡ none
    → Ensures
        (λ (x : Inbox × IngestOutcome).
          (e : SmsEvent) × (e.dedupe_key ≡ dedupe_key o d.device_id d.sender (at.0) d.message)
          × (e.id ≡ s.next_event_id)
          × (Gained e s x))
        (store o d at seen s)
unfolding store new_event
store-Gained o d at seen s new = Ensures-bind _ _ λ (p : ParseResult) k.
    Ensures-bind _ _ λ (u : Unit {0}) k'. record {
      at = λ x k''.
          let e = new_event o d at p s.next_event_id in
          (e, refl, refl, (flush-Gained d e p seen s refl).at x (rw new at k''));
    }

-- the abstract log: for each key the id of the first message that had it
abbrev pub View : Type 0
View = String → Option ℕ

abbrev pub id_of : Option SmsEvent → Option ℕ
id_of none = none
id_of (some e) = some e.id

abbrev pub view : Inbox → View
view s key = id_of (find_event key s)

abbrev first_of : Option ℕ → ℕ → Option ℕ
first_of (some i') i = some i'
first_of none i = some i

abbrev pub put_if_absent : String → ℕ → View → View
put_if_absent key i v j = if str_eq key j then first_of (v key) i else v j

pub gained-find :
    (e : SmsEvent) (s s' : Inbox) (j : String)
    → s'.events ≡ e ∷ s.events
    → find_event j s' ≡ (if str_eq e.dedupe_key j then some e else find_event j s)
unfolding find_event find_where
gained-find e s s' j h = ap (λ es. find_where (λ x. str_eq x.dedupe_key j) es) h

if-id :
    (b : Bool) (e : SmsEvent) (o : Option SmsEvent)
    → id_of (if b then some e else o) ≡ (if b then some e.id else id_of o)
if-id true e o = refl
if-id false e o = refl

-- a key that is there
known-view :
    (key : String) (i : ℕ) (s : Inbox) (e : SmsEvent) (j : String)
    → find_event key s ≡ some e
    → view s j ≡ put_if_absent key i (view s) j
known-view key i s e j h = elim (Bool-cases (str_eq key j)) [
  | inl same ↦ rw same (let k : key ≡ j = (str_eq_iff key j).0 same in rw (← k) (rw h refl))
  | inr other ↦ rw other refl
]

fresh-view :
    (s s' : Inbox) (e : SmsEvent) (j : String)
    → find_event e.dedupe_key s ≡ none
    → s'.events ≡ e ∷ s.events
    → view s' j ≡ put_if_absent e.dedupe_key e.id (view s) j
fresh-view s s' e j new h =
    rw (gained-find e s s' j h)
      (rw (if-id (str_eq e.dedupe_key j) e (find_event j s)) (rw new refl))

-- what an answer says of the log before and after
abbrev pub Refines : String → Inbox → Inbox × IngestOutcome → Type 0
Refines key s x =
    ((j : String) → view x.0 j ≡ put_if_absent key s.next_event_id (view s) j)
    × (view x.0 key ≡ some x.1.event_id)
    × (x.1.duplicate ≡ is_some (view s key))

fresh-Refines :
    (e : SmsEvent) (s : Inbox) (x : Inbox × IngestOutcome)
    → find_event e.dedupe_key s ≡ none
    → e.id ≡ s.next_event_id
    → Gained e s x
    → Refines e.dedupe_key s x
fresh-Refines e s x new next (events, id, class, first) = (
  λ j. rw (fresh-view s (x.0) e j new events) (rw next refl),
  rw (fresh-view s (x.0) e e.dedupe_key new events)
      (rw ((str_eq_iff e.dedupe_key e.dedupe_key).1 refl) (rw new (ap some (sym id)))),
  rw first (rw new refl),
)

known-Refines :
    (o : Outside) (d : Delivery) (at : ℕ × List String) (seen : Registry) (s : Inbox)
    (known : Option SmsEvent)
    → find_event (dedupe_key o d.device_id d.sender (at.0) d.message) s ≡ known
    → Ensures
        (Refines (dedupe_key o d.device_id d.sender (at.0) d.message) s)
        (known_or_store o d at known seen s)
unfolding known_or_store duplicate_of
known-Refines o d at seen s (some e) h = Ensures-done _ (
  λ j. known-view (dedupe_key o d.device_id d.sender (at.0) d.message) s.next_event_id s e j h,
  ap id_of h,
  rw h refl,
)
known-Refines o d at seen s none h = record {
  at = λ x k.
      let (e, own, next, gained) = (store-Gained o d at seen s h).at x k in
      subst (λ key. Refines key s x) own (fresh-Refines e s x (rw own h) next gained);
}

-- the key was there when the row was flushed
raced-Refines :
    (o : Outside) (d : Delivery) (at : ℕ × List String) (seen : Registry) (s : Inbox) (e : SmsEvent)
    → find_event (dedupe_key o d.device_id d.sender (at.0) d.message) s ≡ some e
    → Ensures (Refines (dedupe_key o d.device_id d.sender (at.0) d.message) s) (store o d at seen s)
unfolding store new_event flush_event duplicate_of
raced-Refines o d at seen s e h = Ensures-bind _ _ λ (p : ParseResult) k.
    Ensures-bind _ _ λ (u : Unit {0}) k'. rw h (
      Ensures-done _ (
        λ j.
            known-view (dedupe_key o d.device_id d.sender (at.0) d.message) s.next_event_id s e j h,
        ap id_of h,
        rw h refl,
      ))

pub store-Refines :
    (o : Outside) (d : Delivery) (at : ℕ × List String) (seen : Registry) (s : Inbox)
    (known : Option SmsEvent)
    → find_event (dedupe_key o d.device_id d.sender (at.0) d.message) s ≡ known
    → Ensures (Refines (dedupe_key o d.device_id d.sender (at.0) d.message) s) (store o d at seen s)
unfolding known_or_store
store-Refines o d at seen s (some e) h = raced-Refines o d at seen s e h
store-Refines o d at seen s none h = known-Refines o d at seen s none h

early-Refines :
    (o : Outside) (d : Delivery) (at : ℕ × List String) (seen : Registry) (s : Inbox)
    (early : Option SmsEvent)
    → ((e : SmsEvent)
        → early ≡ some e
        → find_event (dedupe_key o d.device_id d.sender (at.0) d.message) s ≡ some e)
    → Ensures
        (Refines (dedupe_key o d.device_id d.sender (at.0) d.message) s)
        (known_or_store o d at early seen s)
unfolding known_or_store
early-Refines o d at seen s (some e) kept = known-Refines o d at seen s (some e) (kept e refl)
early-Refines o d at seen s none kept = store-Refines o d at seen s _ refl

-- events are never lost on the way to a later state
abbrev pub Kept : Inbox → Inbox → Type 0
Kept early s =
    (key : String) (e : SmsEvent) → find_event key early ≡ some e → find_event key s ≡ some e

-- `ingest` refines the abstract log, whatever other requests wrote between its lookups and its flush: as
-- long as the events of the lookup are still there, it puts the message's key there, with the next id,
-- if the key is absent, and changes nothing else of the log; its answer names the id that the log then
-- has for the key, and says that the message is a duplicate exactly if the key was there.
pub ingest-Refines :
    (o : Outside) (d : Delivery) (early : Seen) (s : Inbox) (at : ℕ × List String)
    → stamp_of o d ≡ done at
    → Kept early.inbox s
    → Ensures (Refines (dedupe_key o d.device_id d.sender (at.0) d.message) s) (ingest o d early s)
unfolding ingest ◌>>=◌
ingest-Refines o d early s at stamped kept = rw stamped (
    early-Refines o d at early.registry s _
      (kept (dedupe_key o d.device_id d.sender (at.0) d.message)))
