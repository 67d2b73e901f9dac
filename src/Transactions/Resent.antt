-- ===== src/Transactions/Resent.antt =====
-- What the relay phone sends again, after any other writes to the inbox.
use alo_bot_dashboard.Prelude.{
  ℕ, ◌≡◌, refl, ◌∙◌, ap, inl, inr, Bool, true, false, String, Option, none, some, List, [], ◌∷◌,
  ◌==◌, str_eq, str_eq_iff, if◌then◌else◌, find_where, update_where, Bool-cases, Result, done,
  ◌>>=◌, Ensures, Ensures-done, Ensures-bind,
}
use alo_bot_dashboard.Model.{Disposition}
use alo_bot_dashboard.Audit.{Actor}
use alo_bot_dashboard.Sms.{ParseResult, matched}
use alo_bot_dashboard.Sms.Patterns.{DbPattern}
use alo_bot_dashboard.Accounts.{Registry}
use alo_bot_dashboard.Inbox.{
  SmsEvent, TransactionCandidate, Inbox, Outside, IngestError, find_event, load_patterns,
}
use alo_bot_dashboard.Inbox.Stamp.{IngestOutcome, dedupe_key, parse_timestamp}
use alo_bot_dashboard.Inbox.Filed.{persist-Adds}
use alo_bot_dashboard.Inbox.Receive.{
  Delivery, Seen, stamp, from_parser, stamp_of, duplicate_of, known_or_store, ingest,
}
use alo_bot_dashboard.Inbox.Once.{
  Kept, View, id_of, view, put_if_absent, store-Refines, ingest-Refines,
}
use alo_bot_dashboard.Transactions.{
  log, set_candidate, assign_account, set_disposition, reclassified, reclassify, reparse_known,
  state_of, is_unknown, reparse_one, reparse_all, Reparsed, reparse_unparsed,
}
use alo_bot_dashboard.Transactions.Filing.{Write, Filing}

-- the same request once more, at another time
abbrev pub resent : ℕ → ℕ → Option String → Delivery → Delivery
resent now received_at request_id d = record d {
  now = now;
  received_at = received_at;
  request_id = request_id;
}

parsed-stamp :
    (o : Outside) (d : Delivery) (t : ℕ)
    → parse_timestamp o d.timestamp_raw ≡ done (some t)
    → stamp_of o d ≡ done (t, [])
unfolding stamp_of ◌>>=◌ from_parser stamp
parsed-stamp o d t h = rw h refl

put-keeps :
    (key : String) (n : ℕ) (v : View) (j : String) (i : ℕ)
    → v j ≡ some i
    → put_if_absent key n v j ≡ some i
put-keeps key n v j i h = elim (Bool-cases (str_eq key j)) [
  | inl same ↦
      let here : key ≡ j = (str_eq_iff key j).0 same in
      let first : v key ≡ some i = ap v here ∙ h in rw same (rw first refl)
  | inr other ↦ rw other h
]

-- the log has the key with the id
abbrev pub Has : String → ℕ → Inbox → Type 0
Has j i s = view s j ≡ some i

events-Has : (j : String) (i : ℕ) (s s' : Inbox) → s'.events ≡ s.events → Has j i s → Has j i s'
unfolding find_event
events-Has j i s s' same h =
    ap (λ es. id_of (find_where (λ (e : SmsEvent). str_eq e.dedupe_key j) es)) same ∙ h

known-Has :
    (o : Outside) (d : Delivery) (at : ℕ × List String) (early : Option SmsEvent) (seen : Registry)
    (s : Inbox) (j : String) (i : ℕ)
    → Has j i s
    → Ensures (λ (x : Inbox × IngestOutcome). Has j i (x.0)) (known_or_store o d at early seen s)
unfolding known_or_store
known-Has o d at (some e) seen s j i h = Ensures-done _ h
known-Has o d at none seen s j i h = record {
  at = λ x k.
      ((store-Refines o d at seen s _ refl).at x k).0 j
      ∙ put-keeps (dedupe_key o d.device_id d.sender (at.0) d.message) s.next_event_id (view s) j i
          h;
}

arrived-Has :
    (o : Outside) (d : Delivery) (early : Seen) (s : Inbox) (j : String) (i : ℕ)
    → Has j i s
    → Ensures (λ (x : Inbox × IngestOutcome). Has j i (x.0)) (ingest o d early s)
unfolding ingest
arrived-Has o d early s j i h =
    Ensures-bind _ _ λ (at : ℕ × List String) k. known-Has o d at _ early.registry s j i h

-- a new classification changes no key and no id
reclassified-id :
    (p : ParseResult) (n : ℕ) (j : String) (es : List SmsEvent)
    → id_of (
        find_where (λ e. str_eq e.dedupe_key j) (update_where (λ e. e.id == n) (reclassified p) es))
      ≡ id_of (find_where (λ e. str_eq e.dedupe_key j) es)
unfolding find_where update_where reclassified
reclassified-id p n j [] = refl
reclassified-id p n j (e ∷ es) = elim (Bool-cases (str_eq e.dedupe_key j)) [
  | inl here ↦ elim (Bool-cases (e.id == n)) [
    | inl hit ↦ simp (hit, here)
    | inr miss ↦ simp (miss, here)
  ]
  | inr away ↦ elim (Bool-cases (e.id == n)) [
    | inl hit ↦ simp (hit, away, reclassified-id p n j es)
    | inr miss ↦ simp (miss, away, reclassified-id p n j es)
  ]
]

reclassify-Has :
    (ev : SmsEvent) (p : ParseResult) (s : Inbox) (j : String) (i : ℕ)
    → Has j i s
    → Has j i (reclassify ev p s)
unfolding reclassify find_event
reclassify-Has ev p s j i h = reclassified-id p ev.id j s.events ∙ h

reparse_known-Has :
    (ev : SmsEvent) (p : ParseResult) (seen : Registry) (s : Inbox) (j : String) (i : ℕ)
    → Has j i s
    → Ensures (Has j i) (reparse_known ev p seen s)
unfolding reparse_known matched state_of
reparse_known-Has ev p seen s j i h =
    let h' = reclassify-Has ev p s j i h in
    Ensures-bind _ _ λ (u : Unit {0}) fits. elim (Bool-cases (matched p)) [
      | inr other ↦ rw other (Ensures-done _ h')
      | inl money ↦ rw money (
          Ensures-bind _ _ λ (x : Inbox × TransactionCandidate × Bool) k.
            let (t, own, rows, events, next) =
              (persist-Adds ev.id p ev.sms_timestamp seen (reclassify ev p s)).at x k in
            Ensures-done _ (events-Has j i (reclassify ev p s) (x.0) events h'))
    ]

reparse_one-Has :
    (o : Outside) (lookup : Registry → Registry) (patterns : List DbPattern) (apply : Bool)
    (ev : SmsEvent) (s : Inbox) (n : ℕ) (j : String) (i : ℕ)
    → Has j i s
    → Ensures (λ (x : Inbox × ℕ). Has j i (x.0)) (reparse_one o lookup patterns apply ev (s, n))
unfolding reparse_one
reparse_one-Has o lookup patterns apply ev s n j i h = Ensures-bind _ _ λ (p : ParseResult) k.
    elim (Bool-cases (is_unknown p.classification)) [
      | inl still ↦ rw still (Ensures-done _ h)
      | inr read ↦ rw read (elim (Bool-cases apply) [
        | inr dry ↦ rw dry (Ensures-done _ h)
        | inl wet ↦ rw wet (
            Ensures-bind _ _ λ (s' : Inbox) k'.
              Ensures-done _ ((reparse_known-Has ev p (lookup s.registry) s j i h).at s' k'))
      ])
    ]

reparse_all-Has :
    (o : Outside) (lookup : Registry → Registry) (patterns : List DbPattern) (apply : Bool)
    (evs : List SmsEvent) (s : Inbox) (n : ℕ) (j : String) (i : ℕ)
    → Has j i s
    → Ensures (λ (x : Inbox × ℕ). Has j i (x.0)) (reparse_all o lookup patterns apply evs (s, n))
unfolding reparse_all
reparse_all-Has o lookup patterns apply [] s n j i h = Ensures-done _ h
reparse_all-Has o lookup patterns apply (ev ∷ evs) s n j i h = Ensures-bind _ _ λ (x : Inbox × ℕ) k.
    reparse_all-Has o lookup patterns apply evs (x.0) (x.1) j i
      ((reparse_one-Has o lookup patterns apply ev s n j i h).at x k)

logged-Has :
    (b : Bool) (t s : Inbox) (j : String) (i : ℕ)
    → t.events ≡ s.events
    → Has j i s
    → Has j i (if b then t else s)
logged-Has true t s j i same h = events-Has j i s t same h
logged-Has false t s j i same h = h

reread-Has :
    (o : Outside) (lookup : Registry → Registry) (actor : Actor) (apply : Bool) (s : Inbox)
    (j : String) (i : ℕ)
    → Has j i s
    → Ensures (λ (x : Reparsed). Has j i x.inbox) (reparse_unparsed o lookup actor apply s)
unfolding reparse_unparsed log
reread-Has o lookup actor apply s j i h = Ensures-bind _ _ λ (x : Inbox × ℕ) k. Ensures-done _ (
    logged-Has apply _ (x.0) j i refl
      ((reparse_all-Has o lookup (load_patterns s) apply _ s 0 j i h).at x k))

assigned-Has :
    (actor : Actor) (n : ℕ) (account : Option ℕ) (s : Inbox) (j : String) (i : ℕ)
    → Has j i s
    → Ensures (Has j i) (assign_account actor n account s)
unfolding assign_account log set_candidate
assigned-Has actor n account s j i h = Ensures-bind _ _ λ (t : TransactionCandidate) e.
    Ensures-bind _ _ λ (u : Unit {0}) k. Ensures-done _ (events-Has j i s _ refl h)

disposed-Has :
    (actor : Actor) (n : ℕ) (d : Option Disposition) (note : String) (s : Inbox) (j : String)
    (i : ℕ)
    → Has j i s
    → Ensures (Has j i) (set_disposition actor n d note s)
unfolding set_disposition log set_candidate
disposed-Has actor n d note s j i h = Ensures-bind _ _ λ (x : Disposition) e.
    Ensures-bind _ _ λ (t : TransactionCandidate) k. Ensures-done _ (events-Has j i s _ refl h)

Write-Has : {s s' : Inbox} (j : String) (i : ℕ) → Write s s' → Has j i s → Has j i s'
Write-Has j i (Write.arrived o d early s x e) h = (arrived-Has o d early s j i h).at x e
Write-Has j i (Write.assigned actor n account s s' e) h =
    (assigned-Has actor n account s j i h).at s' e
Write-Has j i (Write.disposed actor n d note s s' e) h =
    (disposed-Has actor n d note s j i h).at s' e
Write-Has j i (Write.reread o lookup actor apply s x e) h =
    (reread-Has o lookup actor apply s j i h).at x e

Filing-Has : {s s' : Inbox} (j : String) (i : ℕ) → Filing s s' → Has j i s → Has j i s'
Filing-Has j i Filing.here h = h
Filing-Has j i (Filing.next r w) h = Write-Has j i w (Filing-Has j i r h)

-- the answer that an event is there already: `seen` is the state of the lookup, `s` the one at the end
abbrev pub IsKnown :
    String → ℕ → Inbox → Inbox → Result IngestError (Inbox × IngestOutcome) → Type 0
IsKnown key i seen s answer =
    (e : SmsEvent) × (find_event key seen ≡ some e)
    × (e.id ≡ i)
    × (answer ≡ done (s, duplicate_of e))

answered :
    (o : Outside) (d : Delivery) (t i : ℕ) (again : Seen) (s' : Inbox) (found : Option SmsEvent)
    → stamp_of o d ≡ done (t, [])
    → find_event (dedupe_key o d.device_id d.sender t d.message) again.inbox ≡ found
    → id_of found ≡ some i
    → IsKnown (dedupe_key o d.device_id d.sender t d.message) i again.inbox s' (ingest o d again s')
unfolding ingest known_or_store ◌>>=◌
answered o d t i again s' none stamped found h = absurd (cc)
answered o d t i again s' (some e) stamped found h = (e, found, cc, rw (stamped, found) refl)

-- What the relay phone sends again is harmless, whatever happens in between: once a message whose
-- timestamp can be read has been taken in, then after any sequence of other messages, assigned accounts,
-- dispositions and runs of the parser, the same request at any later time finds the event that the first
-- answer named; it is answered as a duplicate of that event, with the classification it has by then and
-- no transaction, and writes nothing, whatever is written between its lookup and its end.
pub ingest_again :
    (o : Outside) (d : Delivery) (now received_at : ℕ) (request_id : Option String) (t : ℕ)
    (early : Seen) (s : Inbox) (x : Inbox × IngestOutcome) (again : Seen) (s'' : Inbox)
    → parse_timestamp o d.timestamp_raw ≡ done (some t)
    → Kept early.inbox s
    → ingest o d early s ≡ done x
    → Filing (x.0) again.inbox
    → IsKnown
        (dedupe_key o d.device_id d.sender t d.message)
        x.1.event_id
        again.inbox
        s''
        (ingest o (resent now received_at request_id d) again s'')
ingest_again o d now received_at request_id t early s x again s'' parsed kept first between =
    let key = dedupe_key o d.device_id d.sender t d.message in
    let (log, named, duplicate) =
      (ingest-Refines o d early s (t, []) (parsed-stamp o d t parsed) kept).at x first in
    answered o (resent now received_at request_id d) t x.1.event_id again s'' _
      (parsed-stamp o (resent now received_at request_id d) t parsed) refl
      (Filing-Has key x.1.event_id between named)
