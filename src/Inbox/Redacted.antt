-- ===== src/Inbox/Redacted.antt =====
-- What `ingest` stores of a message with a one-time password.
use alo_bot_dashboard.Prelude.{
  ℕ, ◌≡◌, ◌⊎◌, inl, inr, sym, subst, false, String, Option, none, some, List, All, Bool-cases,
  Ensures, Ensures-done, Ensures-bind,
}
use alo_bot_dashboard.Unicode.{Unicode}
use alo_bot_dashboard.Sms.{ParseResult}
use alo_bot_dashboard.Sms.Redacted.{IsRedacted, redact_otp-IsRedacted}
use alo_bot_dashboard.Accounts.{Registry}
use alo_bot_dashboard.Inbox.{SmsEvent, Inbox, Outside}
use alo_bot_dashboard.Inbox.Stamp.{IngestOutcome}
use alo_bot_dashboard.Inbox.Receive.{
  Delivery, Seen, is_otp, new_event, flush_event, insert_event, store, known_or_store, ingest,
}
use alo_bot_dashboard.Inbox.Once.{finish-events}

-- an event that is no one-time password, or whose text has no four digits in a row
abbrev pub IsSafe : Unicode → SmsEvent → Type 0
IsSafe u e = (is_otp e.classification ≡ false) ⊎ IsRedacted u e.body

new-IsSafe :
    (o : Outside) (d : Delivery) (at : ℕ × List String) (p : ParseResult) (i : ℕ)
    → IsSafe o.unicode (new_event o d at p i)
unfolding new_event
new-IsSafe o d at p i = elim (Bool-cases (is_otp p.classification)) [
  | inl otp ↦ inr (rw otp (redact_otp-IsRedacted o.unicode d.message))
  | inr other ↦ inl other
]

module _ (o : Outside) where
  abbrev AllSafe : Inbox → Type 0
  AllSafe s = All (λ e. IsSafe o.unicode e) s.events

  flush-AllSafe :
      (d : Delivery) (e : SmsEvent) (p : ParseResult) (known : Option SmsEvent) (seen : Registry)
      (s : Inbox)
      → IsSafe o.unicode e
      → AllSafe s
      → Ensures (λ (x : Inbox × IngestOutcome). AllSafe (x.0)) (flush_event d e p known seen s)
  unfolding flush_event insert_event
  flush-AllSafe d e p (some other) seen s safe h = Ensures-done _ h
  flush-AllSafe d e p none seen s safe h = record {
    at = λ x k.
        let (events, out) = (finish-events d e p seen (insert_event e s)).at x k in
        subst (λ es. All (λ e. IsSafe o.unicode e) es) (sym events) (safe, h);
  }

  store-AllSafe :
      (d : Delivery) (at : ℕ × List String) (seen : Registry) (s : Inbox)
      → AllSafe s
      → Ensures (λ (x : Inbox × IngestOutcome). AllSafe (x.0)) (store o d at seen s)
  unfolding store
  store-AllSafe d at seen s h = Ensures-bind _ _ λ (p : ParseResult) k.
      Ensures-bind _ _ λ (u : Unit {0}) k'.
        flush-AllSafe d (new_event o d at p s.next_event_id) p _ seen s
          (new-IsSafe o d at p s.next_event_id) h

  known-AllSafe :
      (d : Delivery) (at : ℕ × List String) (known : Option SmsEvent) (seen : Registry) (s : Inbox)
      → AllSafe s
      → Ensures (λ (x : Inbox × IngestOutcome). AllSafe (x.0)) (known_or_store o d at known seen s)
  unfolding known_or_store
  known-AllSafe d at (some e) seen s h = Ensures-done _ h
  known-AllSafe d at none seen s h = store-AllSafe d at seen s h

  -- Taking in a message stores no one-time password: if no stored event that is classified as one has
  -- four digits in a row in its text, none has after any message, raced by another request or not.
  -- This speaks of `ingest` alone: the reparsing of stored events does not redact what it reads anew.
  pub ingest_redacts :
      (d : Delivery) (early : Seen) (s : Inbox)
      → All (λ e. IsSafe o.unicode e) s.events
      → Ensures
          (λ (x : Inbox × IngestOutcome). All (λ e. IsSafe o.unicode e) x.0.events)
          (ingest o d early s)
  unfolding ingest
  ingest_redacts d early s h =
      Ensures-bind _ _ λ (at : ℕ × List String) k. known-AllSafe d at _ early.registry s h
