-- ===== src/Inbox/Named.antt =====
-- An account that a message makes by itself breaks no unique constraint of the registry.
use alo_bot_dashboard.Prelude.{
  require-true, ℕ, ◌≡◌, refl, inl, inr, Bool, true, false, String, Option, none, some, List, [],
  ◌∷◌, arith, ◌==◌, ==_iff, All, any_where, any-update, is_blank, Bool-cases, Ensures, Ensures-done,
  Ensures-bind,
}
use alo_bot_dashboard.Unicode.{to_string}
use alo_bot_dashboard.Sms.{ParseResult, matched}
use alo_bot_dashboard.Accounts.{FinancialAccount, Registry, has_identifier, has_account}
use alo_bot_dashboard.Accounts.Unique.{IsUnique, named_insert, not-true}
use alo_bot_dashboard.Inbox.{SmsEvent, TransactionCandidate, Inbox, Outside}
use alo_bot_dashboard.Inbox.Resolve.{
  first_or_new, candidates, in_order, Resolved, unknown_account, unknown_identifier,
  register_unknown, guessed_kind, found_account, resolve_account,
}
use alo_bot_dashboard.Inbox.Stamp.{IngestOutcome}
use alo_bot_dashboard.Inbox.Candidate.{
  persist_candidate, note_owner, note_owner_of, resolved_for, inferred_owner,
}
use alo_bot_dashboard.Inbox.Receive.{
  Delivery, Seen, new_event, with_row, finish, flush_event, insert_event, store, known_or_store,
  ingest, touch,
}

-- the unique constraints, and every identifier's account is there
pub record IsLinked (r : Registry) : Type 0 where
  pub unique : IsUnique r
  pub owned : All (λ i. has_account i.account_id r ≡ true) r.identifiers

All-imp :
    {A : Type 0} {P Q : A → Type 0} (xs : List A) → ((x : A) → P x → Q x) → All P xs → All Q xs
All-imp [] f h = tt
All-imp (x ∷ xs) f h = (f x h.0, All-imp xs f h.1)

has-cons :
    (a : FinancialAccount) (rest : List FinancialAccount) (j : ℕ)
    → any_where (λ x. x.id == j) rest ≡ true
    → any_where (λ x. x.id == j) (a ∷ rest) ≡ true
unfolding any_where
has-cons a rest j h = ground (arith, h)

has-head :
    (a : FinancialAccount) (rest : List FinancialAccount)
    → any_where (λ x. x.id == a.id) (a ∷ rest) ≡ true
unfolding any_where
has-head a rest = let own = (==_iff a.id a.id).1 refl in rw own refl

-- a new account changes no other account's being there
register-IsLinked :
    (hint : String) (is_card : Bool) (bank_name : Option String) (r : Registry)
    → IsLinked r
    → Ensures (λ (x : Resolved). IsLinked x.registry) (register_unknown hint is_card bank_name r)
unfolding register_unknown unknown_identifier unknown_account has_account
register-IsLinked hint is_card bank_name r h = Ensures-bind _ _ λ (u : Unit {0}) k.
    let free : any_where (has_identifier (guessed_kind is_card) hint) r.identifiers ≡ false =
      not-true _ (require-true _ _ u k) in
    Ensures-done _ record {
      unique = record {
        named =
            named_insert (unknown_identifier hint is_card r.next_account_id r.next_identifier_id)
              r.identifiers free h.unique.named;
        numbered = h.unique.numbered;
      };
      owned = (
        has-head (unknown_account hint bank_name r.next_account_id) r.accounts,
        All-imp r.identifiers
            (λ x k'.
              has-cons (unknown_account hint bank_name r.next_account_id) r.accounts x.account_id
                k')
            h.owned,
      );
    }

first-IsLinked :
    (hint : String) (is_card : Bool) (bank_name : Option String) (r : Registry)
    (found : List FinancialAccount)
    → IsLinked r
    → Ensures (λ (x : Resolved). IsLinked x.registry) (first_or_new hint is_card bank_name r found)
unfolding first_or_new found_account
first-IsLinked hint is_card bank_name r [] h = register-IsLinked hint is_card bank_name r h
first-IsLinked hint is_card bank_name r (a ∷ rest) h = Ensures-done _ h

resolve-IsLinked :
    (hint : Option String) (is_card : Bool) (bank_name : Option String) (seen r : Registry)
    → IsLinked r
    → Ensures
        (λ (x : Resolved). IsLinked x.registry)
        (resolve_account hint is_card bank_name seen r)
unfolding resolve_account found_account
resolve-IsLinked none is_card bank_name seen r h = Ensures-done _ h
resolve-IsLinked (some hint) is_card bank_name seen r h = elim (Bool-cases (is_blank hint)) [
  | inl blank ↦ rw blank (Ensures-done _ h)
  | inr named ↦
      rw named (first-IsLinked hint is_card bank_name r (in_order (candidates hint seen)) h)
]

noted-IsLinked :
    (i : ℕ) (a : Option FinancialAccount) (r : Registry)
    → IsLinked r
    → IsLinked (note_owner_of i a r)
unfolding note_owner_of has_account
noted-IsLinked i none r h = h
noted-IsLinked i (some a) r h = record {
  unique = record { named = h.unique.named; numbered = h.unique.numbered };
  owned =
      All-imp r.identifiers
        (λ x k.
          rw
            (any-update (λ y. y.id == x.account_id) (λ y. y.id == a.id)
              (λ y. record y { inferred_from_account_id = some i }) r.accounts (λ y. refl))
            k)
        h.owned;
}

note-IsLinked : (i : Option ℕ) (r : Resolved) → IsLinked r.registry → IsLinked (note_owner i r)
unfolding note_owner
note-IsLinked none r h = h
note-IsLinked (some i) r h = noted-IsLinked i r.account r.registry h

persist-IsLinked :
    (i : ℕ) (p : ParseResult) (at : ℕ) (seen : Registry) (s : Inbox)
    → IsLinked s.registry
    → Ensures
        (λ (x : Inbox × TransactionCandidate × Bool). IsLinked x.0.registry)
        (persist_candidate i p at seen s)
unfolding persist_candidate resolved_for
persist-IsLinked i p at seen s h = Ensures-bind _ _ λ (r : Resolved) k.
    Ensures-bind _ _ λ (u : Unit {0}) e. Ensures-done _ (
      note-IsLinked (inferred_owner p at s.transactions r) r (
        (resolve-IsLinked (elim p.account_hint [ none ↦ none | some t ↦ some (to_string t) ])
            (elim p.evidence.is_card [ none ↦ false | some b ↦ b ]) p.bank_name seen s.registry
            h).at
          r k))

finish-IsLinked :
    (d : Delivery) (e : SmsEvent) (p : ParseResult) (seen : Registry) (s : Inbox)
    → IsLinked s.registry
    → Ensures (λ (x : Inbox × IngestOutcome). IsLinked x.0.registry) (finish d e p seen s)
unfolding finish with_row touch
finish-IsLinked d e p seen s h = elim (Bool-cases (matched p)) [
  | inl money ↦ rw money (
      Ensures-bind _ _ λ (x : Inbox × TransactionCandidate × Bool) k.
        Ensures-done _ ((persist-IsLinked e.id p e.sms_timestamp seen s h).at x k))
  | inr other ↦ rw other (Ensures-done _ h)
]

flush-IsLinked :
    (d : Delivery) (e : SmsEvent) (p : ParseResult) (known : Option SmsEvent) (seen : Registry)
    (s : Inbox)
    → IsLinked s.registry
    → Ensures
        (λ (x : Inbox × IngestOutcome). IsLinked x.0.registry)
        (flush_event d e p known seen s)
unfolding flush_event insert_event
flush-IsLinked d e p (some other) seen s h = Ensures-done _ h
flush-IsLinked d e p none seen s h = finish-IsLinked d e p seen (insert_event e s) h

known-IsLinked :
    (o : Outside) (d : Delivery) (at : ℕ × List String) (known : Option SmsEvent) (seen : Registry)
    (s : Inbox)
    → IsLinked s.registry
    → Ensures
        (λ (x : Inbox × IngestOutcome). IsLinked x.0.registry)
        (known_or_store o d at known seen s)
unfolding known_or_store store
known-IsLinked o d at (some e) seen s h = Ensures-done _ h
known-IsLinked o d at none seen s h = Ensures-bind _ _ λ (p : ParseResult) k.
    Ensures-bind _ _
      λ (u : Unit {0}) k'. flush-IsLinked d (new_event o d at p s.next_event_id) p _ seen s h

pub ingest-IsLinked :
    (o : Outside) (d : Delivery) (early : Seen) (s : Inbox)
    → IsLinked s.registry
    → Ensures (λ (x : Inbox × IngestOutcome). IsLinked x.0.registry) (ingest o d early s)
unfolding ingest
ingest-IsLinked o d early s h =
    Ensures-bind _ _ λ (at : ℕ × List String) k. known-IsLinked o d at _ early.registry s h
