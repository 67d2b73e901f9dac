-- ===== src/Inbox/Unraced.antt =====
-- The accounts that messages make: what the lookup of `resolve_account` covers of the unique index.
use alo_bot_dashboard.Prelude.{
  require, Result, done, refused, ◌>>=◌, ℕ, ◌≡◌, ◌≢◌, refl, ap, inl, inr, Bool, true, false,
  and_true, String, Option, none, some, List, [], ◌∷◌, arith, ◌==◌, ==_iff, str_eq_iff, All, keep,
  sort_by, length, length-sort_by, any_where, find_where, is_blank, Bool-cases, Ensures,
}
use alo_bot_dashboard.Unicode.{Text, codes, to_string, text_eq, ends_with}
use alo_bot_dashboard.Sms.{ParseResult, matched, ValueError}
use alo_bot_dashboard.Accounts.{
  FinancialAccount, Identifier, IdentifierKind, Registry, has_identifier, has_account,
}
use alo_bot_dashboard.Inbox.{SmsEvent, Inbox, Outside, IngestError}
use alo_bot_dashboard.Inbox.Resolve.{
  is_meant, owner_of, join_owner, owners, first_or_new, candidates, in_order, rank,
  register_unknown, guessed_kind, resolve_account,
}
use alo_bot_dashboard.Inbox.Named.{IsLinked, ingest-IsLinked}
use alo_bot_dashboard.Inbox.Stamp.{IngestOutcome}
use alo_bot_dashboard.Inbox.Candidate.{persist_candidate, resolved_for}
use alo_bot_dashboard.Inbox.Receive.{
  Delivery, Seen, from_parser, stamp_of, new_event, finish, flush_event, insert_event, store,
  known_or_store, ingest,
}

text_eq_refl : (cs : Text) → text_eq cs cs ≡ true
text_eq_refl [] = refl
text_eq_refl (c ∷ cs) = let e = (==_iff c c).1 refl in rw e (text_eq_refl cs)

ends_with_self : (cs : Text) → ends_with cs cs ≡ true
unfolding ends_with
ends_with_self [] = refl
ends_with_self (c ∷ cs) = let e = (==_iff c c).1 refl in rw e (rw (text_eq_refl cs) refl)

-- an identifier with the hint as its value is meant
same-is_meant :
    (k : IdentifierKind) (hint : String) (i : Identifier)
    → has_identifier k hint i ≡ true
    → is_meant hint i ≡ true
unfolding has_identifier is_meant
same-is_meant k hint i h =
    let (kind, value) = and_true _ _ h in
    let same : i.value ≡ hint = (str_eq_iff i.value hint).0 value in
    rw value (rw same (rw (ends_with_self (codes hint)) refl))

find-some_of_any :
    {A : Type 0} (p : A → Bool) (xs : List A) → find_where p xs ≡ none → any_where p xs ≡ false
unfolding find_where any_where
find-some_of_any p [] h = refl
find-some_of_any p (x ∷ xs) h = ground (arith, find-some_of_any p xs)

joined-nonempty :
    (o : Option FinancialAccount) (r : Registry) (i : Identifier) (rest : List FinancialAccount)
    → owner_of r i ≡ o
    → has_account i.account_id r ≡ true
    → join_owner o rest ≢ []
unfolding join_owner has_account owner_of
joined-nonempty none r i rest e h empty =
    cc (find-some_of_any (λ a. a.id == i.account_id) r.accounts e)
joined-nonempty (some a) r i rest e h empty = cc

-- where no owner is found, nothing is meant
none_meant :
    (p : Identifier → Bool) (r : Registry) (is : List Identifier)
    → All (λ i. has_account i.account_id r ≡ true) is
    → owners r (keep p is) ≡ []
    → any_where p is ≡ false
unfolding owners any_where
none_meant p r [] h e = refl
none_meant p r (i ∷ is) h e = elim (Bool-cases (p i)) [
  | inl meant ↦
      absurd (joined-nonempty (owner_of r i) r i (owners r (keep p is)) refl h.0 (rw meant at e))
  | inr other ↦ rw other (none_meant p r is h.1 (rw other at e))
]

any-implied :
    {A : Type 0} (p q : A → Bool) (xs : List A)
    → ((x : A) → p x ≡ true → q x ≡ true)
    → any_where q xs ≡ false
    → any_where p xs ≡ false
unfolding any_where
any-implied p q [] h e = refl
any-implied p q (x ∷ xs) h e = ground (arith, h x, e, any-implied p q xs h)

empty_of_length : {A : Type 0} (xs : List A) → length xs ≡ 0 → xs ≡ []
empty_of_length [] h = refl
empty_of_length (x ∷ xs) h = absurd (omega (arith, h))

in_order-empty : (found : List FinancialAccount) → in_order found ≡ [] → found ≡ []
unfolding in_order
in_order-empty found e = empty_of_length found (
    omega (
      arith,
      ap length e,
      length-sort_by rank (sort_by (λ (a : FinancialAccount). a.id) found),
      length-sort_by (λ (a : FinancialAccount). a.id) found,
    ))

-- where the lookup finds no account, the identifier's kind and value are free
none-free :
    (hint : String) (kind : IdentifierKind) (r : Registry)
    → IsLinked r
    → in_order (candidates hint r) ≡ []
    → any_where (has_identifier kind hint) r.identifiers ≡ false
unfolding candidates
none-free hint kind r h e =
    any-implied (has_identifier kind hint) (is_meant hint) r.identifiers (same-is_meant kind hint)
      (none_meant (is_meant hint) r r.identifiers h.owned (in_order-empty (candidates hint r) e))

-- no refusal by a unique index
abbrev Clear {ℓ} : {A : Type ℓ} → Result IngestError A → Type ℓ
Clear m = m ≢ refused IngestError.integrity_error

done-Clear : {A : Type 0} (a : A) → Clear (done a)
done-Clear a e = absurd (cc)

require-Clear : (b : Bool) → Clear (require b IngestError.data_error)
require-Clear true e = absurd (cc)
require-Clear false e = absurd (cc)

from-Clear : {A : Type 0} (m : Result ValueError A) → Clear (from_parser m)
unfolding from_parser
from-Clear (done a) e = absurd (cc)
from-Clear (refused v) e = absurd (cc)

bind-Clear :
    {A B : Type 0} (m : Result IngestError A) (f : A → Result IngestError B)
    → Clear m
    → ((a : A) → m ≡ done a → Clear (f a))
    → Clear (m >>= f)
unfolding ◌>>=◌
bind-Clear (done a) f here rest e = rest a refl e
bind-Clear (refused v) f here rest e = here (cc)

first-Clear :
    (hint : String) (is_card : Bool) (bank_name : Option String) (r : Registry)
    (found : List FinancialAccount)
    → IsLinked r
    → in_order (candidates hint r) ≡ found
    → Clear (first_or_new hint is_card bank_name r found)
unfolding first_or_new register_unknown ◌>>=◌
first-Clear hint is_card bank_name r [] h e =
    rw (none-free hint (guessed_kind is_card) r h e) (done-Clear _)
first-Clear hint is_card bank_name r (a ∷ rest) h e = done-Clear _

resolve-Clear :
    (hint : Option String) (is_card : Bool) (bank_name : Option String) (r : Registry)
    → IsLinked r
    → Clear (resolve_account hint is_card bank_name r r)
unfolding resolve_account
resolve-Clear none is_card bank_name r h = done-Clear _
resolve-Clear (some hint) is_card bank_name r h = elim (Bool-cases (is_blank hint)) [
  | inl blank ↦ rw blank (done-Clear _)
  | inr named ↦ rw named (first-Clear hint is_card bank_name r _ h refl)
]

persist-Clear :
    (i : ℕ) (p : ParseResult) (at : ℕ) (s : Inbox)
    → IsLinked s.registry
    → Clear (persist_candidate i p at s.registry s)
unfolding persist_candidate resolved_for
persist-Clear i p at s h =
    bind-Clear _ _
      (resolve-Clear (elim p.account_hint [ none ↦ none | some t ↦ some (to_string t) ])
        (elim p.evidence.is_card [ none ↦ false | some b ↦ b ]) p.bank_name s.registry h)
      (λ r k. bind-Clear _ _ (require-Clear _) (λ u k'. done-Clear _))

finish-Clear :
    (d : Delivery) (e : SmsEvent) (p : ParseResult) (s : Inbox)
    → IsLinked s.registry
    → Clear (finish d e p s.registry s)
unfolding finish
finish-Clear d e p s h = elim (Bool-cases (matched p)) [
  | inl money ↦
      rw money (bind-Clear _ _ (persist-Clear e.id p e.sms_timestamp s h) (λ x k. done-Clear _))
  | inr other ↦ rw other (done-Clear _)
]

flush-Clear :
    (d : Delivery) (e : SmsEvent) (p : ParseResult) (known : Option SmsEvent) (s : Inbox)
    → IsLinked s.registry
    → Clear (flush_event d e p known s.registry s)
unfolding flush_event insert_event
flush-Clear d e p (some other) s h = done-Clear _
flush-Clear d e p none s h = finish-Clear d e p (insert_event e s) h

known-Clear :
    (o : Outside) (d : Delivery) (at : ℕ × List String) (known : Option SmsEvent) (s : Inbox)
    → IsLinked s.registry
    → Clear (known_or_store o d at known s.registry s)
unfolding known_or_store store
known-Clear o d at (some e) s h = done-Clear _
known-Clear o d at none s h = bind-Clear _ _ (from-Clear _) (λ p k.
    bind-Clear _ _ (require-Clear _)
      (λ u k'. flush-Clear d (new_event o d at p s.next_event_id) p _ s h))

stamp-Clear : (o : Outside) (d : Delivery) → Clear (stamp_of o d)
unfolding stamp_of
stamp-Clear o d = bind-Clear _ _ (from-Clear _) (λ raw k. done-Clear _)

-- a message whose lookup of the account reads the registry that its rows are written to
ingest_unraced :
    (o : Outside) (d : Delivery) (early : Inbox) (s : Inbox)
    → IsLinked s.registry
    → Clear (ingest o d (record { inbox = early; registry = s.registry }) s)
unfolding ingest
ingest_unraced o d early s h = bind-Clear _ _ (stamp-Clear o d) (λ at k. known-Clear o d at _ s h)

-- The accounts that messages make by themselves break no constraint: a message that is taken in, whatever
-- other requests wrote between the lookups of its key and its account and its own rows, keeps identifiers
-- unique by kind and value, card numbers unique, and every identifier's account there. And the unique
-- index of the identifiers refuses a message only where another request came between: if the lookup of
-- the account reads the registry that the rows are written to, the message is not refused by it, whatever
-- identifier it names.
pub ingest_links :
    (o : Outside) (d : Delivery) (early : Seen) (s : Inbox)
    → IsLinked s.registry
    → Ensures (λ (x : Inbox × IngestOutcome). IsLinked x.0.registry) (ingest o d early s)
      × (ingest o d (record early { registry = s.registry }) s
          ≢ refused IngestError.integrity_error)
ingest_links o d early s h = (ingest-IsLinked o d early s h, ingest_unraced o d early.inbox s h)
