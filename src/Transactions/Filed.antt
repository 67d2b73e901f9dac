-- ===== src/Transactions/Filed.antt =====
-- The order of the inbox under what operators correct of a transaction.
use alo_bot_dashboard.Prelude.{
  ℕ, ◌≡◌, refl, sym, subst, inl, inr, Bool, true, String, Option, List, [], ◌∷◌, ◌==◌, All,
  any_where, count-update, update_where, Bool-cases, Ensures, Ensures-done, Ensures-bind,
}
use alo_bot_dashboard.Model.{Disposition}
use alo_bot_dashboard.Audit.{Actor}
use alo_bot_dashboard.Inbox.{TransactionCandidate, Inbox}
use alo_bot_dashboard.Inbox.Filed.{IsFiled, has_money}
use alo_bot_dashboard.Transactions.{log, set_candidate, assign_account, set_disposition}

-- an update of a transaction that leaves its event alone
All-update :
    (P : ℕ → Type 0) (p : TransactionCandidate → Bool)
    (f : TransactionCandidate → TransactionCandidate) (ts : List TransactionCandidate)
    → ((t : TransactionCandidate) → (f t).sms_event_id ≡ t.sms_event_id)
    → All (λ t. P t.sms_event_id) ts
    → All (λ t. P t.sms_event_id) (update_where p f ts)
unfolding update_where
All-update P p f [] same h = tt
All-update P p f (t ∷ ts) same h = elim (Bool-cases (p t)) [
  | inl hit ↦ rw hit (subst P (sym (same t)) h.0, All-update P p f ts same h.1)
  | inr miss ↦ rw miss (h.0, All-update P p f ts same h.1)
]

set-IsFiled :
    (i : ℕ) (f : TransactionCandidate → TransactionCandidate) (s : Inbox)
    → ((t : TransactionCandidate) → (f t).sms_event_id ≡ t.sms_event_id)
    → IsFiled s
    → IsFiled (set_candidate i f s)
unfolding set_candidate
set-IsFiled i f s same h = record {
  keys = h.keys;
  ids = h.ids;
  below = h.below;
  one = λ j.
      rw
        (count-update (λ t. t.sms_event_id == j) (λ t. t.id == i) f s.transactions
          (λ t. rw (same t) refl))
        (h.one j);
  money =
      All-update (λ j. any_where (has_money j) s.events ≡ true) (λ t. t.id == i) f s.transactions
        same h.money;
}

pub assign-IsFiled :
    (actor : Actor) (i : ℕ) (a : Option ℕ) (s : Inbox)
    → IsFiled s
    → Ensures IsFiled (assign_account actor i a s)
unfolding assign_account log
assign-IsFiled actor i a s h = Ensures-bind _ _ λ (t : TransactionCandidate) e.
    Ensures-bind _ _ λ (u : Unit {0}) o. Ensures-done _ (
      let k = set-IsFiled i (λ x. record x { account_id = a }) s (λ x. refl) h in
      record { keys = k.keys; ids = k.ids; below = k.below; one = k.one; money = k.money })

pub dispose-IsFiled :
    (actor : Actor) (i : ℕ) (d : Option Disposition) (note : String) (s : Inbox)
    → IsFiled s
    → Ensures IsFiled (set_disposition actor i d note s)
unfolding set_disposition log
dispose-IsFiled actor i d note s h = Ensures-bind _ _ λ (x : Disposition) e.
    Ensures-bind _ _ λ (t : TransactionCandidate) e'. Ensures-done _ (
      let k = set-IsFiled i _ s (λ y. refl) h in
      record { keys = k.keys; ids = k.ids; below = k.below; one = k.one; money = k.money })
