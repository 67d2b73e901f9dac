-- ===== src/Transactions/Rerun.antt =====
-- The run of the parser over all unknown messages.
use alo_bot_dashboard.Prelude.{
  ℕ, ◌≤◌, ◌≡◌, refl, inl, inr, Bool, true, false, ◌&&◌, List, [], ◌∷◌, arith, ◌==◌, ==_iff, All,
  All-mono, All-both, All-keep, count-keep, any-true_of_count, keep, count_where, any_where,
  Bool-cases, Ensures, Ensures-done, Ensures-bind,
}
use alo_bot_dashboard.Audit.{Actor}
use alo_bot_dashboard.Sms.{Classification, ParseResult, carries_money}
use alo_bot_dashboard.Sms.Patterns.{DbPattern}
use alo_bot_dashboard.Accounts.{Registry}
use alo_bot_dashboard.Inbox.{SmsEvent, Inbox, Outside, load_patterns}
use alo_bot_dashboard.Inbox.Filed.{IsFiled, has_money, count_money-le}
use alo_bot_dashboard.Transactions.{
  log, is_unknown, reparse_one, reparse_all, Reparsed, reparse_unparsed,
}
use alo_bot_dashboard.Transactions.Reread.{IsUnread, Kept, reparse_known-Kept}

reparse_one-Kept :
    (o : Outside) (lookup : Registry → Registry) (patterns : List DbPattern) (apply : Bool)
    (ev : SmsEvent) (s : Inbox) (n : ℕ)
    → IsFiled s
    → IsUnread s ev.id
    → Ensures
        (λ (x : Inbox × ℕ). Kept ev.id s (x.0))
        (reparse_one o lookup patterns apply ev (s, n))
unfolding reparse_one
reparse_one-Kept o lookup patterns apply ev s n h unread = Ensures-bind _ _ λ (p : ParseResult) k.
    elim (Bool-cases (is_unknown p.classification)) [
      | inl still ↦ rw still (Ensures-done _ (h, λ j apart k'. k'))
      | inr read ↦ rw read (elim (Bool-cases apply) [
        | inr dry ↦ rw dry (Ensures-done _ (h, λ j apart k'. k'))
        | inl wet ↦ rw wet (
            Ensures-bind _ _ λ (s' : Inbox) k'.
              Ensures-done _ ((reparse_known-Kept ev p (lookup s.registry) s h unread).at s' k'))
      ])
    ]

abbrev AllApart : List SmsEvent → Type 0
AllApart [] = Unit
AllApart (e ∷ es) = All (λ x. e.id ≡ x.id → ⊥) es × AllApart es

reparse_all-IsFiled :
    (o : Outside) (lookup : Registry → Registry) (patterns : List DbPattern) (apply : Bool)
    (evs : List SmsEvent) (s : Inbox) (n : ℕ)
    → IsFiled s
    → All (λ e. IsUnread s e.id) evs
    → AllApart evs
    → Ensures (λ (x : Inbox × ℕ). IsFiled (x.0)) (reparse_all o lookup patterns apply evs (s, n))
unfolding reparse_all
reparse_all-IsFiled o lookup patterns apply [] s n h unread apart = Ensures-done _ h
reparse_all-IsFiled o lookup patterns apply (ev ∷ evs) s n h unread apart =
    Ensures-bind _ _ λ (x : Inbox × ℕ) k.
      let (h', rest) = (reparse_one-Kept o lookup patterns apply ev s n h unread.0).at x k in
      reparse_all-IsFiled o lookup patterns apply evs (x.0) (x.1) h'
        (All-mono _ _ evs (λ e b. rest e.id b.0 b.1) (All-both _ _ evs apart.0 unread.1)) apart.1

none_there :
    (i : ℕ) (es : List SmsEvent) → count_where (λ e. e.id == i) es ≡ 0 → All (λ e. i ≡ e.id → ⊥) es
unfolding count_where
none_there i [] h = tt
none_there i (e ∷ es) h = (λ same. ground (arith, h, same), none_there i es (omega (arith, h)))

unique-AllApart :
    (es : List SmsEvent) → ((i : ℕ) → count_where (λ e. e.id == i) es ≤ 1) → AllApart es
unfolding count_where
unique-AllApart [] h = tt
unique-AllApart (e ∷ es) h =
    (none_there e.id es (ground (arith, h e.id)), unique-AllApart es (λ i. omega (arith, h i)))

abbrev unknown_of : ℕ → SmsEvent → Bool
unknown_of i e = e.id == i && is_unknown e.classification

no_money : (c : Classification) → is_unknown c ≡ true → carries_money c ≡ false
unfolding is_unknown carries_money
no_money Classification.unknown h = refl
no_money Classification.bank_transaction h = cc
no_money Classification.balance h = cc
no_money Classification.otp h = refl
no_money Classification.promotional h = refl

unknown_there :
    (i : ℕ) (es : List SmsEvent)
    → any_where (unknown_of i) es ≡ true
    → 1 ≤ count_where (λ e. e.id == i) es
unfolding count_where any_where
unknown_there i [] h = cc
unknown_there i (e ∷ es) h = ground (arith, unknown_there i es, h)

unknown-Unread :
    (i : ℕ) (es : List SmsEvent)
    → count_where (λ e. e.id == i) es ≤ 1
    → any_where (unknown_of i) es ≡ true
    → count_where (has_money i) es ≡ 0
unfolding count_where any_where
unknown-Unread i [] h k = refl
unknown-Unread i (e ∷ es) h k = ground (
  arith,
  h,
  k,
  no_money e.classification,
  unknown-Unread i es,
  count_money-le i es,
  unknown_there i es,
)

abbrev IsThere : List SmsEvent → SmsEvent → Type 0
IsThere es e = is_unknown e.classification ≡ true → any_where (unknown_of e.id) es ≡ true

All-IsThere : (es : List SmsEvent) → All (IsThere es) es
unfolding any_where
All-IsThere [] = tt
All-IsThere (e ∷ es) = (
  λ unread. rw unread (rw ((==_iff e.id e.id).1 refl) refl),
  All-mono _ _ es (λ x k unread. ground (arith, k unread)) (All-IsThere es),
)

kept_there :
    (es : List SmsEvent)
    → All (λ e. any_where (unknown_of e.id) es ≡ true) (keep (λ e. is_unknown e.classification) es)
kept_there es =
    All-mono _ _ _ (λ x k. k.0 k.1)
      (All-keep (IsThere es) (λ e. is_unknown e.classification) es (All-IsThere es))

unknown-IsUnread :
    (s : Inbox) (e : SmsEvent)
    → IsFiled s
    → any_where (unknown_of e.id) s.events ≡ true
    → IsUnread s e.id
unknown-IsUnread s e h there = (
  unknown-Unread e.id s.events (h.ids e.id) there,
  any-true_of_count _ _ (unknown_there e.id s.events there),
)

pub reparse-IsFiled :
    (o : Outside) (lookup : Registry → Registry) (actor : Actor) (apply : Bool) (s : Inbox)
    → IsFiled s
    → Ensures (λ (x : Reparsed). IsFiled x.inbox) (reparse_unparsed o lookup actor apply s)
unfolding reparse_unparsed log
reparse-IsFiled o lookup actor apply s h = Ensures-bind _ _ λ (x : Inbox × ℕ) k.
    let k' =
      (reparse_all-IsFiled o lookup (load_patterns s) apply _ s 0 h
          (All-mono _ _ _ (λ e there. unknown-IsUnread s e h there) (kept_there s.events))
          (unique-AllApart _ (λ i. omega (
            arith,
            count-keep (λ (e : SmsEvent). e.id == i) (λ e. is_unknown e.classification) s.events,
            h.ids i,
          )))).at
        x k in
    Ensures-done _ (elim (Bool-cases apply) [
      | inl wet ↦
          rw wet record {
            keys = k'.keys;
            ids = k'.ids;
            below = k'.below;
            one = k'.one;
            money = k'.money;
          }
      | inr dry ↦ rw dry k'
    ])
