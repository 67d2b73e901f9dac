-- ===== src/Accounts/Unique.antt =====
-- The unique constraints behind services/accounts.py, after any sequence of its operations.
use alo_bot_dashboard.Prelude.{
  require-true, ℕ, ◌≤◌, ◌≡◌, refl, sym, subst, is_blank, strip, count-update, inl, inr, Bool, true,
  false, not, and_true, String, Option, List, [], ◌∷◌, arith, ◌==◌, ==_iff, str_eq_iff, count_where,
  any_where, any_where-false, keep, Bool-cases, done, Ensures, Ensures-bind, Ensures-done,
}
use alo_bot_dashboard.Model.{AccountStatus}
use alo_bot_dashboard.Audit.{Actor}
use alo_bot_dashboard.Accounts.{
  FinancialAccount, IdentifierKind, CardStatus, Registry, Identifier, PaymentCard, kind_text,
  same_kind, has_identifier, same_number, add_identifier, create_account, insert_account,
  set_status, delete_identifier, add_card, set_card_status, log,
}

-- no two identifiers of one kind and value, and no two cards of one number
pub record IsUnique (r : Registry) : Type 0 where
  pub named : (k : IdentifierKind) (v : String) → count_where (has_identifier k v) r.identifiers ≤ 1
  pub numbered : (n : List ℕ) → count_where (λ c. same_number c.card_number n) r.cards ≤ 1

-- a row that carries a kind and value carries no other
has_identifier-apart :
    (k : IdentifierKind) (v : String) (i : Identifier)
    → has_identifier k v i ≡ true
    → (j : Identifier) → has_identifier k v j ≡ has_identifier i.kind i.value j
unfolding has_identifier same_kind
has_identifier-apart k v i hit j =
    let (same_kind_text, same_value) = and_true _ _ hit in
    let kinds : kind_text i.kind ≡ kind_text k = (str_eq_iff _ _).0 same_kind_text in
    let values : i.value ≡ v = (str_eq_iff _ _).0 same_value in rw kinds (rw values refl)

same_number_sound : (n m : List ℕ) → same_number n m ≡ true → n ≡ m
unfolding same_number
same_number_sound [] [] h = refl
same_number_sound [] (e ∷ es) h = absurd (cc)
same_number_sound (d ∷ ds) [] h = absurd (cc)
same_number_sound (d ∷ ds) (e ∷ es) h =
    let (head, tail) = and_true _ _ h in
    let same : d ≡ e = (==_iff _ _).0 head in let rest = same_number_sound ds es tail in cc

insert_unique :
    {A : Type 0} (p : A → Bool) (a : A) (xs : List A)
    → (p a ≡ true → any_where p xs ≡ false)
    → count_where p xs ≤ 1
    → count_where p (a ∷ xs) ≤ 1
unfolding count_where
insert_unique p a xs fresh h = ground (arith, h, fresh, any_where-false p xs)

count-keep-le :
    {A : Type 0} (p q : A → Bool) (xs : List A) → count_where q (keep p xs) ≤ count_where q xs
unfolding count_where
count-keep-le p q [] = omega arith
count-keep-le p q (x ∷ xs) = ground (arith, count-keep-le p q xs)

any_where-cong :
    {A : Type 0} (p q : A → Bool) (xs : List A)
    → ((x : A) → p x ≡ q x)
    → any_where p xs ≡ any_where q xs
unfolding any_where
any_where-cong p q [] h = refl
any_where-cong p q (x ∷ xs) h = ground (arith, h x, any_where-cong p q xs h)

pub not-true : (b : Bool) → not b ≡ true → b ≡ false
not-true true h = sym h
not-true false h = refl

-- a row may join where nothing has its kind and value
pub named_insert :
    (j : Identifier) (is : List Identifier)
    → any_where (has_identifier j.kind j.value) is ≡ false
    → ((k : IdentifierKind) (v : String) → count_where (has_identifier k v) is ≤ 1)
    → (k : IdentifierKind) (v : String) → count_where (has_identifier k v) (j ∷ is) ≤ 1
named_insert j is free h k v =
    insert_unique (has_identifier k v) j is
      (λ hit.
        rw
          (any_where-cong (has_identifier k v) (has_identifier j.kind j.value) is
            (has_identifier-apart k v j hit))
          free)
      (h k v)

numbered_insert :
    (c : PaymentCard) (cs : List PaymentCard)
    → any_where (λ x. same_number x.card_number c.card_number) cs ≡ false
    → ((n : List ℕ) → count_where (λ x. same_number x.card_number n) cs ≤ 1)
    → (n : List ℕ) → count_where (λ x. same_number x.card_number n) (c ∷ cs) ≤ 1
numbered_insert c cs free h n =
    insert_unique (λ x. same_number x.card_number n) c cs
      (λ hit.
        subst (λ m. any_where (λ x. same_number x.card_number m) cs ≡ false)
          (same_number_sound _ _ hit) free)
      (h n)

add_identifier-IsUnique :
    (clean : String → String) (four : String → Bool) (actor : Actor) (i : ℕ)
    (kind : Option IdentifierKind) (value : String) (r : Registry)
    → IsUnique r
    → Ensures IsUnique (add_identifier clean four actor i kind value r)
unfolding add_identifier log
add_identifier-IsUnique clean four actor i kind value r h =
    Ensures-bind _ _ λ (k : IdentifierKind) e. Ensures-bind _ _ λ (a : Unit {0}) o.
      Ensures-bind _ _ λ (b : Unit {0}) o'. Ensures-bind _ _ λ (c : Unit {0}) free.
        Ensures-done _ record {
          named = λ k' v.
              named_insert _ _ (not-true _ (and_true _ _ (require-true _ _ _ free)).1) h.named k' v;
          numbered = h.numbered;
        }

-- an account's row is in no unique constraint
insert_account-IsUnique :
    (bank name owner : String) (r : Registry)
    → IsUnique r
    → IsUnique (insert_account bank name owner r)
unfolding insert_account
insert_account-IsUnique bank name owner r h = record { named = h.named; numbered = h.numbered }

create_account-IsUnique :
    (clean : String → String) (four : String → Bool) (actor : Actor) (bank name owner : String)
    (kind : Option IdentifierKind) (value : String) (r : Registry)
    → IsUnique r
    → Ensures IsUnique (create_account clean four actor bank name owner kind value r)
unfolding create_account log
create_account-IsUnique clean four actor bank name owner kind value r h =
    Ensures-bind _ _ λ (a : Unit {0}) o. Ensures-bind _ _ λ (after : Registry) e. Ensures-done _ (
      let k = insert_account-IsUnique bank name owner r h in
      let u : IsUnique after = elim (Bool-cases (is_blank (strip value))) [
        | inl blank ↦
            (Ensures-done {P = IsUnique} (insert_account bank name owner r) k).at after
              (rw blank at e)
        | inr given ↦
            (add_identifier-IsUnique clean four actor r.next_account_id kind value
                (insert_account bank name owner r) k).at
              after (rw given at e)
      ] in
      record { named = u.named; numbered = u.numbered })

set_status-IsUnique :
    (actor : Actor) (i : ℕ) (status : Option AccountStatus) (r : Registry)
    → IsUnique r
    → Ensures IsUnique (set_status actor i status r)
unfolding set_status log
set_status-IsUnique actor i status r h = Ensures-bind _ _ λ (s : AccountStatus) e.
    Ensures-bind _ _
      λ (a : FinancialAccount) e'. Ensures-done _ record { named = h.named; numbered = h.numbered }

delete_identifier-IsUnique :
    (actor : Actor) (i j : ℕ) (r : Registry)
    → IsUnique r
    → Ensures IsUnique (delete_identifier actor i j r)
unfolding delete_identifier log
delete_identifier-IsUnique actor i j r h = Ensures-bind _ _ λ (x : Identifier) e.
    Ensures-bind _ _ λ (a : Unit {0}) o. Ensures-done _ record {
      named = λ k v. omega (
        arith,
        h.named k v,
        count-keep-le (λ x. not (x.id == j)) (has_identifier k v) r.identifiers,
      );
      numbered = h.numbered;
    }

add_card-IsUnique :
    (digits : String → List ℕ) (spell : List ℕ → String) (actor : Actor) (i : ℕ)
    (number holder : String) (r : Registry)
    → IsUnique r
    → Ensures IsUnique (add_card digits spell actor i number holder r)
unfolding add_card log
add_card-IsUnique digits spell actor i number holder r h = Ensures-bind _ _ λ (n : List ℕ) e.
    Ensures-bind _ _ λ (a : Unit {0}) o. Ensures-bind _ _ λ (b : Unit {0}) o'.
      Ensures-bind _ _ λ (c : Unit {0}) free. Ensures-done _ record {
        named = h.named;
        numbered =
            numbered_insert _ _ (not-true _ (and_true _ _ (require-true _ _ _ free)).1) h.numbered;
      }

set_card_status-IsUnique :
    (spell : List ℕ → String) (actor : Actor) (i : ℕ) (status : Option CardStatus) (r : Registry)
    → IsUnique r
    → Ensures IsUnique (set_card_status spell actor i status r)
unfolding set_card_status log
set_card_status-IsUnique spell actor i status r h = Ensures-bind _ _ λ (s : CardStatus) e.
    Ensures-bind _ _ λ (c : PaymentCard) e'. Ensures-done _ record {
      named = h.named;
      numbered = λ n.
          rw
            (count-update (λ x. same_number x.card_number n) (λ x. x.id == i)
              (λ x. record x { status = s }) r.cards (λ x. refl))
            (h.numbered n);
    }

-- one committed change by any actor; the readings of the texts are any
pub data Registered : Registry → Registry → Type 0 where
  opened :
      (clean : String → String) (four : String → Bool) (actor : Actor) (bank name owner : String)
      (kind : Option IdentifierKind) (value : String) (r r' : Registry)
      → create_account clean four actor bank name owner kind value r ≡ done r'
      → Registered r r'
  moved :
      (actor : Actor) (i : ℕ) (status : Option AccountStatus) (r r' : Registry)
      → set_status actor i status r ≡ done r'
      → Registered r r'
  identified :
      (clean : String → String) (four : String → Bool) (actor : Actor) (i : ℕ)
      (kind : Option IdentifierKind) (value : String) (r r' : Registry)
      → add_identifier clean four actor i kind value r ≡ done r'
      → Registered r r'
  forgotten :
      (actor : Actor) (i j : ℕ) (r r' : Registry)
      → delete_identifier actor i j r ≡ done r'
      → Registered r r'
  carded :
      (digits : String → List ℕ) (spell : List ℕ → String) (actor : Actor) (i : ℕ)
      (number holder : String) (r r' : Registry)
      → add_card digits spell actor i number holder r ≡ done r'
      → Registered r r'
  switched :
      (spell : List ℕ → String) (actor : Actor) (i : ℕ) (status : Option CardStatus)
      (r r' : Registry)
      → set_card_status spell actor i status r ≡ done r'
      → Registered r r'

pub data Registrations (start : Registry) : Registry → Type 0 where
  none_yet : Registrations start start
  and_then : {r r' : Registry} → Registrations start r → Registered r r' → Registrations start r'

Registered-IsUnique : {r r' : Registry} → Registered r r' → IsUnique r → IsUnique r'
Registered-IsUnique (opened clean four actor bank name owner kind value r r' e) h =
    (create_account-IsUnique clean four actor bank name owner kind value r h).at r' e
Registered-IsUnique (moved actor i status r r' e) h =
    (set_status-IsUnique actor i status r h).at r' e
Registered-IsUnique (identified clean four actor i kind value r r' e) h =
    (add_identifier-IsUnique clean four actor i kind value r h).at r' e
Registered-IsUnique (forgotten actor i j r r' e) h =
    (delete_identifier-IsUnique actor i j r h).at r' e
Registered-IsUnique (carded digits spell actor i number holder r r' e) h =
    (add_card-IsUnique digits spell actor i number holder r h).at r' e
Registered-IsUnique (switched spell actor i status r r' e) h =
    (set_card_status-IsUnique spell actor i status r h).at r' e

-- After any sequence of changes to accounts, identifiers and cards, from a registry where they are
-- unique, no two identifiers have one kind and value, and no two cards have one number.
pub Registrations-IsUnique : {r r' : Registry} → Registrations r r' → IsUnique r → IsUnique r'
Registrations-IsUnique none_yet h = h
Registrations-IsUnique (and_then before s) h =
    Registered-IsUnique s (Registrations-IsUnique before h)
