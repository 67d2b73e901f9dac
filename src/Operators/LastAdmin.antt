-- ===== src/Operators/LastAdmin.antt =====
-- The two refusals of services/operators.py that are properties of the data.
use alo_bot_dashboard.Prelude.{
  ℕ, ◌≤◌, ◌≡◌, refl, ap, inl, inr, Bool, true, false, not, ◌&&◌, String, Option, some, List, [],
  ◌∷◌, arith, ◌==◌, is_none, if◌then◌else◌, any_where-true, count_where, update_where,
  count-update_grow, Bool-cases, done, Ensures, Ensures-bind, Ensures-done,
}
use alo_bot_dashboard.Audit.{Actor}
use alo_bot_dashboard.Staff.{Role, Operator, SignIn, Staff, is_active_admin}
use alo_bot_dashboard.Operators.{
  create, set_role, set_active, update_operator, may_set_role, may_set_active, other_active_admin,
  log, revoke_all,
}

abbrev pub active_admins : Staff → ℕ
active_admins s = count_where (λ o. is_active_admin o) s.operators

update_operator-done :
    (p : Operator → Bool) (f : Operator → Operator) (s s' : Staff)
    → update_operator p f s ≡ done s'
    → s' ≡ record s { operators = update_where p f s.operators }
unfolding update_operator
update_operator-done p f s s' h = elim (Bool-cases (count_where p s.operators == 1)) [
  | inr missed ↦ absurd (cc (rw missed at h))
  | inl hit ↦ cc (rw hit at h)
]

-- an update of the operator `i` leaves the other active admins as they are
others-kept :
    (i : ℕ) (p : Operator → Bool) (f : Operator → Operator) (os : List Operator)
    → ((o : Operator) → (f o).id ≡ o.id)
    → ((o : Operator) → p o ≡ true → (o.id == i) ≡ true)
    → count_where (λ o. not (o.id == i) && is_active_admin o) os
      ≤ count_where (λ o. is_active_admin o) (update_where p f os)
unfolding count_where update_where
others-kept i p f [] ids own = omega arith
others-kept i p f (o ∷ os) ids own = ground (arith, ids o, own o, others-kept i p f os ids own)

HasAdmin : Staff → Type 0
HasAdmin s = 1 ≤ active_admins s

-- an UPDATE that reaches only the operator `i`, and demotes nobody unless another active admin exists
update-HasAdmin :
    (i : ℕ) (p : Operator → Bool) (f : Operator → Operator) (s : Staff)
    → ((o : Operator) → (f o).id ≡ o.id)
    → ((o : Operator) → p o ≡ true → (o.id == i) ≡ true)
    → (other_active_admin i s ≡ false
        → (o : Operator) → p o ≡ true
        → is_active_admin o ≡ true
        → is_active_admin (f o) ≡ true)
    → HasAdmin s
    → Ensures HasAdmin (update_operator p f s)
unfolding HasAdmin other_active_admin
update-HasAdmin i p f s ids own keeps h = record {
  at = λ s' e. rw (update_operator-done p f s s' e) (elim (Bool-cases (other_active_admin i s)) [
    | inl other ↦ omega (
      arith,
      others-kept i p f s.operators ids own,
      any_where-true (λ o. not (o.id == i) && is_active_admin o) s.operators other,
    )
    | inr alone ↦
        omega (arith, h, count-update_grow (λ o. is_active_admin o) p f s.operators (keeps alone))
  ]);
}

set_role-HasAdmin :
    (actor : Actor) (i : ℕ) (role : Option Role) (s : Staff)
    → HasAdmin s
    → Ensures HasAdmin (set_role actor i role s)
unfolding set_role may_set_role log HasAdmin
set_role-HasAdmin actor i role s h = Ensures-bind _ _ λ (r : Role) e.
    Ensures-bind _ _ λ (u : Unit {0}) o. Ensures-bind _ _ λ (target : Operator) e'.
      Ensures-bind _ _ λ moved e''. Ensures-done _ (
        (update-HasAdmin i (may_set_role r i s) (λ o. record o { role = r }) s (λ o. refl)
            (λ o hit. ground (arith, hit)) (λ alone o hit was. ground (arith, alone, hit, was))
            h).at
          moved e'')

set_active-HasAdmin :
    (actor : Actor) (i : ℕ) (active : Bool) (clock : ℕ) (s : Staff)
    → HasAdmin s
    → Ensures HasAdmin (set_active actor i active clock s)
unfolding set_active may_set_active log revoke_all HasAdmin
set_active-HasAdmin actor i active clock s h = Ensures-bind _ _ λ (u : Unit {0}) o.
    Ensures-bind _ _ λ (target : Operator) e'. Ensures-bind _ _ λ moved e''. Ensures-done _ (
      let k =
        (update-HasAdmin i (may_set_active active i s) (λ o. record o { is_active = active }) s
            (λ o. refl) (λ o hit. ground (arith, hit))
            (λ alone o hit was. ground (arith, alone, hit, was)) h).at
          moved e'' in
      elim (Bool-cases active) [ inl on ↦ rw on k | inr off ↦ rw off k ])

-- what a switch does to the sessions: a deactivation revokes those of the operator
pub set_active-sessions :
    (actor : Actor) (i : ℕ) (active : Bool) (clock : ℕ) (s : Staff)
    → Ensures
        (λ (s' : Staff).
          s'.sessions ≡ (if active then s.sessions else (revoke_all clock i s).sessions))
        (set_active actor i active clock s)
unfolding set_active log revoke_all
set_active-sessions actor i active clock s = Ensures-bind _ _ λ (u : Unit {0}) o.
    Ensures-bind _ _ λ (target : Operator) e'. Ensures-bind _ _ λ moved e''. Ensures-done _ (
      let same : moved.sessions ≡ s.sessions =
        ap (λ (x : Staff). x.sessions) (update_operator-done _ _ s moved e'') in
      elim (Bool-cases active) [
        | inl on ↦ rw on same
        | inr off ↦ rw off (
            ap
              (λ (xs : List SignIn).
                update_where (λ x. x.operator_id == i && is_none x.revoked_at)
                  (λ x. record x { revoked_at = some clock }) xs)
              same)
      ])

create-HasAdmin :
    (lower : String → String) (len : String → ℕ) (hash : String → String) (actor : Actor)
    (email name password : String) (role : Option Role) (s : Staff)
    → HasAdmin s
    → Ensures HasAdmin (create lower len hash actor email name password role s)
unfolding create log HasAdmin count_where
create-HasAdmin lower len hash actor email name password role s h = Ensures-bind _ _ λ (r : Role) e.
    Ensures-bind _ _
      λ (u : Unit {0}) o. Ensures-bind _ _ λ (v : Unit {0}) o'. Ensures-done _ (omega arith)

-- one committed change of the operators, by any actor; a new operator's hash is any text
pub data Managed : Staff → Staff → Type 0 where
  created :
      (lower : String → String) (len : String → ℕ) (hash : String → String) (actor : Actor)
      (email name password : String) (role : Option Role) (s s' : Staff)
      → create lower len hash actor email name password role s ≡ done s'
      → Managed s s'
  ranked :
      (actor : Actor) (i : ℕ) (role : Option Role) (s s' : Staff)
      → set_role actor i role s ≡ done s'
      → Managed s s'
  switched :
      (actor : Actor) (i : ℕ) (active : Bool) (clock : ℕ) (s s' : Staff)
      → set_active actor i active clock s ≡ done s'
      → Managed s s'

pub data Management (start : Staff) : Staff → Type 0 where
  here : Management start start
  next : {s s' : Staff} → Management start s → Managed s s' → Management start s'

Managed-HasAdmin : {s s' : Staff} → Managed s s' → HasAdmin s → HasAdmin s'
Managed-HasAdmin (created lower len hash actor email name password role s s' e) h =
    (create-HasAdmin lower len hash actor email name password role s h).at s' e
Managed-HasAdmin (ranked actor i role s s' e) h = (set_role-HasAdmin actor i role s h).at s' e
Managed-HasAdmin (switched actor i active clock s s' e) h =
    (set_active-HasAdmin actor i active clock s h).at s' e

-- While there is an active administrator, no sequence of creations, changes of role and
-- deactivations, by any operators, leaves none.
pub Management-HasAdmin :
    {s s' : Staff} → Management s s' → 1 ≤ active_admins s → 1 ≤ active_admins s'
unfolding HasAdmin
Management-HasAdmin here h = h
Management-HasAdmin (next m c) h = Managed-HasAdmin c (Management-HasAdmin m h)
