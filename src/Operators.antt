-- ===== src/Operators.antt =====
-- services/operators.py: who may operate the dashboard. A role that is none of OPERATOR_ROLES, and
-- the text of an email and a name (stripped, in lower case), are decided before the model: `role`
-- is `none` where the text names no role.
pub mod LastAdmin
use alo_bot_dashboard.Prelude.{
  ℕ, ◌+◌, Bool, true, false, not, ◌&&◌, ◌||◌, String, Option, none, some, List, [], ◌∷◌, ◌==◌,
  if◌then◌else◌, str_eq, strip, is_blank, any_where, count_where, update_where, is_none, ltb,
  Result, done, refused, require, or_refuse, ◌>>=◌, ◌>>◌,
}
use alo_bot_dashboard.Audit.{Json, AuditRow, Actor, audit_row, single, two}
use alo_bot_dashboard.Staff.{
  Role, Operator, SignIn, Staff, is_admin, role_text, is_active_admin, get_operator,
}

-- the sentences of `OperatorError`
pub data OperatorError : Type 0 where
  self_role self_active last_admin bad_role not_found short_password email_taken : OperatorError

abbrev pub StaffResult : Type 0
StaffResult = Result OperatorError Staff

pub log : AuditRow → Staff → Staff
log row s = record s { audit = row ∷ s.audit }

-- `display_name.strip() or email`
name_or : String → String → String
unfolding strip
name_or display_name email = if is_blank (strip display_name) then email else strip display_name

-- `create`: `lower` is `str.lower`, `length` is `len`, and `hash` is the salted scrypt of the
-- password
unfoldable pub create :
    (String → String)
    → (String → ℕ)
    → (String → String)
    → Actor
    → String
    → String
    → String
    → Option Role
    → Staff
    → StaffResult
unfolding log name_or audit_row role_text strip
create lower length hash actor email display_name password role s = do
  r ← or_refuse role bad_role
  require (not (ltb (length password) 12)) short_password
  require (not (any_where (λ o. str_eq o.email (lower (strip email))) s.operators)) email_taken
  done (
      log
        (audit_row actor "operator.create" "operator" (lower (strip email)) none (
          some (
            two "role" (Json.text (role_text r)) "display_name"
              (Json.text (name_or display_name (lower (strip email)))))))
        (record s {
          operators =
              record {
                id = s.next_operator_id;
                email = lower (strip email);
                display_name = name_or display_name (lower (strip email));
                password_hash = hash password;
                role = r;
                totp_secret = none;
                totp_confirmed_at = none;
                totp_last_step = none;
                failed_attempts = 0;
                locked_until = none;
                is_active = true;
              }
              ∷ s.operators;
          next_operator_id = s.next_operator_id + 1;
        }))

-- `_OTHER_ACTIVE_ADMIN_EXISTS`
pub other_active_admin : ℕ → Staff → Bool
other_active_admin i s = any_where (λ o. not (o.id == i) && is_active_admin o) s.operators

-- the row that the UPDATE of `set_role` reaches
pub may_set_role : Role → ℕ → Staff → Operator → Bool
unfolding other_active_admin is_admin
may_set_role role i s o =
    o.id == i
    && (is_admin role || not (is_admin o.role) || not o.is_active || other_active_admin i s)

-- the row that the UPDATE of `set_active` reaches
pub may_set_active : Bool → ℕ → Staff → Operator → Bool
unfolding other_active_admin is_admin
may_set_active active i s o =
    o.id == i && (active || not (is_admin o.role) || not o.is_active || other_active_admin i s)

-- the UPDATE of the operators, refused where it reaches no row
pub update_operator : (Operator → Bool) → (Operator → Operator) → Staff → StaffResult
update_operator p f s =
    if not (count_where p s.operators == 1)
    then refused last_admin
    else done (record s { operators = update_where p f s.operators })

unfoldable pub set_role : Actor → ℕ → Option Role → Staff → StaffResult
unfolding log audit_row role_text may_set_role update_operator
set_role actor operator_id role s = do
  r ← or_refuse role bad_role
  require (not (operator_id == actor.id)) self_role
  target ← or_refuse (get_operator operator_id s) not_found
  moved ← update_operator (may_set_role r operator_id s) (λ o. record o { role = r }) s
  done (
      log
        (audit_row actor "operator.role" "operator" target.email
          (some (single "role" (Json.text (role_text target.role))))
          (some (single "role" (Json.text (role_text r)))))
        moved)

-- the revocation that goes with a deactivation; `clock` is the moment that is read for it
unfoldable pub revoke_all : ℕ → ℕ → Staff → Staff
revoke_all clock operator_id s = record s {
  sessions =
      update_where (λ x. x.operator_id == operator_id && is_none x.revoked_at)
        (λ x. record x { revoked_at = some clock }) s.sessions;
}

unfoldable pub set_active : Actor → ℕ → Bool → ℕ → Staff → StaffResult
unfolding log audit_row may_set_active update_operator revoke_all
set_active actor operator_id active clock s = do
  require (not (operator_id == actor.id)) self_active
  target ← or_refuse (get_operator operator_id s) not_found
  moved ←
      update_operator (may_set_active active operator_id s) (λ o. record o { is_active = active }) s
  done (
      log
        (audit_row actor "operator.active" "operator" target.email
          (some (single "is_active" (Json.flag target.is_active)))
          (some (single "is_active" (Json.flag active))))
        (if active then moved else revoke_all clock operator_id moved))
