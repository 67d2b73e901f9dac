-- ===== src/Staff.antt =====
-- models/operator.py: the operators and their signed-in browsers. The random UUID of a session is
-- left out, as nothing reads it, and so are created_at and updated_at of an operator.
use alo_bot_dashboard.Prelude.{ℕ, Bool, true, false, ◌&&◌, String, Option, List, ◌==◌, find_where}
use alo_bot_dashboard.Audit.{AuditRow}

pub data Role : Type 0 where
  admin reviewer read_only : Role

unfoldable pub is_admin : Role → Bool
is_admin Role.admin = true
is_admin _ = false

unfoldable pub role_text : Role → String
role_text Role.admin = "ADMIN"
role_text Role.reviewer = "REVIEWER"
role_text Role.read_only = "READ_ONLY"

pub record Operator : Type 0 where
  pub id : ℕ
  pub email : String
  pub display_name : String
  pub password_hash : String
  pub role : Role
  pub totp_secret : Option String
  pub totp_confirmed_at : Option ℕ
  pub totp_last_step : Option ℕ
  pub failed_attempts : ℕ
  pub locked_until : Option ℕ
  pub is_active : Bool

-- OperatorSession
pub record SignIn : Type 0 where
  pub operator_id : ℕ
  pub token_hash : String
  pub created_at : ℕ
  pub last_seen_at : ℕ
  pub expires_at : ℕ
  pub revoked_at : Option ℕ
  pub ip : Option String
  pub user_agent : Option String

-- the tables, and the sequence of operator ids
pub record Staff : Type 0 where
  pub operators : List Operator
  pub next_operator_id : ℕ
  pub sessions : List SignIn
  pub audit : List AuditRow

-- `session.get(Operator, id)`
abbrev pub get_operator : ℕ → Staff → Option Operator
get_operator i s = find_where (λ o. o.id == i) s.operators

abbrev pub is_active_admin : Operator → Bool
is_active_admin o = is_admin o.role && o.is_active
