-- ===== src/Audit.antt =====
-- services/audit.py and models/audit_log.py: the audit row that each write adds to its own
-- transaction, the JSON values that it holds, and the operator who acts. The request id and the
-- note, which no modelled operation sets, are left out.
use alo_bot_dashboard.Prelude.{ℕ, Bool, String, Option, none, some}

mutual
  pub data Json : Type 0 where
    null : Json
    num : ℕ → Json
    text : String → Json
    flag : Bool → Json
    arr : Items → Json
    obj : Fields → Json

  pub data Items : Type 0 where
    nil : Items
    cons : Json → Items → Items

  pub data Fields : Type 0 where
    end : Fields
    field : String → Json → Fields → Fields

-- `x or None` of a text, as JSON
unfoldable pub optional_text : Option String → Json
optional_text none = Json.null
optional_text (some s) = Json.text s

unfoldable pub optional_num : Option ℕ → Json
optional_num none = Json.null
optional_num (some n) = Json.num n

-- `{key: value}`
abbrev pub single : String → Json → Json
single k v = Json.obj (Fields.field k v Fields.end)

abbrev pub two : String → Json → String → Json → Json
two k v j w = Json.obj (Fields.field k v (Fields.field j w Fields.end))

pub record AuditRow : Type 0 where
  pub action : String
  pub entity_type : String
  pub entity_id : String
  pub actor_role : String
  pub actor_operator_id : Option ℕ
  pub before : Option Json
  pub after : Option Json

-- the operator on whose behalf a service runs
pub record Actor : Type 0 where
  pub id : ℕ
  pub email : String
  pub role : String

unfoldable pub audit_row : Actor → String → String → String → Option Json → Option Json → AuditRow
audit_row actor action entity_type entity_id before after = record {
  action = action;
  entity_type = entity_type;
  entity_id = entity_id;
  actor_role = actor.role;
  actor_operator_id = some actor.id;
  before = before;
  after = after;
}
