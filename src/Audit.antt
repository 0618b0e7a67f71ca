-- ===== src/Audit.antt =====
-- The audit log, apps/api/agent_control/operations/audit.py: every line is masked as it is written.
pub mod Masked
use mission_control_platform.Prelude.{
  String, Bool, true, false, Option, none, some, List, [], ◌∷◌, ◌++◌, str_eq, if◌then◌else◌,
}
use mission_control_platform.Json.{Json, Fields, obj, end, field}
use mission_control_platform.Redaction.{Unicode, redact}
use mission_control_platform.Access.{HostContext}
use mission_control_platform.Rows.{Uuid, AuditLog}
use mission_control_platform.Store.{Env, Store, truthy, tenant}

-- `hash_ip`.
unfoldable pub hash_ip : Env → Option String → Option String
hash_ip env ip = hashed (truthy ip)
  where
    hashed : Option String → Option String
    hashed none = none
    hashed (some t) = some (env.sha256_hex t)

-- `redact(x) if x is not None else None`, of an object.
unfoldable pub redact_present : Unicode → Option Fields → Option Json
redact_present u none = none
redact_present u (some fs) = some (redact u (obj fs))

-- `redact(metadata) if metadata else {}`.
unfoldable pub redact_metadata : Unicode → Option Fields → Json
redact_metadata u none = obj end
redact_metadata u (some fs) = redact u (obj fs)

-- What the callers say of a line, besides the actor.
pub record AuditEntry : Type 0 where
  pub action : String
  pub target_type : Option String
  pub target_id : Option String
  pub before : Option Fields
  pub after : Option Fields
  pub ip : Option String
  pub metadata : Option Fields

pub record Actor : Type 0 where
  pub actor_type : String
  pub actor_id : Option String
  pub actor_label : Option String
  pub request_id : Option String

-- The line that `write_audit` adds.
unfoldable pub audit_line : Env → Option Uuid → Actor → AuditEntry → AuditLog
unfolding hash_ip redact_present redact_metadata
audit_line env installation_id actor entry = record {
  installation_id = installation_id;
  actor_type = actor.actor_type;
  actor_id = actor.actor_id;
  actor_label = actor.actor_label;
  action = entry.action;
  target_type = entry.target_type;
  target_id = entry.target_id;
  before = redact_present env.unicode entry.before;
  after = redact_present env.unicode entry.after;
  request_id = actor.request_id;
  ip_hash = hash_ip env entry.ip;
  audit_metadata = redact_metadata env.unicode entry.metadata;
}

unfoldable pub write_audit : Env → Option Uuid → Actor → AuditEntry → Store → Store
unfolding audit_line
write_audit env installation_id actor entry s = record s {
  audits = s.audits ++ audit_line env installation_id actor entry ∷ [];
}

-- `ctx.user.display_name or ctx.user.email`.
abbrev label : Option String → Option String → Option String
label none email = email
label (some t) email = some t

-- The actor and the tenant come from the context of the request.
unfoldable pub audit_from_context : Env → HostContext → AuditEntry → Store → Store
unfolding write_audit
audit_from_context env ctx entry s =
    write_audit env (tenant ctx)
      (record {
        actor_type = "user";
        actor_id = some ctx.user.external_user_id;
        actor_label = label (truthy ctx.user.display_name) ctx.user.email;
        request_id = some ctx.request_id;
      })
      entry s
