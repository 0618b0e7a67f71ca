-- ===== src/Alerts.antt =====
-- Alerts, apps/api/agent_control/operations/alerts.py: one active alert for a condition, its
-- acknowledgement and its resolution.
pub mod Dedup
use mission_control_platform.Prelude.{
  ◌+◌, String, Bool, true, false, ◌&&◌, Option, none, some, List, [], ◌∷◌, ◌++◌, ◌==◌, opt_eq,
  find_first, update_where, str_eq,
}
use mission_control_platform.Json.{Json, Fields, null, str, end, field}
use mission_control_platform.Redaction.{redact_dict}
use mission_control_platform.Errors.{Result, Error, ok, err, ◌>>=◌}
use mission_control_platform.StateMachines.{AlertState}
use mission_control_platform.Access.{HostContext}
use mission_control_platform.Rows.{Uuid, AgentAlert}
use mission_control_platform.Store.{
  Env, Store, Service, RawId, as_uuid, tenant, with_ok, or_not_found, uuid_text, id_or_null,
}
use mission_control_platform.Audit.{audit_from_context}
use mission_control_platform.Outbox.{emit_outbox}

-- `ACTIVE_STATUSES`.
abbrev pub is_unresolved : AlertState → Bool
is_unresolved AlertState.opened = true
is_unresolved AlertState.acknowledged = true
is_unresolved AlertState.resolved = false

-- The rows that stand for a condition.
abbrev pub stands_for : Option Uuid → String → AgentAlert → Bool
stands_for inst dedup_key a =
    (opt_eq a.installation_id inst && str_eq a.dedup_key dedup_key) && is_unresolved a.status

unfoldable pub find_active_alert : Option Uuid → String → List AgentAlert → Option AgentAlert
find_active_alert inst dedup_key = find_first (stands_for inst dedup_key)

pub record AlertRequest : Type 0 where
  pub alert_type : String
  pub dedup_key : String
  pub title : String
  pub severity : String
  pub target_type : Option String
  pub target_id : Option Uuid
  pub details : Option Fields

unfoldable pub new_alert : Env → Option Uuid → AlertRequest → Uuid → AgentAlert
new_alert env inst a id = record {
  id = id;
  installation_id = inst;
  alert_type = a.alert_type;
  severity = a.severity;
  status = AlertState.opened;
  target_type = a.target_type;
  target_id = a.target_id;
  dedup_key = a.dedup_key;
  title = a.title;
  details = redact_dict env.unicode a.details;
  opened_at = env.now;
  acknowledged_at = none;
  acknowledged_by = none;
  resolved_at = none;
  resolved_by = none;
  version = 1;
}

abbrev text_or_null : Option String → Json
text_or_null none = null
text_or_null (some t) = str t

unfoldable pub opened_payload : AgentAlert → Fields
opened_payload a = field "alert_id" (str (uuid_text a.id)) (
    field "alert_type" (str a.alert_type) (
      field "severity" (str a.severity) (
        field "title" (str a.title) (
          field "target_type" (text_or_null a.target_type)
            (field "target_id" (id_or_null a.target_id) end)))))

abbrev pub add_alert :
    Env
    → Option Uuid
    → AlertRequest
    → Store
    → Option AgentAlert
    → Result (AgentAlert × Bool × Store)
add_alert env inst a s (some existing) = ok (existing, false, s)
add_alert env inst a s none =
    let alert = new_alert env inst a s.next_id in
    emit_outbox env inst "alert.opened" "fleet" (opened_payload alert)
      (record s { alerts = s.alerts ++ alert ∷ []; next_id = s.next_id + 1 })
    >>= λ t. ok (alert, true, t)

-- `open_alert`. It commits nothing.
unfoldable pub open_alert :
    Env → Option Uuid → AlertRequest → Store → Result (AgentAlert × Bool × Store)
open_alert env inst a s = add_alert env inst a s (find_active_alert inst a.dedup_key s.alerts)

abbrev pub alert_by_id : Option Uuid → HostContext → Store → Option AgentAlert
alert_by_id none ctx s = none
alert_by_id (some aid) ctx s =
    find_first (λ a. (a.id == aid) && opt_eq a.installation_id (tenant ctx)) s.alerts

unfoldable pub get_alert : HostContext → RawId → Store → Result AgentAlert
get_alert ctx alert_id s = or_not_found (alert_by_id (as_uuid alert_id) ctx s)

-- What an operator's action on an alert writes besides the row.
abbrev note :
    Env → HostContext → String → String → AgentAlert → Option String → Store → Result Store
note env ctx action status alert ip s =
    emit_outbox env alert.installation_id action "fleet"
      (field "alert_id" (str (uuid_text alert.id)) end) s
    >>= λ t. ok (
        audit_from_context env ctx
          (record {
            action = action;
            target_type = some "alert";
            target_id = some (uuid_text alert.id);
            before = none;
            after =
                some (field "status" (str status) (field "alert_type" (str alert.alert_type) end));
            ip = ip;
            metadata = none;
          })
          t)

abbrev put_alert : Uuid → (AgentAlert → AgentAlert) → Store → Store
put_alert id f s = record s { alerts = update_where (λ a. a.id == id) f s.alerts }

unfoldable pub acknowledged : Env → HostContext → AgentAlert → AgentAlert
acknowledged env ctx a = record a {
  status = AlertState.acknowledged;
  acknowledged_at = some env.now;
  acknowledged_by = ctx.user.local_user_id;
  version = a.version + 1;
}

unfoldable pub resolved : Env → HostContext → AgentAlert → AgentAlert
resolved env ctx a = record a {
  status = AlertState.resolved;
  resolved_at = some env.now;
  resolved_by = ctx.user.local_user_id;
  version = a.version + 1;
}

abbrev acknowledge_from :
    AlertState → Env → HostContext → AgentAlert → Option String → Service AgentAlert
acknowledge_from AlertState.resolved env ctx a ip s = (err Error.state_conflict, s)
acknowledge_from AlertState.acknowledged env ctx a ip s = (ok a, s)
acknowledge_from AlertState.opened env ctx a ip s =
    with_ok
      (note env ctx "alert.acknowledged" "acknowledged" a ip
        (put_alert a.id (acknowledged env ctx) s))
      s λ t. (ok (acknowledged env ctx a), t)

unfoldable pub acknowledge_alert : Env → HostContext → RawId → Option String → Service AgentAlert
acknowledge_alert env ctx alert_id ip s =
    with_ok (get_alert ctx alert_id s) s λ a. acknowledge_from a.status env ctx a ip s

abbrev resolve_from :
    AlertState → Env → HostContext → AgentAlert → Option String → Service AgentAlert
resolve_from AlertState.resolved env ctx a ip s = (ok a, s)
resolve_from status env ctx a ip s =
    with_ok (note env ctx "alert.resolved" "resolved" a ip (put_alert a.id (resolved env ctx) s)) s
      λ t. (ok (resolved env ctx a), t)

unfoldable pub resolve_alert : Env → HostContext → RawId → Option String → Service AgentAlert
resolve_alert env ctx alert_id ip s =
    with_ok (get_alert ctx alert_id s) s λ a. resolve_from a.status env ctx a ip s
