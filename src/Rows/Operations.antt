-- ===== src/Rows/Operations.antt =====
-- The tables of the operations: consumption, budgets, alerts, the audit log and the outbox.
use mission_control_platform.Prelude.{ℕ, String, Option, List}
use mission_control_platform.Prelude.Int.{ℤ}
use mission_control_platform.Json.{Json, Fields}
use mission_control_platform.StateMachines.{AlertState}
use mission_control_platform.Rows.Control.{Uuid, Time, ScopeType, RowStatus}

-- An amount of money or a cost, in units of 10^-8.
abbrev pub Amount : Type 0
Amount = ℤ

-- `daily | weekly | monthly | total`.
pub data Period : Type 0 where
  daily weekly monthly total : Period
  other : String → Period

-- `alert | require_approval | block_new_runs`.
pub data OnExceed : Type 0 where
  alert require_approval block_new_runs : OnExceed
  other : String → OnExceed

pub record AgentUsageRecord : Type 0 where
  pub id : Uuid
  pub installation_id : Option Uuid
  pub agent_id : Uuid
  pub project_id : Option Uuid
  pub run_id : Option Uuid
  pub provider : Option String
  pub model : Option String
  pub input_tokens : ℤ
  pub output_tokens : ℤ
  pub total_tokens : ℤ
  pub calls : ℤ
  pub currency : String
  pub cost : Amount
  pub pricing_version : String
  pub source_event_id : String
  pub occurred_at : Time

pub record AgentBudget : Type 0 where
  pub id : Uuid
  pub installation_id : Option Uuid
  pub scope_type : ScopeType
  pub scope_id : Option Uuid
  pub period : Period
  pub currency : String
  pub amount_limit : Amount
  pub thresholds : List ℤ
  pub on_exceed : OnExceed
  pub status : RowStatus
  pub description : Option String
  pub version : ℕ
  pub created_by : Option Uuid
  pub created_at : Time

pub record AgentAlert : Type 0 where
  pub id : Uuid
  pub installation_id : Option Uuid
  pub alert_type : String
  pub severity : String
  pub status : AlertState
  pub target_type : Option String
  pub target_id : Option Uuid
  pub dedup_key : String
  pub title : String
  pub details : Fields
  pub opened_at : Time
  pub acknowledged_at : Option Time
  pub acknowledged_by : Option Uuid
  pub resolved_at : Option Time
  pub resolved_by : Option Uuid
  pub version : ℕ

pub record AuditLog : Type 0 where
  pub installation_id : Option Uuid
  pub actor_type : String
  pub actor_id : Option String
  pub actor_label : Option String
  pub action : String
  pub target_type : Option String
  pub target_id : Option String
  pub before : Option Json
  pub after : Option Json
  pub request_id : Option String
  pub ip_hash : Option String
  pub audit_metadata : Json

-- A line of the older log `activity_logs`.
pub record ActivityLog : Type 0 where
  pub agent_id : Option Uuid
  pub kind : String
  pub payload : Fields

pub record OutboxEvent : Type 0 where
  pub installation_id : Option Uuid
  pub event_id : String
  pub event_type : String
  pub topic : String
  pub sequence : Option ℕ
  pub payload : Fields
  pub status : String
