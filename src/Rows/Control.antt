-- ===== src/Rows/Control.antt =====
-- The tables of the control plane: policies, approvals and commands.
use mission_control_platform.Prelude.{
  ℕ, String, Bool, true, false, not, ◌&&◌, Option, none, some, leb, is_some,
}
use mission_control_platform.Prelude.Int.{ℤ}
use mission_control_platform.Json.{Fields}
use mission_control_platform.StateMachines.{CommandState, ApprovalState}

abbrev pub Uuid : Type 0
Uuid = ℕ

abbrev pub Time : Type 0
Time = ℕ

-- `allow | deny | require_approval`.
pub data Effect : Type 0 where
  allow deny require_approval : Effect
  other : String → Effect

-- `installation | project | agent`.
pub data ScopeType : Type 0 where
  installation project agent : ScopeType
  other : String → ScopeType

-- `active | disabled` of a policy or a budget.
pub data RowStatus : Type 0 where
  active disabled : RowStatus
  other : String → RowStatus

abbrev pub is_active : RowStatus → Bool
is_active RowStatus.active = true
is_active s = false

pub record AgentPolicy : Type 0 where
  pub id : Uuid
  pub installation_id : Option Uuid
  pub scope_type : ScopeType
  pub scope_id : Option Uuid
  pub action_type : String
  pub effect : Effect
  pub risk_level : Option String
  pub conditions : Fields
  pub priority : ℤ
  pub status : RowStatus
  pub description : Option String
  pub version : ℕ
  pub created_by : Option Uuid
  pub created_at : Time

pub record ApprovalRequest : Type 0 where
  pub id : Uuid
  pub installation_id : Option Uuid
  pub project_id : Option Uuid
  pub task_id : Option Uuid
  pub run_id : Option Uuid
  pub agent_id : Uuid
  pub policy_id : Option Uuid
  pub action_type : String
  pub risk_level : String
  pub title : String
  pub context : Fields
  pub requested_by : Option Uuid
  pub requested_by_agent : Bool
  pub status : ApprovalState
  pub expires_at : Option Time
  pub decided_at : Option Time
  pub decision_by : Option Uuid
  pub decision_comment : Option String
  pub version : ℕ
  pub created_at : Time

-- `expires_at is not None and expires_at <= now`.
abbrev pub past : Option Time → Time → Bool
past none now = false
past (some t) now = leb t now

unfoldable pub approval_is_expired : ApprovalRequest → Time → Bool
approval_is_expired a now = past a.expires_at now

pub record AgentCommand : Type 0 where
  pub id : Uuid
  pub installation_id : Option Uuid
  pub agent_id : Uuid
  pub run_id : Option Uuid
  pub command_type : String
  pub payload : Fields
  pub status : CommandState
  pub idempotency_key : String
  pub requested_by : Option Uuid
  pub approval_request_id : Option Uuid
  pub policy_id : Option Uuid
  pub policy_effect : Option Effect
  pub risk_level : Option String
  pub released_at : Option Time
  pub expires_at : Option Time
  pub delivered_at : Option Time
  pub acknowledged_at : Option Time
  pub result_at : Option Time
  pub result_status : Option String
  pub result_payload : Fields
  pub error_message : Option String
  pub version : ℕ
  pub created_at : Time

unfoldable pub command_is_expired : AgentCommand → Time → Bool
command_is_expired c now = past c.expires_at now

abbrev pub is_queued : CommandState → Bool
is_queued CommandState.queued = true
is_queued s = false

unfoldable pub is_deliverable : AgentCommand → Time → Bool
unfolding command_is_expired
is_deliverable c now = is_queued c.status && is_some c.released_at && not (command_is_expired c now)
