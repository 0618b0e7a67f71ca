-- ===== src/Rows/Fleet.antt =====
-- The tables of the agents, of their credentials, of their runs and of the steps of a run.
use mission_control_platform.Prelude.{
  ℕ, String, Bool, false, Option, none, some, List, not, if◌then◌else◌,
}
use mission_control_platform.Prelude.Int.{ℤ}
use mission_control_platform.Json.{Json, Fields}
use mission_control_platform.StateMachines.{RunState, CredentialState}
use mission_control_platform.Rows.Control.{Uuid, Time, past}

-- The live state of an agent.
pub data AgentState : Type 0 where
  idle working blocked done error stale : AgentState

-- The status of an agent in the registry: `active | suspended | revoked | archived`.
pub data RegistryStatus : Type 0 where
  active suspended revoked archived : RegistryStatus
  other : String → RegistryStatus

-- Without `updated_at`, which the database fills in.
pub record Agent : Type 0 where
  pub id : Uuid
  pub agent_key : String
  pub installation_id : Option Uuid
  pub project_id : Option Uuid
  pub state : AgentState
  pub task : Option String
  pub progress : ℤ
  pub last_heartbeat : Option Time
  pub display_name : Option String
  pub description : Option String
  pub runtime : Option String
  pub provider : Option String
  pub client_version : Option String
  pub environment : Option String
  pub capabilities : List String
  pub status : RegistryStatus
  pub registered_by : Option Uuid
  pub registered_at : Option Time
  pub revoked_at : Option Time
  pub last_sequence : ℕ

pub record AgentCredential : Type 0 where
  pub id : Uuid
  pub agent_id : Uuid
  pub key_prefix : String
  pub secret_hash : String
  pub scopes : List String
  pub expires_at : Option Time
  pub last_used_at : Option Time
  pub revoked_at : Option Time
  pub created_by : Option Uuid

abbrev usable : Option Time → Option Time → Time → Bool
usable (some t) expires_at moment = false
usable none expires_at moment = not (past expires_at moment)

unfoldable pub is_usable : AgentCredential → Time → Bool
is_usable c moment = usable c.revoked_at c.expires_at moment

abbrev derived : Option Time → Option Time → Time → CredentialState
derived (some t) expires_at now = CredentialState.revoked
derived none expires_at now =
    if past expires_at now then CredentialState.expired else CredentialState.active

-- The derived `status` of a credential.
unfoldable pub credential_status : AgentCredential → Time → CredentialState
credential_status c now = derived c.revoked_at c.expires_at now

-- A column that the payload of an event fills holds the value of the payload, as the object of the
-- session does.
pub record AgentRun : Type 0 where
  pub id : Uuid
  pub installation_id : Option Uuid
  pub project_id : Option Uuid
  pub task_id : Option Uuid
  pub agent_id : Uuid
  pub external_run_key : Option Json
  pub objective : Option Json
  pub state : RunState
  pub retry_of_run_id : Option Uuid
  pub attempt : ℕ
  pub started_at : Option Time
  pub finished_at : Option Time
  pub heartbeat_at : Option Time
  pub result_summary : Option String
  pub error_code : Option String
  pub error_message : Option String
  pub run_metadata : Json
  pub version : ℕ
  pub created_at : Time

-- `started | succeeded | failed`.
pub data StepState : Type 0 where
  started succeeded failed : StepState

pub record AgentRunStep : Type 0 where
  pub id : Uuid
  pub run_id : Uuid
  pub sequence : ℤ
  pub step_type : Json
  pub name : Option Json
  pub state : StepState
  pub tool_name : Option Json
  pub input_summary : Option String
  pub output_summary : Option String
  pub started_at : Option Time
  pub finished_at : Option Time
  pub duration_ms : Option ℤ
  pub step_metadata : Json

-- A line of the log of the events that were taken in.
pub record AgentEvent : Type 0 where
  pub installation_id : Option Uuid
  pub agent_id : Uuid
  pub event_id : String
  pub sequence : ℕ
  pub event_type : String
  pub payload : Fields
  pub occurred_at : Time
  pub request_id : String
  pub run_id : Option Uuid
  pub project_id : Option Uuid
  pub task_id : Option Uuid
  pub trace_id : Option String
  pub client_version : Option String

-- `active | ended` of an assignment.
pub data AssignmentStatus : Type 0 where
  active ended : AssignmentStatus
  other : String → AssignmentStatus

pub record AgentProjectAssignment : Type 0 where
  pub installation_id : Option Uuid
  pub agent_id : Uuid
  pub project_id : Uuid
  pub role : String
  pub status : AssignmentStatus
