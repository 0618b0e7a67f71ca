-- ===== src/Examples.antt =====
-- The data of the examples: an installation with an agent, a run, a policy and a budget. The
-- examples of its children apply the theorems to it.
mod Governance
mod Rules
mod Accounts
mod Contracts
mod Telemetry
mod Fleet
mod Pages
use mission_control_platform.Prelude.{
  ℕ, String, Bool, true, false, Option, none, some, List, [], ◌∷◌,
}
use mission_control_platform.Prelude.Int.{ℤ, pos}
use mission_control_platform.Json.{Fields, end, null}
use mission_control_platform.Redaction.{Unicode}
use mission_control_platform.StateMachines.{RunState, CommandState, ApprovalState}
use mission_control_platform.Access.{HostContext, InstallationRef, UserRef}
use mission_control_platform.Rows.{
  Effect, AgentState, RegistryStatus, ScopeType, RowStatus, Agent, AgentRun, AgentCommand,
  AgentPolicy, AgentCredential, ApprovalRequest,
}
use mission_control_platform.Store.{Settings, Env, Store, RawId}
use mission_control_platform.Commands.Submit.{CommandSubmit}
use mission_control_platform.Commands.Delivery.{AgentCredentialContext}
use mission_control_platform.Approvals.{ApprovalDecisionIn}

abbrev pub ascii : Unicode
ascii = record { is_alnum = λ c. false; lower = λ c. c ∷ [] }

abbrev pub settings : Settings
settings = record {
  mc_stale_seconds = 30;
  mc_event_batch_max = 500;
  mc_command_long_poll_seconds = 25;
  mc_command_default_ttl_seconds = 3600;
  mc_approval_default_ttl_seconds = 86400;
  mc_policy_default_effect = Effect.require_approval;
}

abbrev pub env : Env
env = record {
  now = 1000;
  settings = settings;
  unicode = ascii;
  sha256_hex = λ t. t;
  show = λ j. "";
  int_of = λ j. none;
  uuid_of = λ t. none;
  time_of = λ t. some 800;
  milliseconds = λ n. n;
}

abbrev pub ctx : HostContext
ctx = record {
  request_id = "req";
  installation = record {
    id = some 1;
    installation_key = "main";
    external_tenant_id = "t";
    status = "active";
  };
  user = record {
    external_user_id = "u";
    local_user_id = some 2;
    email = none;
    display_name = none;
    status = "active";
  };
  capabilities = [];
}

-- Another user of the same tenant.
abbrev pub colleague : HostContext
colleague = record ctx {
  request_id = "other";
  user = record (ctx.user) { external_user_id = "v"; local_user_id = some 3 };
}

abbrev pub agent : Agent
agent = record {
  id = 7;
  agent_key = "main:builder";
  installation_id = some 1;
  project_id = none;
  state = AgentState.idle;
  task = none;
  progress = pos 0;
  last_heartbeat = none;
  display_name = some "builder";
  description = none;
  runtime = none;
  provider = none;
  client_version = none;
  environment = none;
  capabilities = [];
  status = RegistryStatus.active;
  registered_by = none;
  registered_at = some 50;
  revoked_at = none;
  last_sequence = 3;
}

abbrev pub run : AgentRun
run = record {
  id = 5;
  installation_id = some 1;
  project_id = none;
  task_id = none;
  agent_id = 7;
  external_run_key = none;
  objective = none;
  state = RunState.running;
  retry_of_run_id = none;
  attempt = 1;
  started_at = some 500;
  finished_at = none;
  heartbeat_at = none;
  result_summary = none;
  error_code = none;
  error_message = none;
  run_metadata = null;
  version = 1;
  created_at = 400;
}

abbrev pub policy : AgentPolicy
policy = record {
  id = 20;
  installation_id = some 1;
  scope_type = ScopeType.installation;
  scope_id = none;
  action_type = "*";
  effect = Effect.require_approval;
  risk_level = none;
  conditions = end;
  priority = pos 1;
  status = RowStatus.active;
  description = none;
  version = 1;
  created_by = none;
  created_at = 100;
}

abbrev pub start : Store
start = record {
  agents = agent ∷ [];
  credentials = [];
  runs = run ∷ [];
  steps = [];
  events = [];
  assignments = [];
  commands = [];
  approvals = [];
  policies = policy ∷ [];
  budgets = [];
  usage = [];
  alerts = [];
  audits = [];
  activity = [];
  outbox = [];
  next_id = 100;
}

abbrev pub body : CommandSubmit
body = record {
  command_type = "cancel";
  payload = end;
  idempotency_key = some "k";
  expires_in_seconds = none;
  risk_level = none;
}

abbrev pub decision : ApprovalDecisionIn
decision = record { version = 1; comment = none }

abbrev pub spare : AgentCommand
spare = record {
  id = 0;
  installation_id = some 1;
  agent_id = 7;
  run_id = none;
  command_type = "pause";
  payload = end;
  status = CommandState.queued;
  idempotency_key = "spare";
  requested_by = none;
  approval_request_id = none;
  policy_id = none;
  policy_effect = some Effect.allow;
  risk_level = none;
  released_at = some 900;
  expires_at = some 5000;
  delivered_at = none;
  acknowledged_at = none;
  result_at = none;
  result_status = none;
  result_payload = end;
  error_message = none;
  version = 1;
  created_at = 900;
}

abbrev pub caller : AgentCredentialContext
caller = record {
  credential = record {
    id = 40;
    agent_id = 7;
    key_prefix = "ac_000001";
    secret_hash = "hash";
    scopes = "commands" ∷ [];
    expires_at = none;
    last_used_at = none;
    revoked_at = none;
    created_by = none;
  };
  agent = agent;
  scopes = "commands" ∷ [];
}
