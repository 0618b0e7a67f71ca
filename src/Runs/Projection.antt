-- ===== src/Runs/Projection.antt =====
-- The projection of the events `run.<state>` on the table of runs, `project_run_event` of
-- apps/api/agent_control/runs/service.py.
use Prim.Native.String.{String}
use mission_control_platform.Prelude.{
  ℕ, zero, suc, ◌+◌, Bool, true, false, ◌&&◌, Option, none, some, [], ◌∷◌, ◌++◌, ◌==◌, opt_eq,
  any_of, find_first, str_eq, if◌then◌else◌,
}
use mission_control_platform.Json.{Json, Fields, null, str, obj, end, is_truthy, get_value, or_none}
use mission_control_platform.Errors.{Result, ok, err}
use mission_control_platform.StateMachines.{RunState, run, is_terminal}
use mission_control_platform.Rows.{Uuid, Time, Agent, AgentRun, AssignmentStatus}
use mission_control_platform.Store.{Env, Store}
use mission_control_platform.Runs.{is_started, transition_run, put_run}

-- `text[:limit]`.
unfoldable pub clip : ℕ → String → String
clip zero t = ""
clip (suc n) String.[] = ""
clip (suc n) (String.◌∷◌ c t) = String.◌∷◌ c (clip n t)

-- `str(value)`.
abbrev pub text_of : Env → Json → String
text_of env (str t) = t
text_of env j = env.show j

-- `_as_uuid` of a value of a payload.
abbrev pub json_uuid : Env → Json → Option Uuid
json_uuid env null = none
json_uuid env j = env.uuid_of (text_of env j)

-- `_as_uuid` of a text of an envelope.
abbrev pub text_uuid : Env → Option String → Option Uuid
text_uuid env none = none
text_uuid env (some t) = env.uuid_of t

-- `RUN_STATE_BY_EVENT.get(event_type)`.
unfoldable pub run_state_by_event : String → Option RunState
run_state_by_event t =
    if str_eq t "run.queued"
    then some RunState.queued
    else if str_eq t "run.starting"
    then some RunState.starting
    else if str_eq t "run.running"
    then some RunState.running
    else if str_eq t "run.waiting_approval"
    then some RunState.waiting_approval
    else if str_eq t "run.blocked"
    then some RunState.blocked
    else if str_eq t "run.succeeded"
    then some RunState.succeeded
    else if str_eq t "run.failed"
    then some RunState.failed
    else if str_eq t "run.cancelled"
    then some RunState.cancelled
    else if str_eq t "run.timed_out"
    then some RunState.timed_out
    else none

abbrev pub is_assigned : AssignmentStatus → Bool
is_assigned AssignmentStatus.active = true
is_assigned s = false

-- `_ensure_active_assignment`.
unfoldable pub ensure_active_assignment : Agent → Uuid → Store → Store
ensure_active_assignment agent project_id s =
    if any_of
      (λ a. (a.agent_id == agent.id) && ((a.project_id == project_id) && is_assigned a.status))
      s.assignments
    then s
    else record s {
      assignments =
          s.assignments
          ++ record {
            installation_id = agent.installation_id;
            agent_id = agent.id;
            project_id = project_id;
            role = "runner";
            status = AssignmentStatus.active;
          }
            ∷ [];
    }

-- `_find_run_in_scope`.
unfoldable pub find_run_in_scope : Agent → Uuid → Store → Option AgentRun
find_run_in_scope agent run_id s =
    find_first
      (λ r.
        (r.id == run_id)
        && ((r.agent_id == agent.id) && opt_eq r.installation_id agent.installation_id))
      s.runs

-- `if payload.get(key) and not old: old = str(payload[key])[:limit]`.
unfoldable pub fill : Env → ℕ → Json → Option String → Option String
fill env limit value none = if is_truthy value then some (clip limit (text_of env value)) else none
fill env limit value (some t) =
    if is_truthy value && str_eq t "" then some (clip limit (text_of env value)) else some t

-- `_apply_terminal_result`.
unfoldable pub apply_terminal_result : Env → Fields → AgentRun → AgentRun
unfolding fill
apply_terminal_result env payload r =
    if is_terminal run r.state
    then record r {
      result_summary = fill env 4000 (get_value "result_summary" payload) r.result_summary;
      error_code = fill env 80 (get_value "error_code" payload) r.error_code;
      error_message = fill env 4000 (get_value "error_message" payload) r.error_message;
    }
    else r

-- `(attempt or 1) + 1`.
abbrev next_attempt : ℕ → ℕ
next_attempt zero = 2
next_attempt (suc n) = suc n + 1

-- The run that is tried again, if it is one of the agent, and the number of the attempt.
abbrev retry_link : Option AgentRun → Option Uuid × ℕ
retry_link none = (none, 1)
retry_link (some parent) = (some parent.id, next_attempt parent.attempt)

abbrev parent_of : Agent → Option Uuid → Store → Option AgentRun
parent_of agent none s = none
parent_of agent (some i) s = find_run_in_scope agent i s

abbrev or_empty : Json → Json
or_empty j = if is_truthy j then j else obj end

-- The row of a run that is seen for the first time, before what its result gives.
abbrev pub first_row :
    Env → Agent → Uuid → RunState → Option Uuid → Option Uuid → Fields → Time → Store → AgentRun
first_row env agent run_id birth project_id task_id payload at s =
    let (retry_of, attempt) =
      retry_link (parent_of agent (json_uuid env (get_value "retry_of" payload)) s) in
    record {
      id = run_id;
      installation_id = agent.installation_id;
      project_id = project_id;
      task_id = task_id;
      agent_id = agent.id;
      external_run_key = or_none (get_value "external_run_key" payload);
      objective = or_none (get_value "objective" payload);
      state = birth;
      retry_of_run_id = retry_of;
      attempt = attempt;
      started_at = if is_started birth then some at else none;
      finished_at = if is_terminal run birth then some at else none;
      heartbeat_at = some at;
      result_summary = none;
      error_code = none;
      error_message = none;
      run_metadata = or_empty (get_value "metadata" payload);
      version = 1;
      created_at = env.now;
    }

unfoldable pub new_run :
    Env → Agent → Uuid → RunState → Option Uuid → Option Uuid → Fields → Time → Store → AgentRun
unfolding apply_terminal_result
new_run env agent run_id birth project_id task_id payload at s =
    apply_terminal_result env payload
      (first_row env agent run_id birth project_id task_id payload at s)

abbrev pub assign : Agent → Option Uuid → Store → Store
assign agent none s = s
assign agent (some p) s = ensure_active_assignment agent p s

-- `_create_run`.
unfoldable pub create_run :
    Env → Agent → Uuid → RunState → Option Uuid → Option Uuid → Fields → Time → Store → Store
unfolding new_run ensure_active_assignment
create_run env agent run_id birth project_id task_id payload at s =
    assign agent project_id (record s {
      runs = s.runs ++ new_run env agent run_id birth project_id task_id payload at s ∷ [];
    })

-- A transition that is refused changes nothing.
abbrev pub advance : Env → Fields → Result AgentRun → Store → Store
advance env payload (err e) s = s
advance env payload (ok r) s = put_run (apply_terminal_result env payload r) s

abbrev pub project_known :
    Env
    → Agent
    → Uuid
    → RunState
    → Option String
    → Option String
    → Fields
    → Time
    → Option AgentRun
    → Store
    → Store
project_known env agent run_id new project_id task_id payload at (some r) s =
    advance env payload (transition_run r new at) s
project_known env agent run_id new project_id task_id payload at none s =
    if any_of (λ r. r.id == run_id) s.runs
    then s
    else create_run env agent run_id new (text_uuid env project_id) (text_uuid env task_id) payload
        at s

abbrev pub project_parsed :
    Env
    → Agent
    → Option RunState
    → Option Uuid
    → Option String
    → Option String
    → Fields
    → Time
    → Store
    → Store
project_parsed env agent (some new) (some run_id) project_id task_id payload at s =
    project_known env agent run_id new project_id task_id payload at
      (find_run_in_scope agent run_id s) s
project_parsed env agent new run_id project_id task_id payload at s = s

-- `project_run_event`, whose result no caller uses.
unfoldable pub project_run_event :
    Env
    → Agent
    → String
    → Option String
    → Option String
    → Option String
    → Fields
    → Time
    → Store
    → Store
unfolding run_state_by_event find_run_in_scope transition_run apply_terminal_result create_run
project_run_event env agent event_type run_id project_id task_id payload at s =
    project_parsed env agent (run_state_by_event event_type) (text_uuid env run_id) project_id
      task_id payload at s
