-- ===== src/Runs.antt =====
-- The runs of the agents, apps/api/agent_control/runs/service.py: the reading of one, and the
-- transition that every change of a run's state goes through. The projection of events is below.
pub mod Projection
pub mod Steps
pub mod Moves
use mission_control_platform.Prelude.{
  ◌+◌, Bool, true, false, ◌&&◌, Option, none, some, ◌==◌, opt_eq, find_first, update_where,
  if◌then◌else◌,
}
use mission_control_platform.Errors.{Result, Error, ok, err}
use mission_control_platform.StateMachines.{RunState, run, same, can_transition, is_terminal}
use mission_control_platform.Access.{HostContext}
use mission_control_platform.Rows.{Uuid, Time, AgentRun}
use mission_control_platform.Store.{Store, RawId, as_uuid, tenant, or_not_found}

abbrev pub run_by_id : Option Uuid → HostContext → Store → Option AgentRun
run_by_id none ctx s = none
run_by_id (some rid) ctx s =
    find_first (λ r. (r.id == rid) && opt_eq r.installation_id (tenant ctx)) s.runs

-- `get_run`, without the steps.
unfoldable pub get_run : HostContext → RawId → Store → Result AgentRun
get_run ctx run_id s = or_not_found (run_by_id (as_uuid run_id) ctx s)

-- `_STARTED_RUN_STATES`.
abbrev pub is_started : RunState → Bool
is_started RunState.starting = true
is_started RunState.running = true
is_started s = false

abbrev pub first_time : Option Time → Time → Option Time
first_time none at = some at
first_time (some t) at = some t

-- The milestones of a state that a run enters.
unfoldable pub milestones : RunState → Time → AgentRun → AgentRun
milestones new at r = record r {
  state = new;
  version = r.version + 1;
  heartbeat_at = some at;
  started_at = if is_started new then first_time r.started_at at else r.started_at;
  finished_at = if is_terminal run new then some at else r.finished_at;
}

-- `transition_run`. The first test, for a terminal state, is the one of `_TERMINAL_RUN_STATES`.
unfoldable pub transition_run : AgentRun → RunState → Time → Result AgentRun
unfolding milestones
transition_run r new at =
    if same run r.state new
    then ok (record r { heartbeat_at = some at })
    else if is_terminal run r.state
    then err Error.state_conflict
    else if can_transition run r.state new
    then ok (milestones new at r)
    else err Error.state_conflict

-- The row with the identifier of the given one is written.
abbrev pub put_run : AgentRun → Store → Store
put_run r s = record s { runs = update_where (λ q. q.id == r.id) (λ q. r) s.runs }
