-- ===== src/Commands.antt =====
-- The queue of commands, apps/api/agent_control/control/commands.py: the transition of a command,
-- the reading of one and its cancellation. The submission and the agent's side are below.
pub mod Submit
pub mod Delivery
use Prim.Native.String.{◌++◌ as str_append}
use mission_control_platform.Prelude.{
  ℕ, ◌+◌, String, Bool, true, false, ◌&&◌, Option, none, some, List, [], ◌∷◌, ◌==◌, opt_eq,
  find_first, update_where, if◌then◌else◌,
}
use mission_control_platform.Json.{Json, Fields, str, end, field}
use mission_control_platform.Errors.{Result, Error, ok, err}
use mission_control_platform.StateMachines.{CommandState, command, can_transition, same}
use mission_control_platform.Access.{HostContext}
use mission_control_platform.Outbox.{run_topic}
use mission_control_platform.Rows.{Uuid, Time, AgentCommand}
use mission_control_platform.Store.{
  Env, Store, Service, RawId, as_uuid, tenant, with_ok, or_not_found, uuid_text, emit,
}

-- `_command_topic`.
unfoldable pub command_topic : AgentCommand → String
command_topic c = run_topic c.run_id c.agent_id

-- The milestone that a new state sets.
unfoldable pub stamp : CommandState → Time → AgentCommand → AgentCommand
stamp CommandState.delivered at c = record c { delivered_at = some at }
stamp CommandState.acknowledged at c = record c { acknowledged_at = some at }
stamp CommandState.succeeded at c = record c { result_at = some at }
stamp CommandState.failed at c = record c { result_at = some at }
stamp s at c = c

-- `transition_command`.
unfoldable pub transition_command : AgentCommand → CommandState → Time → Result AgentCommand
unfolding stamp can_transition
transition_command c new at =
    if same command c.status new
    then ok c
    else if can_transition command c.status new
    then ok (stamp new at (record c { status = new; version = c.version + 1 }))
    else err Error.state_conflict

-- The row with the identifier of the given one is written.
unfoldable pub put_command : AgentCommand → Store → Store
put_command c s = record s { commands = update_where (λ d. d.id == c.id) (λ d. c) s.commands }

abbrev pub command_by_id : Option Uuid → HostContext → Store → Option AgentCommand
command_by_id none ctx s = none
command_by_id (some cid) ctx s =
    find_first (λ c. (c.id == cid) && opt_eq c.installation_id (tenant ctx)) s.commands

unfoldable pub get_command : HostContext → RawId → Store → Result AgentCommand
get_command ctx command_id s = or_not_found (command_by_id (as_uuid command_id) ctx s)

abbrev pub command_payload : AgentCommand → Fields → Fields
command_payload c more = field "command_id" (str (uuid_text c.id)) more

unfoldable pub cancel_command : Env → HostContext → RawId → Service AgentCommand
unfolding get_command transition_command put_command emit command_topic
cancel_command env ctx command_id s = with_ok (get_command ctx command_id s) s λ c.
    with_ok (transition_command c CommandState.cancelled env.now) s λ d. (
      ok d,
      emit d.installation_id "command.cancelled" (command_topic d)
          (command_payload d (field "reason" (str "operator_cancel") end)) (put_command d s),
    )
