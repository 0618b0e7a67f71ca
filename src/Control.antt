-- ===== src/Control.antt =====
-- The control plane as one system: the submission, the delivery and the results of
-- apps/api/agent_control/control/commands.py with the decisions of
-- apps/api/agent_control/control/approvals.py, each of them one transaction, in any order.
mod Cleared
mod Queue
mod Decisions
mod Submission
pub mod Gate
pub mod Poll
use mission_control_platform.Prelude.{
  ℕ, ◌≡◌, Bool, true, false, ◌&&◌, Option, none, some, List, ◌==◌, is_some, any_of, All,
}
use mission_control_platform.Access.{HostContext}
use mission_control_platform.StateMachines.{CommandState, ApprovalState}
use mission_control_platform.Rows.{Uuid, Time, Effect, Agent, AgentCommand, ApprovalRequest}
use mission_control_platform.Store.{Env, Store, RawId}
use mission_control_platform.Commands.{cancel_command}
use mission_control_platform.Commands.Submit.{CommandSubmit, submit_command}
use mission_control_platform.Commands.Delivery.{
  AgentCredentialContext, CommandResultIn, fetch_and_deliver, use_credential, ack_command,
  submit_result,
}
use mission_control_platform.Approvals.{ApprovalDecisionIn, approve, reject}

-- One transaction. A poll is a chain of `fetched` and, between them, the steps of the others.
-- `elsewhere` is any transaction that leaves the two tables of the control plane as they are.
pub data Step : Store → Store → Type 0 where
  submitted :
      (env : Env) (ctx : HostContext) (run_id : RawId) (body : CommandSubmit) (s : Store)
      → Step s (submit_command env ctx run_id body s).1
  fetched :
      (now : Time) (agent : Agent) (limit : ℕ) (s : Store)
      → Step s (fetch_and_deliver now agent limit s).1
  acked :
      (ctx : AgentCredentialContext) (now : Time) (command_id : RawId) (s : Store)
      → Step s (ack_command ctx now command_id s).1
  reported :
      (ctx : AgentCredentialContext) (now : Time) (command_id : RawId) (body : CommandResultIn)
      (s : Store)
      → Step s (submit_result ctx now command_id body s).1
  cancelled :
      (env : Env) (ctx : HostContext) (command_id : RawId) (s : Store)
      → Step s (cancel_command env ctx command_id s).1
  approved :
      (env : Env) (ctx : HostContext) (approval_id : RawId) (body : ApprovalDecisionIn) (s : Store)
      → Step s (approve env ctx approval_id body s).1
  rejected :
      (env : Env) (ctx : HostContext) (approval_id : RawId) (body : ApprovalDecisionIn) (s : Store)
      → Step s (reject env ctx approval_id body s).1
  elsewhere : (s t : Store) → t.commands ≡ s.commands → t.approvals ≡ s.approvals → Step s t

pub data Steps : Store → Store → Type 0 where
  stay : (s : Store) → Steps s s
  then : (s t u : Store) → Steps s t → Step t u → Steps s u

-- The agent has got the command.
abbrev pub is_handed : CommandState → Bool
is_handed CommandState.delivered = true
is_handed CommandState.acknowledged = true
is_handed CommandState.succeeded = true
is_handed CommandState.failed = true
is_handed s = false

abbrev pub is_approved : ApprovalState → Bool
is_approved ApprovalState.approved = true
is_approved s = false

abbrev pub approved_by : Uuid → ApprovalRequest → Bool
approved_by i a = (a.id == i) && is_approved a.status

-- A link, if there is one, is to a request that is approved.
abbrev pub link_cleared : List ApprovalRequest → Option Uuid → Bool
link_cleared rows none = true
link_cleared rows (some i) = any_of (approved_by i) rows

abbrev pub asks : Option Effect → Bool
asks (some Effect.require_approval) = true
asks e = false

-- A command that the agent has got was released, a released one has its approval, and one that
-- asks for an approval is linked to a request.
abbrev pub Cleared : List ApprovalRequest → AgentCommand → Type 0
Cleared rows c =
    (is_handed c.status ≡ true → is_some c.released_at ≡ true)
    × (is_some c.released_at ≡ true → link_cleared rows c.approval_request_id ≡ true)
    × (asks c.policy_effect ≡ true → is_some c.approval_request_id ≡ true)

abbrev pub Gated : Store → Type 0
Gated s = All (Cleared s.approvals) s.commands
