-- ===== src/Approvals.antt =====
-- The decisions on the requests for an approval, apps/api/agent_control/control/approvals.py.
-- A conditional UPDATE writes the rows that pass its test, and its `rowcount` is 0 if there is none.
pub mod Once
use mission_control_platform.Prelude.{
  ℕ, ◌+◌, String, Bool, true, false, ◌&&◌, Option, none, some, ◌==◌, opt_eq, any_of, find_first,
  update_where, if◌then◌else◌,
}
use mission_control_platform.Json.{Json, Fields, flag, null, str, end, field}
use mission_control_platform.Errors.{Result, Error, ok, err, ◌>>=◌}
use mission_control_platform.StateMachines.{CommandState, ApprovalState}
use mission_control_platform.Access.{HostContext}
use mission_control_platform.Rows.{
  Uuid, Time, AgentCommand, ApprovalRequest, approval_is_expired, is_queued,
}
use mission_control_platform.Store.{
  Env, Store, Service, RawId, as_uuid, tenant, with_ok, or_not_found, uuid_text, id_or_null, emit,
}
use mission_control_platform.Audit.{audit_from_context}
use mission_control_platform.Commands.{
  command_topic, transition_command, put_command, command_payload,
}

abbrev pub is_pending : ApprovalState → Bool
is_pending ApprovalState.pending = true
is_pending s = false

pub record ApprovalDecisionIn : Type 0 where
  pub version : ℕ
  pub comment : Option String

abbrev pub approval_by_id : Option Uuid → HostContext → Store → Option ApprovalRequest
approval_by_id none ctx s = none
approval_by_id (some aid) ctx s =
    find_first (λ a. (a.id == aid) && opt_eq a.installation_id (tenant ctx)) s.approvals

unfoldable pub get_approval : HostContext → RawId → Store → Result ApprovalRequest
get_approval ctx approval_id s = or_not_found (approval_by_id (as_uuid approval_id) ctx s)

-- `_linked_command`.
unfoldable pub linked_command : ApprovalRequest → Store → Option AgentCommand
linked_command a s = find_first (λ c. opt_eq c.approval_request_id (some a.id)) s.commands

-- The command that an approval releases, if it still waits.
unfoldable pub release_linked : Time → Option AgentCommand → Store → Store
release_linked now none s = s
release_linked now (some c) s =
    if is_queued c.status
    then emit c.installation_id "command.queued" (command_topic c)
        (command_payload c
          (field "agent_id" (str (uuid_text c.agent_id)) (field "released" (flag true) end)))
        (put_command (record c { released_at = some now }) s)
    else s

-- The command that a rejection or an expiry cancels, if it still waits.
unfoldable pub cancel_linked : Time → String → Option AgentCommand → Store → Result Store
cancel_linked now reason none s = ok s
cancel_linked now reason (some c) s =
    if is_queued c.status
    then transition_command c CommandState.cancelled now >>= (λ d. ok (
        emit d.installation_id "command.cancelled" (command_topic d)
          (command_payload d (field "reason" (str reason) end)) (put_command d s)))
    else ok s

-- `_expire`.
unfoldable pub expire : Time → ApprovalRequest → Store → Result Store
expire now a s = cancel_linked now "approval_expired" (linked_command a s) (record s {
  approvals =
      update_where (λ b. (b.id == a.id) && is_pending b.status)
        (λ b. record b { status = ApprovalState.expired; version = b.version + 1 }) s.approvals;
})

-- The test of the conditional UPDATE of a decision.
unfoldable pub decidable_row : HostContext → Uuid → ApprovalDecisionIn → ApprovalRequest → Bool
decidable_row ctx aid body b =
    (b.id == aid)
    && (opt_eq b.installation_id (tenant ctx)
        && (is_pending b.status && (b.version == body.version)))

-- `approve` or `reject`.
pub data Decision : Type 0 where
  approval rejection : Decision

abbrev pub target : Decision → ApprovalState
target approval = ApprovalState.approved
target rejection = ApprovalState.rejected

unfoldable pub decided :
    Env → HostContext → ApprovalDecisionIn → Decision → ApprovalRequest → ApprovalRequest
decided env ctx body d b = record b {
  status = target d;
  version = b.version + 1;
  decided_at = some env.now;
  decision_by = ctx.user.local_user_id;
  decision_comment = body.comment;
}

-- What a decision does to the command that waits for it.
unfoldable pub settle : Env → Decision → ApprovalRequest → Store → Result Store
unfolding release_linked cancel_linked
settle env approval a s = ok (release_linked env.now (linked_command a s) s)
settle env rejection a s = cancel_linked env.now "approval_rejected" (linked_command a s) s

abbrev decision_event : Decision → String
decision_event approval = "approval.approved"
decision_event rejection = "approval.rejected"

abbrev decision_text : Decision → String
decision_text approval = "approved"
decision_text rejection = "rejected"

abbrev text_or_null : Option String → Json
text_or_null none = null
text_or_null (some t) = str t

-- The event and the audit entry of a decision.
unfoldable pub announce :
    Env → HostContext → ApprovalDecisionIn → Decision → ApprovalRequest → Store → Store
unfolding emit
announce env ctx body d a s =
    audit_from_context env ctx
      (record {
        action = decision_event d;
        target_type = some "approval";
        target_id = some (uuid_text a.id);
        before = none;
        after = some (
            field "status" (str (decision_text d)) (
              field "action_type" (str a.action_type)
                (field "comment" (text_or_null body.comment) end)));
        ip = none;
        metadata = none;
      })
      (emit (tenant ctx) (decision_event d) "approvals"
        (field "approval_id" (str (uuid_text a.id))
          (field "decision_by" (id_or_null ctx.user.local_user_id) end))
        s)

-- A decision on a request that is pending and in time: the conditional UPDATE, and what follows it.
unfoldable pub decide_row :
    Env → HostContext → ApprovalDecisionIn → Decision → ApprovalRequest → Service ApprovalRequest
unfolding decided decidable_row settle
decide_row env ctx body d a s =
    if any_of (decidable_row ctx a.id body) s.approvals
    then with_ok
        (settle env d a (record s {
          approvals =
              update_where (decidable_row ctx a.id body) (decided env ctx body d) s.approvals;
        }))
        s (λ t. (ok (decided env ctx body d a), announce env ctx body d a t))
    else (err Error.state_conflict, s)

-- A request that has expired is closed, and the decision is refused.
unfoldable pub refuse_expired : Time → ApprovalRequest → Service ApprovalRequest
unfolding expire
refuse_expired now a s = with_ok (expire now a s) s λ t. (err Error.state_conflict, t)

-- `_decide`.
unfoldable pub decide :
    Env → HostContext → RawId → ApprovalDecisionIn → Decision → Service ApprovalRequest
unfolding get_approval decide_row refuse_expired approval_is_expired
decide env ctx approval_id body d s = with_ok (get_approval ctx approval_id s) s λ a.
    if is_pending a.status
    then if approval_is_expired a env.now
      then refuse_expired env.now a s
      else decide_row env ctx body d a s
    else (err Error.state_conflict, s)

unfoldable pub approve : Env → HostContext → RawId → ApprovalDecisionIn → Service ApprovalRequest
approve env ctx approval_id body s = decide env ctx approval_id body approval s

unfoldable pub reject : Env → HostContext → RawId → ApprovalDecisionIn → Service ApprovalRequest
reject env ctx approval_id body s = decide env ctx approval_id body rejection s
