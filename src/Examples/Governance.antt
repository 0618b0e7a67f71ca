-- ===== src/Examples/Governance.antt =====
-- Examples of the submission, the decisions and the delivery of commands.
use mission_control_platform.Prelude.{
  none, false, ◌≡◌, refl, inl, inr, true, some, [], ◌∷◌, find_first, or_else, ◌∙◌, sym, ◌≤◌, length,
  All, arith, Member, sort_by, insert_by,
}
use mission_control_platform.Errors.{Error, err, ok}
use mission_control_platform.StateMachines.{
  CommandState, can_transition, machines, command_transitions,
}
use mission_control_platform.Rows.{
  AgentCommand, ApprovalRequest, approval_is_expired, command_is_expired,
}
use mission_control_platform.Store.{Store, RawId, emit}
use mission_control_platform.Commands.Submit.{
  submit_command, submit_new, through_gate, enqueue, effective_effect, new_command, new_approval,
  hold, release, audit_submission,
}
use mission_control_platform.Commands.Delivery.{
  require_scope, Round, poll_commands, fetch_and_deliver, deliver_each, deliverable_query,
  waits_for, created_before, expire_if_needed, deliver,
}
use mission_control_platform.Approvals.{
  approve, get_approval, decide as decide_approval, decide_row, settle, announce, linked_command,
  release_linked, decided, decidable_row, approval, rejection,
}
use mission_control_platform.Runs.{get_run}
use mission_control_platform.Policies.{
  evaluate_policy, decide, sort_by_key, insert_by_key, active_policies, matches, scope_ok,
  resolution_key, key_before, scope_specificity, action_specificity, audit_decision,
}
use mission_control_platform.Budgets.{budget_gate, gate_loop, applicable_budgets}
use mission_control_platform.Audit.{audit_from_context}
use mission_control_platform.Commands.{transition_command, put_command, stamp}
use mission_control_platform.Control.{submitted, approved, fetched, stay, then, is_approved}
use mission_control_platform.Commands.Delivery.Poll.{Answered, poll_commands-Answered}
use mission_control_platform.Control.Gate.{handed_over_approved}
use mission_control_platform.Commands.Submit.Outcome.{
  Outcome, Fate, fate, asked, submit_new-Outcome,
}
use mission_control_platform.Commands.Submit.Replay.{submit_command-replay}
use mission_control_platform.Commands.Delivery.Handed.{Handed, fetch_and_deliver-Handed}
use mission_control_platform.Approvals.Once.{Keyed, no_second_decision}
use mission_control_platform.Store.Keeps.{Returns}
use mission_control_platform.Examples.{
  env, ctx, colleague, agent, run, start, body, decision, spare, caller,
}

abbrev held : Store
held = (submit_command env ctx (RawId.uuid 5) body start).1

abbrev released : Store
released = (approve env ctx (RawId.uuid 101) decision held).1

abbrev delivered : Store
delivered = (fetch_and_deliver 2000 agent 1 released).1

abbrev handed : AgentCommand
handed = or_else (find_first (λ c. true) delivered.commands) spare

handed_over_approved_example :
    (a : ApprovalRequest) × Member a delivered.approvals
    × (handed.approval_request_id ≡ some a.id)
    × (is_approved a.status ≡ true)
unfolding submit_command get_run submit_new evaluate_policy decide sort_by_key insert_by_key
    active_policies matches scope_ok resolution_key key_before scope_specificity action_specificity
    audit_decision through_gate enqueue effective_effect new_command new_approval hold release emit
    audit_submission audit_from_context budget_gate approve gate_loop applicable_budgets
    decide_approval get_approval decide_row settle announce linked_command release_linked decided
    decidable_row approval_is_expired fetch_and_deliver deliver_each deliverable_query waits_for
    created_before expire_if_needed deliver transition_command put_command stamp can_transition
    machines command_transitions command_is_expired sort_by insert_by
handed_over_approved_example =
    handed_over_approved start delivered refl
      (then start released delivered
        (then start held released
          (then start start held (stay start) (submitted env ctx (RawId.uuid 5) body start))
          (approved env ctx (RawId.uuid 101) decision held))
        (fetched 2000 agent 1 released))
      handed (inl refl) refl refl

single_Keyed : (a : ApprovalRequest) → Keyed (a ∷ [])
single_Keyed a x y m n e = elim m [
  | inl p ↦ elim n [ inl q ↦ sym p ∙ q | inr k ↦ absurd k ]
  | inr k ↦ absurd k
]

no_second_decision_example :
    decide_approval env colleague (RawId.uuid 101) decision rejection released
    ≡ (err Error.state_conflict, released)
unfolding submit_command get_run submit_new evaluate_policy decide sort_by_key insert_by_key
    active_policies matches scope_ok resolution_key key_before scope_specificity action_specificity
    audit_decision through_gate enqueue effective_effect new_command new_approval hold release emit
    audit_submission audit_from_context budget_gate approve gate_loop applicable_budgets
    decide_approval get_approval decide_row settle announce linked_command release_linked decided
    decidable_row approval_is_expired fetch_and_deliver deliver_each deliverable_query waits_for
    created_before expire_if_needed deliver transition_command put_command stamp can_transition
    machines command_transitions command_is_expired sort_by insert_by
no_second_decision_example =
    no_second_decision env env ctx colleague (RawId.uuid 101) decision decision approval rejection
      held released _ (single_Keyed _) refl refl

submit_new-Outcome_example :
    Outcome Fate.held env
      (asked env ctx run agent "k" body start).1
      (submit_new env ctx run agent "k" body start)
unfolding submit_command get_run submit_new evaluate_policy decide sort_by_key insert_by_key
    active_policies matches scope_ok resolution_key key_before scope_specificity action_specificity
    audit_decision through_gate enqueue effective_effect new_command new_approval hold release emit
    audit_submission audit_from_context budget_gate approve gate_loop applicable_budgets
    decide_approval get_approval decide_row settle announce linked_command release_linked decided
    decidable_row approval_is_expired fetch_and_deliver deliver_each deliverable_query waits_for
    created_before expire_if_needed deliver transition_command put_command stamp can_transition
    machines command_transitions command_is_expired sort_by insert_by fate
submit_new-Outcome_example = (submit_new-Outcome env ctx run agent "k" body start).2

fetch_and_deliver-Handed_example :
    Returns
      (λ ds. All (Handed 2000 agent) ds × (length ds ≤ 1))
      (fetch_and_deliver 2000 agent 1 released).0
fetch_and_deliver-Handed_example = fetch_and_deliver-Handed 2000 agent 1 released (omega arith)

submit_command-replay_example : submit_command env ctx (RawId.uuid 5) body held ≡ (
  ok (
    record handed {
      status = CommandState.queued;
      released_at = none;
      delivered_at = none;
      version = 1;
    },
    false,
  ),
  held,
)
unfolding submit_command get_run submit_new evaluate_policy decide sort_by_key insert_by_key
    active_policies matches scope_ok resolution_key key_before scope_specificity action_specificity
    audit_decision through_gate enqueue effective_effect new_command new_approval hold release emit
    audit_submission audit_from_context budget_gate approve gate_loop applicable_budgets
    decide_approval get_approval decide_row settle announce linked_command release_linked decided
    decidable_row approval_is_expired fetch_and_deliver deliver_each deliverable_query waits_for
    created_before expire_if_needed deliver transition_command put_command stamp can_transition
    machines command_transitions command_is_expired sort_by insert_by
submit_command-replay_example =
    submit_command-replay env env ctx (RawId.uuid 5) body body "k" start held _ true refl refl refl

-- While the poll sleeps, an operator approves what it waits for.
abbrev approving : Round
approving = record {
  meanwhile = λ t. (approve env ctx (RawId.uuid 101) decision t).1;
  woken_at = 1500;
}

poll_commands-Answered_example :
    Answered caller 1200
      (approving ∷ [])
      2000
      20
      held
      (poll_commands caller 1200 (approving ∷ []) 2000 20 held)
unfolding require_scope
poll_commands-Answered_example =
    poll_commands-Answered caller 1200 (approving ∷ []) 2000 20 held refl
