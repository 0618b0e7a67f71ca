-- ===== src/Control/Submission.antt =====
-- A submission of apps/api/agent_control/control/commands.py keeps every command cleared: what it
-- releases at once asks for no approval, and what asks for one waits.
use mission_control_platform.Prelude.{
  ◌+◌, ◌≡◌, refl, String, Bool, true, false, Option, none, some, [], ◌∷◌, ◌++◌, or_else, All-append,
  find_first, ◌==◌,
}
use mission_control_platform.Errors.{Result}
use mission_control_platform.Access.{HostContext}
use mission_control_platform.StateMachines.{CommandState}
use mission_control_platform.Rows.{Effect, Agent, AgentRun, AgentCommand, ApprovalRequest}
use mission_control_platform.Store.{
  Env, Store, RawId, truthy, uuid_text, tenant, emit, or_not_found,
}
use mission_control_platform.Store.Keeps.{with_ok-keeps}
use mission_control_platform.Audit.{audit_from_context}
use mission_control_platform.Policies.{PolicyDecision, evaluate_policy, audit_decision}
use mission_control_platform.Budgets.{GateBehavior}
use mission_control_platform.Runs.{get_run}
use mission_control_platform.Commands.Submit.{
  CommandSubmit, new_command, hold, release, audit_submission, enqueue, through_gate, after_policy,
  replay_or, submit_new, by_key, submit_command, SubmitResult,
}
use mission_control_platform.Control.{asks, Cleared, Gated}
use mission_control_platform.Control.Cleared.{link_cleared-append, All-Cleared}

hold-Gated :
    (a : ApprovalRequest) (c : AgentCommand) (s : Store)
    → c.status ≡ CommandState.queued
    → Gated s
    → Gated (hold a c s)
unfolding hold emit
hold-Gated a c s q g =
    All-append (Cleared (s.approvals ++ a ∷ [])) s.commands _
      (All-Cleared s.approvals (s.approvals ++ a ∷ []) s.commands
        (link_cleared-append s.approvals (a ∷ [])) g)
      (((λ k. cc (rw q at k)), (λ k. cc), (λ k. refl)), tt)

release-Gated :
    (env : Env) (c : AgentCommand) (s : Store)
    → c.approval_request_id ≡ none
    → asks c.policy_effect ≡ false
    → Gated s
    → Gated (release env.now c s)
unfolding release emit
release-Gated env c s n e g =
    All-append (Cleared s.approvals) s.commands _ g
      (((λ k. refl), (λ k. rw n refl), (λ k. cc (rw e at k))), tt)

enqueue-Gated :
    (env : Env) (ctx : HostContext) (run : AgentRun) (agent : Agent) (idem : String)
    (body : CommandSubmit) (d : PolicyDecision) (gate : GateBehavior) (e : Effect) (s : Store)
    → Gated s
    → Gated (enqueue env ctx run agent idem body d gate e s).1
unfolding enqueue audit_submission audit_from_context new_command
enqueue-Gated env ctx run agent idem body d gate Effect.require_approval s g =
    hold-Gated _ (new_command env ctx run agent idem body d Effect.require_approval (s.next_id + 1))
      (record s { next_id = s.next_id + 2 }) refl g
enqueue-Gated env ctx run agent idem body d gate Effect.allow s g =
    release-Gated env (new_command env ctx run agent idem body d Effect.allow (s.next_id + 1))
      (record s { next_id = s.next_id + 2 }) refl refl g
enqueue-Gated env ctx run agent idem body d gate Effect.deny s g =
    release-Gated env (new_command env ctx run agent idem body d Effect.deny (s.next_id + 1))
      (record s { next_id = s.next_id + 2 }) refl refl g
enqueue-Gated env ctx run agent idem body d gate (Effect.other t) s g =
    release-Gated env (new_command env ctx run agent idem body d (Effect.other t) (s.next_id + 1))
      (record s { next_id = s.next_id + 2 }) refl refl g

through_gate-Gated :
    (env : Env) (ctx : HostContext) (run : AgentRun) (agent : Agent) (idem : String)
    (body : CommandSubmit) (d : PolicyDecision) (gate : GateBehavior) (s : Store)
    → Gated s
    → Gated (through_gate env ctx run agent idem body d gate s).1
unfolding through_gate
through_gate-Gated env ctx run agent idem body d GateBehavior.block s g = g
through_gate-Gated env ctx run agent idem body d GateBehavior.allow s g =
    enqueue-Gated env ctx run agent idem body d GateBehavior.allow _ s g
through_gate-Gated env ctx run agent idem body d GateBehavior.require_approval s g =
    enqueue-Gated env ctx run agent idem body d GateBehavior.require_approval _ s g

after_policy-Gated :
    (denied : Bool) (env : Env) (ctx : HostContext) (run : AgentRun) (agent : Agent) (idem : String)
    (body : CommandSubmit) (d : PolicyDecision) (s : Store)
    → Gated s
    → Gated (after_policy denied env ctx run agent idem body d s).1
after_policy-Gated true env ctx run agent idem body d s g = g
after_policy-Gated false env ctx run agent idem body d s g =
    through_gate-Gated env ctx run agent idem body d _ s g

submit_new-Gated :
    (env : Env) (ctx : HostContext) (run : AgentRun) (agent : Agent) (idem : String)
    (body : CommandSubmit) (s : Store)
    → Gated s
    → Gated (submit_new env ctx run agent idem body s).1
unfolding submit_new evaluate_policy audit_decision audit_from_context
submit_new-Gated env ctx run agent idem body s g =
    after_policy-Gated _ env ctx run agent idem body _ _ g

replay_or-Gated :
    (o : Option AgentCommand) (new : Store → Result SubmitResult × Store) (s : Store)
    → Gated s
    → Gated (new s).1
    → Gated (replay_or o new s).1
replay_or-Gated none new s g h = h
replay_or-Gated (some c) new s g h = g

pub submit_command-Gated :
    (env : Env) (ctx : HostContext) (run_id : RawId) (body : CommandSubmit) (s : Store)
    → Gated s
    → Gated (submit_command env ctx run_id body s).1
unfolding submit_command
submit_command-Gated env ctx run_id body s g =
    with_ok-keeps Gated (get_run ctx run_id s) s _ g λ run e.
      with_ok-keeps Gated (or_not_found (find_first (λ a. a.id == run.agent_id) s.agents)) s _ g
        λ agent k.
          let idem = or_else (truthy body.idempotency_key) (uuid_text s.next_id) in
          replay_or-Gated (by_key (tenant ctx) idem s.commands)
            (λ t. submit_new env ctx run agent idem body (record t { next_id = t.next_id + 1 })) s g
            (submit_new-Gated env ctx run agent idem body (record s { next_id = s.next_id + 1 }) g)
