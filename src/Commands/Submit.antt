-- ===== src/Commands/Submit.antt =====
-- The submission of a command, `submit_command` of apps/api/agent_control/control/commands.py: the
-- policy, the budgets, and a command that is released at once or held for an approval.
pub mod Outcome
pub mod Replay
use Prim.Native.String.{◌++◌ as str_append}
use mission_control_platform.Prelude.{
  ℕ, ◌+◌, String, Bool, true, false, ◌&&◌, Option, none, some, List, [], ◌∷◌, ◌++◌, ◌==◌, opt_eq,
  or_else, find_first, str_eq,
}
use mission_control_platform.Json.{Json, Fields, null, str, end, field}
use mission_control_platform.Errors.{Result, Error, ok, err}
use mission_control_platform.StateMachines.{CommandState, ApprovalState}
use mission_control_platform.Access.{HostContext}
use mission_control_platform.Rows.{
  Uuid, Time, Effect, Agent, AgentRun, AgentCommand, ApprovalRequest,
}
use mission_control_platform.Store.{
  Env, Store, Service, RawId, tenant, with_ok, or_not_found, truthy, uuid_text, id_or_null, seconds,
  emit,
}
use mission_control_platform.Audit.{audit_from_context}
use mission_control_platform.Policies.{PolicyDecision, policy_id, effect_text, evaluate_policy}
use mission_control_platform.Budgets.{GateBehavior, BudgetGateDecision, budget_gate}
use mission_control_platform.Runs.{get_run}
use mission_control_platform.Commands.{command_topic}

pub record CommandSubmit : Type 0 where
  pub command_type : String
  pub payload : Fields
  pub idempotency_key : Option String
  pub expires_in_seconds : Option ℕ
  pub risk_level : Option String

-- `SubmitResult`: the command, and whether it was created.
abbrev pub SubmitResult : Type 0
SubmitResult = AgentCommand × Bool

-- The budget gate turns an effect of `allow` into one that asks for an approval.
unfoldable pub effective_effect : Effect → GateBehavior → Effect
effective_effect Effect.allow GateBehavior.require_approval = Effect.require_approval
effective_effect e g = e

-- `decision.risk_level or body.risk_level`.
abbrev pub first_text : Option String → Option String → Option String
first_text none b = b
first_text (some t) b = some t

unfoldable pub new_command :
    Env
    → HostContext
    → AgentRun
    → Agent
    → String
    → CommandSubmit
    → PolicyDecision
    → Effect
    → Uuid
    → AgentCommand
new_command env ctx run agent idem body decision effect id = record {
  id = id;
  installation_id = tenant ctx;
  agent_id = agent.id;
  run_id = some run.id;
  command_type = body.command_type;
  payload = body.payload;
  status = CommandState.queued;
  idempotency_key = idem;
  requested_by = ctx.user.local_user_id;
  approval_request_id = none;
  policy_id = policy_id decision;
  policy_effect = some effect;
  risk_level = first_text (truthy decision.risk_level) body.risk_level;
  released_at = none;
  expires_at = some (
      env.now
      + seconds (or_else body.expires_in_seconds env.settings.mc_command_default_ttl_seconds));
  delivered_at = none;
  acknowledged_at = none;
  result_at = none;
  result_status = none;
  result_payload = end;
  error_message = none;
  version = 1;
  created_at = env.now;
}

abbrev reason : Effect → String
reason Effect.allow = "budget"
reason e = "policy"

unfoldable pub new_approval :
    Env
    → HostContext
    → AgentRun
    → Agent
    → CommandSubmit
    → PolicyDecision
    → AgentCommand
    → Uuid
    → ApprovalRequest
new_approval env ctx run agent body decision c id = record {
  id = id;
  installation_id = tenant ctx;
  project_id = run.project_id;
  task_id = run.task_id;
  run_id = some run.id;
  agent_id = agent.id;
  policy_id = policy_id decision;
  action_type = body.command_type;
  risk_level = or_else (truthy c.risk_level) "medium";
  title = str_append "Approbation requise : " body.command_type;
  context =
      field "command_type" (str body.command_type) (
        field "run_id" (str (uuid_text run.id))
          (field "reason" (str (reason decision.effect)) end));
  requested_by = ctx.user.local_user_id;
  requested_by_agent = false;
  status = ApprovalState.pending;
  expires_at = some (env.now + seconds env.settings.mc_approval_default_ttl_seconds);
  decided_at = none;
  decision_by = none;
  decision_comment = none;
  version = 1;
  created_at = env.now;
}

-- The command is held: it is linked to a new approval and is not released. `c` has no link yet.
unfoldable pub hold : ApprovalRequest → AgentCommand → Store → Store
unfolding emit
hold a c s =
    emit c.installation_id "approval.requested" "approvals"
      (field "approval_id" (str (uuid_text a.id)) (
        field "run_id" (id_or_null c.run_id) (
          field "agent_id" (str (uuid_text c.agent_id)) (
            field "action_type" (str c.command_type) (field "risk_level" (str a.risk_level) end)))))
      (record s {
        approvals = s.approvals ++ a ∷ [];
        commands =
            s.commands ++ record c { approval_request_id = some a.id; released_at = none } ∷ [];
      })

-- The command is released at once. The event is built before the flush that gives the row its
-- identifier, so its `command_id` is the text of `None`.
unfoldable pub release : Time → AgentCommand → Store → Store
unfolding emit command_topic
release now c s =
    emit c.installation_id "command.queued" (command_topic c)
      (field "command_id" (str "None") (
        field "agent_id" (str (uuid_text c.agent_id))
          (field "run_id" (id_or_null c.run_id) (field "command_type" (str c.command_type) end))))
      (record s { commands = s.commands ++ record c { released_at = some now } ∷ [] })

abbrev gate_text : GateBehavior → String
gate_text GateBehavior.allow = "allow"
gate_text GateBehavior.require_approval = "require_approval"
gate_text GateBehavior.block = "block"

unfoldable pub audit_submission :
    Env → HostContext → PolicyDecision → GateBehavior → Effect → AgentCommand → Store → Store
audit_submission env ctx decision gate effect c s =
    audit_from_context env ctx
      (record {
        action = "command.submitted";
        target_type = some "command";
        target_id = some (uuid_text c.id);
        before = none;
        after = some (
            field "command_type" (str c.command_type) (
              field "effect" (str (effect_text effect)) (
                field "run_id" (id_or_null c.run_id)
                  (field "agent_id" (str (uuid_text c.agent_id)) end))));
        ip = none;
        metadata = some (
            field "policy_id" (id_or_null (policy_id decision))
              (field "budget_gate" (str (gate_text gate)) end));
      })
      s

-- The command is written by its effect, and its submission is audited. Two identifiers are taken,
-- the first for the approval.
unfoldable pub enqueue :
    Env
    → HostContext
    → AgentRun
    → Agent
    → String
    → CommandSubmit
    → PolicyDecision
    → GateBehavior
    → Effect
    → Store
    → SubmitResult × Store
unfolding new_command new_approval hold release audit_submission
enqueue env ctx run agent idem body decision gate Effect.require_approval s =
    let c =
      new_command env ctx run agent idem body decision Effect.require_approval (s.next_id + 1) in
    let a = new_approval env ctx run agent body decision c s.next_id in
    (
      (record c { approval_request_id = some a.id; released_at = none }, true),
      audit_submission env ctx decision gate Effect.require_approval c
          (hold a c (record s { next_id = s.next_id + 2 })),
    )
enqueue env ctx run agent idem body decision gate effect s =
    let c = new_command env ctx run agent idem body decision effect (s.next_id + 1) in
    (
      (record c { released_at = some env.now }, true),
      audit_submission env ctx decision gate effect c
          (release env.now c (record s { next_id = s.next_id + 2 })),
    )

-- The gate of the budgets, after a policy that does not deny.
unfoldable pub through_gate :
    Env
    → HostContext
    → AgentRun
    → Agent
    → String
    → CommandSubmit
    → PolicyDecision
    → GateBehavior
    → Service SubmitResult
unfolding enqueue effective_effect
through_gate env ctx run agent idem body decision GateBehavior.block s =
    (err Error.budget_exceeded, s)
through_gate env ctx run agent idem body decision gate s =
    let (r, t) =
      enqueue env ctx run agent idem body decision gate (effective_effect decision.effect gate) s in
    (ok r, t)

abbrev pub is_deny : Effect → Bool
is_deny Effect.deny = true
is_deny e = false

abbrev pub after_policy :
    Bool
    → Env
    → HostContext
    → AgentRun
    → Agent
    → String
    → CommandSubmit
    → PolicyDecision
    → Service SubmitResult
after_policy true env ctx run agent idem body decision s = (err Error.permission_denied, s)
after_policy false env ctx run agent idem body decision s =
    through_gate env ctx run agent idem body decision
      (budget_gate s (tenant ctx) (some agent.id) run.project_id env.now).behavior s

-- A submission whose key of idempotence has no command yet.
unfoldable pub submit_new :
    Env → HostContext → AgentRun → Agent → String → CommandSubmit → Service SubmitResult
unfolding evaluate_policy through_gate
submit_new env ctx run agent idem body s =
    let (decision, t) =
      evaluate_policy env ctx agent body.command_type run.project_id
        (some (field "run_id" (str (uuid_text run.id)) (field "idempotency_key" (str idem) end)))
        s in
    after_policy (is_deny decision.effect) env ctx run agent idem body decision t

-- The command of a key of idempotence.
abbrev pub by_key : Option Uuid → String → List AgentCommand → Option AgentCommand
by_key inst idem = find_first (λ c. opt_eq c.installation_id inst && str_eq c.idempotency_key idem)

abbrev pub replay_or : Option AgentCommand → Service SubmitResult → Service SubmitResult
replay_or none new s = new s
replay_or (some existing) new s = (ok (existing, false), s)

-- A key that the body lacks is generated, from one more identifier.
unfoldable pub submit_command : Env → HostContext → RawId → CommandSubmit → Service SubmitResult
unfolding get_run submit_new
submit_command env ctx run_id body s = with_ok (get_run ctx run_id s) s λ run.
    with_ok (or_not_found (find_first (λ a. a.id == run.agent_id) s.agents)) s λ agent.
      let idem = or_else (truthy body.idempotency_key) (uuid_text s.next_id) in
      replay_or (by_key (tenant ctx) idem s.commands)
        (λ t. submit_new env ctx run agent idem body (record t { next_id = t.next_id + 1 })) s
