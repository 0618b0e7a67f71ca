-- ===== src/Commands/Submit/Outcome.antt =====
-- What a submission of apps/api/agent_control/control/commands.py comes to, by the effect of the
-- policy and the gate of the budgets.
use mission_control_platform.Prelude.{
  ◌≡◌, refl, true, false, String, Option, none, some, [], ◌∷◌, ◌++◌,
}
use mission_control_platform.Errors.{Result, Error, ok, err}
use mission_control_platform.Access.{HostContext}
use mission_control_platform.StateMachines.{CommandState, ApprovalState}
use mission_control_platform.Json.{Fields, str, end, field}
use mission_control_platform.Rows.{Uuid, Effect, Agent, AgentRun, AgentCommand, ApprovalRequest}
use mission_control_platform.Store.{Env, Store, tenant, uuid_text, emit}
use mission_control_platform.Audit.{audit_from_context}
use mission_control_platform.Policies.{PolicyDecision, evaluate_policy, audit_decision}
use mission_control_platform.Budgets.{GateBehavior, budget_gate}
use mission_control_platform.Commands.Submit.{
  CommandSubmit, SubmitResult, new_command, new_approval, hold, release, audit_submission,
  effective_effect, enqueue, through_gate, after_policy, is_deny, submit_new,
}

-- What the governance says of a submission, read off the contract: a denial comes first, then a
-- budget that blocks; then an approval is needed if the policy or a budget asks for one.
pub data Fate : Type 0 where
  refused_by_policy refused_by_budget held released : Fate

unfoldable pub fate : Effect → GateBehavior → Fate
fate Effect.deny g = Fate.refused_by_policy
fate Effect.allow GateBehavior.allow = Fate.released
fate Effect.allow GateBehavior.require_approval = Fate.held
fate Effect.allow GateBehavior.block = Fate.refused_by_budget
fate Effect.require_approval GateBehavior.allow = Fate.held
fate Effect.require_approval GateBehavior.require_approval = Fate.held
fate Effect.require_approval GateBehavior.block = Fate.refused_by_budget
fate (Effect.other t) GateBehavior.allow = Fate.released
fate (Effect.other t) GateBehavior.require_approval = Fate.released
fate (Effect.other t) GateBehavior.block = Fate.refused_by_budget

-- Nothing is queued and the error is returned.
abbrev pub Refused : Error → Store → Result SubmitResult × Store → Type 0
Refused e s (r, t) = (r ≡ err e) × (t.commands ≡ s.commands) × (t.approvals ≡ s.approvals)

-- One command is queued, without a release, and one pending request to which it is linked.
abbrev pub Held : Store → Result SubmitResult × Store → Type 0
Held s (r, t) =
    (c : AgentCommand) × (a : ApprovalRequest) × (r ≡ ok (c, true))
    × (t.commands ≡ s.commands ++ c ∷ [])
    × (t.approvals ≡ s.approvals ++ a ∷ [])
    × (c.status ≡ CommandState.queued)
    × (c.released_at ≡ none)
    × (c.approval_request_id ≡ some a.id)
    × (a.status ≡ ApprovalState.pending)

-- One command is queued and released, and no approval is asked for.
abbrev pub Released : Env → Store → Result SubmitResult × Store → Type 0
Released env s (r, t) =
    (c : AgentCommand) × (r ≡ ok (c, true))
    × (t.commands ≡ s.commands ++ c ∷ [])
    × (t.approvals ≡ s.approvals)
    × (c.status ≡ CommandState.queued)
    × (c.released_at ≡ some env.now)
    × (c.approval_request_id ≡ none)

abbrev pub Outcome : Fate → Env → Store → Result SubmitResult × Store → Type 0
Outcome Fate.refused_by_policy env s o = Refused Error.permission_denied s o
Outcome Fate.refused_by_budget env s o = Refused Error.budget_exceeded s o
Outcome Fate.held env s o = Held s o
Outcome Fate.released env s o = Released env s o

module _ (env : Env) (ctx : HostContext) (run : AgentRun) (agent : Agent) (idem : String)
    (body : CommandSubmit) where
  gate-Outcome :
      (d : PolicyDecision) (e : Effect) (g : GateBehavior) (s : Store)
      → d.effect ≡ e
      → is_deny e ≡ false
      → Outcome (fate e g) env s (through_gate env ctx run agent idem body d g s)
  unfolding through_gate effective_effect enqueue hold release new_command new_approval
      audit_submission audit_from_context emit fate
  gate-Outcome d Effect.deny g s q n = cc
  gate-Outcome d Effect.allow GateBehavior.allow s q n =
      rw q (_, refl, refl, refl, refl, refl, refl)
  gate-Outcome d Effect.allow GateBehavior.require_approval s q n =
      rw q (_, _, refl, refl, refl, refl, refl, refl, refl)
  gate-Outcome d Effect.allow GateBehavior.block s q n = (refl, refl, refl)
  gate-Outcome d Effect.require_approval GateBehavior.allow s q n =
      rw q (_, _, refl, refl, refl, refl, refl, refl, refl)
  gate-Outcome d Effect.require_approval GateBehavior.require_approval s q n =
      rw q (_, _, refl, refl, refl, refl, refl, refl, refl)
  gate-Outcome d Effect.require_approval GateBehavior.block s q n = (refl, refl, refl)
  gate-Outcome d (Effect.other t) GateBehavior.allow s q n =
      rw q (_, refl, refl, refl, refl, refl, refl)
  gate-Outcome d (Effect.other t) GateBehavior.require_approval s q n =
      rw q (_, refl, refl, refl, refl, refl, refl)
  gate-Outcome d (Effect.other t) GateBehavior.block s q n = (refl, refl, refl)

  policy-Outcome :
      (d : PolicyDecision) (e : Effect) (s : Store)
      → d.effect ≡ e
      → Outcome
          (fate e (budget_gate s (tenant ctx) (some agent.id) run.project_id env.now).behavior)
          env
          s
          (after_policy (is_deny e) env ctx run agent idem body d s)
  unfolding fate
  policy-Outcome d Effect.deny s q = (refl, refl, refl)
  policy-Outcome d Effect.allow s q = gate-Outcome d Effect.allow _ s q refl
  policy-Outcome d Effect.require_approval s q = gate-Outcome d Effect.require_approval _ s q refl
  policy-Outcome d (Effect.other t) s q = gate-Outcome d (Effect.other t) _ s q refl

asking :
    (env : Env) (ctx : HostContext) (agent : Agent) (command_type : String) (project : Option Uuid)
    (more : Option Fields) (s : Store)
    → ((evaluate_policy env ctx agent command_type project more s).1.commands ≡ s.commands)
      × ((evaluate_policy env ctx agent command_type project more s).1.approvals ≡ s.approvals)
unfolding evaluate_policy audit_decision audit_from_context
asking env ctx agent command_type project more s = (refl, refl)

-- The decision on a submission, and the store in which it is audited.
abbrev pub asked :
    Env → HostContext → AgentRun → Agent → String → CommandSubmit → Store → PolicyDecision × Store
asked env ctx run agent idem body s =
    evaluate_policy env ctx agent body.command_type run.project_id
      (some (field "run_id" (str (uuid_text run.id)) (field "idempotency_key" (str idem) end))) s

-- A submission whose key is new first audits the decision of the policies, which queues nothing. It
-- comes then to what this decision and the gate of the budgets say: refused with
-- `permission_denied` or with `budget_exceeded` and nothing queued; or one command queued and held,
-- linked to a new pending request; or one command queued and released.
pub submit_new-Outcome :
    (env : Env) (ctx : HostContext) (run : AgentRun) (agent : Agent) (idem : String)
    (body : CommandSubmit) (s : Store)
    → ((asked env ctx run agent idem body s).1.commands ≡ s.commands)
      × ((asked env ctx run agent idem body s).1.approvals ≡ s.approvals)
      × Outcome
          (fate
            (asked env ctx run agent idem body s).0.effect
            (budget_gate
              (asked env ctx run agent idem body s).1
              (tenant ctx)
              (some agent.id)
              run.project_id
              env.now).behavior)
          env
          (asked env ctx run agent idem body s).1
          (submit_new env ctx run agent idem body s)
unfolding submit_new
submit_new-Outcome env ctx run agent idem body s = (
  asked_keeps.0,
  asked_keeps.1,
  policy-Outcome env ctx run agent idem body (asked env ctx run agent idem body s).0 _
      (asked env ctx run agent idem body s).1 refl,
)
  where
    asked_keeps :
        ((asked env ctx run agent idem body s).1.commands ≡ s.commands)
        × ((asked env ctx run agent idem body s).1.approvals ≡ s.approvals)
    asked_keeps = asking env ctx agent body.command_type run.project_id _ s
