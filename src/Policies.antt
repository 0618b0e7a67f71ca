-- ===== src/Policies.antt =====
-- The policy engine, apps/api/agent_control/control/policies.py: which policy decides an action.
-- The changes of policies are in `Policies/Crud.antt`.
pub mod Order
pub mod Evaluation
pub mod Crud
use mission_control_platform.Prelude.{
  ℕ, zero, suc, ◌+◌, String, Bool, true, false, ◌&&◌, ◌||◌, Option, none, some, List, [], ◌∷◌, ◌++◌,
  ◌==◌, ltb, opt_eq, is_some, select, str_eq, if◌then◌else◌,
}
use mission_control_platform.Prelude.Int.{ℤ, ltb_ℤ}
use mission_control_platform.Json.{Json, Fields, null, num, str, end, field}
use mission_control_platform.Access.{HostContext}
use mission_control_platform.Rows.{
  Uuid, Effect, ScopeType, RowStatus, is_active, AgentPolicy, Agent,
}
use mission_control_platform.Store.{Env, Store, tenant, uuid_text, id_or_null}
use mission_control_platform.Audit.{audit_from_context}

pub record PolicyDecision : Type 0 where
  pub effect : Effect
  pub policy : Option AgentPolicy
  pub risk_level : Option String

abbrev pub policy_id : PolicyDecision → Option Uuid
policy_id d = elim (d.policy) [ none ↦ none | some p ↦ some p.id ]

-- `_matches`: the scope covers the action, and the action is the policy's.
unfoldable pub scope_ok : ScopeType → Option Uuid → Agent → Option Uuid → Bool
scope_ok ScopeType.installation scope_id agent project = true
scope_ok ScopeType.agent scope_id agent project = opt_eq scope_id (some agent.id)
scope_ok ScopeType.project scope_id agent project = is_some project && opt_eq scope_id project
scope_ok (ScopeType.other t) scope_id agent project = false

unfoldable pub matches : AgentPolicy → Agent → String → Option Uuid → Bool
unfolding scope_ok
matches policy agent command_type project =
    scope_ok policy.scope_type policy.scope_id agent project
    && (str_eq policy.action_type "*" || str_eq policy.action_type command_type)

-- `_SCOPE_SPECIFICITY.get(scope_type, 0)`.
unfoldable pub scope_specificity : ScopeType → ℕ
scope_specificity ScopeType.agent = 3
scope_specificity ScopeType.project = 2
scope_specificity ScopeType.installation = 1
scope_specificity (ScopeType.other t) = 0

unfoldable pub action_specificity : AgentPolicy → ℕ
action_specificity policy = if str_eq policy.action_type "*" then 0 else 1

-- The parts of `_resolution_key` that are numbers to be compared.
pub record ResolutionKey : Type 0 where
  pub priority : ℤ
  pub specificity : ℕ
  pub action : ℕ
  pub created_at : ℕ
  pub id : Uuid

unfoldable pub resolution_key : AgentPolicy → ResolutionKey
unfolding scope_specificity action_specificity
resolution_key policy = record {
  priority = policy.priority;
  specificity = scope_specificity policy.scope_type;
  action = action_specificity policy;
  created_at = policy.created_at;
  id = policy.id;
}

-- Whether a key is less than another. The first three parts are negated in the source, so that a
-- greater one comes first. Two identifiers compare as their texts do, which all have one length.
unfoldable pub key_before : ResolutionKey → ResolutionKey → Bool
key_before a b =
    if ltb_ℤ b.priority a.priority
    then true
    else if ltb_ℤ a.priority b.priority
    then false
    else if ltb b.specificity a.specificity
    then true
    else if ltb a.specificity b.specificity
    then false
    else if ltb b.action a.action
    then true
    else if ltb a.action b.action
    then false
    else if ltb a.created_at b.created_at
    then true
    else if ltb b.created_at a.created_at
    then false
    else ltb a.id b.id

-- `applicable.sort(key=_resolution_key)`, which keeps the order of rows with one key.
unfoldable pub insert_by_key : AgentPolicy → List AgentPolicy → List AgentPolicy
unfolding key_before resolution_key
insert_by_key p [] = p ∷ []
insert_by_key p (q ∷ qs) =
    if key_before (resolution_key q) (resolution_key p) then q ∷ insert_by_key p qs else p ∷ q ∷ qs

unfoldable pub sort_by_key : List AgentPolicy → List AgentPolicy
unfolding insert_by_key
sort_by_key [] = []
sort_by_key (p ∷ ps) = insert_by_key p (sort_by_key ps)

-- The policies of the tenant that are active.
unfoldable pub active_policies : Option Uuid → List AgentPolicy → List AgentPolicy
active_policies t = select (λ p. opt_eq p.installation_id t && is_active p.status)

abbrev pub decision_of : Effect → List AgentPolicy → PolicyDecision
decision_of default [] = record { effect = default; policy = none; risk_level = none }
decision_of default (winner ∷ rest) = record {
  effect = winner.effect;
  policy = some winner;
  risk_level = winner.risk_level;
}

-- The decision of `evaluate_policy`, before it is written to the logs.
unfoldable pub decide :
    Effect → Option Uuid → Agent → String → Option Uuid → List AgentPolicy → PolicyDecision
unfolding sort_by_key active_policies matches
decide default t agent command_type project policies =
    decision_of default (
      sort_by_key (select (λ p. matches p agent command_type project) (active_policies t policies)))

abbrev pub effect_text : Effect → String
effect_text Effect.allow = "allow"
effect_text Effect.deny = "deny"
effect_text Effect.require_approval = "require_approval"
effect_text (Effect.other t) = t

abbrev pub scope_text : ScopeType → String
scope_text ScopeType.installation = "installation"
scope_text ScopeType.project = "project"
scope_text ScopeType.agent = "agent"
scope_text (ScopeType.other t) = t

-- `payload.update(more)`.
unfoldable pub set_field : String → Json → Fields → Fields
set_field k v end = field k v end
set_field k v (field j w fs) =
    let rest = set_field k v fs in if str_eq j k then field k v fs else field j w rest

unfoldable pub update_fields : Fields → Fields → Fields
unfolding set_field
update_fields payload end = payload
update_fields payload (field k v more) = update_fields (set_field k v payload) more

abbrev winner_fields : Option AgentPolicy → Fields → Fields
winner_fields none fs = field "scope_type" (str "default") (field "priority" null fs)
winner_fields (some p) fs =
    field "scope_type" (str (scope_text p.scope_type)) (field "priority" (num p.priority) fs)

abbrev opt_fields : Option Fields → Fields
opt_fields none = end
opt_fields (some fs) = fs

-- `_audit_decision`: a line of the activity log and a line of the audit log.
unfoldable pub audit_decision :
    Env → HostContext → Agent → String → PolicyDecision → Option Fields → Store → Store
unfolding update_fields
audit_decision env ctx agent command_type d audit_context s =
    let payload = field "agent_key" (str agent.agent_key) (
      field "command_type" (str command_type) (
        field "effect" (str (effect_text d.effect)) (
          field "policy_id" (id_or_null (policy_id d)) (
            winner_fields d.policy (
              field "request_id" (str ctx.request_id)
                (field "user" (str ctx.user.external_user_id) end)))))) in
    audit_from_context env ctx
      (record {
        action = "policy.evaluated";
        target_type = some "agent";
        target_id = some (uuid_text agent.id);
        before = none;
        after = some (
            field "command_type" (str command_type) (
              field "effect" (str (effect_text d.effect))
                (field "policy_id" (id_or_null (policy_id d)) end)));
        ip = none;
        metadata = audit_context;
      })
      (record s {
        activity =
            s.activity
            ++ record {
              agent_id = some agent.id;
              kind = "policy.evaluated";
              payload = update_fields payload (opt_fields audit_context);
            }
              ∷ [];
      })

unfoldable pub evaluate_policy :
    Env
    → HostContext
    → Agent
    → String
    → Option Uuid
    → Option Fields
    → Store
    → PolicyDecision × Store
unfolding decide audit_decision
evaluate_policy env ctx agent command_type project audit_context s =
    let d =
      decide env.settings.mc_policy_default_effect (tenant ctx) agent command_type project
        s.policies in
    (d, audit_decision env ctx agent command_type d audit_context s)
