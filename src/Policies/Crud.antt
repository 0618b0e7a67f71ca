-- ===== src/Policies/Crud.antt =====
-- Creation, change and disabling of policies in apps/api/agent_control/control/policies.py.
pub mod Laws
pub mod Locks
pub mod EmptyScope
use mission_control_platform.Prelude.{
  ℕ, suc, ◌+◌, String, Bool, true, false, not, ◌&&◌, ◌||◌, Option, none, some, List, [], ◌∷◌, ◌++◌,
  ◌==◌, opt_eq, or_else, is_some, find_first, update_where, str_eq, if◌then◌else◌,
}
use mission_control_platform.Prelude.Int.{ℤ}
use mission_control_platform.Json.{Fields, end}
use mission_control_platform.Errors.{Result, Error, ok, err, ◌>>=◌, ◌>>◌}
use mission_control_platform.Access.{HostContext}
use mission_control_platform.Rows.{Uuid, Effect, ScopeType, RowStatus, AgentPolicy}
use mission_control_platform.Store.{
  Env, Store, Service, RawId, as_uuid, tenant, with_ok, or_not_found, truthy,
}

pub record PolicyCreate : Type 0 where
  pub scope_type : ScopeType
  pub scope_id : Option Uuid
  pub action_type : String
  pub effect : Effect
  pub risk_level : Option String
  pub conditions : Fields
  pub priority : ℤ
  pub description : Option String

pub record PolicyUpdate : Type 0 where
  pub version : ℕ
  pub scope_type : Option ScopeType
  pub scope_id : Option Uuid
  pub action_type : Option String
  pub effect : Option Effect
  pub risk_level : Option String
  pub conditions : Option Fields
  pub priority : Option ℤ
  pub status : Option RowStatus
  pub description : Option String

-- `_validate_effect`.
unfoldable pub validate_effect : Option Effect → Result (Unit {0})
validate_effect none = ok tt
validate_effect (some (Effect.other t)) = err Error.validation_failed
validate_effect (some e) = ok tt

-- `_validate_scope`, of a scope that is given.
unfoldable pub validate_scope : ScopeType → Option Uuid → Result (Unit {0})
validate_scope (ScopeType.other t) scope_id = err Error.validation_failed
validate_scope ScopeType.installation scope_id = ok tt
validate_scope ScopeType.project none = err Error.validation_failed
validate_scope ScopeType.agent none = err Error.validation_failed
validate_scope s (some i) = ok tt

unfoldable pub new_policy : Env → HostContext → PolicyCreate → Uuid → AgentPolicy
new_policy env ctx body id = record {
  id = id;
  installation_id = tenant ctx;
  scope_type = body.scope_type;
  scope_id = body.scope_id;
  action_type = if str_eq body.action_type "" then "*" else body.action_type;
  effect = body.effect;
  risk_level = body.risk_level;
  conditions = body.conditions;
  priority = body.priority;
  status = RowStatus.active;
  description = body.description;
  version = 1;
  created_by = ctx.user.local_user_id;
  created_at = env.now;
}

unfoldable pub create_policy : Env → HostContext → PolicyCreate → Service AgentPolicy
unfolding validate_effect validate_scope new_policy
create_policy env ctx body s =
    with_ok (validate_effect (some body.effect) >> validate_scope body.scope_type body.scope_id) s
      λ _.
        let policy = new_policy env ctx body s.next_id in
        (ok policy, record s { policies = s.policies ++ policy ∷ []; next_id = s.next_id + 1 })

abbrev pub get_by_id : Option Uuid → HostContext → Store → Option AgentPolicy
get_by_id none ctx s = none
get_by_id (some pid) ctx s =
    find_first (λ p. (p.id == pid) && opt_eq p.installation_id (tenant ctx)) s.policies

-- `_get_policy_in_scope`.
unfoldable pub get_policy_in_scope : HostContext → RawId → Store → Result AgentPolicy
get_policy_in_scope ctx policy_id s = or_not_found (get_by_id (as_uuid policy_id) ctx s)

-- `body.scope_type or policy.scope_type`: the empty text gives way too.
unfoldable pub scope_or : Option ScopeType → ScopeType → ScopeType
scope_or none old = old
scope_or (some (ScopeType.other t)) old = if str_eq t "" then old else ScopeType.other t
scope_or (some s) old = s

-- `new if new is not None else old`, of a nullable column.
abbrev pub or_old : {A : Type 0} → Option A → Option A → Option A
or_old none old = old
or_old (some a) old = some a

-- The assignments of `update_policy`.
unfoldable pub apply_update : PolicyUpdate → AgentPolicy → AgentPolicy
apply_update body p = record p {
  scope_type = or_else body.scope_type p.scope_type;
  scope_id = or_old body.scope_id p.scope_id;
  action_type = or_else body.action_type p.action_type;
  effect = or_else body.effect p.effect;
  risk_level = or_old body.risk_level p.risk_level;
  conditions = or_else body.conditions p.conditions;
  priority = or_else body.priority p.priority;
  status = or_else body.status p.status;
  description = or_old body.description p.description;
  version = p.version + 1;
}

-- The row with an identifier, changed in place.
abbrev pub put_policy : Uuid → (AgentPolicy → AgentPolicy) → Store → Store
put_policy id f s = record s { policies = update_where (λ p. p.id == id) f s.policies }

unfoldable pub check_update : PolicyUpdate → AgentPolicy → Result (Unit {0})
unfolding validate_effect validate_scope scope_or
check_update body policy =
    if policy.version == body.version
    then (validate_effect body.effect
        >> validate_scope (scope_or body.scope_type policy.scope_type)
            (or_old body.scope_id policy.scope_id))
    else err Error.state_conflict

unfoldable pub update_policy : HostContext → RawId → PolicyUpdate → Service AgentPolicy
unfolding get_policy_in_scope check_update apply_update
update_policy ctx policy_id body s = with_ok (get_policy_in_scope ctx policy_id s) s λ policy.
    with_ok (check_update body policy) s
      λ _. (ok (apply_update body policy), put_policy policy.id (apply_update body) s)

unfoldable pub disabled : AgentPolicy → AgentPolicy
disabled p = record p { status = RowStatus.disabled; version = p.version + 1 }

unfoldable pub disable_policy : HostContext → RawId → Service (Unit {0})
unfolding get_policy_in_scope disabled
disable_policy ctx policy_id s =
    with_ok (get_policy_in_scope ctx policy_id s) s
      λ policy. (ok tt, put_policy policy.id disabled s)
