-- ===== src/Policies/Crud/EmptyScope.antt =====
-- The empty scope in a change of a policy, in apps/api/agent_control/control/policies.py.
use mission_control_platform.Prelude.{ℕ, String, ◌≡◌, refl, false, Option, none, some, ==_refl}
use mission_control_platform.Errors.{ok}
use mission_control_platform.Access.{HostContext}
use mission_control_platform.Rows.{Uuid, ScopeType, AgentPolicy, Agent}
use mission_control_platform.Store.{Store, RawId, as_uuid}
use mission_control_platform.Policies.{matches}
use mission_control_platform.Policies.Crud.{
  PolicyUpdate, update_policy, get_by_id, check_update, apply_update, put_policy, validate_scope,
}

-- A change that gives the empty text as the scope and nothing else.
abbrev pub empty_scope : ℕ → PolicyUpdate
empty_scope version = record {
  version = version;
  scope_type = some (ScopeType.other "");
  scope_id = none;
  action_type = none;
  effect = none;
  risk_level = none;
  conditions = none;
  priority = none;
  status = none;
  description = none;
}

checked :
    (p : AgentPolicy)
    → validate_scope p.scope_type p.scope_id ≡ ok tt
    → check_update (empty_scope p.version) p ≡ ok tt
unfolding check_update
checked p valid = rw (==_refl p.version) valid

-- A policy of a valid scope accepts a change that gives the empty text as its scope: the change
-- succeeds, leaves the policy as active as it was, and from then on the policy covers no action.
pub empty_scope_disarms :
    (ctx : HostContext) (id : RawId) (s : Store) (p : AgentPolicy)
    → get_by_id (as_uuid id) ctx s ≡ some p
    → validate_scope p.scope_type p.scope_id ≡ ok tt
    → (q : AgentPolicy) × (t : Store) × (update_policy ctx id (empty_scope p.version) s ≡ (ok q, t))
      × (q.status ≡ p.status)
      × ((agent : Agent) (command_type : String) (project : Option Uuid)
          → matches q agent command_type project ≡ false)
unfolding update_policy matches
empty_scope_disarms ctx id s p found valid = (
  apply_update (empty_scope p.version) p,
  put_policy p.id (apply_update (empty_scope p.version)) s,
  rw (found, checked p valid),
  refl,
  λ agent command_type project. refl,
)
