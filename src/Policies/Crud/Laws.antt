-- ===== src/Policies/Crud/Laws.antt =====
-- What the changes of policies in apps/api/agent_control/control/policies.py keep.
use mission_control_platform.Prelude.{
  ◌≡◌, refl, Bool, true, false, Option, none, some, [], ◌∷◌, ◌==◌, All, All-append,
  All-update_where, if◌then◌else◌, or_else,
}
use mission_control_platform.Errors.{Result, Error, ok, err, ◌>>=◌}
use mission_control_platform.Access.{HostContext}
use mission_control_platform.Rows.{Effect, AgentPolicy}
use mission_control_platform.Store.{Env, Store, RawId}
use mission_control_platform.Store.Keeps.{with_ok-keeps}
use mission_control_platform.Policies.Crud.{
  PolicyCreate, PolicyUpdate, validate_effect, validate_scope, create_policy, update_policy,
  disable_policy, get_policy_in_scope, check_update, apply_update, disabled,
}

-- The effects that the engine knows.
abbrev pub IsKnown : Effect → Type 0
IsKnown (Effect.other t) = ⊥
IsKnown e = Unit

abbrev pub EffectsKnown : Store → Type 0
EffectsKnown s = All (λ (p : AgentPolicy). IsKnown p.effect) s.policies

-- An effect that passes the validation is known, whatever is validated after it.
IsKnown-of_checks :
    (e : Effect) (m : Result (Unit {0})) (a : Unit {0})
    → (validate_effect (some e) >>= λ _. m) ≡ ok a
    → IsKnown e
unfolding validate_effect
IsKnown-of_checks (Effect.other t) m a h = cc
IsKnown-of_checks Effect.allow m a h = tt
IsKnown-of_checks e m a h = tt

IsKnown-of_update :
    (o : Option Effect) (m : Result (Unit {0})) (a : Unit {0}) (old : Effect)
    → (validate_effect o >>= λ _. m) ≡ ok a
    → IsKnown old
    → IsKnown (or_else o old)
IsKnown-of_update none m a old h k = k
IsKnown-of_update (some e) m a old h k = IsKnown-of_checks e m a h

if_ok :
    {A : Type 0} (b : Bool) (m : Result A) (e : Error) (a : A)
    → (if b then m else err e) ≡ ok a
    → (b ≡ true) × (m ≡ ok a)
if_ok true m e a h = (refl, h)
if_ok false m e a h = cc

create-EffectsKnown :
    (env : Env) (ctx : HostContext) (body : PolicyCreate) (s : Store)
    → EffectsKnown s
    → EffectsKnown (create_policy env ctx body s).1
unfolding create_policy
create-EffectsKnown env ctx body s h =
    with_ok-keeps EffectsKnown
      (validate_effect (some body.effect) >>= λ _. validate_scope body.scope_type body.scope_id) s _
      h
      λ a e.
        All-append (λ (p : AgentPolicy). IsKnown p.effect) s.policies (_ ∷ []) h
          (IsKnown-of_checks body.effect (validate_scope body.scope_type body.scope_id) a e, tt)

update-EffectsKnown :
    (ctx : HostContext) (id : RawId) (body : PolicyUpdate) (s : Store)
    → EffectsKnown s
    → EffectsKnown (update_policy ctx id body s).1
unfolding update_policy
update-EffectsKnown ctx id body s h =
    with_ok-keeps EffectsKnown (get_policy_in_scope ctx id s) s _ h λ policy e.
      with_ok-keeps EffectsKnown (check_update body policy) s _ h λ a c.
        All-update_where (λ (p : AgentPolicy). IsKnown p.effect) (λ p. p.id == policy.id)
          (apply_update body) s.policies
          (λ q t k.
            IsKnown-of_update body.effect _ a q.effect (unfold check_update in (if_ok _ _ _ a c).1)
              k)
          h

disable-EffectsKnown :
    (ctx : HostContext) (id : RawId) (s : Store)
    → EffectsKnown s
    → EffectsKnown (disable_policy ctx id s).1
unfolding disable_policy
disable-EffectsKnown ctx id s h =
    with_ok-keeps EffectsKnown (get_policy_in_scope ctx id s) s _ h λ policy e.
      All-update_where (λ (p : AgentPolicy). IsKnown p.effect) (λ p. p.id == policy.id) disabled
        s.policies (λ q t k. k) h

-- No creation, change or disabling of a policy, whether it succeeds or is refused, puts an effect
-- into the table that the engine does not know.
pub crud-EffectsKnown :
    (env : Env) (ctx : HostContext) (id : RawId) (new : PolicyCreate) (body : PolicyUpdate)
    (s : Store)
    → EffectsKnown s
    → EffectsKnown (create_policy env ctx new s).1
      × EffectsKnown (update_policy ctx id body s).1
      × EffectsKnown (disable_policy ctx id s).1
crud-EffectsKnown env ctx id new body s h = (
  create-EffectsKnown env ctx new s h,
  update-EffectsKnown ctx id body s h,
  disable-EffectsKnown ctx id s h,
)
