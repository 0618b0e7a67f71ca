-- ===== src/Examples/Rules.antt =====
-- Examples of the policies and of their changes.
use mission_control_platform.Prelude.{
  ◌≡◌, ◌≢◌, refl, sym, ◌∙◌, inl, inr, ◌↔◌, false, Option, none, some, [], ◌∷◌, Member,
}
use mission_control_platform.Json.{end}
use mission_control_platform.Prelude.Int.{pos}
use mission_control_platform.Errors.{Error, ok, err}
use mission_control_platform.Rows.{Uuid, Effect, ScopeType, RowStatus, Agent, AgentPolicy}
use mission_control_platform.Store.{Store, RawId, tenant}
use mission_control_platform.Policies.{decide, matches}
use mission_control_platform.Policies.Evaluation.{
  applies, Decides, decide-Decides, decide_unordered,
}
use mission_control_platform.Policies.Crud.{
  PolicyCreate, PolicyUpdate, validate_effect, validate_scope, create_policy, get_by_id,
  get_policy_in_scope, apply_update, check_update, update_policy, disabled, disable_policy,
}
use mission_control_platform.Policies.Crud.Laws.{EffectsKnown, crud-EffectsKnown}
use mission_control_platform.Policies.Crud.Locks.{second_update_refused, disabled_never_decides}
use mission_control_platform.Policies.Crud.EmptyScope.{empty_scope, empty_scope_disarms}
use mission_control_platform.Examples.{env, ctx, colleague, agent, policy, start}

abbrev denial : AgentPolicy
denial = record policy { id = 21; effect = Effect.deny }

abbrev change : PolicyUpdate
change = record {
  version = 1;
  scope_type = none;
  scope_id = none;
  action_type = none;
  effect = some Effect.deny;
  risk_level = none;
  conditions = none;
  priority = none;
  status = none;
  description = none;
}

abbrev creation : PolicyCreate
creation = record {
  scope_type = ScopeType.installation;
  scope_id = none;
  action_type = "pause";
  effect = Effect.allow;
  risk_level = none;
  conditions = end;
  priority = pos 3;
  description = none;
}

decide-Decides_example :
    Decides Effect.allow
      (applies (some 1) agent "pause" none)
      (policy ∷ denial ∷ [])
      (decide Effect.allow (some 1) agent "pause" none (policy ∷ denial ∷ []))
decide-Decides_example =
    decide-Decides Effect.allow (some 1) agent "pause" none (policy ∷ denial ∷ [])

swap : (q : AgentPolicy) → Member q (policy ∷ denial ∷ []) ↔ Member q (denial ∷ policy ∷ [])
swap q = (
  (λ m. elim m [ inl e ↦ inr (inl e) | inr n ↦ elim n [ inl e ↦ inl e | inr k ↦ absurd k ] ]),
  λ m. elim m [ inl e ↦ inr (inl e) | inr n ↦ elim n [ inl e ↦ inl e | inr k ↦ absurd k ] ],
)

apart : (p q : AgentPolicy) → policy ≡ p → denial ≡ q → p.id ≡ q.id → p ≡ q
apart p q e f h = cc

two_Keyed :
    (p q : AgentPolicy)
    → Member p (policy ∷ denial ∷ [])
    → Member q (policy ∷ denial ∷ [])
    → p.id ≡ q.id
    → p ≡ q
two_Keyed p q m n h = elim m [
  | inl e ↦ elim n [
    | inl f ↦ sym e ∙ f
    | inr k ↦ elim k [ inl f ↦ apart p q e f h | inr z ↦ absurd z ]
  ]
  | inr j ↦ elim j [
    | inl e ↦ elim n [
      | inl f ↦ sym (apart q p f e (sym h))
      | inr k ↦ elim k [ inl f ↦ sym e ∙ f | inr z ↦ absurd z ]
    ]
    | inr z ↦ absurd z
  ]
]

decide_unordered_example :
    decide Effect.allow (some 1) agent "pause" none (policy ∷ denial ∷ [])
    ≡ decide Effect.allow (some 1) agent "pause" none (denial ∷ policy ∷ [])
decide_unordered_example =
    decide_unordered Effect.allow (some 1) agent "pause" none (policy ∷ denial ∷ [])
      (denial ∷ policy ∷ []) swap two_Keyed

abbrev changed : Store
changed = (update_policy ctx (RawId.uuid 20) change start).1

second_update_refused_example :
    update_policy colleague (RawId.uuid 20) change changed ≡ (err Error.state_conflict, changed)
unfolding update_policy get_policy_in_scope check_update validate_effect validate_scope apply_update
second_update_refused_example =
    second_update_refused ctx colleague (RawId.uuid 20) change change start changed _ refl refl refl

disabled_never_decides_example :
    (p : AgentPolicy) × (get_by_id (some 20) ctx start ≡ some p)
    × ((w : AgentPolicy)
        → (decide Effect.allow
            (tenant ctx)
            agent
            "pause"
            none
            (disable_policy ctx (RawId.uuid 20) start).1.policies).policy
          ≡ some w
        → w.id ≢ p.id)
unfolding disable_policy get_policy_in_scope disabled
disabled_never_decides_example =
    disabled_never_decides ctx (RawId.uuid 20) start (disable_policy ctx (RawId.uuid 20) start).1
      Effect.allow agent "pause" none refl

crud-EffectsKnown_example :
    EffectsKnown (create_policy env ctx creation start).1
    × EffectsKnown (update_policy ctx (RawId.uuid 20) change start).1
    × EffectsKnown (disable_policy ctx (RawId.uuid 20) start).1
crud-EffectsKnown_example = crud-EffectsKnown env ctx (RawId.uuid 20) creation change start (tt, tt)

empty_scope_disarms_example :
    (q : AgentPolicy) × (t : Store) × (update_policy ctx (RawId.uuid 20) (empty_scope 1) start
      ≡ (ok q, t))
    × (q.status ≡ RowStatus.active)
    × ((a : Agent) (command_type : _) (project : Option Uuid)
        → matches q a command_type project ≡ false)
unfolding validate_scope
empty_scope_disarms_example = empty_scope_disarms ctx (RawId.uuid 20) start policy refl refl
