-- ===== src/Runs/Moves.antt =====
-- What `transition_run` of apps/api/agent_control/runs/service.py may do to a run.
use mission_control_platform.Prelude.{
  ℕ, String, str_eq, arith, ◌≤◌, ◌≡◌, ◌⊎◌, refl, sym, subst, inl, inr, true, false, Option, none,
  some, Bool-cases,
}
use mission_control_platform.Store.Keeps.{Ensures}
use mission_control_platform.StateMachines.{RunState, run, same, can_transition, is_terminal}
use mission_control_platform.Rows.{Time, AgentRun}
use mission_control_platform.Json.{Json, Fields, is_truthy, get_value}
use mission_control_platform.Store.{Env, truthy}
use mission_control_platform.Runs.Projection.{fill, apply_terminal_result}
use mission_control_platform.Runs.{milestones, transition_run}

-- The two ways in which a transition succeeds.
abbrev pub Advanced : AgentRun → RunState → Time → AgentRun → Type 0
Advanced r new at q =
    ((same run r.state new ≡ true) × (q ≡ record r { heartbeat_at = some at }))
    ⊎ ((is_terminal run r.state ≡ false)
        × (can_transition run r.state new ≡ true)
        × (q ≡ milestones new at r))

pub transition_run-Advanced :
    (r : AgentRun) (new : RunState) (at : Time)
    → Ensures (Advanced r new at) (transition_run r new at)
unfolding transition_run
transition_run-Advanced r new at = elim (Bool-cases (same run r.state new)) [
  | inl e ↦ rw e (inl (e, refl))
  | inr e ↦ elim (Bool-cases (is_terminal run r.state)) [
    | inl f ↦ rw (e, f) tt
    | inr f ↦ elim (Bool-cases (can_transition run r.state new)) [
      | inl g ↦ rw (e, f, g) (inr (f, g, refl))
      | inr g ↦ rw (e, f, g) tt
    ]
  ]
]

-- A text that was given is kept.
abbrev pub Kept : Option String → Option String → Type 0
Kept old new = (t : String) → truthy old ≡ some t → truthy new ≡ some t

fill-Kept :
    (env : Env) (limit : ℕ) (value : Json) (o : Option String) → Kept o (fill env limit value o)
unfolding fill
fill-Kept env limit value none t h = cc
fill-Kept env limit value (some u) t h = elim (Bool-cases (str_eq u "")) [
  | inl e ↦ cc (rw e at h)
  | inr e ↦ elim (Bool-cases (is_truthy value)) [
    | inl f ↦ rw (e, f, e) (rw e at h)
    | inr f ↦ rw (f, e) (rw e at h)
  ]
]

-- What may have happened to a run: it stays in its state, or one transition of the machine was made
-- from a state that is not terminal. A terminal run keeps when it finished, and what was reported of
-- the result is never replaced.
abbrev pub Moved : AgentRun → AgentRun → Type 0
Moved x y =
    (y.id ≡ x.id)
    × ((y.state ≡ x.state)
        ⊎ ((is_terminal run x.state ≡ false) × (can_transition run x.state y.state ≡ true)))
    × (is_terminal run x.state ≡ true → y.finished_at ≡ x.finished_at)
    × (x.version ≤ y.version)
    × Kept x.result_summary y.result_summary
    × Kept x.error_code y.error_code
    × Kept x.error_message y.error_message

pub moved : (x : AgentRun) → Moved x x
moved x = (refl, inl refl, (λ h. refl), omega arith, (λ t h. h), (λ t h. h), λ t h. h)

pub Advanced-Moved :
    (r : AgentRun) (new : RunState) (at : Time) (q : AgentRun) → Advanced r new at q → Moved r q
unfolding milestones
Advanced-Moved r new at q (inl (e, f)) = subst (Moved r) (sym f) (moved r)
Advanced-Moved r new at q (inr (e, f, g)) =
    subst (Moved r) (sym g)
      (refl, inr (e, f), (λ h. cc), omega arith, (λ t h. h), (λ t h. h), λ t h. h)

pub apply-Moved :
    (env : Env) (payload : Fields) (r q : AgentRun)
    → Moved r q
    → Moved r (apply_terminal_result env payload q)
unfolding apply_terminal_result
apply-Moved env payload r q (i, m, f, v, a, b, c) = elim (Bool-cases (is_terminal run q.state)) [
  | inr e ↦ rw e (i, m, f, v, a, b, c)
  | inl e ↦ rw e (
    i,
    m,
    f,
    v,
    (λ t h. fill-Kept env 4000 (get_value "result_summary" payload) q.result_summary t (a t h)),
    (λ t h. fill-Kept env 80 (get_value "error_code" payload) q.error_code t (b t h)),
    λ t h. fill-Kept env 4000 (get_value "error_message" payload) q.error_message t (c t h),
  )
]
