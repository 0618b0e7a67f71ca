-- ===== src/StateMachines/Traces.antt =====
-- Sequences of allowed transitions in the machines of apps/api/integrations/state_machines.py.
use mission_control_platform.Prelude.{
  ℕ, suc, ◌+◌, ◌≤◌, ◌≡◌, ◌≢◌, refl, ap, subst, true, arith, ◌⊎◌, inl, inr,
}
use mission_control_platform.StateMachines.{
  Machine, State, RunState, CommandState, run, command, approval, alert, credential, position,
  can_transition, is_terminal,
}
use mission_control_platform.StateMachines.Terminal.{terminal_stuck}

-- The states that allowed transitions lead to.
pub data Reaches (m : Machine) (s : State m) : State m → Type 0 where
  here : Reaches m s s
  next : {t u : State m} → Reaches m s t → can_transition m t u ≡ true → Reaches m s u

abbrev pub steps : {m : Machine} {s t : State m} → Reaches m s t → ℕ
steps here = 0
steps (next r e) = suc (steps r)

-- No transition leaves a terminal state, so a trace from one stays in it.
pub terminal_final : (m : Machine) {s t : State m} → is_terminal m s ≡ true → Reaches m s t → t ≡ s
terminal_final m h here = refl
terminal_final m {s} h (next {t = t} {u = u} r e) = absurd (stuck (terminal_final m h r))
  where
    stuck : t ≡ s → ⊥
    stuck p = cc (p, terminal_stuck m s u h, e)

-- How many transitions a state of an acyclic machine has behind it at most.
abbrev depth : (m : Machine) → State m → ℕ
depth run s = 0
depth command CommandState.queued = 0
depth command CommandState.delivered = 1
depth command CommandState.acknowledged = 2
depth command s = 3
depth m s = position m s

depth_step :
    (m : Machine) (s t : State m)
    → m ≢ run
    → can_transition m s t ≡ true
    → depth m s + 1 ≤ depth m t
unfolding can_transition
depth_step run s t h e = absurd (h refl)
depth_step command s t h e = ground arith
depth_step approval s t h e = ground arith
depth_step alert s t h e = ground arith
depth_step credential s t h e = ground arith

depth_bound : (m : Machine) (s : State m) → depth m s ≤ 4
depth_bound run s = omega arith
depth_bound command s = ground arith
depth_bound approval s = ground arith
depth_bound alert s = ground arith
depth_bound credential s = ground arith

steps-depth :
    (m : Machine) {s t : State m} (r : Reaches m s t) → m ≢ run → depth m s + steps r ≤ depth m t
steps-depth m here h = omega arith
steps-depth m (next {t = t} {u = u} r e) h = omega (arith, steps-depth m r h, depth_step m t u h e)

-- In every machine but that of the runs, no sequence of allowed transitions has more than four
-- steps, and no sequence of at least one step returns to its first state.
pub steps_bounded :
    (m : Machine) {s t : State m} (r : Reaches m s t)
    → m ≢ run
    → (steps r ≤ 4) × (s ≡ t → steps r ≡ 0)
steps_bounded m {s} {t} r h = (omega (arith, steps-depth m r h, depth_bound m t), λ p. back p)
  where
    back : s ≡ t → steps r ≡ 0
    back p = omega (arith, steps-depth m r h, ap (depth m) p)

-- The states that a trace goes through.
abbrev pub Visits : {m : Machine} {s t : State m} → State m → Reaches m s t → Type 0
Visits {s = s} v here = v ≡ s
Visits v (next {u = u} r e) = (v ≡ u) ⊎ Visits v r

Visits-end : {m : Machine} {s t : State m} (r : Reaches m s t) → Visits t r
Visits-end here = refl
Visits-end (next r e) = inl refl

Visits-predecessor :
    {m : Machine} {s u : State m} (t : State m) (r : Reaches m s u) → u ≡ t → Visits t r
Visits-predecessor t r p = subst (λ x. Visits x r) p (Visits-end r)

before_success :
    (t u : RunState) → can_transition run t u ≡ true → u ≡ RunState.succeeded → t ≡ RunState.running
unfolding can_transition
before_success t u e p = ground arith

-- A run that was not created as succeeded and is succeeded went through running.
pub succeeded-Visits_running :
    {s t : RunState} (r : Reaches run s t)
    → s ≢ RunState.succeeded
    → t ≡ RunState.succeeded
    → Visits RunState.running r
succeeded-Visits_running here h p = absurd (h p)
succeeded-Visits_running (next {t = t} {u = u} r e) h p =
    inr (Visits-predecessor RunState.running r (before_success t u e p))

before_ack :
    (t u : CommandState)
    → can_transition command t u ≡ true
    → u ≡ CommandState.acknowledged
    → t ≡ CommandState.delivered
unfolding can_transition
before_ack t u e p = ground arith

before_result :
    (t u : CommandState)
    → can_transition command t u ≡ true
    → (u ≡ CommandState.succeeded) ⊎ (u ≡ CommandState.failed)
    → t ≡ CommandState.acknowledged
unfolding can_transition
before_result t u e p = ground arith

ack-Visits-delivered :
    {s t : CommandState} (r : Reaches command s t)
    → s ≡ CommandState.queued
    → t ≡ CommandState.acknowledged
    → Visits CommandState.delivered r
ack-Visits-delivered here h p = cc
ack-Visits-delivered (next {t = t} {u = u} r e) h p =
    inr (Visits-predecessor CommandState.delivered r (before_ack t u e p))

-- A command that began as queued and has a result went through delivered and acknowledged.
result-Visits :
    {s t : CommandState} (r : Reaches command s t)
    → s ≡ CommandState.queued
    → (t ≡ CommandState.succeeded) ⊎ (t ≡ CommandState.failed)
    → Visits CommandState.delivered r × Visits CommandState.acknowledged r
result-Visits here h p = absurd (ground arith)
result-Visits (next {t = t} {u = u} r e) h p =
    let q : t ≡ CommandState.acknowledged = before_result t u e p in
    (inr (ack-Visits-delivered r h q), inr (Visits-predecessor CommandState.acknowledged r q))
