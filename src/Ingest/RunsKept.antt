-- ===== src/Ingest/RunsKept.antt =====
-- The milestones of the runs, under the projections of apps/api/agent_control/runs/service.py that
-- `_project_run` of apps/api/agent_control/ingest/service.py chooses.
use text.Mathlib.Text.{starts_with}
use mission_control_platform.Prelude.{
  String, ◌≡◌, refl, sym, ◌∙◌, subst, inl, inr, Bool, true, false, Option, none, some, ◌==◌,
  Bool-cases, any_of, is_some, if◌then◌else◌, All, All-append, All-update_where, All-find_first,
}
use mission_control_platform.Prelude.Int.{ℤ}
use mission_control_platform.Json.{Fields}
use mission_control_platform.Errors.{Result, ok, err}
use mission_control_platform.StateMachines.{RunState, run, is_terminal}
use mission_control_platform.Rows.{Uuid, Time, Agent, AgentRun, StepState}
use mission_control_platform.Store.{Env, Store}
use mission_control_platform.Store.Keeps.{Ensures}
use mission_control_platform.Runs.{is_started, first_time, milestones, transition_run, put_run}
use mission_control_platform.Runs.Moves.{Advanced, transition_run-Advanced}
use mission_control_platform.Runs.Projection.{
  text_uuid, find_run_in_scope, apply_terminal_result, first_row, new_run, create_run, advance,
  project_known, project_parsed, project_run_event,
}
use mission_control_platform.Runs.Steps.{
  step_sequence, find_step, project_numbered, project_step_of, project_step_parsed,
  project_run_step_event,
}
use mission_control_platform.Ingest.RunsMoved.{assign-runs, write_step-runs}
use mission_control_platform.Ingest.{EventEnvelope, project_run}

-- A run has a time at which it finished exactly in a terminal state, and one at which it started in
-- each state that counts as started.
abbrev pub HasMilestones : AgentRun → Type 0
HasMilestones r =
    (is_some r.finished_at ≡ is_terminal run r.state)
    × (is_started r.state ≡ true → is_some r.started_at ≡ true)

first_time-given : (o : Option Time) (at : Time) → is_some (first_time o at) ≡ true
first_time-given none at = refl
first_time-given (some t) at = refl

milestones-HasMilestones :
    (new : RunState) (at : Time) (r : AgentRun)
    → is_some r.finished_at ≡ false
    → HasMilestones (milestones new at r)
unfolding milestones
milestones-HasMilestones new at r h = (finished, started)
  where
    finished :
        is_some (if is_terminal run new then some at else r.finished_at) ≡ is_terminal run new
    finished = elim (Bool-cases (is_terminal run new)) [ inl e ↦ rw e refl | inr e ↦ rw e h ]

    started :
        is_started new ≡ true
        → is_some (if is_started new then first_time r.started_at at else r.started_at) ≡ true
    started e = rw e (first_time-given r.started_at at)

Advanced-HasMilestones :
    (r : AgentRun) (new : RunState) (at : Time) (q : AgentRun)
    → HasMilestones r
    → Advanced r new at q
    → HasMilestones q
Advanced-HasMilestones r new at q h (inl (e, f)) = subst HasMilestones (sym f) h
Advanced-HasMilestones r new at q h (inr (e, f, g)) =
    subst HasMilestones (sym g) (milestones-HasMilestones new at r (h.0 ∙ e))

apply-HasMilestones :
    (env : Env) (payload : Fields) (q : AgentRun)
    → HasMilestones q
    → HasMilestones (apply_terminal_result env payload q)
unfolding apply_terminal_result
apply-HasMilestones env payload q h = elim (Bool-cases (is_terminal run q.state)) [
  | inl e ↦ rw e h
  | inr e ↦ rw e h
]

new_run-HasMilestones :
    (env : Env) (agent : Agent) (i : Uuid) (birth : RunState) (p k : Option Uuid) (payload : Fields)
    (at : Time) (s : Store)
    → HasMilestones (new_run env agent i birth p k payload at s)
unfolding new_run
new_run-HasMilestones env agent i birth p k payload at s =
    apply-HasMilestones env payload (first_row env agent i birth p k payload at s)
      (given (is_terminal run birth), λ e. rw e refl)
  where
    given : (b : Bool) → is_some (if b then some at else none) ≡ b
    given true = refl
    given false = refl

put_run-HasMilestones :
    (q : AgentRun) (s : Store)
    → HasMilestones q
    → All HasMilestones s.runs
    → All HasMilestones (put_run q s).runs
put_run-HasMilestones q s h hs =
    All-update_where HasMilestones (λ r. r.id == q.id) (λ r. q) s.runs (λ r e k. h) hs

advance-HasMilestones :
    (env : Env) (payload : Fields) (r : AgentRun) (new : RunState) (at : Time) (m : Result AgentRun)
    (s : Store)
    → Ensures (Advanced r new at) m
    → HasMilestones r
    → All HasMilestones s.runs
    → All HasMilestones (advance env payload m s).runs
advance-HasMilestones env payload r new at (err e) s h k hs = hs
advance-HasMilestones env payload r new at (ok q) s h k hs =
    put_run-HasMilestones (apply_terminal_result env payload q) s
      (apply-HasMilestones env payload q (Advanced-HasMilestones r new at q k h)) hs

found_run :
    (agent : Agent) (i : Uuid) (s : Store) (r : AgentRun)
    → find_run_in_scope agent i s ≡ some r
    → All HasMilestones s.runs
    → HasMilestones r
unfolding find_run_in_scope
found_run agent i s r e h = All-find_first HasMilestones _ s.runs r e h

project_known-HasMilestones :
    (env : Env) (agent : Agent) (i : Uuid) (new : RunState) (p k : Option String) (payload : Fields)
    (at : Time) (o : Option AgentRun) (s : Store)
    → find_run_in_scope agent i s ≡ o
    → All HasMilestones s.runs
    → All HasMilestones (project_known env agent i new p k payload at o s).runs
unfolding create_run
project_known-HasMilestones env agent i new p k payload at (some r) s e h =
    advance-HasMilestones env payload r new at (transition_run r new at) s
      (transition_run-Advanced r new at) (found_run agent i s r e h) h
project_known-HasMilestones env agent i new p k payload at none s e h =
    elim (Bool-cases (any_of (λ r. r.id == i) s.runs)) [
      | inl f ↦ rw f h
      | inr f ↦ rw f (
          subst (All HasMilestones) (sym (assign-runs agent (text_uuid env p) _)) (
            All-append HasMilestones s.runs _ h (
              new_run-HasMilestones env agent i new (text_uuid env p) (text_uuid env k) payload at
                  s,
              tt,
            )))
    ]

project_parsed-HasMilestones :
    (env : Env) (agent : Agent) (new : Option RunState) (i : Option Uuid) (p k : Option String)
    (payload : Fields) (at : Time) (s : Store)
    → All HasMilestones s.runs
    → All HasMilestones (project_parsed env agent new i p k payload at s).runs
project_parsed-HasMilestones env agent (some new) (some i) p k payload at s h =
    project_known-HasMilestones env agent i new p k payload at _ s refl h
project_parsed-HasMilestones env agent none i p k payload at s h = h
project_parsed-HasMilestones env agent (some new) none p k payload at s h = h

project_numbered-HasMilestones :
    (env : Env) (r : AgentRun) (state : StepState) (payload : Fields) (at : Time) (o : Option ℤ)
    (s : Store)
    → HasMilestones r
    → All HasMilestones s.runs
    → All HasMilestones (project_numbered env r state payload at o s).runs
project_numbered-HasMilestones env r state payload at none s h hs = hs
project_numbered-HasMilestones env r state payload at (some n) s h hs =
    let same = write_step-runs env r.id n state payload at (find_step r.id n s.steps) s in
    rw same (put_run-HasMilestones (record r { heartbeat_at = some at }) s h hs)

project_step-HasMilestones :
    (env : Env) (agent : Agent) (state : StepState) (i : Uuid) (payload : Fields) (at : Time)
    (o : Option AgentRun) (s : Store)
    → find_run_in_scope agent i s ≡ o
    → All HasMilestones s.runs
    → All HasMilestones (project_step_of env state payload at o s).runs
project_step-HasMilestones env agent state i payload at none s e h = h
project_step-HasMilestones env agent state i payload at (some r) s e h =
    project_numbered-HasMilestones env r state payload at (step_sequence env r.id payload s) s
      (found_run agent i s r e h) h

project_step_parsed-HasMilestones :
    (env : Env) (agent : Agent) (state : Option StepState) (i : Option Uuid) (payload : Fields)
    (at : Time) (s : Store)
    → All HasMilestones s.runs
    → All HasMilestones (project_step_parsed env agent state i payload at s).runs
project_step_parsed-HasMilestones env agent none i payload at s h = h
project_step_parsed-HasMilestones env agent (some state) none payload at s h = h
project_step_parsed-HasMilestones env agent (some state) (some i) payload at s h =
    project_step-HasMilestones env agent state i payload at _ s refl h

-- If each run has a time at which it finished exactly in a terminal state, and one at which it started in each state that counts as started, so does each run after the projection of an event.
pub project_run-HasMilestones :
    (env : Env) (agent : Agent) (ev : EventEnvelope) (at : Time) (s : Store)
    → All HasMilestones s.runs
    → All HasMilestones (project_run env agent ev at s).runs
unfolding project_run project_run_event project_run_step_event
project_run-HasMilestones env agent ev at s h =
    elim (Bool-cases (starts_with ev.event_type "run.")) [
      | inl e ↦ elim (Bool-cases (starts_with ev.event_type "run.step.")) [
        | inl f ↦ rw (e, f) (project_step_parsed-HasMilestones env agent _ _ ev.payload at s h)
        | inr f ↦
            rw (e, f)
              (project_parsed-HasMilestones env agent _ _ ev.project_id ev.task_id ev.payload at s
                h)
      ]
      | inr e ↦ rw e h
    ]
