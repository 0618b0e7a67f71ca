-- ===== src/Ingest/RunsMoved.antt =====
-- What an event does to the table of the runs, by the projections of
-- apps/api/agent_control/runs/service.py that `_project_run` of
-- apps/api/agent_control/ingest/service.py chooses.
use text.Mathlib.Text.{starts_with}
use mission_control_platform.Prelude.{
  String, ◌≡◌, refl, sym, subst, inl, inr, Bool, true, ◌&&◌, Option, none, some, List, [], ◌∷◌,
  ◌++◌, ◌==◌, Bool-cases, any_of, All, IdsDistinct, found_alone, update_where,
}
use mission_control_platform.Prelude.Int.{ℤ}
use mission_control_platform.Json.{Fields}
use mission_control_platform.Errors.{Result, ok, err}
use mission_control_platform.StateMachines.{RunState}
use mission_control_platform.Rows.{Uuid, Time, Agent, AgentRun, AgentRunStep, StepState}
use mission_control_platform.Store.{Env, Store}
use mission_control_platform.Store.Keeps.{Ensures}
use mission_control_platform.Runs.{transition_run, put_run}
use mission_control_platform.Runs.Moves.{
  Advanced, transition_run-Advanced, Moved, moved, Advanced-Moved, apply-Moved,
}
use mission_control_platform.Runs.Projection.{
  text_uuid, is_assigned, ensure_active_assignment, find_run_in_scope, apply_terminal_result,
  assign, create_run, advance, project_known, project_parsed, project_run_event,
}
use mission_control_platform.Runs.Steps.{
  step_sequence, find_step, write_step, project_numbered, project_step_of, project_step_parsed,
  project_run_step_event,
}
use mission_control_platform.Ingest.{EventEnvelope, project_run}

-- The rows of a table of runs, each with what has become of it, and perhaps new rows after them.
abbrev pub MovedRows : List AgentRun → List AgentRun → Type 0
MovedRows [] ys = Unit
MovedRows (x ∷ xs) [] = ⊥
MovedRows (x ∷ xs) (y ∷ ys) = Moved x y × MovedRows xs ys

moved_rows : (xs : List AgentRun) → MovedRows xs xs
moved_rows [] = tt
moved_rows (x ∷ xs) = (moved x, moved_rows xs)

MovedRows-append : (xs ys : List AgentRun) → MovedRows xs (xs ++ ys)
MovedRows-append [] ys = tt
MovedRows-append (x ∷ xs) ys = (moved x, MovedRows-append xs ys)

MovedRows-update :
    (p : AgentRun → Bool) (r q : AgentRun) (xs : List AgentRun)
    → Moved r q
    → All (λ x. p x ≡ true → x ≡ r) xs
    → MovedRows xs (update_where p (λ x. q) xs)
MovedRows-update p r q [] m h = tt
MovedRows-update p r q (x ∷ xs) m h = elim (Bool-cases (p x)) [
  | inl e ↦ (rw e (subst (λ z. Moved z q) (sym (h.0 e)) m), MovedRows-update p r q xs m h.1)
  | inr e ↦ (rw e (moved x), MovedRows-update p r q xs m h.1)
]

put_run-MovedRows :
    (r q : AgentRun) (s : Store)
    → Moved r q
    → All (λ x. (x.id == r.id) ≡ true → x ≡ r) s.runs
    → MovedRows s.runs (put_run q s).runs
put_run-MovedRows r q s m h =
    MovedRows-update (λ x. x.id == q.id) r q s.runs m
      (subst (λ n. All (λ x. (x.id == n) ≡ true → x ≡ r) s.runs) (sym m.0) h)

advance-MovedRows :
    (env : Env) (payload : Fields) (r : AgentRun) (new : RunState) (at : Time) (m : Result AgentRun)
    (s : Store)
    → Ensures (Advanced r new at) m
    → All (λ x. (x.id == r.id) ≡ true → x ≡ r) s.runs
    → MovedRows s.runs (advance env payload m s).runs
advance-MovedRows env payload r new at (err e) s h alone = moved_rows s.runs
advance-MovedRows env payload r new at (ok q) s h alone =
    put_run-MovedRows r (apply_terminal_result env payload q) s
      (apply-Moved env payload r q (Advanced-Moved r new at q h)) alone

pub assign-runs : (agent : Agent) (p : Option Uuid) (s : Store) → (assign agent p s).runs ≡ s.runs
unfolding ensure_active_assignment
assign-runs agent none s = refl
assign-runs agent (some p) s =
    elim (Bool-cases (
      any_of (λ a. (a.agent_id == agent.id) && ((a.project_id == p) && is_assigned a.status))
        s.assignments)) [ inl e ↦ rw e refl | inr e ↦ rw e refl ]

project_known-MovedRows :
    (env : Env) (agent : Agent) (i : Uuid) (new : RunState) (p k : Option String) (payload : Fields)
    (at : Time) (s : Store)
    → IdsDistinct (λ r. r.id) s.runs
    → MovedRows s.runs
        (project_known env agent i new p k payload at (find_run_in_scope agent i s) s).runs
unfolding create_run find_run_in_scope
project_known-MovedRows env agent i new p k payload at s h =
    known (find_run_in_scope agent i s) refl
  where
    known :
        (o : Option AgentRun)
        → find_run_in_scope agent i s ≡ o
        → MovedRows s.runs (project_known env agent i new p k payload at o s).runs
    known (some r) e =
        advance-MovedRows env payload r new at (transition_run r new at) s
          (transition_run-Advanced r new at) (found_alone (λ r. r.id) _ s.runs r h e)
    known none e = elim (Bool-cases (any_of (λ r. r.id == i) s.runs)) [
      | inl f ↦ rw f (moved_rows s.runs)
      | inr f ↦ rw f (
          subst (MovedRows s.runs) (sym (assign-runs agent (text_uuid env p) _))
            (MovedRows-append s.runs _))
    ]

pub write_step-runs :
    (env : Env) (i : Uuid) (n : ℤ) (state : StepState) (payload : Fields) (at : Time)
    (o : Option AgentRunStep) (s : Store)
    → (write_step env i n state payload at o s).runs ≡ s.runs
write_step-runs env i n state payload at none s = refl
write_step-runs env i n state payload at (some x) s = refl

project_numbered-MovedRows :
    (env : Env) (r : AgentRun) (state : StepState) (payload : Fields) (at : Time) (o : Option ℤ)
    (s : Store)
    → All (λ x. (x.id == r.id) ≡ true → x ≡ r) s.runs
    → MovedRows s.runs (project_numbered env r state payload at o s).runs
project_numbered-MovedRows env r state payload at none s h = moved_rows s.runs
project_numbered-MovedRows env r state payload at (some n) s h =
    let same = write_step-runs env r.id n state payload at (find_step r.id n s.steps) s in
    rw same (put_run-MovedRows r (record r { heartbeat_at = some at }) s (moved r) h)

project_step_parsed-MovedRows :
    (env : Env) (agent : Agent) (state : Option StepState) (i : Option Uuid) (payload : Fields)
    (at : Time) (s : Store)
    → IdsDistinct (λ r. r.id) s.runs
    → MovedRows s.runs (project_step_parsed env agent state i payload at s).runs
unfolding find_run_in_scope
project_step_parsed-MovedRows env agent none i payload at s h = moved_rows s.runs
project_step_parsed-MovedRows env agent (some state) none payload at s h = moved_rows s.runs
project_step_parsed-MovedRows env agent (some state) (some i) payload at s h =
    found (find_run_in_scope agent i s) refl
  where
    found :
        (o : Option AgentRun)
        → find_run_in_scope agent i s ≡ o
        → MovedRows s.runs (project_step_of env state payload at o s).runs
    found none e = moved_rows s.runs
    found (some r) e =
        project_numbered-MovedRows env r state payload at (step_sequence env r.id payload s) s
          (found_alone (λ r. r.id) _ s.runs r h e)

project_parsed-MovedRows :
    (env : Env) (agent : Agent) (new : Option RunState) (i : Option Uuid) (p k : Option String)
    (payload : Fields) (at : Time) (s : Store)
    → IdsDistinct (λ r. r.id) s.runs
    → MovedRows s.runs (project_parsed env agent new i p k payload at s).runs
project_parsed-MovedRows env agent (some new) (some i) p k payload at s h =
    project_known-MovedRows env agent i new p k payload at s h
project_parsed-MovedRows env agent none i p k payload at s h = moved_rows s.runs
project_parsed-MovedRows env agent (some new) none p k payload at s h = moved_rows s.runs

-- If the identifiers of the runs are distinct, the projection of an event keeps each run in its state or makes one transition of the machine; a terminal run keeps its state and when it finished, no version falls, and no result or error that was reported is replaced.
pub project_run-MovedRows :
    (env : Env) (agent : Agent) (ev : EventEnvelope) (at : Time) (s : Store)
    → IdsDistinct (λ r. r.id) s.runs
    → MovedRows s.runs (project_run env agent ev at s).runs
unfolding project_run project_run_event project_run_step_event
project_run-MovedRows env agent ev at s h = elim (Bool-cases (starts_with ev.event_type "run.")) [
  | inl e ↦ elim (Bool-cases (starts_with ev.event_type "run.step.")) [
    | inl f ↦ rw (e, f) (project_step_parsed-MovedRows env agent _ _ ev.payload at s h)
    | inr f ↦
        rw (e, f)
          (project_parsed-MovedRows env agent _ _ ev.project_id ev.task_id ev.payload at s h)
  ]
  | inr e ↦ rw e (moved_rows s.runs)
]
