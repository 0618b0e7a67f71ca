-- ===== src/Ingest/Untouched.antt =====
-- What the projections of apps/api/agent_control/ingest/service.py leave as it is: the log of the
-- events, the agents, the commands and the approvals.
use text.Mathlib.Text.{starts_with}
use mission_control_platform.Prelude.{
  ℕ, ◌≡◌, refl, ◌∙◌, inl, inr, String, Bool, true, false, ◌&&◌, Option, none, some, List, [], ◌∷◌,
  ◌==◌, is_some, any_of, text_in, str_eq, Bool-cases,
}
use mission_control_platform.Prelude.Int.{ℤ}
use mission_control_platform.Json.{Fields}
use mission_control_platform.Errors.{Result, ok, err}
use mission_control_platform.StateMachines.{RunState}
use mission_control_platform.Rows.{
  Uuid, Time, Agent, AgentRun, AgentRunStep, AgentBudget, AgentAlert, AgentUsageRecord, StepState,
  Amount,
}
use mission_control_platform.Store.{Env, Store}
use mission_control_platform.Store.Keeps.{Ensures, ensures, Ensures->>=}
use mission_control_platform.Outbox.{event_types, emit_outbox}
use mission_control_platform.Usage.{UsageReport, recorded, add_record, record_usage}
use mission_control_platform.Alerts.{AlertRequest, add_alert, open_alert}
use mission_control_platform.Budgets.{
  thresholds, consumed, applicable_budgets, BudgetEvaluation, cross_thresholds, evaluate_each,
  evaluate_budgets, reaches, threshold_alert, announce,
}
use mission_control_platform.Runs.{transition_run}
use mission_control_platform.Runs.Projection.{
  text_uuid, is_assigned, find_run_in_scope, ensure_active_assignment, assign, create_run, advance,
  project_known, project_parsed, project_run_event,
}
use mission_control_platform.Runs.Steps.{
  step_sequence, find_step, write_step, project_numbered, project_step_of, project_step_parsed,
  project_run_step_event,
}
use mission_control_platform.Ingest.Batch.{project_event}
use mission_control_platform.Ingest.{
  EventEnvelope, project_run, usage_report, after_usage, project_usage,
}

abbrev pub Untouched : Store → Store → Type 0
Untouched s t =
    (t.events ≡ s.events)
    × (t.agents ≡ s.agents)
    × (t.commands ≡ s.commands)
    × (t.approvals ≡ s.approvals)

pub untouched : (s : Store) → Untouched s s
untouched s = (refl, refl, refl, refl)

pub Untouched-trans : (s t u : Store) → Untouched s t → Untouched t u → Untouched s u
Untouched-trans s t u h k = (k.0 ∙ h.0, k.1 ∙ h.1, k.2 ∙ h.2, k.3 ∙ h.3)

assign-Untouched : (agent : Agent) (p : Option Uuid) (s : Store) → Untouched s (assign agent p s)
unfolding ensure_active_assignment
assign-Untouched agent none s = untouched s
assign-Untouched agent (some p) s =
    elim (Bool-cases (
      any_of (λ a. (a.agent_id == agent.id) && ((a.project_id == p) && is_assigned a.status))
        s.assignments)) [ inl e ↦ rw e (untouched s) | inr e ↦ rw e (untouched s) ]

advance-Untouched :
    (env : Env) (payload : Fields) (r : Result AgentRun) (s : Store)
    → Untouched s (advance env payload r s)
advance-Untouched env payload (err e) s = untouched s
advance-Untouched env payload (ok r) s = untouched s

project_known-Untouched :
    (env : Env) (agent : Agent) (i : Uuid) (new : RunState) (p k : Option String) (payload : Fields)
    (at : Time) (o : Option AgentRun) (s : Store)
    → Untouched s (project_known env agent i new p k payload at o s)
unfolding create_run
project_known-Untouched env agent i new p k payload at (some r) s =
    advance-Untouched env payload (transition_run r new at) s
project_known-Untouched env agent i new p k payload at none s =
    elim (Bool-cases (any_of (λ r. r.id == i) s.runs)) [
      | inl e ↦ rw e (untouched s)
      | inr e ↦ rw e (assign-Untouched agent (text_uuid env p) _)
    ]

project_parsed-Untouched :
    (env : Env) (agent : Agent) (new : Option RunState) (i : Option Uuid) (p k : Option String)
    (payload : Fields) (at : Time) (s : Store)
    → Untouched s (project_parsed env agent new i p k payload at s)
project_parsed-Untouched env agent (some new) (some i) p k payload at s =
    project_known-Untouched env agent i new p k payload at (find_run_in_scope agent i s) s
project_parsed-Untouched env agent none i p k payload at s = untouched s
project_parsed-Untouched env agent (some new) none p k payload at s = untouched s

write_step-Untouched :
    (env : Env) (i : Uuid) (n : ℤ) (state : StepState) (payload : Fields) (at : Time)
    (o : Option AgentRunStep) (s : Store)
    → Untouched s (write_step env i n state payload at o s)
write_step-Untouched env i n state payload at none s = untouched s
write_step-Untouched env i n state payload at (some x) s = untouched s

project_numbered-Untouched :
    (env : Env) (r : AgentRun) (state : StepState) (payload : Fields) (at : Time) (o : Option ℤ)
    (s : Store)
    → Untouched s (project_numbered env r state payload at o s)
project_numbered-Untouched env r state payload at none s = untouched s
project_numbered-Untouched env r state payload at (some n) s =
    write_step-Untouched env r.id n state payload at (find_step r.id n s.steps) s

project_step-Untouched :
    (env : Env) (state : StepState) (payload : Fields) (at : Time) (o : Option AgentRun) (s : Store)
    → Untouched s (project_step_of env state payload at o s)
project_step-Untouched env state payload at none s = untouched s
project_step-Untouched env state payload at (some r) s =
    project_numbered-Untouched env r state payload at (step_sequence env r.id payload s) s

project_step_parsed-Untouched :
    (env : Env) (agent : Agent) (state : Option StepState) (i : Option Uuid) (payload : Fields)
    (at : Time) (s : Store)
    → Untouched s (project_step_parsed env agent state i payload at s)
project_step_parsed-Untouched env agent (some state) (some i) payload at s =
    project_step-Untouched env state payload at (find_run_in_scope agent i s) s
project_step_parsed-Untouched env agent none i payload at s = untouched s
project_step_parsed-Untouched env agent (some state) none payload at s = untouched s

pub project_run-Untouched :
    (env : Env) (agent : Agent) (ev : EventEnvelope) (at : Time) (s : Store)
    → Untouched s (project_run env agent ev at s)
unfolding project_run project_run_event project_run_step_event
project_run-Untouched env agent ev at s = elim (Bool-cases (starts_with ev.event_type "run.")) [
  | inl e ↦ elim (Bool-cases (starts_with ev.event_type "run.step.")) [
    | inl f ↦ rw (e, f) (project_step_parsed-Untouched env agent _ _ ev.payload at s)
    | inr f ↦
        rw (e, f) (project_parsed-Untouched env agent _ _ ev.project_id ev.task_id ev.payload at s)
  ]
  | inr e ↦ rw e (untouched s)
]

emit_outbox-Untouched :
    (env : Env) (inst : Option Uuid) (event topic : String) (payload : Fields) (s : Store)
    → Ensures (Untouched s) (emit_outbox env inst event topic payload s)
unfolding emit_outbox
emit_outbox-Untouched env inst event topic payload s =
    elim (Bool-cases (text_in event event_types)) [ inl e ↦ rw e (untouched s) | inr e ↦ rw e tt ]

add_record-Untouched :
    (env : Env) (inst : Option Uuid) (report : UsageReport) (s : Store)
    (o : Option AgentUsageRecord)
    → Ensures (λ r. Untouched s r.2) (add_record env inst report s o)
add_record-Untouched env inst report s (some r) = untouched s
add_record-Untouched env inst report s none =
    Ensures->>= (Untouched s) (λ (r : AgentUsageRecord × Bool × Store). Untouched s r.2) _ _
      (emit_outbox-Untouched env inst "usage.recorded" _ _ _) (λ t h. h)

add_alert-Untouched :
    (env : Env) (inst : Option Uuid) (a : AlertRequest) (s : Store) (o : Option AgentAlert)
    → Ensures (λ r. Untouched s r.2) (add_alert env inst a s o)
add_alert-Untouched env inst a s (some r) = untouched s
add_alert-Untouched env inst a s none =
    Ensures->>= (Untouched s) (λ (r : AgentAlert × Bool × Store). Untouched s r.2) _ _
      (emit_outbox-Untouched env inst "alert.opened" "fleet" _ _) (λ t h. h)

announce-Untouched :
    (env : Env) (b : AgentBudget) (used : Amount) (t : ℕ) (created : Bool) (crossed : List ℕ)
    (s : Store)
    → Ensures (λ r. Untouched s r.1) (announce env b used t created crossed s)
announce-Untouched env b used t false crossed s = untouched s
announce-Untouched env b used t true crossed s =
    Ensures->>= (Untouched s) (λ (r : List ℕ × Store). Untouched s r.1) _ _
      (emit_outbox-Untouched env b.installation_id _ "fleet" _ s) (λ u h. h)

-- Going on from a store that is untouched itself.
Untouched-then :
    {A : Type 0} (at : A → Store) (s t : Store) (m : Result A)
    → Untouched s t
    → Ensures (λ r. Untouched t (at r)) m
    → Ensures (λ r. Untouched s (at r)) m
Untouched-then at s t (ok r) h k = Untouched-trans s t (at r) h k
Untouched-then at s t (err e) h k = tt

abbrev crossed_store : List ℕ × Store → Store
crossed_store r = r.1

cross_thresholds-Untouched :
    (env : Env) (b : AgentBudget) (used : Amount) (ts crossed : List ℕ) (s : Store)
    → Ensures (λ r. Untouched s (crossed_store r)) (cross_thresholds env b used ts crossed s)
unfolding cross_thresholds open_alert
cross_thresholds-Untouched env b used [] crossed s = untouched s
cross_thresholds-Untouched env b used (t ∷ ts) crossed s =
    elim (Bool-cases (reaches used b.amount_limit t)) [
      | inl e ↦ rw e (
          Ensures->>= (λ (r : AgentAlert × Bool × Store). Untouched s r.2)
            (λ (r : List ℕ × Store). Untouched s (crossed_store r)) _ _
            (add_alert-Untouched env b.installation_id (threshold_alert b used t) s _)
            λ (alert, created, u) h.
              Ensures->>= (λ (r : List ℕ × Store). Untouched s r.1)
                (λ (r : List ℕ × Store). Untouched s (crossed_store r)) _ _
                (Untouched-then crossed_store s u _ h
                  (announce-Untouched env b used t created crossed u))
                λ (more, v) k.
                  Untouched-then crossed_store s v _ k
                    (cross_thresholds-Untouched env b used ts more v))
      | inr e ↦ rw e (cross_thresholds-Untouched env b used ts crossed s)
    ]

evaluate_each-Untouched :
    (env : Env) (now : Time) (bs : List AgentBudget) (s : Store)
    → Ensures (λ r. Untouched s r.1) (evaluate_each env now bs s)
unfolding evaluate_each
evaluate_each-Untouched env now [] s = untouched s
evaluate_each-Untouched env now (b ∷ bs) s =
    Ensures->>= (λ (r : List ℕ × Store). Untouched s (crossed_store r))
      (λ (r : List BudgetEvaluation × Store). Untouched s r.1) _ _
      (cross_thresholds-Untouched env b (consumed s.usage b now) (thresholds b) [] s)
      λ (crossed, t) h.
        Ensures->>= (λ (r : List BudgetEvaluation × Store). Untouched s r.1)
          (λ (r : List BudgetEvaluation × Store). Untouched s r.1) _ _
          (Untouched-then (λ r. r.1) s t (evaluate_each env now bs t) h
            (evaluate_each-Untouched env now bs t))
          (λ r k. k)

after_usage-Untouched :
    (env : Env) (agent : Agent) (ev : EventEnvelope) (at : Time) (r : AgentUsageRecord) (new : Bool)
    (s : Store)
    → Ensures (Untouched s) (after_usage env agent ev at (r, new, s))
unfolding evaluate_budgets
after_usage-Untouched env agent ev at r false s = untouched s
after_usage-Untouched env agent ev at r true s =
    Ensures->>= (λ (r : List BudgetEvaluation × Store). Untouched s r.1) (Untouched s) _ _
      (evaluate_each-Untouched env at
        (applicable_budgets s.budgets agent.installation_id (some agent.id)
          (text_uuid env ev.project_id))
        s)
      (λ r h. h)

pub project_usage-Untouched :
    (env : Env) (agent : Agent) (ev : EventEnvelope) (at : Time) (s : Store)
    → Ensures (Untouched s) (project_usage env agent ev at s)
unfolding project_usage record_usage
project_usage-Untouched env agent ev at s =
    elim (Bool-cases (is_some (recorded agent.installation_id ev.event_id s.usage))) [
      | inl e ↦ rw e (untouched s)
      | inr e ↦ rw e (
          Ensures->>= (λ (r : UsageReport). Unit {0}) (Untouched s) (usage_report env agent ev at) _
            (ensures (λ r. Unit {0}) (usage_report env agent ev at) (λ r h. tt))
            λ report h.
              Ensures->>= (λ (r : AgentUsageRecord × Bool × Store). Untouched s r.2) (Untouched s) _
                _ (add_record-Untouched env agent.installation_id report s _)
                λ (r, new, t) k.
                  Untouched-then (λ u. u) s t _ k (after_usage-Untouched env agent ev at r new t))
    ]

pub project_event-Untouched :
    (env : Env) (agent : Agent) (ev : EventEnvelope) (at : Time) (s : Store)
    → Ensures (Untouched s) (project_event env agent ev at s)
unfolding project_event
project_event-Untouched env agent ev at s =
    let h = project_run-Untouched env agent ev at s in
    elim (Bool-cases (str_eq ev.event_type "usage.recorded")) [
      | inl e ↦ rw e (
          Untouched-then (λ u. u) s (project_run env agent ev at s) _ h
            (project_usage-Untouched env agent ev at (project_run env agent ev at s)))
      | inr e ↦ rw e h
    ]
