-- ===== src/Runs/Steps.antt =====
-- The projection of the events `run.step.*` on the table of steps, `project_run_step_event` of
-- apps/api/agent_control/runs/service.py.
use mission_control_platform.Prelude.{
  ◌+◌, String, Bool, true, false, not, ◌&&◌, Option, none, some, List, [], ◌∷◌, ◌++◌, ◌==◌,
  find_first, update_where, str_eq, if◌then◌else◌,
}
use mission_control_platform.Prelude.Int.{ℤ, pos, ◌+ℤ◌, ltb_ℤ, sub_ℕ}
use mission_control_platform.Json.{
  Json, Fields, null, num, str, obj, end, is_truthy, get_value, or_none,
}
use mission_control_platform.Rows.{Uuid, Time, Agent, AgentRun, AgentRunStep, StepState}
use mission_control_platform.Store.{Env, Store}
use mission_control_platform.Runs.{put_run}
use mission_control_platform.Runs.Projection.{clip, text_of, text_uuid, find_run_in_scope}

-- `STEP_STATE_BY_EVENT.get(event_type)`.
unfoldable pub step_state_by_event : String → Option StepState
step_state_by_event t =
    if str_eq t "run.step.started"
    then some StepState.started
    else if str_eq t "run.step.completed"
    then some StepState.succeeded
    else if str_eq t "run.step.failed"
    then some StepState.failed
    else none

abbrev pub is_closed : StepState → Bool
is_closed StepState.started = false
is_closed s = true

-- `_clip`.
unfoldable pub clip_value : Env → Json → Option String
unfolding clip
clip_value env null = none
clip_value env j = some (clip 4000 (text_of env j))

abbrev max_ℤ : ℤ → ℤ → ℤ
max_ℤ a b = if ltb_ℤ a b then b else a

-- The greatest number of a step of the run: the first one `ORDER BY sequence DESC`.
unfoldable pub last_sequence : Uuid → List AgentRunStep → Option ℤ
last_sequence run_id [] = none
last_sequence run_id (x ∷ xs) =
    let rest = last_sequence run_id xs in
    if x.run_id == run_id
    then some (elim rest [ none ↦ x.sequence | some n ↦ max_ℤ x.sequence n ])
    else rest

abbrev after_last : Option ℤ → ℤ
after_last none = pos 1
after_last (some n) = n +ℤ pos 1

abbrev is_null : Json → Bool
is_null null = true
is_null j = false

-- `int(value)`.
abbrev pub int_value : Env → Json → Option ℤ
int_value env (num n) = some n
int_value env j = env.int_of j

-- The number of the step: the one of the payload, under either key, or the next one.
unfoldable pub step_sequence : Env → Uuid → Fields → Store → Option ℤ
unfolding last_sequence ◌+ℤ◌
step_sequence env run_id payload s =
    if not (is_null (get_value "step_sequence" payload))
    then int_value env (get_value "step_sequence" payload)
    else if not (is_null (get_value "sequence" payload))
    then int_value env (get_value "sequence" payload)
    else some (after_last (last_sequence run_id s.steps))

abbrev or_step : Json → Json
or_step j = if is_truthy j then j else str "step"

abbrev or_empty : Json → Json
or_empty j = if is_truthy j then j else obj end

unfoldable pub new_step : Env → Uuid → ℤ → StepState → Fields → Time → Uuid → AgentRunStep
unfolding clip_value
new_step env run_id sequence state payload at id = record {
  id = id;
  run_id = run_id;
  sequence = sequence;
  step_type = or_step (get_value "step_type" payload);
  name = or_none (get_value "name" payload);
  state = state;
  tool_name = or_none (get_value "tool_name" payload);
  input_summary = clip_value env (get_value "input_summary" payload);
  output_summary =
      if is_closed state then clip_value env (get_value "output_summary" payload) else none;
  started_at = if is_closed state then none else some at;
  finished_at = if is_closed state then some at else none;
  duration_ms = none;
  step_metadata = or_empty (get_value "metadata" payload);
}

abbrev duration : Env → Option Time → Time → Option ℤ → Option ℤ
duration env none at old = old
duration env (some t) at old = some (env.milliseconds (sub_ℕ at t))

abbrev tool_filled : Json → Option Json → Option Json
tool_filled value none = or_none value
tool_filled value (some j) = if is_truthy value && not (is_truthy j) then some value else some j

-- What the event of an end writes on a step that is there. The event of a start writes nothing.
unfoldable pub close_step : Env → StepState → Fields → Time → AgentRunStep → AgentRunStep
unfolding clip_value
close_step env state payload at x =
    if is_closed state
    then record x {
      state = state;
      finished_at = some at;
      output_summary =
          if is_truthy (get_value "output_summary" payload)
          then clip_value env (get_value "output_summary" payload)
          else x.output_summary;
      duration_ms = duration env x.started_at at x.duration_ms;
      tool_name = tool_filled (get_value "tool_name" payload) x.tool_name;
    }
    else x

unfoldable pub find_step : Uuid → ℤ → List AgentRunStep → Option AgentRunStep
find_step run_id sequence = find_first (λ x. (x.run_id == run_id) && same_ℤ x.sequence sequence)
  where
    same_ℤ : ℤ → ℤ → Bool
    same_ℤ a b = not (ltb_ℤ a b) && not (ltb_ℤ b a)

-- A step that is not there is added, and one that is there is closed.
abbrev pub write_step :
    Env → Uuid → ℤ → StepState → Fields → Time → Option AgentRunStep → Store → Store
write_step env run_id sequence state payload at none s = record s {
  steps = s.steps ++ new_step env run_id sequence state payload at s.next_id ∷ [];
  next_id = s.next_id + 1;
}
write_step env run_id sequence state payload at (some x) s = record s {
  steps = update_where (λ y. y.id == x.id) (λ y. close_step env state payload at x) s.steps;
}

abbrev pub project_numbered : Env → AgentRun → StepState → Fields → Time → Option ℤ → Store → Store
project_numbered env r state payload at none s = s
project_numbered env r state payload at (some n) s =
    put_run (record r { heartbeat_at = some at })
      (write_step env r.id n state payload at (find_step r.id n s.steps) s)

abbrev pub project_step_of : Env → StepState → Fields → Time → Option AgentRun → Store → Store
project_step_of env state payload at none s = s
project_step_of env state payload at (some r) s =
    project_numbered env r state payload at (step_sequence env r.id payload s) s

abbrev pub project_step_parsed :
    Env → Agent → Option StepState → Option Uuid → Fields → Time → Store → Store
project_step_parsed env agent (some state) (some run_id) payload at s =
    project_step_of env state payload at (find_run_in_scope agent run_id s) s
project_step_parsed env agent state run_id payload at s = s

-- `project_run_step_event`, whose result no caller uses.
unfoldable pub project_run_step_event :
    Env → Agent → String → Option String → Fields → Time → Store → Store
unfolding step_state_by_event find_run_in_scope step_sequence find_step new_step close_step
project_run_step_event env agent event_type run_id payload at s =
    project_step_parsed env agent (step_state_by_event event_type) (text_uuid env run_id) payload at
      s
