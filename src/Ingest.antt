-- ===== src/Ingest.antt =====
-- The ingest of the agents' events and heartbeats, apps/api/agent_control/ingest/service.py, with the
-- envelope of apps/api/integrations/envelopes.py: batches are bounded, in sequence and idempotent, and
-- each event that is accepted is logged, written to the outbox and projected in one transaction.
pub mod Batch
pub mod Heartbeat
pub mod Log
pub mod Known
pub mod Appended
pub mod Spent
pub mod SpentLoop
pub mod Replay
pub mod RunsMoved
pub mod RunsKept
pub mod Newest
pub mod Untouched
use Prim.Native.Char.{code}
use Prim.Native.String.{String, ◌++◌ as str_append}
use text.Mathlib.Text.{starts_with}
use mission_control_platform.Prelude.{
  ℕ, ◌+◌, Bool, true, false, Option, none, some, List, [], ◌∷◌, ◌++◌, ◌==◌, is_some, or_else,
  str_eq, if◌then◌else◌,
}
use mission_control_platform.Prelude.Int.{ℤ, pos}
use mission_control_platform.Json.{Json, Fields, null, str, get_value}
use mission_control_platform.Errors.{Result, Error, ok, err, ◌>>=◌}
use mission_control_platform.Rows.{Uuid, Time, Agent, AgentEvent, AgentUsageRecord}
use mission_control_platform.Store.{Env, Store, truthy, uuid_text}
use mission_control_platform.Usage.{UsageReport, recorded, record_usage}
use mission_control_platform.Budgets.{evaluate_budgets}
use mission_control_platform.Runs.Projection.{text_uuid, project_run_event}
use mission_control_platform.Runs.Steps.{int_value, project_run_step_event}

-- `EventEnvelopeV1`.
pub record EventEnvelope : Type 0 where
  pub event_id : String
  pub agent_key : String
  pub sequence : ℕ
  pub event_type : String
  pub occurred_at : String
  pub payload : Fields
  pub run_id : Option String
  pub project_id : Option String
  pub task_id : Option String
  pub trace_id : Option String
  pub client_version : Option String

-- `value.replace("Z", "+00:00")`.
unfoldable pub replace_z : String → String
replace_z String.[] = ""
replace_z (String.◌∷◌ c t) =
    let rest = replace_z t in if code c == 90 then str_append "+00:00" rest else String.◌∷◌ c rest

-- `_parse_dt`.
unfoldable pub parse_dt : Env → String → Option Time
unfolding replace_z
parse_dt env t = if str_eq t "" then none else env.time_of (replace_z t)

-- `_as_uuid` of a text, where the empty one is no identifier.
abbrev pub event_uuid : Env → Option String → Option Uuid
event_uuid env t = text_uuid env (truthy t)

-- `_project_run`.
unfoldable pub project_run : Env → Agent → EventEnvelope → Time → Store → Store
project_run env agent ev at s =
    if starts_with ev.event_type "run."
    then if starts_with ev.event_type "run.step."
      then project_run_step_event env agent ev.event_type ev.run_id ev.payload at s
      else project_run_event env agent ev.event_type ev.run_id ev.project_id ev.task_id ev.payload
          at s
    else s

-- `_int(value, default)`.
abbrev pub int_or : Env → ℤ → Json → ℤ
int_or env default null = default
int_or env default j = or_else (int_value env j) default

-- A value that goes into a text column.
abbrev pub text_column : Json → Result (Option String)
text_column null = ok none
text_column (str t) = ok (some t)
text_column j = err Error.not_a_text

-- What an event `usage.recorded` reports.
unfoldable pub usage_report : Env → Agent → EventEnvelope → Time → Result UsageReport
usage_report env agent ev at = text_column (get_value "provider" ev.payload) >>= λ provider.
    text_column (get_value "model" ev.payload) >>= λ model.
    text_column (get_value "pricing_version" ev.payload) >>= λ version. ok (record {
      agent_id = agent.id;
      source_event_id = ev.event_id;
      occurred_at = at;
      project_id = text_uuid env ev.project_id;
      run_id = text_uuid env ev.run_id;
      provider = provider;
      model = model;
      input_tokens = int_or env (pos 0) (get_value "input_tokens" ev.payload);
      output_tokens = int_or env (pos 0) (get_value "output_tokens" ev.payload);
      calls = int_or env (pos 1) (get_value "calls" ev.payload);
      pricing_version = version;
    })

-- The budgets are evaluated when a record is new.
abbrev pub after_usage :
    Env → Agent → EventEnvelope → Time → AgentUsageRecord × Bool × Store → Result Store
after_usage env agent ev at (r, false, s) = ok s
after_usage env agent ev at (r, true, s) =
    evaluate_budgets env agent.installation_id (some agent.id) (text_uuid env ev.project_id) at s
    >>= λ (evaluations, t). ok t

-- `_project_usage`. An event that has a record is not read any further.
unfoldable pub project_usage : Env → Agent → EventEnvelope → Time → Store → Result Store
unfolding usage_report
project_usage env agent ev at s =
    if is_some (recorded agent.installation_id ev.event_id s.usage)
    then ok s
    else usage_report env agent ev at >>= (λ report.
      record_usage env agent.installation_id report s >>= λ made. after_usage env agent ev at made)

-- `_topic_for_event`.
unfoldable pub topic_for_event : EventEnvelope → Agent → String
topic_for_event ev agent = elim (truthy ev.run_id) [
  | some t ↦ str_append "run:" t
  | none ↦
      if starts_with ev.event_type "agent."
      then str_append "agent:" (uuid_text agent.id)
      else elim (truthy ev.project_id) [ some t ↦ str_append "project:" t | none ↦ "fleet" ]
]
