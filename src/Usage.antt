-- ===== src/Usage.antt =====
-- Consumption, apps/api/agent_control/operations/usage.py: its records, which one event makes once,
-- and the sums that budgets read. The counts of tokens are those that `_int` reads in the payload.
pub mod Recorded
use mission_control_platform.Prelude.{
  ℕ, ◌+◌, String, Bool, true, false, ◌&&◌, Option, none, some, List, [], ◌∷◌, ◌++◌, opt_eq, leb,
  ltb, find_first, select, str_eq, length,
}
use mission_control_platform.Prelude.Int.{ℤ, pos, ◌+ℤ◌}
use mission_control_platform.Json.{Json, Fields, num, str, end, field}
use mission_control_platform.Errors.{Result, ok, err, ◌>>=◌}
use mission_control_platform.Rows.{Uuid, Time, Amount, ScopeType, AgentUsageRecord}
use mission_control_platform.Store.{Env, Store, uuid_text, id_or_null}
use mission_control_platform.Pricing.{CostBreakdown, compute_cost}
use mission_control_platform.Decimals.{decimal_text}
use mission_control_platform.Outbox.{emit_outbox, run_topic}

-- What an event reports.
pub record UsageReport : Type 0 where
  pub agent_id : Uuid
  pub source_event_id : String
  pub occurred_at : Time
  pub project_id : Option Uuid
  pub run_id : Option Uuid
  pub provider : Option String
  pub model : Option String
  pub input_tokens : ℤ
  pub output_tokens : ℤ
  pub calls : ℤ
  pub pricing_version : Option String

-- The record of an event, by its key of idempotence.
abbrev pub recorded : Option Uuid → String → List AgentUsageRecord → Option AgentUsageRecord
recorded inst event =
    find_first (λ r. opt_eq r.installation_id inst && str_eq r.source_event_id event)

unfoldable pub new_record : Env → Option Uuid → UsageReport → Uuid → AgentUsageRecord
unfolding ◌+ℤ◌
new_record env inst report id =
    let breakdown =
      compute_cost env.unicode report.input_tokens report.output_tokens report.provider report.model
        report.pricing_version in
    record {
      id = id;
      installation_id = inst;
      agent_id = report.agent_id;
      project_id = report.project_id;
      run_id = report.run_id;
      provider = report.provider;
      model = report.model;
      input_tokens = report.input_tokens;
      output_tokens = report.output_tokens;
      total_tokens = report.input_tokens +ℤ report.output_tokens;
      calls = report.calls;
      currency = breakdown.currency;
      cost = breakdown.cost;
      pricing_version = breakdown.pricing_version;
      source_event_id = report.source_event_id;
      occurred_at = report.occurred_at;
    }

unfoldable pub usage_payload : AgentUsageRecord → Fields
unfolding decimal_text
usage_payload r = field "usage_id" (str (uuid_text r.id)) (
    field "agent_id" (str (uuid_text r.agent_id)) (
      field "run_id" (id_or_null r.run_id) (
        field "cost" (str (decimal_text r.cost)) (
          field "currency" (str r.currency) (
            field "total_tokens" (num r.total_tokens)
              (field "pricing_version" (str r.pricing_version) end))))))

abbrev pub add_record :
    Env
    → Option Uuid
    → UsageReport
    → Store
    → Option AgentUsageRecord
    → Result (AgentUsageRecord × Bool × Store)
add_record env inst report s (some existing) = ok (existing, false, s)
add_record env inst report s none =
    let r = new_record env inst report s.next_id in
    emit_outbox env inst "usage.recorded" (run_topic r.run_id r.agent_id) (usage_payload r)
      (record s { usage = s.usage ++ r ∷ []; next_id = s.next_id + 1 })
    >>= λ t. ok (r, true, t)

-- `record_usage`. It commits nothing.
unfoldable pub record_usage :
    Env → Option Uuid → UsageReport → Store → Result (AgentUsageRecord × Bool × Store)
record_usage env inst report s =
    add_record env inst report s (recorded inst report.source_event_id s.usage)

abbrev pub since_ok : Option Time → AgentUsageRecord → Bool
since_ok none r = true
since_ok (some t) r = leb t r.occurred_at

-- The filter of `consumption_for` on the scope: a scope without an identifier filters nothing.
unfoldable pub in_scope : ScopeType → Option Uuid → AgentUsageRecord → Bool
in_scope ScopeType.project (some i) r = opt_eq r.project_id (some i)
in_scope ScopeType.agent (some i) r = opt_eq (some r.agent_id) (some i)
in_scope t i r = true

unfoldable pub sum_costs : List AgentUsageRecord → Amount
unfolding ◌+ℤ◌
sum_costs [] = pos 0
sum_costs (r ∷ rs) = r.cost +ℤ sum_costs rs

-- `consumption_for`, with no upper bound of time, as the budgets call it.
unfoldable pub consumption_for :
    List AgentUsageRecord → Option Uuid → ScopeType → Option Uuid → Option Time → Amount
unfolding in_scope sum_costs
consumption_for usage inst scope_type scope_id since = sum_costs (
    select
      (λ r. (opt_eq r.installation_id inst && in_scope scope_type scope_id r) && since_ok since r)
      usage)
