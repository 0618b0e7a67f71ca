-- ===== src/Examples/Accounts.antt =====
-- Examples of the consumption, its prices and its budgets, and tests of the texts and dates.
use mission_control_platform.Prelude.{
  ◌++◌, ℕ, ◌≡◌, ◌≢◌, ◌*◌, ◌+◌, ◌<◌, refl, Bool, true, false, ◌&&◌, none, some, [], ◌∷◌, any_of,
  opt_eq, if◌then◌else◌, arith,
}
use mission_control_platform.Prelude.Int.{pos, negsuc, ◌+ℤ◌}
use mission_control_platform.Json.{str}
use mission_control_platform.Redaction.{redacted}
use mission_control_platform.Errors.{Result, ok}
use mission_control_platform.Rows.{
  ScopeType, RowStatus, Period, OnExceed, AgentBudget, AgentUsageRecord,
}
use mission_control_platform.Store.{Store}
use mission_control_platform.Outbox.{get_field, emit_outbox}
use mission_control_platform.Decimals.{decimal_text}
use mission_control_platform.Calendar.{day, day_of_month, weekday}
use mission_control_platform.Pricing.{compute_cost}
use mission_control_platform.Pricing.Costs.{cost_additive, cost_never_zero}
use mission_control_platform.Usage.{
  UsageReport, new_record, record_usage, consumption_for, in_scope, since_ok,
}
use mission_control_platform.Usage.Recorded.{
  record_usage_idem, consumption_grows, usage_event_hides_tokens,
}
use mission_control_platform.Alerts.{AlertRequest, new_alert, open_alert, find_active_alert}
use mission_control_platform.Alerts.Dedup.{open_alert_idem}
use mission_control_platform.Rows.{AgentAlert, OutboxEvent}
use mission_control_platform.Budgets.{GateBehavior, budget_gate, applicable_budgets, thresholds}
use mission_control_platform.Budgets.Gate.{blocks, requires, budget_gate_behavior}
use mission_control_platform.Budgets.Thresholds.{IncreasesFrom, thresholds_increase}
use mission_control_platform.Examples.{ascii, env, start}

abbrev report : UsageReport
report = record {
  agent_id = 7;
  source_event_id = "event";
  occurred_at = 900;
  project_id = none;
  run_id = some 5;
  provider = some "anthropic";
  model = none;
  input_tokens = pos 1000;
  output_tokens = pos 200;
  calls = pos 1;
  pricing_version = none;
}

abbrev budget : AgentBudget
budget = record {
  id = 30;
  installation_id = some 1;
  scope_type = ScopeType.installation;
  scope_id = none;
  period = Period.total;
  currency = "USD";
  amount_limit = pos 1;
  thresholds = pos 80 ∷ negsuc 4 ∷ pos 50 ∷ pos 80 ∷ [];
  on_exceed = OnExceed.block_new_runs;
  status = RowStatus.active;
  description = none;
  version = 1;
  created_by = none;
  created_at = 10;
}

abbrev row : AgentUsageRecord
row = new_record env (some 1) report 100

abbrev stored : Result (AgentUsageRecord × Bool × Store) → Store
stored (ok r) = r.2
stored e = start

abbrev counted : Store
counted = stored (record_usage env (some 1) report start)

cost_additive_example :
    (compute_cost ascii (pos 7) (pos 2) (some "anthropic") none none).cost
    ≡ (compute_cost ascii (pos 5) (pos 0) (some "anthropic") none none).cost
      +ℤ (compute_cost ascii (pos 2) (pos 2) (some "anthropic") none none).cost
unfolding ◌+ℤ◌
cost_additive_example =
    cost_additive ascii (pos 5) (pos 2) (pos 0) (pos 2) (some "anthropic") none none

cost_never_zero_example :
    (c : ℕ) × ((compute_cost ascii (pos 1) (pos 0) none none none).cost ≡ pos c) × (0 < c)
cost_never_zero_example = cost_never_zero ascii 1 0 none none none (omega arith)

usage_event_hides_tokens_example :
    (o : OutboxEvent) × (counted.outbox ≡ start.outbox ++ o ∷ [])
    × (o.event_type ≡ "usage.recorded")
    × (o.installation_id ≡ some 1)
    × (get_field "total_tokens" o.payload ≡ some (str redacted))
unfolding record_usage emit_outbox
usage_event_hides_tokens_example =
    usage_event_hides_tokens env (some 1) report start counted row refl

budget_gate_behavior_example :
    (budget_gate (record start { budgets = budget ∷ [] }) (some 1) (some 7) none 1000).behavior ≡ (
      if any_of (blocks [] 1000) (applicable_budgets (budget ∷ []) (some 1) (some 7) none)
      then GateBehavior.block
      else if any_of (requires [] 1000) (applicable_budgets (budget ∷ []) (some 1) (some 7) none)
      then GateBehavior.require_approval
      else GateBehavior.allow)
budget_gate_behavior_example =
    budget_gate_behavior (record start { budgets = budget ∷ [] }) (some 1) (some 7) none 1000

thresholds_increase_example : IncreasesFrom 0 (thresholds budget) × (thresholds budget ≢ [])
thresholds_increase_example = thresholds_increase budget

decimal_text_tests :
    (decimal_text (pos 1234500000) ≡ "12.34500000")
    × (decimal_text (negsuc 999) ≡ "-0.00001000")
    × (decimal_text (pos 0) ≡ "0E-8")
    × (decimal_text (pos 12) ≡ "1.2E-7")
unfolding decimal_text
decimal_text_tests = (refl, refl, refl, refl)

-- 1970-01-01, 2000-02-29, 2000-03-01, 2024-12-31 and 2026-07-01.
day_of_month_tests :
    (day_of_month 0 ≡ 1)
    × (day_of_month (11016 * day) ≡ 29)
    × (day_of_month (11017 * day) ≡ 1)
    × (day_of_month (20088 * day + 5) ≡ 31)
    × (day_of_month (20635 * day) ≡ 1)
unfolding day_of_month
day_of_month_tests = (refl, refl, refl, refl, refl)

weekday_tests : (weekday (20635 * day) ≡ 2) × (weekday (11016 * day) ≡ 1)
unfolding weekday
weekday_tests = (refl, refl)

record_usage_idem_example : record_usage env (some 1) report counted ≡ ok (row, false, counted)
unfolding record_usage emit_outbox
record_usage_idem_example =
    record_usage_idem env (some 1) report report start counted row true refl refl

consumption_grows_example :
    consumption_for counted.usage (some 1) ScopeType.installation none none
    ≡ consumption_for [] (some 1) ScopeType.installation none none
      +ℤ (if true
            && ((opt_eq row.installation_id (some 1) && in_scope ScopeType.installation none row)
                && since_ok none row)
          then row.cost
          else pos 0)
unfolding record_usage emit_outbox
consumption_grows_example =
    consumption_grows env (some 1) (some 1) report start counted row true ScopeType.installation
      none none refl

abbrev request : AlertRequest
request = record {
  alert_type = "budget_threshold";
  dedup_key = "budget:30:80";
  title = "Budget";
  severity = "warning";
  target_type = some "budget";
  target_id = some 30;
  details = none;
}

abbrev alert : AgentAlert
alert = new_alert env (some 1) request 100

abbrev with_alert : Result (AgentAlert × Bool × Store) → Store
with_alert (ok r) = r.2
with_alert e = start

open_alert_idem_example :
    open_alert env
      (some 1)
      (record request { severity = "critical" })
      (with_alert (open_alert env (some 1) request start))
    ≡ ok (alert, false, with_alert (open_alert env (some 1) request start))
unfolding open_alert find_active_alert emit_outbox
open_alert_idem_example =
    open_alert_idem env env (some 1) request (record request { severity = "critical" }) start
      (with_alert (open_alert env (some 1) request start)) alert true refl refl
