-- ===== src/Budgets.antt =====
-- The budget engine, apps/api/agent_control/operations/budgets.py: which budgets an action falls
-- under, how much of each is used, the alerts at its thresholds and the gate of a submission.
pub mod Gate
pub mod Thresholds
pub mod Crud
use Prim.Native.String.{◌++◌ as str_append}
use mission_control_platform.Prelude.{
  ℕ, zero, suc, ◌+◌, ◌-◌, ◌*◌, String, Bool, true, false, ◌&&◌, Option, none, some, List, [], ◌∷◌,
  ◌++◌, ◌==◌, ltb, leb, opt_eq, is_some, select, if◌then◌else◌,
}
use mission_control_platform.Prelude.Int.{ℤ, pos, negsuc, ltb_ℤ, ◌*ℤ◌}
use mission_control_platform.Json.{Json, Fields, num, str, end, field}
use mission_control_platform.Errors.{Result, ok, err, ◌>>=◌}
use mission_control_platform.Rows.{
  Uuid, Time, Amount, Period, OnExceed, ScopeType, is_active, AgentBudget, AgentUsageRecord,
}
use mission_control_platform.Store.{Env, Store, uuid_text}
use mission_control_platform.Decimals.{decimal_text, nat_text}
use mission_control_platform.Policies.{scope_text}
use mission_control_platform.Usage.{consumption_for}
use mission_control_platform.Calendar.{day, midnight, weekday, day_of_month}
use mission_control_platform.Outbox.{emit_outbox}
use mission_control_platform.Alerts.{AlertRequest, open_alert}

-- `period_start`: any other period counts as monthly.
unfoldable pub period_start : Period → Time → Option Time
unfolding midnight weekday day_of_month
period_start Period.total now = none
period_start Period.daily now = some (midnight now)
period_start Period.weekly now = some (midnight now - weekday now * day)
period_start p now = some (midnight now - (day_of_month now - 1) * day)

-- `sorted({…})`: in order, and each once.
unfoldable pub insert_once : ℕ → List ℕ → List ℕ
insert_once t [] = t ∷ []
insert_once t (u ∷ us) =
    let rest = insert_once t us in
    if ltb t u then t ∷ u ∷ us else if t == u then u ∷ us else u ∷ rest

unfoldable pub sorted_set : List ℕ → List ℕ
unfolding insert_once
sorted_set [] = []
sorted_set (t ∷ ts) = insert_once t (sorted_set ts)

abbrev pub default_thresholds : List ℕ
default_thresholds = 50 ∷ 80 ∷ 100 ∷ []

-- `list(DEFAULT_THRESHOLDS)` as the column holds it.
abbrev pub stored_defaults : List ℤ
stored_defaults = pos 50 ∷ pos 80 ∷ pos 100 ∷ []

-- `values or defaults`.
abbrev pub or_default : {A : Type 0} → List A → List A → List A
or_default defaults [] = defaults
or_default defaults (t ∷ ts) = t ∷ ts

-- Those of the stored numbers that are percentages, from 1 to 100.
unfoldable pub percentages : List ℤ → List ℕ
percentages [] = []
percentages (negsuc n ∷ zs) = percentages zs
percentages (pos t ∷ zs) =
    let rest = percentages zs in if ltb 0 t && leb t 100 then t ∷ rest else rest

-- `_thresholds`. The JSON column holds integers, since `_validate` lets nothing else through.
unfoldable pub thresholds : AgentBudget → List ℕ
unfolding sorted_set percentages
thresholds b =
    or_default default_thresholds
      (sorted_set (percentages (or_default stored_defaults b.thresholds)))

unfoldable pub covers : ScopeType → Option Uuid → Option Uuid → Option Uuid → Bool
covers ScopeType.installation scope_id agent project = true
covers ScopeType.agent scope_id agent project = opt_eq scope_id agent && is_some agent
covers ScopeType.project scope_id agent project = opt_eq scope_id project && is_some project
covers (ScopeType.other t) scope_id agent project = false

-- `applicable_budgets`.
unfoldable pub applicable_budgets :
    List AgentBudget → Option Uuid → Option Uuid → Option Uuid → List AgentBudget
unfolding covers
applicable_budgets budgets inst agent project =
    select (λ b. covers b.scope_type b.scope_id agent project)
      (select (λ b. opt_eq b.installation_id inst && is_active b.status) budgets)

-- The consumption of a budget in the window of its period that holds the time.
unfoldable pub consumed : List AgentUsageRecord → AgentBudget → Time → Amount
unfolding period_start consumption_for
consumed usage b now =
    consumption_for usage b.installation_id b.scope_type b.scope_id (period_start b.period now)

-- `pct >= t`, where `pct` is the consumption divided by the limit, times 100, or 0 if the limit is
-- not positive. Both amounts have at most 20 digits, and a quotient of 28 digits tells such a
-- fraction from a whole percentage, so the comparison of the decimals is that of the products.
unfoldable pub reaches : Amount → Amount → ℕ → Bool
unfolding ◌*ℤ◌
reaches used limit t =
    if ltb_ℤ (pos 0) limit
    then if ltb_ℤ (pos 100 *ℤ used) (pos t *ℤ limit) then false else true
    else t == 0

-- `pct >= Decimal(100)`.
unfoldable pub exceeded : List AgentUsageRecord → Time → AgentBudget → Bool
unfolding consumed reaches
exceeded usage now b = reaches (consumed usage b now) b.amount_limit 100

-- `GATE_ALLOW | GATE_REQUIRE_APPROVAL | GATE_BLOCK`.
pub data GateBehavior : Type 0 where
  allow require_approval block : GateBehavior

pub record BudgetGateDecision : Type 0 where
  pub behavior : GateBehavior
  pub budget_id : Option Uuid
  pub consumed_amount : Option Amount
  pub limit : Option Amount

abbrev pub decided_by :
    GateBehavior → List AgentUsageRecord → Time → AgentBudget → BudgetGateDecision
decided_by g usage now b = record {
  behavior = g;
  budget_id = some b.id;
  consumed_amount = some (consumed usage b now);
  limit = some b.amount_limit;
}

-- The first decision that asks for an approval is kept.
abbrev pub stricter : BudgetGateDecision → BudgetGateDecision → BudgetGateDecision
stricter old new = elim (old.behavior) [ GateBehavior.allow ↦ new | _ ↦ old ]

abbrev pub is_block : OnExceed → Bool
is_block OnExceed.block_new_runs = true
is_block o = false

abbrev pub is_require : OnExceed → Bool
is_require OnExceed.require_approval = true
is_require o = false

-- The loop of `budget_gate`, with the strictest decision so far.
unfoldable pub gate_loop :
    List AgentUsageRecord → Time → BudgetGateDecision → List AgentBudget → BudgetGateDecision
unfolding exceeded
gate_loop usage now strictest [] = strictest
gate_loop usage now strictest (b ∷ bs) =
    let rest =
      gate_loop usage now
        (if exceeded usage now b && is_require b.on_exceed
          then stricter strictest (decided_by GateBehavior.require_approval usage now b)
          else strictest)
        bs in
    if exceeded usage now b && is_block b.on_exceed
    then decided_by GateBehavior.block usage now b
    else rest

abbrev pub gate_open : BudgetGateDecision
gate_open = record {
  behavior = GateBehavior.allow;
  budget_id = none;
  consumed_amount = none;
  limit = none;
}

unfoldable pub budget_gate :
    Store → Option Uuid → Option Uuid → Option Uuid → Time → BudgetGateDecision
unfolding gate_loop applicable_budgets
budget_gate s inst agent project now =
    gate_loop s.usage now gate_open (applicable_budgets s.budgets inst agent project)

abbrev pub on_exceed_text : OnExceed → String
on_exceed_text OnExceed.alert = "alert"
on_exceed_text OnExceed.require_approval = "require_approval"
on_exceed_text OnExceed.block_new_runs = "block_new_runs"
on_exceed_text (OnExceed.other t) = t

-- `_SEVERITY_BY_THRESHOLD.get(threshold, "warning")`.
unfoldable pub severity : ℕ → String
severity t =
    if t == 50
    then "info"
    else if t == 80
    then "warning"
    else if t == 100
    then "critical"
    else "warning"

unfoldable pub dedup_key : AgentBudget → ℕ → String
unfolding nat_text uuid_text
dedup_key b t =
    str_append "budget:" (str_append (uuid_text b.id) (str_append ":threshold:" (nat_text t)))

unfoldable pub threshold_alert : AgentBudget → Amount → ℕ → AlertRequest
unfolding dedup_key severity
threshold_alert b used t = record {
  alert_type = if leb 100 t then "budget_exceeded" else "budget_threshold";
  dedup_key = dedup_key b t;
  title =
      if leb 100 t
      then str_append "Budget dépassé (" (str_append (scope_text b.scope_type) ")")
      else str_append "Budget à "
          (str_append (nat_text t) (str_append "% (" (str_append (scope_text b.scope_type) ")")));
  severity = severity t;
  target_type = some "budget";
  target_id = some b.id;
  details = some (
      field "budget_id" (str (uuid_text b.id)) (
        field "threshold" (num (pos t)) (
          field "consumed" (str (decimal_text used)) (
            field "limit" (str (decimal_text b.amount_limit)) (
              field "currency" (str b.currency)
                (field "on_exceed" (str (on_exceed_text b.on_exceed)) end))))));
}

unfoldable pub threshold_payload : AgentBudget → Amount → ℕ → Fields
threshold_payload b used t = field "budget_id" (str (uuid_text b.id)) (
    field "threshold" (num (pos t)) (
      field "consumed" (str (decimal_text used)) (
        field "limit" (str (decimal_text b.amount_limit))
          (field "on_exceed" (str (on_exceed_text b.on_exceed)) end))))

-- After the alert of a threshold: an event, if the alert is new.
abbrev pub announce :
    Env → AgentBudget → Amount → ℕ → Bool → List ℕ → Store → Result (List ℕ × Store)
announce env b used t false crossed s = ok (crossed, s)
announce env b used t true crossed s =
    emit_outbox env b.installation_id
      (if leb 100 t then "budget.exceeded" else "budget.threshold_reached") "fleet"
      (threshold_payload b used t) s
    >>= λ u. ok (crossed ++ t ∷ [], u)

-- The loop over the thresholds of one budget, with those crossed so far.
unfoldable pub cross_thresholds :
    Env → AgentBudget → Amount → List ℕ → List ℕ → Store → Result (List ℕ × Store)
cross_thresholds env b used [] crossed s = ok (crossed, s)
cross_thresholds env b used (t ∷ ts) crossed s =
    let rest =
      open_alert env b.installation_id (threshold_alert b used t) s >>= λ (alert, created, u).
      announce env b used t created crossed u >>= λ (more, v).
      cross_thresholds env b used ts more v in
    let skip = cross_thresholds env b used ts crossed s in
    if reaches used b.amount_limit t then rest else skip

pub record BudgetEvaluation : Type 0 where
  pub budget_id : Uuid
  pub consumed_amount : Amount
  pub thresholds_crossed : List ℕ
  pub is_exceeded : Bool

-- `evaluate_budgets`, over the budgets that apply. It commits nothing.
unfoldable pub evaluate_each :
    Env → Time → List AgentBudget → Store → Result (List BudgetEvaluation × Store)
unfolding cross_thresholds
evaluate_each env now [] s = ok ([], s)
evaluate_each env now (b ∷ bs) s =
    let used = consumed s.usage b now in
    cross_thresholds env b used (thresholds b) [] s >>= λ (crossed, t).
    evaluate_each env now bs t >>= λ (evs, u). ok (
      record {
        budget_id = b.id;
        consumed_amount = used;
        thresholds_crossed = crossed;
        is_exceeded = reaches used b.amount_limit 100;
      }
          ∷ evs,
      u,
    )

unfoldable pub evaluate_budgets :
    Env
    → Option Uuid
    → Option Uuid
    → Option Uuid
    → Time
    → Store
    → Result (List BudgetEvaluation × Store)
unfolding evaluate_each applicable_budgets
evaluate_budgets env inst agent project now s =
    evaluate_each env now (applicable_budgets s.budgets inst agent project) s
