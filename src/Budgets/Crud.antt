-- ===== src/Budgets/Crud.antt =====
-- The creation, the change and the reading of budgets,
-- apps/api/agent_control/operations/budgets.py.
pub mod Checks
pub mod Limits
pub mod Valid
use mission_control_platform.Prelude.{
  ℕ, zero, suc, ◌+◌, ◌*◌, ◌/◌, ◌^◌, String, Bool, true, false, not, ◌&&◌, Option, none, some, List,
  [], ◌∷◌, ◌++◌, ◌==◌, max, min, ltb, leb, opt_eq, is_some, or_else, find_first, map, select,
  sort_by, str_eq, take, update_where, if◌then◌else◌,
}
use mission_control_platform.Prelude.Int.{ℤ, pos, negsuc, ltb_ℤ}
use mission_control_platform.Json.{Json, Items, Fields, nil, cons, num, str, arr, end, field}
use mission_control_platform.Errors.{Result, Error, ok, err, ◌>>=◌, ◌>>◌}
use mission_control_platform.Access.{HostContext}
use mission_control_platform.Rows.{
  Uuid, Amount, Period, OnExceed, ScopeType, RowStatus, AgentBudget,
}
use mission_control_platform.Store.{
  Env, Store, Service, RawId, as_uuid, tenant, truthy, with_ok, or_not_found, uuid_text,
}
use mission_control_platform.Audit.{audit_from_context}
use mission_control_platform.Decimals.{decimal_text}
use mission_control_platform.Policies.{scope_text}
use mission_control_platform.Budgets.{stored_defaults, or_default, on_exceed_text}

-- A finite decimal of any number of places, with the text that `str` gives for it: its value is the
-- coefficient divided by ten to the number of places.
pub record DecimalIn : Type 0 where
  pub coefficient : ℤ
  pub places : ℕ
  pub text : String

-- A magnitude in units of the eighth place, a half rounded away from zero.
unfoldable pub units : ℕ → ℕ → ℕ
units coefficient places = (2 * coefficient * 10 ^ 8 + 10 ^ places) / (2 * 10 ^ places)

abbrev negated : ℕ → ℤ
negated zero = pos 0
negated (suc n) = negsuc n

abbrev pub in_column : (ℕ → ℤ) → ℕ → Result Amount
in_column signed n = if ltb n (10 ^ 20) then ok (signed n) else err Error.outside_column

-- What the column `Numeric(20, 8)` holds of a decimal: it is rounded to eight places, and one with more
-- than twelve digits before the point is refused.
unfoldable pub numeric_column : DecimalIn → Result Amount
unfolding units
numeric_column d = elim d.coefficient [
  | pos k ↦ in_column pos (units k d.places)
  | negsuc k ↦ in_column negated (units (suc k) d.places)
]

pub record BudgetCreate : Type 0 where
  pub scope_type : ScopeType
  pub scope_id : Option Uuid
  pub period : Period
  pub currency : String
  pub amount_limit : DecimalIn
  pub thresholds : Option (List ℤ)
  pub on_exceed : OnExceed
  pub description : Option String

pub record BudgetUpdate : Type 0 where
  pub version : ℕ
  pub amount_limit : Option DecimalIn
  pub thresholds : Option (List ℤ)
  pub on_exceed : Option OnExceed
  pub period : Option Period
  pub status : Option RowStatus
  pub description : Option String

-- `BUDGET_SCOPES`, `BUDGET_PERIODS` and `ON_EXCEED`.
abbrev pub known_scope : ScopeType → Bool
known_scope (ScopeType.other t) = false
known_scope scope = true

abbrev pub known_period : Period → Bool
known_period (Period.other t) = false
known_period period = true

abbrev pub known_on_exceed : OnExceed → Bool
known_on_exceed (OnExceed.other t) = false
known_on_exceed behavior = true

abbrev pub check : Bool → Result (Unit {0})
check true = ok tt
check false = err Error.validation_failed

-- The test on a value that is not `None`.
abbrev pub check_given : {A : Type 0} → (A → Bool) → Option A → Result (Unit {0})
check_given known none = ok tt
check_given known (some a) = check (known a)

abbrev pub threshold : ℤ → Result ℤ
threshold (negsuc n) = err Error.validation_failed
threshold (pos n) = if ltb 0 n && leb n 100 then ok (pos n) else err Error.validation_failed

unfoldable pub all_thresholds : List ℤ → Result (List ℤ)
all_thresholds [] = ok []
all_thresholds (z ∷ zs) =
    let rest = all_thresholds zs in threshold z >>= λ n. rest >>= λ ns. ok (n ∷ ns)

abbrev pub given_thresholds : Option (List ℤ) → Result (Option (List ℤ))
given_thresholds none = ok none
given_thresholds (some zs) = all_thresholds zs >>= λ ns. ok (some ns)

-- `_validate`, which hands on the thresholds that it has found valid.
unfoldable pub validate :
    Option ScopeType → Option Period → Option OnExceed → Option (List ℤ) → Result (Option (List ℤ))
unfolding all_thresholds
validate scope_type period on_exceed thresholds =
    check_given known_scope scope_type
    >> check_given known_period period
    >> check_given known_on_exceed on_exceed
    >> given_thresholds thresholds

abbrev pub needs_id : ScopeType → Bool
needs_id ScopeType.agent = true
needs_id ScopeType.project = true
needs_id scope = false

-- The sign of a decimal is that of its coefficient.
abbrev pub is_positive : DecimalIn → Bool
is_positive d = ltb_ℤ (pos 0) d.coefficient

-- The tests of a creation.
unfoldable pub check_create : BudgetCreate → Result (Option (List ℤ))
unfolding validate
check_create body =
    validate (some body.scope_type) (some body.period) (some body.on_exceed) body.thresholds
    >>= λ thresholds.
        check (not (needs_id body.scope_type && not (is_some body.scope_id)))
        >> check (is_positive body.amount_limit)
        >> ok thresholds

unfoldable pub new_budget :
    Env → HostContext → BudgetCreate → Option (List ℤ) → Amount → Uuid → AgentBudget
new_budget env ctx body thresholds limit id = record {
  id = id;
  installation_id = tenant ctx;
  scope_type = body.scope_type;
  scope_id = body.scope_id;
  period = body.period;
  currency = if str_eq body.currency "" then "USD" else body.currency;
  amount_limit = limit;
  thresholds = or_default stored_defaults (or_else thresholds []);
  on_exceed = body.on_exceed;
  status = RowStatus.active;
  description = body.description;
  version = 1;
  created_by = ctx.user.local_user_id;
  created_at = env.now;
}

abbrev pub period_text : Period → String
period_text Period.daily = "daily"
period_text Period.weekly = "weekly"
period_text Period.monthly = "monthly"
period_text Period.total = "total"
period_text (Period.other t) = t

-- `create_budget`. The flush writes the limit into its column.
unfoldable pub create_budget :
    Env → HostContext → BudgetCreate → Option String → Service AgentBudget
unfolding check_create numeric_column new_budget
create_budget env ctx body ip s = with_ok (check_create body) s λ thresholds.
    with_ok (numeric_column body.amount_limit) s λ limit.
      let b = new_budget env ctx body thresholds limit s.next_id in
      (
        ok b,
        audit_from_context env ctx
            (record {
              action = "budget.created";
              target_type = some "budget";
              target_id = some (uuid_text b.id);
              before = none;
              after = some (
                  field "scope_type" (str (scope_text b.scope_type)) (
                    field "period" (str (period_text b.period)) (
                      field "amount_limit" (str body.amount_limit.text)
                        (field "on_exceed" (str (on_exceed_text b.on_exceed)) end))));
              ip = ip;
              metadata = none;
            })
            (record s { budgets = s.budgets ++ b ∷ []; next_id = s.next_id + 1 }),
      )

abbrev pub budget_by_id : Option Uuid → HostContext → Store → Option AgentBudget
budget_by_id none ctx s = none
budget_by_id (some bid) ctx s =
    find_first (λ b. (b.id == bid) && opt_eq b.installation_id (tenant ctx)) s.budgets

-- `_get_in_scope`, and `get_budget`.
unfoldable pub get_budget : HostContext → RawId → Store → Result AgentBudget
get_budget ctx budget_id s = or_not_found (budget_by_id (as_uuid budget_id) ctx s)

-- What the column of the limit holds after a change.
abbrev pub new_limit : Option DecimalIn → Amount → Result Amount
new_limit none old = ok old
new_limit (some d) old = numeric_column d

abbrev limit_text : Option DecimalIn → Amount → String
limit_text none old = decimal_text old
limit_text (some d) old = d.text

abbrev pub positive_limit : Option DecimalIn → Bool
positive_limit none = true
positive_limit (some d) = is_positive d

-- The tests of a change, the version first.
unfoldable pub check_update : BudgetUpdate → AgentBudget → Result (Option (List ℤ))
unfolding validate
check_update body b =
    if b.version == body.version
    then (validate none body.period body.on_exceed body.thresholds >>= λ thresholds.
        check (positive_limit body.amount_limit) >> ok thresholds)
    else err Error.state_conflict

abbrev or_old : Option String → Option String → Option String
or_old none old = old
or_old (some t) old = some t

unfoldable pub apply_update : BudgetUpdate → Option (List ℤ) → Amount → AgentBudget → AgentBudget
apply_update body thresholds limit b = record b {
  amount_limit = limit;
  thresholds = or_else thresholds b.thresholds;
  on_exceed = or_else body.on_exceed b.on_exceed;
  period = or_else body.period b.period;
  status = or_else body.status b.status;
  description = or_old body.description b.description;
  version = b.version + 1;
}

abbrev numbers : List ℤ → Items
numbers [] = nil
numbers (n ∷ ns) = cons (num n) (numbers ns)

abbrev row_status_text : RowStatus → String
row_status_text RowStatus.active = "active"
row_status_text RowStatus.disabled = "disabled"
row_status_text (RowStatus.other t) = t

-- What an audit line of a change shows of a budget.
unfoldable pub snapshot : String → AgentBudget → Fields
snapshot limit b = field "amount_limit" (str limit) (
    field "on_exceed" (str (on_exceed_text b.on_exceed)) (
      field "status" (str (row_status_text b.status))
        (field "thresholds" (arr (numbers b.thresholds)) end)))

-- `update_budget`.
unfoldable pub update_budget :
    Env → HostContext → RawId → BudgetUpdate → Option String → Service AgentBudget
unfolding get_budget check_update numeric_column apply_update
update_budget env ctx budget_id body ip s = with_ok (get_budget ctx budget_id s) s λ old.
    with_ok (check_update body old) s λ thresholds.
      with_ok (new_limit body.amount_limit old.amount_limit) s λ limit.
        let b = apply_update body thresholds limit old in
        (
          ok b,
          audit_from_context env ctx
              (record {
                action = "budget.updated";
                target_type = some "budget";
                target_id = some (uuid_text b.id);
                before = some (snapshot (decimal_text old.amount_limit) old);
                after = some (snapshot (limit_text body.amount_limit old.amount_limit) b);
                ip = ip;
                metadata = none;
              })
              (record s { budgets = update_where (λ x. x.id == old.id) (λ x. b) s.budgets }),
        )

-- `list_budgets`, the latest first.
unfoldable pub list_budgets : HostContext → ℕ → Store → List AgentBudget
list_budgets ctx limit s = take (max 1 (min limit 200)) (
    sort_by (λ a b. ltb b.created_at a.created_at)
      (select (λ b. opt_eq b.installation_id (tenant ctx)) s.budgets))
