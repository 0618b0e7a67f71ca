-- ===== src/Budgets/Crud/Valid.antt =====
-- What apps/api/agent_control/operations/budgets.py keeps true of the table of budgets.
use mission_control_platform.Prelude.{
  ℕ, ◌≡◌, true, Option, none, some, List, ◌==◌, All, All-append, All-update_where, All-find_first,
  is_some, or_else, String,
}
use mission_control_platform.Prelude.Int.{ℤ, pos, ◌≤ℤ◌}
use mission_control_platform.Access.{HostContext}
use mission_control_platform.Rows.{Uuid, Amount, AgentBudget}
use mission_control_platform.Audit.{audit_from_context, write_audit}
use mission_control_platform.Store.{Env, Store, RawId, as_uuid}
use mission_control_platform.Store.Keeps.{Ensures, ensures, with_ok-Ensures, or_not_found-eq-ok}
use mission_control_platform.Budgets.Crud.{
  BudgetCreate, BudgetUpdate, numeric_column, known_scope, known_period, known_on_exceed, needs_id,
  check_create, new_budget, create_budget, budget_by_id, get_budget, new_limit, check_update,
  apply_update, update_budget,
}
use mission_control_platform.Budgets.Crud.Checks.{
  IsPercentage, Given, Accepted, Changeable, check_create-Accepted, check_update-Changeable,
}
use mission_control_platform.Budgets.Crud.Limits.{RoundsTo, numeric_column-least, new_limit-least}

-- A budget that the engine can evaluate: its scope, period and behaviour are known, a scope that
-- needs an identifier has one, its limit is at least some number of units of the eighth place and its
-- thresholds are percentages.
abbrev pub IsValid : ℕ → AgentBudget → Type 0
IsValid least b =
    (known_scope b.scope_type ≡ true)
    × (known_period b.period ≡ true)
    × (known_on_exceed b.on_exceed ≡ true)
    × (needs_id b.scope_type ≡ true → is_some b.scope_id ≡ true)
    × (pos least ≤ℤ b.amount_limit)
    × All IsPercentage b.thresholds

new_budget-IsValid :
    (env : Env) (ctx : HostContext) (body : BudgetCreate) (least : ℕ) (ts : Option (List ℤ))
    (a : Amount) (id : Uuid)
    → Accepted body ts
    → pos least ≤ℤ a
    → IsValid least (new_budget env ctx body ts a id)
unfolding new_budget
new_budget-IsValid env ctx body least ts a id (scope, period, behavior, known, sign, percent) h =
    (scope, period, behavior, known, h, percent)

-- A value that is given, and otherwise the old one.
or_else-kept :
    {A : Type 0} (P : A → Type 0) (o : Option A) (old : A) → Given P o → P old → P (or_else o old)
or_else-kept P none old h k = k
or_else-kept P (some a) old h k = h

apply_update-IsValid :
    (body : BudgetUpdate) (least : ℕ) (ts : Option (List ℤ)) (a : Amount) (b : AgentBudget)
    → Changeable body ts
    → pos least ≤ℤ a
    → IsValid least b
    → IsValid least (apply_update body ts a b)
unfolding apply_update
apply_update-IsValid body least ts a b (p, o, sign, t) h
      (scope, period, behavior, id, limit, thresholds) =
    (
      scope,
      or_else-kept (λ x. known_period x ≡ true) body.period b.period p period,
      or_else-kept (λ x. known_on_exceed x ≡ true) body.on_exceed b.on_exceed o behavior,
      id,
      h,
      or_else-kept (All IsPercentage) ts b.thresholds t thresholds,
    )

get_budget-IsValid :
    (ctx : HostContext) (least : ℕ) (i : RawId) (s : Store)
    → All (IsValid least) s.budgets
    → Ensures (IsValid least) (get_budget ctx i s)
unfolding get_budget
get_budget-IsValid ctx least i s h =
    ensures (IsValid least) (get_budget ctx i s)
      λ b e. by_id (as_uuid i) b (or_not_found-eq-ok _ b e)
  where
    by_id : (o : Option ℕ) (b : AgentBudget) → budget_by_id o ctx s ≡ some b → IsValid least b
    by_id none b e = cc
    by_id (some bid) b e = All-find_first (IsValid least) _ s.budgets b e h

abbrev pub AllValid : ℕ → Store → Type 0
AllValid least s = All (IsValid least) s.budgets

create_budget-AllValid :
    (env : Env) (ctx : HostContext) (least : ℕ) (body : BudgetCreate) (ip : Option String)
    (s : Store)
    → RoundsTo least body.amount_limit
    → AllValid least s
    → AllValid least (create_budget env ctx body ip s).1
unfolding create_budget audit_from_context write_audit
create_budget-AllValid env ctx least body ip s big h =
    with_ok-Ensures (Accepted body) (AllValid least) (check_create body) s _ h
      (check_create-Accepted body)
      λ ts fine.
        with_ok-Ensures (λ a. pos least ≤ℤ a) (AllValid least) (numeric_column body.amount_limit) s
          _ h (numeric_column-least least body.amount_limit fine.4 big)
          λ a l.
            All-append (IsValid least) s.budgets _ h
              (new_budget-IsValid env ctx body least ts a s.next_id fine l, tt)

update_budget-AllValid :
    (env : Env) (ctx : HostContext) (least : ℕ) (i : RawId) (body : BudgetUpdate)
    (ip : Option String) (s : Store)
    → Given (RoundsTo least) body.amount_limit
    → AllValid least s
    → AllValid least (update_budget env ctx i body ip s).1
unfolding update_budget audit_from_context write_audit
update_budget-AllValid env ctx least i body ip s big h =
    with_ok-Ensures (IsValid least) (AllValid least) (get_budget ctx i s) s _ h
      (get_budget-IsValid ctx least i s h)
      λ old valid.
        with_ok-Ensures (Changeable body) (AllValid least) (check_update body old) s _ h
          (check_update-Changeable body old)
          λ ts fine.
            with_ok-Ensures (λ a. pos least ≤ℤ a) (AllValid least)
              (new_limit body.amount_limit old.amount_limit) s _ h
              (new_limit-least least body.amount_limit old.amount_limit fine.2 big valid.4)
              λ a l.
                All-update_where (IsValid least) (λ x. x.id == old.id) _ s.budgets
                  (λ x e k. apply_update-IsValid body least ts a old fine l valid) h

-- Creation and change of budgets keep every budget valid: its scope, period and behaviour known, a
-- scope that needs an identifier given one, its thresholds percentages, and its limit, as its column
-- rounds it, at least some number of units of the eighth place, if the limits that the requests give
-- round to at least this number. For the number 0 this asks nothing of the requests, and keeps limits
-- from being negative; for 1 it asks that a limit that is given does not round to 0, and keeps limits
-- positive.
pub crud-AllValid :
    (env : Env) (ctx : HostContext) (least : ℕ) (i : RawId) (create : BudgetCreate)
    (change : BudgetUpdate) (ip : Option String) (s : Store)
    → RoundsTo least create.amount_limit
    → Given (RoundsTo least) change.amount_limit
    → AllValid least s
    → AllValid least (create_budget env ctx create ip s).1
      × AllValid least (update_budget env ctx i change ip s).1
crud-AllValid env ctx least i create change ip s big larger h = (
  create_budget-AllValid env ctx least create ip s big h,
  update_budget-AllValid env ctx least i change ip s larger h,
)
