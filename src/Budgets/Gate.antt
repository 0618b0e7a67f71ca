-- ===== src/Budgets/Gate.antt =====
-- The gate of a submission in apps/api/agent_control/operations/budgets.py.
use mission_control_platform.Prelude.{
  ◌≡◌, refl, ◌∙◌, Bool, ◌&&◌, Option, List, [], ◌∷◌, any_of, if◌then◌else◌, Bool-cases, inl, inr,
  arith,
}
use mission_control_platform.Rows.{Uuid, Time, AgentBudget, AgentUsageRecord}
use mission_control_platform.Store.{Store}
use mission_control_platform.Budgets.{
  GateBehavior, BudgetGateDecision, applicable_budgets, exceeded, is_block, is_require, stricter,
  decided_by, gate_loop, gate_open, budget_gate,
}

-- A budget that is used up and blocks, and one that is used up and asks for an approval.
abbrev pub blocks : List AgentUsageRecord → Time → AgentBudget → Bool
blocks usage now b = exceeded usage now b && is_block b.on_exceed

abbrev pub requires : List AgentUsageRecord → Time → AgentBudget → Bool
requires usage now b = exceeded usage now b && is_require b.on_exceed

abbrev after_require : GateBehavior → GateBehavior
after_require GateBehavior.allow = GateBehavior.require_approval
after_require g = g

behavior-stricter :
    (old new : BudgetGateDecision)
    → new.behavior ≡ GateBehavior.require_approval
    → (stricter old new).behavior ≡ after_require old.behavior
behavior-stricter old new h = ground arith

after_require_idem : (g : GateBehavior) → after_require (after_require g) ≡ after_require g
after_require_idem GateBehavior.allow = refl
after_require_idem g = refl

gate_loop_behavior :
    (usage : List AgentUsageRecord) (now : Time) (strictest : BudgetGateDecision)
    (bs : List AgentBudget)
    → (gate_loop usage now strictest bs).behavior ≡ (
        if any_of (blocks usage now) bs
        then GateBehavior.block
        else if any_of (requires usage now) bs
        then after_require strictest.behavior
        else strictest.behavior)
unfolding gate_loop
gate_loop_behavior usage now strictest [] = refl
gate_loop_behavior usage now strictest (b ∷ bs) = elim (Bool-cases (blocks usage now b)) [
  | inl k ↦ rw k
  | inr k ↦ elim (Bool-cases (requires usage now b)) [
    | inl q ↦
        rw (k, q)
          (gate_loop_behavior usage now
              (stricter strictest (decided_by GateBehavior.require_approval usage now b)) bs
            ∙ ground (
              arith,
              behavior-stricter strictest (decided_by GateBehavior.require_approval usage now b)
                  refl,
              after_require_idem strictest.behavior,
            ))
    | inr q ↦ rw (k, q) (gate_loop_behavior usage now strictest bs)
  ]
]

-- The gate blocks exactly if some budget that covers the action is used up and blocks; otherwise it
-- asks for an approval exactly if some such budget asks for one; otherwise it lets the action
-- through. The order in which the budgets are read does not matter to that.
pub budget_gate_behavior :
    (s : Store) (inst agent project : Option Uuid) (now : Time)
    → (budget_gate s inst agent project now).behavior ≡ (
        if any_of (blocks s.usage now) (applicable_budgets s.budgets inst agent project)
        then GateBehavior.block
        else if any_of (requires s.usage now) (applicable_budgets s.budgets inst agent project)
        then GateBehavior.require_approval
        else GateBehavior.allow)
unfolding budget_gate
budget_gate_behavior s inst agent project now =
    gate_loop_behavior s.usage now gate_open (applicable_budgets s.budgets inst agent project)
