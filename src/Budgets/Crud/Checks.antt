-- ===== src/Budgets/Crud/Checks.antt =====
-- What the checks of a creation and of a change of a budget,
-- apps/api/agent_control/operations/budgets.py, let through.
use mission_control_platform.Prelude.{
  ℕ, ◌≡◌, refl, inl, inr, Bool, true, false, not, ◌&&◌, Option, none, some, List, [], ◌∷◌, ◌==◌,
  All, Bool-cases, is_some, leb, ltb, or_else, arith,
}
use mission_control_platform.Prelude.Int.{ℤ, pos, negsuc, ◌≤ℤ◌}
use mission_control_platform.Errors.{Result, ok, err, ◌>>◌}
use mission_control_platform.Rows.{Period, OnExceed, ScopeType, AgentBudget}
use mission_control_platform.Store.Keeps.{Ensures, Ensures->>=, Ensures-weaken}
use mission_control_platform.Budgets.{or_default, stored_defaults}
use mission_control_platform.Budgets.Crud.{
  BudgetCreate, BudgetUpdate, known_scope, known_period, known_on_exceed, check, check_given,
  threshold, all_thresholds, given_thresholds, validate, needs_id, is_positive, check_create,
  positive_limit, check_update,
}

abbrev pub IsPercentage : ℤ → Type 0
IsPercentage z = (pos 1 ≤ℤ z) × (z ≤ℤ pos 100)

check-true : (b : Bool) → Ensures (λ u. b ≡ true) (check b)
check-true true = refl
check-true false = tt

threshold-IsPercentage : (z : ℤ) → Ensures IsPercentage (threshold z)
threshold-IsPercentage (negsuc n) = tt
threshold-IsPercentage (pos n) = elim (Bool-cases (ltb 0 n && leb n 100)) [
  | inl e ↦ rw e (bounds n e)
  | inr e ↦ rw e tt
]
  where
    bounds : (n : ℕ) → (ltb 0 n && leb n 100) ≡ true → IsPercentage (pos n)
    bounds n h = ground arith

all_thresholds-IsPercentage : (zs : List ℤ) → Ensures (All IsPercentage) (all_thresholds zs)
unfolding all_thresholds
all_thresholds-IsPercentage [] = tt
all_thresholds-IsPercentage (z ∷ zs) =
    Ensures->>= IsPercentage (All IsPercentage) (threshold z) _ (threshold-IsPercentage z) λ n h.
      Ensures->>= (All IsPercentage) (All IsPercentage) (all_thresholds zs) _
        (all_thresholds-IsPercentage zs) λ ns hs. (h, hs)

-- What holds of a value that was given, if one was.
abbrev pub Given {ℓ} : {A : Type ℓ} → (A → Type 0) → Option A → Type 0
Given P none = Unit
Given P (some a) = P a

Given-IsPercentage : (o : Option (List ℤ)) → Ensures (Given (All IsPercentage)) (given_thresholds o)
Given-IsPercentage none = tt
Given-IsPercentage (some zs) =
    Ensures->>= (All IsPercentage) (Given (All IsPercentage)) (all_thresholds zs) _
      (all_thresholds-IsPercentage zs) λ ns h. h

check_given-Given :
    {A : Type 0} (known : A → Bool) (o : Option A)
    → Ensures (λ u. Given (λ a. known a ≡ true) o) (check_given known o)
check_given-Given known none = tt
check_given-Given known (some a) = check-true (known a)

-- A test, and what follows.
Ensures-then :
    {A : Type 0} (P : Type 0) (Q : A → Type 0) (m : Result (Unit {0})) (n : Result A)
    → Ensures (λ u. P) m
    → (P → Ensures Q n)
    → Ensures Q (m >> n)
Ensures-then P Q (ok u) n h k = k h
Ensures-then P Q (err e) n h k = tt

Ensures-and :
    (P Q : Type 0) (m n : Result (Unit {0}))
    → Ensures (λ u. P) m
    → Ensures (λ u. Q) n
    → Ensures (λ u. P × Q) (m >> n)
Ensures-and P Q (ok u) (ok v) h k = (h, k)
Ensures-and P Q (ok u) (err e) h k = tt
Ensures-and P Q (err e) n h k = tt

abbrev Validated : Option ScopeType → Option Period → Option OnExceed → Option (List ℤ) → Type 0
Validated scope period behavior thresholds =
    Given (λ x. known_scope x ≡ true) scope
    × Given (λ x. known_period x ≡ true) period
    × Given (λ x. known_on_exceed x ≡ true) behavior
    × Given (All IsPercentage) thresholds

validate-Validated :
    (scope : Option ScopeType) (period : Option Period) (behavior : Option OnExceed)
    (thresholds : Option (List ℤ))
    → Ensures (Validated scope period behavior) (validate scope period behavior thresholds)
unfolding validate
validate-Validated scope period behavior thresholds =
    let a = check_given known_scope scope in
    let b = check_given known_period period in
    let c = check_given known_on_exceed behavior in
    let P = Given (λ x. known_scope x ≡ true) scope in
    let Q = Given (λ x. known_period x ≡ true) period in
    let R = Given (λ x. known_on_exceed x ≡ true) behavior in
    Ensures-then ((P × Q) × R) (Validated scope period behavior) (a >> b >> c)
      (given_thresholds thresholds)
      (Ensures-and (P × Q) R (a >> b) c
        (Ensures-and P Q a b (check_given-Given known_scope scope)
          (check_given-Given known_period period))
        (check_given-Given known_on_exceed behavior))
      λ h.
        Ensures-weaken (Given (All IsPercentage)) (Validated scope period behavior)
          (given_thresholds thresholds) (Given-IsPercentage thresholds)
          λ ts k. (h.0.0, h.0.1, h.1, k)

defaults-IsPercentage : All IsPercentage stored_defaults
defaults-IsPercentage =
    ((omega arith, omega arith), ((omega arith, omega arith), ((omega arith, omega arith), tt)))

default-IsPercentage :
    (o : Option (List ℤ))
    → Given (All IsPercentage) o
    → All IsPercentage (or_default stored_defaults (or_else o []))
default-IsPercentage none h = defaults-IsPercentage
default-IsPercentage (some []) h = defaults-IsPercentage
default-IsPercentage (some (t ∷ ts)) h = h

identified : (a b : Bool) → not (a && not b) ≡ true → a ≡ true → b ≡ true
identified a b h k = ground arith

-- What a creation has come through.
abbrev pub Accepted : BudgetCreate → Option (List ℤ) → Type 0
Accepted body ts =
    (known_scope body.scope_type ≡ true)
    × (known_period body.period ≡ true)
    × (known_on_exceed body.on_exceed ≡ true)
    × (needs_id body.scope_type ≡ true → is_some body.scope_id ≡ true)
    × (is_positive body.amount_limit ≡ true)
    × All IsPercentage (or_default stored_defaults (or_else ts []))

pub check_create-Accepted : (body : BudgetCreate) → Ensures (Accepted body) (check_create body)
unfolding check_create
check_create-Accepted body =
    let scoped = check (not (needs_id body.scope_type && not (is_some body.scope_id))) in
    let positive = check (is_positive body.amount_limit) in
    Ensures->>= (Validated (some body.scope_type) (some body.period) (some body.on_exceed))
      (Accepted body) _ _
      (validate-Validated (some body.scope_type) (some body.period) (some body.on_exceed)
        body.thresholds)
      λ ts (a, b, c, d).
        Ensures-then _ (Accepted body) (scoped >> positive) (ok ts)
          (Ensures-and _ _ scoped positive
            (check-true (not (needs_id body.scope_type && not (is_some body.scope_id))))
            (check-true (is_positive body.amount_limit)))
          λ h. (a, b, c, identified _ _ h.0, h.1, default-IsPercentage ts d)

-- What a change has come through.
abbrev pub Changeable : BudgetUpdate → Option (List ℤ) → Type 0
Changeable body ts =
    Given (λ x. known_period x ≡ true) body.period
    × Given (λ x. known_on_exceed x ≡ true) body.on_exceed
    × (positive_limit body.amount_limit ≡ true)
    × Given (All IsPercentage) ts

pub check_update-Changeable :
    (body : BudgetUpdate) (b : AgentBudget) → Ensures (Changeable body) (check_update body b)
unfolding check_update
check_update-Changeable body b = elim (Bool-cases (b.version == body.version)) [
  | inr e ↦ rw e tt
  | inl e ↦ rw e (
      Ensures->>= (Validated none body.period body.on_exceed) (Changeable body)
        (validate none body.period body.on_exceed body.thresholds) _
        (validate-Validated none body.period body.on_exceed body.thresholds)
        λ ts (_, p, o, t).
          Ensures-then (positive_limit body.amount_limit ≡ true) (Changeable body)
            (check (positive_limit body.amount_limit)) (ok ts)
            (check-true (positive_limit body.amount_limit)) λ h. (p, o, h, t))
]
