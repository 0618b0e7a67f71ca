-- ===== src/Budgets/Crud/Limits.antt =====
-- What the column of the limits, `Numeric(20, 8)` in apps/api/models/agent_control.py, holds of a
-- limit that apps/api/agent_control/operations/budgets.py has found positive.
use mission_control_platform.Prelude.{
  ℕ, ◌^◌, ◌≤◌, ◌≡◌, refl, inl, inr, true, Option, none, some, Bool-cases, ltb, arith,
}
use mission_control_platform.Prelude.Int.{ℤ, pos, negsuc, pos_part, ltb_ℤ, ◌≤ℤ◌}
use mission_control_platform.Rows.{Amount}
use mission_control_platform.Store.Keeps.{Ensures}
use mission_control_platform.Budgets.Crud.{
  DecimalIn, units, in_column, numeric_column, is_positive, new_limit, positive_limit,
}
use mission_control_platform.Budgets.Crud.Checks.{Given}

-- A limit that rounds to at least some number of units.
abbrev pub RoundsTo : ℕ → DecimalIn → Type 0
RoundsTo least d = least ≤ units (pos_part d.coefficient) d.places

in_column-least : (least n : ℕ) → least ≤ n → Ensures (λ a. pos least ≤ℤ a) (in_column pos n)
in_column-least least n h = elim (Bool-cases (ltb n (10 ^ 20))) [
  | inl e ↦ rw e (omega arith)
  | inr e ↦ rw e tt
]

not_positive : (n : ℕ) → ltb_ℤ (pos 0) (negsuc n) ≡ true → ⊥
not_positive n h = ground arith

-- What the column holds of a positive decimal.
pub numeric_column-least :
    (least : ℕ) (d : DecimalIn)
    → is_positive d ≡ true
    → RoundsTo least d
    → Ensures (λ a. pos least ≤ℤ a) (numeric_column d)
unfolding numeric_column
numeric_column-least least d h k = of_sign d.coefficient refl
  where
    of_sign : (z : ℤ) → d.coefficient ≡ z → Ensures (λ a. pos least ≤ℤ a) (numeric_column d)
    of_sign (negsuc n) e = absurd (not_positive n (rw e at h))
    of_sign (pos n) e = rw e (in_column-least least (units n d.places) (rw e at k))

pub new_limit-least :
    (least : ℕ) (o : Option DecimalIn) (old : Amount)
    → positive_limit o ≡ true
    → Given (RoundsTo least) o
    → pos least ≤ℤ old
    → Ensures (λ a. pos least ≤ℤ a) (new_limit o old)
new_limit-least least none old h k l = l
new_limit-least least (some d) old h k l = numeric_column-least least d h k
