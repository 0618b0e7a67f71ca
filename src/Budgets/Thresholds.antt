-- ===== src/Budgets/Thresholds.antt =====
-- The thresholds of a budget in apps/api/agent_control/operations/budgets.py.
use mission_control_platform.Prelude.{
  ℕ, ◌*◌, ◌≤◌, ◌<◌, ◌≡◌, ◌≢◌, true, ◌&&◌, List, [], ◌∷◌, ltb, leb, ◌==◌, Bool-cases, inl, inr,
  arith,
}
use mission_control_platform.Prelude.Int.{ℤ, pos, negsuc, ◌*ℤ◌}
use mission_control_platform.Rows.{Amount, AgentBudget}
use mission_control_platform.Budgets.{
  insert_once, sorted_set, default_thresholds, stored_defaults, percentages, or_default, thresholds,
  reaches,
}

-- A list in strictly increasing order, all of whose members are above a bound and at most 100.
abbrev pub IncreasesFrom : ℕ → List ℕ → Type 0
IncreasesFrom lo [] = Unit
IncreasesFrom lo (t ∷ ts) = (lo < t) × (t ≤ 100) × IncreasesFrom t ts

insert_increases :
    (lo t : ℕ) (ts : List ℕ)
    → lo < t
    → t ≤ 100
    → IncreasesFrom lo ts
    → IncreasesFrom lo (insert_once t ts)
unfolding insert_once
insert_increases lo t [] h k s = (h, k, tt)
insert_increases lo t (u ∷ us) h k s = elim (Bool-cases (ltb t u)) [
  | inl e ↦ rw e (h, k, (ground arith, s.1, s.2))
  | inr e ↦ elim (Bool-cases (t == u)) [
    | inl q ↦ rw (e, q) s
    | inr q ↦ rw (e, q) (s.0, s.1, insert_increases u t us (ground arith) k s.2)
  ]
]

sorted_increases : (ts : List ℤ) → IncreasesFrom 0 (sorted_set (percentages ts))
unfolding sorted_set percentages
sorted_increases [] = tt
sorted_increases (negsuc n ∷ ts) = sorted_increases ts
sorted_increases (pos t ∷ ts) = elim (Bool-cases (ltb 0 t && leb t 100)) [
  | inl e ↦ rw e (
      insert_increases 0 t (sorted_set (percentages ts)) (ground arith) (ground arith)
        (sorted_increases ts))
  | inr e ↦ rw e (sorted_increases ts)
]

default_increases :
    (ts : List ℕ)
    → IncreasesFrom 0 ts
    → IncreasesFrom 0 (or_default default_thresholds ts) × (or_default default_thresholds ts ≢ [])
default_increases [] h = (omega arith, λ e. cc)
default_increases (t ∷ ts) h = (h, λ e. cc)

-- Whatever a budget's row holds, the thresholds that are evaluated are at least one, lie between 1
-- and 100 and strictly increase.
pub thresholds_increase : (b : AgentBudget) → IncreasesFrom 0 (thresholds b) × (thresholds b ≢ [])
unfolding thresholds
thresholds_increase b =
    default_increases (sorted_set (percentages (or_default stored_defaults b.thresholds)))
      (sorted_increases (or_default stored_defaults b.thresholds))

scaled : (t u l : ℕ) → t ≤ u → t * l ≤ u * l
scaled t u l h = grind arith

-- A consumption that reaches a percentage of the limit reaches every lower one that is positive.
pub reaches_mono :
    (used limit : Amount) (t u : ℕ)
    → t ≤ u
    → 0 < t
    → reaches used limit u ≡ true
    → reaches used limit t ≡ true
unfolding reaches ◌*ℤ◌
reaches_mono used (negsuc l) t u h k r = ground arith
reaches_mono (negsuc c) (pos l) t u h k r = ground arith
reaches_mono (pos c) (pos l) t u h k r = ground (arith, scaled t u l)
