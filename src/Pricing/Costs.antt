-- ===== src/Pricing/Costs.antt =====
-- Costs computed from the price list of apps/api/agent_control/operations/pricing.py.
use mission_control_platform.Prelude.{
  ℕ, ◌+◌, ◌*◌, ◌<◌, ◌≡◌, inl, inr, ◌&&◌, Option, List, [], ◌∷◌, String, All, Bool-cases, arith, ap,
  or_else, str_eq,
}
use mission_control_platform.Prelude.Int.{
  ℤ, pos, pos_part, neg_part, ◌+ℤ◌, ◌*ℤ◌, +ℤ_parts, eq_of_parts, int_laws,
}
use mission_control_platform.Redaction.{Unicode, codes}
use mission_control_platform.Store.{truthy}
use mission_control_platform.Pricing.{
  ModelRate, PriceLine, pricing, prices_2026_07_01, find_rate, rate, compute_cost, same_codes,
  quantize, current_pricing_version,
}

abbrev IsPriced : ModelRate → Type 0
IsPriced r = (0 < r.input_per_1k) × (0 < r.output_per_1k)

find-IsPriced :
    (p m : List ℕ) (ls : List PriceLine)
    → All (λ (l : PriceLine). IsPriced l.rate) ls
    → IsPriced (find_rate p m ls)
unfolding find_rate
find-IsPriced p m [] h = omega arith
find-IsPriced p m (l ∷ ls) h =
    elim (Bool-cases (same_codes p (codes l.provider) && same_codes m (codes l.model))) [
      | inl e ↦ rw e h.0
      | inr e ↦ rw e (find-IsPriced p m ls h.1)
    ]

table-IsPriced :
    (version : String)
    → All (λ (l : PriceLine). IsPriced l.rate) (or_else (pricing version) prices_2026_07_01)
unfolding pricing
table-IsPriced version = elim (Bool-cases (str_eq version current_pricing_version)) [
  | inl e ↦ rw e (omega arith)
  | inr e ↦ rw e (omega arith)
]

rate-IsPriced :
    (u : Unicode) (version : String) (provider model : Option String)
    → IsPriced (rate u version provider model)
unfolding rate
rate-IsPriced u version provider model = find-IsPriced _ _ _ (table-IsPriced version)

-- The cost in natural numbers, for numbers of tokens that are not negative.
cost_pos :
    (a b i o : ℕ) → quantize (pos a *ℤ pos i +ℤ pos b *ℤ pos o) ≡ pos (1000 * (a * i + b * o))
unfolding ◌+ℤ◌ ◌*ℤ◌
cost_pos a b i o = ground arith

positive_product : (a b i o : ℕ) → 0 < a → 0 < b → 0 < i + o → 0 < a * i + b * o
positive_product a b i o h k n = grind arith

-- No consumption of at least one token costs nothing, whatever the provider, the model and the
-- version that the agent names.
pub cost_never_zero :
    (u : Unicode) (i o : ℕ) (provider model version : Option String)
    → 0 < i + o
    → (c : ℕ) × ((compute_cost u (pos i) (pos o) provider model version).cost ≡ pos c) × (0 < c)
unfolding compute_cost
cost_never_zero u i o provider model version h =
    let v = or_else (truthy version) current_pricing_version in
    let r = rate u v provider model in
    let p : IsPriced r = rate-IsPriced u v provider model in
    let n : 0 < r.input_per_1k * i + r.output_per_1k * o =
      positive_product r.input_per_1k r.output_per_1k i o p.0 p.1 h in
    (
      1000 * (r.input_per_1k * i + r.output_per_1k * o),
      cost_pos r.input_per_1k r.output_per_1k i o,
      omega arith,
    )

scale_parts :
    (r : ℕ) (x : ℤ)
    → pos_part (pos r *ℤ x) + r * neg_part x ≡ neg_part (pos r *ℤ x) + r * pos_part x
unfolding ◌*ℤ◌
scale_parts r x = ground arith

scale_sum : (r : ℕ) (x y : ℤ) → pos r *ℤ (x +ℤ y) ≡ pos r *ℤ x +ℤ pos r *ℤ y
scale_sum r x y = eq_of_parts (pos r *ℤ (x +ℤ y)) (pos r *ℤ x +ℤ pos r *ℤ y) (
    omega (
      arith,
      scale_parts r x,
      scale_parts r y,
      scale_parts r (x +ℤ y),
      +ℤ_parts (pos r *ℤ x) (pos r *ℤ y),
      ap (λ (t : ℕ). r * t) (+ℤ_parts x y),
    ))

swap_sums : (a b c d : ℤ) → (a +ℤ b) +ℤ (c +ℤ d) ≡ (a +ℤ c) +ℤ (b +ℤ d)
swap_sums a b c d = omega int_laws

-- At one provider, model and version, the cost of two consumptions together is the sum of their
-- costs, also where a number of tokens is negative: no rounding depends on how they are reported.
pub cost_additive :
    (u : Unicode) (i j o p : ℤ) (provider model version : Option String)
    → (compute_cost u (i +ℤ j) (o +ℤ p) provider model version).cost
      ≡ (compute_cost u i o provider model version).cost
        +ℤ (compute_cost u j p provider model version).cost
unfolding compute_cost
cost_additive u i j o p provider model version =
    let r = rate u (or_else (truthy version) current_pricing_version) provider model in
    rw (scale_sum r.input_per_1k i j, scale_sum r.output_per_1k o p)
      (rw
        (swap_sums (pos r.input_per_1k *ℤ i) (pos r.input_per_1k *ℤ j) (pos r.output_per_1k *ℤ o)
          (pos r.output_per_1k *ℤ p))
        (scale_sum 1000 (pos r.input_per_1k *ℤ i +ℤ pos r.output_per_1k *ℤ o)
          (pos r.input_per_1k *ℤ j +ℤ pos r.output_per_1k *ℤ p)))
