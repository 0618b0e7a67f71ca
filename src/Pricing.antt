-- ===== src/Pricing.antt =====
-- The versioned price list, apps/api/agent_control/operations/pricing.py. A price per 1000 tokens
-- is a number of units of 10^-2, a price per token one of 10^-5 and a cost one of 10^-8.
pub mod Costs
use mission_control_platform.Prelude.{
  ℕ, String, Bool, true, false, ◌&&◌, Option, none, some, List, [], ◌∷◌, ◌==◌, or_else, str_eq,
  if◌then◌else◌,
}
use mission_control_platform.Prelude.Int.{ℤ, pos, ◌+ℤ◌, ◌*ℤ◌}
use mission_control_platform.Redaction.{Unicode, codes, lower}
use mission_control_platform.Rows.{Amount}
use mission_control_platform.Store.{truthy}

abbrev pub current_pricing_version : String
current_pricing_version = "2026-07-01"

pub record ModelRate : Type 0 where
  pub input_per_1k : ℕ
  pub output_per_1k : ℕ
  pub currency : String

-- A line of a price list: the provider, the model and the price.
pub record PriceLine : Type 0 where
  pub provider : String
  pub model : String
  pub rate : ModelRate

abbrev usd : ℕ → ℕ → ModelRate
usd i o = record { input_per_1k = i; output_per_1k = o; currency = "USD" }

abbrev line : String → String → ModelRate → PriceLine
line p m r = record { provider = p; model = m; rate = r }

-- The line `("*", "*")`.
abbrev pub default_rate : ModelRate
default_rate = usd 300 1500

abbrev pub prices_2026_07_01 : List PriceLine
prices_2026_07_01 =
    line "anthropic" "claude-opus" (usd 1500 7500)
    ∷ line "anthropic" "claude-sonnet" (usd 300 1500)
    ∷ line "anthropic" "claude-haiku" (usd 80 400)
    ∷ line "openai" "gpt-4o" (usd 250 1000)
    ∷ line "openai" "gpt-4o-mini" (usd 15 60)
    ∷ line "*" "*" default_rate
    ∷ []

-- `_PRICING.get(version)`.
unfoldable pub pricing : String → Option (List PriceLine)
pricing version = if str_eq version current_pricing_version then some prices_2026_07_01 else none

abbrev same_codes : List ℕ → List ℕ → Bool
same_codes [] [] = true
same_codes (a ∷ s) (b ∷ t) = (a == b) && same_codes s t
same_codes _ _ = false

-- `table.get(key) or table[("*", "*")]`, where the key is in lower case.
unfoldable pub find_rate : List ℕ → List ℕ → List PriceLine → ModelRate
find_rate p m [] = default_rate
find_rate p m (l ∷ ls) =
    if same_codes p (codes l.provider) && same_codes m (codes l.model)
    then l.rate
    else find_rate p m ls

abbrev key_part : Unicode → Option String → List ℕ
key_part u t = lower u (codes (or_else (truthy t) "*"))

unfoldable pub rate : Unicode → String → Option String → Option String → ModelRate
unfolding pricing find_rate
rate u version provider model =
    find_rate (key_part u provider) (key_part u model) (or_else (pricing version) prices_2026_07_01)

pub record CostBreakdown : Type 0 where
  pub cost : Amount
  pub unit_cost_input : ℕ
  pub unit_cost_output : ℕ
  pub currency : String
  pub pricing_version : String

-- `raw.quantize(_COST_QUANT)`: five decimals become eight, so nothing is rounded.
abbrev pub quantize : ℤ → Amount
quantize raw = pos 1000 *ℤ raw

-- A price of 10^-2 per 1000 tokens is a price of 10^-5 per token, with the same number of units.
-- The arithmetic is exact, as that of `Decimal` is while a cost has at most 28 digits.
unfoldable pub compute_cost :
    Unicode → ℤ → ℤ → Option String → Option String → Option String → CostBreakdown
unfolding rate ◌+ℤ◌ ◌*ℤ◌
compute_cost u input_tokens output_tokens provider model pricing_version =
    let version = or_else (truthy pricing_version) current_pricing_version in
    let r = rate u version provider model in
    record {
      cost = quantize (pos r.input_per_1k *ℤ input_tokens +ℤ pos r.output_per_1k *ℤ output_tokens);
      unit_cost_input = r.input_per_1k;
      unit_cost_output = r.output_per_1k;
      currency = r.currency;
      pricing_version = version;
    }
