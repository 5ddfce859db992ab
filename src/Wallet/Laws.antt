-- ===== src/Wallet/Laws.antt =====
-- The charge rounds up, adds up and grows with the tokens while it fits an i64; and what happens
-- beyond that.
use native.Mathlib.Nat.{mul-le-mul_right}
use mizan.Prelude.{
  ℕ, ◌+◌, ◌*◌, ◌/◌, ◌≤◌, ◌<◌, ◌≡◌, pos, ◌≤ℤ◌, ◌<ℤ◌, pos-+ℤ, pos--ℤ, pos-*ℤ, quot, as_i64,
  as_i64_of_InI64, i64_bound, u64_mod, arith,
}
use mizan.Wallet.{UsageChargeInput, RoutePrice, ceil_div, per_million, calculate_usage_charge}

-- Rounding up: the least number of millionths that covers v.
abbrev pub ceil_ℕ : ℕ → ℕ
ceil_ℕ v = (v + 999_999) / per_million

ceil_div_pos : (v : ℕ) → ceil_div (pos v) per_million ≡ pos (ceil_ℕ v)
unfolding ceil_div quot
ceil_div_pos v =
    rw (pos-+ℤ v per_million) (rw (pos--ℤ (v + per_million) 1 (omega arith)) (ground arith))

pub ceil_ℕ_mono : (v w : ℕ) → v ≤ w → ceil_ℕ v ≤ ceil_ℕ w
ceil_ℕ_mono v w h = omega arith

-- A price with no negative part.
abbrev pub priced : ℕ → ℕ → RoutePrice
priced a b = record {
  input_microcredits_per_1m_tokens = pos a;
  output_microcredits_per_1m_tokens = pos b;
}

-- With prices that are not negative, the charge before the casts.
module _ (u : UsageChargeInput) (a b : ℕ) where
  abbrev pub input_cost : ℕ
  input_cost = ceil_ℕ (u.prompt_tokens * a)

  abbrev pub output_cost : ℕ
  output_cost = ceil_ℕ (u.completion_tokens * b)

  pub calculate_usage_charge_lem : calculate_usage_charge u (priced a b) ≡ record {
    input = as_i64 (pos input_cost);
    output = as_i64 (pos output_cost);
    total = as_i64 (pos (input_cost + output_cost));
  }
  unfolding calculate_usage_charge
  calculate_usage_charge_lem = simp (pos-*ℤ, ceil_div_pos, pos-+ℤ)

  -- With prices that are not negative, and while the sum of the two parts fits an i64, each part is
  -- the token count times the price per million, rounded up, the parts add up to the total, and
  -- nothing wraps.
  pub calculate_usage_charge_exact :
      input_cost + output_cost < i64_bound
      → let charge = calculate_usage_charge u (priced a b) in
        (charge ≡ record {
          input = pos input_cost;
          output = pos output_cost;
          total = pos (input_cost + output_cost);
        })
        × (u.prompt_tokens * a ≤ input_cost * per_million)
        × (input_cost * per_million < u.prompt_tokens * a + per_million)
        × (u.completion_tokens * b ≤ output_cost * per_million)
        × (output_cost * per_million < u.completion_tokens * b + per_million)
  calculate_usage_charge_exact h = (
    rw (
      calculate_usage_charge_lem,
      as_i64_of_InI64 (pos input_cost) (omega arith),
      as_i64_of_InI64 (pos output_cost) (omega arith),
      as_i64_of_InI64 (pos (input_cost + output_cost)) (omega arith),
    ),
    omega arith,
    omega arith,
    omega arith,
    omega arith,
  )

  -- With prices that are not negative, a charge whose true total lies from 2^63 below 2^64 is cast to a negative total.
  pub calculate_usage_charge_wraps :
      i64_bound ≤ input_cost + output_cost
      → input_cost + output_cost < u64_mod
      → (calculate_usage_charge u (priced a b)).total <ℤ pos 0
  unfolding as_i64
  calculate_usage_charge_wraps h k = rw calculate_usage_charge_lem (ground arith)

-- With prices that are not negative, and while the larger total fits an i64, a request with no more
-- prompt tokens and no more completion tokens is charged no more.
pub calculate_usage_charge_mono :
    (u v : UsageChargeInput) (a b : ℕ)
    → u.prompt_tokens ≤ v.prompt_tokens
    → u.completion_tokens ≤ v.completion_tokens
    → input_cost v a b + output_cost v a b < i64_bound
    → (pos 0 ≤ℤ (calculate_usage_charge u (priced a b)).total)
      × ((calculate_usage_charge u (priced a b)).total
          ≤ℤ (calculate_usage_charge v (priced a b)).total)
calculate_usage_charge_mono u v a b hp hc h =
    let i = ceil_ℕ_mono _ _ (mul-le-mul_right a hp) in
    let o = ceil_ℕ_mono _ _ (mul-le-mul_right b hc) in
    rw
      (
        (calculate_usage_charge_exact u a b (omega arith)).0,
        (calculate_usage_charge_exact v a b h).0,
      )
      (omega arith, omega arith)
