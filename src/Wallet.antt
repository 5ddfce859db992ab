-- ===== src/Wallet.antt =====
-- crates/mizan-wallet/src/lib.rs, and `UsageChargeInput` of crates/mizan-metering/src/lib.rs: the
-- charge for the tokens of a request. Products and sums are made in i128, which holds them for
-- every u64 and i64, so here they are integers; the casts to i64 keep their wrap-around.
pub mod Laws
mod Tests
use mizan.Prelude.{ℕ, ℤ, pos, ◌+ℤ◌, ◌-ℤ◌, ◌*ℤ◌, eq_ℤ, quot, as_i64, if◌then◌else◌}

pub record UsageChargeInput : Type 0 where
  pub prompt_tokens : ℕ
  pub completion_tokens : ℕ

pub record RoutePrice : Type 0 where
  pub input_microcredits_per_1m_tokens : ℤ
  pub output_microcredits_per_1m_tokens : ℤ

-- The fields are `Microcredits`, an i64.
pub record UsageCharge : Type 0 where
  pub input : ℤ
  pub output : ℤ
  pub total : ℤ

abbrev pub per_million : ℕ
per_million = 1_000_000

unfoldable pub ceil_div : ℤ → ℕ → ℤ
ceil_div value divisor =
    if eq_ℤ value (pos 0) then pos 0 else quot (value +ℤ pos divisor -ℤ pos 1) divisor

unfoldable pub calculate_usage_charge : UsageChargeInput → RoutePrice → UsageCharge
calculate_usage_charge input price =
    let input_charge =
      ceil_div (pos input.prompt_tokens *ℤ price.input_microcredits_per_1m_tokens) per_million in
    let output_charge =
      ceil_div (pos input.completion_tokens *ℤ price.output_microcredits_per_1m_tokens)
        per_million in
    record {
      input = as_i64 input_charge;
      output = as_i64 output_charge;
      total = as_i64 (input_charge +ℤ output_charge);
    }
