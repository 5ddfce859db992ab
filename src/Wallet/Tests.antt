-- ===== src/Wallet/Tests.antt =====
-- The charge at concrete prices.
use mizan.Prelude.{◌≡◌, ◌≤◌, ◌<◌, ◌+◌, ◌*◌, pos, ◌≤ℤ◌, ◌<ℤ◌, arith}
use mizan.Wallet.{UsageChargeInput, calculate_usage_charge, per_million}
use mizan.Wallet.Laws.{
  priced, calculate_usage_charge_exact, calculate_usage_charge_mono, calculate_usage_charge_wraps,
}

abbrev small : UsageChargeInput
small = record { prompt_tokens = 10; completion_tokens = 5 }

abbrev large : UsageChargeInput
large = record { prompt_tokens = 12; completion_tokens = 7 }

abbrev huge : UsageChargeInput
huge = record { prompt_tokens = 10_000_000_000_000_000; completion_tokens = 0 }

calculate_usage_charge_exact_example :
    (calculate_usage_charge small (priced 1_500_000 150_000)
      ≡ record { input = pos 15; output = pos 1; total = pos 16 })
    × (15_000_000 ≤ 15 * per_million)
    × (15 * per_million < 15_000_000 + per_million)
    × (750_000 ≤ 1 * per_million)
    × (1 * per_million < 750_000 + per_million)
calculate_usage_charge_exact_example =
    calculate_usage_charge_exact small 1_500_000 150_000 (omega arith)

calculate_usage_charge_mono_example :
    (pos 0 ≤ℤ (calculate_usage_charge small (priced 1_500_000 150_000)).total)
    × ((calculate_usage_charge small (priced 1_500_000 150_000)).total
        ≤ℤ (calculate_usage_charge large (priced 1_500_000 150_000)).total)
calculate_usage_charge_mono_example =
    calculate_usage_charge_mono small large 1_500_000 150_000 (omega arith) (omega arith)
      (omega arith)

calculate_usage_charge_wraps_example :
    (calculate_usage_charge huge (priced 1_000_000_000 0)).total <ℤ pos 0
calculate_usage_charge_wraps_example =
    calculate_usage_charge_wraps huge 1_000_000_000 0 (omega arith) (omega arith)
