-- ===== src/Billing/Usage.antt =====
-- `record_usage`, `ensure_sufficient_credit`, `estimate_usage` and the two insertions of a usage
-- event.
use mizan.Prelude.{
  ℕ, ◌<◌, ◌/◌, ◌%◌, ◌+◌, Bool, true, not, ◌&&◌, Option, some, List, [], ◌∷◌, ◌++◌, Text, codes,
  length, ltb, leb, ◌==◌, ℤ, pos, ◌-ℤ◌, leb_ℤ, ltb_ℤ, i64_bound, saturating_add_u64, if◌then◌else◌,
}
use mizan.Core.Id.{Uuid}
use mizan.Core.Error.{AppError, AppResult, ok, err, invalid_config, insufficient_credit}
use mizan.Wallet.{UsageChargeInput, RoutePrice, calculate_usage_charge}
use mizan.Billing.Tables.{UsageEvent, Tables}
use mizan.Core.Exec.{◌>>=◌, ◌>>◌, pure, throw, lift}
use mizan.Billing.Database.{M, attempt, on_committed, on_pending, begin, commit}
use mizan.Billing.Wallets.{
  Draw, ensure_wallet, ensure_wallet_in_tx, post_entry, infrastructure_with,
}

-- crates/mizan-providers/src/lib.rs
pub record TokenUsage : Type 0 where
  pub prompt_tokens : ℕ
  pub completion_tokens : ℕ
  pub total_tokens : ℕ
  pub estimated : Bool

-- The content of a message is its bytes, of which only the number is read here.
pub record ChatMessage : Type 0 where
  pub role : Text
  pub content : List ℕ

pub record BillingInput : Type 0 where
  pub request_id : Uuid
  pub user_id : Uuid
  pub api_key_id : Option Uuid
  pub provider_id : Option Uuid
  pub route_id : Option Uuid
  pub daemon_node_id : Option Uuid
  pub model : Text
  pub usage : TokenUsage
  pub status_code : ℕ
  pub latency_ms : ℕ
  pub route_price : RoutePrice

-- `u64::div_ceil` is the quotient, and one more where a remainder is left.
unfoldable pub ceil_divide : ℕ → ℕ → ℕ
ceil_divide dividend divisor =
    if dividend == 0
    then 0
    else if dividend % divisor == 0
    then dividend / divisor
    else dividend / divisor + 1

abbrev pub content_bytes : List ChatMessage → ℕ
content_bytes [] = 0
content_bytes (m ∷ ms) = length m.content + content_bytes ms

unfoldable pub estimate_usage : List ChatMessage → List ℕ → TokenUsage
unfolding ceil_divide
estimate_usage prompt_messages completion_text =
    let prompt_tokens = ceil_divide (content_bytes prompt_messages) 4 in
    let completion_tokens = ceil_divide (length completion_text) 4 in
    record {
      prompt_tokens = prompt_tokens;
      completion_tokens = completion_tokens;
      total_tokens = saturating_add_u64 prompt_tokens completion_tokens;
      estimated = true;
    }

-- `i64::try_from`
abbrev pub to_i64 : AppError → ℕ → AppResult ℕ
to_i64 e n = if ltb n i64_bound then ok n else err e

-- The row that both insertions bind; the conversions run before the statement.
unfoldable pub usage_event : Draw → BillingInput → ℕ → M UsageEvent
usage_event d input status_code = do
  prompt ← lift (
      to_i64
        (invalid_config (codes "usage.prompt_tokens") (codes "prompt tokens must fit into i64"))
        input.usage.prompt_tokens)
  completion ← lift (
      to_i64
        (invalid_config (codes "usage.completion_tokens")
          (codes "completion tokens must fit into i64"))
        input.usage.completion_tokens)
  total ← lift (
      to_i64 (invalid_config (codes "usage.total_tokens") (codes "total tokens must fit into i64"))
        input.usage.total_tokens)
  latency ← lift (
      to_i64 (invalid_config (codes "usage.latency_ms") (codes "latency must fit into i64"))
        input.latency_ms)
  pure (record {
    id = d.event_id;
    request_id = input.request_id;
    user_id = input.user_id;
    api_key_id = input.api_key_id;
    provider_id = input.provider_id;
    route_id = input.route_id;
    daemon_node_id = input.daemon_node_id;
    model = input.model;
    usage_prompt_tokens = prompt;
    usage_completion_tokens = completion;
    usage_total_tokens = total;
    usage_estimated = input.usage.estimated;
    status_code = status_code;
    latency_ms = latency;
    created_at = d.event_now;
  })

-- The values of the input fit the columns.
abbrev pub Fits : BillingInput → Type 0
Fits input =
    (input.usage.prompt_tokens < i64_bound)
    × (input.usage.completion_tokens < i64_bound)
    × (input.usage.total_tokens < i64_bound)
    × (input.latency_ms < i64_bound)

-- The row of an input whose values fit.
abbrev pub event_row : Draw → BillingInput → ℕ → UsageEvent
event_row d input status_code = record {
  id = d.event_id;
  request_id = input.request_id;
  user_id = input.user_id;
  api_key_id = input.api_key_id;
  provider_id = input.provider_id;
  route_id = input.route_id;
  daemon_node_id = input.daemon_node_id;
  model = input.model;
  usage_prompt_tokens = input.usage.prompt_tokens;
  usage_completion_tokens = input.usage.completion_tokens;
  usage_total_tokens = input.usage.total_tokens;
  usage_estimated = input.usage.estimated;
  status_code = status_code;
  latency_ms = input.latency_ms;
  created_at = d.event_now;
}

abbrev pub add_event : UsageEvent → Tables → Tables
add_event e t = record t { usage_events = t.usage_events ++ e ∷ [] }

-- On the pool, outside any transaction. The text of the error also names the request.
unfoldable pub insert_usage_event : Draw → BillingInput → ℕ → M (Unit {0})
unfolding usage_event
insert_usage_event d input status_code = do
  e ← usage_event d input status_code
  attempt (infrastructure_with (codes "failed to insert usage event for request_id= : "))
  on_committed (add_event e)

unfoldable pub insert_usage_event_tx : Draw → BillingInput → ℕ → M (Unit {0})
unfolding usage_event
insert_usage_event_tx d input status_code = do
  e ← usage_event d input status_code
  attempt (infrastructure_with (codes "failed to insert usage event for request_id= : "))
  on_pending (add_event e)

abbrev pub charge_input : TokenUsage → UsageChargeInput
charge_input usage = record {
  prompt_tokens = usage.prompt_tokens;
  completion_tokens = usage.completion_tokens;
}

-- The total that a request is charged.
unfoldable pub total_charge : TokenUsage → RoutePrice → ℤ
total_charge usage price = (calculate_usage_charge (charge_input usage) price).total

-- The transaction of `record_usage`, for a total above 0.
unfoldable pub charge_wallet : Draw → BillingInput → ℤ → M (Unit {0})
charge_wallet d input total = do
  begin (infrastructure_with (codes "cannot open transaction for metering: "))
  wallet ← ensure_wallet_in_tx d input.user_id
  if ltb_ℤ wallet.balance_microcredits total
      then (do insert_usage_event d input 402; throw insufficient_credit)
      else (do
        post_entry d wallet (some input.request_id) (pos 0 -ℤ total)
            (wallet.balance_microcredits -ℤ total) (codes "usage_charge")
        insert_usage_event_tx d input input.status_code
        commit (infrastructure_with (codes "failed to commit metering transaction: ")))

unfoldable pub record_usage : Draw → BillingInput → M (Unit {0})
record_usage d input =
    let total = total_charge input.usage input.route_price in
    if not (leb 200 input.status_code && leb input.status_code 299)
    then insert_usage_event d input input.status_code
    else if leb_ℤ total (pos 0)
    then insert_usage_event d input input.status_code
    else charge_wallet d input total

unfoldable pub ensure_sufficient_credit : Draw → Uuid → TokenUsage → RoutePrice → M (Unit {0})
unfolding ensure_wallet
ensure_sufficient_credit d user usage price =
    let total = total_charge usage price in
    if leb_ℤ total (pos 0) then pure tt else do
      wallet ← ensure_wallet d user
      if ltb_ℤ wallet.balance_microcredits total then throw insufficient_credit else pure tt
