-- ===== src/Metrics.antt =====
-- crates/mizan-api/src/metrics.rs: the counters of the gateway, kept by their labels in shards. A
-- `HashMap` is a list of its entries, each key at most once; the locks make each call atomic. The
-- sums of `u64` and `i64` wrap around, as they do in a build without overflow checks.
pub mod Labels
pub mod Render
pub mod Laws
pub mod Escape
mod Tests
use mizan.Prelude.{
  ℕ, zero, suc, ◌+◌, ◌%◌, Option, List, [], ◌∷◌, Text, ltb, leb, u64_mod, ℤ, pos, ◌+ℤ◌, leb_ℤ,
  as_i64, ◌&&◌, if◌then◌else◌,
}
use mizan.Wallet.{RoutePrice, calculate_usage_charge}
use mizan.Billing.Usage.{TokenUsage, charge_input}
use mizan.Metrics.Labels.{
  GatewayLabels, labels_eq, normalize_label, normalize_optional_label, shard_index,
}

abbrev pub latency_buckets_ms : List ℕ
latency_buckets_ms = 50 ∷ 100 ∷ 250 ∷ 500 ∷ 1000 ∷ 2500 ∷ 5000 ∷ []

pub record LatencyHistogram : Type 0 where
  pub buckets : List ℕ
  pub count : ℕ
  pub sum_ms : ℕ

pub record MetricSet : Type 0 where
  pub requests : ℕ
  pub prompt_tokens : ℕ
  pub completion_tokens : ℕ
  pub total_tokens : ℕ
  pub credits : ℤ
  pub latency : LatencyHistogram

pub record GatewayObservation : Type 0 where
  pub route : Text
  pub provider : Text
  pub model : Text
  pub daemon_node : Option Text
  pub status : ℕ
  pub usage : TokenUsage
  pub latency_ms : ℕ
  pub route_price : RoutePrice

-- The `stats` of each shard.
abbrev pub Stats : Type 0
Stats = List (GatewayLabels × MetricSet)

pub record MetricsRegistry : Type 0 where
  pub shards : List Stats

-- `MetricSet::default()`.
abbrev pub no_metrics : MetricSet
no_metrics = record {
  requests = 0;
  prompt_tokens = 0;
  completion_tokens = 0;
  total_tokens = 0;
  credits = pos 0;
  latency = record { buckets = 0 ∷ 0 ∷ 0 ∷ 0 ∷ 0 ∷ 0 ∷ 0 ∷ []; count = 0; sum_ms = 0 };
}

-- `MetricsRegistry::default()`: sixteen empty shards.
abbrev pub empty_registry : MetricsRegistry
empty_registry = record {
  shards = [] ∷ [] ∷ [] ∷ [] ∷ [] ∷ [] ∷ [] ∷ [] ∷ [] ∷ [] ∷ [] ∷ [] ∷ [] ∷ [] ∷ [] ∷ [] ∷ [];
}

abbrev pub add_u64 : ℕ → ℕ → ℕ
add_u64 a b = (a + b) % u64_mod

-- The loop over the bounds: every bucket whose bound the latency does not pass goes up by one.
unfoldable pub count_latency : ℕ → (bounds buckets : List ℕ) → List ℕ
count_latency latency_ms [] buckets = buckets
count_latency latency_ms (bound ∷ bounds) [] = []
count_latency latency_ms (bound ∷ bounds) (bucket ∷ buckets) =
    (if leb latency_ms bound then add_u64 bucket 1 else bucket)
    ∷ count_latency latency_ms bounds buckets

abbrev clamped : ℤ → ℤ
clamped total = if leb_ℤ total (pos 0) then pos 0 else total

-- The credits of an observation, which only a success adds.
unfoldable pub credits_after : GatewayObservation → ℤ → ℤ
credits_after observation credits =
    if leb 200 observation.status && leb observation.status 299
    then as_i64 (
        credits
        +ℤ clamped
            (calculate_usage_charge (charge_input observation.usage) observation.route_price).total)
    else credits

-- What `observe_gateway` does to the entry of the labels.
unfoldable pub observe : GatewayObservation → MetricSet → MetricSet
unfolding credits_after
observe observation metrics = record {
  requests = add_u64 metrics.requests 1;
  prompt_tokens = add_u64 metrics.prompt_tokens observation.usage.prompt_tokens;
  completion_tokens = add_u64 metrics.completion_tokens observation.usage.completion_tokens;
  total_tokens = add_u64 metrics.total_tokens observation.usage.total_tokens;
  credits = credits_after observation metrics.credits;
  latency = record {
    buckets = count_latency observation.latency_ms latency_buckets_ms metrics.latency.buckets;
    count = add_u64 metrics.latency.count 1;
    sum_ms = add_u64 metrics.latency.sum_ms observation.latency_ms;
  };
}

unfoldable pub labels_of : GatewayObservation → GatewayLabels
labels_of observation = record {
  route = normalize_label observation.route;
  provider = normalize_label observation.provider;
  model = normalize_label observation.model;
  daemon_node = normalize_optional_label observation.daemon_node;
  status = observation.status;
}

-- `stats.entry(labels).or_default()`, and the change of what is there.
unfoldable pub update_entry : GatewayLabels → (MetricSet → MetricSet) → Stats → Stats
update_entry labels change [] = (labels, change no_metrics) ∷ []
update_entry labels change ((l, m) ∷ stats) =
    let rest = update_entry labels change stats in
    if labels_eq l labels then (l, change m) ∷ stats else (l, m) ∷ rest

-- `&self.shards[index]`, for an index within the array.
unfoldable pub update_shard : ℕ → (Stats → Stats) → List Stats → List Stats
update_shard index change [] = []
update_shard zero change (shard ∷ shards) = change shard ∷ shards
update_shard (suc index) change (shard ∷ shards) = shard ∷ update_shard index change shards

unfoldable pub observe_gateway : GatewayObservation → MetricsRegistry → MetricsRegistry
observe_gateway observation registry =
    let labels = labels_of observation in
    record {
      shards =
          update_shard (shard_index labels) (update_entry labels (observe observation))
            registry.shards;
    }
