-- ===== src/Metrics/Laws.antt =====
-- The theorems about the counters: what an observation changes, and what a histogram keeps.
use mizan.Prelude.{
  ℕ, zero, suc, ◌+◌, ◌≤◌, ◌<◌, ◌≡◌, refl, sym, ap, ◌∙◌, ◌↔◌, true, Bool-cases, inl, inr, List, [],
  ◌∷◌, text_eq_iff, ◌==◌, ==_iff, length, u64_mod, arith, leb, if◌then◌else◌,
}
use mizan.Metrics.Labels.{GatewayLabels, labels_eq, shard_index, metric_shards}
use mizan.Metrics.{
  MetricSet, Stats, MetricsRegistry, GatewayObservation, no_metrics, add_u64, count_latency,
  observe, labels_of, update_entry, update_shard, observe_gateway, latency_buckets_ms,
}

same_labels :
    (a b : GatewayLabels)
    → a.route ≡ b.route
    → a.provider ≡ b.provider
    → a.model ≡ b.model
    → a.daemon_node ≡ b.daemon_node
    → a.status ≡ b.status
    → a ≡ b
same_labels a b route provider model daemon_node status = cc

labels_eq_iff : (a b : GatewayLabels) → (labels_eq a b ≡ true) ↔ (a ≡ b)
unfolding labels_eq
labels_eq_iff a b = ground (
  arith,
  text_eq_iff a.route b.route,
  text_eq_iff a.provider b.provider,
  text_eq_iff a.model b.model,
  text_eq_iff a.daemon_node b.daemon_node,
  same_labels a b,
)

-- The counters of the labels among the entries; labels without an entry have none.
unfoldable pub entry_of : GatewayLabels → Stats → MetricSet
entry_of labels [] = no_metrics
entry_of labels ((l, m) ∷ stats) = if labels_eq l labels then m else entry_of labels stats

unfoldable pub shard_at : ℕ → List Stats → Stats
shard_at index [] = []
shard_at zero (shard ∷ shards) = shard
shard_at (suc index) (shard ∷ shards) = shard_at index shards

unfoldable pub metrics_of : GatewayLabels → MetricsRegistry → MetricSet
metrics_of labels registry = entry_of labels (shard_at (shard_index labels) registry.shards)

entry_of-update_entry :
    (labels other : GatewayLabels) (change : MetricSet → MetricSet) (stats : Stats)
    → entry_of labels (update_entry other change stats)
      ≡ (if labels_eq other labels then change (entry_of labels stats) else entry_of labels stats)
unfolding entry_of update_entry
entry_of-update_entry labels other change [] = ground arith
entry_of-update_entry labels other change ((l, m) ∷ stats) = ground (
  arith,
  labels_eq_iff other labels,
  labels_eq_iff l other,
  labels_eq_iff l labels,
  entry_of-update_entry labels other change stats,
)

shard_at-update_shard :
    (i j : ℕ) (change : Stats → Stats) (shards : List Stats)
    → i < length shards
    → shard_at i (update_shard j change shards)
      ≡ (if j == i then change (shard_at i shards) else shard_at i shards)
unfolding shard_at update_shard
shard_at-update_shard i j change [] below = absurd (omega arith)
shard_at-update_shard zero zero change (shard ∷ shards) below = refl
shard_at-update_shard zero (suc j) change (shard ∷ shards) below = ground arith
shard_at-update_shard (suc i) zero change (shard ∷ shards) below = ground arith
shard_at-update_shard (suc i) (suc j) change (shard ∷ shards) below =
    shard_at-update_shard i j change shards (omega arith) ∙ ground arith

shard_index-lt : (labels : GatewayLabels) → shard_index labels < metric_shards
unfolding shard_index
shard_index-lt labels = omega arith

-- In a registry of sixteen shards, an observation changes the counters of its own labels as
-- `observe` says, whatever shard they are in, and those of no other labels.
pub metrics_of-observe_gateway :
    (observation : GatewayObservation) (registry : MetricsRegistry) (labels : GatewayLabels)
    → length registry.shards ≡ 16
    → metrics_of labels (observe_gateway observation registry) ≡ (
        if labels_eq (labels_of observation) labels
        then observe observation (metrics_of labels registry)
        else metrics_of labels registry)
unfolding metrics_of observe_gateway
metrics_of-observe_gateway observation registry labels sixteen =
    let own = labels_of observation in
    let change = update_entry own (observe observation) in
    let index = shard_index labels in
    let below : index < length registry.shards = omega (arith, shard_index-lt labels) in
    let moved = shard_at-update_shard index (shard_index own) change registry.shards below in
    let entries =
      entry_of-update_entry labels own (observe observation) (shard_at index registry.shards) in
    elim (Bool-cases (labels_eq own labels)) [
      | inl mine ↦
          let same : own ≡ labels = (labels_eq_iff own labels).0 mine in
          let here : (shard_index own == index) ≡ true =
            (==_iff (shard_index own) index).1 (ap shard_index same) in
          rw (moved, here) entries
      | inr other ↦ elim (Bool-cases (shard_index own == index)) [
        | inl here ↦ rw (moved, here) entries
        | inr away ↦ rw (moved, away, other) refl
      ]
    ]

-- The buckets never fall from one bound to the next, and none is above the top.
abbrev pub IsCumulative : ℕ → List ℕ → ℕ → Type 0
IsCumulative below [] top = below ≤ top
IsCumulative below (bucket ∷ buckets) top = (below ≤ bucket) × IsCumulative bucket buckets top

abbrev IsAscending : ℕ → List ℕ → Type 0
IsAscending below [] = Unit
IsAscending below (bound ∷ bounds) = (below ≤ bound) × IsAscending bound bounds

IsCumulative-le :
    (below : ℕ) (buckets : List ℕ) (top : ℕ) → IsCumulative below buckets top → below ≤ top
IsCumulative-le below [] top h = h
IsCumulative-le below (bucket ∷ buckets) top h =
    omega (arith, h.0, IsCumulative-le bucket buckets top h.1)

abbrev counted : ℕ → ℕ → ℕ
counted latency_ms bound = if leb latency_ms bound then 1 else 0

count_latency-IsCumulative :
    (latency_ms previous below top : ℕ) (bounds buckets : List ℕ)
    → IsAscending previous bounds
    → length bounds ≡ length buckets
    → IsCumulative below buckets top
    → top + 1 < u64_mod
    → IsCumulative
        (below + counted latency_ms previous)
        (count_latency latency_ms bounds buckets)
        (top + 1)
unfolding count_latency
count_latency-IsCumulative latency_ms previous below top [] [] ascending same h small = ground arith
count_latency-IsCumulative latency_ms previous below top [] (b ∷ buckets) ascending same h small =
    absurd (omega arith)
count_latency-IsCumulative latency_ms previous below top (b ∷ bounds) [] ascending same h small =
    absurd (omega arith)
count_latency-IsCumulative latency_ms previous below top (bound ∷ bounds) (bucket ∷ buckets)
      ascending same h small =
    let under = IsCumulative-le bucket buckets top h.1 in
    let rest =
      count_latency-IsCumulative latency_ms bound bucket top bounds buckets ascending.1
        (omega arith) h.1 small in
    elim (Bool-cases (leb latency_ms bound)) [
      | inl within ↦ ground (arith, within, rest, under, ascending, h)
      | inr over ↦ ground (arith, over, rest, under, ascending, h)
    ]

IsCumulative-weaken :
    (below under : ℕ) (buckets : List ℕ) (top : ℕ)
    → under ≤ below
    → IsCumulative below buckets top
    → IsCumulative under buckets top
IsCumulative-weaken below under [] top le h = omega arith
IsCumulative-weaken below under (bucket ∷ buckets) top le h = (omega (arith, h.0), h.1)

-- An observation that does not wrap the count keeps the histogram cumulative: each of the seven
-- buckets is at most the next, and the last is at most the count, which goes up by one.
pub observe-IsCumulative :
    (observation : GatewayObservation) (metrics : MetricSet)
    → length metrics.latency.buckets ≡ 7
    → IsCumulative 0 metrics.latency.buckets metrics.latency.count
    → metrics.latency.count + 1 < u64_mod
    → IsCumulative 0
        (observe observation metrics).latency.buckets
        (observe observation metrics).latency.count
      × ((observe observation metrics).latency.count ≡ metrics.latency.count + 1)
unfolding observe
observe-IsCumulative observation metrics seven cumulative small =
    let count = metrics.latency.count in
    let up : add_u64 count 1 ≡ count + 1 = omega arith in
    let counting =
      count_latency-IsCumulative observation.latency_ms 0 0 count latency_buckets_ms
        metrics.latency.buckets (omega arith) (sym seven) cumulative small in
    (rw up (IsCumulative-weaken _ 0 _ (count + 1) (omega arith) counting), up)
