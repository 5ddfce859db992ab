-- ===== src/Metrics/Render.antt =====
-- `render_prometheus`: the exposition text of the registry.
use mizan.Prelude.{ℕ, List, [], ◌∷◌, ◌++◌, Text, codes, ◌==◌, if◌then◌else◌}
use mizan.Prelude.Decimal.{to_decimal, to_decimal_int}
use mizan.Metrics.Labels.{GatewayLabels, labels_ltb}
use mizan.Metrics.{MetricSet, Stats, MetricsRegistry, latency_buckets_ms}

-- `str::replace` of one character.
unfoldable pub replace_char : ℕ → Text → Text → Text
replace_char c by [] = []
replace_char c by (d ∷ s) = (if d == c then by else d ∷ []) ++ replace_char c by s

unfoldable pub escape_label : Text → Text
escape_label value =
    replace_char 10 (b'\\' ∷ b'n' ∷ [])
      (replace_char b'"' (b'\\' ∷ b'"' ∷ []) (replace_char b'\\' (b'\\' ∷ b'\\' ∷ []) value))

-- `GatewayLabels::prometheus`.
unfoldable pub prometheus : GatewayLabels → Text
unfolding escape_label
prometheus labels =
    codes "route=\""
    ++ escape_label labels.route
    ++ codes "\",provider=\""
    ++ escape_label labels.provider
    ++ codes "\",model=\""
    ++ escape_label labels.model
    ++ codes "\",daemon_node=\""
    ++ escape_label labels.daemon_node
    ++ codes "\",status=\""
    ++ to_decimal labels.status
    ++ codes "\""

-- `sort_by`: the key of an entry is its labels.
unfoldable pub insert_by_labels : GatewayLabels × MetricSet → Stats → Stats
insert_by_labels entry [] = entry ∷ []
insert_by_labels entry (e ∷ stats) =
    let rest = insert_by_labels entry stats in
    if labels_ltb e.0 entry.0 then e ∷ rest else entry ∷ e ∷ stats

unfoldable pub sort_by_labels : Stats → Stats
unfolding insert_by_labels
sort_by_labels [] = []
sort_by_labels (entry ∷ stats) = insert_by_labels entry (sort_by_labels stats)

abbrev pub all_entries : List Stats → Stats
all_entries [] = []
all_entries (shard ∷ shards) = shard ++ all_entries shards

unfoldable pub snapshot : MetricsRegistry → Stats
unfolding sort_by_labels
snapshot registry = sort_by_labels (all_entries registry.shards)

-- One text per entry, in order.
abbrev for_each : (GatewayLabels × MetricSet → Text) → Stats → Text
for_each line [] = []
for_each line (entry ∷ stats) = line entry ++ for_each line stats

-- `{name}{{{labels}}} {value}` and the end of the line.
abbrev sample : Text → Text → Text → Text
sample name labels value = name ++ codes "{" ++ labels ++ codes "} " ++ value ++ codes "\n"

unfoldable pub append_counter : Text → Text → Text → Stats → (MetricSet → ℕ) → Text
unfolding prometheus
append_counter output name help stats value =
    output
    ++ (codes "# HELP " ++ name ++ codes " " ++ help ++ codes "\n")
    ++ (codes "# TYPE " ++ name ++ codes " counter\n")
    ++ for_each (λ entry. sample name (prometheus entry.0) (to_decimal (value entry.1))) stats

-- One line per bucket, while bounds and counts are left.
abbrev bucket_lines : Text → (bounds buckets : List ℕ) → Text
bucket_lines labels [] buckets = []
bucket_lines labels (bound ∷ bounds) [] = []
bucket_lines labels (bound ∷ bounds) (bucket ∷ buckets) =
    sample (codes "mizan_gateway_latency_ms_bucket")
      (labels ++ codes ",le=\"" ++ to_decimal bound ++ codes "\"") (to_decimal bucket)
    ++ bucket_lines labels bounds buckets

unfoldable pub latency_lines : GatewayLabels × MetricSet → Text
unfolding prometheus
latency_lines (labels, metrics) =
    let shown = prometheus labels in
    bucket_lines shown latency_buckets_ms metrics.latency.buckets
    ++ sample (codes "mizan_gateway_latency_ms_bucket") (shown ++ codes ",le=\"+Inf\"")
        (to_decimal metrics.latency.count)
    ++ sample (codes "mizan_gateway_latency_ms_sum") shown (to_decimal metrics.latency.sum_ms)
    ++ sample (codes "mizan_gateway_latency_ms_count") shown (to_decimal metrics.latency.count)

unfoldable pub render_prometheus : MetricsRegistry → Text
unfolding prometheus snapshot append_counter latency_lines
render_prometheus registry =
    let stats = snapshot registry in
    let requests =
      codes
        "# HELP mizan_gateway_requests_total Gateway requests by route, provider, model, daemon node, and status.\n"
      ++ codes "# TYPE mizan_gateway_requests_total counter\n"
      ++ for_each
          (λ entry.
            sample (codes "mizan_gateway_requests_total") (prometheus entry.0)
              (to_decimal entry.1.requests))
          stats in
    let prompt =
      append_counter requests (codes "mizan_gateway_prompt_tokens_total")
        (codes "Prompt tokens observed by the gateway.") stats (λ metrics. metrics.prompt_tokens) in
    let completion =
      append_counter prompt (codes "mizan_gateway_completion_tokens_total")
        (codes "Completion tokens observed by the gateway.") stats
        (λ metrics. metrics.completion_tokens) in
    let tokens =
      append_counter completion (codes "mizan_gateway_tokens_total")
        (codes "Total tokens observed by the gateway.") stats (λ metrics. metrics.total_tokens) in
    tokens
    ++ codes "# HELP mizan_gateway_credits_charged_total Microcredits charged by the gateway.\n"
    ++ codes "# TYPE mizan_gateway_credits_charged_total counter\n"
    ++ for_each
        (λ entry.
          sample (codes "mizan_gateway_credits_charged_total") (prometheus entry.0)
            (to_decimal_int entry.1.credits))
        stats
    ++ codes "# HELP mizan_gateway_latency_ms Gateway latency in milliseconds.\n"
    ++ codes "# TYPE mizan_gateway_latency_ms histogram\n"
    ++ for_each latency_lines stats
