-- ===== src/Metrics/Tests.antt =====
-- Observations, and the theorems applied to them.
use mizan.Prelude.{
  ◌+◌, ◌≡◌, refl, true, some, none, [], ◌∷◌, codes, pos, Text, arith, if◌then◌else◌,
}
use mizan.Metrics.Labels.{GatewayLabels, labels_eq}
use mizan.Metrics.{
  GatewayObservation, empty_registry, no_metrics, labels_of, observe, observe_gateway,
}
use mizan.Metrics.Laws.{metrics_of, metrics_of-observe_gateway, IsCumulative, observe-IsCumulative}
use mizan.Metrics.Render.{replace_char, escape_label}
use mizan.Metrics.Escape.{unescape, unescape-escape_label}

abbrev seen : GatewayObservation
seen = record {
  route = codes " public-model";
  provider = codes "openai";
  model = [];
  daemon_node = none;
  status = 200;
  usage = record { prompt_tokens = 10; completion_tokens = 5; total_tokens = 15; estimated = true };
  latency_ms = 125;
  route_price = record {
    input_microcredits_per_1m_tokens = pos 1000000;
    output_microcredits_per_1m_tokens = pos 2000000;
  };
}

abbrev shown : GatewayLabels
shown = record {
  route = codes "public-model";
  provider = codes "openai";
  model = codes "unknown";
  daemon_node = codes "none";
  status = 200;
}

metrics_of-observe_gateway_example : metrics_of shown (observe_gateway seen empty_registry) ≡ (
    if labels_eq (labels_of seen) shown
    then observe seen (metrics_of shown empty_registry)
    else metrics_of shown empty_registry)
metrics_of-observe_gateway_example = metrics_of-observe_gateway seen empty_registry shown refl

observe-IsCumulative_example :
    IsCumulative 0 (observe seen no_metrics).latency.buckets (observe seen no_metrics).latency.count
    × ((observe seen no_metrics).latency.count ≡ 0 + 1)
observe-IsCumulative_example = observe-IsCumulative seen no_metrics refl (omega arith) (omega arith)

-- A quote, a backslash and a new line.
abbrev label : Text
label = b'a' ∷ b'"' ∷ b'\\' ∷ 10 ∷ []

escaped_label : escape_label label ≡ b'a' ∷ b'\\' ∷ b'"' ∷ b'\\' ∷ b'\\' ∷ b'\\' ∷ b'n' ∷ []
unfolding escape_label replace_char
escaped_label = refl

unescape-escape_label_example : unescape (escape_label label) ≡ some label
unescape-escape_label_example = unescape-escape_label label
