-- ===== src/Metrics/Labels.antt =====
-- The labels of a metric: how they are cleaned, compared, and sent to a shard.
use mizan.Prelude.{
  ℕ, ◌*◌, ◌%◌, Bool, ◌&&◌, ◌||◌, Option, none, some, List, [], ◌∷◌, Text, codes, text_eq, trim, ltb,
  is_empty, ◌==◌, length, u64_mod, xor_bits, to_le_bytes, as_bytes, if◌then◌else◌,
}
use mizan.Dispatch.Statements.{text_ltb}

pub record GatewayLabels : Type 0 where
  pub route : Text
  pub provider : Text
  pub model : Text
  pub daemon_node : Text
  pub status : ℕ

-- The derived `==`.
unfoldable pub labels_eq : GatewayLabels → GatewayLabels → Bool
labels_eq a b =
    text_eq a.route b.route
    && text_eq a.provider b.provider
    && text_eq a.model b.model
    && text_eq a.daemon_node b.daemon_node
    && a.status == b.status

-- The derived order, field by field.
unfoldable pub labels_ltb : GatewayLabels → GatewayLabels → Bool
unfolding text_ltb
labels_ltb a b =
    text_ltb a.route b.route
    || (text_eq a.route b.route
        && (text_ltb a.provider b.provider
            || (text_eq a.provider b.provider
                && (text_ltb a.model b.model
                    || (text_eq a.model b.model
                        && (text_ltb a.daemon_node b.daemon_node
                            || (text_eq a.daemon_node b.daemon_node && ltb a.status b.status)))))))

unfoldable pub normalize_label : Text → Text
normalize_label value = if is_empty (trim value) then codes "unknown" else trim value

unfoldable pub normalize_optional_label : Option Text → Text
unfolding normalize_label
normalize_optional_label none = codes "none"
normalize_optional_label (some value) = normalize_label value

abbrev pub metric_shards : ℕ
metric_shards = 16

abbrev pub fnv_offset_basis : ℕ
fnv_offset_basis = 0xcbf29ce484222325

abbrev pub fnv_prime : ℕ
fnv_prime = 0x00000100000001b3

unfoldable pub fnv1a : ℕ → List ℕ → ℕ
fnv1a hash [] = hash
fnv1a hash (byte ∷ value) = fnv1a (xor_bits 64 hash byte * fnv_prime % u64_mod) value

unfoldable pub fnv1a_len_prefixed : ℕ → List ℕ → ℕ
unfolding fnv1a
fnv1a_len_prefixed hash value = fnv1a (fnv1a hash (to_le_bytes 8 (length value))) value

unfoldable pub shard_index : GatewayLabels → ℕ
unfolding fnv1a fnv1a_len_prefixed
shard_index labels =
    let route = fnv1a_len_prefixed fnv_offset_basis (as_bytes labels.route) in
    let provider = fnv1a_len_prefixed route (as_bytes labels.provider) in
    let model = fnv1a_len_prefixed provider (as_bytes labels.model) in
    let daemon_node = fnv1a_len_prefixed model (as_bytes labels.daemon_node) in
    fnv1a daemon_node (to_le_bytes 2 labels.status) % metric_shards
