-- ===== src/Nodes/Capabilities.antt =====
-- What a daemon says of itself, and what is kept of it.
use mizan.Prelude.{
  ℕ, Bool, true, false, ◌||◌, Option, none, some, List, [], ◌∷◌, ◌++◌, Text, codes, text_eq, trim,
  is_empty, to_ascii_lowercase, any, ◌==◌, unwrap_or, ℤ, pos, negsuc, if◌then◌else◌,
}
use mizan.Core.Error.{AppError, AppResult, ok, err, invalid_config, infrastructure}
use mizan.Core.Error
use mizan.Nodes.Table.{
  DbDaemonNode, Value, NodeJson, health_status_healthy, normalize_optional, parse_json_vec,
  parse_optional_json_value,
}

pub record DaemonCapabilityPayload : Type 0 where
  pub provider_family : Text
  pub model_ids : List Text
  pub max_concurrency : ℕ
  pub pricing_metadata : Option Value
  pub region : Option Text
  pub labels : List Text
  pub health_status : Option Text
  pub metadata : Option Value

pub record DaemonCapabilityResponse : Type 0 where
  pub provider_family : Option Text
  pub model_ids : List Text
  pub max_concurrency : Option ℕ
  pub pricing_metadata : Option Value
  pub region : Option Text
  pub labels : List Text
  pub health_status : Option Text
  pub metadata : Option Value

pub record NormalizedCapabilities : Type 0 where
  pub provider_family : Text
  pub model_ids : List Text
  pub max_concurrency : ℕ
  pub pricing_metadata : Option Value
  pub region : Option Text
  pub labels : List Text
  pub health_status : Text
  pub metadata : Option Value

-- `DaemonCapabilityResponse::default()`
abbrev pub no_capabilities : DaemonCapabilityResponse
no_capabilities = record {
  provider_family = none;
  model_ids = [];
  max_concurrency = none;
  pricing_metadata = none;
  region = none;
  labels = [];
  health_status = none;
  metadata = none;
}

-- The loop, with what it has pushed.
unfoldable pub push_values : List Text → List Text → List Text
push_values normalized [] = normalized
push_values normalized (value ∷ values) =
    if is_empty (trim value) || any (λ candidate. text_eq candidate (trim value)) normalized
    then push_values normalized values
    else push_values (normalized ++ trim value ∷ []) values

unfoldable pub normalize_string_list : List Text → List Text
unfolding push_values
normalize_string_list values = push_values [] values

abbrev no_items : {A : Type 0} → List A → Bool
no_items [] = true
no_items (_ ∷ _) = false

unfoldable pub normalize_capabilities : DaemonCapabilityPayload → AppResult NormalizedCapabilities
normalize_capabilities payload =
    let provider_family = to_ascii_lowercase (trim payload.provider_family) in
    let model_ids = normalize_string_list payload.model_ids in
    if is_empty provider_family
    then err (
        invalid_config (codes "daemon_capabilities.provider_family")
          (codes "provider_family is required"))
    else if no_items model_ids
    then err (
        invalid_config (codes "daemon_capabilities.model_ids")
          (codes "at least one model id is required"))
    else if payload.max_concurrency == 0
    then err (
        invalid_config (codes "daemon_capabilities.max_concurrency")
          (codes "must be greater than zero"))
    else ok (record {
      provider_family = provider_family;
      model_ids = model_ids;
      max_concurrency = payload.max_concurrency;
      pricing_metadata = payload.pricing_metadata;
      region = normalize_optional payload.region;
      labels = normalize_string_list payload.labels;
      health_status =
          to_ascii_lowercase
            (unwrap_or health_status_healthy (normalize_optional payload.health_status));
      metadata = payload.metadata;
    })

unfoldable pub normalized_capability_response : NormalizedCapabilities → DaemonCapabilityResponse
normalized_capability_response value = record {
  provider_family = some value.provider_family;
  model_ids = value.model_ids;
  max_concurrency = some value.max_concurrency;
  pricing_metadata = value.pricing_metadata;
  region = value.region;
  labels = value.labels;
  health_status = some value.health_status;
  metadata = value.metadata;
}

-- `u32::try_from` of a stored i32.
unfoldable pub stored_concurrency : ℤ → AppResult ℕ
stored_concurrency (pos n) = ok n
stored_concurrency (negsuc n) =
    err (infrastructure (codes "stored daemon max_concurrency is invalid"))

abbrev optional_concurrency : Option ℤ → AppResult (Option ℕ)
optional_concurrency none = ok none
optional_concurrency (some value) = Error.◌>>=◌ (stored_concurrency value) (λ n. ok (some n))

unfoldable pub daemon_capability_response :
    NodeJson → DbDaemonNode → AppResult DaemonCapabilityResponse
unfolding stored_concurrency
daemon_capability_response json row =
    Error.◌>>=◌ (optional_concurrency row.max_concurrency) (λ max_concurrency.
      Error.◌>>=◌ (parse_json_vec json (codes "daemon_node.model_ids_json") row.model_ids_json)
        (λ model_ids.
          Error.◌>>=◌
            (parse_optional_json_value json (codes "daemon_node.pricing_metadata_json")
              row.pricing_metadata_json)
            (λ pricing_metadata.
              Error.◌>>=◌ (parse_json_vec json (codes "daemon_node.labels_json") row.labels_json)
                (λ labels.
                  Error.◌>>=◌
                    (parse_optional_json_value json (codes "daemon_node.capability_metadata_json")
                      row.capability_metadata_json)
                    (λ metadata. ok (record {
                      provider_family = row.provider_family;
                      model_ids = model_ids;
                      max_concurrency = max_concurrency;
                      pricing_metadata = pricing_metadata;
                      region = row.region;
                      labels = labels;
                      health_status = row.health_status;
                      metadata = metadata;
                    }))))))
