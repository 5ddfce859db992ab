-- ===== src/Gateway/Routes.antt =====
-- `resolve_model_route`: the route of a public model and its provider connection. The decryption of the
-- stored key is external: a parameter that gives the key, or the error of `decrypt_provider_api_key`.
use mizan.Prelude.{
  ℕ, not, ◌&&◌, Option, none, some, List, [], ◌∷◌, ◌++◌, Text, codes, text_eq, trim, ◌==◌, ℤ, pos,
  negsuc, if◌then◌else◌,
}
use mizan.Core.Id.{Uuid, IdText, parse_id}
use mizan.Core.Error.{AppResult, ok, err, ok_or, infrastructure, invalid_config}
use mizan.Core.Error
use mizan.Core.Exec.{Exec, Faults, meet, ◌>>=◌, ◌>>◌, gets, lift}
use mizan.Dispatch.Statements.{same_id}
use mizan.Gateway.Requests.{ResolvedModelRoute}

pub record ModelRoute : Type 0 where
  pub id : IdText
  pub public_model : Text
  pub provider_connection_id : IdText
  pub upstream_model : Text
  pub enabled : ℕ
  pub max_tokens : Option ℤ
  pub pricing_input_per_1m_tokens : ℤ
  pub pricing_output_per_1m_tokens : ℤ

pub record ProviderConnection : Type 0 where
  pub id : IdText
  pub provider_type : Text
  pub auth_mode : Text
  pub base_url : Text
  pub api_key_encrypted : Text
  pub enabled : ℕ

pub record RouteStore : Type 0 where
  pub model_routes : List ModelRoute
  pub provider_connections : List ProviderConnection
  pub faults : Faults

abbrev pub M : Type 0 → Type 0
M = Exec RouteStore

abbrev attempt : M (Unit {0})
attempt s = meet (λ s fs. record s { faults = fs }) infrastructure s.faults s

unfoldable pub find_connection : IdText → List ProviderConnection → Option ProviderConnection
find_connection id [] = none
find_connection id (pc ∷ pcs) =
    if same_id id pc.id && pc.enabled == 1 then some pc else find_connection id pcs

abbrev joined_with :
    ModelRoute → Option ProviderConnection → Option (ModelRoute × ProviderConnection)
joined_with mr none = none
joined_with mr (some pc) = some (mr, pc)

-- The first row of the join. `public_model` is UNIQUE and `id` the key, so there is at most one.
unfoldable pub find_route :
    Text → List ModelRoute → List ProviderConnection → Option (ModelRoute × ProviderConnection)
unfolding find_connection
find_route public_model [] pcs = none
find_route public_model (mr ∷ mrs) pcs =
    let rest = find_route public_model mrs pcs in
    if text_eq mr.public_model public_model && mr.enabled == 1
    then (elim (find_connection mr.provider_connection_id pcs) [
      | none ↦ rest
      | some pc ↦ some (mr, pc)
    ])
    else rest

-- `u64::try_from` of the stored limit.
unfoldable pub stored_max_tokens : Option ℤ → AppResult (Option ℕ)
stored_max_tokens none = ok none
stored_max_tokens (some (pos n)) = ok (some n)
stored_max_tokens (some (negsuc n)) =
    err (invalid_config (codes "model_route.max_tokens") (codes "max_tokens cannot be negative"))

-- The checks on the row, in their order. The text of the uuid parser's own error is left out.
unfoldable pub route_of_row :
    (Text → Uuid → Text → AppResult Text)
    → Option Text
    → ModelRoute × ProviderConnection
    → AppResult ResolvedModelRoute
unfolding stored_max_tokens
route_of_row decrypt provider_secret_key (mr, pc) =
    Error.◌>>=◌ (parse_id (infrastructure (codes "stored route id is invalid")) mr.id) (λ id.
      Error.◌>>=◌
        (parse_id (infrastructure (codes "stored provider connection id for route is invalid"))
          pc.id)
        (λ provider_connection_id.
          if not (text_eq pc.auth_mode (codes "api_key"))
          then err (
              invalid_config (codes "provider_connection.auth_mode") (
                codes "provider auth mode `"
                ++ pc.auth_mode
                ++ codes "` is registered but not runnable yet"))
          else Error.◌>>=◌
              (ok_or
                (invalid_config (codes "MIZAN_PROVIDER_SECRET_KEY")
                  (codes "set MIZAN_PROVIDER_SECRET_KEY before resolving model routes"))
                provider_secret_key)
              (λ secret.
                Error.◌>>=◌ (decrypt secret provider_connection_id pc.api_key_encrypted)
                  (λ provider_api_key. Error.◌>>=◌ (stored_max_tokens mr.max_tokens) (λ max_tokens.
                    ok (record {
                      id = id;
                      provider_connection_id = provider_connection_id;
                      upstream_model = mr.upstream_model;
                      provider_type = trim pc.provider_type;
                      provider_base_url = pc.base_url;
                      provider_api_key = provider_api_key;
                      max_tokens = max_tokens;
                      input_price_per_1m_tokens = mr.pricing_input_per_1m_tokens;
                      output_price_per_1m_tokens = mr.pricing_output_per_1m_tokens;
                    }))))))

unfoldable pub resolve_model_route :
    (Text → Uuid → Text → AppResult Text) → Option Text → Text → Text → M ResolvedModelRoute
unfolding find_route route_of_row
resolve_model_route decrypt provider_secret_key request_model_field public_model = do
  attempt
  found ← gets (λ s. find_route public_model s.model_routes s.provider_connections)
  row ←
      lift (ok_or (invalid_config request_model_field (codes "model not found or disabled")) found)
  lift (route_of_row decrypt provider_secret_key row)
