-- ===== src/Nodes/Rows.antt =====
-- What the handlers of the nodes do to the rows: ensure_user_exists, mark_node_seen, revoke_node, and the
-- insertion of create_daemon_node.
use mizan.Prelude.{
  ℕ, ◌^◌, Bool, not, ◌&&◌, ◌||◌, Option, none, some, [], ◌∷◌, ◌++◌, Text, codes, text_eq, any, ◌==◌,
  ltb, pos, if◌then◌else◌,
}
use mizan.Core.Id.{Uuid, printed, is_id}
use mizan.Dispatch.Statements.{same_id}
use mizan.Core.Error.{
  AppError, AppResult, ok, err, ok_or, infrastructure, invalid_config, not_found, unauthorized,
}
use mizan.Core.Error
use mizan.Core.Exec.{◌>>=◌, ◌>>◌, pure, throw, lift, gets, modify}
use mizan.Nodes.Table.{
  DbDaemonNode, NodeJson, M, attempt, execute_nodes, serialize_json, serialize_optional_json,
  status_pending, status_active, status_revoked,
}
use mizan.Nodes.Capabilities.{NormalizedCapabilities}

unfoldable pub ensure_user_exists : Uuid → M (Unit {0})
unfolding attempt
ensure_user_exists user_id = do
  attempt infrastructure
  exists ← gets (λ s. any (λ user. user == user_id) s.users)
  if exists
      then pure tt
      else throw
          (invalid_config (codes "daemon_node.host_user_id") (codes "host_user_id does not exist"))

-- COALESCE(?, column)
abbrev pub coalesce : Option Text → Option Text → Option Text
coalesce (some value) column = some value
coalesce none column = column

-- The columns that a report of capabilities sets, as they are stored.
pub record StoredCapabilities : Type 0 where
  pub provider_family : Text
  pub model_ids_json : Text
  pub max_concurrency : ℕ
  pub pricing_metadata_json : Option Text
  pub region : Option Text
  pub labels_json : Text
  pub health_status : Text
  pub metadata_json : Option Text

unfoldable pub stored_capabilities :
    NodeJson → NormalizedCapabilities → AppResult StoredCapabilities
stored_capabilities json c = Error.◌>>=◌ (serialize_json json.print_list c.model_ids) (λ model_ids.
    Error.◌>>=◌
      (if ltb c.max_concurrency (2 ^ 31)
        then ok c.max_concurrency
        else err (
            invalid_config (codes "daemon_capabilities.max_concurrency")
              (codes "max_concurrency exceeds database integer range")))
      (λ max_concurrency.
        Error.◌>>=◌ (serialize_optional_json json.print_value c.pricing_metadata) (λ pricing.
          Error.◌>>=◌ (serialize_json json.print_list c.labels) (λ labels.
            Error.◌>>=◌ (serialize_optional_json json.print_value c.metadata) (λ metadata.
              ok (record {
                provider_family = c.provider_family;
                model_ids_json = model_ids;
                max_concurrency = max_concurrency;
                pricing_metadata_json = pricing;
                region = c.region;
                labels_json = labels;
                health_status = c.health_status;
                metadata_json = metadata;
              }))))))

abbrev pub set_seen : Text → Option Text → Option Text → DbDaemonNode → DbDaemonNode
set_seen now hostname public_key node = record node {
  status = status_active;
  last_seen_at = some now;
  hostname = coalesce hostname node.hostname;
  public_key = coalesce public_key node.public_key;
  updated_at = now;
}

abbrev pub set_capabilities : StoredCapabilities → DbDaemonNode → DbDaemonNode
set_capabilities c node = record node {
  provider_family = some c.provider_family;
  model_ids_json = c.model_ids_json;
  max_concurrency = some (pos c.max_concurrency);
  pricing_metadata_json = c.pricing_metadata_json;
  region = c.region;
  labels_json = c.labels_json;
  health_status = some c.health_status;
  capability_metadata_json = c.metadata_json;
}

-- WHERE id = ? AND revoked = 0 AND status != ?
unfoldable pub can_be_seen : Uuid → DbDaemonNode → Bool
can_be_seen node_id node =
    is_id node.id node_id && node.revoked == 0 && not (text_eq node.status status_revoked)

-- Exactly one row must have changed.
abbrev pub seen_once : Text → ℕ → M Text
seen_once now count = if not (count == 1) then throw unauthorized else pure now

unfoldable pub mark_node_seen :
    NodeJson
    → (now : Text) → Uuid
    → (hostname public_key : Option Text) → Option NormalizedCapabilities
    → M Text
unfolding execute_nodes can_be_seen stored_capabilities
mark_node_seen json now node_id hostname public_key (some capabilities) = do
  stored ← lift (stored_capabilities json capabilities)
  count ←
      execute_nodes (can_be_seen node_id)
        (λ node. set_capabilities stored (set_seen now hostname public_key node))
  seen_once now count
mark_node_seen json now node_id hostname public_key none = do
  count ← execute_nodes (can_be_seen node_id) (set_seen now hostname public_key)
  seen_once now count

-- WHERE id = ? AND revoked = 0
unfoldable pub can_be_revoked : Uuid → DbDaemonNode → Bool
can_be_revoked node_id node = is_id node.id node_id && node.revoked == 0

abbrev pub set_revoked : Text → DbDaemonNode → DbDaemonNode
set_revoked now node = record node { status = status_revoked; revoked = 1; updated_at = now }

unfoldable pub revoke_node : (now : Text) → Uuid → M Bool
unfolding execute_nodes can_be_revoked
revoke_node now node_id = do
  count ← execute_nodes (can_be_revoked node_id) (set_revoked now)
  pure (count == 1)

-- `duplicate` says whether the driver's error is about a unique column.
unfoldable pub map_insert_error : (Text → Bool) → Text → AppError
map_insert_error is_unique_constraint_error error =
    if is_unique_constraint_error error
    then invalid_config (codes "daemon_node.token") (codes "daemon node token must be unique")
    else infrastructure error

abbrev pub new_node :
    Uuid → Uuid → (token_hash now : Text) → (label hostname public_key : Option Text) → DbDaemonNode
new_node id host_user_id token_hash now label hostname public_key = record {
  id = printed id;
  host_user_id = some (printed host_user_id);
  label = label;
  hostname = hostname;
  public_key = public_key;
  token_hash = token_hash;
  status = status_pending;
  revoked = 0;
  disabled = 0;
  last_seen_at = none;
  provider_family = none;
  model_ids_json = codes "[]";
  max_concurrency = none;
  pricing_metadata_json = none;
  region = none;
  labels_json = codes "[]";
  health_status = none;
  capability_metadata_json = none;
  created_at = now;
  updated_at = now;
}

abbrev pub same_row : DbDaemonNode → DbDaemonNode → Bool
same_row a b = same_id a.id b.id || text_eq a.token_hash b.token_hash

-- INSERT, refused where the id or the token is taken; `duplicate` is the text of that error.
unfoldable pub insert_node : (Text → Bool) → Text → DbDaemonNode → M (Unit {0})
unfolding attempt map_insert_error
insert_node is_unique duplicate node = do
  attempt (map_insert_error is_unique)
  taken ← gets (λ s. any (same_row node) s.nodes)
  if taken
      then throw (map_insert_error is_unique duplicate)
      else modify (λ s. record s { nodes = s.nodes ++ node ∷ [] })
