-- ===== src/Nodes/Calls.antt =====
-- The handlers of the nodes: creation, revocation, registration, heartbeat and ping. The fresh ids and
-- the readings of the clock are arguments. The audits that follow a creation or a revocation are best
-- effort and are left out of the state; `revoke_audit` is the input of one.
use mizan.Prelude.{Bool, Option, none, some, ◌++◌, Text, codes, unwrap_or, if◌then◌else◌}
use mizan.Core.Id.{Uuid}
use mizan.Core.Error.{
  AppError, AppResult, ok, err, ok_or, infrastructure, invalid_config, not_found, unauthorized,
}
use mizan.Core.Error
use mizan.Core.Exec.{◌>>=◌, ◌>>◌, pure, throw, lift}
use mizan.Logging.{AdminAuditInput}
use mizan.Nodes.Table.{NodeJson, M, normalize_optional, status_pending, status_active}
use mizan.Nodes.Capabilities.{
  DaemonCapabilityPayload, DaemonCapabilityResponse, NormalizedCapabilities, no_capabilities,
  normalize_capabilities, normalized_capability_response,
}
use mizan.Nodes.Signature.{DaemonNodeIdentity}
use mizan.Nodes.Payloads.{
  DaemonNodeCreateRequest, DaemonNodeCreateResponse, DaemonNodeRevokeResponse,
  DaemonRegistrationRequest, DaemonHeartbeatRequest, DaemonRegistrationResponse, DaemonPingResponse,
}
use mizan.Nodes.Rows.{ensure_user_exists, mark_node_seen, revoke_node, new_node, insert_node}

-- `hash_value` stands for the digest of the token, and `uuid_text` for the printed form of a uuid; `secret`
-- is the fresh part of the token.
unfoldable pub create_daemon_node :
    (hash_value : Text → Text) (uuid_text : Uuid → Text) (is_unique : Text → Bool)
    (duplicate : Text) (id secret user_id : Uuid) (now : Text)
    → DaemonNodeCreateRequest
    → M DaemonNodeCreateResponse
unfolding ensure_user_exists insert_node normalize_optional
create_daemon_node hash_value uuid_text is_unique duplicate id secret user_id now payload = do
  let host_user_id = unwrap_or user_id payload.host_user_id
  ensure_user_exists host_user_id
  let label = normalize_optional payload.label
  let hostname = normalize_optional payload.hostname
  let public_key = normalize_optional payload.public_key
  let token = codes "mizan_sk_daemon_" ++ uuid_text secret
  insert_node is_unique duplicate
      (new_node id host_user_id (hash_value token) now label hostname public_key)
  pure (record {
    id = id;
    token = token;
    token_type = codes "Bearer";
    status = status_pending;
    host_user_id = some host_user_id;
    label = label;
    hostname = hostname;
    public_key = public_key;
    created_at = now;
  })

-- The input of the audit of a revocation.
abbrev pub revoke_audit : (Uuid → Text) → Uuid → Uuid → Option Text → AdminAuditInput
revoke_audit uuid_text actor id payload = record {
  actor_user_id = some actor;
  action = codes "daemon_node_revoked";
  entity_type = codes "daemon_node";
  entity_id = some (uuid_text id);
  payload_json = payload;
}

unfoldable pub revoke_daemon_node : (now : Text) → Uuid → M DaemonNodeRevokeResponse
unfolding revoke_node
revoke_daemon_node now id = do
  revoked ← revoke_node now id
  if revoked
      then pure (record { id = id; revoked = revoked })
      else throw (not_found (codes "daemon node not found"))

abbrev optional_capabilities :
    Option DaemonCapabilityPayload → AppResult (Option NormalizedCapabilities)
optional_capabilities none = ok none
optional_capabilities (some payload) =
    Error.◌>>=◌ (normalize_capabilities payload) (λ capabilities. ok (some capabilities))

abbrev shown_capabilities : Option NormalizedCapabilities → DaemonCapabilityResponse
shown_capabilities none = no_capabilities
shown_capabilities (some capabilities) = normalized_capability_response capabilities

unfoldable pub register_daemon_node :
    NodeJson
    → (now : Text) → DaemonNodeIdentity
    → DaemonRegistrationRequest
    → M DaemonRegistrationResponse
unfolding mark_node_seen normalize_optional
register_daemon_node json now identity payload = do
  capabilities ← lift (optional_capabilities payload.capabilities)
  last_seen_at ←
      mark_node_seen json now identity.node_id (normalize_optional payload.hostname)
        (normalize_optional payload.public_key) capabilities
  pure (record {
    node_id = identity.node_id;
    status = status_active;
    last_seen_at = last_seen_at;
    capabilities = shown_capabilities capabilities;
  })

unfoldable pub daemon_heartbeat :
    NodeJson
    → (now : Text) → DaemonNodeIdentity
    → DaemonHeartbeatRequest
    → M DaemonRegistrationResponse
unfolding mark_node_seen normalize_optional
daemon_heartbeat json now identity payload = do
  capabilities ← lift (normalize_capabilities payload.capabilities)
  last_seen_at ←
      mark_node_seen json now identity.node_id (normalize_optional payload.hostname)
        (normalize_optional payload.public_key) (some capabilities)
  pure (record {
    node_id = identity.node_id;
    status = status_active;
    last_seen_at = last_seen_at;
    capabilities = normalized_capability_response capabilities;
  })

unfoldable pub daemon_ping : NodeJson → (now : Text) → DaemonNodeIdentity → M DaemonPingResponse
unfolding mark_node_seen
daemon_ping json now identity = do
  last_seen_at ← mark_node_seen json now identity.node_id none none none
  pure
      (record { node_id = identity.node_id; status = identity.status; last_seen_at = last_seen_at })
