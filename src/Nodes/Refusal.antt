-- ===== src/Nodes/Refusal.antt =====
-- A revoked node is refused by the middleware.
use mizan.Prelude.{
  ◌≡◌, ◌≢◌, Bool, inl, inr, Option, Option-cases, none, some, List, [], Text, codes, All,
}
use mizan.Core.Id.{Uuid, parse_id}
use mizan.Core.Headers.{header_text}
use mizan.Core.Error.{AppResult, ok, err, ok_or, infrastructure, invalid_config, unauthorized}
use mizan.Core.Exec.{lift}
use mizan.Core.Exec.Rules.{bind_rule}
use mizan.Nodes.Table.{DbDaemonNode, NodeJson, NodeStore, attempt}
use mizan.Nodes.Signature.{DaemonNodeIdentity, HttpResult, Nonces}
use mizan.Nodes.Rows.{revoke_node}
use mizan.Nodes.Identity.{
  authorization_token, find_token, find_identity, as_http, DaemonRequest, validated, identified,
  resolve_daemon_node_identity, daemon_node_auth,
}
use mizan.Nodes.Revocation.{
  IsGone, attempt-nodes, find_token-other, revoke_node_done, NodeCall, perform_calls, Spares,
  perform_calls-IsGone,
}
use mizan.Nodes.Choice.{parse_id-IsOther}

module _ (id : Uuid) where
  -- The identity that is found, if one is.
  abbrev IsAnother : AppResult DaemonNodeIdentity × NodeStore → Type 0
  IsAnother (ok identity, _) = identity.node_id ≢ id
  IsAnother (err error, _) = Unit

  abbrev pub AdmitsOther : {S : Type 0} → HttpResult DaemonNodeIdentity × S → Type 0
  AdmitsOther (inl refusal, _) = Unit
  AdmitsOther (inr identity, _) = identity.node_id ≢ id

  found-some :
      (o : Option DbDaemonNode) (row : DbDaemonNode) → ok_or unauthorized o ≡ ok row → o ≡ some row
  found-some none row e = absurd cc
  found-some (some r) row e = cc

  find_identity-IsAnother :
      (hash_value : Text → Text) (authorization : Text) (s : NodeStore)
      → All (IsGone id) s.nodes
      → IsAnother (find_identity hash_value authorization s)
  find_identity-IsAnother hash_value authorization s gone =
      bind_rule IsAnother (lift (ok_or unauthorized (authorization_token authorization))) _ s
        (λ _ _. tt)
        (λ token _.
          let s' = (attempt infrastructure s).1 in
          bind_rule IsAnother (attempt infrastructure) _ s (λ _ _. tt)
            (λ _ _.
              bind_rule IsAnother
                (lift (ok_or unauthorized (find_token (hash_value token) s'.nodes))) _ s'
                (λ _ _. tt)
                (λ row found.
                  bind_rule IsAnother
                    (lift (parse_id (invalid_config (codes "daemon node identity") []) row.id)) _ s'
                    (λ _ _. tt)
                    (λ u parsed.
                      parse_id-IsOther id _ row.id u
                        (find_token-other id (hash_value token) s'.nodes row
                          (rw (attempt-nodes id infrastructure s) gone) (found-some _ row found))
                        parsed))))

  as_http-AdmitsOther :
      (out : AppResult DaemonNodeIdentity × NodeStore)
      → IsAnother out
      → AdmitsOther (as_http out.0, out.1)
  as_http-AdmitsOther (ok identity, s) another = another
  as_http-AdmitsOther (err error, s) another = tt

  validated-AdmitsOther :
      (identity : DaemonNodeIdentity) (out : HttpResult (Unit {0}) × Nonces) (s : NodeStore)
      → identity.node_id ≢ id
      → AdmitsOther (validated identity out s)
  validated-AdmitsOther identity (inl refusal, nonces) s another = tt
  validated-AdmitsOther identity (inr _, nonces) s another = another

  module _ (sha256_hex : Text → Text) (uuid_text : Uuid → Text) (r : DaemonRequest) where
    identified-AdmitsOther :
        (out : HttpResult DaemonNodeIdentity × NodeStore) (nonces : Nonces)
        → AdmitsOther out
        → AdmitsOther (identified sha256_hex uuid_text r out nonces)
    identified-AdmitsOther (inl refusal, s) nonces another = tt
    identified-AdmitsOther (inr identity, s) nonces another =
        validated-AdmitsOther identity _ s another

    daemon_node_auth-AdmitsOther :
        (s : NodeStore) (nonces : Nonces)
        → All (IsGone id) s.nodes
        → AdmitsOther (daemon_node_auth sha256_hex uuid_text r (s, nonces))
    unfolding daemon_node_auth resolve_daemon_node_identity
    daemon_node_auth-AdmitsOther s nonces gone =
        elim (Option-cases (header_text r.headers (codes "authorization"))) [
          | inl missing ↦ rw missing tt
          | inr (authorization, given) ↦ rw given (
              identified-AdmitsOther _ nonces
                (as_http-AdmitsOther _ (find_identity-IsAnother sha256_hex authorization s gone)))
        ]

    -- After a revocation that the database accepted, whatever reports, revocations and creations of
    -- other nodes follow, and whatever nonces are known: a request that the middleware lets pass, with
    -- any token and any signature, has the identity of another node.
    pub revoke_node-daemon_node_auth :
        (json : NodeJson) (is_unique : Text → Bool) (now : Text) (s : NodeStore) (b : Bool)
        (calls : List NodeCall) (nonces : Nonces)
        → (revoke_node now id s).0 ≡ ok b
        → All (Spares json is_unique id) calls
        → AdmitsOther (
            daemon_node_auth sha256_hex uuid_text r
              (perform_calls json is_unique calls (revoke_node now id s).1, nonces))
    revoke_node-daemon_node_auth json is_unique now s b calls nonces done spared =
        daemon_node_auth-AdmitsOther _ nonces
          (perform_calls-IsGone json is_unique id calls _ spared (revoke_node_done id now s b done))
