-- ===== src/Nodes/Identity.antt =====
-- The identity behind the token of a daemon, and the middleware that checks a request.
use mizan.Prelude.{
  ℕ, inl, inr, Bool, not, ◌&&◌, Option, none, some, List, [], ◌∷◌, Text, codes, text_eq, trim,
  is_empty, is_whitespace, to_ascii_lowercase, ◌==◌, if◌then◌else◌,
}
use mizan.Core.Id.{Uuid, parse_id}
use mizan.Core.Error.{
  AppError, AppResult, ok, err, ok_or, infrastructure, invalid_config, unauthorized,
}
use mizan.Core.Exec.{◌>>=◌, ◌>>◌, pure, lift, gets}
use mizan.Nodes.Table.{DbDaemonNode, NodeStore, M, attempt, status_revoked}
use mizan.Nodes.Signature.{
  DaemonNodeIdentity, HttpResult, map_error, Nonces, SignedRequest,
  validate_daemon_request_signature,
}
use mizan.Core.Headers.{HeaderMap, header_text}

-- The next word of a text, and what follows it: `split_whitespace`.
unfoldable pub next_word : Text → Text × Text
next_word [] = ([], [])
next_word (c ∷ s) =
    let (word, rest) = next_word s in if is_whitespace c then ([], s) else (c ∷ word, rest)

abbrev some_word : Text → Option Text
some_word word = if is_empty word then none else some word

unfoldable pub authorization_token : Text → Option Text
unfolding next_word
authorization_token raw_authorization =
    let (scheme, rest) = next_word (trim raw_authorization) in
    if text_eq (to_ascii_lowercase scheme) (codes "bearer")
    then some_word (next_word (trim rest)).0
    else none

-- WHERE token_hash = ? AND revoked = 0 AND status != ?
unfoldable pub is_token_of : Text → DbDaemonNode → Bool
is_token_of token_hash node =
    text_eq node.token_hash token_hash
    && node.revoked == 0
    && not (text_eq node.status status_revoked)

unfoldable pub find_token : Text → List DbDaemonNode → Option DbDaemonNode
unfolding is_token_of
find_token token_hash [] = none
find_token token_hash (node ∷ nodes) =
    if is_token_of token_hash node then some node else find_token token_hash nodes

-- The status of a refusal: 500 if the query failed, else 401.
abbrev refusal_status : AppError → ℕ
refusal_status (infrastructure _) = 500
refusal_status _ = 401

abbrev pub as_http : {A : Type 0} → AppResult A → HttpResult A
as_http (ok a) = inr a
as_http (err error) = map_error (refusal_status error) error

-- The query is the only step that fails with an infrastructure error.
abbrev pub find_identity : (hash_value : Text → Text) (authorization : Text) → M DaemonNodeIdentity
find_identity hash_value authorization = do
  token ← lift (ok_or unauthorized (authorization_token authorization))
  attempt infrastructure
  found ← gets (λ s. find_token (hash_value token) s.nodes)
  row ← lift (ok_or unauthorized found)
  node_id ← lift (parse_id (invalid_config (codes "daemon node identity") []) row.id)
  pure (record { node_id = node_id; status = row.status; token_hash = row.token_hash })

-- `hash_value` is the SHA-256 of a text; the text of the uuid parser's own error is left out.
unfoldable pub resolve_daemon_node_identity :
    (hash_value : Text → Text) (authorization : Text)
    → NodeStore
    → HttpResult DaemonNodeIdentity × NodeStore
unfolding authorization_token find_token attempt
resolve_daemon_node_identity hash_value authorization s =
    let (result, s') = find_identity hash_value authorization s in (as_http result, s')

-- A request before its node is known, and the reading of the clock.
pub record DaemonRequest : Type 0 where
  pub now : ℕ
  pub method : Text
  pub path : Text
  pub headers : HeaderMap

abbrev pub AuthState : Type 0
AuthState = NodeStore × Nonces

abbrev pub signed_by : DaemonRequest → DaemonNodeIdentity → SignedRequest
signed_by r identity = record {
  now = r.now;
  method = r.method;
  path = r.path;
  headers = r.headers;
  identity = identity;
}

abbrev pub validated :
    DaemonNodeIdentity
    → HttpResult (Unit {0}) × Nonces
    → NodeStore
    → HttpResult DaemonNodeIdentity × AuthState
validated identity (inl refusal, nonces) s = (inl refusal, (s, nonces))
validated identity (inr _, nonces) s = (inr identity, (s, nonces))

module _ (sha256_hex : Text → Text) (uuid_text : Uuid → Text) where
  abbrev pub identified :
      DaemonRequest
      → HttpResult DaemonNodeIdentity × NodeStore
      → Nonces
      → HttpResult DaemonNodeIdentity × AuthState
  identified r (inl refusal, s) nonces = (inl refusal, (s, nonces))
  identified r (inr identity, s) nonces =
      validated identity
        (validate_daemon_request_signature sha256_hex uuid_text (signed_by r identity) nonces) s

  abbrev pub authorized :
      DaemonRequest → Option Text → AuthState → HttpResult DaemonNodeIdentity × AuthState
  authorized r none state = (map_error 401 unauthorized, state)
  authorized r (some authorization) (s, nonces) =
      identified r (resolve_daemon_node_identity sha256_hex authorization s) nonces

  -- The middleware before the handlers of the daemons: the identity that it puts into the request.
  unfoldable pub daemon_node_auth :
      DaemonRequest → AuthState → HttpResult DaemonNodeIdentity × AuthState
  unfolding resolve_daemon_node_identity validate_daemon_request_signature header_text
  daemon_node_auth r state = authorized r (header_text r.headers (codes "authorization")) state
