-- ===== src/Nodes/Tests.antt =====
-- Runs of the nodes' operations on small examples.
use mizan.Prelude.{
  ℕ, ◌≡◌, refl, true, List, [], ◌∷◌, Text, codes, none, as_bytes, xor_bits, to_ascii_lowercase, inr,
  arith, text_eq, trim, ◌-ℤ◌, ◌+ℤ◌,
}
use mizan.Core.Error.{ok}
use mizan.Core.Id.{Uuid}
use mizan.Core.Headers.{HeaderMap, readable, get_header, header_text}
use mizan.Nodes.Table.{
  DbDaemonNode, NodeJson, NodeStore, attempt, execute_nodes, update_nodes, affected_nodes,
  status_pending, status_revoked,
}
use mizan.Nodes.Signature.{
  SignedRequest, header_value, and_then, timestamp_of, parse_i64, read_digits, age_seconds,
  nonce_expiry, requires_body_signature, verify_daemon_signature, compute_daemon_signature,
  secure_eq, fold_diff, or_bits, checked_nonce, remember_nonce, contains_key, prune_stale_nonces,
  validate_daemon_request_signature,
}
use mizan.Nodes.Signature.Replay.{IsAccepted, validate, after_all, validate-replay}
use mizan.Nodes.Rows.{
  new_node, revoke_node, mark_node_seen, can_be_seen, insert_node, can_be_revoked,
}
use mizan.Nodes.Identity.{
  DaemonRequest, daemon_node_auth, resolve_daemon_node_identity, authorization_token, next_word,
  find_token, is_token_of,
}
use mizan.Nodes.Revocation.{NodeCall, seen, created, perform_call, perform_calls}
use mizan.Nodes.Refusal.{AdmitsOther, revoke_node-daemon_node_auth}
use mizan.Nodes.Choice.{ChoosesOther, revoke_node-select_eligible_daemon_node}
use mizan.Nodes.Select.{select_eligible_daemon_node}

-- A hash that does not depend on the text, and a printer of uuids.
abbrev hash : Text → Text
hash text = codes "ab"

abbrev uuid_text : Uuid → Text
uuid_text id = codes "node"

abbrev headers : HeaderMap
headers =
    (codes "x-mizan-daemon-timestamp", readable (codes "1000"))
    ∷ (codes "x-mizan-daemon-nonce", readable (codes "n"))
    ∷ (codes "x-mizan-daemon-signature", readable (codes "ab"))
    ∷ (codes "x-mizan-daemon-body-hash", readable (codes "00"))
    ∷ []

abbrev request : ℕ → SignedRequest
request now = record {
  now = now;
  method = codes "POST";
  path = codes "/daemon/heartbeat";
  headers = headers;
  identity = record { node_id = 3; status = codes "active"; token_hash = codes "t" };
}

request_accepted : (validate hash uuid_text (request 1100) []).0 ≡ inr tt
unfolding validate_daemon_request_signature checked_nonce header_value header_text get_header
    and_then timestamp_of parse_i64 read_digits age_seconds nonce_expiry requires_body_signature
    verify_daemon_signature compute_daemon_signature secure_eq fold_diff or_bits remember_nonce
    contains_key prune_stale_nonces text_eq codes trim ◌-ℤ◌ ◌+ℤ◌ as_bytes
request_accepted = refl

validate-replay_example :
    ¬ IsAccepted
      (validate hash uuid_text (request 1200) (
        after_all hash uuid_text
          (request 1150 ∷ [])
          (validate hash uuid_text (request 1100) []).1)).0
validate-replay_example =
    validate-replay hash uuid_text (request 1100) (request 1200) (request 1150 ∷ []) []
      (rw request_accepted tt) refl refl (omega arith, tt)

abbrev json : NodeJson
json = record {
  print_list = λ texts. inr (codes "[]");
  read_list = λ text. inr [];
  print_value = λ value. inr value;
  read_value = λ text. inr text;
}

abbrev node : Uuid → DbDaemonNode
node id = new_node id 1 (codes "token") (codes "5") none none none

abbrev store : NodeStore
store = record { nodes = node 3 ∷ node 4 ∷ []; users = 1 ∷ []; faults = [] }

store_revoked : (revoke_node (codes "9") 3 store).0 ≡ ok true
unfolding revoke_node execute_nodes attempt affected_nodes can_be_revoked
store_revoked = refl

abbrev calls : List NodeCall
calls = seen (codes "10") 3 none none none ∷ created (codes "taken") (node 5) ∷ []

abbrev final : NodeStore
final = perform_calls json (λ text. true) calls (revoke_node (codes "9") 3 store).1

-- A token and a signature that the hash of every text fits.
abbrev token_hash : Text → Text
token_hash text = codes "token"

abbrev daemon_request : DaemonRequest
daemon_request = record {
  now = 1100;
  method = codes "POST";
  path = codes "/daemon/heartbeat";
  headers =
      (codes "authorization", readable (codes "Bearer secret"))
      ∷ (codes "x-mizan-daemon-timestamp", readable (codes "1000"))
      ∷ (codes "x-mizan-daemon-nonce", readable (codes "n"))
      ∷ (codes "x-mizan-daemon-signature", readable (codes "token"))
      ∷ (codes "x-mizan-daemon-body-hash", readable (codes "00"))
      ∷ [];
}

another_admitted :
    (daemon_node_auth token_hash uuid_text daemon_request (final, [])).0
    ≡ inr (record { node_id = 4; status = codes "pending"; token_hash = codes "token" })
unfolding daemon_node_auth resolve_daemon_node_identity authorization_token next_word header_text
    get_header validate_daemon_request_signature checked_nonce header_value and_then timestamp_of
    parse_i64 read_digits age_seconds nonce_expiry requires_body_signature verify_daemon_signature
    compute_daemon_signature secure_eq fold_diff or_bits remember_nonce contains_key
    prune_stale_nonces text_eq codes trim ◌-ℤ◌ ◌+ℤ◌ as_bytes revoke_node execute_nodes attempt
    affected_nodes can_be_revoked update_nodes find_token is_token_of perform_call mark_node_seen
    can_be_seen insert_node status_pending status_revoked xor_bits to_ascii_lowercase
another_admitted = refl

revoke_node-daemon_node_auth_example :
    AdmitsOther 3 (daemon_node_auth token_hash uuid_text daemon_request (final, []))
revoke_node-daemon_node_auth_example =
    revoke_node-daemon_node_auth 3 token_hash uuid_text daemon_request json (λ text. true)
      (codes "9") store true calls [] store_revoked (tt, (refl, tt))

revoke_node-select_eligible_daemon_node_example :
    ChoosesOther 3 (select_eligible_daemon_node json 20 (codes "model") 60 final).0
revoke_node-select_eligible_daemon_node_example =
    revoke_node-select_eligible_daemon_node 3 json (λ text. true) (codes "9") store true calls 20
      (codes "model") 60 store_revoked (tt, (refl, tt))
