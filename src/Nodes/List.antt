-- ===== src/Nodes/List.antt =====
-- The list of the nodes, as `list_daemon_nodes` answers it.
use mizan.Prelude.{Bool, not, Option, none, some, List, [], ◌∷◌, codes, ◌==◌, if◌then◌else◌}
use mizan.Core.Id.{Uuid, IdText, parse_id}
use mizan.Dispatch.Statements.{text_ltb}
use mizan.Core.Error.{
  AppError, AppResult, ok, err, ok_or, infrastructure, invalid_config, not_found, unauthorized,
}
use mizan.Core.Error
use mizan.Core.Exec.{◌>>=◌, ◌>>◌, lift, gets}
use mizan.Nodes.Table.{DbDaemonNode, NodeJson, M, attempt}
use mizan.Nodes.Capabilities.{daemon_capability_response}
use mizan.Nodes.Payloads.{DaemonNodeResponse}

abbrev optional_id : Option IdText → AppResult (Option Uuid)
optional_id none = ok none
optional_id (some text) =
    Error.◌>>=◌ (parse_id (infrastructure (codes "invalid daemon node host user id: ")) text)
      (λ id. ok (some id))

unfoldable pub daemon_node_response : NodeJson → DbDaemonNode → AppResult DaemonNodeResponse
unfolding daemon_capability_response
daemon_node_response json row =
    Error.◌>>=◌ (parse_id (infrastructure (codes "invalid daemon node id: ")) row.id) (λ id.
      Error.◌>>=◌ (daemon_capability_response json row) (λ capabilities.
        Error.◌>>=◌ (optional_id row.host_user_id) (λ host_user_id. ok (record {
          id = id;
          host_user_id = host_user_id;
          label = row.label;
          hostname = row.hostname;
          public_key = row.public_key;
          status = row.status;
          revoked = not (row.revoked == 0);
          disabled = not (row.disabled == 0);
          last_seen_at = row.last_seen_at;
          capabilities = capabilities;
          created_at = row.created_at;
          updated_at = row.updated_at;
        }))))

abbrev before_it : DbDaemonNode → DbDaemonNode → Bool
before_it a b = not (text_ltb a.created_at b.created_at)

-- ORDER BY created_at DESC
unfoldable pub insert_by_created : DbDaemonNode → List DbDaemonNode → List DbDaemonNode
insert_by_created node [] = node ∷ []
insert_by_created node (n ∷ nodes) =
    let rest = insert_by_created node nodes in
    if before_it node n then node ∷ n ∷ nodes else n ∷ rest

unfoldable pub order_by_created_desc : List DbDaemonNode → List DbDaemonNode
unfolding insert_by_created
order_by_created_desc [] = []
order_by_created_desc (node ∷ nodes) = insert_by_created node (order_by_created_desc nodes)

-- `map` and `collect`: the first error, or every response.
unfoldable pub daemon_node_responses :
    NodeJson → List DbDaemonNode → AppResult (List DaemonNodeResponse)
unfolding daemon_node_response
daemon_node_responses json [] = ok []
daemon_node_responses json (row ∷ rows) =
    Error.◌>>=◌ (daemon_node_response json row)
      (λ first. Error.◌>>=◌ (daemon_node_responses json rows) (λ rest. ok (first ∷ rest)))

unfoldable pub list_daemon_nodes : NodeJson → M (List DaemonNodeResponse)
unfolding order_by_created_desc daemon_node_responses attempt
list_daemon_nodes json = do
  attempt infrastructure
  rows ← gets (λ s. order_by_created_desc s.nodes)
  lift (daemon_node_responses json rows)
