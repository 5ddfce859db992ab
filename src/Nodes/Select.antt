-- ===== src/Nodes/Select.antt =====
-- `select_eligible_daemon_node`: the node that last reported itself healthy, and serves the model.
use mizan.Prelude.{
  ℕ, Bool, false, not, ◌&&◌, ◌||◌, Option, none, some, List, [], ◌∷◌, Text, codes, text_eq, trim,
  is_empty, is_some, unwrap_or, any, ◌==◌, max, sub_ℕ, if◌then◌else◌,
}
use mizan.Prelude.Decimal.{to_decimal_int}
use mizan.Core.Id.{Uuid, parse_id}
use mizan.Core.Error.{AppResult, ok, err, infrastructure}
use mizan.Core.Error
use mizan.Core.Exec.{◌>>=◌, ◌>>◌, pure, gets, lift}
use mizan.Dispatch.Statements.{text_ltb}
use mizan.Nodes.Table.{
  DbDaemonNode, NodeJson, M, attempt, select_nodes, status_active, health_status_healthy,
  parse_json_vec,
}
use mizan.Nodes.Capabilities.{stored_concurrency}

pub record EligibleDaemonNode : Type 0 where
  pub id : Uuid
  pub provider_family : Text
  pub model_id : Text
  pub max_concurrency : ℕ
  pub last_seen_at : Text

-- The cutoff as a text: the subtraction of two numbers below 2^63 is within `i64`.
unfoldable pub cutoff_text : ℕ → ℕ → Text
cutoff_text now stale_after_seconds = to_decimal_int (sub_ℕ now (max stale_after_seconds 1))

-- A column that may be NULL equals, or is at least, a text.
abbrev pub is_text : Text → Option Text → Bool
is_text wanted none = false
is_text wanted (some value) = text_eq value wanted

abbrev pub at_least : Text → Option Text → Bool
at_least least none = false
at_least least (some value) = not (text_ltb value least)

-- The WHERE clause.
unfoldable pub is_eligible : Text → DbDaemonNode → Bool
is_eligible cutoff node =
    text_eq node.status status_active
    && node.revoked == 0
    && node.disabled == 0
    && is_text health_status_healthy node.health_status
    && is_some node.provider_family
    && is_some node.max_concurrency
    && is_some node.last_seen_at
    && at_least cutoff node.last_seen_at

abbrev seen : DbDaemonNode → Text
seen node = unwrap_or [] node.last_seen_at

-- ORDER BY last_seen_at DESC, created_at ASC; the order of equal rows is that of the table.
unfoldable pub comes_first : DbDaemonNode → DbDaemonNode → Bool
unfolding text_ltb
comes_first a b =
    text_ltb (seen b) (seen a)
    || (text_eq (seen a) (seen b) && not (text_ltb b.created_at a.created_at))

unfoldable pub insert_by_seen : DbDaemonNode → List DbDaemonNode → List DbDaemonNode
insert_by_seen node [] = node ∷ []
insert_by_seen node (n ∷ nodes) =
    let rest = insert_by_seen node nodes in
    if comes_first node n then node ∷ n ∷ nodes else n ∷ rest

unfoldable pub order_by_seen : List DbDaemonNode → List DbDaemonNode
unfolding insert_by_seen
order_by_seen [] = []
order_by_seen (node ∷ nodes) = insert_by_seen node (order_by_seen nodes)

abbrev chosen : Text → DbDaemonNode → ℕ → Uuid → AppResult (Option EligibleDaemonNode)
chosen model_id row max_concurrency id = ok (
    some (record {
      id = id;
      provider_family = unwrap_or [] row.provider_family;
      model_id = model_id;
      max_concurrency = max_concurrency;
      last_seen_at = seen row;
    }))

-- A row with the concurrency that it states, and the result of the rows after it. The text of the uuid
-- parser's own error is left out.
unfoldable pub with_capacity :
    Text
    → DbDaemonNode
    → AppResult (Option EligibleDaemonNode)
    → ℕ
    → AppResult (Option EligibleDaemonNode)
with_capacity model_id row rest max_concurrency =
    if max_concurrency == 0
    then rest
    else Error.◌>>=◌ (parse_id (infrastructure (codes "stored daemon node id is invalid")) row.id)
        (chosen model_id row max_concurrency)

-- A row with its models.
unfoldable pub with_models :
    Text
    → DbDaemonNode
    → AppResult (Option EligibleDaemonNode)
    → List Text
    → AppResult (Option EligibleDaemonNode)
with_models model_id row rest model_ids =
    if not (any (λ candidate. text_eq candidate model_id) model_ids)
    then rest
    else Error.◌>>=◌ (stored_concurrency (unwrap_or (sub_ℕ 0 1) row.max_concurrency))
        (with_capacity model_id row rest)

-- The loop over the rows that were read.
unfoldable pub first_serving :
    NodeJson → Text → List DbDaemonNode → AppResult (Option EligibleDaemonNode)
first_serving json model_id [] = ok none
first_serving json model_id (row ∷ rows) =
    let rest = first_serving json model_id rows in
    Error.◌>>=◌ (parse_json_vec json (codes "daemon_node.model_ids_json") row.model_ids_json)
      (with_models model_id row rest)

unfoldable pub select_eligible_daemon_node :
    NodeJson → (now : ℕ) → Text → (stale_after_seconds : ℕ) → M (Option EligibleDaemonNode)
unfolding attempt cutoff_text is_eligible order_by_seen first_serving
select_eligible_daemon_node json now model_id stale_after_seconds =
    if is_empty (trim model_id) then pure none else do
      attempt infrastructure
      rows ← gets (λ s.
          order_by_seen (select_nodes (is_eligible (cutoff_text now stale_after_seconds)) s.nodes))
      lift (first_serving json (trim model_id) rows)
