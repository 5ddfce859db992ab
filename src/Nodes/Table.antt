-- ===== src/Nodes/Table.antt =====
-- The rows of daemon_nodes, and the statements on them. A JSON value is kept as its text; `NodeJson`
-- stands for `serde_json`: the text of an error, or the result.
use mizan.Prelude.{
  ℕ, ◌+◌, Bool, Option, none, some, List, [], ◌∷◌, ◌++◌, Text, codes, trim, is_empty, ℤ, ◌⊎◌, inl,
  inr, if◌then◌else◌,
}
use mizan.Core.Id.{Uuid, IdText}
use mizan.Core.Error.{AppError, AppResult, ok, err, infrastructure}
use mizan.Core.Exec.{Exec, Faults, meet, ◌>>=◌, ◌>>◌, gets, modify, pure}

unfoldable pub status_pending : Text
status_pending = codes "pending"

unfoldable pub status_active : Text
status_active = codes "active"

unfoldable pub status_revoked : Text
status_revoked = codes "revoked"

unfoldable pub health_status_healthy : Text
health_status_healthy = codes "healthy"

pub record DbDaemonNode : Type 0 where
  pub id : IdText
  pub host_user_id : Option IdText
  pub label : Option Text
  pub hostname : Option Text
  pub public_key : Option Text
  pub token_hash : Text
  pub status : Text
  pub revoked : ℕ
  pub disabled : ℕ
  pub last_seen_at : Option Text
  pub provider_family : Option Text
  pub model_ids_json : Text
  pub max_concurrency : Option ℤ
  pub pricing_metadata_json : Option Text
  pub region : Option Text
  pub labels_json : Text
  pub health_status : Option Text
  pub capability_metadata_json : Option Text
  pub created_at : Text
  pub updated_at : Text

abbrev pub Value : Type 0
Value = Text

pub record NodeJson : Type 0 where
  pub print_list : List Text → Text ⊎ Text
  pub read_list : Text → Text ⊎ List Text
  pub print_value : Value → Text ⊎ Text
  pub read_value : Text → Text ⊎ Value

pub record NodeStore : Type 0 where
  pub nodes : List DbDaemonNode
  pub users : List Uuid
  pub faults : Faults

abbrev pub M : Type 0 → Type 0
M = Exec NodeStore

unfoldable pub attempt : (Text → AppError) → M (Unit {0})
attempt wrap s = meet (λ s fs. record s { faults = fs }) wrap s.faults s

-- UPDATE … SET … WHERE …
unfoldable pub update_nodes :
    (DbDaemonNode → Bool) → (DbDaemonNode → DbDaemonNode) → List DbDaemonNode → List DbDaemonNode
update_nodes selected set [] = []
update_nodes selected set (node ∷ nodes) =
    (if selected node then set node else node) ∷ update_nodes selected set nodes

-- `rows_affected`
unfoldable pub affected_nodes : (DbDaemonNode → Bool) → List DbDaemonNode → ℕ
affected_nodes selected [] = 0
affected_nodes selected (node ∷ nodes) =
    (if selected node then 1 else 0) + affected_nodes selected nodes

unfoldable pub select_nodes : (DbDaemonNode → Bool) → List DbDaemonNode → List DbDaemonNode
select_nodes selected [] = []
select_nodes selected (node ∷ nodes) =
    let rest = select_nodes selected nodes in if selected node then node ∷ rest else rest

unfoldable pub execute_nodes : (DbDaemonNode → Bool) → (DbDaemonNode → DbDaemonNode) → M ℕ
unfolding attempt
execute_nodes selected set = do
  attempt infrastructure
  count ← gets (λ s. affected_nodes selected s.nodes)
  modify (λ s. record s { nodes = update_nodes selected set s.nodes })
  pure count

unfoldable pub normalize_optional : Option Text → Option Text
normalize_optional none = none
normalize_optional (some value) = if is_empty (trim value) then none else some (trim value)

-- The error of a reader or printer of JSON, with the text before it.
abbrev pub json_result : {A : Type 0} → Text → Text ⊎ A → AppResult A
json_result before (inl error) = err (infrastructure (before ++ error))
json_result before (inr a) = ok a

unfoldable pub parse_json_vec : NodeJson → Text → Text → AppResult (List Text)
parse_json_vec json field raw = json_result (field ++ codes " is invalid: ") (json.read_list raw)

unfoldable pub parse_optional_json_value : NodeJson → Text → Option Text → AppResult (Option Value)
parse_optional_json_value json field none = ok none
parse_optional_json_value json field (some raw) =
    mizan.Core.Error.◌>>=◌ (json_result (field ++ codes " is invalid: ") (json.read_value raw))
      (λ value. ok (some value))

unfoldable pub serialize_json : {A : Type 0} → (A → Text ⊎ Text) → A → AppResult Text
serialize_json print value = json_result (codes "json serialization failed: ") (print value)

unfoldable pub serialize_optional_json :
    {A : Type 0} → (A → Text ⊎ Text) → Option A → AppResult (Option Text)
unfolding serialize_json
serialize_optional_json print none = ok none
serialize_optional_json print (some value) =
    mizan.Core.Error.◌>>=◌ (serialize_json print value) (λ text. ok (some text))
