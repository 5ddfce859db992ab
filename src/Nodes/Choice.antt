-- ===== src/Nodes/Choice.antt =====
-- A revoked node is not chosen.
use mizan.Prelude.{
  ℕ, ◌≡◌, ◌≢◌, refl, Bool, false, not, Bool-cases, inl, inr, Option, none, some, List, [], ◌∷◌,
  Text, text_eq, trim, codes, is_empty, any, ◌==◌, All, arith,
}
use mizan.Core.Id.{Uuid, IdText, printed, malformed, is_id, parse_id}
use mizan.Core.Error.{AppError, AppResult, ok, err, infrastructure}
use mizan.Core.Error
use mizan.Core.Exec.Rules.{bind_rule}
use mizan.Nodes.Table.{DbDaemonNode, NodeJson, NodeStore, attempt, select_nodes}
use mizan.Nodes.Select.{
  EligibleDaemonNode, is_eligible, insert_by_seen, order_by_seen, comes_first, with_capacity,
  with_models, first_serving, select_eligible_daemon_node, cutoff_text,
}
use mizan.Nodes.Rows.{revoke_node}
use mizan.Nodes.Revocation.{
  IsGone, attempt-nodes, revoke_node_done, NodeCall, perform_calls, Spares, perform_calls-IsGone,
}

module _ (id : Uuid) where
  -- A row that is not the node's.
  abbrev IsOther : DbDaemonNode → Type 0
  IsOther node = is_id node.id id ≡ false

  select_nodes-IsOther :
      (cutoff : Text) (nodes : List DbDaemonNode)
      → All (IsGone id) nodes
      → All IsOther (select_nodes (is_eligible cutoff) nodes)
  unfolding select_nodes is_eligible
  select_nodes-IsOther cutoff [] gone = tt
  select_nodes-IsOther cutoff (n ∷ nodes) (first, rest) =
      let others = select_nodes-IsOther cutoff nodes rest in
      elim (Bool-cases (is_eligible cutoff n)) [
        | inl chosen ↦ rw chosen (ground (arith, chosen, first), others)
        | inr passed ↦ rw passed others
      ]

  insert_by_seen-IsOther :
      (n : DbDaemonNode) (nodes : List DbDaemonNode)
      → IsOther n
      → All IsOther nodes
      → All IsOther (insert_by_seen n nodes)
  unfolding insert_by_seen
  insert_by_seen-IsOther n [] own others = (own, tt)
  insert_by_seen-IsOther n (m ∷ nodes) own (first, rest) = elim (Bool-cases (comes_first n m)) [
    | inl before ↦ rw before (own, (first, rest))
    | inr after ↦ rw after (first, insert_by_seen-IsOther n nodes own rest)
  ]

  order_by_seen-IsOther :
      (nodes : List DbDaemonNode) → All IsOther nodes → All IsOther (order_by_seen nodes)
  unfolding order_by_seen
  order_by_seen-IsOther [] others = tt
  order_by_seen-IsOther (n ∷ nodes) (first, rest) =
      insert_by_seen-IsOther n (order_by_seen nodes) first (order_by_seen-IsOther nodes rest)

  -- The node that is chosen, if one is.
  abbrev pub ChoosesOther : AppResult (Option EligibleDaemonNode) → Type 0
  ChoosesOther (ok (some node)) = node.id ≢ id
  ChoosesOther (ok none) = Unit
  ChoosesOther (err error) = Unit

  chosen_rule :
      {A : Type 0} (m : AppResult A) (f : A → AppResult (Option EligibleDaemonNode))
      → ((a : A) → m ≡ ok a → ChoosesOther (f a))
      → ChoosesOther (Error.◌>>=◌ m f)
  chosen_rule (ok a) f go = go a refl
  chosen_rule (err e) f go = tt

  pub parse_id-IsOther :
      (e : AppError) (text : IdText) (u : Uuid)
      → is_id text id ≡ false
      → parse_id e text ≡ ok u
      → u ≢ id
  parse_id-IsOther e (printed v) u other same = λ is. ground (arith, other, same, is)
  parse_id-IsOther e (malformed _) u other same = λ is. cc

  module _ (model : Text) (row : DbDaemonNode) (own : IsOther row)
      (rest : AppResult (Option EligibleDaemonNode)) (other : ChoosesOther rest) where
    with_capacity-ChoosesOther : (n : ℕ) → ChoosesOther (with_capacity model row rest n)
    unfolding with_capacity
    with_capacity-ChoosesOther n = elim (Bool-cases (n == 0)) [
      | inl full ↦ rw full other
      | inr free ↦ rw free (
          chosen_rule (parse_id (infrastructure (codes "stored daemon node id is invalid")) row.id)
            _ (λ u parsed. parse_id-IsOther _ row.id u own parsed))
    ]

    with_models-ChoosesOther :
        (models : List Text) → ChoosesOther (with_models model row rest models)
    unfolding with_models
    with_models-ChoosesOther models =
        elim (Bool-cases (not (any (λ candidate. text_eq candidate model) models))) [
          | inl missing ↦ rw missing other
          | inr serves ↦
              rw serves
                (chosen_rule _ (with_capacity model row rest) (λ n _. with_capacity-ChoosesOther n))
        ]

  first_serving-ChoosesOther :
      (json : NodeJson) (model : Text) (rows : List DbDaemonNode)
      → All IsOther rows
      → ChoosesOther (first_serving json model rows)
  unfolding first_serving
  first_serving-ChoosesOther json model [] others = tt
  first_serving-ChoosesOther json model (row ∷ rows) (own, others) =
      let rest = first_serving json model rows in
      chosen_rule _ (with_models model row rest) (λ models _.
        with_models-ChoosesOther model row own rest
          (first_serving-ChoosesOther json model rows others) models)

  -- After a revocation that the database accepted, whatever reports, revocations and creations of other
  -- nodes follow, the node is not chosen for any model at any time.
  pub revoke_node-select_eligible_daemon_node :
      (json : NodeJson) (is_unique : Text → Bool) (now : Text) (s : NodeStore) (b : Bool)
      (calls : List NodeCall) (later : ℕ) (model : Text) (stale : ℕ)
      → (revoke_node now id s).0 ≡ ok b
      → All (Spares json is_unique id) calls
      → ChoosesOther
          (select_eligible_daemon_node json later model stale
            (perform_calls json is_unique calls (revoke_node now id s).1)).0
  unfolding select_eligible_daemon_node
  revoke_node-select_eligible_daemon_node json is_unique now s b calls later model stale done
        spared =
      let s' = perform_calls json is_unique calls (revoke_node now id s).1 in
      let gone : All (IsGone id) s'.nodes =
        perform_calls-IsGone json is_unique id calls _ spared (revoke_node_done id now s b done) in
      elim (Bool-cases (is_empty (trim model))) [
        | inl unnamed ↦ rw unnamed tt
        | inr named ↦ rw named (
            bind_rule (λ out. ChoosesOther out.0) (attempt infrastructure) _ s' (λ _ _. tt)
              (λ _ _. first_serving-ChoosesOther json (trim model) _ (
                order_by_seen-IsOther _ (
                  select_nodes-IsOther (cutoff_text later stale) _
                    (rw (attempt-nodes id infrastructure s') gone)))))
      ]
