-- ===== src/Nodes/Revocation.antt =====
-- A revoked node stays revoked, and its row is not found by any token.
use mathlib.Core.Path.{subst}
use mizan.Prelude.{
  ℕ, ◌≡◌, refl, sym, ◌∙◌, Bool, true, false, not, ◌&&◌, Bool-cases, inl, inr, Option, none, some,
  List, [], ◌∷◌, Text, any, ◌==◌, All, All-append, arith, if◌then◌else◌,
}
use mizan.Core.Id.{Uuid, is_id}
use mizan.Core.Error.{AppError, AppResult, ok, infrastructure}
use mizan.Core.Exec.{Exec, ◌>>=◌, ◌>>◌, lift}
use mizan.Core.Exec.Rules.{bind_rule, ok-ne-err}
use mizan.Nodes.Table.{DbDaemonNode, NodeJson, NodeStore, attempt, update_nodes, execute_nodes}
use mizan.Nodes.Capabilities.{NormalizedCapabilities}
use mizan.Nodes.Rows.{
  map_insert_error, same_row, seen_once, set_seen, set_capabilities, stored_capabilities,
  can_be_seen, mark_node_seen, can_be_revoked, set_revoked, revoke_node, insert_node,
}
use mizan.Nodes.Identity.{is_token_of, find_token}

module _ (id : Uuid) where
  -- A row of the node, if it is one, is revoked.
  abbrev pub IsGone : DbDaemonNode → Type 0
  IsGone node = is_id node.id id ≡ true → (node.revoked == 0) ≡ false

  update_nodes-IsGone :
      (selected : DbDaemonNode → Bool) (set : DbDaemonNode → DbDaemonNode)
      → ((n : DbDaemonNode) → IsGone n → IsGone (set n))
      → (nodes : List DbDaemonNode) → All IsGone nodes
      → All IsGone (update_nodes selected set nodes)
  unfolding update_nodes
  update_nodes-IsGone selected set keeps [] gone = tt
  update_nodes-IsGone selected set keeps (n ∷ nodes) (first, rest) =
      let others = update_nodes-IsGone selected set keeps nodes rest in
      elim (Bool-cases (selected n)) [
        | inl chosen ↦ rw chosen (keeps n first, others)
        | inr other ↦ rw other (first, others)
      ]

  set_revoked-IsGone :
      (now : Text) (nodes : List DbDaemonNode)
      → All IsGone (update_nodes (can_be_revoked id) (set_revoked now) nodes)
  unfolding update_nodes can_be_revoked
  set_revoked-IsGone now [] = tt
  set_revoked-IsGone now (n ∷ nodes) =
      let others = set_revoked-IsGone now nodes in
      elim (Bool-cases (is_id n.id id && n.revoked == 0)) [
        | inl chosen ↦ rw chosen ((λ _. refl), others)
        | inr other ↦ rw other ((λ own. ground (arith, other, own)), others)
      ]

  pub attempt-nodes : (wrap : Text → AppError) (s : NodeStore) → (attempt wrap s).1.nodes ≡ s.nodes
  unfolding attempt
  attempt-nodes wrap s =
      elim s.faults
        as (λ fs.
          (mizan.Core.Exec.meet (λ s fs. record s { faults = fs }) wrap fs s).1.nodes ≡ s.nodes) [
            | [] ↦ refl
            | none ∷ fs ↦ refl
            | some message ∷ fs ↦ refl
          ]

  abbrev pub Gone : {A : Type 0} → AppResult A × NodeStore → Type 0
  Gone out = All IsGone out.1.nodes

  execute_nodes-Gone :
      (selected : DbDaemonNode → Bool) (set : DbDaemonNode → DbDaemonNode) (s : NodeStore)
      → All IsGone s.nodes
      → All IsGone (update_nodes selected set s.nodes)
      → Gone (execute_nodes selected set s)
  unfolding execute_nodes
  execute_nodes-Gone selected set s old new =
      bind_rule Gone (attempt infrastructure) _ s (λ _ _. rw (attempt-nodes infrastructure s) old)
        (λ _ _. rw (attempt-nodes infrastructure s) new)

  seen_once-Gone :
      (now : Text) (count : ℕ) (s : NodeStore) → All IsGone s.nodes → Gone (seen_once now count s)
  seen_once-Gone now count s gone = elim (Bool-cases (not (count == 1))) [
    | inl missing ↦ rw missing gone
    | inr one ↦ rw one gone
  ]

  mark_node_seen-Gone :
      (json : NodeJson) (now : Text) (node : Uuid) (hostname public_key : Option Text)
      (capabilities : Option NormalizedCapabilities) (s : NodeStore)
      → All IsGone s.nodes
      → Gone (mark_node_seen json now node hostname public_key capabilities s)
  unfolding mark_node_seen
  mark_node_seen-Gone json now node hostname public_key (some capabilities) s gone =
      bind_rule Gone (lift (stored_capabilities json capabilities)) _ s (λ _ _. gone)
        (λ stored _.
          let set : DbDaemonNode → DbDaemonNode =
            λ n. set_capabilities stored (set_seen now hostname public_key n) in
          let kept =
            execute_nodes-Gone (can_be_seen node) set s gone
              (update_nodes-IsGone (can_be_seen node) set (λ n h. h) s.nodes gone) in
          bind_rule Gone (execute_nodes (can_be_seen node) set) _ s (λ _ _. kept)
            (λ count _. seen_once-Gone now count _ kept))
  mark_node_seen-Gone json now node hostname public_key none s gone =
      let set = set_seen now hostname public_key in
      let kept =
        execute_nodes-Gone (can_be_seen node) set s gone
          (update_nodes-IsGone (can_be_seen node) set (λ n h. h) s.nodes gone) in
      bind_rule Gone (execute_nodes (can_be_seen node) set) _ s (λ _ _. kept)
        (λ count _. seen_once-Gone now count _ kept)

  revoke_node-Gone :
      (now : Text) (node : Uuid) (s : NodeStore)
      → All IsGone s.nodes
      → Gone (revoke_node now node s)
  unfolding revoke_node
  revoke_node-Gone now node s gone =
      let kept = execute_nodes-Gone (can_be_revoked node) (set_revoked now) s gone (
        update_nodes-IsGone (can_be_revoked node) (set_revoked now) (λ n h own. refl) s.nodes
          gone) in
      bind_rule Gone (execute_nodes (can_be_revoked node) (set_revoked now)) _ s (λ _ _. kept)
        (λ _ _. kept)

  insert_node-Gone :
      (is_unique : Text → Bool) (duplicate : Text) (node : DbDaemonNode) (s : NodeStore)
      → is_id node.id id ≡ false
      → All IsGone s.nodes
      → Gone (insert_node is_unique duplicate node s)
  unfolding insert_node
  insert_node-Gone is_unique duplicate node s other gone =
      let kept : All IsGone (attempt (map_insert_error is_unique) s).1.nodes =
        rw (attempt-nodes (map_insert_error is_unique) s) gone in
      bind_rule Gone (attempt (map_insert_error is_unique)) _ s (λ _ _. kept)
        (λ _ _.
          elim (Bool-cases (any (same_row node) (attempt (map_insert_error is_unique) s).1.nodes)) [
            | inl taken ↦ rw taken kept
            | inr free ↦ rw free (
                All-append IsGone _ _ kept
                  ((λ own. let never : true ≡ false = sym own ∙ other in absurd cc), tt))
          ])

  abbrev GoneIfDone : {A : Type 0} → AppResult A × NodeStore → Type 0
  GoneIfDone {A} out = (a : A) → out.0 ≡ ok a → Gone out

  execute_nodes-revoked :
      (now : Text) (s : NodeStore)
      → GoneIfDone (execute_nodes (can_be_revoked id) (set_revoked now) s)
  unfolding execute_nodes
  execute_nodes-revoked now s =
      bind_rule GoneIfDone (attempt infrastructure) _ s
        (λ e _ a wrong. absurd (ok-ne-err a e (sym wrong)))
        (λ _ _ _ _. set_revoked-IsGone now (attempt infrastructure s).1.nodes)

  -- After a call that succeeded, every row of the node is revoked.
  pub revoke_node_done : (now : Text) (s : NodeStore) → GoneIfDone (revoke_node now id s)
  unfolding revoke_node
  revoke_node_done now s =
      bind_rule GoneIfDone (execute_nodes (can_be_revoked id) (set_revoked now)) _ s
        (λ e _ a wrong. absurd (ok-ne-err a e (sym wrong)))
        (λ count done _ _. execute_nodes-revoked now s count done)

  pub find_token-other :
      (token_hash : Text) (nodes : List DbDaemonNode) (row : DbDaemonNode)
      → All IsGone nodes
      → find_token token_hash nodes ≡ some row
      → is_id row.id id ≡ false
  unfolding find_token is_token_of
  find_token-other token_hash [] row gone found = cc
  find_token-other token_hash (n ∷ nodes) row (first, rest) found =
      elim (Bool-cases (is_token_of token_hash n)) [
        | inl mine ↦
            let e : ◌≡◌ {A = Option DbDaemonNode} (some n) (some row) =
              subst (λ b. (if b then some n else find_token token_hash nodes) ≡ some row) mine
                found in
            let same : n ≡ row = cc in
            let not_own : is_id n.id id ≡ false = ground (arith, mine, first) in
            subst (λ m. is_id m.id id ≡ false) same not_own
        | inr other ↦ find_token-other token_hash nodes row rest (
            subst (λ b. (if b then some n else find_token token_hash nodes) ≡ some row) other found)
      ]

-- The calls that change the nodes; a creation with the row that it inserts.
pub data NodeCall : Type 0 where
  seen :
      (now : Text) (node : Uuid) (hostname public_key : Option Text)
      (capabilities : Option NormalizedCapabilities)
      → NodeCall
  revoked : (now : Text) (node : Uuid) → NodeCall
  created : (duplicate : Text) (node : DbDaemonNode) → NodeCall

module _ (json : NodeJson) (is_unique : Text → Bool) where
  unfoldable pub perform_call : NodeCall → NodeStore → NodeStore
  perform_call (seen now node hostname public_key capabilities) s =
      (mark_node_seen json now node hostname public_key capabilities s).1
  perform_call (revoked now node) s = (revoke_node now node s).1
  perform_call (created duplicate node) s = (insert_node is_unique duplicate node s).1

  abbrev pub perform_calls : List NodeCall → NodeStore → NodeStore
  perform_calls [] s = s
  perform_calls (call ∷ calls) s = perform_calls calls (perform_call call s)

  -- The call does not create the node anew.
  abbrev pub Spares : Uuid → NodeCall → Type 0
  Spares id (created duplicate node) = is_id node.id id ≡ false
  Spares id (seen _ _ _ _ _) = Unit
  Spares id (revoked _ _) = Unit

  pub perform_calls-IsGone :
      (id : Uuid) (calls : List NodeCall) (s : NodeStore)
      → All (Spares id) calls
      → All (IsGone id) s.nodes
      → All (IsGone id) (perform_calls calls s).nodes
  unfolding perform_call
  perform_calls-IsGone id [] s spared gone = gone
  perform_calls-IsGone id (seen now node hostname public_key c ∷ calls) s spared gone =
      perform_calls-IsGone id calls _ spared.1
        (mark_node_seen-Gone id json now node hostname public_key c s gone)
  perform_calls-IsGone id (revoked now node ∷ calls) s spared gone =
      perform_calls-IsGone id calls _ spared.1 (revoke_node-Gone id now node s gone)
  perform_calls-IsGone id (created duplicate node ∷ calls) s spared gone =
      perform_calls-IsGone id calls _ spared.1
        (insert_node-Gone id is_unique duplicate node s spared.0 gone)
