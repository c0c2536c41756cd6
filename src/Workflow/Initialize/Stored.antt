-- ===== src/Workflow/Initialize/Stored.antt =====
-- What `InitializeNodesFromTemplates` leaves in the table of nodes: manager/state_machine.go.
use nsw.Prelude.{
  String, List, [], ◌∷◌, Map, ◌≡◌, ◌≢◌, sym, ap, ◌∙◌, map, is_empty, All, ok, >>=-eq-ok, wrap,
  wrap-eq-ok, ok-inj, ◌>>=◌, if◌then◌else◌,
}
use nsw.Workflow.Model.{locked, NodeTemplate, WorkflowNode}
use nsw.Workflow.NodeService.{
  NodeTable, IsNodeTable, updated_row, update_node, update_nodes, create_nodes, node_service,
}
use nsw.Workflow.NodeService.Writes.{update_node-Written, update_node_ne}
use nsw.Workflow.NodeService.Rows.{AreDistinct, update_nodes_ne}
use nsw.Workflow.Initialize.{
  Initialized, new_node, template_map, template_to_node_id, initialize_nodes,
  initialize_nodes_from_templates,
}
use nsw.Workflow.Initialize.Nodes.{
  ready_nodes, IsInitialized, AreWrites, initialize_nodes-AreRounds,
}

module _ {S : Type 0} (t : NodeTable S) where
  abbrev pub IsStoredIn : S → WorkflowNode → Type 0
  IsStoredIn s n = t.first s n.id ≡ ok n

  -- What gorm's `Create` returns: the nodes given to it are stored, each under an ID of its own,
  -- and their state is kept.
  pub record IsCreation (s : S) (created : List WorkflowNode) : Type 0 where
    pub stored : All (IsStoredIn s) created
    pub distinct : AreDistinct created
    pub are_locked : All (λ (n : WorkflowNode). n.state ≡ locked) created

  -- The nodes of a new workflow.
  pub record AreNew (templates : Map NodeTemplate) (ids : Map String) (s : S) (r : Initialized)
      : Type 0 where
    pub stored : All (IsStoredIn s) r.created
    pub initialized : All (IsInitialized templates ids) r.created
    pub reported : r.new_ready ≡ ready_nodes r.created

  -- The row of a node is such that writing the node stores it as it is.
  abbrev pub IsPending : S → WorkflowNode → Type 0
  IsPending s n = (c : WorkflowNode) × (t.first s n.id ≡ ok c) × (updated_row c n ≡ n)

  AreWrites-IsPending :
      (s : S) (cs ns : List WorkflowNode)
      → AreWrites cs ns
      → All (IsStoredIn s) cs
      → All (IsPending s) ns
  AreWrites-IsPending s [] [] w k = tt
  AreWrites-IsPending s (c ∷ cs) (n ∷ ns) (same_id, writes, w) (k, ks) =
      ((c, ap (t.first s) same_id ∙ k, writes), AreWrites-IsPending s cs ns w ks)
  AreWrites-IsPending s [] (n ∷ ns) w k = absurd w
  AreWrites-IsPending s (c ∷ cs) [] w k = absurd w

AreWrites-All_ne :
    (i j : String) (cs ns : List WorkflowNode)
    → AreWrites cs ns
    → i ≡ j
    → All (λ (m : WorkflowNode). i ≢ m.id) cs
    → All (λ (m : WorkflowNode). j ≢ m.id) ns
AreWrites-All_ne i j [] [] w e k = tt
AreWrites-All_ne i j (c ∷ cs) (n ∷ ns) (same_id, _, w) e (k, ks) =
    (λ q. k (e ∙ q ∙ same_id), AreWrites-All_ne i j cs ns w e ks)
AreWrites-All_ne i j [] (n ∷ ns) w e k = absurd w
AreWrites-All_ne i j (c ∷ cs) [] w e k = absurd w

AreWrites-AreDistinct :
    (cs ns : List WorkflowNode) → AreWrites cs ns → AreDistinct cs → AreDistinct ns
AreWrites-AreDistinct [] [] w k = tt
AreWrites-AreDistinct (c ∷ cs) (n ∷ ns) (same_id, _, w) (k, ks) =
    (AreWrites-All_ne c.id n.id cs ns w (sym same_id) k, AreWrites-AreDistinct cs ns w ks)
AreWrites-AreDistinct [] (n ∷ ns) w k = absurd w
AreWrites-AreDistinct (c ∷ cs) [] w k = absurd w

module _ {S : Type 0} (t : NodeTable S) (law : IsNodeTable t) where
  update_node-IsStoredIn :
      (s : S) (n : WorkflowNode) {s' : S}
      → IsPending t s n
      → update_node t s n ≡ ok s'
      → IsStoredIn t s' n
  unfolding updated_row
  update_node-IsStoredIn s n {s'} (c, found, writes) h =
      let w = update_node-Written t law s n h in
      let same : w.existing ≡ c = ok-inj (sym w.was_there ∙ found) in
      let row : updated_row w.existing n ≡ n = ap (λ x. updated_row x n) same ∙ writes in
      ap (t.first s') (ap (λ (x : WorkflowNode). x.id) (sym row))
      ∙ law.first-save_self s s' _ w.saved
      ∙ ap ok row

  IsPending-later :
      (s : S) (n : WorkflowNode) {s' : S} (ns : List WorkflowNode)
      → update_node t s n ≡ ok s'
      → All (λ (m : WorkflowNode). n.id ≢ m.id) ns
      → All (IsPending t s) ns
      → All (IsPending t s') ns
  IsPending-later s n [] h away k = tt
  IsPending-later s n (m ∷ ns) h (ne, away) ((c, found, writes), ks) =
      ((c, update_node_ne t law s n m.id h ne ∙ found, writes), IsPending-later s n ns h away ks)

  update_nodes-IsStoredIn :
      (s : S) (ns : List WorkflowNode) {s' : S}
      → AreDistinct ns
      → All (IsPending t s) ns
      → update_nodes t s ns ≡ ok s'
      → All (IsStoredIn t s') ns
  unfolding update_nodes
  update_nodes-IsStoredIn s [] distinct k h = tt
  update_nodes-IsStoredIn s (n ∷ ns) (away, distinct) (k, ks) h =
      let (s₁, one, rest) = >>=-eq-ok (update_node t s n) _ h in
      (
        update_nodes_ne t law s₁ ns n.id rest away ∙ update_node-IsStoredIn s n k one,
        update_nodes-IsStoredIn s₁ ns distinct (IsPending-later s n ns one away ks) rest,
      )

  written-IsStoredIn :
      (us : List WorkflowNode) (s : S) {s' : S}
      → AreDistinct us
      → All (IsPending t s) us
      → (if is_empty us
          then ok s
          else wrap "failed to update workflow nodes with dependencies: " (update_nodes t s us))
        ≡ ok s'
      → All (IsStoredIn t s') us
  written-IsStoredIn [] s distinct k h = tt
  written-IsStoredIn (u ∷ us) s distinct k h =
      update_nodes-IsStoredIn s (u ∷ us) distinct k (wrap-eq-ok _ (update_nodes t s (u ∷ us)) h)

  -- the part after the rows are created
  filled-AreNew :
      (all : Map NodeTemplate) (ids : Map String) (s₁ : S) (created : List WorkflowNode)
      {r : Initialized} {s' : S}
      → IsCreation t s₁ created
      → ◌>>=◌ {B = Initialized × S} (initialize_nodes all ids created) (λ (result : Initialized).
        ◌>>=◌ {B = Initialized × S}
          (if is_empty result.to_update
            then ok s₁
            else wrap "failed to update workflow nodes with dependencies: "
                (update_nodes t s₁ result.to_update))
          (λ (s₂ : S). ok (result, s₂)))
        ≡ ok (r, s')
      → AreNew t all ids s' r
  filled-AreNew all ids s₁ created {r} {s'} c h =
      let (result, loop, h₁) = >>=-eq-ok (initialize_nodes all ids created) _ h in
      let (s₂, put, last) =
        >>=-eq-ok
          (if is_empty result.to_update
            then ok s₁
            else wrap "failed to update workflow nodes with dependencies: "
                (update_nodes t s₁ result.to_update))
          _ h₁ in
      let rounds = initialize_nodes-AreRounds all ids created c.are_locked loop in
      let pending : All (IsPending t s₁) result.to_update =
        rw rounds.written
          (AreWrites-IsPending t s₁ created result.created rounds.writes c.stored) in
      let distinct : AreDistinct result.to_update =
        rw rounds.written (AreWrites-AreDistinct created result.created rounds.writes c.distinct) in
      let stored : All (IsStoredIn t s₂) result.created =
        rw (← rounds.written) (written-IsStoredIn result.to_update s₁ distinct pending put) in
      let same = ok-inj last in
      let same_nodes : result ≡ r = ap (λ (x : Initialized × S). x.0) same in
      let same_store : s₂ ≡ s' = ap (λ (x : Initialized × S). x.1) same in
      rw (← same_store) (
        rw (← same_nodes) (record {
          stored = stored;
          initialized = rounds.initialized;
          reported = rounds.reported;
        }))

  -- If `InitializeNodesFromTemplates` succeeds, the table has each of the nodes that it returns, as
  -- it is returned: it depends on exactly the nodes that were made of the templates its template
  -- depends on, has the resolved unlock configuration of its template, and is READY if it depends
  -- on no node and has no configuration, and else LOCKED; and the nodes reported as new and READY
  -- are the READY ones of them. It is assumed that there is a template, and that the rows that the
  -- database creates for the templates are LOCKED and have IDs that are distinct.
  pub initialize_nodes_from_templates-AreNew :
      (workflow_id : String) (template : NodeTemplate) (templates : List NodeTemplate) (s s₁ : S)
      (created : List WorkflowNode) {r : Initialized} {s' : S}
      → t.create s (map (new_node workflow_id) (template ∷ templates)) ≡ ok (created, s₁)
      → IsCreation t s₁ created
      → initialize_nodes_from_templates (node_service t) workflow_id (template ∷ templates) s
        ≡ ok (r, s')
      → AreNew t (template_map [] (template ∷ templates)) (template_to_node_id [] created) s' r
  unfolding initialize_nodes_from_templates node_service create_nodes
  initialize_nodes_from_templates-AreNew workflow_id template templates s s₁ created made c h =
      filled-AreNew (template_map [] (template ∷ templates)) (template_to_node_id [] created) s₁
        created c (rw made at h)
