-- ===== src/Workflow/NodeService/Writes.antt =====
-- What the writes of `UpdateWorkflowNodesInTx` leave in the table.
use nsw.Prelude.{
  String, List, [], ◌∷◌, ◌≡◌, ◌≢◌, inl, inr, refl, sym, ap, ◌∙◌, String-cases, All, Result, ok,
  >>=-eq-ok, wrap, wrap-eq-ok, ok-inj,
}
use nsw.Workflow.Model.{WorkflowNode}
use nsw.Workflow.Lifecycle.{Justified, Lawful}
use nsw.Workflow.NodeService.{NodeTable, IsNodeTable, updated_row, update_node, update_nodes}

module _ {S : Type 0} (t : NodeTable S) (law : IsNodeTable t) where
  -- The parts of a successful update of one row.
  pub record Written (s : S) (u : WorkflowNode) (s' : S) : Type 0 where
    pub existing : WorkflowNode
    pub was_there : t.first s u.id ≡ ok existing
    pub saved : t.save s (updated_row existing u) ≡ ok s'

  pub update_node-Written :
      (s : S) (u : WorkflowNode) {s' : S} → update_node t s u ≡ ok s' → Written s u s'
  unfolding update_node updated_row
  update_node-Written s u h =
      let (existing, found, h') =
        >>=-eq-ok (wrap "failed to find workflow node for update: " (t.first s u.id)) _ h in
      record {
        existing = existing;
        was_there = wrap-eq-ok _ (t.first s u.id) found;
        saved = wrap-eq-ok "failed to update workflow node in transaction: " _ h';
      }

  update_node_self :
      (s : S) (u : WorkflowNode) {s' : S}
      → update_node t s u ≡ ok s'
      → (n : WorkflowNode) × (t.first s' u.id ≡ ok n) × (n.state ≡ u.state)
  unfolding updated_row
  update_node_self s u {s'} h =
      let w = update_node-Written s u h in
      let id_eq : w.existing.id ≡ u.id = law.first_id s u.id w.existing w.was_there in
      (
        updated_row w.existing u,
        ap (t.first s') (sym id_eq) ∙ law.first-save_self s s' _ w.saved,
        refl,
      )

  pub update_node_ne :
      (s : S) (u : WorkflowNode) {s' : S} (j : String)
      → update_node t s u ≡ ok s'
      → u.id ≢ j
      → t.first s' j ≡ t.first s j
  unfolding updated_row
  update_node_ne s u {s'} j h ne =
      let w = update_node-Written s u h in
      let id_eq : w.existing.id ≡ u.id = law.first_id s u.id w.existing w.was_there in
      law.first-save_ne s s' _ j w.saved (λ e. ne (sym id_eq ∙ e))

  update_node-Lawful :
      (before : String → Result WorkflowNode) (s : S) (u : WorkflowNode) {s' : S}
      → Justified before u
      → Lawful before (t.first s)
      → update_node t s u ≡ ok s'
      → Lawful before (t.first s')
  update_node-Lawful before s u j l h = record {
    moved = λ i n found. elim (String-cases u.id i) [
      | inl same ↦
          let (n', there, state_eq) = update_node_self s u h in
          let is_before : j.before ≡ n = ok-inj (sym j.found ∙ ap before same ∙ found) in
          (n', rw (← same) there, rw (← is_before, state_eq) j.move)
      | inr other ↦
          let (n', there, move) = l.moved i n found in
          (n', update_node_ne s u i h other ∙ there, move)
    ];
  }

  -- `UpdateWorkflowNodesInTx` moves the stored nodes only along the edges of the life cycle,
  -- compared with an earlier table, if each node that it writes keeps or lawfully moves the state
  -- that the earlier table has for it, and the present table is itself such a move away from the
  -- earlier one.
  pub update_nodes-Lawful :
      (before : String → Result WorkflowNode) (s : S) (us : List WorkflowNode) {s' : S}
      → All (Justified before) us
      → Lawful before (t.first s)
      → update_nodes t s us ≡ ok s'
      → Lawful before (t.first s')
  unfolding update_nodes
  update_nodes-Lawful before s [] j l h = rw (← ok-inj h) l
  update_nodes-Lawful before s (u ∷ us) j l h =
      let (s₁, first, rest) = >>=-eq-ok (update_node t s u) _ h in
      update_nodes-Lawful before s₁ us j.1 (update_node-Lawful before s u j.0 l first) rest
