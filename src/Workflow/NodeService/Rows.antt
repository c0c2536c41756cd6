-- ===== src/Workflow/NodeService/Rows.antt =====
-- Each row of the table after `UpdateWorkflowNodesInTx`: service/workflow_node_service.go.
use nsw.Prelude.{
  String, List, [], ◌∷◌, ◌≡◌, ◌≢◌, ◌⊎◌, inl, inr, refl, sym, ap, ◌∙◌, All, String-cases, ok,
  >>=-eq-ok, ok-inj,
}
use mathlib.Core.List.{Memᴰ}
use mathlib.Core.Path.{subst}
use nsw.Workflow.Model.{WorkflowNode}
use nsw.Workflow.NodeService.{NodeTable, IsNodeTable, updated_row, update_node, update_nodes}
use nsw.Workflow.NodeService.Writes.{update_node-Written, update_node_ne}

-- No two nodes have the same ID.
abbrev pub AreDistinct : List WorkflowNode → Type 0
AreDistinct [] = Unit
AreDistinct (n ∷ ns) = All (λ (m : WorkflowNode). n.id ≢ m.id) ns × AreDistinct ns

-- A row that was written: it keeps what says which node it is, and the rest is as given.
pub record IsUpdated (before given after : WorkflowNode) : Type 0 where
  pub same_id : after.id ≡ before.id
  pub same_workflow : after.workflow_id ≡ before.workflow_id
  pub same_template : after.template_id ≡ before.template_id
  pub state : after.state ≡ given.state
  pub extended_state : after.extended_state ≡ given.extended_state
  pub outcome : after.outcome ≡ given.outcome
  pub depends_on : after.depends_on ≡ given.depends_on
  pub unlock_configuration : after.unlock_configuration ≡ given.unlock_configuration

module _ {S : Type 0} (t : NodeTable S) where
  -- The row with the ID `i` was there, and now is as the node says that was given for it.
  pub record IsWritten (s s' : S) (given : WorkflowNode) (i : String) : Type 0 where
    pub own_id : given.id ≡ i
    pub before : WorkflowNode
    pub was_there : t.first s i ≡ ok before
    pub after : WorkflowNode
    pub is_there : t.first s' i ≡ ok after
    pub updated : IsUpdated before given after

  -- A row either belongs to one of the nodes and is written, or to none and is as before.
  abbrev pub RowAfter : S → S → List WorkflowNode → String → Type 0
  RowAfter s s' us i =
      ((u : WorkflowNode) × Memᴰ u us × IsWritten s s' u i)
      ⊎ (All (λ (u : WorkflowNode). i ≢ u.id) us × (t.first s' i ≡ t.first s i))

module _ {S : Type 0} (t : NodeTable S) (law : IsNodeTable t) where
  -- A row that is not written stays as it is.
  pub update_nodes_ne :
      (s : S) (ns : List WorkflowNode) {s' : S} (j : String)
      → update_nodes t s ns ≡ ok s'
      → All (λ (m : WorkflowNode). j ≢ m.id) ns
      → t.first s' j ≡ t.first s j
  unfolding update_nodes
  update_nodes_ne s [] j h away = ap (λ x. t.first x j) (sym (ok-inj h))
  update_nodes_ne s (n ∷ ns) j h (ne, away) =
      let (s₁, one, rest) = >>=-eq-ok (update_node t s n) _ h in
      update_nodes_ne s₁ ns j rest away ∙ update_node_ne t law s n j one (λ e. ne (sym e))

  update_node-IsWritten :
      (s : S) (u : WorkflowNode) {s' : S} → update_node t s u ≡ ok s' → IsWritten t s s' u u.id
  unfolding updated_row
  update_node-IsWritten s u {s'} h =
      let w = update_node-Written t law s u h in
      let id_eq : w.existing.id ≡ u.id = law.first_id s u.id w.existing w.was_there in
      record {
        own_id = refl;
        before = w.existing;
        was_there = w.was_there;
        after = updated_row w.existing u;
        is_there = ap (t.first s') (sym id_eq) ∙ law.first-save_self s s' _ w.saved;
        updated = record {
          same_id = refl;
          same_workflow = refl;
          same_template = refl;
          state = refl;
          extended_state = refl;
          outcome = refl;
          depends_on = refl;
          unlock_configuration = refl;
        };
      }

  -- The first table and the last one may be exchanged for others with the same row.
  IsWritten-same :
      (s s₁ s' s₂ : S) (u : WorkflowNode) (i : String)
      → t.first s i ≡ t.first s₁ i
      → t.first s₂ i ≡ t.first s' i
      → IsWritten t s₁ s' u i
      → IsWritten t s s₂ u i
  IsWritten-same s s₁ s' s₂ u i first last w = record {
    own_id = w.own_id;
    before = w.before;
    was_there = first ∙ w.was_there;
    after = w.after;
    is_there = last ∙ w.is_there;
    updated = w.updated;
  }

  -- If `UpdateWorkflowNodesInTx` succeeds, each row of the table that has the ID of one of the
  -- given nodes was there before, keeps its ID, its workflow and its template, and is in all else
  -- as that node says; and each other row is as it was. It is assumed that the given nodes have
  -- distinct IDs.
  pub update_nodes-RowAfter :
      (s : S) (us : List WorkflowNode) {s' : S} (i : String)
      → AreDistinct us
      → update_nodes t s us ≡ ok s'
      → RowAfter t s s' us i
  unfolding update_nodes
  update_nodes-RowAfter s [] i distinct h = inr (tt, ap (λ x. t.first x i) (sym (ok-inj h)))
  update_nodes-RowAfter s (u ∷ us) {s'} i (away, distinct) h =
      let (s₁, one, rest) = >>=-eq-ok (update_node t s u) _ h in
      elim (String-cases u.id i) [
        | inl e ↦
            let later = update_nodes_ne s₁ us u.id rest away in
            let w = IsWritten-same s s s₁ s' u u.id refl later (update_node-IsWritten s u one) in
            inl (u, Memᴰ.head refl, subst (IsWritten t s s' u) e w)
        | inr ne ↦
            let before : t.first s₁ i ≡ t.first s i = update_node_ne t law s u i one ne in
            elim (update_nodes-RowAfter s₁ us i distinct rest) [
              | inl (v, listed, w) ↦
                  inl (v, Memᴰ.tail listed, IsWritten-same s s₁ s' s' v i (sym before) refl w)
              | inr (others, same) ↦ inr (((λ e. ne (sym e)), others), same ∙ before)
            ]
      ]
