-- ===== src/Workflow/Manager/Process/Frame.antt =====
-- The steps of a transaction that leave the node table as it is.
use nsw.Prelude.{
  String, ◌≡◌, inl, inr, sym, ap, ◌∙◌, Bool-cases, is_empty, Result, ok, >>=-eq-ok, wrap,
  wrap-eq-ok, ok-inj,
}
use nsw.Workflow.Model.{WorkflowNode, UpdateNode, WorkflowStatus, Workflow}
use nsw.Workflow.Lifecycle.{Lawful}
use nsw.Workflow.NodeService.{NodeTable, IsNodeTable, node_service}
use nsw.Workflow.Manager.{Database, EventHandler}
use nsw.Workflow.Manager.Process.{append_context, change_status}

-- The same nodes under every ID.
abbrev pub SameNodes : {S : Type 0} → NodeTable S → S → S → Type 0
SameNodes t s s' = (i : String) → t.first s' i ≡ t.first s i

-- The node operations are those of the node service over the table, and what writes workflows, or
-- commits, leaves the node table as it is.
pub record IsDatabase {S : Type 0} (t : NodeTable S) (database : Database S) : Type 0 where
  pub nodes_eq : database.nodes ≡ node_service t
  pub save_workflow_nodes :
      (s s' : S) (wf : Workflow) → database.save_workflow s wf ≡ ok s' → SameNodes t s s'
  pub commit_nodes : (s s' : S) → database.commit s ≡ ok s' → SameNodes t s s'

-- The event handler leaves the node table as it is.
abbrev pub KeepsNodes : {S : Type 0} → NodeTable S → EventHandler S → Type 0
KeepsNodes {S} t handler =
    (s s' : S) (id : String) (from to : WorkflowStatus) (wf : Workflow)
    → handler s id from to wf ≡ ok s'
    → SameNodes t s s'

module _ {S : Type 0} (t : NodeTable S) where
  pub Lawful-after :
      (before : String → Result WorkflowNode) (s s' : S)
      → Lawful before (t.first s)
      → SameNodes t s s'
      → Lawful before (t.first s')
  Lawful-after before s s' l same = record {
    moved = λ i n h. let (n', there, move) = l.moved i n h in (n', same i ∙ there, move);
  }

  pub Lawful-before :
      (s s' : S) (after : String → Result WorkflowNode)
      → Lawful (t.first s') after
      → SameNodes t s s'
      → Lawful (t.first s) after
  Lawful-before s s' after l same = record { moved = λ i n h. l.moved i n (same i ∙ h) }

module _ {S : Type 0} (t : NodeTable S) (law : IsNodeTable t) (database : Database S)
    (db_law : IsDatabase t database) where
  -- A node that was read is stored under its ID.
  pub get_node_stored :
      (s : S) (id : String) (n : WorkflowNode)
      → database.nodes.get_node s id ≡ ok n
      → t.first s n.id ≡ ok n
  unfolding node_service
  get_node_stored s id n h =
      let h' : (node_service t).get_node s id ≡ ok n = rw db_law.nodes_eq at h in
      let found : t.first s id ≡ ok n = wrap-eq-ok _ _ h' in
      ap (t.first s) (law.first_id s id n found) ∙ found

  pub append_context_nodes :
      (req : UpdateNode) (wf : Workflow) (s : S) {r : Workflow × S}
      → append_context database req wf s ≡ ok r
      → SameNodes t s r.1
  unfolding append_context
  append_context_nodes req wf s {r} h i = elim (Bool-cases (is_empty req.append_global_context)) [
    | inl nothing ↦
        let e = ok-inj (rw nothing at h) in ap (λ (q : Workflow × S). t.first q.1 i) (sym e)
    | inr something ↦
        let (s', saved, last) =
          >>=-eq-ok (wrap "failed to update workflow global context: " (database.save_workflow s _))
            _ (rw something at h) in
        ap (λ (q : Workflow × S). t.first q.1 i) (sym (ok-inj last))
        ∙ db_law.save_workflow_nodes s s' _ (wrap-eq-ok _ _ saved) i
  ]

  module _ (handler : EventHandler S) (keeps : KeepsNodes t handler) where
    pub change_status_nodes :
        (id : String) (status : WorkflowStatus) (m₁ m₂ : String) (wf : Workflow) (s : S) {s' : S}
        → change_status database handler id status m₁ m₂ wf s ≡ ok s'
        → SameNodes t s s'
    unfolding change_status
    change_status_nodes id status m₁ m₂ wf s {s'} h i =
        let (s₁, saved, handled) = >>=-eq-ok (wrap m₁ (database.save_workflow s _)) _ h in
        keeps s₁ s' id wf.status status _ (wrap-eq-ok m₂ _ handled) i
        ∙ db_law.save_workflow_nodes s s₁ _ (wrap-eq-ok m₁ _ saved) i
