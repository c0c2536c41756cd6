-- ===== src/Workflow/Manager/Process/Moves.antt =====
-- A transaction of the engine moves the stored nodes only along the edges of the life cycle.
use nsw.Prelude.{
  String, not, some, List, [], Map, ◌≡◌, inl, inr, refl, sym, ap, ◌∙◌, Bool-cases, if◌then◌else◌,
  Result, ok, err, panic, ◌>>=◌, >>=-eq-ok, wrap, wrap-eq-ok, ok-inj,
}
use nsw.Workflow.Model.{
  NodeState, is_state, Json, WorkflowNode, UpdateNode, WorkflowStatus, Workflow,
}
use nsw.Workflow.Lifecycle.{Lawful, Lawful-refl}
use nsw.Workflow.NodeService.{NodeTable, IsNodeTable}
use nsw.Workflow.StateMachine.{TransitionResult}
use nsw.Workflow.Transitions.{
  transition_to_completed, transition_to_failed, transition_to_in_progress,
}
use nsw.Workflow.Transitions.Moves.{
  transition_to_completed-Lawful, transition_to_failed-Lawful, transition_to_in_progress-Lawful,
}
use nsw.Workflow.Manager.{Database, EventHandler}
use nsw.Workflow.Manager.Process.{
  recover_with, append_context, change_status, on_failed, on_completed, apply_state,
  transition_in_tx, process_state_transition,
}
use nsw.Workflow.Manager.Process.Frame.{
  SameNodes, IsDatabase, KeepsNodes, Lawful-after, Lawful-before, append_context_nodes,
  get_node_stored, change_status_nodes,
}

module _ {S : Type 0} (t : NodeTable S) (law : IsNodeTable t) (database : Database S)
    (db_law : IsDatabase t database) (handler : EventHandler S) (keeps : KeepsNodes t handler) where
  -- with the section's database and handler
  status_nodes :
      (id : String) (status : WorkflowStatus) (m₁ m₂ : String) (wf : Workflow) (s : S) {s' : S}
      → change_status database handler id status m₁ m₂ wf s ≡ ok s'
      → SameNodes t s s'
  status_nodes = change_status_nodes t law database db_law handler keeps

  module _ (id : String) (req : UpdateNode) (wf : Workflow) (node : WorkflowNode) (s : S)
      (stored : t.first s node.id ≡ ok node) where
    on_failed-Lawful :
        {s' : S}
        → on_failed database handler id req wf node s ≡ ok s'
        → Lawful (t.first s) (t.first s')
    unfolding on_failed
    on_failed-Lawful {s'} h = elim (Bool-cases (is_state node.state NodeState.failed)) [
      | inl already ↦ rw (← ok-inj (rw already at h)) (Lawful-refl (t.first s))
      | inr active ↦
          let (s₁, moved, changed) =
            >>=-eq-ok
              (wrap "failed to transition node to FAILED: "
                (transition_to_failed database.nodes (some node) req s))
              _ (rw active at h) in
          let moved' = rw db_law.nodes_eq at (wrap-eq-ok _ _ moved) in
          Lawful-after t (t.first s) s₁ s'
            (transition_to_failed-Lawful t law node req s stored moved')
            (status_nodes id WorkflowStatus.failed _ _ wf s₁ changed)
    ]

    in_progress-Lawful :
        {r : List WorkflowNode × S}
        → apply_state database NodeState.in_progress handler id req wf node s ≡ ok r
        → Lawful (t.first s) (t.first r.1)
    unfolding apply_state
    in_progress-Lawful {r} h =
        let (s', moved, last) =
          >>=-eq-ok
            (wrap "failed to transition node to IN_PROGRESS: "
              (transition_to_in_progress database.nodes (some node) req s))
            _ h in
        let moved' = rw db_law.nodes_eq at (wrap-eq-ok _ _ moved) in
        rw (← ok-inj last) (transition_to_in_progress-Lawful t law node req s stored moved')

    -- what follows the completion, whether or not the workflow is finished
    finished_nodes :
        (result : TransitionResult) (s₁ : S) {r : List WorkflowNode × S}
        → (if not result.workflow_finished then ok (result.new_ready_nodes, s₁) else do
          s₂ ←
              change_status database handler id WorkflowStatus.completed
                "failed to mark workflow as completed: "
                "event handler OnWorkflowStatusChanged failed for workflow completion: " wf s₁
          ok (result.new_ready_nodes, s₂))
          ≡ ok r
        → SameNodes t s₁ r.1
    finished_nodes result s₁ {r} h i = elim (Bool-cases result.workflow_finished) [
      | inl finished ↦
          let (s₂, changed, last) =
            >>=-eq-ok (change_status database handler id WorkflowStatus.completed _ _ wf s₁) _
              (rw finished at h) in
          ap (λ (q : List WorkflowNode × S). t.first q.1 i) (sym (ok-inj last))
          ∙ status_nodes id WorkflowStatus.completed _ _ wf s₁ changed i
      | inr unfinished ↦
          ap (λ (q : List WorkflowNode × S). t.first q.1 i) (sym (ok-inj (rw unfinished at h)))
    ]

    on_completed-Lawful :
        {r : List WorkflowNode × S}
        → on_completed database handler id req wf node s ≡ ok r
        → Lawful (t.first s) (t.first r.1)
    unfolding on_completed
    on_completed-Lawful {r} h = elim (Bool-cases (is_state node.state NodeState.completed)) [
      | inl already ↦ rw (← ok-inj (rw already at h)) (Lawful-refl (t.first s))
      | inr active ↦
          let ((result, s₁), moved, h₁) =
            >>=-eq-ok
              (wrap "failed to transition node to COMPLETED: " (
                transition_to_completed database.nodes (some node) req
                  (some (record { end_node_id = wf.end_node_id })) s))
              _ (rw active at h) in
          let moved' = rw db_law.nodes_eq at (wrap-eq-ok _ _ moved) in
          Lawful-after t (t.first s) s₁ r.1
            (transition_to_completed-Lawful t law node req s stored _ moved')
            (finished_nodes result s₁ h₁)
    ]

    apply_state-Lawful :
        (state : NodeState) {r : List WorkflowNode × S}
        → apply_state database state handler id req wf node s ≡ ok r
        → Lawful (t.first s) (t.first r.1)
    unfolding apply_state
    apply_state-Lawful NodeState.failed {r} h =
        let (s', moved, last) = >>=-eq-ok (on_failed database handler id req wf node s) _ h in
        rw (← ok-inj last) (on_failed-Lawful moved)
    apply_state-Lawful NodeState.in_progress h = in_progress-Lawful h
    apply_state-Lawful NodeState.completed h = on_completed-Lawful h
    apply_state-Lawful _ h = rw (← ok-inj h) (Lawful-refl (t.first s))

  transition_in_tx-Lawful :
      (node : WorkflowNode) (req : UpdateNode) (s : S) {r : List WorkflowNode × Map Json × S}
      → transition_in_tx database node req handler s ≡ ok r
      → Lawful (t.first s) (t.first r.2)
  unfolding transition_in_tx
  transition_in_tx-Lawful node req s {r} h =
      let (wf, loaded, h₁) =
        >>=-eq-ok (wrap "failed to load workflow: " (database.first_workflow s node.workflow_id)) _
          h in
      let ((wf', s₁), appended, h₂) = >>=-eq-ok (append_context database req wf s) _ h₁ in
      let (workflow_node, got, h₃) =
        >>=-eq-ok
          (wrap "failed to retrieve workflow node: " (database.nodes.get_node s₁ req.node_id)) _
          h₂ in
      let ((new_ready, s₂), applied, h₄) =
        >>=-eq-ok (apply_state database req.state handler node.workflow_id req wf' workflow_node s₁)
          _ h₃ in
      let (s₃, committed, last) =
        >>=-eq-ok (wrap "failed to commit transaction: " (database.commit s₂)) _ h₄ in
      let stored =
        get_node_stored t law database db_law s₁ req.node_id workflow_node (wrap-eq-ok _ _ got) in
      let moved =
        apply_state-Lawful node.workflow_id req wf' workflow_node s₁ stored req.state applied in
      rw (← ok-inj last) (
        Lawful-after t (t.first s) s₂ s₃
          (Lawful-before t s s₁ (t.first s₂) moved
            (append_context_nodes t law database db_law req wf s appended))
          (db_law.commit_nodes s₂ s₃ (wrap-eq-ok _ _ committed)))

  -- `processStateTransition` moves the stored nodes only along the edges of the life cycle, also
  -- where it recovers from a panic. It is assumed that the event handler leaves the node table as
  -- it is.
  pub process_state_transition-Lawful :
      (node : WorkflowNode) (req : UpdateNode) (s : S) {r : List WorkflowNode × Map Json × S}
      → process_state_transition database node req handler s ≡ ok r
      → Lawful (t.first s) (t.first r.2)
  unfolding process_state_transition
  process_state_transition-Lawful node req s {r} h =
      by_result (transition_in_tx database node req handler s) refl h
    where
      by_result :
          (m : Result (List WorkflowNode × Map Json × S))
          → transition_in_tx database node req handler s ≡ m
          → recover_with ([], [], s) m ≡ ok r
          → Lawful (t.first s) (t.first r.2)
      by_result (ok q) e k = rw (← ok-inj k) (transition_in_tx-Lawful node req s e)
      by_result (err m) e k = cc
      by_result panic e k = rw (← ok-inj k) (Lawful-refl (t.first s))
