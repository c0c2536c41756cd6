-- ===== src/Workflow/Manager/Process.antt =====
-- manager/manager.go: `processStateTransition`, one transaction.
pub mod Frame
pub mod Moves
use nsw.Prelude.{
  String, not, some, List, [], Map, is_empty, if◌then◌else◌, Result, ok, err, panic, ◌>>=◌, wrap,
}
use nsw.Workflow.Model
use nsw.Workflow.Model.{
  NodeState, is_state, Json, WorkflowNode, UpdateNode, WorkflowStatus, Workflow,
}
use nsw.Workflow.Transitions.{
  transition_to_completed, transition_to_failed, transition_to_in_progress,
}
use nsw.Workflow.Manager.{Database, EventHandler, copy_map}

-- `defer func() { if r := recover(); r != nil { tx.Rollback() } }()`: a panic rolls back, and the
-- method returns its zero values, so no nodes and a nil error.
abbrev pub recover_with {ℓ} : {A : Type ℓ} → A → Result A → Result A
recover_with zero_value (ok a) = ok a
recover_with zero_value (err e) = err e
recover_with zero_value panic = ok zero_value

module _ {S : Type 0} (database : Database S) where
  open database use {nodes, create_workflow, first_workflow, save_workflow, commit}

  -- `if len(updateReq.AppendGlobalContext) > 0`
  unfoldable pub append_context : UpdateNode → Workflow → S → Result (Workflow × S)
  append_context req wf s = if is_empty req.append_global_context then ok (wf, s) else do
    let wf' : Workflow = record wf {
      global_context = copy_map wf.global_context req.append_global_context;
    }
    s' ← wrap "failed to update workflow global context: " (save_workflow s wf')
    ok (wf', s')

  -- the workflow in its new status, and the event handler's say on it
  unfoldable pub change_status :
      EventHandler S → String → WorkflowStatus → String → String → Workflow → S → Result S
  change_status handler workflow_id status save_message handler_message wf s = do
    let wf' : Workflow = record wf { status = status }
    s₁ ← wrap save_message (save_workflow s wf')
    wrap handler_message (handler s₁ workflow_id wf.status status wf')

  unfoldable pub on_failed :
      EventHandler S → String → UpdateNode → Workflow → WorkflowNode → S → Result S
  unfolding change_status
  on_failed handler workflow_id req wf node s =
      if is_state node.state NodeState.failed then ok s else do
        s₁ ←
            wrap "failed to transition node to FAILED: "
              (transition_to_failed nodes (some node) req s)
        change_status handler workflow_id WorkflowStatus.failed
            "failed to mark workflow as failed: "
            "event handler OnWorkflowStatusChanged failed for workflow failure: " wf s₁

  unfoldable pub on_completed :
      EventHandler S
      → String
      → UpdateNode
      → Workflow
      → WorkflowNode
      → S
      → Result (List WorkflowNode × S)
  unfolding change_status
  on_completed handler workflow_id req wf node s =
      if is_state node.state NodeState.completed then ok ([], s) else do
        (result, s₁) ← wrap "failed to transition node to COMPLETED: " (
            transition_to_completed nodes (some node) req
              (some (record { end_node_id = wf.end_node_id })) s)
        if not result.workflow_finished then ok (result.new_ready_nodes, s₁) else do
          s₂ ←
              change_status handler workflow_id WorkflowStatus.completed
                "failed to mark workflow as completed: "
                "event handler OnWorkflowStatusChanged failed for workflow completion: " wf s₁
          ok (result.new_ready_nodes, s₂)

  -- the `switch` on the new state, which ignores READY and LOCKED
  unfoldable pub apply_state :
      NodeState
      → EventHandler S
      → String
      → UpdateNode
      → Workflow
      → WorkflowNode
      → S
      → Result (List WorkflowNode × S)
  unfolding on_failed on_completed
  apply_state NodeState.failed handler workflow_id req wf node s = do
    s' ← on_failed handler workflow_id req wf node s
    ok ([], s')
  apply_state NodeState.in_progress handler workflow_id req wf node s = do
    s' ←
        wrap "failed to transition node to IN_PROGRESS: "
          (transition_to_in_progress nodes (some node) req s)
    ok ([], s')
  apply_state NodeState.completed handler workflow_id req wf node s =
      on_completed handler workflow_id req wf node s
  apply_state _ handler workflow_id req wf node s = ok ([], s)

  -- what `processStateTransition` does in its transaction; an error rolls it back
  unfoldable pub transition_in_tx :
      WorkflowNode → UpdateNode → EventHandler S → S → Result (List WorkflowNode × Map Json × S)
  unfolding append_context apply_state
  transition_in_tx node req handler s = do
    wf ← wrap "failed to load workflow: " (first_workflow s node.workflow_id)
    (wf', s₁) ← append_context req wf s
    workflow_node ← wrap "failed to retrieve workflow node: " (nodes.get_node s₁ req.node_id)
    (new_ready, s₂) ← apply_state req.state handler node.workflow_id req wf' workflow_node s₁
    s₃ ← wrap "failed to commit transaction: " (commit s₂)
    ok (new_ready, wf'.global_context, s₃)

  -- `processStateTransition`
  unfoldable pub process_state_transition :
      WorkflowNode → UpdateNode → EventHandler S → S → Result (List WorkflowNode × Map Json × S)
  process_state_transition node req handler s =
      recover_with ([], [], s) (transition_in_tx node req handler s)
