-- ===== src/Workflow/Transitions.antt =====
-- manager/state_machine.go: the entry points of the state machine, over the node repository. On an
-- error the state of the transaction is dropped: every caller rolls back.
pub mod Moves
use nsw.Prelude.{
  String, Bool, true, false, not, ◌&&◌, Option, none, some, [], ◌∷◌, if◌then◌else◌, Result, ok, err,
  ◌>>=◌, wrap,
}
use nsw.Workflow.Model.{in_progress, completed, failed, is_state, WorkflowNode, UpdateNode}
use nsw.Workflow.NodeService.{NodeRepository}
use nsw.Workflow.StateMachine.{
  TransitionResult, CompletionConfig, can_transition_to_completed, can_transition_to_failed,
  can_transition_to_in_progress, plan_completion,
}

-- Two `*string` from different sources are one pointer only if both are nil.
abbrev pub same_pointer : Option String → Option String → Bool
same_pointer none none = true
same_pointer _ _ = false

module _ {S : Type 0} (repo : NodeRepository S) where
  unfoldable pub transition_to_completed :
      Option WorkflowNode → UpdateNode → Option CompletionConfig → S → Result (TransitionResult × S)
  transition_to_completed none req cfg s = err "node cannot be nil"
  transition_to_completed (some node) req cfg s =
      if is_state node.state completed
      then ok (record { updated_nodes = []; new_ready_nodes = []; workflow_finished = false }, s)
      else if not (can_transition_to_completed node.state)
      then err "cannot transition node to COMPLETED"
      else do
        let done : WorkflowNode = record node {
          state = completed;
          extended_state = req.extended_state;
          outcome = req.outcome;
        }
        all_nodes ←
            wrap "failed to retrieve sibling workflow nodes: "
              (repo.get_workflow_nodes s done.workflow_id)
        result ← plan_completion done all_nodes cfg
        s' ← wrap "failed to update workflow nodes: " (repo.update_nodes s result.updated_nodes)
        ok (result, s')

  unfoldable pub transition_to_failed : Option WorkflowNode → UpdateNode → S → Result S
  transition_to_failed none req s = err "node cannot be nil"
  transition_to_failed (some node) req s =
      if is_state node.state failed
      then ok s
      else if not (can_transition_to_failed node.state)
      then err "cannot transition node to FAILED"
      else wrap "failed to update workflow node to FAILED state: " (
          repo.update_nodes s
            (record node { state = failed; extended_state = req.extended_state } ∷ []))

  unfoldable pub transition_to_in_progress : Option WorkflowNode → UpdateNode → S → Result S
  transition_to_in_progress none req s = err "node cannot be nil"
  transition_to_in_progress (some node) req s =
      if same_pointer req.extended_state node.extended_state && is_state node.state in_progress
      then ok s
      else if not (can_transition_to_in_progress node.state)
      then err "cannot transition node to IN_PROGRESS"
      else wrap "failed to update workflow node to IN_PROGRESS state: " (
          repo.update_nodes s
            (record node { state = in_progress; extended_state = req.extended_state } ∷ []))
