-- ===== src/Workflow/Tests/Steps.antt =====
-- The theorems about single steps of the engine, on the workflow of three nodes.
use nsw.Prelude.{String, none, some, [], ◌∷◌, Map, lookup, insert, ◌≡◌, ◌↔◌, refl, All, false, ok}
use mathlib.Core.List.{Memᴰ}
use nsw.Workflow.Model
use nsw.Workflow.Model.{
  NodeState, locked, ready, completed, WorkflowNode, UpdateNode, UnlockConfig, expr, nil,
}
use nsw.Workflow.Lifecycle.{finish_ready, Justified, Lawful}
use nsw.Workflow.NodeService.{NodeTable, node_service, update_nodes}
use nsw.Workflow.NodeService.Rows.{RowAfter, update_nodes-RowAfter}
use nsw.Workflow.Unlock.Validity.{IsConfig, validate_iff}
use nsw.Workflow.Unlock.{validate, evaluate, resolve_to_instance_ids}
use nsw.Workflow.Unlock.Meaning.{node_of, config_holds, evaluate-resolve}
use nsw.Workflow.Unlock.Stability.{IsStable}
use nsw.Workflow.StateMachine.{
  CompletionConfig, TransitionResult, unlock_dependent_nodes, are_dependencies_met, plan_completion,
}
use nsw.Workflow.StateMachine.Unlocking.{IsListed}
use nsw.Workflow.StateMachine.Releases.{
  IsReleased, unlock_dependent_nodes-IsReleased, unlock_dependent_nodes-complete,
}
use nsw.Workflow.StateMachine.Plan.{plan_completion-Justified}
use nsw.Workflow.Transitions.{
  transition_to_completed, transition_to_failed, transition_to_in_progress,
}
use nsw.Workflow.Transitions.Moves.{
  transition_to_completed-Lawful, transition_to_failed-Lawful, transition_to_in_progress-Lawful,
}
use nsw.Workflow.Manager.Process.{process_state_transition}
use nsw.Workflow.Manager.Process.Moves.{process_state_transition-Lawful}
use nsw.Workflow.Tests.{
  node_table, node_table-IsNodeTable, database, database-IsDatabase, silent, silent-KeepsNodes,
  node_a, node_b, node_c, approved, tables,
}

abbrev done_a : WorkflowNode
done_a = record node_a { state = completed; outcome = some "APPROVED" }

abbrev by_template : UnlockConfig
by_template = record {
  any_of = [];
  expression = some (
      expr nil nil (record {
        node_template_id = "A";
        node_id = none;
        state = some "COMPLETED";
        outcome = some "APPROVED";
      }));
}

abbrev ids : Map String
ids = ("A", "a") ∷ ("B", "b") ∷ []

abbrev states : Map WorkflowNode
states = ("a", done_a) ∷ ("b", node_b) ∷ ("c", node_c) ∷ []

evaluate-resolve_example :
    evaluate states approved ≡ ok (config_holds (node_of ids states) by_template)
unfolding resolve_to_instance_ids nsw.Workflow.Unlock.validate
    nsw.Workflow.Unlock.validate_expression nsw.Workflow.Unlock.validate_condition
    nsw.Workflow.Unlock.is_blank nsw.Workflow.Unlock.resolve_validated
    nsw.Workflow.Unlock.resolve_expression nsw.Workflow.Unlock.resolve_leaf
    nsw.Workflow.Unlock.resolve_condition lookup
evaluate-resolve_example = evaluate-resolve by_template ids states refl

update_nodes-RowAfter_example :
    RowAfter node_table tables
      (record tables { rows = done_a ∷ node_b ∷ node_c ∷ [] })
      (done_a ∷ [])
      "a"
unfolding update_nodes nsw.Workflow.NodeService.update_node
update_nodes-RowAfter_example =
    update_nodes-RowAfter node_table node_table-IsNodeTable tables (done_a ∷ []) "a" (tt, tt) refl

approved-IsStable : IsStable approved
approved-IsStable = record { groups = tt; expression = (tt, tt, ((λ e. cc), (λ e. cc))) }

listed : All (IsListed states) (node_a ∷ node_b ∷ node_c ∷ [])
unfolding lookup
listed = (((λ e. cc), tt), (((λ e. refl), approved-IsStable), (((λ e. refl), tt), tt)))

unlock_dependent_nodes-IsReleased_example :
    All (IsReleased states (node_a ∷ node_b ∷ node_c ∷ [])) (record node_b { state = ready } ∷ [])
unfolding unlock_dependent_nodes nsw.Workflow.StateMachine.unlock_node evaluate
    nsw.Workflow.Unlock.evaluate_expression nsw.Workflow.Unlock.evaluate_condition lookup
    Model.state_string nsw.Workflow.StateMachine.all_completed insert
unlock_dependent_nodes-IsReleased_example =
    unlock_dependent_nodes-IsReleased states
      (("a", done_a) ∷ ("b", record node_b { state = ready }) ∷ ("c", node_c) ∷ [])
      (node_a ∷ node_b ∷ node_c ∷ []) (record node_b { state = ready } ∷ []) listed refl

unlock_dependent_nodes-complete_example :
    Memᴰ (record node_b { state = ready }) (record node_b { state = ready } ∷ [])
unfolding unlock_dependent_nodes nsw.Workflow.StateMachine.unlock_node evaluate
    nsw.Workflow.Unlock.evaluate_expression nsw.Workflow.Unlock.evaluate_condition lookup
    Model.state_string nsw.Workflow.StateMachine.all_completed insert
unlock_dependent_nodes-complete_example =
    unlock_dependent_nodes-complete states
      (("a", done_a) ∷ ("b", record node_b { state = ready }) ∷ ("c", node_c) ∷ [])
      (node_a ∷ node_b ∷ node_c ∷ []) (record node_b { state = ready } ∷ []) node_b listed refl
      (Memᴰ.tail (Memᴰ.head refl)) refl refl

plan_completion-Justified_example :
    All (Justified (node_table.first tables)) (done_a ∷ record node_b { state = ready } ∷ [])
unfolding plan_completion unlock_dependent_nodes nsw.Workflow.StateMachine.unlock_node evaluate
    nsw.Workflow.Unlock.evaluate_expression nsw.Workflow.Unlock.evaluate_condition lookup insert
    nsw.Workflow.StateMachine.build_node_state_map nsw.Workflow.StateMachine.sort_nodes_by_id
    nsw.Workflow.StateMachine.new_ready_nodes nsw.Workflow.StateMachine.evaluate_workflow_completion
    nsw.Workflow.StateMachine.complete_end_node Model.state_string
    nsw.Workflow.StateMachine.append_updates nsw.Workflow.StateMachine.all_completed
plan_completion-Justified_example =
    plan_completion-Justified (node_table.first tables) done_a refl (node_a ∷ node_b ∷ node_c ∷ [])
      none
      {r = record {
        updated_nodes = done_a ∷ record node_b { state = ready } ∷ [];
        new_ready_nodes = record node_b { state = ready } ∷ [];
        workflow_finished = false;
      }}
      (record { before = node_a; found = refl; move = finish_ready }) (refl, (refl, (refl, tt)))
      refl

abbrev approve : UpdateNode
approve = record {
  node_id = "a";
  state = completed;
  append_global_context = [];
  extended_state = none;
  outcome = some "APPROVED";
}

abbrev failed_a : WorkflowNode
failed_a = record node_a { state = NodeState.failed }

abbrev started_a : WorkflowNode
started_a = record node_a { state = NodeState.in_progress }

transition_to_completed-Lawful_example : Lawful (node_table.first tables) (
    node_table.first
      (record tables { rows = done_a ∷ record node_b { state = ready } ∷ node_c ∷ [] }))
unfolding plan_completion unlock_dependent_nodes nsw.Workflow.StateMachine.unlock_node evaluate
    nsw.Workflow.Unlock.evaluate_expression nsw.Workflow.Unlock.evaluate_condition lookup insert
    nsw.Workflow.StateMachine.build_node_state_map nsw.Workflow.StateMachine.sort_nodes_by_id
    nsw.Workflow.StateMachine.new_ready_nodes nsw.Workflow.StateMachine.evaluate_workflow_completion
    nsw.Workflow.StateMachine.complete_end_node Model.state_string
    nsw.Workflow.StateMachine.append_updates nsw.Workflow.StateMachine.all_completed
    transition_to_completed node_service update_nodes nsw.Workflow.NodeService.update_node
transition_to_completed-Lawful_example =
    transition_to_completed-Lawful node_table node_table-IsNodeTable node_a approve tables refl none
      {r = (
        record {
          updated_nodes = done_a ∷ record node_b { state = ready } ∷ [];
          new_ready_nodes = record node_b { state = ready } ∷ [];
          workflow_finished = false;
        },
        record tables { rows = done_a ∷ record node_b { state = ready } ∷ node_c ∷ [] },
      )}
      refl

transition_to_failed-Lawful_example :
    Lawful
      (node_table.first tables)
      (node_table.first (record tables { rows = failed_a ∷ node_b ∷ node_c ∷ [] }))
unfolding transition_to_failed node_service
transition_to_failed-Lawful_example =
    transition_to_failed-Lawful node_table node_table-IsNodeTable node_a approve tables refl
      {s' = record tables { rows = failed_a ∷ node_b ∷ node_c ∷ [] }} refl

transition_to_in_progress-Lawful_example :
    Lawful
      (node_table.first tables)
      (node_table.first (record tables { rows = started_a ∷ node_b ∷ node_c ∷ [] }))
unfolding transition_to_in_progress node_service
transition_to_in_progress-Lawful_example =
    transition_to_in_progress-Lawful node_table node_table-IsNodeTable node_a approve tables refl
      {s' = record tables { rows = started_a ∷ node_b ∷ node_c ∷ [] }} refl

process_state_transition-Lawful_example : Lawful (node_table.first tables) (
    node_table.first
      (record tables { rows = done_a ∷ record node_b { state = ready } ∷ node_c ∷ [] }))
unfolding plan_completion unlock_dependent_nodes nsw.Workflow.StateMachine.unlock_node evaluate
    nsw.Workflow.Unlock.evaluate_expression nsw.Workflow.Unlock.evaluate_condition lookup insert
    nsw.Workflow.StateMachine.build_node_state_map nsw.Workflow.StateMachine.sort_nodes_by_id
    nsw.Workflow.StateMachine.new_ready_nodes nsw.Workflow.StateMachine.evaluate_workflow_completion
    nsw.Workflow.StateMachine.complete_end_node Model.state_string
    nsw.Workflow.StateMachine.append_updates nsw.Workflow.StateMachine.all_completed
    transition_to_completed node_service update_nodes nsw.Workflow.NodeService.update_node
    process_state_transition database nsw.Workflow.Manager.Process.transition_in_tx
process_state_transition-Lawful_example =
    process_state_transition-Lawful node_table node_table-IsNodeTable database database-IsDatabase
      silent silent-KeepsNodes node_a approve tables
      {r = (
        record node_b { state = ready } ∷ [],
        [],
        record tables { rows = done_a ∷ record node_b { state = ready } ∷ node_c ∷ [] },
      )}
      refl

validate_iff_example : (validate by_template ≡ ok tt) ↔ IsConfig by_template
validate_iff_example = validate_iff by_template
