-- ===== src/Workflow/Tests/Examples.antt =====
-- The theorems about the workflow engine on the workflow of three nodes.
use nsw.Prelude.{
  String, Option, none, some, List, [], ◌∷◌, lookup, insert, ◌≡◌, refl, ok, Bool-cases, inl, inr,
  ◌==◌,
}
use nsw.Task.Plugin.State
use nsw.Workflow.Model
use nsw.Workflow.Model.{
  NodeState, locked, ready, completed, Json, NodeTemplate, WorkflowNode, UpdateNode, WorkflowStatus,
  Workflow, UnlockConfig, UnlockCondition, UnlockGroup, UnlockExpression, expr, Expressions, nil,
  cons,
}
use nsw.Workflow.Lifecycle.{◌⟶*◌, Lawful}
use nsw.Workflow.NodeService.{NodeTable, IsNodeTable, node_service, update_nodes}
use nsw.Workflow.Manager.{Database, EventHandler, TemplateProvider, Notification, Engine}
use nsw.Workflow.Manager.TaskUpdate.{handle_task_update}
use nsw.Workflow.Manager.TaskUpdate.Moves.{HandlersKeep, handle_task_update-Lawful}
use nsw.Workflow.Manager.TaskUpdate.History.{handle_all, handle_all-moves, handle_all-completed}
use nsw.Workflow.Tests.{
  Tables, node_table, node_table-IsNodeTable, database, database-IsDatabase, silent,
  silent-KeepsNodes, node_a, node_b, node_c, tables, templates, engine,
}

engine-HandlersKeep :
    HandlersKeep node_table node_table-IsNodeTable database database-IsDatabase templates engine
unfolding lookup
engine-HandlersKeep w handler h = elim (Bool-cases ("w" == w)) [
  | inl e ↦
      let k : Path (Option (EventHandler Tables)) (some silent) (some handler) =
        rw (e, lookup) at h in
      let same : silent ≡ handler = cc in rw (← same) silent-KeepsNodes
  | inr ne ↦ let k = rw (ne, lookup) at h in cc
]

abbrev approve_a : Notification
approve_a = record {
  task_id = "a";
  updated_state = some State.completed;
  append_global_context = [];
  extended_state = some "SUBMITTED";
  outcome = some "APPROVED";
}

abbrev finish_b : Notification
finish_b = record approve_a { task_id = "b" }

abbrev completed_engine : Engine Tables (List String)
completed_engine = record engine {
  db = record tables { rows = record node_a { state = completed } ∷ node_b ∷ node_c ∷ [] };
}

handle_task_update-Lawful_example :
    Lawful
      (node_table.first tables)
      (node_table.first (handle_task_update database templates engine approve_a).0.db)
    × ((handle_task_update database templates engine approve_a).0.handlers ≡ engine.handlers)
handle_task_update-Lawful_example =
    handle_task_update-Lawful node_table node_table-IsNodeTable database database-IsDatabase
      templates engine approve_a engine-HandlersKeep

handle_all-moves_example :
    (n : WorkflowNode) × (node_table.first
        (handle_all database templates engine (approve_a ∷ finish_b ∷ [])).db
        "b"
      ≡ ok n)
    × (locked ⟶* n.state)
handle_all-moves_example =
    handle_all-moves node_table node_table-IsNodeTable database database-IsDatabase templates engine
      (approve_a ∷ finish_b ∷ []) engine-HandlersKeep "b" node_b refl

handle_all-completed_example :
    (n : WorkflowNode) × (node_table.first
        (handle_all database templates completed_engine (finish_b ∷ approve_a ∷ [])).db
        "a"
      ≡ ok n)
    × (n.state ≡ completed)
handle_all-completed_example =
    handle_all-completed node_table node_table-IsNodeTable database database-IsDatabase templates
      completed_engine (finish_b ∷ approve_a ∷ []) engine-HandlersKeep "a"
      (record node_a { state = completed }) refl refl

-- `b` waits for a condition without a node, over which evaluation panics
abbrev broken_engine : Engine Tables (List String)
broken_engine = record engine {
  db = record tables {
    rows =
        node_a
        ∷ record node_b {
          unlock_configuration = some (record {
            any_of = [];
            expression = some (
                expr nil nil (record {
                  node_template_id = "A";
                  node_id = none;
                  state = some "COMPLETED";
                  outcome = none;
                }));
          });
        }
        ∷ [];
  };
}

-- the update is dropped, and a success is reported
dropped_update :
    handle_task_update database templates broken_engine approve_a ≡ (broken_engine, ok tt)
unfolding nsw.Workflow.StateMachine.plan_completion nsw.Workflow.StateMachine.unlock_dependent_nodes
    nsw.Workflow.StateMachine.unlock_node nsw.Workflow.Unlock.evaluate
    nsw.Workflow.Unlock.evaluate_expression nsw.Workflow.Unlock.evaluate_condition lookup insert
    nsw.Workflow.StateMachine.build_node_state_map nsw.Workflow.StateMachine.sort_nodes_by_id
    nsw.Workflow.StateMachine.new_ready_nodes nsw.Workflow.StateMachine.evaluate_workflow_completion
    nsw.Workflow.StateMachine.complete_end_node Model.state_string
    nsw.Workflow.StateMachine.append_updates nsw.Workflow.StateMachine.all_completed
    nsw.Workflow.Transitions.transition_to_completed node_service update_nodes
    nsw.Workflow.NodeService.update_node nsw.Workflow.Manager.Process.process_state_transition
    database nsw.Workflow.Manager.Process.transition_in_tx
    nsw.Workflow.Manager.TaskUpdate.updated_node_state
    nsw.Workflow.Manager.plugin_state_to_node_state nsw.Workflow.Manager.TaskUpdate.update_request
    handle_task_update nsw.Workflow.Manager.TaskUpdate.commit_update
    nsw.Workflow.Manager.TaskUpdate.register_nodes
dropped_update = refl
