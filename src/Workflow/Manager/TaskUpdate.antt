-- ===== src/Workflow/Manager/TaskUpdate.antt =====
-- manager/manager.go: `HandleTaskUpdate` and the registration of ready nodes.
pub mod Moves
pub mod History
pub mod Outcome
use nsw.Prelude.{
  String, none, some, List, [], ◌∷◌, Map, lookup, is_empty, if◌then◌else◌, Result, ok, err, panic,
  ◌>>=◌, wrap,
}
use nsw.Workflow.Model.{NodeState, Json, NodeTemplate, WorkflowNode, UpdateNode}
use nsw.Workflow.Manager.{
  Database, EventHandler, InitTaskRequest, TemplateProvider, Notification, Engine,
  plugin_state_to_node_state,
}
use nsw.Workflow.Manager.Process.{process_state_transition}

unfoldable pub init_request : WorkflowNode → NodeTemplate → Map Json → InitTaskRequest
init_request node template global_context = record {
  task_id = node.id;
  workflow_id = node.workflow_id;
  template_id = node.template_id;
  type_name = template.type_name;
  global_state = global_context;
  config = template.config;
}

unfoldable pub update_request : Notification → NodeState → UpdateNode
update_request u state = record {
  node_id = u.task_id;
  state = state;
  append_global_context = u.append_global_context;
  extended_state = u.extended_state;
  outcome = u.outcome;
}

unfoldable pub updated_node_state : Notification → Result NodeState
updated_node_state u = elim u.updated_state [
  | none ↦ err "received nil state in workflow node update"
  | some state ↦ wrap "invalid state in workflow node update: " (plugin_state_to_node_state state)
]

module _ {S T : Type 0} (database : Database S) (templates : TemplateProvider) where
  -- the loop of `registerNodesWithTaskManager`
  unfoldable pub register_each :
      (T → InitTaskRequest → T × Result (Unit {0}))
      → T
      → List WorkflowNode
      → Map Json
      → T × Result (Unit {0})
  unfolding init_request
  register_each init_task tasks [] global_context = (tasks, ok tt)
  register_each init_task tasks (node ∷ nodes) global_context =
      elim (templates.get_template node.template_id) [
        | err e ↦ (tasks, wrap "failed to get workflow node template: " (err e))
        | panic ↦ (tasks, panic)
        | ok template ↦
            let (tasks', response) = init_task tasks (init_request node template global_context) in
            elim response [
              | ok _ ↦ register_each init_task tasks' nodes global_context
              | err e ↦ (tasks', wrap "failed to initialize task for node: " (err e))
              | panic ↦ (tasks', panic)
            ]
      ]

  -- `registerNodesWithTaskManager`, called if there are nodes
  unfoldable pub register_nodes :
      Engine S T → List WorkflowNode → Map Json → Engine S T × Result (Unit {0})
  unfolding register_each
  register_nodes e new_ready global_context =
      if is_empty new_ready then (e, ok tt) else elim e.init_task [
        | none ↦ (e, err "task manager callback is not configured")
        | some init_task ↦
            let (tasks', result) = register_each init_task e.tasks new_ready global_context in
            (record e { tasks = tasks' }, result)
      ]

  unfoldable pub find_handler : Engine S T → String → Result (EventHandler S)
  find_handler e workflow_id = elim (lookup workflow_id e.handlers) [
    | none ↦ err "no event handler found for workflow"
    | some handler ↦ ok handler
  ]

  -- `HandleTaskUpdate` up to the end of the transaction
  unfoldable pub commit_update :
      Engine S T → Notification → Result (List WorkflowNode × Map Json × S)
  unfolding update_request find_handler updated_node_state
  commit_update e u = do
    state ← updated_node_state u
    node ←
        wrap "failed to look up workflow node for task: " (database.nodes.get_node e.db u.task_id)
    handler ← find_handler e node.workflow_id
    wrap "failed to process workflow node state transition: "
        (process_state_transition database node (update_request u state) handler e.db)

  -- `HandleTaskUpdate`: the new ready nodes are registered after the commit
  unfoldable pub handle_task_update : Engine S T → Notification → Engine S T × Result (Unit {0})
  handle_task_update e u = elim (commit_update e u) [
    | err message ↦ (e, err message)
    | panic ↦ (e, panic)
    | ok (new_ready, global_context, db') ↦
        let (e', result) = register_nodes (record e { db = db' }) new_ready global_context in
        (e', wrap "failed to register new ready nodes with task manager: " result)
  ]
