-- ===== src/Workflow/Manager/TaskUpdate/Outcome.antt =====
-- What `HandleTaskUpdate` leaves behind, whatever fails: manager/manager.go.
use nsw.Prelude.{
  String, Bool, true, false, Option, some, none, List, [], Map, lookup, ◌≡◌, ◌⊎◌, inl, inr, refl,
  ap, ◌∙◌, Option-cases, is_empty, if◌then◌else◌, Result, ok, err, panic, ok-inj,
}
use nsw.Workflow.Model.{NodeState, Json, WorkflowNode, Workflow}
use nsw.Workflow.Manager.{
  Database, EventHandler, TemplateProvider, Notification, Engine, InitTaskRequest,
}
use nsw.Workflow.Manager.Process.{transition_in_tx}
use nsw.Workflow.Manager.TaskUpdate.{
  register_each, register_nodes, find_handler, updated_node_state, update_request,
}

module _ {S T : Type 0} (database : Database S) (templates : TemplateProvider) where
  -- The update has a known state, and its node and its event handler are found.
  pub record IsServed (e : Engine S T) (u : Notification) : Type 0 where
    pub state : NodeState
    pub known : updated_node_state u ≡ ok state
    pub node : WorkflowNode
    pub found : database.nodes.get_node e.db u.task_id ≡ ok node
    pub handler : EventHandler S
    pub has_handler : lookup node.workflow_id e.handlers ≡ some handler

  -- The database has committed: it is in the state that its `Commit` gave, and only the state
  -- behind the callback has changed besides.
  pub record IsCommitted (e : Engine S T) (u : Notification) (e' : Engine S T) : Type 0 where
    pub served : IsServed e u
    pub workflow : Workflow
    pub loaded : database.first_workflow e.db served.node.workflow_id ≡ ok workflow
    pub in_tx : S
    pub commits : database.commit in_tx ≡ ok e'.db
    pub same_handlers : e'.handlers ≡ e.handlers

  -- The transaction panics.
  pub record IsPanicked (e : Engine S T) (u : Notification) : Type 0 where
    pub served : IsServed e u
    pub panics :
        transition_in_tx database served.node (update_request u served.state) served.handler e.db
        ≡ panic

  pub find_handler_found :
      (e : Engine S T) (w : String) (handler : EventHandler S)
      → find_handler database templates e w ≡ ok handler
      → lookup w e.handlers ≡ some handler
  unfolding find_handler
  find_handler_found e w handler h = elim (Option-cases (lookup w e.handlers)) [
    | inl missing ↦ absurd (let k = rw (missing, find_handler) at h in cc)
    | inr (found, is_found) ↦
        let k = ok-inj (rw (is_found, find_handler) at h) in is_found ∙ ap some k
  ]

  -- registration changes neither the database nor the handlers
  pub register_nodes_keeps :
      (e : Engine S T) (ns : List WorkflowNode) (c : Map Json)
      → ((register_nodes database templates e ns c).0.db ≡ e.db)
        × ((register_nodes database templates e ns c).0.handlers ≡ e.handlers)
  unfolding register_nodes
  register_nodes_keeps e ns c = by_empty (is_empty ns)
    where
      registered :
          Option (T → InitTaskRequest → T × Result (Unit {0})) → Engine S T × Result (Unit {0})
      registered o = elim o [
        | none ↦ (e, err "task manager callback is not configured")
        | some init_task ↦
            let (tasks', result) = register_each database templates init_task e.tasks ns c in
            (record e { tasks = tasks' }, result)
      ]

      by_callback :
          (o : Option (T → InitTaskRequest → T × Result (Unit {0})))
          → ((registered o).0.db ≡ e.db) × ((registered o).0.handlers ≡ e.handlers)
      by_callback none = (refl, refl)
      by_callback (some f) = (refl, refl)

      by_empty :
          (b : Bool)
          → ((if b then (e, ok tt) else registered e.init_task).0.db ≡ e.db)
            × ((if b then (e, ok tt) else registered e.init_task).0.handlers ≡ e.handlers)
      by_empty true = (refl, refl)
      by_empty false = by_callback e.init_task

  -- The transaction of an update commits, or else it panics, which is recovered.
  abbrev Committed : Engine S T → Notification → List WorkflowNode → S → Type 0
  Committed e u ns db' =
      ((e' : Engine S T) → e'.db ≡ db' → e'.handlers ≡ e.handlers → IsCommitted e u e')
      ⊎ (IsPanicked e u × (ns ≡ []) × (db' ≡ e.db))
