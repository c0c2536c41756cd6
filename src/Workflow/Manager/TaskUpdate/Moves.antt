-- ===== src/Workflow/Manager/TaskUpdate/Moves.antt =====
-- `HandleTaskUpdate` moves the stored nodes along the life cycle, and so does any sequence of
-- updates.
use nsw.Prelude.{
  String, some, List, Map, lookup, ◌≡◌, refl, Result, ok, err, panic, >>=-eq-ok, wrap, wrap-eq-ok,
}
use nsw.Workflow.Model.{Json, WorkflowNode}
use nsw.Workflow.Lifecycle.{Lawful, Lawful-refl}
use nsw.Workflow.NodeService.{NodeTable, IsNodeTable}
use nsw.Workflow.Manager.{Database, EventHandler, TemplateProvider, Notification, Engine}
use nsw.Workflow.Manager.Process.Frame.{IsDatabase, KeepsNodes}
use nsw.Workflow.Manager.Process.Moves.{process_state_transition-Lawful}
use nsw.Workflow.Manager.TaskUpdate.{
  register_nodes, find_handler, updated_node_state, update_request, commit_update,
  handle_task_update,
}
use nsw.Workflow.Manager.TaskUpdate.Outcome.{find_handler_found, register_nodes_keeps}

module _ {S T : Type 0} (t : NodeTable S) (law : IsNodeTable t) (database : Database S)
    (db_law : IsDatabase t database) (templates : TemplateProvider) where
  -- Every event handler that the engine knows leaves the node table as it is.
  abbrev pub HandlersKeep : Engine S T → Type 0
  HandlersKeep e =
      (w : String) (handler : EventHandler S)
      → lookup w e.handlers ≡ some handler
      → KeepsNodes t handler

  commit_update-Lawful :
      (e : Engine S T) (u : Notification) {r : List WorkflowNode × Map Json × S}
      → HandlersKeep e
      → commit_update database templates e u ≡ ok r
      → Lawful (t.first e.db) (t.first r.2)
  unfolding commit_update
  commit_update-Lawful e u {r} keep h =
      let (state, _, h₁) = >>=-eq-ok (updated_node_state u) _ h in
      let (node, _, h₂) =
        >>=-eq-ok
          (wrap "failed to look up workflow node for task: "
            (database.nodes.get_node e.db u.task_id))
          _ h₁ in
      let (handler, found, h₃) =
        >>=-eq-ok (find_handler database templates e node.workflow_id) _ h₂ in
      process_state_transition-Lawful t law database db_law handler
        (keep node.workflow_id handler
          (find_handler_found database templates e node.workflow_id handler found))
        node (update_request u state) e.db (wrap-eq-ok _ _ h₃)

  -- `HandleTaskUpdate` moves the stored nodes only along the edges of the life cycle, whatever
  -- the update, also when it fails, and leaves the table of event handlers as it is.
  pub handle_task_update-Lawful :
      (e : Engine S T) (u : Notification)
      → HandlersKeep e
      → Lawful (t.first e.db) (t.first (handle_task_update database templates e u).0.db)
        × ((handle_task_update database templates e u).0.handlers ≡ e.handlers)
  unfolding handle_task_update
  handle_task_update-Lawful e u keep = by_result (commit_update database templates e u) refl
    where
      handled : Result (List WorkflowNode × Map Json × S) → Engine S T × Result (Unit {0})
      handled r = elim r [
        | err message ↦ (e, err message)
        | panic ↦ (e, panic)
        | ok (new_ready, global_context, db') ↦
            let (e', result) =
              register_nodes database templates (record e { db = db' }) new_ready global_context in
            (e', wrap "failed to register new ready nodes with task manager: " result)
      ]

      by_result :
          (r : Result (List WorkflowNode × Map Json × S))
          → commit_update database templates e u ≡ r
          → Lawful (t.first e.db) (t.first (handled r).0.db) × ((handled r).0.handlers ≡ e.handlers)
      by_result (err m) h = (Lawful-refl (t.first e.db), refl)
      by_result panic h = (Lawful-refl (t.first e.db), refl)
      by_result (ok (ns, c, db')) h =
          let (same_db, same_handlers) =
            register_nodes_keeps database templates (record e { db = db' }) ns c in
          (rw same_db (commit_update-Lawful e u keep h), same_handlers)
