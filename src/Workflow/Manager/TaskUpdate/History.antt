-- ===== src/Workflow/Manager/TaskUpdate/History.antt =====
-- Sequences of task updates, as the engine handles them one after the other.
use nsw.Prelude.{String, List, [], ◌∷◌, ◌≡◌, ok}
use nsw.Workflow.Model.{NodeState, WorkflowNode}
use nsw.Workflow.Lifecycle.{◌⟶*◌, here, then, ⟶*_of_completed}
use nsw.Workflow.NodeService.{NodeTable, IsNodeTable}
use nsw.Workflow.Manager.{Database, TemplateProvider, Notification, Engine}
use nsw.Workflow.Manager.Process.Frame.{IsDatabase}
use nsw.Workflow.Manager.TaskUpdate.{handle_task_update}
use nsw.Workflow.Manager.TaskUpdate.Moves.{HandlersKeep, handle_task_update-Lawful}

module _ {S T : Type 0} (database : Database S) (templates : TemplateProvider) where
  -- the engine after a sequence of updates, whether or not they succeed
  unfoldable pub handle_all : Engine S T → List Notification → Engine S T
  handle_all e [] = e
  handle_all e (u ∷ us) = handle_all (handle_task_update database templates e u).0 us

module _ {S T : Type 0} (t : NodeTable S) (law : IsNodeTable t) (database : Database S)
    (db_law : IsDatabase t database) (templates : TemplateProvider) where
  -- After any sequence of task updates, whether or not they succeed, every stored node is still
  -- stored, in a state that its old one leads to by the edges of the life cycle. It is assumed that
  -- the event handlers leave the node table as it is.
  pub handle_all-moves :
      (e : Engine S T) (us : List Notification)
      → HandlersKeep t law database db_law templates e
      → (i : String) (n : WorkflowNode) → t.first e.db i ≡ ok n
      → (n' : WorkflowNode) × (t.first (handle_all database templates e us).db i ≡ ok n')
        × (n.state ⟶* n'.state)
  unfolding handle_all
  handle_all-moves e [] keep i n h = (n, h, here)
  handle_all-moves e (u ∷ us) keep i n h =
      let (lawful, same) = handle_task_update-Lawful t law database db_law templates e u keep in
      let (n₁, found, move) = lawful.moved i n h in
      let (n₂, found₂, moves) =
        handle_all-moves (handle_task_update database templates e u).0 us
          (λ w handler k. keep w handler (rw same at k)) i n₁ found in
      (n₂, found₂, then move moves)

  -- A COMPLETED node stays COMPLETED under any sequence of task updates, whether or not they
  -- succeed. It is assumed that the event handlers leave the node table as it is.
  pub handle_all-completed :
      (e : Engine S T) (us : List Notification)
      → HandlersKeep t law database db_law templates e
      → (i : String) (n : WorkflowNode) → t.first e.db i ≡ ok n
      → n.state ≡ NodeState.completed
      → (n' : WorkflowNode) × (t.first (handle_all database templates e us).db i ≡ ok n')
        × (n'.state ≡ NodeState.completed)
  handle_all-completed e us keep i n h c =
      let (n', found, moves) = handle_all-moves e us keep i n h in
      (n', found, ⟶*_of_completed moves c)
