-- ===== src/Workflow/Manager.antt =====
-- manager/manager.go: the generic workflow engine. The database is a parameter: what the engine
-- asks of a transaction, as functions of its state. So are the domain's event handlers, the
-- template provider and the task manager's callback. Locks are left out: each of the manager's
-- methods is one step.
pub mod Process
pub mod TaskUpdate
pub mod Start
use nsw.Prelude.{String, Option, List, [], ◌∷◌, Map, insert, Result, ok, err}
use nsw.Task.Plugin.State
use nsw.Task.Plugin.State.{TaskState, initialized, other}
use nsw.Workflow.Model
use nsw.Workflow.Model.{NodeState, ready, Json, NodeTemplate, WorkflowStatus, Workflow}
use nsw.Workflow.NodeService.{NodeRepository}

-- A transaction on the workflow tables. `Begin` starts one from the committed state, `Rollback`
-- drops it, and `Commit` may fail.
pub record Database (S : Type 0) : Type 0 where
  pub nodes : NodeRepository S
  pub create_workflow : S → Workflow → Result S
  pub first_workflow : S → String → Result Workflow
  pub save_workflow : S → Workflow → Result S
  pub commit : S → Result S

-- `OnWorkflowStatusChanged`, which may write in the transaction.
abbrev pub EventHandler : Type 0 → Type 0
EventHandler S = S → String → WorkflowStatus → WorkflowStatus → Workflow → Result S

-- `InitTaskRequest`
pub record InitTaskRequest : Type 0 where
  pub task_id : String
  pub workflow_id : String
  pub template_id : String
  pub type_name : String
  pub global_state : Map Json
  pub config : Json

pub record TemplateProvider : Type 0 where
  pub get_template : String → Result NodeTemplate
  pub get_templates : List String → Result (List NodeTemplate)
  pub get_end_template : Result NodeTemplate

-- `WorkflowManagerNotification`
pub record Notification : Type 0 where
  pub task_id : String
  pub updated_state : Option TaskState
  pub append_global_context : Map Json
  pub extended_state : Option String
  pub outcome : Option String

-- The committed database, the state behind the task manager's callback, and the manager's fields.
-- The callback changes that state also when it returns an error.
pub record Engine (S T : Type 0) : Type 0 where
  pub db : S
  pub tasks : T
  pub handlers : Map (EventHandler S)
  pub init_task : Option (T → InitTaskRequest → T × Result (Unit {0}))

unfoldable pub plugin_state_to_node_state : TaskState → Result NodeState
plugin_state_to_node_state initialized = ok ready
plugin_state_to_node_state State.in_progress = ok NodeState.in_progress
plugin_state_to_node_state State.completed = ok NodeState.completed
plugin_state_to_node_state State.failed = ok NodeState.failed
plugin_state_to_node_state (other _) = err "unknown plugin state"

-- `maps.Copy(dst, src)`
unfoldable pub copy_map : Map Json → Map Json → Map Json
copy_map dst [] = dst
copy_map dst ((k, v) ∷ src) = copy_map (insert k v dst) src
