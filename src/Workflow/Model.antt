-- ===== src/Workflow/Model.antt =====
-- The records of backend/internal/workflow/model: workflow nodes, their templates and their
-- unlock configurations. Display text, timestamps and preloaded relations are left out.
use nsw.Prelude.{String, Option, List, Bool, true, false, Map}

-- `WorkflowNodeState`, a string type whose values are these five constants.
pub data NodeState : Type 0 where
  locked ready in_progress completed failed : NodeState

-- `string(node.State)`
unfoldable pub state_string : NodeState → String
state_string locked = "LOCKED"
state_string ready = "READY"
state_string in_progress = "IN_PROGRESS"
state_string completed = "COMPLETED"
state_string failed = "FAILED"

-- `a == b` on states
abbrev pub is_state : NodeState → NodeState → Bool
is_state locked locked = true
is_state ready ready = true
is_state in_progress in_progress = true
is_state completed completed = true
is_state failed failed = true
is_state _ _ = false

pub record UnlockCondition : Type 0 where
  pub node_template_id : String
  pub node_id : Option String
  pub state : Option String
  pub outcome : Option String

pub record UnlockGroup : Type 0 where
  pub all_of : List UnlockCondition

-- `expr any_of all_of leaf`: the four leaf fields of the struct are those of a condition.
mutual
  pub data UnlockExpression : Type 0 where
    expr : Expressions → Expressions → UnlockCondition → UnlockExpression

  pub data Expressions : Type 0 where
    nil : Expressions
    cons : UnlockExpression → Expressions → Expressions

pub record UnlockConfig : Type 0 where
  pub any_of : List UnlockGroup
  pub expression : Option UnlockExpression

-- The JSON values of contexts are opaque to the engine: it copies them and never looks inside.
abbrev pub Json : Type 0
Json = String

-- `Type` of a template, with the constants of the task plugins.
pub record NodeTemplate : Type 0 where
  pub id : String
  pub type_name : String
  pub config : Json
  pub depends_on : List String
  pub unlock_configuration : Option UnlockConfig

pub record WorkflowNode : Type 0 where
  pub id : String
  pub workflow_id : String
  pub template_id : String
  pub state : NodeState
  pub extended_state : Option String
  pub outcome : Option String
  pub depends_on : List String
  pub unlock_configuration : Option UnlockConfig

pub record UpdateNode : Type 0 where
  pub node_id : String
  pub state : NodeState
  pub append_global_context : Map Json
  pub extended_state : Option String
  pub outcome : Option String

pub data WorkflowStatus : Type 0 where
  none_yet in_progress completed failed : WorkflowStatus

pub record Workflow : Type 0 where
  pub id : String
  pub status : WorkflowStatus
  pub global_context : Map Json
  pub end_node_id : Option String

pub record WorkflowTemplate : Type 0 where
  pub node_templates : List String
  pub end_node_template_id : Option String
