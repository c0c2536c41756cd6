-- ===== src/Task/Plugin/Fsm.antt =====
-- plugin/fsm.go: the table-driven state machine of a plugin. A table is a map from a plugin state
-- and an action, given here as the list of its entries.
pub mod Settling
use nsw.Prelude.{
  String, Bool, ◌&&◌, Option, none, some, List, [], ◌∷◌, ◌==◌, if◌then◌else◌, is_some, Result, ok,
  err,
}
use nsw.Task.Plugin.State.{TaskState}

pub record TransitionKey : Type 0 where
  pub from_state : String
  pub action : String

-- `NextTaskState` of "" means that the task state stays: `none`.
pub record TransitionOutcome : Type 0 where
  pub next_plugin_state : String
  pub next_task_state : Option TaskState

abbrev pub PluginFsm : Type 0
PluginFsm = List (TransitionKey × TransitionOutcome)

-- `f.transitions[TransitionKey{FromState: state, Action: action}]`
unfoldable pub find_edge : PluginFsm → String → String → Option TransitionOutcome
find_edge [] state action = none
find_edge ((key, outcome) ∷ rest) state action =
    if key.from_state == state && key.action == action
    then some outcome
    else find_edge rest state action

unfoldable pub transition : PluginFsm → String → String → Result TransitionOutcome
unfolding find_edge
transition fsm state action = elim (find_edge fsm state action) [
  | none ↦ err "fsm: action is not permitted in plugin state"
  | some outcome ↦ ok outcome
]

unfoldable pub can_transition : PluginFsm → String → String → Bool
unfolding find_edge
can_transition fsm state action = is_some (find_edge fsm state action)

-- an entry of a table literal
abbrev pub edge : String → String → String → Option TaskState → TransitionKey × TransitionOutcome
edge from action to state = (
  record { from_state = from; action = action },
  record { next_plugin_state = to; next_task_state = state },
)
