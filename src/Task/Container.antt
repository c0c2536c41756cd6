-- ===== src/Task/Container.antt =====
-- container/container.go: a task's container, which owns the task's state and runs its plugin.
-- A plugin is the interface `plugin.Plugin`: here a run of one of its methods is the tree of the
-- calls that it makes of `plugin.API`, each with what follows on every answer. What a plugin asks
-- of other services is settled when the tree is made. Locks are left out: the tree fixes the order.
pub mod Moves
pub mod Storage
pub mod Frame
pub mod Quiet
pub mod Performs
pub mod Entries
use nsw.Prelude.{
  String, Bool, true, Option, none, some, [], attempt, ◌==◌, if◌then◌else◌, is_some, Map, lookup,
  Result, ok, err, panic, ◌>>=◌,
}
use nsw.Task.Plugin.State.{TaskState}
use nsw.Task.Plugin.Fsm.{TransitionOutcome, PluginFsm}
use nsw.Task.Plugin.Fsm
use nsw.Task.Store.{Json, TaskTable, get_plugin_state, update_plugin_state, update_status}
use nsw.Task.LocalState.{Codec, LocalState, get_state, set_state, persist_to_db}

-- `ApiResponse`: whether the call succeeded, and the code of its error
pub record ApiResponse : Type 0 where
  pub success : Bool
  pub error_code : Option String

-- `ExecutionResponse`, without the message
pub record ExecutionResponse : Type 0 where
  pub new_state : Option TaskState
  pub extended_state : Option String
  pub outputs : Map Json
  pub emitted_outcome : Option String
  pub api_response : Option ApiResponse

-- `&plugin.ExecutionResponse{}`
abbrev pub empty_response : ExecutionResponse
empty_response = record {
  new_state = none;
  extended_state = none;
  outputs = [];
  emitted_outcome = none;
  api_response = none;
}

-- A run of `Start`, `GetRenderInfo` or `Execute`: it ends with a response, which may be nil, an
-- error, or a panic. A run of `GetRenderInfo` has its answer in the response's `api_response`.
pub data PluginRun : Type 0 where
  respond : Option ExecutionResponse → PluginRun
  fail : String → PluginRun
  crash : PluginRun
  call_transition : String → (Result (Unit {0}) → PluginRun) → PluginRun
  call_can_transition : String → (Bool → PluginRun) → PluginRun
  read_plugin_state : (String → PluginRun) → PluginRun
  read_task_state : (TaskState → PluginRun) → PluginRun
  read_task_id : (String → PluginRun) → PluginRun
  read_workflow_id : (String → PluginRun) → PluginRun
  read_global : String → (Option Json → PluginRun) → PluginRun
  read_local : String → (Option Json → PluginRun) → PluginRun
  write_local : String → Json → (Result (Unit {0}) → PluginRun) → PluginRun

pub record Container : Type 0 where
  pub task_id : String
  pub workflow_id : String
  pub template_id : String
  pub state : TaskState
  pub plugin_state : String
  pub fsm : Option PluginFsm
  pub global_state : Map Json
  pub local_state : LocalState

-- the two fields that `Transition` writes, from the edge's outcome
unfoldable pub apply_outcome : Container → TransitionOutcome → Container
apply_outcome c outcome = record c {
  plugin_state = outcome.next_plugin_state;
  state = elim outcome.next_task_state [ none ↦ c.state | some state ↦ state ];
}

-- `CanTransition`
unfoldable pub can_transition : Container → String → Bool
can_transition c action = elim c.fsm [
  | none ↦ true
  | some fsm ↦ Fsm.can_transition fsm c.plugin_state action
]

-- `ReadFromGlobalStore`
unfoldable pub read_from_global_store : Container → String → Option Json
read_from_global_store c key = lookup key c.global_state

-- `if err == nil { c.pluginState = pluginState }` on a new container
abbrev pub state_or_empty : Result String → String
state_or_empty (ok plugin_state) = plugin_state
state_or_empty (err e) = ""
state_or_empty panic = ""

module _ {S : Type 0} (t : TaskTable S) where
  -- the store's second update, when the outcome has a task state
  unfoldable pub store_state : S → String → Option TaskState → S × Result (Unit {0})
  unfolding update_status
  store_state s id none = (s, ok tt)
  store_state s id (some state) = attempt s (update_status t s id state)

  -- what follows the store's first update
  unfoldable pub store_next : S → String → Option TaskState → Result S → S × Result (Unit {0})
  unfolding store_state
  store_next s id next (ok s') = store_state s' id next
  store_next s id next (err e) = (s, err e)
  store_next s id next panic = (s, panic)

  -- the store's updates of `Transition`
  unfoldable pub store_outcome : S → String → TransitionOutcome → S × Result (Unit {0})
  unfolding update_plugin_state store_next
  store_outcome s id outcome =
      store_next s id outcome.next_task_state (update_plugin_state t s id outcome.next_plugin_state)

  -- the rest of `Transition` on what the table says: memory first, then the store
  unfoldable pub follow :
      Container → S → Result TransitionOutcome → Container × S × Result (Unit {0})
  unfolding apply_outcome store_outcome
  follow c s (ok outcome) =
      let stored = store_outcome s c.task_id outcome in
      (apply_outcome c outcome, stored.0, stored.1)
  follow c s (err e) = (c, s, err e)
  follow c s panic = (c, s, panic)

  -- `Transition` by the container's table, if it has one
  unfoldable pub transition_by :
      Option PluginFsm → Container → S → String → Container × S × Result (Unit {0})
  unfolding follow
  transition_by none c s action = (c, s, ok tt)
  transition_by (some fsm) c s action = follow c s (Fsm.transition fsm c.plugin_state action)

  -- `Transition`
  unfoldable pub transition : Container → S → String → Container × S × Result (Unit {0})
  unfolding transition_by
  transition c s action = transition_by c.fsm c s action

  -- `NewContainer`: the plugin state is the store's, or empty when it has none
  unfoldable pub new_container :
      S
      → String
      → String
      → String
      → TaskState
      → Map Json
      → LocalState
      → Option PluginFsm
      → Container
  unfolding get_plugin_state
  new_container s task_id workflow_id template_id state global_state local_state fsm = record {
    task_id = task_id;
    workflow_id = workflow_id;
    template_id = template_id;
    state = state;
    plugin_state = state_or_empty (get_plugin_state t s task_id);
    fsm = fsm;
    global_state = global_state;
    local_state = local_state;
  }

-- The two fields that the container adds to a response when the plugin state changed.
unfoldable pub complete_response : String → Container → Option ExecutionResponse → ExecutionResponse
complete_response previous c response =
    let filled : ExecutionResponse = elim response [ none ↦ empty_response | some r ↦ r ] in
    if c.plugin_state == previous
    then filled
    else record filled { new_state = some c.state; extended_state = some c.plugin_state }

module _ {S : Type 0} (t : TaskTable S) (codec : Codec) where
  -- `WriteToLocalStore`
  unfoldable pub write_to_local_store :
      Container → S → String → Json → Container × S × Result (Unit {0})
  unfolding set_state
  write_to_local_store c s key value =
      let (m, result) = set_state t codec s c.local_state key value in
      let (s', answer) = attempt s result in (record c { local_state = m }, s', answer)

  -- a run of the plugin against the container and the store
  unfoldable pub run_plugin :
      PluginRun → Container → S → Container × S × Result (Option ExecutionResponse)
  unfolding transition can_transition read_from_global_store get_state write_to_local_store
  run_plugin (respond response) c s = (c, s, ok response)
  run_plugin (fail message) c s = (c, s, err message)
  run_plugin crash c s = (c, s, panic)
  run_plugin (call_transition action next) c s =
      let (c', s', answer) = transition t c s action in run_plugin (next answer) c' s'
  run_plugin (call_can_transition action next) c s = run_plugin (next (can_transition c action)) c s
  run_plugin (read_plugin_state next) c s = run_plugin (next c.plugin_state) c s
  run_plugin (read_task_state next) c s = run_plugin (next c.state) c s
  run_plugin (read_task_id next) c s = run_plugin (next c.task_id) c s
  run_plugin (read_workflow_id next) c s = run_plugin (next c.workflow_id) c s
  run_plugin (read_global key next) c s = run_plugin (next (read_from_global_store c key)) c s
  run_plugin (read_local key next) c s = run_plugin (next (get_state c.local_state key)) c s
  run_plugin (write_local key value next) c s =
      let (c', s', answer) = write_to_local_store c s key value in run_plugin (next answer) c' s'

  -- `Start` and `Execute`, which differ in the plugin's method only
  unfoldable pub execute : PluginRun → Container → S → Container × S × Result ExecutionResponse
  unfolding run_plugin complete_response
  execute run c s =
      let (c', s', result) = run_plugin run c s in
      (
        c',
        s',
        elim result [
          | ok response ↦ ok (complete_response c.plugin_state c' response)
          | err e ↦ err e
          | panic ↦ panic
        ],
      )

  -- `GetRenderInfo`
  unfoldable pub get_render_info :
      PluginRun → Container → S → Container × S × Result (Option ApiResponse)
  unfolding run_plugin
  get_render_info run c s =
      let (c', s', result) = run_plugin run c s in
      (
        c',
        s',
        elim result [
          | ok response ↦ ok (elim response [ none ↦ none | some r ↦ r.api_response ])
          | err e ↦ err e
          | panic ↦ panic
        ],
      )
