-- ===== src/Task/Manager.antt =====
-- manager/manager.go: the task manager. A handler of the workflow manager is called as the last
-- act of a step, so a step returns the notice that it hands to the handlers, if any.
pub mod Sound
pub mod Steps
pub mod Fetch
pub mod Requests
pub mod Creation
pub mod History
use nsw.Prelude.{
  String, Option, none, some, [], ◌==◌, if◌then◌else◌, Map, Result, ok, err, panic, ◌>>=◌, wrap,
}
use nsw.Task.Plugin.State.{TaskState, initialized, is_final}
use nsw.Task.Store.{Json, TaskInfo, TaskTable, get_by_id}
use nsw.Task.LocalState.{
  Codec, LocalState, new_local_state_manager, new_local_state_manager_with_cache,
}
use nsw.Task.Container
use nsw.Task.Container.{ApiResponse, ExecutionResponse, PluginRun, new_container}
use nsw.Task.Cache
use nsw.Task.Cache.{CacheNode, ContainerCache, modify_node}
use nsw.Task.Factory.{ExecutionRequest, Plugin, Executor, PluginMakers, build_executor}

-- a container with its plugin
pub record ActiveTask : Type 0 where
  pub container : Container.Container
  pub plugin : Plugin

pub record InitTaskRequest : Type 0 where
  pub task_id : String
  pub workflow_id : String
  pub template_id : String
  pub type_name : String
  pub global_state : Map Json
  pub config : Json

-- the calls of `workflowUpdateHandler` and `workflowDoneHandler`
pub data Notice : Type 0 where
  updated : String → Option TaskState → Option String → Map Json → Option String → Notice
  done : String → String → Map Json → Notice

-- the fields of `taskManager` that change, with the database behind its store
pub record Tasks (S : Type 0) : Type 0 where
  pub store : S
  pub cache : ContainerCache ActiveTask

-- `plugin.Completed || plugin.Failed` on `*result.NewState`
unfoldable pub notice_of : Container.Container → ExecutionResponse → Option Notice
notice_of c response = elim response.new_state [
  | none ↦ none
  | some state ↦
      if is_final state
      then some (done c.workflow_id c.task_id response.outputs)
      else some (
          updated c.task_id (some state) response.extended_state response.outputs
            response.emitted_outcome)
]

-- the error paths of `execute`
unfoldable pub answer :
    Container.Container → Result ExecutionResponse → Result ExecutionResponse × Option Notice
unfolding notice_of
answer c (ok response) = (ok response, notice_of c response)
answer c (err e) = (err e, none)
answer c panic = (panic, none)

-- the paths of `start`, which notifies of the state in any case
unfoldable pub start_answer :
    Container.Container → Result ExecutionResponse → Result (Unit {0}) × Option Notice
start_answer c (ok response) = (
  ok tt,
  some (
      updated c.task_id response.new_state response.extended_state response.outputs
        response.emitted_outcome),
)
start_answer c (err e) = (wrap "failed to start task: " (err e), none)
start_answer c panic = (panic, none)

-- The plugin changes the container through its pointer, so the cached container changes with it.
unfoldable pub keep_changes :
    String → Container.Container → ContainerCache ActiveTask → ContainerCache ActiveTask
unfolding modify_node
keep_changes id c cache =
    modify_node id (λ node. record node { container = record node.container { container = c } })
      cache

module _ {S : Type 0} (t : TaskTable S) (codec : Codec) (makers : PluginMakers) where
  -- `start`
  unfoldable pub start : ActiveTask → Tasks S → Tasks S × Result (Unit {0}) × Option Notice
  unfolding keep_changes start_answer Container.execute
  start active tasks =
      let (c, s, result) =
        Container.execute t codec active.plugin.start active.container tasks.store in
      let (r, notice) = start_answer c result in
      (record { store = s; cache = keep_changes c.task_id c tasks.cache }, r, notice)

  -- `execute`
  unfoldable pub execute :
      ActiveTask
      → Option ExecutionRequest
      → Tasks S
      → Tasks S × Result ExecutionResponse × Option Notice
  unfolding keep_changes answer Container.execute
  execute active payload tasks =
      let (c, s, result) =
        Container.execute t codec (active.plugin.execute payload) active.container tasks.store in
      let (r, notice) = answer c result in
      (record { store = s; cache = keep_changes c.task_id c tasks.cache }, r, notice)

  -- "Only unmarshal if Config is not empty"
  unfoldable pub stored_config : TaskInfo → Result Json
  stored_config row =
      if row.config == ""
      then ok ""
      else wrap "failed to unmarshal config: " (codec.unmarshal_raw row.config)

  -- "Only unmarshal if GlobalContext is not empty"
  unfoldable pub stored_context : TaskInfo → Result (Map Json)
  stored_context row =
      if row.global_context == ""
      then ok []
      else wrap "failed to unmarshal global context: " (codec.unmarshal row.global_context)

  -- the container of a row
  unfoldable pub row_task : S → TaskInfo → Executor → LocalState → Map Json → ActiveTask
  unfolding new_container
  row_task s row exec local_state global_context = record {
    container =
        new_container t s row.id row.workflow_id row.template_id row.state global_context
          local_state exec.fsm;
    plugin = exec.plugin;
  }

  -- `getTask` on a miss: the container from the task's row
  unfoldable pub rebuild : S → String → Result ActiveTask
  unfolding get_by_id stored_config stored_context build_executor new_local_state_manager_with_cache
      row_task
  rebuild s task_id = do
    row ← get_by_id t s task_id
    config ← stored_config row
    exec ← wrap "failed to rebuild executor: " (build_executor makers row.type_name config)
    local_state ←
        wrap "failed to create local state manager: "
          (new_local_state_manager_with_cache t codec row.id row.local_state)
    global_context ← stored_context row
    ok (row_task s row exec local_state global_context)

  -- `getTask` on a miss, with what it rebuilt
  unfoldable pub cache_rebuilt : String → Result ActiveTask → Tasks S → Tasks S × Result ActiveTask
  unfolding Cache.set
  cache_rebuilt task_id (ok active) tasks =
      (record tasks { cache = Cache.set task_id active tasks.cache }, ok active)
  cache_rebuilt task_id (err e) tasks = (tasks, err e)
  cache_rebuilt task_id panic tasks = (tasks, panic)

  -- `getTask` after the look into the cache
  unfoldable pub get_task_found :
      String → Option ActiveTask → ContainerCache ActiveTask → Tasks S → Tasks S × Result ActiveTask
  unfolding rebuild cache_rebuilt
  get_task_found task_id (some active) cache tasks = (record tasks { cache = cache }, ok active)
  get_task_found task_id none cache tasks =
      cache_rebuilt task_id (rebuild tasks.store task_id) (record tasks { cache = cache })

  -- `getTask`; the second look at the cache under the lock finds what the first one found
  unfoldable pub get_task : String → Tasks S → Tasks S × Result ActiveTask
  unfolding Cache.get get_task_found
  get_task task_id tasks =
      let looked = Cache.get task_id tasks.cache in get_task_found task_id looked.0 looked.1 tasks

  -- `ExecuteTask`, after `getTask`
  unfoldable pub execute_found :
      Option ExecutionRequest
      → Tasks S
      → Result ActiveTask
      → Tasks S × Result ExecutionResponse × Option Notice
  unfolding execute
  execute_found payload tasks (ok active) =
      let (tasks', result, notice) = execute active payload tasks in
      (tasks', wrap "failed to execute task: " result, notice)
  execute_found payload tasks (err e) = (tasks, wrap "task not found: " (err e), none)
  execute_found payload tasks panic = (tasks, panic, none)

  -- `ExecuteTask`
  unfoldable pub execute_task :
      String
      → Option ExecutionRequest
      → Tasks S
      → Tasks S × Result ExecutionResponse × Option Notice
  unfolding get_task execute_found
  execute_task task_id payload tasks =
      if task_id == ""
      then (tasks, err "task_id is required", none)
      else let (tasks', active) = get_task task_id tasks in execute_found payload tasks' active

  -- `activeTask.GetRenderInfo`, which may change the container and the store as the others do
  unfoldable pub render : ActiveTask → Tasks S → Tasks S × Result (Option ApiResponse)
  unfolding keep_changes Container.get_render_info
  render active tasks =
      let (c, s, result) =
        Container.get_render_info t codec active.plugin.render active.container tasks.store in
      (record { store = s; cache = keep_changes c.task_id c tasks.cache }, result)

  -- `GetTaskRenderInfo`, after `getTask`
  unfoldable pub render_found : Tasks S → Result ActiveTask → Tasks S × Result (Option ApiResponse)
  unfolding render
  render_found tasks (ok active) =
      let (tasks', result) = render active tasks in
      (tasks', wrap "failed to get render info: " result)
  render_found tasks (err e) = (tasks, wrap "task not found: " (err e))
  render_found tasks panic = (tasks, panic)

  -- `GetTaskRenderInfo`
  unfoldable pub get_task_render_info : String → Tasks S → Tasks S × Result (Option ApiResponse)
  unfolding get_task render_found
  get_task_render_info task_id tasks =
      if task_id == ""
      then (tasks, err "task_id is required")
      else let (tasks', active) = get_task task_id tasks in render_found tasks' active

  -- the row that `InitTask` stores
  unfoldable pub task_info : InitTaskRequest → Json → Json → TaskInfo
  task_info request config global_context = record {
    id = request.task_id;
    workflow_id = request.workflow_id;
    template_id = request.template_id;
    type_name = request.type_name;
    state = initialized;
    plugin_state = "";
    config = config;
    local_state = "";
    global_context = global_context;
  }

  -- the container of a request
  unfoldable pub request_task : S → InitTaskRequest → Executor → LocalState → ActiveTask
  unfolding new_container
  request_task s request exec local_state = record {
    container =
        new_container t s request.task_id request.workflow_id request.template_id initialized
          request.global_state local_state exec.fsm;
    plugin = exec.plugin;
  }

  -- `InitTask` on a miss, up to the start: the container, and the store with its row
  unfoldable pub create_task : S → InitTaskRequest → Result (ActiveTask × S)
  unfolding build_executor new_local_state_manager request_task task_info
  create_task s request = do
    exec ←
        wrap "failed to build executor: " (build_executor makers request.type_name request.config)
    local_state ←
        wrap "failed to create local state manager: "
          (new_local_state_manager t codec s request.task_id)
    config ← wrap "failed to marshal task config: " (codec.marshal_raw request.config)
    global_context ← wrap "failed to marshal global context: " (codec.marshal request.global_state)
    s' ← wrap "failed to store task info: " (t.create s (task_info request config global_context))
    ok (request_task s request exec local_state, s')

  -- `InitTask` on a miss: cache the container and start it
  unfoldable pub start_created :
      InitTaskRequest
      → Tasks S
      → Result (ActiveTask × S)
      → Tasks S × Result (Unit {0}) × Option Notice
  unfolding start Cache.set
  start_created request tasks (ok (active, s)) =
      start active (record { store = s; cache = Cache.set request.task_id active tasks.cache })
  start_created request tasks (err e) = (tasks, err e, none)
  start_created request tasks panic = (tasks, panic, none)

  -- `InitTask` after the look into the cache
  unfoldable pub init_task_found :
      InitTaskRequest
      → Option ActiveTask
      → ContainerCache ActiveTask
      → Tasks S
      → Tasks S × Result (Unit {0}) × Option Notice
  unfolding start create_task start_created
  init_task_found request (some active) cache tasks = start active (record tasks { cache = cache })
  init_task_found request none cache tasks =
      start_created request (record tasks { cache = cache }) (create_task tasks.store request)

  -- `InitTask`
  unfoldable pub init_task : InitTaskRequest → Tasks S → Tasks S × Result (Unit {0}) × Option Notice
  unfolding Cache.get init_task_found
  init_task request tasks =
      let looked = Cache.get request.task_id tasks.cache in
      init_task_found request looked.0 looked.1 tasks
