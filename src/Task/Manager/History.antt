-- ===== src/Task/Manager/History.antt =====
-- Sequences of requests to the task manager: manager/manager.go.
use nsw.Prelude.{
  ℕ, ◌+◌, ◌≤◌, String, Option, none, List, [], ◌∷◌, if◌then◌else◌, ◌≡◌, refl, arith, inl, inr,
  Bool-cases,
}
use nsw.Task.Store.{TaskTable, IsTaskTable}
use nsw.Task.LocalState.{Codec}
use nsw.Task.Container.Storage.{AcceptsUpdates}
use nsw.Task.Factory.{ExecutionRequest, PluginMakers}
use nsw.Task.Factory.Executors.{MadeOf}
use nsw.Task.Manager.{InitTaskRequest, Notice, Tasks, execute_task, init_task, get_task_render_info}
use nsw.Task.Manager.Sound.{IsOver}
use nsw.Task.Manager.Steps.{IsQuietPlugin, is_done, IsConsistent, IsStep}
use nsw.Task.Manager.Requests.{execute_task-IsStep, get_task_render_info-IsStep}
use nsw.Task.Manager.Creation.{init_task-IsStep}

-- `InitTask`, `ExecuteTask` or `GetTaskRenderInfo`
pub data Request : Type 0 where
  to_init : InitTaskRequest → Request
  to_execute : String → Option ExecutionRequest → Request
  to_render : String → Request

module _ {S : Type 0} (t : TaskTable S) (codec : Codec) (makers : PluginMakers) where
  unfoldable serve : Request → Tasks S → Tasks S × Option Notice
  serve (to_init request) tasks =
      let (tasks', _, notice) = init_task t codec makers request tasks in (tasks', notice)
  serve (to_execute id payload) tasks =
      let (tasks', _, notice) = execute_task t codec makers id payload tasks in (tasks', notice)
  serve (to_render id) tasks = ((get_task_render_info t codec makers id tasks).0, none)

  -- the state after some requests, whether or not they succeed, and how often the workflow manager
  -- was told that the task `id` is done
  unfoldable pub after_all : Tasks S → List Request → Tasks S
  unfolding serve
  after_all tasks [] = tasks
  after_all tasks (r ∷ rs) = after_all (serve r tasks).0 rs

  unfoldable pub times_done : String → Tasks S → List Request → ℕ
  unfolding serve is_done
  times_done id tasks [] = 0
  times_done id tasks (r ∷ rs) =
      let later = times_done id (serve r tasks).0 rs in
      if is_done id (serve r tasks).1 then 1 + later else later

module _ {S : Type 0} (t : TaskTable S) (law : IsTaskTable t) (accepts : AcceptsUpdates t)
    (codec : Codec) (makers : PluginMakers) (quiet : MadeOf IsQuietPlugin makers) where
  serve-IsStep :
      (r : Request) (tasks : Tasks S)
      → IsConsistent t tasks
      → IsStep t tasks (serve t codec makers r tasks).0 (serve t codec makers r tasks).1
  unfolding serve
  serve-IsStep (to_init request) tasks k =
      init_task-IsStep t law accepts codec makers quiet request tasks k
  serve-IsStep (to_execute id payload) tasks k =
      execute_task-IsStep t law accepts codec makers quiet id payload tasks k
  serve-IsStep (to_render id) tasks k =
      get_task_render_info-IsStep t law accepts codec makers quiet id tasks k

  -- Once a task is over, the workflow manager is not told again that it is done.
  times_done-over :
      (id : String) (tasks : Tasks S) (rs : List Request)
      → IsConsistent t tasks
      → IsOver t tasks.store id
      → times_done t codec makers id tasks rs ≡ 0
  unfolding times_done
  times_done-over id tasks [] k over = refl
  times_done-over id tasks (r ∷ rs) k over =
      let step = serve-IsStep r tasks k in
      let later =
        times_done-over id (serve t codec makers r tasks).0 rs step.consistent
          (step.stays_over id over) in
      elim (Bool-cases (is_done id (serve t codec makers r tasks).1)) [
        | inl said ↦ absurd ((step.announced id said).1 over)
        | inr silent ↦ rw silent later
      ]

  -- In any sequence of requests (`InitTask`, `ExecuteTask` and `GetTaskRenderInfo`), of any tasks
  -- and whether or not they succeed, the workflow manager is told at most once that a task is done,
  -- also where the container is evicted from the cache and rebuilt. It is assumed that the rows and
  -- the cached containers agree at the start, that the database accepts every update of a row that
  -- is there, and that no plugin sets the new state of its response itself.
  pub times_done-le-1 :
      (id : String) (tasks : Tasks S) (rs : List Request)
      → IsConsistent t tasks
      → times_done t codec makers id tasks rs ≤ 1
  unfolding times_done
  times_done-le-1 id tasks [] k = omega arith
  times_done-le-1 id tasks (r ∷ rs) k =
      let step = serve-IsStep r tasks k in
      elim (Bool-cases (is_done id (serve t codec makers r tasks).1)) [
        | inl said ↦
            let later =
              times_done-over id (serve t codec makers r tasks).0 rs step.consistent
                (step.announced id said).0 in
            rw said (omega arith)
        | inr silent ↦
            rw silent (times_done-le-1 id (serve t codec makers r tasks).0 rs step.consistent)
      ]

  -- A task that is over stays over under any sequence of requests (`InitTask`, `ExecuteTask` and
  -- `GetTaskRenderInfo`), whether or not they succeed. It is assumed that the rows and the cached
  -- containers agree at the start, that the database accepts every update of a row that is there,
  -- and that no plugin sets the new state of its response itself.
  pub after_all-IsOver :
      (id : String) (tasks : Tasks S) (rs : List Request)
      → IsConsistent t tasks
      → IsOver t tasks.store id
      → IsOver t (after_all t codec makers tasks rs).store id
  unfolding after_all
  after_all-IsOver id tasks [] k over = over
  after_all-IsOver id tasks (r ∷ rs) k over =
      let step = serve-IsStep r tasks k in
      after_all-IsOver id (serve t codec makers r tasks).0 rs step.consistent
        (step.stays_over id over)

  -- Under any sequence of requests (`InitTask`, `ExecuteTask` and `GetTaskRenderInfo`), whether or
  -- not they succeed, the rows and the cached containers stay in agreement: a container that is in
  -- the cache has the states of its row, and a row that is over has a plugin state that no edge
  -- leaves. It is assumed that the rows and the cached containers agree at the start, that the
  -- database accepts every update of a row that is there, and that no plugin sets the new state of
  -- its response itself.
  pub after_all-IsConsistent :
      (tasks : Tasks S) (rs : List Request)
      → IsConsistent t tasks
      → IsConsistent t (after_all t codec makers tasks rs)
  unfolding after_all
  after_all-IsConsistent tasks [] k = k
  after_all-IsConsistent tasks (r ∷ rs) k =
      after_all-IsConsistent (serve t codec makers r tasks).0 rs (serve-IsStep r tasks k).consistent
