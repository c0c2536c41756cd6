-- ===== src/Task/Manager/Requests.antt =====
-- `ExecuteTask` and `GetTaskRenderInfo` as steps: manager/manager.go.
use nsw.Prelude.{
  String, Bool, true, false, Option, none, Result, ok, err, panic, ◌==◌, if◌then◌else◌, ◌≡◌, refl,
  sym, inl, inr, Bool-cases,
}
use nsw.Task.Store.{TaskTable, IsTaskTable}
use nsw.Task.LocalState.{Codec}
use nsw.Task.Container.Storage.{AcceptsUpdates}
use nsw.Task.Factory.{ExecutionRequest, PluginMakers}
use nsw.Task.Factory.Executors.{MadeOf}
use nsw.Task.Manager.{
  ActiveTask, Notice, Tasks, get_task, execute_found, execute_task, render_found,
  get_task_render_info,
}
use nsw.Task.Manager.Steps.{
  IsQuietPlugin, is_done, IsConsistent, IsStep, execute-IsStep, render-IsStep,
}
use nsw.Task.Manager.Fetch.{IsFetch, get_task-IsFetch}

module _ {S : Type 0} (t : TaskTable S) where
  -- a step that hands on no notice and keeps the store
  pub IsStep-quiet :
      (tasks tasks' : Tasks S)
      → IsConsistent t tasks'
      → tasks'.store ≡ tasks.store
      → IsStep t tasks tasks' none
  unfolding is_done
  IsStep-quiet tasks tasks' k same = record {
    consistent = k;
    stays_over = λ i over. rw (sym same) at over;
    announced = λ i said. absurd cc;
  }

  -- a step from the same rows
  IsStep-from :
      (before tasks tasks' : Tasks S) (notice : Option Notice)
      → tasks.store ≡ before.store
      → IsStep t tasks tasks' notice
      → IsStep t before tasks' notice
  IsStep-from before tasks tasks' notice same step = record {
    consistent = step.consistent;
    stays_over = λ i over. step.stays_over i (rw (sym same) at over);
    announced = λ i said.
        let (over, fresh) = step.announced i said in (over, λ was. fresh (rw (sym same) at was));
  }

module _ {S : Type 0} (t : TaskTable S) (law : IsTaskTable t) (accepts : AcceptsUpdates t)
    (codec : Codec) (makers : PluginMakers) (quiet : MadeOf IsQuietPlugin makers) where
  execute_found-IsStep :
      (s : S) (tasks : Tasks S) (id : String) (payload : Option ExecutionRequest)
      (r : Result ActiveTask)
      → IsFetch t s tasks id r
      → IsStep t tasks
          (execute_found t codec makers payload tasks r).0
          (execute_found t codec makers payload tasks r).2
  unfolding execute_found
  execute_found-IsStep s tasks id payload (ok active) f =
      execute-IsStep t law accepts codec makers active payload tasks id f.consistent
        (f.sound active refl)
  execute_found-IsStep s tasks id payload (err e) f = IsStep-quiet t tasks tasks f.consistent refl
  execute_found-IsStep s tasks id payload panic f = IsStep-quiet t tasks tasks f.consistent refl

  -- `ExecuteTask` is a step.
  pub execute_task-IsStep :
      (id : String) (payload : Option ExecutionRequest) (tasks : Tasks S)
      → IsConsistent t tasks
      → IsStep t tasks
          (execute_task t codec makers id payload tasks).0
          (execute_task t codec makers id payload tasks).2
  unfolding execute_task
  execute_task-IsStep id payload tasks k = by_test (id == "")
    where
      fetched : Tasks S × Result ActiveTask
      fetched = get_task t codec makers id tasks

      by_test :
          (b : Bool)
          → IsStep t tasks
              (if b
                then (tasks, err "task_id is required", none)
                else execute_found t codec makers payload fetched.0 fetched.1).0
              (if b
                then (tasks, err "task_id is required", none)
                else execute_found t codec makers payload fetched.0 fetched.1).2
      by_test true = IsStep-quiet t tasks tasks k refl
      by_test false =
          let f = get_task-IsFetch t law codec makers quiet tasks id k in
          IsStep-from t tasks fetched.0 _ _ f.same_store
            (execute_found-IsStep tasks.store fetched.0 id payload fetched.1 f)

  render_found-IsStep :
      (s : S) (tasks : Tasks S) (id : String) (r : Result ActiveTask)
      → IsFetch t s tasks id r
      → IsStep t tasks (render_found t codec makers tasks r).0 none
  unfolding render_found
  render_found-IsStep s tasks id (ok active) f =
      render-IsStep t law accepts codec makers active tasks id f.consistent (f.sound active refl)
  render_found-IsStep s tasks id (err e) f = IsStep-quiet t tasks tasks f.consistent refl
  render_found-IsStep s tasks id panic f = IsStep-quiet t tasks tasks f.consistent refl

  -- `GetTaskRenderInfo` is a step.
  pub get_task_render_info-IsStep :
      (id : String) (tasks : Tasks S)
      → IsConsistent t tasks
      → IsStep t tasks (get_task_render_info t codec makers id tasks).0 none
  unfolding get_task_render_info
  get_task_render_info-IsStep id tasks k = elim (Bool-cases (id == "")) [
    | inl empty ↦ rw empty (IsStep-quiet t tasks tasks k refl)
    | inr given ↦
        let fetched = get_task t codec makers id tasks in
        let f = get_task-IsFetch t law codec makers quiet tasks id k in
        rw given (
          IsStep-from t tasks fetched.0 _ _ f.same_store
            (render_found-IsStep tasks.store fetched.0 id fetched.1 f))
  ]
