-- ===== src/Task/Manager/Creation.antt =====
-- `InitTask` as a step: manager/manager.go.
use nsw.Prelude.{
  String, true, Option, none, some, Result, ok, err, panic, ◌≡◌, ◌≢◌, ◌⊎◌, inl, inr, refl, sym, ap,
  ◌∙◌, ◌>>=◌, >>=-eq-ok, wrap, wrap-eq-ok, ok-inj, String-cases,
}
use nsw.Task.Plugin.State.{is_final, initialized}
use nsw.Task.Store.{Json, TaskInfo, TaskTable, IsTaskTable, get_plugin_state}
use nsw.Task.LocalState.{Codec, LocalState, new_local_state_manager}
use nsw.Task.Container.{new_container, state_or_empty}
use nsw.Task.Container.Storage.{AcceptsUpdates, Stored, InSync}
use nsw.Task.Container.Frame.{Elsewhere}
use nsw.Task.Cache
use nsw.Task.Cache.{ContainerCache}
use nsw.Task.Cache.Contents.{held, get-held}
use nsw.Task.Factory.{Executor, PluginMakers, build_executor}
use nsw.Task.Factory.Executors.{MadeOf}
use nsw.Task.Manager.{
  ActiveTask, InitTaskRequest, Tasks, task_info, request_task, create_task, start_created,
  init_task_found, init_task,
}
use nsw.Task.Manager.Sound.{RowsSettled, IsSound, IsOver, IsSound-Elsewhere}
use nsw.Task.Manager.Steps.{IsQuietPlugin, IsSoundTask, IsConsistent, IsStep, start-IsStep}
use nsw.Task.Manager.Fetch.{
  built, new_local_state-own, same_contents-IsConsistent, set-IsConsistent,
}
use nsw.Task.Manager.Requests.{IsStep-quiet}

module _ {S : Type 0} (t : TaskTable S) (law : IsTaskTable t) (accepts : AcceptsUpdates t)
    (codec : Codec) (makers : PluginMakers) (quiet : MadeOf IsQuietPlugin makers) where
  -- A task without a row has no plugin state.
  no_plugin_state :
      (s : S) (id : String)
      → ((row : TaskInfo) → t.first s id ≢ ok row)
      → state_or_empty (get_plugin_state t s id) ≡ ""
  unfolding get_plugin_state
  no_plugin_state s id none_there = by_row (t.first s id) none_there
    where
      by_row :
          (r : Result TaskInfo)
          → ((row : TaskInfo) → r ≢ ok row)
          → state_or_empty (r >>= λ (row : TaskInfo). ok row.plugin_state) ≡ ""
      by_row (ok row) k = absurd (k row refl)
      by_row (err e) k = refl
      by_row panic k = refl

  -- The parts of a successful creation.
  record IsCreated (s s' : S) (request : InitTaskRequest) (active : ActiveTask) : Type 0 where
    row : TaskInfo
    same_id : row.id ≡ request.task_id
    created : t.create s row ≡ ok s'
    sound : IsSoundTask t s' request.task_id active
    is_new : row.state ≡ initialized

  created_task-IsSoundTask :
      (s s' : S) (request : InitTaskRequest) (exec : Executor) (m : LocalState)
      (config global : Json)
      → build_executor makers request.type_name request.config ≡ ok exec
      → m.task_id ≡ request.task_id
      → t.create s (task_info t codec makers request config global) ≡ ok s'
      → IsSoundTask t s' request.task_id (request_task t codec makers s request exec m)
  unfolding request_task new_container InSync Stored task_info
  created_task-IsSoundTask s s' request exec m config global made own created =
      let row = task_info t codec makers request config global in
      let (stored, found, ty, e, p) = law.first-create_self s s' row created in
      let (fsm, has_fsm, of_type, is_quiet) =
        built t law codec makers quiet request.type_name request.config exec made in
      let empty = no_plugin_state s request.task_id (λ old. law.create_new s s' row old created) in
      record {
        sound = record {
          own_id = refl;
          type_name = request.type_name;
          fsm = fsm;
          has_fsm = has_fsm;
          of_type = of_type;
          in_sync = ((stored, found, ty, e, p ∙ sym empty), own);
        };
        quiet = is_quiet;
      }

  create_task-IsCreated :
      (s : S) (request : InitTaskRequest) {active : ActiveTask} {s' : S}
      → create_task t codec makers s request ≡ ok (active, s')
      → IsCreated s s' request active
  unfolding create_task task_info
  create_task-IsCreated s request {active} {s'} h =
      let (exec, made, h₁) =
        >>=-eq-ok
          (wrap "failed to build executor: "
            (build_executor makers request.type_name request.config))
          _ h in
      let (m, local, h₂) =
        >>=-eq-ok
          (wrap "failed to create local state manager: "
            (new_local_state_manager t codec s request.task_id))
          _ h₁ in
      let (config, _, h₃) =
        >>=-eq-ok (wrap "failed to marshal task config: " (codec.marshal_raw request.config)) _
          h₂ in
      let (global, _, h₄) =
        >>=-eq-ok (wrap "failed to marshal global context: " (codec.marshal request.global_state)) _
          h₃ in
      let (s₁, created, last) =
        >>=-eq-ok
          (wrap "failed to store task info: "
            (t.create s (task_info t codec makers request config global)))
          _ h₄ in
      let created' = wrap-eq-ok "failed to store task info: " _ created in
      let e = ok-inj last in
      let same_task : request_task t codec makers s request exec m ≡ active =
        ap (λ (x : ActiveTask × S). x.0) e in
      let same_store : s₁ ≡ s' = ap (λ (x : ActiveTask × S). x.1) e in
      rw (← same_task) (
        rw (← same_store) (record {
          row = task_info t codec makers request config global;
          same_id = refl;
          created = created';
          sound =
              created_task-IsSoundTask s s₁ request exec m config global
                (wrap-eq-ok "failed to build executor: " _ made)
                (new_local_state-own t law codec makers quiet s request.task_id m
                  (wrap-eq-ok "failed to create local state manager: " _ local))
                created';
          is_new = refl;
        }))

  -- Creating a row leaves the other rows as they are, and the new one is not over.
  created-RowsSettled :
      (s s' : S) (request : InitTaskRequest) (active : ActiveTask)
      → RowsSettled t s
      → IsCreated s s' request active
      → RowsSettled t s'
  unfolding RowsSettled
  created-RowsSettled s s' request active rows made i row fsm found of_type over =
      elim (String-cases made.row.id i) [
        | inr ne ↦
            rows i row fsm (sym (law.first-create_ne s s' made.row i made.created ne) ∙ found)
              of_type over
        | inl e ↦
            let (stored, found', _, state, _) = law.first-create_self s s' made.row made.created in
            let same : stored ≡ row = ok-inj (sym found' ∙ rw (sym e) at found) in
            let k : is_final initialized ≡ true =
              ap is_final (sym (state ∙ made.is_new))
              ∙ ap (λ (r : TaskInfo). is_final r.state) same
              ∙ over in
            absurd cc
      ]

  IsCreated-IsOver :
      (s s' : S) (request : InitTaskRequest) (active : ActiveTask)
      → IsCreated s s' request active
      → (i : String) → IsOver t s i
      → IsOver t s' i
  unfolding IsOver
  IsCreated-IsOver s s' request active made i (row, found, over) =
      elim (String-cases made.row.id i) [
        | inr ne ↦ (row, law.first-create_ne s s' made.row i made.created ne ∙ found, over)
        | inl e ↦ absurd (law.create_new s s' made.row row made.created (rw (sym e) at found))
      ]

  created-IsConsistent :
      (tasks : Tasks S) (s' : S) (request : InitTaskRequest) (active : ActiveTask)
      → IsConsistent t tasks
      → IsCreated tasks.store s' request active
      → IsConsistent t (record { store = s'; cache = tasks.cache })
  unfolding InSync Stored Elsewhere
  created-IsConsistent tasks s' request active k made = record {
    rows = created-RowsSettled tasks.store s' request active k.rows made;
    cached = λ j a h.
        let before = k.cached j a h in
        record { sound = kept j a before.sound (String-cases made.row.id j); quiet = before.quiet };
  }
    where
      kept :
          (j : String) (a : ActiveTask)
          → IsSound t tasks.store j a.container
          → (made.row.id ≡ j) ⊎ (made.row.id ≢ j)
          → IsSound t s' j a.container
      kept j a h (inr ne) =
          IsSound-Elsewhere t tasks.store s' made.row.id j a.container
            (λ i away. law.first-create_ne tasks.store s' made.row i made.created away) ne h
      kept j a h (inl e) =
          let ((row, found, _, _, _), _) = h.in_sync in
          absurd (
            law.create_new tasks.store s' made.row row made.created
              (ap (t.first tasks.store) (e ∙ sym h.own_id) ∙ found))

  start_created-IsStep :
      (request : InitTaskRequest) (tasks : Tasks S) (r : Result (ActiveTask × S))
      → IsConsistent t tasks
      → ((active : ActiveTask) (s' : S)
          → r ≡ ok (active, s')
          → IsCreated tasks.store s' request active)
      → IsStep t tasks
          (start_created t codec makers request tasks r).0
          (start_created t codec makers request tasks r).2
  unfolding start_created
  start_created-IsStep request tasks (ok (active, s')) k created =
      let made = created active s' refl in
      let with_row : Tasks S = record { store = s'; cache = tasks.cache } in
      let cached : Tasks S = record {
        store = s';
        cache = Cache.set request.task_id active tasks.cache;
      } in
      let consistent =
        set-IsConsistent t with_row request.task_id active made.sound
          (created-IsConsistent tasks s' request active k made) in
      let step =
        start-IsStep t law accepts codec makers active cached request.task_id consistent
          made.sound in
      let over = IsCreated-IsOver tasks.store s' request active made in
      record {
        consistent = step.consistent;
        stays_over = λ i was. step.stays_over i (over i was);
        announced =
            λ i said. let (now, fresh) = step.announced i said in (now, λ was. fresh (over i was));
      }
  start_created-IsStep request tasks (err e) k created = IsStep-quiet t tasks tasks k refl
  start_created-IsStep request tasks panic k created = IsStep-quiet t tasks tasks k refl

  init_task_found-IsStep :
      (request : InitTaskRequest) (o : Option ActiveTask) (cache : ContainerCache ActiveTask)
      (tasks : Tasks S)
      → IsConsistent t tasks
      → held request.task_id tasks.cache ≡ o
      → ((j : String) → held j cache ≡ held j tasks.cache)
      → IsStep t tasks
          (init_task_found t codec makers request o cache tasks).0
          (init_task_found t codec makers request o cache tasks).2
  unfolding init_task_found
  init_task_found-IsStep request (some active) cache tasks k e same =
      let k' = same_contents-IsConsistent t tasks cache same k in
      let step =
        start-IsStep t law accepts codec makers active (record tasks { cache = cache })
          request.task_id k' (k.cached request.task_id active e) in
      record {
        consistent = step.consistent;
        stays_over = step.stays_over;
        announced = step.announced;
      }
  init_task_found-IsStep request none cache tasks k e same =
      let k' = same_contents-IsConsistent t tasks cache same k in
      let step =
        start_created-IsStep request (record tasks { cache = cache })
          (create_task t codec makers tasks.store request) k'
          (λ active s' made. create_task-IsCreated tasks.store request made) in
      record {
        consistent = step.consistent;
        stays_over = step.stays_over;
        announced = step.announced;
      }

  -- `InitTask` is a step.
  pub init_task-IsStep :
      (request : InitTaskRequest) (tasks : Tasks S)
      → IsConsistent t tasks
      → IsStep t tasks
          (init_task t codec makers request tasks).0
          (init_task t codec makers request tasks).2
  unfolding init_task
  init_task-IsStep request tasks k =
      init_task_found-IsStep request (Cache.get request.task_id tasks.cache).0
        (Cache.get request.task_id tasks.cache).1 tasks k
        (sym (get-held request.task_id request.task_id tasks.cache).0)
        (λ j. (get-held request.task_id j tasks.cache).1)
