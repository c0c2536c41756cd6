-- ===== src/Task/Manager/Fetch.antt =====
-- `getTask` keeps the rows and the cached containers in agreement: manager/manager.go.
use nsw.Prelude.{
  String, Option, none, some, Result, ok, err, panic, ◌==◌, eq_iff, if◌then◌else◌, ◌≡◌, ◌≢◌, ◌⊎◌,
  inl, inr, refl, sym, ap, ◌∙◌, arith, >>=-eq-ok, wrap, wrap-eq-ok, ok-inj, String-cases, Map,
}
use nsw.Task.Plugin.Fsm.{PluginFsm}
use nsw.Task.Store.{Json, TaskInfo, TaskTable, IsTaskTable, get_by_id, get_plugin_state}
use nsw.Task.LocalState.{
  Codec, LocalState, cached_state, load_from_db, new_local_state_manager,
  new_local_state_manager_with_cache,
}
use nsw.Task.Container.{new_container}
use nsw.Task.Container.Storage.{Stored, InSync}
use nsw.Task.Cache
use nsw.Task.Cache.{ContainerCache}
use nsw.Task.Cache.Contents.{held, get-held, set-held}
use nsw.Task.Factory.{Executor, PluginMakers, build_executor}
use nsw.Task.Factory.Executors.{fsm_of, MadeOf, build_executor-table, build_executor-Settles}
use nsw.Task.Manager.{
  ActiveTask, Tasks, stored_config, stored_context, row_task, rebuild, cache_rebuilt,
  get_task_found, get_task,
}
use nsw.Task.Manager.Steps.{IsQuietPlugin, IsSoundTask, IsConsistent}

module _ {S : Type 0} (t : TaskTable S) where
  -- What `getTask` keeps, and what it returns.
  pub record IsFetch (s : S) (tasks' : Tasks S) (id : String) (r : Result ActiveTask) : Type 0 where
    pub consistent : IsConsistent t tasks'
    pub same_store : tasks'.store ≡ s
    pub sound : (active : ActiveTask) → r ≡ ok active → IsSoundTask t tasks'.store id active

  pub same_contents-IsConsistent :
      (tasks : Tasks S) (cache : ContainerCache ActiveTask)
      → ((j : String) → held j cache ≡ held j tasks.cache)
      → IsConsistent t tasks
      → IsConsistent t (record tasks { cache = cache })
  same_contents-IsConsistent tasks cache same k = record {
    rows = k.rows;
    cached = λ j a h. k.cached j a (sym (same j) ∙ h);
  }

  pub set-IsConsistent :
      (tasks : Tasks S) (id : String) (active : ActiveTask)
      → IsSoundTask t tasks.store id active
      → IsConsistent t tasks
      → IsConsistent t (record tasks { cache = Cache.set id active tasks.cache })
  set-IsConsistent tasks id active h k = record {
    rows = k.rows;
    cached = λ j a e. by_key j a (String-cases id j) (set-held id active j tasks.cache e);
  }
    where
      by_key :
          (j : String) (a : ActiveTask)
          → (id ≡ j) ⊎ (id ≢ j)
          → (if id == j then some active else held j tasks.cache) ≡ some a
          → IsSoundTask t tasks.store j a
      by_key j a (inl e) p =
          let q : Path (Option ActiveTask) (some active) (some a) = rw ((eq_iff id j).1 e) at p in
          let same : active ≡ a = cc in
          let h' : IsSoundTask t tasks.store id a = rw (← same) h in rw e at h'
      by_key j a (inr ne) p = k.cached j a (ground (arith, eq_iff id j))

module _ {S : Type 0} (t : TaskTable S) (law : IsTaskTable t) (codec : Codec)
    (makers : PluginMakers) (quiet : MadeOf IsQuietPlugin makers) where
  -- The executor of a task type, with its table.
  pub built :
      (type_name : String) (config : Json) (exec : Executor)
      → build_executor makers type_name config ≡ ok exec
      → (fsm : PluginFsm) × (exec.fsm ≡ some fsm)
        × (fsm_of type_name ≡ some fsm)
        × IsQuietPlugin exec.plugin
  built type_name config exec h =
      let (table, is_quiet) = build_executor-table IsQuietPlugin makers type_name config quiet h in
      let (fsm, has_fsm, _) = build_executor-Settles makers type_name config h in
      (fsm, has_fsm, sym table ∙ has_fsm, is_quiet)

  local_state-own :
      (id : String) (json : Json) (m : LocalState)
      → new_local_state_manager_with_cache t codec id json ≡ ok m
      → m.task_id ≡ id
  unfolding new_local_state_manager_with_cache
  local_state-own id json m h =
      let (cache, _, last) = >>=-eq-ok (cached_state t codec json) _ h in
      ap (λ (x : LocalState). x.task_id) (sym (ok-inj last))

  pub new_local_state-own :
      (s : S) (id : String) (m : LocalState)
      → new_local_state_manager t codec s id ≡ ok m
      → m.task_id ≡ id
  unfolding new_local_state_manager
  new_local_state-own s id m h =
      let (cache, _, last) =
        >>=-eq-ok (wrap "failed to load local state: " (load_from_db t codec s id)) _ h in
      ap (λ (x : LocalState). x.task_id) (sym (ok-inj last))

  -- The container of a row agrees with it.
  row_task-IsSoundTask :
      (s : S) (id : String) (row : TaskInfo) (exec : Executor) (m : LocalState) (global : Map Json)
      (config : Json)
      → t.first s id ≡ ok row
      → build_executor makers row.type_name config ≡ ok exec
      → m.task_id ≡ row.id
      → IsSoundTask t s id (row_task t codec makers s row exec m global)
  unfolding row_task new_container get_plugin_state InSync Stored
  row_task-IsSoundTask s id row exec m global config found made own_state =
      let own : row.id ≡ id = law.first_id s id row found in
      let found' : t.first s row.id ≡ ok row = ap (t.first s) own ∙ found in
      let (fsm, has_fsm, of_type, is_quiet) = built row.type_name config exec made in
      record {
        sound = record {
          own_id = own;
          type_name = row.type_name;
          fsm = fsm;
          has_fsm = has_fsm;
          of_type = of_type;
          in_sync = ((row, found', refl, refl, rw (found', get_plugin_state) refl), own_state);
        };
        quiet = is_quiet;
      }

  -- The container that `getTask` rebuilds agrees with the row it was rebuilt from.
  rebuild-IsSoundTask :
      (s : S) (id : String) {active : ActiveTask}
      → rebuild t codec makers s id ≡ ok active
      → IsSoundTask t s id active
  unfolding rebuild get_by_id
  rebuild-IsSoundTask s id {active} h =
      let (row, found, h₁) = >>=-eq-ok (t.first s id) _ h in
      let (config, _, h₂) = >>=-eq-ok (stored_config t codec makers row) _ h₁ in
      let (exec, made, h₃) =
        >>=-eq-ok (wrap "failed to rebuild executor: " (build_executor makers row.type_name config))
          _ h₂ in
      let (m, local, h₄) =
        >>=-eq-ok
          (wrap "failed to create local state manager: "
            (new_local_state_manager_with_cache t codec row.id row.local_state))
          _ h₃ in
      let (global, _, last) = >>=-eq-ok (stored_context t codec makers row) _ h₄ in
      rw (← ok-inj last) (
        row_task-IsSoundTask s id row exec m global config found
          (wrap-eq-ok "failed to rebuild executor: " _ made)
          (local_state-own row.id row.local_state m
            (wrap-eq-ok "failed to create local state manager: " _ local)))

  cache_rebuilt-IsFetch :
      (tasks : Tasks S) (id : String) (r : Result ActiveTask)
      → IsConsistent t tasks
      → ((active : ActiveTask) → r ≡ ok active → IsSoundTask t tasks.store id active)
      → IsFetch t tasks.store
          (cache_rebuilt t codec makers id r tasks).0
          id
          (cache_rebuilt t codec makers id r tasks).1
  unfolding cache_rebuilt
  cache_rebuilt-IsFetch tasks id (ok active) k h = record {
    consistent = set-IsConsistent t tasks id active (h active refl) k;
    same_store = refl;
    sound = λ a e. h a e;
  }
  cache_rebuilt-IsFetch tasks id (err e) k h = record {
    consistent = k;
    same_store = refl;
    sound = λ a e'. absurd cc;
  }
  cache_rebuilt-IsFetch tasks id panic k h = record {
    consistent = k;
    same_store = refl;
    sound = λ a e'. absurd cc;
  }

  get_task_found-IsFetch :
      (tasks : Tasks S) (id : String) (o : Option ActiveTask) (cache : ContainerCache ActiveTask)
      → IsConsistent t tasks
      → held id tasks.cache ≡ o
      → ((j : String) → held j cache ≡ held j tasks.cache)
      → IsFetch t tasks.store
          (get_task_found t codec makers id o cache tasks).0
          id
          (get_task_found t codec makers id o cache tasks).1
  unfolding get_task_found
  get_task_found-IsFetch tasks id (some active) cache k e same = record {
    consistent = same_contents-IsConsistent t tasks cache same k;
    same_store = refl;
    sound = λ a p. let q : active ≡ a = ok-inj p in rw (← q) (k.cached id active e);
  }
  get_task_found-IsFetch tasks id none cache k e same =
      cache_rebuilt-IsFetch (record tasks { cache = cache }) id
        (rebuild t codec makers tasks.store id) (same_contents-IsConsistent t tasks cache same k)
        (λ active made. rebuild-IsSoundTask tasks.store id made)

  pub get_task-IsFetch :
      (tasks : Tasks S) (id : String)
      → IsConsistent t tasks
      → IsFetch t tasks.store
          (get_task t codec makers id tasks).0
          id
          (get_task t codec makers id tasks).1
  unfolding get_task
  get_task-IsFetch tasks id k =
      get_task_found-IsFetch tasks id (Cache.get id tasks.cache).0 (Cache.get id tasks.cache).1 k
        (sym (get-held id id tasks.cache).0) (λ j. (get-held id j tasks.cache).1)
