-- ===== src/Task/Container/Storage.antt =====
-- The container's memory and the task's row in the store: container/container.go.
use nsw.Prelude.{
  String, Option, none, some, Result, ok, err, panic, ◌≡◌, refl, sym, attempt, insert, wrap,
  >>=-eq-ok, wrap-eq-ok,
}
use nsw.Task.Plugin.State.{TaskState}
use nsw.Task.Plugin.Fsm.{TransitionOutcome, PluginFsm}
use nsw.Task.Store.{
  Json, TaskInfo, Column, state_column, plugin_state_column, local_state_column, with_column,
  TaskTable, IsTaskTable, update_status, update_plugin_state, update_local_state,
}
use nsw.Task.LocalState.{Codec, LocalState, get_state, set_state, persist_to_db}
use nsw.Task.Container.{
  Container, PluginRun, apply_outcome, store_state, store_next, store_outcome, follow,
  transition_by, transition, run_plugin, write_to_local_store, can_transition,
  read_from_global_store,
}

-- The database accepts every update of a row that is there.
unfoldable pub AcceptsUpdates : {S : Type 0} → TaskTable S → Type 0
AcceptsUpdates {S = S} t =
    (s : S) (i : String) (c : Column) (row : TaskInfo)
    → t.first s i ≡ ok row
    → (s' : S) × (t.update s i c ≡ ok s')

module _ {S : Type 0} (t : TaskTable S) where
  -- a row of the task with this type and these two states
  unfoldable pub Stored : S → String → String → TaskState → String → Type 0
  Stored s id type_name state plugin_state =
      (row : TaskInfo) × (t.first s id ≡ ok row)
      × (row.type_name ≡ type_name)
      × (row.state ≡ state)
      × (row.plugin_state ≡ plugin_state)

  -- The task's row has that type and the container's two states, and the container's local state
  -- is the task's own.
  unfoldable pub InSync : String → Container → S → Type 0
  InSync type_name c s =
      Stored s c.task_id type_name c.state c.plugin_state × (c.local_state.task_id ≡ c.task_id)

  module _ (law : IsTaskTable t) (accepts : AcceptsUpdates t) where
    updated :
        (s : S) (id : String) (c : Column) (row : TaskInfo)
        → t.first s id ≡ ok row
        → (s' : S) × (t.update s id c ≡ ok s') × (t.first s' id ≡ ok (with_column c row))
    unfolding AcceptsUpdates
    updated s id c row found =
        let (s', e) = accepts s id c row found in
        (s', e, law.first-update_self s s' id c row found e)

    store_state-Stored :
        (s : S) (id type_name : String) (state : TaskState) (plugin_state : String)
        (next : Option TaskState)
        → Stored s id type_name state plugin_state
        → Stored
            (store_state t s id next).0
            id
            type_name
            (elim next [ none ↦ state | some new ↦ new ])
            plugin_state
    unfolding store_state Stored with_column update_status
    store_state-Stored s id type_name state plugin_state none h = h
    store_state-Stored s id type_name state plugin_state (some new) (row, found, ty, e, p) =
        let (s', u, found') = updated s id (state_column new) row found in
        rw u (with_column (state_column new) row, found', ty, refl, p)

    store_outcome-Stored :
        (s : S) (id type_name : String) (state : TaskState) (plugin_state : String)
        (outcome : TransitionOutcome)
        → Stored s id type_name state plugin_state
        → Stored
            (store_outcome t s id outcome).0
            id
            type_name
            (elim outcome.next_task_state [ none ↦ state | some new ↦ new ])
            outcome.next_plugin_state
    unfolding store_outcome store_next Stored with_column update_plugin_state
    store_outcome-Stored s id type_name state plugin_state outcome (row, found, ty, e, p) =
        let (s', u, found') =
          updated s id (plugin_state_column outcome.next_plugin_state) row found in
        rw u (
          store_state-Stored s' id type_name state outcome.next_plugin_state outcome.next_task_state
            (with_column (plugin_state_column outcome.next_plugin_state) row, found', ty, e, refl))

    follow-InSync :
        (type_name : String) (c : Container) (s : S) (r : Result TransitionOutcome)
        → InSync type_name c s
        → InSync type_name (follow t c s r).0 (follow t c s r).1
    unfolding follow InSync apply_outcome
    follow-InSync type_name c s (ok outcome) (h, l) =
        (store_outcome-Stored s c.task_id type_name c.state c.plugin_state outcome h, l)
    follow-InSync type_name c s (err e) h = h
    follow-InSync type_name c s panic h = h

    transition_by-InSync :
        (type_name : String) (o : Option PluginFsm) (c : Container) (s : S) (action : String)
        → InSync type_name c s
        → InSync type_name (transition_by t o c s action).0 (transition_by t o c s action).1
    unfolding transition_by
    transition_by-InSync type_name none c s action h = h
    transition_by-InSync type_name (some fsm) c s action h = follow-InSync type_name c s _ h

    -- The table's answer to an action that it permits reaches memory and store alike; an action that it refuses changes neither.
    pub transition-InSync :
        (type_name : String) (c : Container) (s : S) (action : String)
        → InSync type_name c s
        → InSync type_name (transition t c s action).0 (transition t c s action).1
    unfolding transition
    transition-InSync type_name c s action h = transition_by-InSync type_name c.fsm c s action h

    module _ (codec : Codec) where
      attempt-Stored :
          (s : S) (r : Result S) (id type_name : String) (state : TaskState) (plugin_state : String)
          → Stored s id type_name state plugin_state
          → ((s' : S) → r ≡ ok s' → Stored s' id type_name state plugin_state)
          → Stored (attempt s r).0 id type_name state plugin_state
      attempt-Stored s (ok s') id type_name state plugin_state h keep = keep s' refl
      attempt-Stored s (err e) id type_name state plugin_state h keep = h
      attempt-Stored s panic id type_name state plugin_state h keep = h

      persist-Stored :
          (s s' : S) (m : LocalState) (type_name : String) (state : TaskState)
          (plugin_state : String)
          → Stored s m.task_id type_name state plugin_state
          → persist_to_db t codec s m ≡ ok s'
          → Stored s' m.task_id type_name state plugin_state
      unfolding persist_to_db update_local_state Stored with_column
      persist-Stored s s' m type_name state plugin_state (row, found, ty, e, p) h =
          let (json, _, h') =
            >>=-eq-ok (wrap "failed to marshal local state: " (codec.marshal m.cache))
              (λ json.
                wrap "failed to update local state in database: "
                  (update_local_state t s m.task_id json))
              h in
          (
            with_column (local_state_column json) row,
            law.first-update_self s s' m.task_id (local_state_column json) row found
                (wrap-eq-ok "failed to update local state in database: " _ h'),
            ty,
            e,
            p,
          )

      write-InSync :
          (type_name : String) (c : Container) (s : S) (key : String) (value : Json)
          → InSync type_name c s
          → InSync type_name
              (write_to_local_store t codec c s key value).0
              (write_to_local_store t codec c s key value).1
      unfolding write_to_local_store set_state InSync
      write-InSync type_name c s key value (h, l) = (
        attempt-Stored s (set_state t codec s c.local_state key value).1 c.task_id type_name c.state
            c.plugin_state h
            (λ s' e.
              let m : LocalState = record c.local_state {
                cache = insert key value c.local_state.cache;
              } in
              let k = persist-Stored s s' m type_name c.state c.plugin_state (rw (sym l) at h) e in
              rw l at k),
        l,
      )

      -- Under a run of any plugin, whatever it calls, the task's row keeps its type and goes on to
      -- agree with the container's two states. It is assumed that the database accepts every update
      -- of a row that is there.
      pub run_plugin-InSync :
          (type_name : String) (run : PluginRun) (c : Container) (s : S)
          → InSync type_name c s
          → InSync type_name (run_plugin t codec run c s).0 (run_plugin t codec run c s).1
      unfolding run_plugin
      run_plugin-InSync type_name (PluginRun.respond response) c s h = h
      run_plugin-InSync type_name (PluginRun.fail message) c s h = h
      run_plugin-InSync type_name PluginRun.crash c s h = h
      run_plugin-InSync type_name (PluginRun.call_transition action next) c s h =
          let (c', s', answer) = transition t c s action in
          run_plugin-InSync type_name (next answer) c' s' (transition-InSync type_name c s action h)
      run_plugin-InSync type_name (PluginRun.call_can_transition action next) c s h =
          run_plugin-InSync type_name (next (can_transition c action)) c s h
      run_plugin-InSync type_name (PluginRun.read_plugin_state next) c s h =
          run_plugin-InSync type_name (next c.plugin_state) c s h
      run_plugin-InSync type_name (PluginRun.read_task_state next) c s h =
          run_plugin-InSync type_name (next c.state) c s h
      run_plugin-InSync type_name (PluginRun.read_task_id next) c s h =
          run_plugin-InSync type_name (next c.task_id) c s h
      run_plugin-InSync type_name (PluginRun.read_workflow_id next) c s h =
          run_plugin-InSync type_name (next c.workflow_id) c s h
      run_plugin-InSync type_name (PluginRun.read_global key next) c s h =
          run_plugin-InSync type_name (next (read_from_global_store c key)) c s h
      run_plugin-InSync type_name (PluginRun.read_local key next) c s h =
          run_plugin-InSync type_name (next (get_state c.local_state key)) c s h
      run_plugin-InSync type_name (PluginRun.write_local key value next) c s h =
          let (c', s', answer) = write_to_local_store t codec c s key value in
          run_plugin-InSync type_name (next answer) c' s' (write-InSync type_name c s key value h)
