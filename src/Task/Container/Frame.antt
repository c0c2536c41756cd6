-- ===== src/Task/Container/Frame.antt =====
-- What a run of a plugin leaves as it is: container/container.go.
use nsw.Prelude.{
  String, Option, none, some, Result, ok, err, panic, ◌≡◌, ◌≢◌, refl, sym, ◌∙◌, attempt, >>=-eq-ok,
  wrap, wrap-eq-ok,
}
use nsw.Task.Plugin.State.{TaskState}
use nsw.Task.Plugin.Fsm.{TransitionOutcome, PluginFsm}
use nsw.Task.Store.{
  Json, TaskTable, IsTaskTable, update_status, update_plugin_state, update_local_state,
  state_column, plugin_state_column, local_state_column,
}
use nsw.Task.LocalState.{Codec, LocalState, get_state, set_state, persist_to_db}
use nsw.Task.Container.{
  Container, PluginRun, apply_outcome, store_state, store_next, store_outcome, follow,
  transition_by, transition, run_plugin, write_to_local_store, can_transition,
  read_from_global_store,
}

module _ {S : Type 0} (t : TaskTable S) where
  -- The rows other than that of `id` stay as they are.
  unfoldable pub Elsewhere : String → S → S → Type 0
  Elsewhere id s s' = (j : String) → id ≢ j → t.first s' j ≡ t.first s j

  -- The container keeps its identifiers and its table, and the other tasks keep their rows.
  pub record Frame (c c' : Container) (s s' : S) : Type 0 where
    pub same_id : c'.task_id ≡ c.task_id
    pub same_local : c'.local_state.task_id ≡ c.local_state.task_id
    pub same_fsm : c'.fsm ≡ c.fsm
    pub elsewhere : Elsewhere c.task_id s s'

  Frame-refl : (c : Container) (s : S) → Frame c c s s
  unfolding Elsewhere
  Frame-refl c s = record {
    same_id = refl;
    same_local = refl;
    same_fsm = refl;
    elsewhere = λ j h. refl;
  }

  Frame-trans :
      (c₁ c₂ c₃ : Container) (s₁ s₂ s₃ : S)
      → Frame c₁ c₂ s₁ s₂
      → Frame c₂ c₃ s₂ s₃
      → Frame c₁ c₃ s₁ s₃
  unfolding Elsewhere
  Frame-trans c₁ c₂ c₃ s₁ s₂ s₃ f g = record {
    same_id = g.same_id ∙ f.same_id;
    same_local = g.same_local ∙ f.same_local;
    same_fsm = g.same_fsm ∙ f.same_fsm;
    elsewhere = λ j h. g.elsewhere j (λ e. h (sym f.same_id ∙ e)) ∙ f.elsewhere j h;
  }

  module _ (law : IsTaskTable t) where
    attempt-Elsewhere :
        (id : String) (s₀ s : S) (r : Result S)
        → Elsewhere id s₀ s
        → ((s' : S) → r ≡ ok s' → Elsewhere id s s')
        → Elsewhere id s₀ (attempt s r).0
    unfolding Elsewhere
    attempt-Elsewhere id s₀ s (ok s') h k = λ j ne. k s' refl j ne ∙ h j ne
    attempt-Elsewhere id s₀ s (err e) h k = h
    attempt-Elsewhere id s₀ s panic h k = h

    store_state-Elsewhere :
        (s₀ s : S) (id : String) (next : Option TaskState)
        → Elsewhere id s₀ s
        → Elsewhere id s₀ (store_state t s id next).0
    unfolding store_state update_status Elsewhere
    store_state-Elsewhere s₀ s id none h = h
    store_state-Elsewhere s₀ s id (some state) h =
        attempt-Elsewhere id s₀ s _ h
          (λ s' e j ne. law.first-update_ne s s' id j (state_column state) e ne)

    store_next-Elsewhere :
        (s : S) (id : String) (next : Option TaskState) (r : Result S)
        → ((s' : S) → r ≡ ok s' → Elsewhere id s s')
        → Elsewhere id s (store_next t s id next r).0
    unfolding store_next Elsewhere
    store_next-Elsewhere s id next (ok s') k = store_state-Elsewhere s s' id next (k s' refl)
    store_next-Elsewhere s id next (err e) k = λ j ne. refl
    store_next-Elsewhere s id next panic k = λ j ne. refl

    follow-Frame :
        (c : Container) (s : S) (r : Result TransitionOutcome)
        → Frame c (follow t c s r).0 s (follow t c s r).1
    unfolding follow apply_outcome store_outcome update_plugin_state Elsewhere
    follow-Frame c s (ok outcome) = record {
      same_id = refl;
      same_local = refl;
      same_fsm = refl;
      elsewhere = store_next-Elsewhere s c.task_id outcome.next_task_state _ (λ s' e j ne.
          law.first-update_ne s s' c.task_id j (plugin_state_column outcome.next_plugin_state) e
            ne);
    }
    follow-Frame c s (err e) = Frame-refl c s
    follow-Frame c s panic = Frame-refl c s

    transition_by-Frame :
        (o : Option PluginFsm) (c : Container) (s : S) (action : String)
        → Frame c (transition_by t o c s action).0 s (transition_by t o c s action).1
    unfolding transition_by
    transition_by-Frame none c s action = Frame-refl c s
    transition_by-Frame (some fsm) c s action = follow-Frame c s _

    module _ (codec : Codec) where
      persist-Elsewhere :
          (s s' : S) (m : LocalState) → persist_to_db t codec s m ≡ ok s' → Elsewhere m.task_id s s'
      unfolding persist_to_db update_local_state Elsewhere
      persist-Elsewhere s s' m h j ne =
          let (json, _, h') =
            >>=-eq-ok (wrap "failed to marshal local state: " (codec.marshal m.cache))
              (λ json.
                wrap "failed to update local state in database: "
                  (update_local_state t s m.task_id json))
              h in
          law.first-update_ne s s' m.task_id j (local_state_column json)
            (wrap-eq-ok "failed to update local state in database: " _ h') ne

      write-Frame :
          (c : Container) (s : S) (key : String) (value : Json)
          → c.local_state.task_id ≡ c.task_id
          → Frame c
              (write_to_local_store t codec c s key value).0
              s
              (write_to_local_store t codec c s key value).1
      unfolding write_to_local_store set_state Elsewhere
      write-Frame c s key value own = record {
        same_id = refl;
        same_local = refl;
        same_fsm = refl;
        elsewhere =
            attempt-Elsewhere c.task_id s s (set_state t codec s c.local_state key value).1
              (λ j ne. refl)
              (λ s' e.
                rw own at
                  (persist-Elsewhere s s' (set_state t codec s c.local_state key value).0 e));
      }

      -- A run of a plugin whose container has its own local state
      pub run_plugin-Frame :
          (run : PluginRun) (c : Container) (s : S)
          → c.local_state.task_id ≡ c.task_id
          → Frame c (run_plugin t codec run c s).0 s (run_plugin t codec run c s).1
      unfolding run_plugin transition
      run_plugin-Frame (PluginRun.respond response) c s own = Frame-refl c s
      run_plugin-Frame (PluginRun.fail message) c s own = Frame-refl c s
      run_plugin-Frame PluginRun.crash c s own = Frame-refl c s
      run_plugin-Frame (PluginRun.call_transition action next) c s own =
          let (c', s', answer) = transition t c s action in
          let f : Frame c c' s s' = transition_by-Frame c.fsm c s action in
          Frame-trans c c' _ s s' _ f
            (run_plugin-Frame (next answer) c' s' (f.same_local ∙ own ∙ sym f.same_id))
      run_plugin-Frame (PluginRun.call_can_transition action next) c s own =
          run_plugin-Frame (next (can_transition c action)) c s own
      run_plugin-Frame (PluginRun.read_plugin_state next) c s own =
          run_plugin-Frame (next c.plugin_state) c s own
      run_plugin-Frame (PluginRun.read_task_state next) c s own =
          run_plugin-Frame (next c.state) c s own
      run_plugin-Frame (PluginRun.read_task_id next) c s own =
          run_plugin-Frame (next c.task_id) c s own
      run_plugin-Frame (PluginRun.read_workflow_id next) c s own =
          run_plugin-Frame (next c.workflow_id) c s own
      run_plugin-Frame (PluginRun.read_global key next) c s own =
          run_plugin-Frame (next (read_from_global_store c key)) c s own
      run_plugin-Frame (PluginRun.read_local key next) c s own =
          run_plugin-Frame (next (get_state c.local_state key)) c s own
      run_plugin-Frame (PluginRun.write_local key value next) c s own =
          let (c', s', answer) = write_to_local_store t codec c s key value in
          let f : Frame c c' s s' = write-Frame c s key value own in
          Frame-trans c c' _ s s' _ f
            (run_plugin-Frame (next answer) c' s' (f.same_local ∙ own ∙ sym f.same_id))
