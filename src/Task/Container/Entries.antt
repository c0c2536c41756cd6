-- ===== src/Task/Container/Entries.antt =====
-- What a run keeps true of the task's local state: container/container.go.
use nsw.Prelude.{
  String, Option, none, some, lookup-insert, ◌==◌, eq_iff, ◌≡◌, refl, sym, inl, inr, Bool-cases,
  Result, ok, err, panic,
}
use mathlib.Core.Path.{subst}
use nsw.Task.Plugin.Fsm.{TransitionOutcome}
use nsw.Task.Plugin.Fsm
use nsw.Task.Store.{Json, TaskTable}
use nsw.Task.LocalState.{Codec, LocalState, get_state, set_state}
use nsw.Task.Container.{
  Container, PluginRun, transition, transition_by, follow, apply_outcome, can_transition,
  read_from_global_store, write_to_local_store, run_plugin,
}
use nsw.Task.Container.Performs.{Held, Performs, AnyAction}

-- Every entry of the local state is one of `J`.
abbrev pub Keeps : (String → Json → Type 0) → LocalState → Type 0
Keeps J m = (key : String) → Held J key (get_state m key)

-- Of the entry under one key, `K` holds; the other entries do not matter.
abbrev pub OnKey : String → (Json → Type 0) → String → Json → Type 0
OnKey k K key value = key ≡ k → K value

abbrev pub HasEntry : String → (Json → Type 0) → LocalState → Type 0
HasEntry k K m = (value : Json) → get_state m k ≡ some value → K value

pub Keeps-HasEntry :
    (k : String) (K : Json → Type 0) (m : LocalState) → HasEntry k K m → Keeps (OnKey k K) m
Keeps-HasEntry k K m h key = by_entry (get_state m key) refl
  where
    by_entry : (o : Option Json) → get_state m key ≡ o → Held (OnKey k K) key o
    by_entry none e = tt
    by_entry (some value) e = λ same. h value (rw (← same) e)

pub HasEntry-Keeps :
    (k : String) (K : Json → Type 0) (m : LocalState) → Keeps (OnKey k K) m → HasEntry k K m
HasEntry-Keeps k K m h value e = subst (Held (OnKey k K) k) e (h k) refl

module _ {S : Type 0} (t : TaskTable S) (codec : Codec) (J : String → Json → Type 0) where
  follow-local_state :
      (c : Container) (s : S) (r : Result TransitionOutcome)
      → (follow t c s r).0.local_state ≡ c.local_state
  unfolding follow apply_outcome
  follow-local_state c s (ok outcome) = refl
  follow-local_state c s (err e) = refl
  follow-local_state c s panic = refl

  transition-local_state :
      (c : Container) (s : S) (action : String)
      → (transition t c s action).0.local_state ≡ c.local_state
  unfolding transition transition_by
  transition-local_state c s action = by_table c.fsm
    where
      by_table :
          (o : Option Fsm.PluginFsm) → (transition_by t o c s action).0.local_state ≡ c.local_state
      by_table none = refl
      by_table (some fsm) = follow-local_state c s (Fsm.transition fsm c.plugin_state action)

  transition-Keeps :
      (c : Container) (s : S) (action : String)
      → Keeps J c.local_state
      → Keeps J (transition t c s action).0.local_state
  transition-Keeps c s action h = subst (Keeps J) (sym (transition-local_state c s action)) h

  write-Keeps :
      (c : Container) (s : S) (key : String) (value : Json)
      → J key value
      → Keeps J c.local_state
      → Keeps J (write_to_local_store t codec c s key value).0.local_state
  unfolding write_to_local_store set_state get_state
  write-Keeps c s key value j h other =
      subst (Held J other) (sym (lookup-insert key other value c.local_state.cache))
        (elim (Bool-cases (key == other)) [
          | inl e ↦ rw e (rw (← (eq_iff key other).0 e) j)
          | inr ne ↦ rw ne (h other)
        ])

  -- A run that writes entries of `J` keeps every entry one of `J`.
  pub run_plugin-Keeps :
      (run : PluginRun) (c : Container) (s : S)
      → Performs AnyAction J run
      → Keeps J c.local_state
      → Keeps J (run_plugin t codec run c s).0.local_state
  unfolding run_plugin Performs
  run_plugin-Keeps (PluginRun.respond response) c s q h = h
  run_plugin-Keeps (PluginRun.fail message) c s q h = h
  run_plugin-Keeps PluginRun.crash c s q h = h
  run_plugin-Keeps (PluginRun.call_transition action next) c s (p, q) h =
      let (c', s', answer) = transition t c s action in
      run_plugin-Keeps (next answer) c' s' (q answer) (transition-Keeps c s action h)
  run_plugin-Keeps (PluginRun.call_can_transition action next) c s q h =
      run_plugin-Keeps (next (can_transition c action)) c s (q (can_transition c action)) h
  run_plugin-Keeps (PluginRun.read_plugin_state next) c s q h =
      run_plugin-Keeps (next c.plugin_state) c s (q c.plugin_state) h
  run_plugin-Keeps (PluginRun.read_task_state next) c s q h =
      run_plugin-Keeps (next c.state) c s (q c.state) h
  run_plugin-Keeps (PluginRun.read_task_id next) c s q h =
      run_plugin-Keeps (next c.task_id) c s (q c.task_id) h
  run_plugin-Keeps (PluginRun.read_workflow_id next) c s q h =
      run_plugin-Keeps (next c.workflow_id) c s (q c.workflow_id) h
  run_plugin-Keeps (PluginRun.read_global key next) c s q h =
      run_plugin-Keeps (next (read_from_global_store c key)) c s (q (read_from_global_store c key))
        h
  run_plugin-Keeps (PluginRun.read_local key next) c s q h =
      run_plugin-Keeps (next (get_state c.local_state key)) c s
        (q (get_state c.local_state key) (h key)) h
  run_plugin-Keeps (PluginRun.write_local key value next) c s (j, q) h =
      let (c', s', answer) = write_to_local_store t codec c s key value in
      run_plugin-Keeps (next answer) c' s' (q answer) (write-Keeps c s key value j h)
