-- ===== src/Task/Container/Performs.antt =====
-- Runs of a plugin by the actions that they perform: container/container.go.
use nsw.Prelude.{
  String, Bool, true, false, ◌&&◌, ◌==◌, eq_iff, [], ◌∷◌, All, inl, inr, Bool-cases, ok-inj, Option,
  none, some, Result, ok, err, panic, ◌≡◌, ◌≢◌, refl, sym, ap,
}
use mathlib.Core.Path.{subst}
use nsw.Task.Plugin.State.{TaskState, completed}
use nsw.Task.Plugin.Fsm.{TransitionKey, TransitionOutcome, PluginFsm, find_edge}
use nsw.Task.Plugin.Fsm
use nsw.Task.Store.{Json, TaskTable}
use nsw.Task.LocalState.{Codec, get_state}
use nsw.Task.Container.{
  Container, PluginRun, transition, transition_by, follow, apply_outcome, can_transition,
  read_from_global_store, write_to_local_store, run_plugin,
}

-- What a run does: every action that it performs is one of `P`, and every entry of the local state
-- that it writes is one of `J`, if the entries that it reads are.
abbrev pub Held : (String → Json → Type 0) → String → Option Json → Type 0
Held J key none = Unit
Held J key (some value) = J key value

unfoldable pub Performs : (String → Type 0) → (String → Json → Type 0) → PluginRun → Type 0
Performs P J (PluginRun.respond response) = Unit
Performs P J (PluginRun.fail message) = Unit
Performs P J PluginRun.crash = Unit
Performs P J (PluginRun.call_transition action next) =
    P action × ((x : Result (Unit {0})) → Performs P J (next x))
Performs P J (PluginRun.call_can_transition action next) = (x : Bool) → Performs P J (next x)
Performs P J (PluginRun.read_plugin_state next) = (x : String) → Performs P J (next x)
Performs P J (PluginRun.read_task_state next) = (x : TaskState) → Performs P J (next x)
Performs P J (PluginRun.read_task_id next) = (x : String) → Performs P J (next x)
Performs P J (PluginRun.read_workflow_id next) = (x : String) → Performs P J (next x)
Performs P J (PluginRun.read_global key next) = (x : Option Json) → Performs P J (next x)
Performs P J (PluginRun.read_local key next) =
    (x : Option Json) → Held J key x → Performs P J (next x)
Performs P J (PluginRun.write_local key value next) =
    J key value × ((x : Result (Unit {0})) → Performs P J (next x))

-- Any action, and any entry of the local state.
abbrev pub AnyAction : String → Type 0
AnyAction action = Unit

abbrev pub AnyEntry : String → Json → Type 0
AnyEntry key value = Unit

AnyEntry-Held : (key : String) (x : Option Json) → Held AnyEntry key x
AnyEntry-Held key none = tt
AnyEntry-Held key (some value) = tt

-- No edge of an action of `P` completes the task.
abbrev pub NeverCompletes : PluginFsm → (String → Type 0) → Type 0
NeverCompletes fsm P =
    (from action : String) (outcome : TransitionOutcome)
    → P action
    → Fsm.transition fsm from action ≡ ok outcome
    → outcome.next_task_state ≢ some completed

-- The edge does not complete the task, if its action is one of `P`.
abbrev pub IsHarmless : (String → Type 0) → TransitionKey × TransitionOutcome → Type 0
IsHarmless P (key, outcome) = P key.action → outcome.next_task_state ≢ some completed

and-right : (a b : Bool) → (a && b) ≡ true → b ≡ true
and-right true b h = h
and-right false b h = absurd cc

transition-eq-ok :
    (fsm : PluginFsm) (from action : String) (outcome : TransitionOutcome)
    → Fsm.transition fsm from action ≡ ok outcome
    → find_edge fsm from action ≡ some outcome
unfolding Fsm.transition
transition-eq-ok fsm from action outcome h = by_edge (find_edge fsm from action) h
  where
    by_edge :
        (o : Option TransitionOutcome)
        → elim o as (λ x. Result TransitionOutcome) [
          | none ↦ err "fsm: action is not permitted in plugin state"
          | some outcome ↦ ok outcome
        ]
          ≡ ok outcome
        → o ≡ some outcome
    by_edge none h = absurd cc
    by_edge (some out) h = ap some (ok-inj h)

find_edge-IsHarmless :
    (P : String → Type 0) (fsm : PluginFsm) (from action : String) (outcome : TransitionOutcome)
    → All (IsHarmless P) fsm
    → P action
    → find_edge fsm from action ≡ some outcome
    → outcome.next_task_state ≢ some completed
unfolding find_edge
find_edge-IsHarmless P [] from action outcome k p h = absurd cc
find_edge-IsHarmless P ((key, out) ∷ fsm) from action outcome (k, ks) p h =
    elim (Bool-cases (key.from_state == from && key.action == action)) [
      | inl e ↦
          let same : key.action ≡ action = (eq_iff key.action action).0 (and-right _ _ e) in
          let h' : Path (Option TransitionOutcome) (some out) (some outcome) =
            rw (e, find_edge) at h in
          let it : out ≡ outcome = cc in rw (← it) (k (rw same p))
      | inr ne ↦ find_edge-IsHarmless P fsm from action outcome ks p (rw (ne, find_edge) at h)
    ]

pub NeverCompletes-All :
    (P : String → Type 0) (fsm : PluginFsm) → All (IsHarmless P) fsm → NeverCompletes fsm P
NeverCompletes-All P fsm k from action outcome p h =
    find_edge-IsHarmless P fsm from action outcome k p (transition-eq-ok fsm from action outcome h)

-- The task is not completed, and goes by the table.
pub record IsOpenTask (fsm : PluginFsm) (c : Container) : Type 0 where
  pub by_table : c.fsm ≡ some fsm
  pub open_state : c.state ≢ completed

module _ {S : Type 0} (t : TaskTable S) (codec : Codec) (fsm : PluginFsm) (P : String → Type 0)
    (never : NeverCompletes fsm P) where
  apply_outcome-IsOpenTask :
      (c : Container) (outcome : TransitionOutcome)
      → IsOpenTask fsm c
      → outcome.next_task_state ≢ some completed
      → IsOpenTask fsm (apply_outcome c outcome)
  unfolding apply_outcome
  apply_outcome-IsOpenTask c outcome h ne = record {
    by_table = h.by_table;
    open_state = by_next outcome.next_task_state ne;
  }
    where
      by_next :
          (o : Option TaskState)
          → o ≢ some completed
          → elim o as (λ x. TaskState) [ none ↦ c.state | some state ↦ state ] ≢ completed
      by_next none k e = h.open_state e
      by_next (some state) k e = k (ap some e)

  follow-IsOpenTask :
      (c : Container) (s : S) (action : String) (r : Result TransitionOutcome)
      → P action
      → Fsm.transition fsm c.plugin_state action ≡ r
      → IsOpenTask fsm c
      → IsOpenTask fsm (follow t c s r).0
  unfolding follow
  follow-IsOpenTask c s action (ok outcome) p e h =
      apply_outcome-IsOpenTask c outcome h (never c.plugin_state action outcome p e)
  follow-IsOpenTask c s action (err m) p e h = h
  follow-IsOpenTask c s action panic p e h = h

  transition-IsOpenTask :
      (c : Container) (s : S) (action : String)
      → P action
      → IsOpenTask fsm c
      → IsOpenTask fsm (transition t c s action).0
  unfolding transition transition_by
  transition-IsOpenTask c s action p h =
      subst (λ o. IsOpenTask fsm (transition_by t o c s action).0) (sym h.by_table)
        (follow-IsOpenTask c s action (Fsm.transition fsm c.plugin_state action) p refl h)

  write-IsOpenTask :
      (c : Container) (s : S) (key : String) (value : Json)
      → IsOpenTask fsm c
      → IsOpenTask fsm (write_to_local_store t codec c s key value).0
  unfolding write_to_local_store
  write-IsOpenTask c s key value h = record { by_table = h.by_table; open_state = h.open_state }

  -- A run that performs only actions of `P` does not complete the task.
  pub run_plugin-IsOpenTask :
      (run : PluginRun) (c : Container) (s : S)
      → Performs P AnyEntry run
      → IsOpenTask fsm c
      → IsOpenTask fsm (run_plugin t codec run c s).0
  unfolding run_plugin Performs
  run_plugin-IsOpenTask (PluginRun.respond response) c s q h = h
  run_plugin-IsOpenTask (PluginRun.fail message) c s q h = h
  run_plugin-IsOpenTask PluginRun.crash c s q h = h
  run_plugin-IsOpenTask (PluginRun.call_transition action next) c s (p, q) h =
      let (c', s', answer) = transition t c s action in
      run_plugin-IsOpenTask (next answer) c' s' (q answer) (transition-IsOpenTask c s action p h)
  run_plugin-IsOpenTask (PluginRun.call_can_transition action next) c s q h =
      run_plugin-IsOpenTask (next (can_transition c action)) c s (q (can_transition c action)) h
  run_plugin-IsOpenTask (PluginRun.read_plugin_state next) c s q h =
      run_plugin-IsOpenTask (next c.plugin_state) c s (q c.plugin_state) h
  run_plugin-IsOpenTask (PluginRun.read_task_state next) c s q h =
      run_plugin-IsOpenTask (next c.state) c s (q c.state) h
  run_plugin-IsOpenTask (PluginRun.read_task_id next) c s q h =
      run_plugin-IsOpenTask (next c.task_id) c s (q c.task_id) h
  run_plugin-IsOpenTask (PluginRun.read_workflow_id next) c s q h =
      run_plugin-IsOpenTask (next c.workflow_id) c s (q c.workflow_id) h
  run_plugin-IsOpenTask (PluginRun.read_global key next) c s q h =
      run_plugin-IsOpenTask (next (read_from_global_store c key)) c s
        (q (read_from_global_store c key)) h
  run_plugin-IsOpenTask (PluginRun.read_local key next) c s q h =
      run_plugin-IsOpenTask (next (get_state c.local_state key)) c s
        (q (get_state c.local_state key) (AnyEntry-Held key (get_state c.local_state key))) h
  run_plugin-IsOpenTask (PluginRun.write_local key value next) c s (j, q) h =
      let (c', s', answer) = write_to_local_store t codec c s key value in
      run_plugin-IsOpenTask (next answer) c' s' (q answer) (write-IsOpenTask c s key value h)
