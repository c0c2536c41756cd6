-- ===== src/Task/Container/Moves.antt =====
-- What a plugin can do to its task's state: container/container.go.
use nsw.Prelude.{
  String, Bool, true, false, Option, none, some, Result, ok, err, panic, ◌≡◌, refl, ap, ◌∙◌, ◌⊎◌,
  inl, inr,
}
use nsw.Task.Plugin.State.{TaskState, is_final}
use nsw.Task.Plugin.Fsm.{TransitionOutcome, PluginFsm}
use nsw.Task.Plugin.Fsm
use nsw.Task.Plugin.Fsm.Settling.{ends, Settles, IsStuck, transition-IsStuck, transition-stuck}
use nsw.Task.Store.{Json, TaskTable}
use nsw.Task.LocalState.{Codec, get_state}
use nsw.Task.Container.{
  Container, PluginRun, apply_outcome, follow, transition_by, transition, run_plugin,
  write_to_local_store, can_transition, read_from_global_store,
}

-- The container works by the table `fsm`, and when its task is over the plugin state has no way on.
unfoldable pub Settled : PluginFsm → Container → Type 0
Settled fsm c = (c.fsm ≡ some fsm) × (is_final c.state ≡ true → IsStuck fsm c.plugin_state)

-- The move from `c` to `c'` keeps that, and it keeps both states of a task that is over.
unfoldable pub KeepsFinal : PluginFsm → Container → Container → Type 0
KeepsFinal fsm c c' =
    Settled fsm c'
    × (is_final c.state ≡ true → (c'.state ≡ c.state) × (c'.plugin_state ≡ c.plugin_state))

KeepsFinal-refl : (fsm : PluginFsm) (c : Container) → Settled fsm c → KeepsFinal fsm c c
unfolding KeepsFinal
KeepsFinal-refl fsm c h = (h, λ _. (refl, refl))

KeepsFinal-trans :
    (fsm : PluginFsm) (a b c : Container)
    → KeepsFinal fsm a b
    → KeepsFinal fsm b c
    → KeepsFinal fsm a c
unfolding KeepsFinal
KeepsFinal-trans fsm a b c (_, f) (h, g) =
    (h, λ over. let (e, p) = f over in let (e', p') = g (ap is_final e ∙ over) in (e' ∙ e, p' ∙ p))

-- the task state after an outcome is the outcome's, or the one before
apply_outcome-final :
    (c : Container) (outcome : TransitionOutcome)
    → is_final (apply_outcome c outcome).state ≡ true
    → (ends outcome ≡ true) ⊎ (is_final c.state ≡ true)
unfolding apply_outcome ends
apply_outcome-final c outcome h = by_outcome outcome.next_task_state h
  where
    by_outcome :
        (next : Option TaskState)
        → is_final (elim next as (λ _. TaskState) [ none ↦ c.state | some state ↦ state ]) ≡ true
        → (elim next as (λ _. Bool) [ none ↦ false | some state ↦ is_final state ] ≡ true)
          ⊎ (is_final c.state ≡ true)
    by_outcome none k = inr k
    by_outcome (some state) k = inl k

apply_outcome-KeepsFinal :
    (fsm : PluginFsm) (c : Container) (action : String) (outcome : TransitionOutcome)
    → Settles fsm
    → Settled fsm c
    → Fsm.transition fsm c.plugin_state action ≡ ok outcome
    → KeepsFinal fsm c (apply_outcome c outcome)
unfolding KeepsFinal Settled apply_outcome
apply_outcome-KeepsFinal fsm c action outcome settles (by_fsm, stuck) e = (
  (
    by_fsm,
    λ over. elim (apply_outcome-final c outcome over) [
      | inl ending ↦ transition-IsStuck fsm c.plugin_state action settles e ending
      | inr before ↦ absurd (transition-stuck fsm c.plugin_state action (stuck before) e)
    ],
  ),
  λ over. absurd (transition-stuck fsm c.plugin_state action (stuck over) e),
)

module _ {S : Type 0} (t : TaskTable S) where
  follow-KeepsFinal :
      (fsm : PluginFsm) (c : Container) (s : S) (action : String) (r : Result TransitionOutcome)
      → Settles fsm
      → Settled fsm c
      → Fsm.transition fsm c.plugin_state action ≡ r
      → KeepsFinal fsm c (follow t c s r).0
  unfolding follow
  follow-KeepsFinal fsm c s action (ok outcome) settles h e =
      apply_outcome-KeepsFinal fsm c action outcome settles h e
  follow-KeepsFinal fsm c s action (err _) settles h e = KeepsFinal-refl fsm c h
  follow-KeepsFinal fsm c s action panic settles h e = KeepsFinal-refl fsm c h

  transition_by-KeepsFinal :
      (fsm : PluginFsm) (o : Option PluginFsm) (c : Container) (s : S) (action : String)
      → Settles fsm
      → Settled fsm c
      → o ≡ some fsm
      → KeepsFinal fsm c (transition_by t o c s action).0
  unfolding transition_by
  transition_by-KeepsFinal fsm o c s action settles h e =
      rw e
        (follow-KeepsFinal fsm c s action (Fsm.transition fsm c.plugin_state action) settles h refl)

  transition-KeepsFinal :
      (fsm : PluginFsm) (c : Container) (s : S) (action : String)
      → Settles fsm
      → Settled fsm c
      → KeepsFinal fsm c (transition t c s action).0
  unfolding transition Settled
  transition-KeepsFinal fsm c s action settles h =
      transition_by-KeepsFinal fsm c.fsm c s action settles h h.0

  module _ (codec : Codec) where
    write-KeepsFinal :
        (fsm : PluginFsm) (c : Container) (s : S) (key : String) (value : Json)
        → Settled fsm c
        → KeepsFinal fsm c (write_to_local_store t codec c s key value).0
    unfolding write_to_local_store KeepsFinal Settled
    write-KeepsFinal fsm c s key value h = (h, λ _. (refl, refl))

    -- A run of any plugin, whatever it calls, by a table that settles: the container stays settled, and both states of a task that is over stay as they are.
    pub run_plugin-KeepsFinal :
        (fsm : PluginFsm) (run : PluginRun) (c : Container) (s : S)
        → Settles fsm
        → Settled fsm c
        → KeepsFinal fsm c (run_plugin t codec run c s).0
    unfolding run_plugin KeepsFinal
    run_plugin-KeepsFinal fsm (PluginRun.respond response) c s settles h = KeepsFinal-refl fsm c h
    run_plugin-KeepsFinal fsm (PluginRun.fail message) c s settles h = KeepsFinal-refl fsm c h
    run_plugin-KeepsFinal fsm PluginRun.crash c s settles h = KeepsFinal-refl fsm c h
    run_plugin-KeepsFinal fsm (PluginRun.call_transition action next) c s settles h =
        let (c', s', answer) = transition t c s action in
        let first = transition-KeepsFinal fsm c s action settles h in
        KeepsFinal-trans fsm c c' _ first
          (run_plugin-KeepsFinal fsm (next answer) c' s' settles first.0)
    run_plugin-KeepsFinal fsm (PluginRun.call_can_transition action next) c s settles h =
        run_plugin-KeepsFinal fsm (next (can_transition c action)) c s settles h
    run_plugin-KeepsFinal fsm (PluginRun.read_plugin_state next) c s settles h =
        run_plugin-KeepsFinal fsm (next c.plugin_state) c s settles h
    run_plugin-KeepsFinal fsm (PluginRun.read_task_state next) c s settles h =
        run_plugin-KeepsFinal fsm (next c.state) c s settles h
    run_plugin-KeepsFinal fsm (PluginRun.read_task_id next) c s settles h =
        run_plugin-KeepsFinal fsm (next c.task_id) c s settles h
    run_plugin-KeepsFinal fsm (PluginRun.read_workflow_id next) c s settles h =
        run_plugin-KeepsFinal fsm (next c.workflow_id) c s settles h
    run_plugin-KeepsFinal fsm (PluginRun.read_global key next) c s settles h =
        run_plugin-KeepsFinal fsm (next (read_from_global_store c key)) c s settles h
    run_plugin-KeepsFinal fsm (PluginRun.read_local key next) c s settles h =
        run_plugin-KeepsFinal fsm (next (get_state c.local_state key)) c s settles h
    run_plugin-KeepsFinal fsm (PluginRun.write_local key value next) c s settles h =
        let (c', s', answer) = write_to_local_store t codec c s key value in
        let first = write-KeepsFinal fsm c s key value h in
        KeepsFinal-trans fsm c c' _ first
          (run_plugin-KeepsFinal fsm (next answer) c' s' settles first.0)

    -- A run of any plugin, whatever it calls, leaves both states of a task that is over as they
    -- are. It is assumed that the container works by a table that settles, and that, as the task is
    -- over, no action is permitted in its plugin state.
    pub run_plugin-final :
        (fsm : PluginFsm) (run : PluginRun) (c : Container) (s : S)
        → Settles fsm
        → Settled fsm c
        → is_final c.state ≡ true
        → ((run_plugin t codec run c s).0.state ≡ c.state)
          × ((run_plugin t codec run c s).0.plugin_state ≡ c.plugin_state)
    unfolding KeepsFinal
    run_plugin-final fsm run c s settles h over =
        (run_plugin-KeepsFinal fsm run c s settles h).1 over
