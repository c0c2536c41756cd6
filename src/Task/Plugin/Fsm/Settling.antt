-- ===== src/Task/Plugin/Fsm/Settling.antt =====
-- plugin/fsm.go: tables whose final outcomes have no way on.
use nsw.Prelude.{
  String, Bool, true, false, ◌&&◌, Option, none, some, [], ◌∷◌, ◌==◌, if◌then◌else◌, Result, ok,
  ◌≡◌, refl, inl, inr, Bool-cases, Option-cases, arith,
}
use nsw.Task.Plugin.State.{is_final}
use nsw.Task.Plugin.Fsm.{
  TransitionKey, TransitionOutcome, PluginFsm, transition, can_transition, find_edge,
}

unfoldable pub ends : TransitionOutcome → Bool
ends outcome = elim outcome.next_task_state [ none ↦ false | some state ↦ is_final state ]

-- whether no entry of the table leaves the plugin state
unfoldable pub is_left_by_none : PluginFsm → String → Bool
is_left_by_none [] state = true
is_left_by_none ((key, outcome) ∷ rest) state =
    if key.from_state == state then false else is_left_by_none rest state

-- whether every entry of `table` that ends the task leads where no entry of `fsm` leaves
unfoldable pub settles_in : PluginFsm → PluginFsm → Bool
settles_in fsm [] = true
settles_in fsm ((key, outcome) ∷ rest) =
    (if ends outcome then is_left_by_none fsm outcome.next_plugin_state else true)
    && settles_in fsm rest

-- A table where the entries that complete or fail the task lead to plugin states without an edge.
unfoldable pub Settles : PluginFsm → Type 0
unfolding settles_in
Settles fsm = settles_in fsm fsm ≡ true

-- No action is permitted in the plugin state.
unfoldable pub IsStuck : PluginFsm → String → Type 0
unfolding can_transition
IsStuck fsm state = (action : String) → can_transition fsm state action ≡ false

is_left_by_none-stuck :
    (fsm : PluginFsm) (state action : String)
    → is_left_by_none fsm state ≡ true
    → can_transition fsm state action ≡ false
unfolding can_transition is_left_by_none find_edge
is_left_by_none-stuck [] state action h = refl
is_left_by_none-stuck ((key, outcome) ∷ rest) state action h =
    let ih = is_left_by_none-stuck rest state action in ground arith

same_end :
    (fsm rest : PluginFsm) (key : TransitionKey) (o outcome : TransitionOutcome)
    → settles_in fsm ((key, o) ∷ rest) ≡ true
    → o ≡ outcome
    → ends outcome ≡ true
    → is_left_by_none fsm outcome.next_plugin_state ≡ true
unfolding settles_in
same_end fsm rest key o outcome h p f = let g = rw p at h in ground arith

settles_in-found :
    (fsm table : PluginFsm) (state action : String) {outcome : TransitionOutcome}
    → settles_in fsm table ≡ true
    → find_edge table state action ≡ some outcome
    → ends outcome ≡ true
    → is_left_by_none fsm outcome.next_plugin_state ≡ true
unfolding settles_in find_edge
settles_in-found fsm [] state action h e f = cc
settles_in-found fsm ((key, o) ∷ rest) state action {outcome} h e f =
    elim (Bool-cases (key.from_state == state && key.action == action)) [
      | inl t ↦
          let k : Path (Option TransitionOutcome) (some o) (some outcome) = rw t at e in
          same_end fsm rest key o outcome h (cc) f
      | inr n ↦ settles_in-found fsm rest state action (ground arith) (rw n at e) f
    ]

transition-found :
    (fsm : PluginFsm) (state action : String) {outcome : TransitionOutcome}
    → transition fsm state action ≡ ok outcome
    → find_edge fsm state action ≡ some outcome
unfolding transition
transition-found fsm state action h = elim (Option-cases (find_edge fsm state action)) [
  | inl e ↦ let k = rw (e, transition) at h in cc
  | inr (o, e) ↦
      let k : Path (Result TransitionOutcome) (ok o) (ok _) = rw (e, transition) at h in cc
]

-- In a table that settles, an edge that ends the task leads to a stuck plugin state.
pub transition-IsStuck :
    (fsm : PluginFsm) (state action : String) {outcome : TransitionOutcome}
    → Settles fsm
    → transition fsm state action ≡ ok outcome
    → ends outcome ≡ true
    → IsStuck fsm outcome.next_plugin_state
unfolding IsStuck Settles
transition-IsStuck fsm state action h e f b =
    is_left_by_none-stuck fsm _ b
      (settles_in-found fsm fsm state action h (transition-found fsm state action e) f)

-- In a stuck plugin state every transition is refused.
pub transition-stuck :
    (fsm : PluginFsm) (state action : String) {outcome : TransitionOutcome}
    → IsStuck fsm state
    → transition fsm state action ≡ ok outcome
    → ⊥
unfolding IsStuck
transition-stuck fsm state action h e =
    let k = rw (transition-found fsm state action e, can_transition) at (h action) in cc
