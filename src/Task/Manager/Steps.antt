-- ===== src/Task/Manager/Steps.antt =====
-- One run of a task's plugin by the task manager: manager/manager.go.
use nsw.Prelude.{
  String, Bool, true, false, Option, none, some, Result, ok, err, panic, ◌==◌, eq_iff,
  if◌then◌else◌, ◌≡◌, ◌≢◌, ◌⊎◌, inl, inr, refl, sym, ap, ◌∙◌, arith, String-cases, Bool-cases,
}
use nsw.Task.Plugin.State.{TaskState, is_final}
use nsw.Task.Store.{TaskTable, IsTaskTable}
use nsw.Task.LocalState.{Codec}
use nsw.Task.Container
use nsw.Task.Container.{ExecutionResponse, PluginRun, run_plugin}
use nsw.Task.Container.Storage.{AcceptsUpdates}
use nsw.Task.Container.Frame.{Elsewhere}
use nsw.Task.Container.Quiet.{IsQuiet, execute-new_state}
use nsw.Task.Cache.{ContainerCache}
use nsw.Task.Cache.Contents.{held, held-change}
use nsw.Task.Factory.{ExecutionRequest, Plugin, PluginMakers}
use nsw.Task.Manager.{
  ActiveTask, Notice, updated, done, Tasks, notice_of, answer, start_answer, keep_changes, start,
  execute, render,
}
use nsw.Task.Manager.Sound.{
  RowsSettled, IsSound, IsOver, IsSound-IsOver, IsOver-IsSound, IsSound-Elsewhere, Ran,
  run_plugin-Ran,
}

-- Neither `Start` nor `Execute` of the plugin sets `NewState` itself.
pub record IsQuietPlugin (p : Plugin) : Type 0 where
  pub start : IsQuiet p.start
  pub execute : (request : Option ExecutionRequest) → IsQuiet (p.execute request)

-- whether the notice says that the task is done
unfoldable pub is_done : String → Option Notice → Bool
is_done id none = false
is_done id (some (updated task_id state extended outputs outcome)) = false
is_done id (some (done workflow_id task_id outputs)) = task_id == id

record IsFinalResponse (c : Container.Container) (id : String) (result : Result ExecutionResponse)
    : Type 0 where
  response : ExecutionResponse
  succeeds : result ≡ ok response
  same_id : c.task_id ≡ id
  state : TaskState
  has_state : response.new_state ≡ some state
  final : is_final state ≡ true

-- `execute` says that a task is done only for a response with a final state.
notice_of-done :
    (c : Container.Container) (r : ExecutionResponse) (id : String)
    → is_done id (notice_of c r) ≡ true
    → (state : TaskState) × (c.task_id ≡ id) × (r.new_state ≡ some state) × (is_final state ≡ true)
unfolding notice_of is_done
notice_of-done c r id h = by_state r.new_state refl h
  where
    by_state :
        (o : Option TaskState)
        → r.new_state ≡ o
        → is_done id (elim o as (λ x. Option Notice) [
          | none ↦ none
          | some state ↦
              if is_final state
              then some (done c.workflow_id c.task_id r.outputs)
              else some
                  (updated c.task_id (some state) r.extended_state r.outputs r.emitted_outcome)
        ])
          ≡ true
        → (state : TaskState) × (c.task_id ≡ id)
          × (r.new_state ≡ some state)
          × (is_final state ≡ true)
    by_state none e k = absurd cc
    by_state (some state) e k = elim (Bool-cases (is_final state)) [
      | inl final ↦ (state, (eq_iff c.task_id id).0 (rw final at k), e, final)
      | inr not_final ↦ absurd (let k' = rw not_final at k in cc)
    ]

answer-done :
    (c : Container.Container) (result : Result ExecutionResponse) (id : String)
    → is_done id (answer c result).1 ≡ true
    → IsFinalResponse c id result
unfolding answer is_done
answer-done c (ok r) id h =
    let (state, same_id, has_state, final) = notice_of-done c r id h in
    record {
      response = r;
      succeeds = refl;
      same_id = same_id;
      state = state;
      has_state = has_state;
      final = final;
    }
answer-done c (err e) id h = absurd cc
answer-done c panic id h = absurd cc

-- A new state stands for a plugin state that changed.
new_state-eq-some :
    (after before : String) (now : TaskState) (o : Option TaskState) {state : TaskState}
    → o ≡ (if after == before then none else some now)
    → o ≡ some state
    → (after ≢ before) × (now ≡ state)
new_state-eq-some after before now o {state} h e = elim (Bool-cases (after == before)) [
  | inl same ↦
      absurd (let k : Path (Option TaskState) (some state) none = sym e ∙ rw same at h in cc)
  | inr differs ↦
      let k : Path (Option TaskState) (some state) (some now) = sym e ∙ rw differs at h in
      ((λ p. ground (arith, eq_iff after before)), cc)
]

module _ {S : Type 0} (t : TaskTable S) where
  pub record IsSoundTask (s : S) (id : String) (active : ActiveTask) : Type 0 where
    pub sound : IsSound t s id active.container
    pub quiet : IsQuietPlugin active.plugin

  -- Rows agree with the tables of their types, and cached containers with the rows.
  pub record IsConsistent (tasks : Tasks S) : Type 0 where
    pub rows : RowsSettled t tasks.store
    pub cached :
        (id : String) (active : ActiveTask)
        → held id tasks.cache ≡ some active
        → IsSoundTask tasks.store id active

  -- What a step of the task manager keeps, and what a notice that a task is done says.
  pub record IsStep (tasks tasks' : Tasks S) (notice : Option Notice) : Type 0 where
    pub consistent : IsConsistent tasks'
    pub stays_over : (id : String) → IsOver t tasks.store id → IsOver t tasks'.store id
    pub announced :
        (id : String)
        → is_done id notice ≡ true
        → IsOver t tasks'.store id × (IsOver t tasks.store id → ⊥)

  changed-quiet :
      (o : Option ActiveTask) (c : Container.Container) (a : ActiveTask)
      → ((b : ActiveTask) → o ≡ some b → IsQuietPlugin b.plugin)
      → elim o [ none ↦ none | some b ↦ some (record b { container = c }) ] ≡ some a
      → (a.container ≡ c) × IsQuietPlugin a.plugin
  changed-quiet none c a quiet h = absurd cc
  changed-quiet (some b) c a quiet h =
      let e : Path ActiveTask (record b { container = c }) a = cc in
      (ap (λ (x : ActiveTask). x.container) (sym e), rw (← e) (quiet b refl))

  keep_changes-IsConsistent :
      (s s' : S) (id : String) (c c' : Container.Container) (cache : ContainerCache ActiveTask)
      → IsConsistent (record { store = s; cache = cache })
      → Ran t s s' id c c'
      → IsConsistent (record { store = s'; cache = keep_changes c'.task_id c' cache })
  unfolding keep_changes
  keep_changes-IsConsistent s s' id c c' cache k r = record {
    rows = r.rows;
    cached = λ j a h. by_key j a (String-cases c'.task_id j) (
        sym (held-change c'.task_id j (λ (b : ActiveTask). record b { container = c' }) cache) ∙ h);
  }
    where
      by_key :
          (j : String) (a : ActiveTask)
          → (c'.task_id ≡ j) ⊎ (c'.task_id ≢ j)
          → (if c'.task_id == j
              then elim (held c'.task_id cache) [
                | none ↦ none
                | some b ↦ some (record b { container = c' })
              ]
              else held j cache)
            ≡ some a
          → IsSoundTask s' j a
      by_key j a (inl e) h =
          let (same, quiet) =
            changed-quiet (held c'.task_id cache) c' a (λ b e'. (k.cached c'.task_id b e').quiet)
              (rw ((eq_iff c'.task_id j).1 e) at h) in
          record { sound = rw same (rw (sym r.sound.own_id ∙ e) at r.sound); quiet = quiet }
      by_key j a (inr ne) h =
          let before = k.cached j a (ground (arith, eq_iff c'.task_id j)) in
          record {
            sound =
                IsSound-Elsewhere t s s' id j a.container r.elsewhere (λ e. ne (r.sound.own_id ∙ e))
                  before.sound;
            quiet = before.quiet;
          }

  Ran-IsOver :
      (s s' : S) (id : String) (c c' : Container.Container)
      → IsSound t s id c
      → Ran t s s' id c c'
      → (i : String) → IsOver t s i
      → IsOver t s' i
  unfolding IsOver Elsewhere
  Ran-IsOver s s' id c c' h r i over = elim (String-cases id i) [
    | inl e ↦
        let final = IsSound-IsOver t s id c h (rw (sym e) at over) in
        rw e at (IsOver-IsSound t s' id c' r.sound (ap is_final (r.kept final).0 ∙ final))
    | inr ne ↦ let (row, found, final) = over in (row, r.elsewhere i ne ∙ found, final)
  ]

  module _ (law : IsTaskTable t) (accepts : AcceptsUpdates t) (codec : Codec)
      (makers : PluginMakers) where
    execute-announced :
        (run : PluginRun) (s : S) (id : String) (c : Container.Container) (i : String)
        → RowsSettled t s
        → IsSound t s id c
        → IsQuiet run
        → is_done i
            (answer (Container.execute t codec run c s).0 (Container.execute t codec run c s).2).1
          ≡ true
        → IsOver t (Container.execute t codec run c s).1 i × (IsOver t s i → ⊥)
    unfolding Container.execute
    execute-announced run s id c i rows h quiet said =
        let r = run_plugin-Ran t law accepts codec run s id c rows h in
        let f =
          answer-done (Container.execute t codec run c s).0 (Container.execute t codec run c s).2 i
            said in
        let at_id : id ≡ i = sym r.sound.own_id ∙ f.same_id in
        let state = execute-new_state t codec run c s quiet f.succeeds in
        let (moved, same_state) =
          new_state-eq-some _ c.plugin_state _ f.response.new_state state f.has_state in
        let final : is_final (run_plugin t codec run c s).0.state ≡ true =
          ap is_final same_state ∙ f.final in
        (
          rw at_id at (IsOver-IsSound t _ id _ r.sound final),
          λ over. moved ((r.kept (IsSound-IsOver t s id c h (rw (sym at_id) at over))).1),
        )

    -- `execute` of a task that agrees with its row
    pub execute-IsStep :
        (active : ActiveTask) (payload : Option ExecutionRequest) (tasks : Tasks S) (id : String)
        → IsConsistent tasks
        → IsSoundTask tasks.store id active
        → IsStep tasks
            (execute t codec makers active payload tasks).0
            (execute t codec makers active payload tasks).2
    unfolding execute Container.execute
    execute-IsStep active payload tasks id k h =
        let run = active.plugin.execute payload in
        let r =
          run_plugin-Ran t law accepts codec run tasks.store id active.container k.rows h.sound in
        record {
          consistent =
              keep_changes-IsConsistent tasks.store _ id active.container _ tasks.cache k r;
          stays_over = Ran-IsOver tasks.store _ id active.container _ h.sound r;
          announced = λ i said.
              execute-announced run tasks.store id active.container i k.rows h.sound
                (h.quiet.execute payload) said;
        }

    start_answer-done :
        (c : Container.Container) (result : Result ExecutionResponse) (i : String)
        → is_done i (start_answer c result).1 ≡ true
        → ⊥
    unfolding start_answer is_done
    start_answer-done c (ok r) i h = cc
    start_answer-done c (err e) i h = cc
    start_answer-done c panic i h = cc

    -- `start` of a task that agrees with its row
    pub start-IsStep :
        (active : ActiveTask) (tasks : Tasks S) (id : String)
        → IsConsistent tasks
        → IsSoundTask tasks.store id active
        → IsStep tasks (start t codec makers active tasks).0 (start t codec makers active tasks).2
    unfolding start Container.execute
    start-IsStep active tasks id k h =
        let r =
          run_plugin-Ran t law accepts codec active.plugin.start tasks.store id active.container
            k.rows h.sound in
        record {
          consistent =
              keep_changes-IsConsistent tasks.store _ id active.container _ tasks.cache k r;
          stays_over = Ran-IsOver tasks.store _ id active.container _ h.sound r;
          announced = λ i said. absurd (
              start_answer-done
                (Container.execute t codec active.plugin.start active.container tasks.store).0
                (Container.execute t codec active.plugin.start active.container tasks.store).2 i
                said);
        }

    -- `GetRenderInfo` of a task that agrees with its row
    pub render-IsStep :
        (active : ActiveTask) (tasks : Tasks S) (id : String)
        → IsConsistent tasks
        → IsSoundTask tasks.store id active
        → IsStep tasks (render t codec makers active tasks).0 none
    unfolding render Container.get_render_info is_done
    render-IsStep active tasks id k h =
        let r =
          run_plugin-Ran t law accepts codec active.plugin.render tasks.store id active.container
            k.rows h.sound in
        record {
          consistent =
              keep_changes-IsConsistent tasks.store _ id active.container _ tasks.cache k r;
          stays_over = Ran-IsOver tasks.store _ id active.container _ h.sound r;
          announced = λ i said. absurd cc;
        }
