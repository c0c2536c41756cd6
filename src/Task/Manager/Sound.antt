-- ===== src/Task/Manager/Sound.antt =====
-- Containers, rows and transition tables that agree, and runs of plugins that keep them so.
use nsw.Prelude.{
  String, true, Option, some, ok, ◌≡◌, ◌≢◌, inl, inr, sym, ap, ◌∙◌, ok-inj, String-cases,
}
use nsw.Task.Plugin.State.{is_final}
use nsw.Task.Plugin.Fsm.{PluginFsm}
use nsw.Task.Plugin.Fsm.Settling.{IsStuck}
use nsw.Task.Store.{TaskInfo, TaskTable, IsTaskTable}
use nsw.Task.LocalState.{Codec}
use nsw.Task.Container.{Container, PluginRun, run_plugin}
use nsw.Task.Container.Moves.{Settled, KeepsFinal, run_plugin-KeepsFinal}
use nsw.Task.Container.Storage.{AcceptsUpdates, Stored, InSync, run_plugin-InSync}
use nsw.Task.Container.Frame.{Elsewhere, Frame, run_plugin-Frame}
use nsw.Task.Factory.Executors.{fsm_of, fsm_of-Settles}

module _ {S : Type 0} (t : TaskTable S) where
  -- A row whose task is over has a plugin state that its type's table has no way on from.
  unfoldable pub RowsSettled : S → Type 0
  RowsSettled s =
      (i : String) (row : TaskInfo) (fsm : PluginFsm)
      → t.first s i ≡ ok row
      → fsm_of row.type_name ≡ some fsm
      → is_final row.state ≡ true
      → IsStuck fsm row.plugin_state

  -- The container is the task's: it works by the table of the row's type, and has the row's states.
  pub record IsSound (s : S) (id : String) (c : Container) : Type 0 where
    pub own_id : c.task_id ≡ id
    pub type_name : String
    pub fsm : PluginFsm
    pub has_fsm : c.fsm ≡ some fsm
    pub of_type : fsm_of type_name ≡ some fsm
    pub in_sync : InSync t type_name c s

  -- The task is over: its row is COMPLETED or FAILED.
  unfoldable pub IsOver : S → String → Type 0
  IsOver s id = (row : TaskInfo) × (t.first s id ≡ ok row) × (is_final row.state ≡ true)

  IsSound-Settled :
      (s : S) (id : String) (c : Container) → RowsSettled s → (h : IsSound s id c) → Settled h.fsm c
  unfolding RowsSettled Settled InSync Stored
  IsSound-Settled s id c rows h =
      let ((row, found, ty, e, p), _) = h.in_sync in
      (
        h.has_fsm,
        λ over.
            rw p at
              (rows c.task_id row h.fsm found (rw (sym ty) at h.of_type) (ap is_final e ∙ over)),
      )

  pub IsSound-IsOver :
      (s : S) (id : String) (c : Container) → IsSound s id c → IsOver s id → is_final c.state ≡ true
  unfolding IsOver InSync Stored
  IsSound-IsOver s id c h (row, found, over) =
      let ((row', found', ty, e, p), _) = h.in_sync in
      let same : row' ≡ row = ok-inj (sym (rw h.own_id at found') ∙ found) in
      ap is_final (sym e) ∙ ap (λ (r : TaskInfo). is_final r.state) same ∙ over

  pub IsOver-IsSound :
      (s : S) (id : String) (c : Container) → IsSound s id c → is_final c.state ≡ true → IsOver s id
  unfolding IsOver InSync Stored
  IsOver-IsSound s id c h over =
      let ((row, found, ty, e, p), _) = h.in_sync in
      (row, rw h.own_id at found, ap is_final e ∙ over)

  pub IsSound-Elsewhere :
      (s s' : S) (id j : String) (c : Container)
      → Elsewhere t id s s'
      → id ≢ j
      → IsSound s j c
      → IsSound s' j c
  unfolding Elsewhere InSync Stored
  IsSound-Elsewhere s s' id j c keeps ne h =
      let ((row, found, ty, e, p), own) = h.in_sync in
      record {
        own_id = h.own_id;
        type_name = h.type_name;
        fsm = h.fsm;
        has_fsm = h.has_fsm;
        of_type = h.of_type;
        in_sync = ((row, keeps c.task_id (λ e. ne (e ∙ h.own_id)) ∙ found, ty, e, p), own);
      }

  -- What one run of the plugin of the task `id` does.
  pub record Ran (s s' : S) (id : String) (c c' : Container) : Type 0 where
    pub rows : RowsSettled s'
    pub sound : IsSound s' id c'
    pub elsewhere : Elsewhere t id s s'
    pub kept : is_final c.state ≡ true → (c'.state ≡ c.state) × (c'.plugin_state ≡ c.plugin_state)

  Elsewhere-of_eq : (s s' : S) (a b : String) → a ≡ b → Elsewhere t a s s' → Elsewhere t b s s'
  Elsewhere-of_eq s s' a b e h = rw e at h

  RowsSettled-Elsewhere :
      (s s' : S) (id : String) (c' : Container)
      → RowsSettled s
      → Elsewhere t id s s'
      → (h : IsSound s' id c') → (is_final c'.state ≡ true → IsStuck h.fsm c'.plugin_state)
      → RowsSettled s'
  unfolding RowsSettled Elsewhere InSync Stored
  RowsSettled-Elsewhere s s' id c' rows keeps h stuck i row fsm found of_type over =
      elim (String-cases id i) [
        | inr ne ↦ rows i row fsm (sym (keeps i ne) ∙ found) of_type over
        | inl here ↦
            let ((row', found', ty, e, p), _) = h.in_sync in
            let same : row' ≡ row =
              ok-inj (sym (rw h.own_id at found') ∙ (rw (sym here) at found)) in
            let of_type' : fsm_of row.type_name ≡ some h.fsm =
              ap (λ (r : TaskInfo). fsm_of r.type_name) (sym same) ∙ ap fsm_of ty ∙ h.of_type in
            let same_fsm : Path (Option PluginFsm) (some h.fsm) (some fsm) =
              sym of_type' ∙ of_type in
            let eq : h.fsm ≡ fsm = cc in
            let final : is_final c'.state ≡ true =
              ap is_final (sym e) ∙ ap (λ (r : TaskInfo). is_final r.state) same ∙ over in
            let plugin_state : c'.plugin_state ≡ row.plugin_state =
              sym p ∙ ap (λ (r : TaskInfo). r.plugin_state) same in
            rw (← eq) (rw (← plugin_state) (stuck final))
      ]

  module _ (law : IsTaskTable t) (accepts : AcceptsUpdates t) (codec : Codec) where
    -- A run of any plugin keeps containers, rows and tables in agreement.
    pub run_plugin-Ran :
        (run : PluginRun) (s : S) (id : String) (c : Container)
        → RowsSettled s
        → IsSound s id c
        → Ran s (run_plugin t codec run c s).1 id c (run_plugin t codec run c s).0
    unfolding KeepsFinal Settled InSync
    run_plugin-Ran run s id c rows h =
        let c' = (run_plugin t codec run c s).0 in
        let s' = (run_plugin t codec run c s).1 in
        let settles = fsm_of-Settles h.type_name h.fsm h.of_type in
        let (settled, kept) =
          run_plugin-KeepsFinal t codec h.fsm run c s settles (IsSound-Settled s id c rows h) in
        let frame : Frame t c c' s s' = run_plugin-Frame t law codec run c s h.in_sync.1 in
        let elsewhere : Elsewhere t id s s' =
          Elsewhere-of_eq s s' c.task_id id h.own_id frame.elsewhere in
        let sound : IsSound s' id c' = record {
          own_id = frame.same_id ∙ h.own_id;
          type_name = h.type_name;
          fsm = h.fsm;
          has_fsm = settled.0;
          of_type = h.of_type;
          in_sync = run_plugin-InSync t law accepts codec h.type_name run c s h.in_sync;
        } in
        record {
          rows = RowsSettled-Elsewhere s s' id c' rows elsewhere sound settled.1;
          sound = sound;
          elsewhere = elsewhere;
          kept = kept;
        }
