-- ===== src/Task/Tests/Examples.antt =====
-- The theorems about containers and executors on a task with a form.
use nsw.Prelude.{Option, some, [], ◌∷◌, ◌≡◌, refl}
use nsw.Task.Plugin.State.{initialized, completed}
use nsw.Task.Plugin.Fsm.{PluginFsm}
use nsw.Task.Plugin.Fsm.Settling.{Settles, IsStuck}
use nsw.Task.Plugin.Tables.{simple_form_fsm}
use nsw.Task.Plugin.Tables.Endings.{tables-Settles}
use nsw.Task.Container.{Container, ExecutionResponse, empty_response, PluginRun, run_plugin}
use nsw.Task.Container.Moves.{Settled, run_plugin-final}
use nsw.Task.Container.Storage.{InSync, run_plugin-InSync}
use nsw.Task.Factory.{build_executor}
use nsw.Task.Factory.Executors.{build_executor-Settles}
use nsw.Task.Tests.{
  task_table, task_table-IsTaskTable, task_table-AcceptsUpdates, codec, form_row, submit,
  form_plugin, makers,
}

abbrev form_container : Container
form_container = record {
  task_id = "t";
  workflow_id = "w";
  template_id = "A";
  state = initialized;
  plugin_state = "INITIALIZED";
  fsm = some simple_form_fsm;
  global_state = [];
  local_state = record { task_id = "t"; cache = [] };
}

run_plugin-InSync_example :
    InSync task_table "SIMPLE_FORM"
      (run_plugin task_table codec submit form_container (form_row ∷ [])).0
      (run_plugin task_table codec submit form_container (form_row ∷ [])).1
unfolding InSync nsw.Task.Container.Storage.Stored task_table
run_plugin-InSync_example =
    run_plugin-InSync task_table task_table-IsTaskTable task_table-AcceptsUpdates codec
      "SIMPLE_FORM" submit form_container (form_row ∷ []) ((form_row, refl, refl, refl, refl), refl)

abbrev submitted_container : Container
submitted_container = record form_container { state = completed; plugin_state = "SUBMITTED" }

submitted-Settled : Settled simple_form_fsm submitted_container
unfolding Settled IsStuck simple_form_fsm
submitted-Settled = (refl, λ over action. refl)

run_plugin-final_example :
    ((run_plugin task_table codec submit submitted_container (form_row ∷ [])).0.state ≡ completed)
    × ((run_plugin task_table codec submit submitted_container (form_row ∷ [])).0.plugin_state
        ≡ "SUBMITTED")
run_plugin-final_example =
    run_plugin-final task_table codec simple_form_fsm submit submitted_container (form_row ∷ [])
      tables-Settles.2 submitted-Settled refl

build_executor-Settles_example :
    (fsm : PluginFsm) × (Path (Option PluginFsm) (some simple_form_fsm) (some fsm)) × Settles fsm
unfolding build_executor
build_executor-Settles_example =
    build_executor-Settles makers "SIMPLE_FORM" "{}"
      {exec = record { plugin = form_plugin; fsm = some simple_form_fsm }} refl
