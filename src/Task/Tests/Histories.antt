-- ===== src/Task/Tests/Histories.antt =====
-- The theorems about sequences of requests, on a form that is submitted, and a request after that.
use nsw.Prelude.{
  ◌≤◌, String, true, false, Option, some, List, [], ◌∷◌, ◌==◌, ◌≡◌, refl, sym, ok-inj, inl, inr,
  Bool-cases, lookup,
}
use nsw.Task.Plugin.State.{is_final, initialized, completed}
use nsw.Task.Plugin.Fsm.{PluginFsm, can_transition, find_edge}
use nsw.Task.Plugin.Fsm.Settling.{IsStuck}
use nsw.Task.Plugin.Tables.{simple_form_fsm}
use nsw.Task.Store.{TaskInfo}
use nsw.Task.Container.Quiet.{IsQuiet}
use nsw.Task.Cache.{new_container_cache}
use nsw.Task.Cache.Contents.{held}
use nsw.Task.Factory.{ExecutionRequest}
use nsw.Task.Factory.Executors.{MadeOf}
use nsw.Task.Manager.{InitTaskRequest, Tasks}
use nsw.Task.Manager.Sound.{RowsSettled, IsOver}
use nsw.Task.Manager.Steps.{IsQuietPlugin, IsConsistent}
use nsw.Task.Manager.History.{
  Request, to_init, to_execute, to_render, after_all, times_done, times_done-le-1, after_all-IsOver,
  after_all-IsConsistent,
}
use nsw.Task.Tests.{
  first_row, task_table, task_table-IsTaskTable, task_table-AcceptsUpdates, codec, form_row,
  form_plugin, makers,
}

form_plugin-IsQuietPlugin : IsQuietPlugin form_plugin
unfolding IsQuiet
form_plugin-IsQuietPlugin = record {
  start = tt;
  execute = λ request written saved submitted refused. tt;
}

makers-MadeOf : MadeOf IsQuietPlugin makers
unfolding MadeOf
makers-MadeOf config plugin =
    ((λ h. rw (← ok-inj h) form_plugin-IsQuietPlugin), (λ h. absurd cc), (λ h. absurd cc))

abbrev tasks : Tasks (List TaskInfo)
unfolding new_container_cache
tasks = record { store = form_row ∷ []; cache = new_container_cache 100 }

abbrev submitted_row : TaskInfo
submitted_row = record form_row { state = completed; plugin_state = "SUBMITTED" }

submitted-stuck : (action : String) → can_transition simple_form_fsm "SUBMITTED" action ≡ false
unfolding can_transition simple_form_fsm find_edge
submitted-stuck action = refl

abbrev over_tasks : Tasks (List TaskInfo)
unfolding new_container_cache
over_tasks = record { store = submitted_row ∷ []; cache = new_container_cache 100 }

tasks-IsConsistent : IsConsistent task_table tasks
unfolding RowsSettled task_table held lookup tasks
tasks-IsConsistent = record {
  rows = λ i row fsm found of_type over. elim (Bool-cases ("t" == i)) [
    | inl e ↦
        let same : form_row ≡ row = ok-inj (rw (e, first_row) at found) in
        let k : is_final initialized ≡ true = rw (sym same) at over in absurd cc
    | inr ne ↦ let k = rw (ne, first_row) at found in absurd cc
  ];
  cached = λ id active h. absurd cc;
}

over_tasks-IsConsistent : IsConsistent task_table over_tasks
unfolding RowsSettled task_table held lookup over_tasks IsStuck
over_tasks-IsConsistent = record {
  rows = λ i row fsm found of_type over action. elim (Bool-cases ("t" == i)) [
    | inl e ↦
        let same : submitted_row ≡ row = ok-inj (rw (e, first_row) at found) in
        let table : Path (Option PluginFsm) (some simple_form_fsm) (some fsm) =
          rw (sym same) at of_type in
        let eq : simple_form_fsm ≡ fsm = cc in rw (← same) (rw (← eq) (submitted-stuck action))
    | inr ne ↦ let k = rw (ne, first_row) at found in absurd cc
  ];
  cached = λ id active h. absurd cc;
}

abbrev submit_request : ExecutionRequest
submit_request = record { action = "SUBMIT_FORM"; content = "{}" }

abbrev again : InitTaskRequest
again = record {
  task_id = "t";
  workflow_id = "w";
  template_id = "A";
  type_name = "SIMPLE_FORM";
  global_state = [];
  config = "{}";
}

abbrev requests : List Request
requests =
    to_render "t"
    ∷ to_execute "t" (some submit_request)
    ∷ to_init again
    ∷ to_render "t"
    ∷ to_execute "t" (some submit_request)
    ∷ []

times_done-le-1_example : times_done task_table codec makers "t" tasks requests ≤ 1
times_done-le-1_example =
    times_done-le-1 task_table task_table-IsTaskTable task_table-AcceptsUpdates codec makers
      makers-MadeOf "t" tasks requests tasks-IsConsistent

after_all-IsConsistent_example :
    IsConsistent task_table (after_all task_table codec makers tasks requests)
after_all-IsConsistent_example =
    after_all-IsConsistent task_table task_table-IsTaskTable task_table-AcceptsUpdates codec makers
      makers-MadeOf tasks requests tasks-IsConsistent

after_all-IsOver_example :
    IsOver task_table (after_all task_table codec makers over_tasks requests).store "t"
unfolding IsOver task_table over_tasks
after_all-IsOver_example =
    after_all-IsOver task_table task_table-IsTaskTable task_table-AcceptsUpdates codec makers
      makers-MadeOf "t" over_tasks requests over_tasks-IsConsistent (submitted_row, refl, refl)
