-- ===== src/Task/Factory/Executors.antt =====
-- What `BuildExecutor` makes of each task type: plugin/factory.go.
use nsw.Prelude.{
  String, Bool, true, false, Option, none, some, ◌==◌, if◌then◌else◌, Result, ok, err, >>=-eq-ok,
  ok-inj, ◌≡◌, refl,
}
use nsw.Task.Plugin.Fsm.{PluginFsm}
use nsw.Task.Plugin.Fsm.Settling.{Settles}
use nsw.Task.Plugin.Tables.{payment_fsm, wait_for_event_fsm, simple_form_fsm}
use nsw.Task.Plugin.Tables.Endings.{tables-Settles}
use nsw.Task.Store.{Json}
use nsw.Task.Factory.{Plugin, Executor, PluginMakers, with_table, build_executor}

-- the table of a task type
abbrev pub fsm_of : String → Option PluginFsm
fsm_of task_type =
    if task_type == "SIMPLE_FORM"
    then some simple_form_fsm
    else if task_type == "WAIT_FOR_EVENT"
    then some wait_for_event_fsm
    else if task_type == "PAYMENT"
    then some payment_fsm
    else none

pub fsm_of-Settles :
    (task_type : String) (fsm : PluginFsm) → fsm_of task_type ≡ some fsm → Settles fsm
fsm_of-Settles task_type fsm h =
    by_tests (task_type == "SIMPLE_FORM") (task_type == "WAIT_FOR_EVENT") (task_type == "PAYMENT") h
  where
    same :
        (table : PluginFsm)
        → Settles table
        → Path (Option PluginFsm) (some table) (some fsm)
        → Settles fsm
    same table settles e = let p : table ≡ fsm = cc in rw (← p) settles

    by_tests :
        (a b c : Bool)
        → (if a
            then some simple_form_fsm
            else if b
            then some wait_for_event_fsm
            else if c
            then some payment_fsm
            else none)
          ≡ some fsm
        → Settles fsm
    by_tests true b c e = same _ tables-Settles.2 e
    by_tests false true c e = same _ tables-Settles.1 e
    by_tests false false true e = same _ tables-Settles.0 e
    by_tests false false false e = absurd cc

-- `P` of every plugin that the makers make.
unfoldable pub MadeOf : (Plugin → Type 0) → PluginMakers → Type 0
MadeOf P makers =
    (config : Json) (plugin : Plugin)
    → (makers.new_simple_form config ≡ ok plugin → P plugin)
      × (makers.new_wait_for_event_task config ≡ ok plugin → P plugin)
      × (makers.new_payment_task config ≡ ok plugin → P plugin)

with_table-eq-ok :
    (fsm : PluginFsm) (made : Result Plugin) {exec : Executor}
    → with_table fsm made ≡ ok exec
    → (exec.fsm ≡ some fsm) × (made ≡ ok exec.plugin)
unfolding with_table
with_table-eq-ok fsm made h =
    let (plugin, e, last) = >>=-eq-ok made _ h in rw (← ok-inj last) (refl, e)

pub build_executor-table :
    (P : Plugin → Type 0) (makers : PluginMakers) (task_type : String) (config : Json)
    {exec : Executor}
    → MadeOf P makers
    → build_executor makers task_type config ≡ ok exec
    → (exec.fsm ≡ fsm_of task_type) × P exec.plugin
unfolding build_executor MadeOf
build_executor-table P makers task_type config {exec} made h =
    by_tests (task_type == "SIMPLE_FORM") (task_type == "WAIT_FOR_EVENT") (task_type == "PAYMENT") h
  where
    by_tests :
        (a b c : Bool)
        → (if a
            then with_table simple_form_fsm (makers.new_simple_form config)
            else if b
            then with_table wait_for_event_fsm (makers.new_wait_for_event_task config)
            else if c
            then with_table payment_fsm (makers.new_payment_task config)
            else err "unknown task type")
          ≡ ok exec
        → (exec.fsm ≡ (
            if a
            then some simple_form_fsm
            else if b
            then some wait_for_event_fsm
            else if c
            then some payment_fsm
            else none))
          × P exec.plugin
    by_tests true b c e = let (f, m) = with_table-eq-ok _ _ e in (f, (made config exec.plugin).0 m)
    by_tests false true c e =
        let (f, m) = with_table-eq-ok _ _ e in (f, (made config exec.plugin).1 m)
    by_tests false false true e =
        let (f, m) = with_table-eq-ok _ _ e in (f, (made config exec.plugin).2 m)
    by_tests false false false e = absurd cc

-- Every executor that `BuildExecutor` makes has a transition table, and one that settles: an edge
-- that completes or fails the task leads to a plugin state that no edge leaves.
pub build_executor-Settles :
    (makers : PluginMakers) (task_type : String) (config : Json) {exec : Executor}
    → build_executor makers task_type config ≡ ok exec
    → (fsm : PluginFsm) × (exec.fsm ≡ some fsm) × Settles fsm
unfolding build_executor
build_executor-Settles makers task_type config {exec} h =
    by_tests (task_type == "SIMPLE_FORM") (task_type == "WAIT_FOR_EVENT") (task_type == "PAYMENT") h
  where
    by_tests :
        (a b c : Bool)
        → (if a
            then with_table simple_form_fsm (makers.new_simple_form config)
            else if b
            then with_table wait_for_event_fsm (makers.new_wait_for_event_task config)
            else if c
            then with_table payment_fsm (makers.new_payment_task config)
            else err "unknown task type")
          ≡ ok exec
        → (fsm : PluginFsm) × (exec.fsm ≡ some fsm) × Settles fsm
    by_tests true b c e = (simple_form_fsm, (with_table-eq-ok _ _ e).0, tables-Settles.2)
    by_tests false true c e = (wait_for_event_fsm, (with_table-eq-ok _ _ e).0, tables-Settles.1)
    by_tests false false true e = (payment_fsm, (with_table-eq-ok _ _ e).0, tables-Settles.0)
    by_tests false false false e = absurd cc
