-- ===== src/Task/Factory.antt =====
-- plugin/factory.go: the executor of a task type, a plugin with its transition table. The plugins'
-- constructors are a parameter, and what they make is `plugin.Plugin`: runs of its methods.
pub mod Executors
use nsw.Prelude.{String, Option, some, ◌==◌, if◌then◌else◌, Result, ok, err, ◌>>=◌}
use nsw.Task.Plugin.Fsm.{PluginFsm}
use nsw.Task.Plugin.Tables.{payment_fsm, wait_for_event_fsm, simple_form_fsm}
use nsw.Task.Store.{Json}
use nsw.Task.Container.{PluginRun}

-- `ExecutionRequest`
pub record ExecutionRequest : Type 0 where
  pub action : String
  pub content : Json

-- `Plugin`: `Start`, `GetRenderInfo` and `Execute`
pub record Plugin : Type 0 where
  pub start : PluginRun
  pub render : PluginRun
  pub execute : Option ExecutionRequest → PluginRun

-- `Executor`
pub record Executor : Type 0 where
  pub plugin : Plugin
  pub fsm : Option PluginFsm

-- `NewSimpleForm`, `NewWaitForEventTask` and `NewPaymentTask`, with the services that they use
pub record PluginMakers : Type 0 where
  pub new_simple_form : Json → Result Plugin
  pub new_wait_for_event_task : Json → Result Plugin
  pub new_payment_task : Json → Result Plugin

unfoldable with_table : PluginFsm → Result Plugin → Result Executor
with_table fsm made = do plugin ← made; ok (record { plugin = plugin; fsm = some fsm })

-- `BuildExecutor`
unfoldable pub build_executor : PluginMakers → String → Json → Result Executor
unfolding with_table payment_fsm wait_for_event_fsm simple_form_fsm
build_executor makers task_type config =
    if task_type == "SIMPLE_FORM"
    then with_table simple_form_fsm (makers.new_simple_form config)
    else if task_type == "WAIT_FOR_EVENT"
    then with_table wait_for_event_fsm (makers.new_wait_for_event_task config)
    else if task_type == "PAYMENT"
    then with_table payment_fsm (makers.new_payment_task config)
    else err "unknown task type"
