-- ===== src/Task/Plugin/Api.antt =====
-- plugin/plugin.go: how the plugins call `API`. A part of a method takes what follows it, so that a
-- method reads as a chain of calls.
pub mod Allows
use nsw.Prelude.{
  String, Bool, true, false, Option, none, some, [], Map, Result, ok, err, panic, if◌then◌else◌,
}
use nsw.Task.Plugin.State.{TaskState}
use nsw.Task.Store.{Json}
use nsw.Task.Container.{ApiResponse, ExecutionResponse, empty_response, PluginRun}
use nsw.Task.Container

abbrev pub Call : Type 0 → Type 0
Call A = (A → PluginRun) → PluginRun

infixl 5 ◌>>=◌ ◌>>◌
abbrev pub ◌>>=◌ : {A B : Type 0} → Call A → (A → Call B) → Call B
◌>>=◌ first next k = first (λ a. next a k)

abbrev pub ◌>>◌ : {A B : Type 0} → Call A → Call B → Call B
◌>>◌ first next k = first (λ a. next k)

abbrev pub return : {A : Type 0} → A → Call A
return a k = k a

-- `return nil, err`
abbrev pub abort : {A : Type 0} → String → Call A
abort message k = Container.fail message

-- `if err != nil { return nil, err }` on the answer of another part of the program
abbrev pub try : {A : Type 0} → Result A → Call A
try (ok a) k = k a
try (err message) k = Container.fail message
try panic k = Container.crash

abbrev pub require : Bool → String → Call (Unit {0})
require b message = if b then return tt else abort message

abbrev pub get_plugin_state : Call String
get_plugin_state k = Container.read_plugin_state k

abbrev pub get_task_state : Call TaskState
get_task_state k = Container.read_task_state k

abbrev pub get_task_id : Call String
get_task_id k = Container.read_task_id k

abbrev pub get_workflow_id : Call String
get_workflow_id k = Container.read_workflow_id k

abbrev pub read_from_global_store : String → Call (Option Json)
read_from_global_store key k = Container.read_global key k

abbrev pub read_from_local_store : String → Call (Option Json)
read_from_local_store key k = Container.read_local key k

abbrev pub write_to_local_store : String → Json → Call (Result (Unit {0}))
write_to_local_store key value k = Container.write_local key value k

abbrev pub can_transition : String → Call Bool
can_transition action k = Container.call_can_transition action k

abbrev pub transition : String → Call (Result (Unit {0}))
transition action k = Container.call_transition action k

-- a method that ends with a response
abbrev pub run : Call ExecutionResponse → PluginRun
run method = method (λ r. Container.respond (some r))

abbrev pub succeeded : ApiResponse
succeeded = record { success = true; error_code = none }

abbrev pub failed_with : String → ApiResponse
failed_with code = record { success = false; error_code = some code }

-- `&ExecutionResponse{Outputs: outputs, ApiResponse: answer}`
abbrev pub answered : Map Json → ApiResponse → ExecutionResponse
answered outputs answer = record empty_response { outputs = outputs; api_response = some answer }

-- `GetRenderInfo`, of which the answer tells no more than that it succeeded
abbrev pub show : {A : Type 0} → Call A → PluginRun
show method = method (λ info. Container.respond (some (answered [] succeeded)))
