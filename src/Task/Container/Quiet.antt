-- ===== src/Task/Container/Quiet.antt =====
-- Responses in which the plugin leaves the new state to the container: container/container.go.
use nsw.Prelude.{
  String, Bool, Option, none, some, ◌==◌, if◌then◌else◌, Result, ok, err, panic, ◌≡◌, refl, ok-inj,
  arith,
}
use nsw.Task.Plugin.State.{TaskState}
use nsw.Task.Store.{Json, TaskTable}
use nsw.Task.LocalState.{Codec, get_state}
use nsw.Task.Container.{
  Container, ExecutionResponse, PluginRun, transition, can_transition, read_from_global_store,
  write_to_local_store, run_plugin, complete_response, execute,
}

-- The response, if there is one, has no `NewState`.
abbrev pub IsQuietResponse : Option ExecutionResponse → Type 0
IsQuietResponse none = Unit
IsQuietResponse (some r) = r.new_state ≡ none

-- No run of the plugin's method sets `NewState` itself.
unfoldable pub IsQuiet : PluginRun → Type 0
IsQuiet (PluginRun.respond response) = IsQuietResponse response
IsQuiet (PluginRun.fail message) = Unit
IsQuiet PluginRun.crash = Unit
IsQuiet (PluginRun.call_transition action next) = (x : Result (Unit {0})) → IsQuiet (next x)
IsQuiet (PluginRun.call_can_transition action next) = (x : Bool) → IsQuiet (next x)
IsQuiet (PluginRun.read_plugin_state next) = (x : String) → IsQuiet (next x)
IsQuiet (PluginRun.read_task_state next) = (x : TaskState) → IsQuiet (next x)
IsQuiet (PluginRun.read_task_id next) = (x : String) → IsQuiet (next x)
IsQuiet (PluginRun.read_workflow_id next) = (x : String) → IsQuiet (next x)
IsQuiet (PluginRun.read_global key next) = (x : Option Json) → IsQuiet (next x)
IsQuiet (PluginRun.read_local key next) = (x : Option Json) → IsQuiet (next x)
IsQuiet (PluginRun.write_local key value next) = (x : Result (Unit {0})) → IsQuiet (next x)

module _ {S : Type 0} (t : TaskTable S) (codec : Codec) where
  run_plugin-IsQuietResponse :
      (run : PluginRun) (c : Container) (s : S) {r : Option ExecutionResponse}
      → IsQuiet run
      → (run_plugin t codec run c s).2 ≡ ok r
      → IsQuietResponse r
  unfolding run_plugin IsQuiet
  run_plugin-IsQuietResponse (PluginRun.respond response) c s q h = rw (← ok-inj h) q
  run_plugin-IsQuietResponse (PluginRun.fail message) c s q h = absurd cc
  run_plugin-IsQuietResponse PluginRun.crash c s q h = absurd cc
  run_plugin-IsQuietResponse (PluginRun.call_transition action next) c s q h =
      let (c', s', answer) = transition t c s action in
      run_plugin-IsQuietResponse (next answer) c' s' (q answer) h
  run_plugin-IsQuietResponse (PluginRun.call_can_transition action next) c s q h =
      run_plugin-IsQuietResponse (next (can_transition c action)) c s (q (can_transition c action))
        h
  run_plugin-IsQuietResponse (PluginRun.read_plugin_state next) c s q h =
      run_plugin-IsQuietResponse (next c.plugin_state) c s (q c.plugin_state) h
  run_plugin-IsQuietResponse (PluginRun.read_task_state next) c s q h =
      run_plugin-IsQuietResponse (next c.state) c s (q c.state) h
  run_plugin-IsQuietResponse (PluginRun.read_task_id next) c s q h =
      run_plugin-IsQuietResponse (next c.task_id) c s (q c.task_id) h
  run_plugin-IsQuietResponse (PluginRun.read_workflow_id next) c s q h =
      run_plugin-IsQuietResponse (next c.workflow_id) c s (q c.workflow_id) h
  run_plugin-IsQuietResponse (PluginRun.read_global key next) c s q h =
      run_plugin-IsQuietResponse (next (read_from_global_store c key)) c s
        (q (read_from_global_store c key)) h
  run_plugin-IsQuietResponse (PluginRun.read_local key next) c s q h =
      run_plugin-IsQuietResponse (next (get_state c.local_state key)) c s
        (q (get_state c.local_state key)) h
  run_plugin-IsQuietResponse (PluginRun.write_local key value next) c s q h =
      let (c', s', answer) = write_to_local_store t codec c s key value in
      run_plugin-IsQuietResponse (next answer) c' s' (q answer) h

  complete_response-new_state :
      (previous : String) (c : Container) (response : Option ExecutionResponse)
      → IsQuietResponse response
      → (complete_response previous c response).new_state
        ≡ (if c.plugin_state == previous then none else some c.state)
  unfolding complete_response
  complete_response-new_state previous c none q = ground arith
  complete_response-new_state previous c (some r) q = ground arith

  -- The response has a new state just if the plugin state changed, and then it is the container's.
  pub execute-new_state :
      (run : PluginRun) (c : Container) (s : S) {r : ExecutionResponse}
      → IsQuiet run
      → (execute t codec run c s).2 ≡ ok r
      → r.new_state ≡ (
          if (execute t codec run c s).0.plugin_state == c.plugin_state
          then none
          else some (execute t codec run c s).0.state)
  unfolding execute
  execute-new_state run c s {r} q h = by_result (run_plugin t codec run c s).2 refl h
    where
      c' : Container
      c' = (run_plugin t codec run c s).0

      by_result :
          (m : Result (Option ExecutionResponse))
          → (run_plugin t codec run c s).2 ≡ m
          → Path
              (Result ExecutionResponse)
              (elim m [
                | ok response ↦ ok (complete_response c.plugin_state c' response)
                | err e ↦ err e
                | panic ↦ panic
              ])
              (ok r)
          → r.new_state ≡ (if c'.plugin_state == c.plugin_state then none else some c'.state)
      by_result (ok response) e k = rw (← ok-inj k) (
          complete_response-new_state c.plugin_state c' response
            (run_plugin-IsQuietResponse run c s q e))
      by_result (err e') e k = absurd cc
      by_result panic e k = absurd cc
