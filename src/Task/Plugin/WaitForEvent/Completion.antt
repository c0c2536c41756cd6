-- ===== src/Task/Plugin/WaitForEvent/Completion.antt =====
-- Only the call of the external service completes its task: plugin/wait_for_event.go.
use nsw.Prelude.{
  String, not, ◌||◌, Option, none, some, ◌==◌, if◌then◌else◌, ◌≡◌, ◌≢◌, ne_of_test, test_of_ne,
  refl, Result, ok, err, panic, is_some, false,
}
use nsw.Json.{
  Value, Items, Fields, null, boolean, number, text, array, object, nil, cons, end, field,
}
use nsw.Json.Template.{resolve_template, resolve_items, resolve_fields}
use nsw.Task.Store.{TaskTable}
use nsw.Task.LocalState.{Codec}
use nsw.Task.Plugin.Tables.{wait_for_event_fsm}
use nsw.Task.Container.{Container, empty_response, PluginRun, run_plugin}
use nsw.Task.Container.Performs.{
  AnyEntry, NeverCompletes, NeverCompletes-All, IsOpenTask, run_plugin-IsOpenTask,
}
use nsw.Task.Factory.{ExecutionRequest}
use nsw.Task.Plugin.Config.{SubmissionConfig, Services, lookup_keys}
use nsw.Task.Plugin.Api.Allows.{
  Allows, Any, weaken, ◌then◌, return-Allows, abort-Allows, try-Allows, if-Allows, global-Allows,
  task_id-Allows, workflow_id-Allows, can_transition-Allows, transition-Allows, run-Performs,
}
use nsw.Task.Plugin.WaitForEvent.{
  EventConfig, code_of, lookup_value, resolve_decoded, resolve_input_data, start_submission,
  notify_external_service, start_notified, start, retry_notified, execute,
}
use nsw.Task.Plugin.WaitForEvent.Render.{wait_for_event_task}

-- The actions that no edge of the table completes the task by.
abbrev IsOwn : String → Type 0
IsOwn action = action ≢ "OGA_VERIFICATION"

wait_for_event_fsm-NeverCompletes : NeverCompletes wait_for_event_fsm IsOwn
unfolding wait_for_event_fsm
wait_for_event_fsm-NeverCompletes =
    NeverCompletes-All IsOwn wait_for_event_fsm
      ((λ p e. absurd cc), ((λ p e. absurd cc), ((λ p e. absurd cc), ((λ p e. p refl), tt))))

module _ (services : Services) where
  lookup_value-Allows : (key : String) → Allows IsOwn AnyEntry Any (lookup_value services key)
  unfolding lookup_value lookup_keys
  lookup_value-Allows key =
      if-Allows (key == "") (return-Allows none tt)
        (global-Allows key then λ stored _. return-Allows _ tt)

  found-Allows :
      (s : String) (o : Option Value)
      → Allows IsOwn AnyEntry Any
          (λ k. elim o as (λ x. PluginRun) [ none ↦ k (text s) | some v ↦ k v ])
  found-Allows s none = return-Allows (text s) tt
  found-Allows s (some v) = return-Allows v tt

  -- A template is resolved by reads of the global context only.
  mutual
    unfolding resolve_template resolve_items resolve_fields

    template_allows :
        (v : Value) → Allows IsOwn AnyEntry Any (resolve_template (lookup_value services) v)
    template_allows null = record { performs = λ k h. h null tt }
    template_allows (boolean b) = record { performs = λ k h. h (boolean b) tt }
    template_allows (number n) = record { performs = λ k h. h (number n) tt }
    template_allows (text s) = record {
      performs = (lookup_value-Allows s then λ o _. found-Allows s o).performs;
    }
    template_allows (array vs) = record {
      performs = (items_allows vs then λ ws _. return-Allows (array ws) tt).performs;
    }
    template_allows (object fs) = record {
      performs = (fields_allows fs then λ gs _. return-Allows (object gs) tt).performs;
    }

    items_allows :
        (vs : Items) → Allows IsOwn AnyEntry Any (resolve_items (lookup_value services) vs)
    items_allows nil = record { performs = λ k h. h nil tt }
    items_allows (cons v vs) = record {
      performs =
          (template_allows v then λ w _.
          (items_allows vs then λ ws _. return-Allows (cons w ws) tt)).performs;
    }

    fields_allows :
        (fs : Fields) → Allows IsOwn AnyEntry Any (resolve_fields (lookup_value services) fs)
    fields_allows end = record { performs = λ k h. h end tt }
    fields_allows (field key v rest) = record {
      performs =
          (template_allows v then λ w _.
          (fields_allows rest then λ gs _. return-Allows (field key w gs) tt)).performs;
    }

  resolve_decoded-Allows :
      (r : Result Value) → Allows IsOwn AnyEntry Any (resolve_decoded services r)
  unfolding resolve_decoded
  resolve_decoded-Allows (ok template) = template_allows template
  resolve_decoded-Allows (err e) = return-Allows null tt
  resolve_decoded-Allows panic = weaken (λ _ _. tt) (try-Allows panic)

  resolve_input_data-Allows :
      (s : SubmissionConfig) → Allows IsOwn AnyEntry Any (resolve_input_data services s)
  unfolding resolve_input_data
  resolve_input_data-Allows s =
      if-Allows (not (is_some s.task_code) || s.template == "") (return-Allows null tt)
        (resolve_decoded-Allows (services.values.decode s.template))

  notify-Allows :
      (o : Option SubmissionConfig) (task_id workflow_id : String)
      → Allows IsOwn AnyEntry Any (notify_external_service services o task_id workflow_id)
  unfolding notify_external_service
  notify-Allows none task_id workflow_id = return-Allows (err "submission config is missing") tt
  notify-Allows (some s) task_id workflow_id = resolve_input_data-Allows s then λ body _.
      if-Allows (code_of s == "") (return-Allows _ tt) (return-Allows _ tt)

  start_notified-Allows :
      (r : Result (Unit {0})) → Allows IsOwn AnyEntry Any (start_notified services r)
  unfolding start_notified
  start_notified-Allows (ok _) = transition-Allows "START" (ne_of_test _ _ refl) then λ moved _.
      (try-Allows moved then λ _ _. return-Allows empty_response tt)
  start_notified-Allows (err e) =
      transition-Allows "START_FAILED" (ne_of_test _ _ refl) then λ moved _.
      (try-Allows moved then λ _ _. return-Allows empty_response tt)
  start_notified-Allows panic = weaken (λ _ _. tt) (try-Allows panic)

  start_submission-Allows :
      (o : Option SubmissionConfig) → Allows IsOwn AnyEntry Any (start_submission services o)
  unfolding start_submission
  start_submission-Allows none = abort-Allows _
  start_submission-Allows (some s) = if-Allows (s.url == "") (abort-Allows _) (
      task_id-Allows then λ task_id _.
      (workflow_id-Allows then λ workflow_id _.
      (notify-Allows (some s) task_id workflow_id then λ notified _.
      start_notified-Allows notified)))

  start-Allows : (config : EventConfig) → Allows IsOwn AnyEntry Any (start services config)
  unfolding start
  start-Allows config = can_transition-Allows "START" then λ allowed _.
      if-Allows (not allowed) (return-Allows empty_response tt)
        (start_submission-Allows config.submission)

  retry_notified-Allows :
      (r : Result (Unit {0})) → Allows IsOwn AnyEntry Any (retry_notified services r)
  unfolding retry_notified
  retry_notified-Allows (ok _) = transition-Allows "RETRY" (ne_of_test _ _ refl) then λ moved _.
      (try-Allows moved then λ _ _. return-Allows _ tt)
  retry_notified-Allows (err e) = return-Allows _ tt
  retry_notified-Allows panic = weaken (λ _ _. tt) (try-Allows panic)

  retry-Allows :
      (config : EventConfig) (request : ExecutionRequest)
      → (request.action == "OGA_VERIFICATION") ≡ false
      → Allows IsOwn AnyEntry Any (execute services config request)
  unfolding execute
  retry-Allows config request other =
      if-Allows (request.action == "RETRY")
        (task_id-Allows then λ task_id _.
          (workflow_id-Allows then λ workflow_id _.
          (notify-Allows config.submission task_id workflow_id then λ notified _.
          retry_notified-Allows notified)))
        (rw other (abort-Allows _))

-- Only the call of the external service completes a task that waits for it: whatever the service
-- and the database answer, a task that is not completed and goes by the table is not completed
-- after `Start`, or after `Execute` of any request whose action is not that call.
pub wait_for_event-IsOpenTask :
    {S : Type 0} (services : Services) (config : EventConfig) (request : ExecutionRequest)
    (t : TaskTable S) (codec : Codec) (c : Container) (s : S)
    → request.action ≢ "OGA_VERIFICATION"
    → IsOpenTask wait_for_event_fsm c
    → IsOpenTask wait_for_event_fsm
        (run_plugin t codec (wait_for_event_task services config).start c s).0
      × IsOpenTask wait_for_event_fsm
          (run_plugin t codec ((wait_for_event_task services config).execute (some request)) c s).0
unfolding wait_for_event_task
wait_for_event-IsOpenTask services config request t codec c s ne h = (
  run_plugin-IsOpenTask t codec wait_for_event_fsm IsOwn wait_for_event_fsm-NeverCompletes _ c s
      (run-Performs (start services config) (start-Allows services config)) h,
  run_plugin-IsOpenTask t codec wait_for_event_fsm IsOwn wait_for_event_fsm-NeverCompletes _ c s
      (run-Performs (execute services config request)
        (retry-Allows services config request (test_of_ne _ _ ne)))
      h,
)
