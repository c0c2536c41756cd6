-- ===== src/Task/Plugin/WaitForEvent.antt =====
-- plugin/wait_for_event.go: the plugin that notifies an external service and waits for its call.
pub mod Display
pub mod Render
pub mod Completion
use Prim.Native.String
use nsw.Prelude.{
  String, not, ◌||◌, Option, none, some, List, [], ◌∷◌, Map, is_some, is_empty, ◌==◌, if◌then◌else◌,
  Result, ok, err, panic,
}
use nsw.Json.{Value, Fields, null, end, object, as_object}
use nsw.Json.Template.{resolve_template}
use nsw.Task.Store.{Json}
use nsw.Task.Container.{ExecutionResponse, empty_response}
use nsw.Task.Factory.{ExecutionRequest}
use nsw.Task.Plugin.Config.{
  ResponseConfig, SubmissionConfig, ServiceRequest, Services, tasks_url, parse_response_data,
  outputs_of, parse_form_data, lookup_keys,
}
use nsw.Task.Plugin.Api.{
  Call, ◌>>=◌, ◌>>◌, return, abort, try, get_task_id, get_workflow_id, write_to_local_store,
  can_transition, transition, succeeded, failed_with, answered,
}

-- `WaitForEventConfig`, with the two fields of its `Display`, which are any values
pub record EventConfig : Type 0 where
  pub display : Option (Value × Value)
  pub submission : Option SubmissionConfig

-- the request's task code, empty where there is none
abbrev pub code_of : SubmissionConfig → String
code_of s = elim s.task_code [ none ↦ "" | some code ↦ code ]

-- the configured mapping of the answer, if there is one
abbrev pub mapping_of : EventConfig → Option (Map String)
mapping_of config = elim config.submission [
  | none ↦ none
  | some s ↦ elim s.response [ none ↦ none | some r ↦ r.mapping ]
]

module _ (services : Services) where
  -- `lookupValueFromGlobalStore`: the path is one key
  unfoldable pub lookup_value : String → Call (Option Value)
  unfolding lookup_keys
  lookup_value key = if key == "" then return none else lookup_keys services.values (key ∷ [])

  unfoldable pub resolve_decoded : Result Value → Call Value
  unfolding lookup_value resolve_template
  resolve_decoded (ok template) k = resolve_template lookup_value template k
  resolve_decoded (err e) k = return null k
  resolve_decoded panic k = try panic k

  -- `resolveInputData` of a submission; a template that cannot be read gives nil
  unfoldable pub resolve_input_data : SubmissionConfig → Call Value
  unfolding resolve_decoded
  resolve_input_data s =
      if not (is_some s.task_code) || s.template == ""
      then return null
      else resolve_decoded (services.values.decode s.template)

  abbrev pub without_answer : Result Fields → Result (Unit {0})
  without_answer (ok response) = ok tt
  without_answer (err e) = err e
  without_answer panic = panic

  -- `notifyExternalService`
  unfoldable pub notify_external_service :
      Option SubmissionConfig → String → String → Call (Result (Unit {0}))
  unfolding resolve_input_data tasks_url
  notify_external_service none task_id workflow_id = return (err "submission config is missing")
  notify_external_service (some s) task_id workflow_id = do
    body ← resolve_input_data s
    if code_of s == ""
        then return (err "taskCode is required for external service submission")
        else return (
            without_answer (
              services.call s.service_id s.url (record {
                task_code = code_of s;
                task_id = task_id;
                workflow_id = workflow_id;
                service_url = tasks_url services.server_url;
                body = body;
                feedback_history = [];
              })))

  -- `Start`, after the service was notified
  unfoldable pub start_notified : Result (Unit {0}) → Call ExecutionResponse
  start_notified (ok _) = do moved ← transition "START"; try moved; return empty_response
  start_notified (err e) = do moved ← transition "START_FAILED"; try moved; return empty_response
  start_notified panic = try panic

  -- `Start`, if it is permitted
  unfoldable pub start_submission : Option SubmissionConfig → Call ExecutionResponse
  unfolding notify_external_service start_notified
  start_submission none = abort "submission url not configured in task config"
  start_submission (some s) =
      if s.url == "" then abort "submission url not configured in task config" else do
        task_id ← get_task_id
        workflow_id ← get_workflow_id
        notified ← notify_external_service (some s) task_id workflow_id
        start_notified notified

  -- `Start`
  unfoldable pub start : EventConfig → Call ExecutionResponse
  unfolding start_submission
  start config = do
    allowed ← can_transition "START"
    if not allowed then return empty_response else start_submission config.submission

  -- `Execute` of a retry, after the service was notified
  unfoldable pub retry_notified : Result (Unit {0}) → Call ExecutionResponse
  retry_notified (ok _) = do moved ← transition "RETRY"; try moved; return (answered [] succeeded)
  retry_notified (err e) = return (answered [] (failed_with "EXTERNAL_SERVICE_NOTIFICATION_FAILED"))
  retry_notified panic = try panic

  -- `parseResponseData`, without its warning; content that is no object gives nothing
  unfoldable pub event_outputs : EventConfig → Json → Result (Map Json)
  unfolding parse_form_data parse_response_data outputs_of
  event_outputs config content = elim (mapping_of config) [
    | none ↦ ok []
    | some mapping ↦
        if is_empty mapping then ok [] else elim (parse_form_data services.values content) [
          | ok fs ↦ ok (outputs_of services.values (parse_response_data mapping fs end))
          | err e ↦ ok []
          | panic ↦ panic
        ]
  ]

  -- `Execute`
  unfoldable pub execute : EventConfig → ExecutionRequest → Call ExecutionResponse
  unfolding notify_external_service retry_notified event_outputs
  execute config request =
      if request.action == "RETRY"
      then (do
        task_id ← get_task_id
        workflow_id ← get_workflow_id
        notified ← notify_external_service config.submission task_id workflow_id
        retry_notified notified)
      else if request.action == "OGA_VERIFICATION"
      then (do
        _ ← write_to_local_store "eventResponse" request.content
        outputs ← try (event_outputs config request.content)
        moved ← transition "OGA_VERIFICATION"
        try moved
        return (answered outputs succeeded))
      else abort "unsupported action for WaitForEventTask"
