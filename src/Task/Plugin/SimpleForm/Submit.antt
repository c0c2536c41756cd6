-- ===== src/Task/Plugin/SimpleForm/Submit.antt =====
-- `draftHandler` and `submitHandler` of plugin/simple_form.go.
use Prim.Native.Char.{code}
use nsw.Prelude.{
  String, not, ◌||◌, Option, none, some, [], ◌==◌, if◌then◌else◌, Result, ok, err, panic,
}
use nsw.Json.{Fields, end, object, set_field}
use nsw.Json.Path.{get_value_by_path}
use nsw.Json.Schema.{Schema, schema_type, schema_write_to, traverse}
use nsw.Workflow.Unlock.{is_blank}
use nsw.Task.Store.{Json}
use nsw.Task.Plugin.Config.{
  ResponseConfig, Services, tasks_url, merge_fields, outputs_of, parse_form_data,
}
use nsw.Task.Plugin.Api.{
  Call, ◌>>=◌, ◌>>◌, return, try, require, get_task_id, get_workflow_id, write_to_local_store,
  succeeded, answered,
}
use nsw.Task.Plugin.SimpleForm.{
  FormConfig, Handled, done, not_submitted, submission_url, encode, mapped_fields,
  populate_from_registry, read_feedback_history,
}

-- the callback of `submitHandler` on a node of the schema: `pairs` are the global context
unfoldable pub collect_node :
    Fields → String → Schema → Fields → (Fields → Result Fields) → Result Fields
unfolding schema_type schema_write_to is_blank set_field
collect_node form_data path node pairs next =
    let is_primitive =
      schema_type node == "string"
      || schema_type node == "number"
      || schema_type node == "boolean" in
    elim (schema_write_to node) [
      | none ↦ next pairs
      | some name ↦
          if not is_primitive || is_blank name
          then next pairs
          else elim (get_value_by_path form_data path) [
            | none ↦ err "value for global context path not found in submitted form data"
            | some v ↦ next (set_field name v pairs)
          ]
    ]

unfoldable pub collect_pairs : Schema → Fields → Result Fields
unfolding collect_node traverse
collect_pairs node form_data = traverse (collect_node form_data) node end (λ pairs. ok pairs)

module _ (services : Services) where
  -- `draftHandler`
  unfoldable pub draft_handler : Json → Call Handled
  draft_handler content = do
    saved ← write_to_local_store "trader:form" content
    try saved
    return (done (answered [] succeeded))

  abbrev response_config : FormConfig → Option ResponseConfig
  response_config config = elim config.submission [ none ↦ none | some s ↦ s.response ]

  abbrev pub task_code : FormConfig → String
  task_code config = elim config.submission [
    | none ↦ ""
    | some s ↦ elim s.task_code [ none ↦ "" | some code ↦ code ]
  ]

  abbrev pub service_id : FormConfig → String
  service_id config = elim config.submission [ none ↦ "" | some s ↦ s.service_id ]

  -- the answer of the service
  unfoldable pub service_answered : FormConfig → Fields → Result Fields → Call Handled
  unfolding mapped_fields merge_fields outputs_of
  service_answered config pairs (err e) = return (not_submitted e)
  service_answered config pairs panic = try panic
  service_answered config pairs (ok response) = do
    _ ← write_to_local_store "submissionResponse" (encode services (object response))
    return (
        done (
          answered
            (outputs_of services.values
              (merge_fields pairs (mapped_fields (response_config config) response)))
            succeeded))

  -- the part of `submitHandler` that calls the external service
  unfoldable pub submit_to_service : FormConfig → Fields → Fields → Call Handled
  unfolding service_answered read_feedback_history tasks_url submission_url
  submit_to_service config form_data pairs = do
    task_id ← get_task_id
    workflow_id ← get_workflow_id
    require (not (task_code config == ""))
        "taskCode is required in submission request configuration"
    history ← read_feedback_history services
    service_answered config pairs (
        services.call (service_id config) (submission_url config) (record {
          task_code = task_code config;
          task_id = task_id;
          workflow_id = workflow_id;
          service_url = tasks_url services.server_url;
          body = object form_data;
          feedback_history = elim history [ ok entries ↦ entries | _ ↦ [] ];
        }))

  -- `submitHandler`
  unfoldable pub submit_handler : FormConfig → Json → Call Handled
  unfolding populate_from_registry collect_pairs submission_url submit_to_service outputs_of
      parse_form_data
  submit_handler config content = do
    form_data ← try (parse_form_data services.values content)
    _ ← write_to_local_store "trader:form" (encode services (object form_data))
    populated ← try (populate_from_registry services config)
    node ← try (services.schemas.decode populated.schema)
    pairs ← try (collect_pairs node form_data)
    if submission_url populated == ""
        then return (done (answered (outputs_of services.values pairs) succeeded))
        else submit_to_service populated form_data pairs
