-- ===== src/Task/Plugin/SimpleForm/Render.antt =====
-- `GetRenderInfo` of plugin/simple_form.go, with the form data that it shows.
use nsw.Prelude.{String, Option, none, some, ◌==◌, ◌||◌, if◌then◌else◌, Result, ok, err, panic}
use nsw.Json.{Value, Fields, end, object}
use nsw.Json.Path.{split_path, set_value_by_path}
use nsw.Json.Schema.{Schema, schema_read_from, traverse}
use nsw.Json.Merge.{merge_form_data}
use nsw.Workflow.Unlock.{is_blank}
use nsw.Task.Store.{Json}
use nsw.Task.Plugin.State.{TaskState}
use nsw.Task.Plugin.Config.{ResponseConfig, Services, lookup_keys}
use nsw.Task.Plugin.FormDisplay.{FormDisplay, display_form_id, attach_form_display}
use nsw.Task.Plugin.Api.{
  Call, ◌>>=◌, return, try, get_plugin_state, get_task_state, read_from_local_store,
}
use nsw.Task.Plugin.SimpleForm.{FormConfig, populate_from_registry}

-- the content of a `GetRenderInfoResponse`, with the two states
pub record FormInfo : Type 0 where
  pub plugin_state : String
  pub state : TaskState
  pub title : String
  pub ui_schema : Json
  pub schema : Json
  pub form_data : Option Json
  pub submission_response_form : Option FormDisplay
  pub oga_review_form : Option FormDisplay
  pub oga_feedback : Option Json

-- `s.config.FormData`; no data is nil
abbrev pub default_form_data : FormConfig → Option Json
default_form_data config = if config.form_data == "" then none else some config.form_data

abbrev pub or_default : FormConfig → Result (Option Json) → Option Json
or_default config (ok form_data) = form_data
or_default config _ = default_form_data config

module _ (services : Services) where
  -- `lookupValueFromGlobalStore`
  unfoldable pub lookup_value_from_global_store : String → Call (Option Value)
  unfolding lookup_keys
  lookup_value_from_global_store path =
      if path == "" then return none else lookup_keys services.values (split_path path)

  -- the callback of `prepopulateFormData` on a node of the schema
  unfoldable pub prepopulate_node : String → Schema → Fields → Call Fields
  unfolding schema_read_from is_blank lookup_value_from_global_store set_value_by_path
  prepopulate_node path node form_data = elim (schema_read_from node) [
    | none ↦ return form_data
    | some name ↦ if is_blank name then return form_data else do
      found ← lookup_value_from_global_store name
      return (elim found [ none ↦ form_data | some v ↦ set_value_by_path form_data path v ])
  ]

  -- the existing data of the form, if they are an object, before what the schema reads
  unfoldable pub with_existing : Json → Fields → Fields
  unfolding merge_form_data
  with_existing existing form_data =
      if existing == "" then form_data else elim (services.values.decode existing) [
        | ok v ↦ elim v [ object fs ↦ merge_form_data form_data fs | _ ↦ form_data ]
        | _ ↦ form_data
      ]

  -- what `prepopulateFormData` gives of the merged data
  unfoldable pub populated_json : FormConfig → Fields → Option Json
  populated_json config end = default_form_data config
  populated_json config fs = some (services.values.encode (object fs))

  -- `prepopulateFormData`
  unfoldable pub prepopulate_form_data : FormConfig → Call (Result (Option Json))
  unfolding prepopulate_node traverse with_existing populated_json
  prepopulate_form_data config = elim (services.schemas.decode config.schema) [
    | ok node ↦ do
      form_data ← (λ k. traverse prepopulate_node node end k)
      return (ok (populated_json config (with_existing config.form_data form_data)))
    | err e ↦ return (err "failed to unmarshal schema")
    | panic ↦ try panic
  ]

  -- `resolveFormData`
  unfoldable pub resolve_form_data : FormConfig → String → Call (Result (Option Json))
  unfolding prepopulate_form_data
  resolve_form_data config state =
      if state == "INITIALIZED"
      then prepopulate_form_data config
      else if state == "DRAFT"
          || state == "SUBMITTED"
          || state == "OGA_ACKNOWLEDGED"
          || state == "OGA_FEEDBACK_PROVIDED"
          || state == "OGA_REVIEWED"
          || state == "SUBMISSION_FAILED"
      then (do stored ← read_from_local_store "trader:form"; return (ok stored))
      else return (ok (default_form_data config))

  abbrev pub submission_response : FormConfig → Option ResponseConfig
  submission_response config = elim config.submission [ none ↦ none | some s ↦ s.response ]

  abbrev pub callback_response : FormConfig → Option ResponseConfig
  callback_response config = elim config.callback [ none ↦ none | some c ↦ c.response ]

  -- `GetRenderInfo`
  unfoldable pub get_render_info : FormConfig → Call FormInfo
  unfolding populate_from_registry resolve_form_data display_form_id attach_form_display
  get_render_info config = do
    populated ← try (populate_from_registry services config)
    plugin_state ← get_plugin_state
    resolved ← resolve_form_data populated plugin_state
    response_form ←
        attach_form_display services "submissionResponse"
          (display_form_id (submission_response populated))
    review_form ←
        attach_form_display services "ogaResponse" (display_form_id (callback_response populated))
    feedback ← read_from_local_store "ogaFeedback"
    state ← get_task_state
    return (record {
      plugin_state = plugin_state;
      state = state;
      title = populated.title;
      ui_schema = populated.ui_schema;
      schema = populated.schema;
      form_data = or_default populated resolved;
      submission_response_form = response_form;
      oga_review_form = review_form;
      oga_feedback = feedback;
    })
