-- ===== src/Task/Plugin/SimpleForm.antt =====
-- plugin/simple_form.go: the plugin of forms. Its configuration, and what its handlers share. A
-- handler that returns an error ends the method, except where the external service refuses a
-- submission.
pub mod Submit
pub mod Review
pub mod Methods
pub mod Render
pub mod Calls
pub mod Verification
pub mod Feedback
use Prim.Native.Char.{Char, code}
use Prim.Native.String
use nsw.Prelude.{
  ℕ, suc, ◌+◌, ◌-◌, String, Bool, true, false, not, ◌&&◌, ◌||◌, Option, none, some, List, [], ◌∷◌,
  ◌++◌, Map, is_some, is_empty, length, leb, ◌==◌, if◌then◌else◌, Result, ok, err, panic,
}
use nsw.Json.{Value, Fields, end, text, object, find_field, set_field, as_text, Coding}
use nsw.Json.Path.{get_value_by_path}
use nsw.Json.Schema.{Schema, schema_type, schema_write_to, traverse}
use nsw.Workflow.Unlock.{is_blank}
use nsw.Task.Store.{Json}
use nsw.Task.Container.{ExecutionResponse, empty_response, PluginRun}
use nsw.Task.Container
use nsw.Task.Factory.{ExecutionRequest, Plugin}
use nsw.Task.Plugin.Rules.{EmissionConfig, evaluate_emission, resolve_transition}
use nsw.Task.Plugin.Config.{
  ResponseConfig, SubmissionConfig, CallbackConfig, FormDefinition, FeedbackEntry, ServiceRequest,
  Services, tasks_url, parse_response_data, merge_fields, outputs_of, value_of, parse_form_data,
  read_value,
}
use nsw.Task.Plugin.Api.{
  Call, ◌>>=◌, ◌>>◌, return, abort, try, require, get_plugin_state, get_task_id, get_workflow_id,
  read_from_local_store, write_to_local_store, can_transition, transition, run, succeeded,
  failed_with, answered,
}

-- `Config`; a schema that is nil is empty
pub record FormConfig : Type 0 where
  pub form_id : String
  pub title : String
  pub schema : Json
  pub ui_schema : Json
  pub form_data : Json
  pub submission_url : String
  pub submission : Option SubmissionConfig
  pub callback : Option CallbackConfig
  pub emission : Option EmissionConfig
  pub requires_oga_verification : Bool

-- What a handler returns, if not an error: `not_submitted` stands for `submissionFailedErr`.
pub data Handled : Type 0 where
  done : ExecutionResponse → Handled
  not_submitted : String → Handled

-- `OutcomeEmitKeySimpleForm`
abbrev pub outcome_key : String
outcome_key = "outcome_simple_form"

-- `requiresVerification`
unfoldable pub requires_verification : FormConfig → Bool
requires_verification config = config.requires_oga_verification || is_some config.callback

-- `submissionUrl`
unfoldable pub submission_url : FormConfig → String
submission_url config = elim config.submission [
  | none ↦ config.submission_url
  | some s ↦ if s.url == "" then config.submission_url else s.url
]

-- the fields of the answer of a service that are mapped to the global context
unfoldable pub mapped_fields : Option ResponseConfig → Fields → Fields
unfolding parse_response_data
mapped_fields none response = end
mapped_fields (some config) response = elim config.mapping [
  | none ↦ end
  | some mapping ↦ parse_response_data mapping response end
]

-- the keys that `buildLocalContext` reads
abbrev pub add_value : String → Option Value → Fields → Fields
add_value key none fs = fs
add_value key (some v) fs = set_field key v fs

module _ (services : Services) where
  abbrev pub encode : Value → Json
  encode = services.values.encode

  -- `populateFromRegistry`
  unfoldable pub populate_from_registry : FormConfig → Result FormConfig
  populate_from_registry config = elim services.get_form [
    | none ↦ err "form service is required to populate form definition"
    | some get_form ↦ elim (get_form config.form_id) [
      | err e ↦ err (String.◌++◌ "failed to get form definition: " e)
      | panic ↦ panic
      | ok def ↦
          ok (record config { title = def.name; schema = def.schema; ui_schema = def.ui_schema })
    ]
  ]

  -- `buildLocalContext`
  unfoldable pub build_local_context : Call Fields
  unfolding read_value set_field
  build_local_context = do
    form ← read_value services.values "trader:form"
    response ← read_value services.values "submissionResponse"
    review ← read_value services.values "ogaResponse"
    return (
        add_value "ogaResponse" review
          (add_value "submissionResponse" response (add_value "trader:form" form end)))

  unfoldable pub emitted_by : Option EmissionConfig → Call (Option String)
  unfolding build_local_context evaluate_emission
  emitted_by none = return none
  emitted_by (some rules) = do
    context ← build_local_context
    return (evaluate_emission rules context)

  -- `evaluateEmissions`
  unfoldable pub evaluate_emissions : FormConfig → Call (Option String)
  unfolding emitted_by
  evaluate_emissions config = emitted_by config.emission

  -- `readOGAFeedbackHistory`; no history is nil
  unfoldable pub read_feedback_history : Call (Result (List FeedbackEntry))
  read_feedback_history = do
    stored ← read_from_local_store "ogaFeedback"
    return (elim stored [ none ↦ ok [] | some json ↦ services.feedback.decode json ])
