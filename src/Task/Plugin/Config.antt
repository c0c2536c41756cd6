-- ===== src/Task/Plugin/Config.antt =====
-- The configurations that the plugins share, and the parts of the program that they call: the
-- form registry, external services and `encoding/json`: plugin/simple_form.go.
use Prim.Native.Char.{code}
use Prim.Native.String
use nsw.Prelude.{
  ℕ, String, ◌&&◌, Option, none, some, List, [], ◌∷◌, Map, ◌==ℕ◌, ◌==◌, if◌then◌else◌, Result, ok,
  err, panic,
}
use nsw.Json.{Value, Fields, end, field, null, object, set_field, find_field, as_object, Coding}
use nsw.Json.Schema.{Schema}
use nsw.Json.Path.{get_value_by_path}
use nsw.Task.Plugin.Rules.{TransitionConfig}
use nsw.Task.Store.{Json}
use nsw.Task.Plugin.Api.{Call, ◌>>=◌, return, read_from_local_store, read_from_global_store}

-- `Response`, with the form of its `Display`
pub record ResponseConfig : Type 0 where
  pub mapping : Option (Map String)
  pub display_form_id : Option String

-- `SubmissionConfig`, with the two fields of its `Request`; a missing template is empty
pub record SubmissionConfig : Type 0 where
  pub service_id : String
  pub url : String
  pub task_code : Option String
  pub template : Json
  pub response : Option ResponseConfig

pub record CallbackConfig : Type 0 where
  pub transition : Option TransitionConfig
  pub response : Option ResponseConfig

-- what the registry has of a form
pub record FormDefinition : Type 0 where
  pub name : String
  pub schema : Json
  pub ui_schema : Json

-- `OGAFeedbackEntry`
pub record FeedbackEntry : Type 0 where
  pub content : Fields
  pub timestamp : String
  pub round : ℕ

-- `SimpleFormExternalServiceRequest`, and `WaitForEventExternalServiceRequest` without a history
pub record ServiceRequest : Type 0 where
  pub task_code : String
  pub task_id : String
  pub workflow_id : String
  pub service_url : String
  pub body : Value
  pub feedback_history : List FeedbackEntry

pub record Services : Type 0 where
  -- `FormService.GetFormByID`, if there is a form service
  pub get_form : Option (String → Result FormDefinition)
  -- `remote.Manager.Call` with the service's ID and the path
  pub call : String → String → ServiceRequest → Result Fields
  -- `cfg.Server.ServiceURL`
  pub server_url : String
  -- `time.Now()`
  pub now : String
  pub values : Coding Value
  pub schemas : Coding Schema
  pub feedback : Coding (List FeedbackEntry)

-- `strings.TrimRight(s, "/")`
unfoldable pub trim_slashes : String → String
trim_slashes String.[] = ""
trim_slashes (String.◌∷◌ c s) =
    let rest = trim_slashes s in if code c ==ℕ b'/' && rest == "" then "" else String.◌∷◌ c rest

-- `ServiceURL` of a request
unfoldable pub tasks_url : String → String
unfolding trim_slashes
tasks_url server_url = String.◌++◌ (trim_slashes server_url) "/api/v1/tasks"

-- `parseResponseData` without its warning: the fields that are found, under their new names
unfoldable pub parse_response_data : Map String → Fields → Fields → Fields
unfolding set_field
parse_response_data [] response parsed = parsed
parse_response_data ((path, name) ∷ mapping) response parsed =
    parse_response_data mapping response
      (elim (get_value_by_path response path) [ none ↦ parsed | some v ↦ set_field name v parsed ])

-- `for k, v := range parsed { pairs[k] = v }`
unfoldable pub merge_fields : Fields → Fields → Fields
unfolding set_field
merge_fields pairs end = pairs
merge_fields pairs (field key v rest) = merge_fields (set_field key v pairs) rest

-- `currentMap[keys[i]]` for the keys that are left
unfoldable pub walk_keys : Value → List String → Option Value
unfolding find_field as_object
walk_keys v [] = some v
walk_keys v (key ∷ keys) = elim (as_object v) [
  | none ↦ none
  | some fs ↦ elim (find_field key fs) [ none ↦ none | some w ↦ walk_keys w keys ]
]

-- nil counts as no value
abbrev pub present : Option Value → Option Value
present none = none
present (some null) = none
present (some v) = some v

module _ (values : Coding Value) where
  -- `Outputs`, as the container passes them on
  unfoldable pub outputs_of : Fields → Map Json
  outputs_of end = []
  outputs_of (field key v rest) = (key, values.encode v) ∷ outputs_of rest

  -- the value under a text; nil is none
  unfoldable pub value_of : Option Json → Option Value
  value_of none = none
  value_of (some json) = elim (values.decode json) [
    | ok v ↦ elim v [ null ↦ none | w ↦ some w ]
    | err e ↦ none
    | panic ↦ none
  ]

  -- `parseFormData`
  unfoldable pub parse_form_data : Json → Result Fields
  parse_form_data content = elim (values.decode content) [
    | ok v ↦ elim v [
      | null ↦ err "content is required"
      | object fs ↦ ok fs
      | _ ↦ err "failed to unmarshal content"
    ]
    | err e ↦ err "failed to unmarshal content"
    | panic ↦ panic
  ]

  -- what the keys of a path lead to in the global context
  unfoldable pub lookup_keys : List String → Call (Option Value)
  unfolding value_of walk_keys
  lookup_keys [] = return none
  lookup_keys (key ∷ keys) = do
    stored ← read_from_global_store key
    return (elim (value_of stored) [ none ↦ none | some v ↦ present (walk_keys v keys) ])

  unfoldable pub read_value : String → Call (Option Value)
  unfolding value_of
  read_value key = do stored ← read_from_local_store key; return (value_of stored)
