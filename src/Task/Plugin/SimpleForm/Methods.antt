-- ===== src/Task/Plugin/SimpleForm/Methods.antt =====
-- `Start` and `Execute` of plugin/simple_form.go.
use Prim.Native.Char.{code}
use Prim.Native.String
use nsw.Prelude.{
  ℕ, ◌-◌, String, Bool, true, false, not, ◌&&◌, ◌||◌, none, some, List, [], ◌∷◌, leb, ◌==◌,
  if◌then◌else◌, Result, ok, err, panic,
}
use nsw.Json.{Fields, find_field, as_text}
use nsw.Task.Store.{Json}
use nsw.Task.Container.{ExecutionResponse, empty_response, PluginRun}
use nsw.Task.Container
use nsw.Task.Factory.{ExecutionRequest, Plugin}
use nsw.Task.Plugin.Rules.{resolve_transition}
use nsw.Task.Plugin.Config.{Services, parse_form_data}
use nsw.Task.Plugin.Api.{
  Call, ◌>>=◌, ◌>>◌, return, abort, try, require, can_transition, transition, run, show,
}
use nsw.Task.Plugin.SimpleForm.{
  FormConfig, Handled, done, not_submitted, requires_verification, populate_from_registry,
}
use nsw.Task.Plugin.SimpleForm.Render.{get_render_info}
use nsw.Task.Plugin.SimpleForm.Submit.{draft_handler, submit_handler}
use nsw.Task.Plugin.SimpleForm.Review.{
  oga_approved_handler, oga_rejected_handler, oga_feedback_handler,
}

-- `strings.ToUpper`, for which no other letter becomes one of A to Z that occurs in "APPROVED"
unfoldable pub to_upper : String → List ℕ
to_upper String.[] = []
to_upper (String.◌∷◌ c s) =
    (if leb b'a' (code c) && leb (code c) b'z' then code c - 32 else code c) ∷ to_upper s

abbrev pub same_codes : List ℕ → String → Bool
same_codes [] String.[] = true
same_codes (n ∷ ns) (String.◌∷◌ c s) = leb n (code c) && leb (code c) n && same_codes ns s
same_codes _ _ = false

-- `decision, _ := data["decision"].(string)`, compared with "APPROVED"
unfoldable pub is_approval : Fields → Bool
unfolding to_upper find_field as_text
is_approval fs = elim (find_field "decision" fs) [
  | none ↦ false
  | some v ↦ elim (as_text v) [ none ↦ false | some s ↦ same_codes (to_upper s) "APPROVED" ]
]

-- the action that verification data stand for
unfoldable pub verification_action : FormConfig → Fields → Result String
unfolding is_approval resolve_transition
verification_action config fs =
    let decided =
      if is_approval fs then ok "OGA_VERIFICATION_APPROVED" else ok "OGA_VERIFICATION_REJECTED" in
    elim config.callback [
      | none ↦ decided
      | some callback ↦ elim callback.transition [
        | none ↦ decided
        | some t ↦ resolve_transition t fs
      ]
    ]

module _ (services : Services) where
  -- `resolveAction`
  unfoldable pub resolve_action : FormConfig → ExecutionRequest → Result String
  unfolding requires_verification verification_action parse_form_data
  resolve_action config request =
      if request.action == "SUBMIT_FORM"
      then if requires_verification config
        then ok "SUBMIT_FORM_AWAIT_OGA"
        else ok "SUBMIT_FORM_COMPLETE"
      else if request.action == "OGA_VERIFICATION"
      then elim (parse_form_data services.values request.content) [
        | ok fs ↦ verification_action config fs
        | err e ↦ err (String.◌++◌ "invalid verification data: " e)
        | panic ↦ panic
      ]
      else ok request.action

  -- `dispatch`
  unfoldable pub dispatch : FormConfig → String → Json → Call Handled
  unfolding draft_handler submit_handler oga_approved_handler oga_rejected_handler
      oga_feedback_handler
  dispatch config action content =
      if action == "SAVE_AS_DRAFT"
      then draft_handler services content
      else if action == "SUBMIT_FORM_COMPLETE" || action == "SUBMIT_FORM_AWAIT_OGA"
      then submit_handler services config content
      else if action == "OGA_VERIFICATION_APPROVED"
      then oga_approved_handler services config content
      else if action == "OGA_VERIFICATION_REJECTED"
      then oga_rejected_handler services config content
      else if action == "OGA_VERIFICATION_FEEDBACK"
      then oga_feedback_handler services content
      else abort "unhandled FSM action"

  -- the rest of `Execute` on what the handler returned
  unfoldable pub conclude : String → Handled → Call ExecutionResponse
  conclude action (done response) = do moved ← transition action; try moved; return response
  conclude action (not_submitted e) = do _ ← transition "SUBMIT_FORM_FAILED"; abort e

  -- `Execute`
  unfoldable pub execute : FormConfig → ExecutionRequest → Call ExecutionResponse
  unfolding resolve_action dispatch conclude
  execute config request = do
    action ← try (resolve_action config request)
    allowed ← can_transition action
    require allowed "fsm: action not permitted in state"
    handled ← dispatch config action request.content
    conclude action handled

  -- `Start`
  unfoldable pub start : FormConfig → Call ExecutionResponse
  unfolding populate_from_registry
  start config = do
    allowed ← can_transition "START"
    if not allowed then return empty_response else do
      (if not (config.form_id == "") && config.schema == ""
          then try (populate_from_registry services config)
          else return config)
      moved ← transition "START"
      try moved
      return empty_response

  -- the plugin that `NewSimpleForm` makes; a request that is nil is read through
  unfoldable pub simple_form : FormConfig → Plugin
  unfolding start execute get_render_info
  simple_form config = record {
    start = run (start config);
    render = show (get_render_info services config);
    execute = λ request. elim request [ none ↦ Container.crash | some r ↦ run (execute config r) ];
  }
