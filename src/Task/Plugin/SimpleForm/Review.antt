-- ===== src/Task/Plugin/SimpleForm/Review.antt =====
-- The handlers of reviews, `ogaApprovedHandler`, `ogaRejectedHandler` and `ogaFeedbackHandler` of
-- plugin/simple_form.go.
use nsw.Prelude.{
  ◌+◌, String, Bool, false, not, Option, none, some, List, [], ◌∷◌, ◌++◌, is_some, length,
  if◌then◌else◌, ok,
}
use nsw.Json.{Fields, end, text, object, find_field, set_field, as_text}
use nsw.Workflow.Unlock.{is_blank}
use nsw.Task.Store.{Json}
use nsw.Task.Container.{ExecutionResponse}
use nsw.Task.Plugin.Config.{
  ResponseConfig, FeedbackEntry, Services, merge_fields, outputs_of, parse_form_data,
}
use nsw.Task.Plugin.Api.{
  Call, ◌>>=◌, ◌>>◌, return, try, require, write_to_local_store, succeeded, failed_with, answered,
}
use nsw.Task.Plugin.SimpleForm.{
  FormConfig, Handled, done, outcome_key, encode, mapped_fields, evaluate_emissions,
  read_feedback_history,
}

module _ (services : Services) where
  abbrev callback_response : FormConfig → Option ResponseConfig
  callback_response config = elim config.callback [ none ↦ none | some c ↦ c.response ]

  -- `parseAndStoreOgaResponse`
  unfoldable pub parse_and_store_oga_response : Json → Call Fields
  unfolding parse_form_data
  parse_and_store_oga_response content = do
    review ← try (parse_form_data services.values content)
    stored ← write_to_local_store "ogaResponse" (encode services (object review))
    try stored
    return review

  abbrev with_outcome : Option String → Fields → Fields
  with_outcome none pairs = pairs
  with_outcome (some outcome) pairs = set_field outcome_key (text outcome) pairs

  -- what `ogaApprovedHandler` answers, with the emitted outcome
  unfoldable pub approval : Fields → Option String → ExecutionResponse
  unfolding outputs_of find_field set_field
  approval pairs emission =
      if is_some (find_field outcome_key pairs)
      then answered (outputs_of services.values pairs) (failed_with "EMITTED_OUTCOME_COLLISION")
      else record (answered (outputs_of services.values (with_outcome emission pairs)) succeeded) {
        emitted_outcome = emission;
      }

  -- `ogaApprovedHandler`
  unfoldable pub oga_approved_handler : FormConfig → Json → Call Handled
  unfolding parse_and_store_oga_response mapped_fields evaluate_emissions approval merge_fields
  oga_approved_handler config content = do
    review ← parse_and_store_oga_response content
    emission ← evaluate_emissions services config
    return (
        done
          (approval (merge_fields end (mapped_fields (callback_response config) review)) emission))

  -- what `ogaRejectedHandler` answers
  unfoldable pub rejection : Option String → ExecutionResponse
  unfolding outputs_of set_field
  rejection none = answered [] succeeded
  rejection (some outcome) =
      answered (outputs_of services.values (with_outcome (some outcome) end)) succeeded

  -- `ogaRejectedHandler`
  unfoldable pub oga_rejected_handler : FormConfig → Json → Call Handled
  unfolding parse_and_store_oga_response evaluate_emissions rejection
  oga_rejected_handler config content = do
    review ← parse_and_store_oga_response content
    emission ← evaluate_emissions services config
    return (done (rejection emission))

  -- the history with one more round
  unfoldable pub append_feedback : List FeedbackEntry → Fields → List FeedbackEntry
  append_feedback history content =
      history
      ++ record { content = content; timestamp = services.now; round = length history + 1 } ∷ []

  -- `feedback, _ := data["feedback"].(string)`, trimmed
  unfoldable pub has_feedback : Fields → Bool
  unfolding find_field as_text is_blank
  has_feedback fs = elim (find_field "feedback" fs) [
    | none ↦ false
    | some v ↦ elim (as_text v) [ none ↦ false | some s ↦ not (is_blank s) ]
  ]

  -- `ogaFeedbackHandler`; a history that cannot be read starts afresh
  unfoldable pub oga_feedback_handler : Json → Call Handled
  unfolding parse_form_data has_feedback read_feedback_history append_feedback
  oga_feedback_handler content = do
    remarks ← try (parse_form_data services.values content)
    require (has_feedback remarks) "feedback field is required and must not be empty"
    history ← read_feedback_history services
    let known : List FeedbackEntry = elim history [ ok entries ↦ entries | _ ↦ [] ]
    stored ←
        write_to_local_store "ogaFeedback"
          (services.feedback.encode (append_feedback known remarks))
    try stored
    return (done (answered [] succeeded))
