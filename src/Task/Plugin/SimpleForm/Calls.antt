-- ===== src/Task/Plugin/SimpleForm/Calls.antt =====
-- What the methods of the plugin of forms perform, and what they store: plugin/simple_form.go.
use nsw.Prelude.{
  String, Option, none, some, [], List, ok-inj, ne_of_test, Result, ok, err, panic, ◌≢◌, ◌==◌,
  if◌then◌else◌, ◌≡◌, refl,
}
use nsw.Json.{Fields, end, object}
use nsw.Task.Store.{Json}
use nsw.Task.Container.Performs.{Held}
use nsw.Task.Factory.{ExecutionRequest}
use nsw.Task.Plugin.Api.{answered, succeeded}
use nsw.Task.Plugin.Rules.{EmissionConfig, evaluate_emission}
use nsw.Task.Plugin.Api.Allows.{
  Allows, Any, weaken, ◌then◌, return-Allows, abort-Allows, try-Allows, if-Allows, require-Allows,
  read-Allows, write-Allows, task_id-Allows, workflow_id-Allows, can_transition-Allows,
  transition-Allows,
}
use nsw.Task.Plugin.Config.{
  FeedbackEntry, Services, parse_form_data, read_value, tasks_url, outputs_of,
}
use nsw.Task.Plugin.SimpleForm.{
  add_value, encode, FormConfig, Handled, done, not_submitted, submission_url,
  populate_from_registry, build_local_context, emitted_by, evaluate_emissions,
  read_feedback_history,
}
use nsw.Task.Plugin.SimpleForm.Submit.{
  collect_pairs, draft_handler, service_answered, submit_to_service, submit_handler, service_id,
  task_code,
}
use nsw.Task.Plugin.SimpleForm.Review.{
  parse_and_store_oga_response, oga_approved_handler, oga_rejected_handler, oga_feedback_handler,
  has_feedback, append_feedback,
}
use nsw.Task.Plugin.SimpleForm.Methods.{resolve_action, dispatch, conclude, execute}

-- The stored feedback is such that `N` holds of the history, and no other entry matters to `J`.
pub record KeepsHistory (services : Services) (J : String → Json → Type 0)
    (N : List FeedbackEntry → Type 0) : Type 0 where
  pub free : (key : String) (value : Json) → key ≢ "ogaFeedback" → J key value
  pub starts : N []
  pub reads :
      (value : Json) (history : List FeedbackEntry)
      → J "ogaFeedback" value
      → services.feedback.decode value ≡ ok history
      → N history
  pub writes :
      (history : List FeedbackEntry) (remarks : Fields)
      → N history
      → J "ogaFeedback" (services.feedback.encode (append_feedback services history remarks))

module _ (services : Services) (P : String → Type 0) (J : String → Json → Type 0)
    (N : List FeedbackEntry → Type 0) (kept : KeepsHistory services J N) where
  read_value-Allows : (key : String) → Allows P J Any (read_value services.values key)
  unfolding read_value
  read_value-Allows key = read-Allows key then λ _ _. return-Allows _ tt

  build_local_context-Allows : Allows P J Any (build_local_context services)
  unfolding build_local_context
  build_local_context-Allows = read_value-Allows "trader:form" then λ form _.
      (read_value-Allows "submissionResponse" then λ response _.
      (read_value-Allows "ogaResponse" then λ review _.
      return-Allows
        (add_value "ogaResponse" review
          (add_value "submissionResponse" response (add_value "trader:form" form end)))
        tt))

  emitted_by-Allows : (rules : Option EmissionConfig) → Allows P J Any (emitted_by services rules)
  unfolding emitted_by
  emitted_by-Allows none = return-Allows none tt
  emitted_by-Allows (some rules) = build_local_context-Allows then λ context _.
      return-Allows (evaluate_emission rules context) tt

  evaluate_emissions-Allows :
      (config : FormConfig) → Allows P J Any (evaluate_emissions services config)
  unfolding evaluate_emissions
  evaluate_emissions-Allows config = emitted_by-Allows config.emission

  -- A history that is read is one of `N`.
  abbrev IsRead : Result (List FeedbackEntry) → Type 0
  IsRead r = (history : List FeedbackEntry) → r ≡ ok history → N history

  stored-IsRead :
      (stored : Option Json)
      → Held J "ogaFeedback" stored
      → IsRead (elim stored [ none ↦ ok [] | some json ↦ services.feedback.decode json ])
  stored-IsRead none held history h = rw (← ok-inj h) kept.starts
  stored-IsRead (some json) held history h = kept.reads json history held h

  read_feedback_history-Allows : Allows P J IsRead (read_feedback_history services)
  unfolding read_feedback_history
  read_feedback_history-Allows = read-Allows "ogaFeedback" then λ stored held.
      return-Allows (elim stored [ none ↦ ok [] | some json ↦ services.feedback.decode json ])
        (stored-IsRead stored held)

  draft_handler-Allows : (content : Json) → Allows P J Any (draft_handler services content)
  unfolding draft_handler
  draft_handler-Allows content =
      write-Allows _ _ (kept.free _ _ (ne_of_test _ _ refl)) then λ saved _.
      (try-Allows saved then λ _ _. return-Allows _ tt)

  service_answered-Allows :
      (config : FormConfig) (pairs : Fields) (r : Result Fields)
      → Allows P J Any (service_answered services config pairs r)
  unfolding service_answered
  service_answered-Allows config pairs (ok response) =
      write-Allows "submissionResponse" (encode services (object response))
        (kept.free _ _ (ne_of_test _ _ refl))
      then λ _ _. return-Allows _ tt
  service_answered-Allows config pairs (err e) = return-Allows _ tt
  service_answered-Allows config pairs panic = weaken (λ _ _. tt) (try-Allows panic)

  submit_to_service-Allows :
      (config : FormConfig) (form_data pairs : Fields)
      → Allows P J Any (submit_to_service services config form_data pairs)
  unfolding submit_to_service
  submit_to_service-Allows config form_data pairs = task_id-Allows then λ task_id _.
      (workflow_id-Allows then λ workflow_id _.
      (require-Allows _ _ then λ _ _.
      (read_feedback_history-Allows then λ history _. service_answered-Allows config pairs (
        services.call (service_id services config) (submission_url config) (record {
          task_code = task_code services config;
          task_id = task_id;
          workflow_id = workflow_id;
          service_url = tasks_url services.server_url;
          body = object form_data;
          feedback_history = elim history [ ok entries ↦ entries | _ ↦ [] ];
        })))))

  submit_handler-Allows :
      (config : FormConfig) (content : Json)
      → Allows P J Any (submit_handler services config content)
  unfolding submit_handler
  submit_handler-Allows config content =
      try-Allows (parse_form_data services.values content) then λ form_data _.
      (write-Allows "trader:form" (encode services (object form_data))
          (kept.free _ _ (ne_of_test _ _ refl))
        then λ _ _.
            (try-Allows (populate_from_registry services config) then λ populated _.
            (try-Allows (services.schemas.decode populated.schema) then λ node _.
            (try-Allows (collect_pairs node form_data) then λ pairs _.
            if-Allows (submission_url populated == "")
              (return-Allows (done (answered (outputs_of services.values pairs) succeeded)) tt)
              (submit_to_service-Allows populated form_data pairs)))))

  parse_and_store-Allows :
      (content : Json) → Allows P J Any (parse_and_store_oga_response services content)
  unfolding parse_and_store_oga_response
  parse_and_store-Allows content =
      try-Allows (parse_form_data services.values content) then λ review _.
      (write-Allows "ogaResponse" (encode services (object review))
          (kept.free _ _ (ne_of_test _ _ refl))
        then λ stored _. (try-Allows stored then λ _ _. return-Allows review tt))

  oga_approved_handler-Allows :
      (config : FormConfig) (content : Json)
      → Allows P J Any (oga_approved_handler services config content)
  unfolding oga_approved_handler
  oga_approved_handler-Allows config content = parse_and_store-Allows content then λ _ _.
      (evaluate_emissions-Allows config then λ _ _. return-Allows _ tt)

  oga_rejected_handler-Allows :
      (config : FormConfig) (content : Json)
      → Allows P J Any (oga_rejected_handler services config content)
  unfolding oga_rejected_handler
  oga_rejected_handler-Allows config content = parse_and_store-Allows content then λ _ _.
      (evaluate_emissions-Allows config then λ _ _. return-Allows _ tt)

  known-IsRead :
      (r : Result (List FeedbackEntry)) → IsRead r → N (elim r [ ok entries ↦ entries | _ ↦ [] ])
  known-IsRead (ok entries) h = h entries refl
  known-IsRead (err e) h = kept.starts
  known-IsRead panic h = kept.starts

  oga_feedback_handler-Allows :
      (content : Json) → Allows P J Any (oga_feedback_handler services content)
  unfolding oga_feedback_handler
  oga_feedback_handler-Allows content =
      try-Allows (parse_form_data services.values content) then λ remarks _.
      (require-Allows (has_feedback services remarks) _ then λ _ _.
      (read_feedback_history-Allows then λ history h.
      (write-Allows "ogaFeedback"
          (services.feedback.encode
            (append_feedback services (elim history [ ok entries ↦ entries | _ ↦ [] ]) remarks))
          (kept.writes _ remarks (known-IsRead history h))
        then λ stored _.
            (try-Allows stored then λ _ _. return-Allows (done (answered [] succeeded)) tt))))

  dispatch-Allows :
      (config : FormConfig) (action : String) (content : Json)
      → Allows P J Any (dispatch services config action content)
  unfolding dispatch
  dispatch-Allows config action content = if-Allows _ (draft_handler-Allows content) (
      if-Allows _ (submit_handler-Allows config content) (
        if-Allows _ (oga_approved_handler-Allows config content) (
          if-Allows _ (oga_rejected_handler-Allows config content)
            (if-Allows _ (oga_feedback_handler-Allows content) (abort-Allows _)))))

  conclude-Allows :
      (action : String) (handled : Handled)
      → P action
      → P "SUBMIT_FORM_FAILED"
      → Allows P J Any (conclude services action handled)
  unfolding conclude
  conclude-Allows action (done response) p q =
      transition-Allows action p then λ moved _. (try-Allows moved then λ _ _. return-Allows _ tt)
  conclude-Allows action (not_submitted e) p q = transition-Allows _ q then λ _ _. abort-Allows e

  -- `Execute` performs the action that the request stands for, or the one of a failed submission.
  pub execute-Allows :
      (config : FormConfig) (request : ExecutionRequest)
      → P "SUBMIT_FORM_FAILED"
      → ((action : String) → resolve_action services config request ≡ ok action → P action)
      → Allows P J Any (execute services config request)
  unfolding execute
  execute-Allows config request q p =
      try-Allows (resolve_action services config request) then λ action resolved.
      (can_transition-Allows action then λ allowed _.
      (require-Allows allowed "fsm: action not permitted in state" then λ _ _.
      (dispatch-Allows config action request.content then λ handled _.
      conclude-Allows action handled (p action resolved) q)))
