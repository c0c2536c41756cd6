-- ===== src/Task/Tests/Forms.antt =====
-- The theorems about the plugin of forms on a form that an agency reviews.
use nsw.Prelude.{ne_of_test, true, none, some, [], ◌∷◌, ◌≡◌, refl, ok, ok-inj, lookup}
use nsw.Json.{end, text, object, field}
use nsw.Json.Schema.{schema, no_more, no_items}
use nsw.Task.Plugin.State.{in_progress, completed}
use nsw.Task.Plugin.Tables.{simple_form_fsm, wait_for_event_fsm}
use nsw.Task.Container.{Container, run_plugin}
use nsw.Task.Container.Performs.{IsOpenTask}
use nsw.Task.Factory.{ExecutionRequest}
use nsw.Task.Plugin.Rules.{evaluate_emission}
use nsw.Task.Plugin.Rules.Emission.{Chosen, evaluate_emission-Chosen}
use nsw.Task.Plugin.Config.{Services}
use nsw.Task.Plugin.SimpleForm.{FormConfig, requires_verification}
use nsw.Task.Plugin.SimpleForm.Methods.{simple_form}
use nsw.Task.Plugin.SimpleForm.Verification.{execute-IsOpenTask}
use nsw.Task.LocalState.{get_state}
use nsw.Task.Tests.Codings.{rounds_coding, rounds_coding-KeepsRounds}
use nsw.Task.Plugin.SimpleForm.Feedback.{round_of, FeedbackIsNumbered, execute-FeedbackIsNumbered}
use nsw.Task.Plugin.WaitForEvent.{EventConfig}
use nsw.Task.Plugin.WaitForEvent.Render.{wait_for_event_task}
use nsw.Task.Plugin.WaitForEvent.Completion.{wait_for_event-IsOpenTask}
use nsw.Task.Tests.{task_table, codec, form_row}

-- services that know of one text only
abbrev services : Services
services = record {
  get_form = some (λ id. ok (record { name = "Permit"; schema = "{}"; ui_schema = "{}" }));
  call = λ service path request. ok end;
  server_url = "http://nsw/";
  now = "2026-01-01";
  values = record { encode = λ v. "{}"; decode = λ json. ok (object end) };
  schemas = record {
    encode = λ s. "{}";
    decode = λ json. ok (schema "object" no_more no_items none none);
  };
  feedback = record { encode = λ history. "[]"; decode = λ json. ok [] };
}

abbrev reviewed_form : FormConfig
reviewed_form = record {
  form_id = "permit";
  title = "";
  schema = "";
  ui_schema = "";
  form_data = "";
  submission_url = "";
  submission = none;
  callback = some (record { transition = none; response = none });
  emission = none;
  requires_oga_verification = true;
}

abbrev draft_container : Container
draft_container = record {
  task_id = "t";
  workflow_id = "w";
  template_id = "A";
  state = in_progress;
  plugin_state = "DRAFT";
  fsm = some simple_form_fsm;
  global_state = [];
  local_state = record { task_id = "t"; cache = [] };
}

abbrev submission : ExecutionRequest
submission = record { action = "SUBMIT_FORM"; content = "{}" }

execute-IsOpenTask_example :
    IsOpenTask simple_form_fsm
      (run_plugin task_table codec
        ((simple_form services reviewed_form).execute (some submission))
        draft_container
        (form_row ∷ [])).0
unfolding requires_verification
execute-IsOpenTask_example =
    execute-IsOpenTask services reviewed_form submission task_table codec draft_container
      (form_row ∷ []) refl
      (record { no_verification = λ e. absurd cc; pending = ((λ e. absurd cc), λ e. absurd cc) })
      (record { by_table = refl; open_state = λ e. absurd cc })

evaluate_emission-Chosen_example :
    Chosen
      (field "decision" (text "MANUAL") end)
      (record {
        outcome = "manual";
        conditions = record { field = "decision"; value = "MANUAL" } ∷ [];
      }
        ∷ [])
      (evaluate_emission
        (record {
          outcome = "manual";
          conditions = record { field = "decision"; value = "MANUAL" } ∷ [];
        }
          ∷ [])
        (field "decision" (text "MANUAL") end))
evaluate_emission-Chosen_example =
    evaluate_emission-Chosen
      (record {
        outcome = "manual";
        conditions = record { field = "decision"; value = "MANUAL" } ∷ [];
      }
        ∷ [])
      (field "decision" (text "MANUAL") end)

-- the agency is passed over by an internal action
unreviewed_submission :
    (run_plugin task_table codec
      ((simple_form services reviewed_form).execute
        (some (record { action = "SUBMIT_FORM_COMPLETE"; content = "{}" })))
      draft_container
      (form_row ∷ [])).0.state
    ≡ completed
unfolding run_plugin simple_form nsw.Task.Plugin.Fsm.can_transition simple_form_fsm
    nsw.Task.Plugin.Fsm.transition task_table
unreviewed_submission = refl

-- services that know of a remark, with a coding of the rounds
abbrev recorded : Services
recorded = record services {
  values = record {
    encode = λ v. "{}";
    decode = λ json. ok (object (field "feedback" (text "?") end));
  };
  feedback = rounds_coding round_of (λ n. record { content = end; timestamp = ""; round = n });
}

abbrev remarks : ExecutionRequest
remarks = record { action = "OGA_VERIFICATION_FEEDBACK"; content = "{}" }

-- a form that an agency has, after one round of feedback
abbrev acknowledged_container : Container
acknowledged_container = record draft_container {
  plugin_state = "OGA_ACKNOWLEDGED";
  local_state = record { task_id = "t"; cache = ("ogaFeedback", "1,") ∷ [] };
}

-- The second round is stored.
second_round :
    lookup "ogaFeedback"
      (run_plugin task_table codec
        ((simple_form recorded reviewed_form).execute (some remarks))
        acknowledged_container
        (form_row ∷ [])).0.local_state.cache
    ≡ some "1,11,"
unfolding run_plugin simple_form nsw.Task.Plugin.Fsm.can_transition simple_form_fsm
    nsw.Task.Plugin.Fsm.transition task_table lookup nsw.Task.Tests.Codings.decode_rounds
    nsw.Prelude.insert nsw.Task.Tests.Codings.encode_rounds
second_round = refl

acknowledged-FeedbackIsNumbered : FeedbackIsNumbered recorded acknowledged_container.local_state
unfolding get_state lookup nsw.Task.Tests.Codings.decode_rounds
acknowledged-FeedbackIsNumbered value found history e =
    let value_is : value ≡ "1," = cc in
    let is : record { content = end; timestamp = ""; round = 1 } ∷ [] ≡ history =
      ok-inj (rw value_is at e) in
    rw (← is) (refl, tt)

execute-FeedbackIsNumbered_example :
    FeedbackIsNumbered recorded
      (run_plugin task_table codec
        ((simple_form recorded reviewed_form).execute (some remarks))
        acknowledged_container
        (form_row ∷ [])).0.local_state
execute-FeedbackIsNumbered_example =
    execute-FeedbackIsNumbered recorded reviewed_form remarks task_table codec
      acknowledged_container (form_row ∷ []) (rounds_coding-KeepsRounds round_of _ (λ n. refl))
      acknowledged-FeedbackIsNumbered

abbrev event_config : EventConfig
event_config = record {
  display = none;
  submission = some (record {
    service_id = "npqs";
    url = "/inspections";
    task_code = some "inspect";
    template = "{}";
    response = none;
  });
}

abbrev notified_container : Container
notified_container = record draft_container {
  plugin_state = "NOTIFY_FAILED";
  fsm = some wait_for_event_fsm;
}

wait_for_event-IsOpenTask_example :
    IsOpenTask wait_for_event_fsm
      (run_plugin task_table codec
        (wait_for_event_task services event_config).start
        notified_container
        (form_row ∷ [])).0
    × IsOpenTask wait_for_event_fsm
        (run_plugin task_table codec
          ((wait_for_event_task services event_config).execute
            (some (record { action = "RETRY"; content = "{}" })))
          notified_container
          (form_row ∷ [])).0
wait_for_event-IsOpenTask_example =
    wait_for_event-IsOpenTask services event_config (record { action = "RETRY"; content = "{}" })
      task_table codec notified_container (form_row ∷ []) (ne_of_test _ _ refl)
      (record { by_table = refl; open_state = λ e. absurd cc })
