-- ===== src/Task/Tests/Payments.antt =====
-- The theorems about the plugin of payments on a fee with a tax, with natural numbers as decimals.
use Prim.Native.Nat.{◌/◌}
use nsw.Prelude.{
  ℕ, zero, suc, ◌+◌, ◌-◌, ◌*◌, String, Option, none, some, [], ◌∷◌, ok, ok-inj, ◌≡◌, refl,
  ne_of_test, arith,
}
use nsw.Json.{null}
use nsw.Task.Plugin.State.{in_progress}
use nsw.Task.Plugin.Tables.{payment_fsm}
use nsw.Task.LocalState.{get_state}
use nsw.Task.Container.{Container, run_plugin}
use nsw.Task.Container.Performs.{IsOpenTask}
use nsw.Task.Factory.{ExecutionRequest}
use nsw.Task.Plugin.Payment.{
  BreakdownItem, PaymentConfig, PaymentSession, PaymentTransaction, Decimals, PaymentServices,
}
use nsw.Task.Plugin.Payment.Breakdown.{calculate_breakdown}
use nsw.Task.Plugin.Payment.Order.{calculate_breakdown-fixed_first}
use nsw.Task.Plugin.Payment.Methods.{payment_task, render_run}
use nsw.Task.Plugin.Payment.Completion.{payment-IsOpenTask}
use nsw.Task.Plugin.Payment.History.{round_of, HistoryIsNumbered, payment-HistoryIsNumbered}
use nsw.Task.Tests.{task_table, codec, form_row}
use nsw.Task.Tests.Codings.{rounds_coding, rounds_coding-KeepsRounds}

abbrev digits : String → Option ℕ
digits s = none

abbrev integers : Decimals ℕ
integers = record {
  of_int = λ n. n;
  add = λ a b. a + b;
  sub = λ a b. a - b;
  mul = λ a b. a * b;
  div = λ a b. a / b;
  round = λ a places. a;
  of_text = digits;
  of_number = λ n. 1;
}

abbrev transaction : ℕ → PaymentTransaction
transaction n = record {
  transaction_id = "u";
  reference_number = "NSW-PAY-u";
  initiated_at = 0;
  resolved_at = 0;
  status = "FAILED";
  round = n;
}

abbrev session : PaymentSession
session = record {
  transaction_id = "u";
  reference_number = "NSW-PAY-u";
  checkout_url = "";
  org_name = "";
  selected_method_id = "";
  generated_at = 0;
  initiated_at = none;
}

abbrev services : PaymentServices ℕ
services = record {
  decimals = integers;
  create_checkout_session = λ request. ok "https://pay/";
  now = λ reading. reading;
  uuid = λ n. "u";
  parse_time = λ s. none;
  values = record { encode = λ v. "{}"; decode = λ json. ok null };
  sessions = record { encode = λ s. "{}"; decode = λ json. ok session };
  transactions = rounds_coding round_of transaction;
}

abbrev tax : BreakdownItem
tax = record {
  category = "ADDITION";
  type_name = "PERCENTAGE";
  quantity = "";
  unit_price = "";
  value = "{rates.tax:5}";
}

abbrev fee : BreakdownItem
fee = record {
  category = "ADDITION";
  type_name = "FIXED";
  quantity = "2";
  unit_price = "{fee}";
  value = "";
}

abbrev fee_config : PaymentConfig
fee_config = record {
  currency = "LKR";
  ttl = 600;
  org_id = "o";
  service_type = "permit";
  breakdown = tax ∷ fee ∷ [];
}

abbrev paying : Container
paying = record {
  task_id = "t";
  workflow_id = "w";
  template_id = "A";
  state = in_progress;
  plugin_state = "IN_PROGRESS";
  fsm = some payment_fsm;
  global_state = [];
  local_state = record {
    task_id = "t";
    cache = ("payment:session", "{}") ∷ ("payment:transactions", "1,11,") ∷ [];
  };
}

abbrev failure : ExecutionRequest
failure = record { action = "PAYMENT_FAILED"; content = "{}" }

calculate_breakdown-fixed_first_example :
    calculate_breakdown services (record fee_config { breakdown = fee ∷ tax ∷ [] })
    ≡ calculate_breakdown services fee_config
calculate_breakdown-fixed_first_example = calculate_breakdown-fixed_first services fee_config

payment-IsOpenTask_example :
    IsOpenTask payment_fsm
      (run_plugin task_table codec
        (payment_task services fee_config).start
        paying
        (form_row ∷ [])).0
    × IsOpenTask payment_fsm
        (run_plugin task_table codec
          ((payment_task services fee_config).execute (some failure))
          paying
          (form_row ∷ [])).0
    × IsOpenTask payment_fsm
        (run_plugin task_table codec (render_run services fee_config) paying (form_row ∷ [])).0
payment-IsOpenTask_example =
    payment-IsOpenTask services fee_config task_table codec failure paying (form_row ∷ [])
      (ne_of_test _ _ refl) (record { by_table = refl; open_state = λ e. absurd cc })

paying_numbered : HistoryIsNumbered services paying.local_state
unfolding get_state nsw.Prelude.lookup nsw.Task.Tests.Codings.decode_rounds
paying_numbered value found history e =
    let value_is : value ≡ "1,11," = cc in
    let is : transaction 1 ∷ transaction 2 ∷ [] ≡ history = ok-inj (rw value_is at e) in
    rw (← is) (refl, (refl, tt))

payment-HistoryIsNumbered_example :
    HistoryIsNumbered services
      (run_plugin task_table codec
        (payment_task services fee_config).start
        paying
        (form_row ∷ [])).0.local_state
    × HistoryIsNumbered services
        (run_plugin task_table codec
          ((payment_task services fee_config).execute (some failure))
          paying
          (form_row ∷ [])).0.local_state
    × HistoryIsNumbered services
        (run_plugin task_table codec
          (render_run services fee_config)
          paying
          (form_row ∷ [])).0.local_state
payment-HistoryIsNumbered_example =
    payment-HistoryIsNumbered services fee_config task_table codec failure paying (form_row ∷ [])
      (rounds_coding-KeepsRounds round_of transaction (λ n. refl)) paying_numbered
