-- ===== src/Task/Plugin/Payment/Methods.antt =====
-- `Start`, `GetRenderInfo` and `Execute` of plugin/payment.go, with their handlers.
use nsw.Prelude.{ℕ, ◌+◌, String, not, ◌&&◌, Option, none, some, List, [], ◌∷◌, ◌==◌, if◌then◌else◌}
use nsw.Json.{Value, find_field, as_object, as_text}
use nsw.Task.Plugin.State.{TaskState}
use nsw.Task.Store.{Json}
use nsw.Task.Container.{ExecutionResponse, empty_response, PluginRun}
use nsw.Task.Container
use nsw.Task.Factory.{ExecutionRequest, Plugin}
use nsw.Task.Plugin.Config.{value_of}
use nsw.Task.Plugin.Api.{
  Call, ◌>>=◌, ◌>>◌, return, abort, try, require, get_plugin_state, get_task_state, get_task_id,
  write_to_local_store, can_transition, transition, run, show, succeeded, answered,
}
use nsw.Task.Plugin.Payment.{
  PaymentConfig, PaymentSession, PaymentServices, ResolvedItem, new_session, is_expired, is_overdue,
  ttl_duration,
}
use nsw.Task.Plugin.Payment.Breakdown.{calculate_breakdown}
use nsw.Task.Plugin.Payment.Sessions.{read_session, record_transaction}

-- `PaymentRenderContent`, in a `GetRenderInfoResponse` with the two states
pub record RenderInfo (D : Type 0) : Type 0 where
  pub plugin_state : String
  pub state : TaskState
  pub gateway_url : String
  pub total_amount : D
  pub currency : String
  pub reference_number : String
  pub breakdown : List (ResolvedItem D)
  pub org_id : String
  pub service : String
  pub selected_method_id : String

-- `contentMap[key].(string)`, if the content is an object
unfoldable pub text_field : String → Option Value → Option String
unfolding find_field as_object as_text
text_field key none = none
text_field key (some v) = elim (as_object v) [
  | none ↦ none
  | some fs ↦ elim (find_field key fs) [ none ↦ none | some w ↦ as_text w ]
]

-- `methodID`
unfoldable pub method_id : Option Value → String
unfolding text_field
method_id content = elim (text_field "methodId" content) [ none ↦ "lankapay" | some id ↦ id ]

module _ {D : Type 0} (services : PaymentServices D) (config : PaymentConfig) where
  unfoldable pub write_session : PaymentSession → Call (Unit {0})
  write_session session = do
    saved ← write_to_local_store "payment:session" (services.sessions.encode session)
    try saved

  -- `Start`
  unfoldable pub start : Call ExecutionResponse
  unfolding write_session new_session
  start = do
    allowed ← can_transition "START"
    if not allowed then return empty_response else do
      write_session (new_session (services.uuid 0) (services.uuid 1) (services.now 0))
      moved ← transition "START"
      try moved
      return empty_response

  -- the check of the deadline of a payment that was initiated, or not
  unfoldable pub expire_initiated : PaymentSession → String → Option ℕ → Call String
  unfolding is_overdue record_transaction
  expire_initiated session plugin_state none = return plugin_state
  expire_initiated session plugin_state (some initiated_at) =
      if plugin_state == "IN_PROGRESS" && is_overdue config initiated_at (services.now 0)
      then (do
        record_transaction services session initiated_at (services.now 1) "TIMEOUT"
        moved ← transition "PAYMENT_TIMEOUT"
        try moved
        get_plugin_state)
      else return plugin_state

  -- the check of the deadline in `GetRenderInfo`: the plugin state after it
  unfoldable pub expire_payment : PaymentSession → String → Call String
  unfolding expire_initiated
  expire_payment session plugin_state = expire_initiated session plugin_state session.initiated_at

  -- the rotation of the session in `GetRenderInfo`
  unfoldable pub rotate_session : PaymentSession → Call PaymentSession
  unfolding is_expired write_session new_session
  rotate_session session =
      if is_expired config session (services.now 2)
      then (do
        let fresh : PaymentSession =
            new_session (services.uuid 0) (services.uuid 1) (services.now 3)
        write_session fresh
        return fresh)
      else return session

  unfoldable pub render_info :
      String → TaskState → List (ResolvedItem D) × D → Option PaymentSession → RenderInfo D
  render_info plugin_state state (items, total) session = record {
    plugin_state = plugin_state;
    state = state;
    gateway_url = elim session [ none ↦ "" | some s ↦ s.checkout_url ];
    total_amount = total;
    currency = config.currency;
    reference_number = elim session [ none ↦ "" | some s ↦ s.reference_number ];
    breakdown = items;
    org_id = config.org_id;
    service = config.service_type;
    selected_method_id = elim session [ none ↦ "" | some s ↦ s.selected_method_id ];
  }

  -- `GetRenderInfo`
  unfoldable pub get_render_info : Call (RenderInfo D)
  unfolding calculate_breakdown read_session expire_payment rotate_session render_info
  get_render_info = do
    plugin_state ← get_plugin_state
    amounts ← calculate_breakdown services config
    if plugin_state == "COMPLETED"
        then (do state ← get_task_state; return (render_info plugin_state state amounts none))
        else do
          session ← read_session services
          shown ← expire_payment session plugin_state
          current ← rotate_session session
          state ← get_task_state
          return (render_info shown state amounts (some current))

  -- the instant that the payment was initiated at, by the content or by the clock
  unfoldable pub initiated_at : Option Value → ℕ
  unfolding text_field
  initiated_at content = elim (text_field "initiatedAt" content) [
    | none ↦ services.now 2
    | some s ↦ elim (services.parse_time s) [ none ↦ services.now 2 | some instant ↦ instant ]
  ]

  -- `initiateHandler`
  unfoldable pub initiate_handler : Json → Call ExecutionResponse
  unfolding read_session is_expired method_id calculate_breakdown initiated_at ttl_duration
      write_session value_of
  initiate_handler json = do
    allowed ← can_transition "INITIATE_PAYMENT"
    require allowed "payment: action not permitted in state"
    session ← read_session services
    require (not (is_expired config session (services.now 0)))
        "payment: session expired, cannot initiate payment"
    let content : Option Value = value_of services.values (some json)
    amounts ← calculate_breakdown services config
    task_id ← get_task_id
    url ← try (
        services.create_checkout_session (record {
          amount = amounts.1;
          currency = config.currency;
          reference_number = session.reference_number;
          metadata =
              ("task_id", task_id)
              ∷ ("method_id", method_id content)
              ∷ ("org_id", config.org_id)
              ∷ ("service_type", config.service_type)
              ∷ [];
          expires_at = services.now 1 + ttl_duration config;
        }))
    write_session (record session {
      initiated_at = some (initiated_at content);
      checkout_url = url;
      selected_method_id = method_id content;
    })
    plugin_state ← get_plugin_state
    (if plugin_state == "IN_PROGRESS"
        then return tt
        else do moved ← transition "INITIATE_PAYMENT"; try moved)
    return (answered [] succeeded)

  -- `successHandler`
  unfoldable pub success_handler : Call ExecutionResponse
  success_handler = do
    allowed ← can_transition "PAYMENT_SUCCESS"
    require allowed "payment: action not permitted in state"
    moved ← transition "PAYMENT_SUCCESS"
    try moved
    return (answered [] succeeded)

  -- `failedHandler`
  unfoldable pub failed_handler : Call ExecutionResponse
  unfolding read_session record_transaction write_session new_session
  failed_handler = do
    allowed ← can_transition "PAYMENT_FAILED"
    require allowed "payment: action not permitted in state"
    session ← read_session services
    record_transaction services session
        (elim session.initiated_at [ none ↦ services.now 0 | some instant ↦ instant ])
        (services.now 1) "FAILED"
    write_session (new_session (services.uuid 0) (services.uuid 1) (services.now 2))
    moved ← transition "PAYMENT_FAILED"
    try moved
    return (answered [] succeeded)

  -- `Execute` of a request that is not nil
  unfoldable pub execute : ExecutionRequest → Call ExecutionResponse
  unfolding initiate_handler success_handler failed_handler
  execute request =
      if request.action == "INITIATE_PAYMENT"
      then initiate_handler request.content
      else if request.action == "PAYMENT_SUCCESS"
      then success_handler
      else if request.action == "PAYMENT_FAILED"
      then failed_handler
      else abort "payment: unknown action"

  -- a run of `GetRenderInfo`
  unfoldable pub render_run : PluginRun
  unfolding get_render_info
  render_run = show get_render_info

  -- the plugin that `NewPaymentTask` makes
  unfoldable pub payment_task : Plugin
  unfolding start execute render_run
  payment_task = record {
    start = run start;
    render = render_run;
    execute = λ request. elim request [
      | none ↦ Container.fail "payment: execution request is required"
      | some r ↦ run (execute r)
    ];
  }
