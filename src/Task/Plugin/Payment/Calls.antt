-- ===== src/Task/Plugin/Payment/Calls.antt =====
-- What the methods of the plugin of payments perform, and what they store: plugin/payment.go.
use nsw.Prelude.{
  ℕ, ◌+◌, String, not, ◌&&◌, Option, none, some, List, [], ◌∷◌, ok, ◌==◌, eq_iff, if◌then◌else◌,
  ◌≡◌, ◌≢◌, ne_of_test, inl, inr, refl, Bool-cases,
}
use nsw.Json.{Value}
use nsw.Task.Store.{Json}
use nsw.Task.Container.{empty_response}
use nsw.Task.Container.Performs.{Held}
use nsw.Task.Factory.{ExecutionRequest}
use nsw.Task.Plugin.Config.{value_of}
use nsw.Task.Plugin.Api.{◌>>=◌, try, transition, answered, succeeded}
use nsw.Task.Plugin.Api.Allows.{
  Allows, Any, weaken, ◌then◌, return-Allows, abort-Allows, try-Allows, if-Allows, require-Allows,
  read-Allows, plugin_state-Allows, task_state-Allows, write-Allows, task_id-Allows,
  can_transition-Allows, transition-Allows,
}
use nsw.Task.Plugin.Payment.{
  PaymentConfig, PaymentSession, PaymentTransaction, PaymentServices, new_session, is_expired,
  is_overdue, ttl_duration,
}
use nsw.Task.Plugin.Payment.Sessions.{
  stored_session, stored_history, read_session, read_transaction_history, record_transaction,
  append_transaction,
}
use nsw.Task.Plugin.Payment.Methods.{
  write_session, start, expire_initiated, expire_payment, rotate_session, render_info,
  get_render_info, initiate_handler, success_handler, failed_handler, execute, method_id,
  initiated_at,
}
use nsw.Task.Plugin.Payment.Amounts.{calculate_breakdown-Allows}

-- The stored transactions are such that `N` holds of the history, and no other entry matters to
-- `J`.
pub record KeepsTransactions {D : Type 0} (services : PaymentServices D)
    (J : String → Json → Type 0) (N : List PaymentTransaction → Type 0) : Type 0 where
  pub free : (key : String) (value : Json) → key ≢ "payment:transactions" → J key value
  pub starts : N []
  pub reads :
      (value : Json) (history : List PaymentTransaction)
      → J "payment:transactions" value
      → services.transactions.decode value ≡ ok history
      → N history
  pub writes :
      (history : List PaymentTransaction) (session : PaymentSession) (initiated_at resolved_at : ℕ)
      (status : String)
      → N history
      → J "payment:transactions" (
          services.transactions.encode
            (append_transaction services history session initiated_at resolved_at status))

module _ {D : Type 0} (services : PaymentServices D) (config : PaymentConfig) (P : String → Type 0)
    (J : String → Json → Type 0) (N : List PaymentTransaction → Type 0)
    (kept : KeepsTransactions services J N) where
  stored_session-Allows : (stored : Option Json) → Allows P J Any (stored_session services stored)
  unfolding stored_session
  stored_session-Allows none = abort-Allows _
  stored_session-Allows (some json) =
      weaken (λ _ _. tt) (try-Allows (services.sessions.decode json))

  read_session-Allows : Allows P J Any (read_session services)
  unfolding read_session
  read_session-Allows = read-Allows "payment:session" then λ stored _. stored_session-Allows stored

  stored_history-Allows :
      (stored : Option Json)
      → Held J "payment:transactions" stored
      → Allows P J N (stored_history services stored)
  unfolding stored_history
  stored_history-Allows none held = return-Allows [] kept.starts
  stored_history-Allows (some json) held =
      weaken (λ history e. kept.reads json history held e)
        (try-Allows (services.transactions.decode json))

  read_history-Allows : Allows P J N (read_transaction_history services)
  unfolding read_transaction_history
  read_history-Allows =
      read-Allows "payment:transactions" then λ stored held. stored_history-Allows stored held

  record_transaction-Allows :
      (session : PaymentSession) (initiated_at resolved_at : ℕ) (status : String)
      → Allows P J Any (record_transaction services session initiated_at resolved_at status)
  unfolding record_transaction
  record_transaction-Allows session initiated_at resolved_at status =
      read_history-Allows then λ history h.
      (write-Allows "payment:transactions"
          (services.transactions.encode
            (append_transaction services history session initiated_at resolved_at status))
          (kept.writes history session initiated_at resolved_at status h)
        then λ saved _. weaken (λ _ _. tt) (try-Allows saved))

  write_session-Allows :
      (session : PaymentSession) → Allows P J Any (write_session services config session)
  unfolding write_session
  write_session-Allows session =
      write-Allows "payment:session" (services.sessions.encode session)
        (kept.free _ _ (ne_of_test _ _ refl))
      then λ saved _. weaken (λ _ _. tt) (try-Allows saved)

  moves-Allows :
      (action : String) → P action → Allows P J Any (do moved ← transition action; try moved)
  moves-Allows action p =
      transition-Allows action p then λ moved _. weaken (λ _ _. tt) (try-Allows moved)

  -- `Start` performs its one action.
  pub start-Allows : P "START" → Allows P J Any (start services config)
  unfolding start
  start-Allows p = can_transition-Allows "START" then λ allowed _.
      if-Allows (not allowed) (return-Allows empty_response tt) (
        write_session-Allows (new_session (services.uuid 0) (services.uuid 1) (services.now 0))
        then λ _ _.
            (transition-Allows "START" p then λ moved _.
            (try-Allows moved then λ _ _. return-Allows empty_response tt)))

  expire_initiated-Allows :
      (session : PaymentSession) (plugin_state : String) (initiated_at : Option ℕ)
      → P "PAYMENT_TIMEOUT"
      → Allows P J Any (expire_initiated services config session plugin_state initiated_at)
  unfolding expire_initiated
  expire_initiated-Allows session plugin_state none p = return-Allows plugin_state tt
  expire_initiated-Allows session plugin_state (some initiated_at) p =
      if-Allows (plugin_state == "IN_PROGRESS" && is_overdue config initiated_at (services.now 0))
        (record_transaction-Allows session initiated_at (services.now 1) "TIMEOUT" then λ _ _.
          (transition-Allows "PAYMENT_TIMEOUT" p then λ moved _.
          (try-Allows moved then λ _ _. plugin_state-Allows)))
        (return-Allows plugin_state tt)

  expire_payment-Allows :
      (session : PaymentSession) (plugin_state : String)
      → P "PAYMENT_TIMEOUT"
      → Allows P J Any (expire_payment services config session plugin_state)
  unfolding expire_payment
  expire_payment-Allows session plugin_state p =
      expire_initiated-Allows session plugin_state session.initiated_at p

  rotate_session-Allows :
      (session : PaymentSession) → Allows P J Any (rotate_session services config session)
  unfolding rotate_session
  rotate_session-Allows session =
      let fresh : PaymentSession =
        new_session (services.uuid 0) (services.uuid 1) (services.now 3) in
      if-Allows (is_expired config session (services.now 2))
        (write_session-Allows fresh then λ _ _. return-Allows fresh tt) (return-Allows session tt)

  -- `GetRenderInfo` performs the action of a timeout only.
  pub get_render_info-Allows :
      P "PAYMENT_TIMEOUT" → Allows P J Any (get_render_info services config)
  unfolding get_render_info
  get_render_info-Allows p = plugin_state-Allows then λ plugin_state _.
      (calculate_breakdown-Allows services config P J then λ amounts _.
      if-Allows (plugin_state == "COMPLETED")
        (task_state-Allows then λ state _.
          return-Allows (render_info services config plugin_state state amounts none) tt)
        (read_session-Allows then λ session _.
          (expire_payment-Allows session plugin_state p then λ shown _.
          (rotate_session-Allows session then λ current _.
          (task_state-Allows then λ state _.
          return-Allows (render_info services config shown state amounts (some current)) tt)))))

  initiate_handler-Allows :
      (json : Json) → P "INITIATE_PAYMENT" → Allows P J Any (initiate_handler services config json)
  unfolding initiate_handler
  initiate_handler-Allows json p =
      let content : Option Value = value_of services.values (some json) in
      can_transition-Allows "INITIATE_PAYMENT" then λ allowed _.
      (require-Allows allowed "payment: action not permitted in state" then λ _ _.
      (read_session-Allows then λ session _.
      (require-Allows (not (is_expired config session (services.now 0)))
          "payment: session expired, cannot initiate payment"
        then λ _ _.
            (calculate_breakdown-Allows services config P J then λ amounts _.
            (task_id-Allows then λ task_id _.
            (try-Allows (
                services.create_checkout_session (record {
                  amount = amounts.1;
                  currency = config.currency;
                  reference_number = session.reference_number;
                  metadata =
                      ("task_id", task_id)
                      ∷ ("method_id", method_id content)
                      ∷ ("org_id", config.org_id)
                      ∷ ("service_type", config.service_type)
                      ∷ [];
                  expires_at = services.now 1 + ttl_duration config;
                }))
              then λ url _.
                  (write_session-Allows (record session {
                    initiated_at = some (initiated_at services config content);
                    checkout_url = url;
                    selected_method_id = method_id content;
                  })
                    then λ _ _.
                        (plugin_state-Allows then λ plugin_state _.
                        (if-Allows (plugin_state == "IN_PROGRESS") (return-Allows tt tt)
                            (moves-Allows "INITIATE_PAYMENT" p)
                          then λ _ _. return-Allows (answered [] succeeded) tt)))))))))

  success_handler-Allows : P "PAYMENT_SUCCESS" → Allows P J Any (success_handler services config)
  unfolding success_handler
  success_handler-Allows p = can_transition-Allows "PAYMENT_SUCCESS" then λ allowed _.
      (require-Allows allowed "payment: action not permitted in state" then λ _ _.
      (transition-Allows "PAYMENT_SUCCESS" p then λ moved _.
      (try-Allows moved then λ _ _. return-Allows (answered [] succeeded) tt)))

  failed_handler-Allows : P "PAYMENT_FAILED" → Allows P J Any (failed_handler services config)
  unfolding failed_handler
  failed_handler-Allows p = can_transition-Allows "PAYMENT_FAILED" then λ allowed _.
      (require-Allows allowed "payment: action not permitted in state" then λ _ _.
      (read_session-Allows then λ session _.
      (record_transaction-Allows session
          (elim session.initiated_at [ none ↦ services.now 0 | some instant ↦ instant ])
          (services.now 1) "FAILED"
        then λ _ _.
            (write_session-Allows (new_session (services.uuid 0) (services.uuid 1) (services.now 2))
              then λ _ _.
                  (transition-Allows "PAYMENT_FAILED" p then λ moved _.
                  (try-Allows moved then λ _ _. return-Allows (answered [] succeeded) tt))))))

  -- `Execute` performs the success of the payment only if the request asks for it.
  pub execute-Allows :
      (request : ExecutionRequest)
      → P "INITIATE_PAYMENT"
      → P "PAYMENT_FAILED"
      → (request.action ≡ "PAYMENT_SUCCESS" → P "PAYMENT_SUCCESS")
      → Allows P J Any (execute services config request)
  unfolding execute
  execute-Allows request p q r =
      if-Allows (request.action == "INITIATE_PAYMENT") (initiate_handler-Allows request.content p)
        (elim (Bool-cases (request.action == "PAYMENT_SUCCESS")) [
          | inl e ↦
              rw e (success_handler-Allows (r ((eq_iff request.action "PAYMENT_SUCCESS").0 e)))
          | inr e ↦ rw e (if-Allows _ (failed_handler-Allows q) (abort-Allows _))
        ])
