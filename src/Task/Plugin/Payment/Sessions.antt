-- ===== src/Task/Plugin/Payment/Sessions.antt =====
-- `readSession`, `readTransactionHistory` and `recordTransaction` of plugin/payment.go.
use nsw.Prelude.{Option, ℕ, ◌+◌, String, none, some, List, [], ◌∷◌, ◌++◌, length}
use nsw.Task.Store.{Json}
use nsw.Task.Plugin.Api.{
  Call, ◌>>=◌, return, abort, try, read_from_local_store, write_to_local_store,
}
use nsw.Task.Plugin.Payment.{PaymentSession, PaymentTransaction, PaymentServices}

module _ {D : Type 0} (services : PaymentServices D) where
  unfoldable pub stored_session : Option Json → Call PaymentSession
  stored_session none = abort "no active payment session"
  stored_session (some json) = try (services.sessions.decode json)

  -- `readSession`
  unfoldable pub read_session : Call PaymentSession
  unfolding stored_session
  read_session = do stored ← read_from_local_store "payment:session"; stored_session stored

  -- no history is nil
  unfoldable pub stored_history : Option Json → Call (List PaymentTransaction)
  stored_history none = return []
  stored_history (some json) = try (services.transactions.decode json)

  -- `readTransactionHistory`
  unfoldable pub read_transaction_history : Call (List PaymentTransaction)
  unfolding stored_history
  read_transaction_history = do
    stored ← read_from_local_store "payment:transactions"
    stored_history stored

  -- the history with one more transaction
  unfoldable pub append_transaction :
      List PaymentTransaction → PaymentSession → ℕ → ℕ → String → List PaymentTransaction
  append_transaction history session initiated_at resolved_at status =
      history
      ++ record {
        transaction_id = session.transaction_id;
        reference_number = session.reference_number;
        initiated_at = initiated_at;
        resolved_at = resolved_at;
        status = status;
        round = length history + 1;
      }
        ∷ []

  -- `recordTransaction`
  unfoldable pub record_transaction : PaymentSession → ℕ → ℕ → String → Call (Unit {0})
  unfolding read_transaction_history append_transaction
  record_transaction session initiated_at resolved_at status = do
    history ← read_transaction_history
    saved ← write_to_local_store "payment:transactions" (
        services.transactions.encode
          (append_transaction history session initiated_at resolved_at status))
    try saved
