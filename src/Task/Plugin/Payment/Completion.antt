-- ===== src/Task/Plugin/Payment/Completion.antt =====
-- Only a success of the payment completes its task: plugin/payment.go.
use nsw.Prelude.{String, some, ◌≢◌, ne_of_test, refl}
use nsw.Task.Store.{TaskTable}
use nsw.Task.LocalState.{Codec}
use nsw.Task.Plugin.Tables.{payment_fsm}
use nsw.Task.Container.{Container, run_plugin}
use nsw.Task.Container.Performs.{
  Performs, NeverCompletes, NeverCompletes-All, IsOpenTask, run_plugin-IsOpenTask,
}
use nsw.Task.Factory.{ExecutionRequest}
use nsw.Task.Plugin.Api.Allows.{run-Performs}
use nsw.Task.Plugin.Payment.{PaymentConfig, PaymentServices}
use nsw.Task.Plugin.Payment.Methods.{start, execute, payment_task, render_run}
use nsw.Task.Container.Performs.{AnyEntry}
use nsw.Task.Plugin.Payment.Calls.{
  KeepsTransactions, start-Allows, get_render_info-Allows, execute-Allows,
}

-- The actions that no edge of the table completes the task by.
abbrev IsUnpaid : String → Type 0
IsUnpaid action = action ≢ "PAYMENT_SUCCESS"

payment_fsm-NeverCompletes : NeverCompletes payment_fsm IsUnpaid
unfolding payment_fsm
payment_fsm-NeverCompletes = NeverCompletes-All IsUnpaid payment_fsm (
  (λ p e. absurd cc),
  (
    (λ p e. absurd cc),
    ((λ p e. absurd cc), ((λ p e. p refl), ((λ p e. absurd cc), ((λ p e. absurd cc), tt)))),
  ),
)

anything :
    {D : Type 0} (services : PaymentServices D)
    → KeepsTransactions services AnyEntry (λ history. Unit)
anything services = record {
  free = λ key value ne. tt;
  starts = tt;
  reads = λ value history j e. tt;
  writes = λ history session initiated_at resolved_at status n. tt;
}

module _ {S D : Type 0} (services : PaymentServices D) (config : PaymentConfig) (t : TaskTable S)
    (codec : Codec) where
  -- Only a success of the payment completes its task: whatever the payment service, the decimals
  -- and the database answer, a task that is not completed and goes by the table of payments is not
  -- completed after `Start`, after `GetRenderInfo`, or after `Execute` of any request whose action
  -- is not the success of the payment.
  pub payment-IsOpenTask :
      (request : ExecutionRequest) (c : Container) (s : S)
      → request.action ≢ "PAYMENT_SUCCESS"
      → IsOpenTask payment_fsm c
      → IsOpenTask payment_fsm (run_plugin t codec (payment_task services config).start c s).0
        × IsOpenTask payment_fsm
            (run_plugin t codec ((payment_task services config).execute (some request)) c s).0
        × IsOpenTask payment_fsm (run_plugin t codec (render_run services config) c s).0
  unfolding payment_task render_run Performs
  payment-IsOpenTask request c s ne h = (
    run_plugin-IsOpenTask t codec payment_fsm IsUnpaid payment_fsm-NeverCompletes _ c s
        (run-Performs (start services config) (
          start-Allows services config IsUnpaid AnyEntry (λ history. Unit) (anything services)
            (ne_of_test _ _ refl)))
        h,
    run_plugin-IsOpenTask t codec payment_fsm IsUnpaid payment_fsm-NeverCompletes _ c s
        (run-Performs (execute services config request) (
          execute-Allows services config IsUnpaid AnyEntry (λ history. Unit) (anything services)
            request (ne_of_test _ _ refl) (ne_of_test _ _ refl) (λ e. absurd (ne e))))
        h,
    run_plugin-IsOpenTask t codec payment_fsm IsUnpaid payment_fsm-NeverCompletes _ c s
        ((get_render_info-Allows services config IsUnpaid AnyEntry (λ history. Unit)
            (anything services) (ne_of_test _ _ refl)).performs
          _ (λ info q. tt))
        h,
  )
