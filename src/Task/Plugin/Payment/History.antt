-- ===== src/Task/Plugin/Payment/History.antt =====
-- The rounds of transactions in the local state of a task: plugin/payment.go.
use nsw.Prelude.{ℕ, String, some, List, ok, ◌≡◌, refl}
use nsw.Task.Store.{Json, TaskTable}
use nsw.Task.LocalState.{Codec}
use nsw.Task.Container.{Container, run_plugin}
use nsw.Task.Container.Performs.{Performs}
use nsw.Task.Factory.{ExecutionRequest}
use nsw.Task.Plugin.Api.Allows.{run-Performs}
use nsw.Task.Plugin.Payment.{PaymentConfig, PaymentSession, PaymentTransaction, PaymentServices}
use nsw.Task.Plugin.Payment.Sessions.{append_transaction}
use nsw.Task.Plugin.Payment.Methods.{start, execute, initiated_at, payment_task, render_run}
use mathlib.Core.Path.{subst}
use nsw.Prelude.{sym, arith}
use nsw.Task.LocalState.{LocalState}
use nsw.Task.Plugin.Rounds.{NumberedFrom, rounds, KeepsRounds, NumberedFrom-append}
use nsw.Task.Container.{PluginRun}
use nsw.Task.Container.Performs.{AnyAction}
use nsw.Task.Container.Entries.{OnKey, HasEntry, Keeps-HasEntry, HasEntry-Keeps, run_plugin-Keeps}
use nsw.Task.Plugin.Payment.Calls.{
  KeepsTransactions, start-Allows, get_render_info-Allows, execute-Allows,
}

abbrev pub round_of : PaymentTransaction → ℕ
round_of transaction = transaction.round

-- The rounds are numbered from one.
abbrev pub IsNumbered : List PaymentTransaction → Type 0
IsNumbered history = NumberedFrom 1 (rounds round_of history)

module _ {D : Type 0} (services : PaymentServices D) where
  abbrev pub HoldsNumbered : Json → Type 0
  HoldsNumbered value =
      (history : List PaymentTransaction)
      → services.transactions.decode value ≡ ok history
      → IsNumbered history

  -- The transactions that the local state holds are numbered.
  abbrev pub HistoryIsNumbered : LocalState → Type 0
  HistoryIsNumbered m = HasEntry "payment:transactions" HoldsNumbered m

  append_transaction-IsNumbered :
      (history : List PaymentTransaction) (session : PaymentSession) (initiated_at resolved_at : ℕ)
      (status : String)
      → IsNumbered history
      → IsNumbered (append_transaction services history session initiated_at resolved_at status)
  unfolding append_transaction
  append_transaction-IsNumbered history session initiated_at resolved_at status h =
      NumberedFrom-append round_of 1 history _ h (omega arith)

  KeepsTransactions-IsNumbered :
      KeepsRounds round_of services.transactions
      → KeepsTransactions services (OnKey "payment:transactions" HoldsNumbered) IsNumbered
  KeepsTransactions-IsNumbered coding = record {
    free = λ key value ne same. absurd (ne same);
    starts = tt;
    reads = λ value history held e. held refl history e;
    writes = λ history session initiated_at resolved_at status h same stored e.
        subst (NumberedFrom 1)
          (sym (
            coding (append_transaction services history session initiated_at resolved_at status)
              stored e))
          (append_transaction-IsNumbered history session initiated_at resolved_at status h);
  }

  module _ {S : Type 0} (config : PaymentConfig) (t : TaskTable S) (codec : Codec) where
    keeps_numbered :
        (run : PluginRun)
        → Performs AnyAction (OnKey "payment:transactions" HoldsNumbered) run
        → (c : Container) (s : S) → HistoryIsNumbered c.local_state
        → HistoryIsNumbered (run_plugin t codec run c s).0.local_state
    keeps_numbered run h c s numbered = HasEntry-Keeps "payment:transactions" HoldsNumbered _ (
        run_plugin-Keeps t codec (OnKey "payment:transactions" HoldsNumbered) run c s h
          (Keeps-HasEntry "payment:transactions" HoldsNumbered c.local_state numbered))

    -- If the transactions that the local state holds are numbered from one in their order, they are
    -- so after `Start`, after `Execute` of any request, and after `GetRenderInfo`. It is assumed
    -- that the numbers of the rounds survive their coding as JSON.
    pub payment-HistoryIsNumbered :
        (request : ExecutionRequest) (c : Container) (s : S)
        → KeepsRounds round_of services.transactions
        → HistoryIsNumbered c.local_state
        → HistoryIsNumbered
            (run_plugin t codec (payment_task services config).start c s).0.local_state
          × HistoryIsNumbered
              (run_plugin t codec
                ((payment_task services config).execute (some request))
                c
                s).0.local_state
          × HistoryIsNumbered (run_plugin t codec (render_run services config) c s).0.local_state
    unfolding payment_task render_run Performs
    payment-HistoryIsNumbered request c s coding h =
        let J = OnKey "payment:transactions" HoldsNumbered in
        let kept = KeepsTransactions-IsNumbered coding in
        (
          keeps_numbered _
              (run-Performs (start services config)
                (start-Allows services config AnyAction J IsNumbered kept tt))
              c s h,
          keeps_numbered _
              (run-Performs (execute services config request) (
                execute-Allows services config AnyAction J IsNumbered kept request tt tt (λ e. tt)))
              c s h,
          keeps_numbered _
              ((get_render_info-Allows services config AnyAction J IsNumbered kept tt).performs _
                (λ info q. tt))
              c s h,
        )
