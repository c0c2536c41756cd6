-- ===== src/Task/Plugin/Tables.antt =====
-- plugin/payment.go, plugin/wait_for_event.go, plugin/simple_form.go: the transition tables of
-- the three plugins, with the source's texts for states and actions.
pub mod Endings
pub mod Liveness
use nsw.Prelude.{String, none, some, [], ◌∷◌}
use nsw.Task.Plugin.State.{in_progress, initialized, completed, failed}
use nsw.Task.Plugin.Fsm.{PluginFsm, edge}

-- `NewPaymentFSM`
unfoldable pub payment_fsm : PluginFsm
payment_fsm =
    edge "" "START" "IDLE" none
    ∷ edge "IDLE" "INITIATE_PAYMENT" "IN_PROGRESS" (some in_progress)
    ∷ edge "IN_PROGRESS" "INITIATE_PAYMENT" "IN_PROGRESS" (some in_progress)
    ∷ edge "IN_PROGRESS" "PAYMENT_SUCCESS" "COMPLETED" (some completed)
    ∷ edge "IN_PROGRESS" "PAYMENT_FAILED" "IDLE" (some initialized)
    ∷ edge "IN_PROGRESS" "PAYMENT_TIMEOUT" "IDLE" (some initialized)
    ∷ []

-- `NewWaitForEventFSM`
unfoldable pub wait_for_event_fsm : PluginFsm
wait_for_event_fsm =
    edge "" "START" "NOTIFIED_SERVICE" (some in_progress)
    ∷ edge "" "START_FAILED" "NOTIFY_FAILED" (some in_progress)
    ∷ edge "NOTIFY_FAILED" "RETRY" "NOTIFIED_SERVICE" (some in_progress)
    ∷ edge "NOTIFIED_SERVICE" "OGA_VERIFICATION" "RECEIVED_CALLBACK" (some completed)
    ∷ []

-- `NewSimpleFormFSM`
unfoldable pub simple_form_fsm : PluginFsm
simple_form_fsm =
    edge "" "START" "INITIALIZED" none
    ∷ edge "INITIALIZED" "SAVE_AS_DRAFT" "DRAFT" (some in_progress)
    ∷ edge "DRAFT" "SAVE_AS_DRAFT" "DRAFT" (some in_progress)
    ∷ edge "SUBMISSION_FAILED" "SAVE_AS_DRAFT" "DRAFT" (some in_progress)
    ∷ edge "INITIALIZED" "SUBMIT_FORM_COMPLETE" "SUBMITTED" (some completed)
    ∷ edge "DRAFT" "SUBMIT_FORM_COMPLETE" "SUBMITTED" (some completed)
    ∷ edge "SUBMISSION_FAILED" "SUBMIT_FORM_COMPLETE" "SUBMITTED" (some completed)
    ∷ edge "INITIALIZED" "SUBMIT_FORM_AWAIT_OGA" "OGA_ACKNOWLEDGED" (some in_progress)
    ∷ edge "DRAFT" "SUBMIT_FORM_AWAIT_OGA" "OGA_ACKNOWLEDGED" (some in_progress)
    ∷ edge "SUBMISSION_FAILED" "SUBMIT_FORM_AWAIT_OGA" "OGA_ACKNOWLEDGED" (some in_progress)
    ∷ edge "OGA_FEEDBACK_PROVIDED" "SUBMIT_FORM_AWAIT_OGA" "OGA_ACKNOWLEDGED" (some in_progress)
    ∷ edge "INITIALIZED" "SUBMIT_FORM_FAILED" "SUBMISSION_FAILED" (some in_progress)
    ∷ edge "DRAFT" "SUBMIT_FORM_FAILED" "SUBMISSION_FAILED" (some in_progress)
    ∷ edge "OGA_FEEDBACK_PROVIDED" "SUBMIT_FORM_FAILED" "SUBMISSION_FAILED" (some in_progress)
    ∷ edge "OGA_ACKNOWLEDGED" "OGA_VERIFICATION_APPROVED" "OGA_REVIEWED" (some completed)
    ∷ edge "OGA_ACKNOWLEDGED" "OGA_VERIFICATION_REJECTED" "OGA_REVIEWED" (some failed)
    ∷ edge "OGA_ACKNOWLEDGED" "OGA_VERIFICATION_FEEDBACK" "OGA_FEEDBACK_PROVIDED" (some in_progress)
    ∷ edge "OGA_FEEDBACK_PROVIDED" "OGA_VERIFICATION_APPROVED" "OGA_REVIEWED" (some completed)
    ∷ edge "OGA_FEEDBACK_PROVIDED" "OGA_VERIFICATION_REJECTED" "OGA_REVIEWED" (some failed)
    ∷ []
