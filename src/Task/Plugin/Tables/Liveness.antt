-- ===== src/Task/Plugin/Tables/Liveness.antt =====
-- The three transition tables: from every plugin state, some actions complete the task.
use nsw.Prelude.{String, some, All, ok, ◌≡◌, ◌⊎◌, inl, inr, refl}
use nsw.Task.Plugin.State.{completed, failed}
use nsw.Task.Plugin.Fsm.{TransitionKey, TransitionOutcome, PluginFsm, transition}
use nsw.Task.Plugin.Tables.{payment_fsm, wait_for_event_fsm, simple_form_fsm}

-- Some actions, each permitted where it is performed, complete the task from the plugin state.
pub data Finishes (fsm : PluginFsm) : String → Type 0 where
  last :
      (state action : String) (outcome : TransitionOutcome)
      → transition fsm state action ≡ ok outcome
      → outcome.next_task_state ≡ some completed
      → Finishes fsm state
  before :
      (state action : String) (outcome : TransitionOutcome)
      → transition fsm state action ≡ ok outcome
      → Finishes fsm outcome.next_plugin_state
      → Finishes fsm state

-- The edge ends the task, or leads to a plugin state from which it can be completed.
abbrev pub LeavesHope : PluginFsm → TransitionKey × TransitionOutcome → Type 0
LeavesHope fsm (key, outcome) =
    (outcome.next_task_state ≡ some completed)
    ⊎ (outcome.next_task_state ≡ some failed)
    ⊎ Finishes fsm outcome.next_plugin_state

-- So does the state that a task begins in, and so does every state that an edge leads to.
abbrev pub IsLive : PluginFsm → Type 0
IsLive fsm = Finishes fsm "" × All (LeavesHope fsm) fsm

payment_pays : Finishes payment_fsm "IN_PROGRESS"
unfolding payment_fsm transition
payment_pays = last "IN_PROGRESS" "PAYMENT_SUCCESS" _ refl refl

payment_idle : Finishes payment_fsm "IDLE"
unfolding payment_fsm transition
payment_idle = before "IDLE" "INITIATE_PAYMENT" _ refl payment_pays

payment_fsm-IsLive : IsLive payment_fsm
unfolding payment_fsm transition
payment_fsm-IsLive = (
  before "" "START" _ refl payment_idle,
  (
    inr (inr payment_idle),
    (
      inr (inr payment_pays),
      (inr (inr payment_pays), (inl refl, (inr (inr payment_idle), (inr (inr payment_idle), tt)))),
    ),
  ),
)

event_called : Finishes wait_for_event_fsm "NOTIFIED_SERVICE"
unfolding wait_for_event_fsm transition
event_called = last "NOTIFIED_SERVICE" "OGA_VERIFICATION" _ refl refl

event_retried : Finishes wait_for_event_fsm "NOTIFY_FAILED"
unfolding wait_for_event_fsm transition
event_retried = before "NOTIFY_FAILED" "RETRY" _ refl event_called

wait_for_event_fsm-IsLive : IsLive wait_for_event_fsm
unfolding wait_for_event_fsm transition
wait_for_event_fsm-IsLive = (
  before "" "START" _ refl event_called,
  (inr (inr event_called), (inr (inr event_retried), (inr (inr event_called), (inl refl, tt)))),
)

form_at :
    (state : String)
    → transition simple_form_fsm state "SUBMIT_FORM_COMPLETE"
      ≡ ok (record { next_plugin_state = "SUBMITTED"; next_task_state = some completed })
    → Finishes simple_form_fsm state
form_at state e = last state "SUBMIT_FORM_COMPLETE" _ e refl

form_reviewed :
    (state : String)
    → transition simple_form_fsm state "OGA_VERIFICATION_APPROVED"
      ≡ ok (record { next_plugin_state = "OGA_REVIEWED"; next_task_state = some completed })
    → Finishes simple_form_fsm state
form_reviewed state e = last state "OGA_VERIFICATION_APPROVED" _ e refl

simple_form_fsm-IsLive : IsLive simple_form_fsm
unfolding simple_form_fsm transition
simple_form_fsm-IsLive =
    let draft = form_at "DRAFT" refl in
    let unsent = form_at "SUBMISSION_FAILED" refl in
    let acknowledged = form_reviewed "OGA_ACKNOWLEDGED" refl in
    let advised = form_reviewed "OGA_FEEDBACK_PROVIDED" refl in
    let fresh = form_at "INITIALIZED" refl in
    (
      before "" "START" _ refl fresh,
      (
        inr (inr fresh),
        (
          inr (inr draft),
          (
            inr (inr draft),
            (
              inr (inr draft),
              (
                inl refl,
                (
                  inl refl,
                  (
                    inl refl,
                    (
                      inr (inr acknowledged),
                      (
                        inr (inr acknowledged),
                        (
                          inr (inr acknowledged),
                          (
                            inr (inr acknowledged),
                            (
                              inr (inr unsent),
                              (
                                inr (inr unsent),
                                (
                                  inr (inr unsent),
                                  (
                                    inl refl,
                                    (
                                      inr (inl refl),
                                      (inr (inr advised), (inl refl, (inr (inl refl), tt))),
                                    ),
                                  ),
                                ),
                              ),
                            ),
                          ),
                        ),
                      ),
                    ),
                  ),
                ),
              ),
            ),
          ),
        ),
      ),
    )

-- By each of the three transition tables, some permitted actions complete a task that is new, and
-- every edge ends the task or leads to a plugin state from which some permitted actions complete
-- it.
pub tables-IsLive : IsLive payment_fsm × IsLive wait_for_event_fsm × IsLive simple_form_fsm
tables-IsLive = (payment_fsm-IsLive, wait_for_event_fsm-IsLive, simple_form_fsm-IsLive)
