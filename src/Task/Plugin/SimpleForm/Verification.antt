-- ===== src/Task/Plugin/SimpleForm/Verification.antt =====
-- A form that an agency has to review is not completed without a review: plugin/simple_form.go.
use nsw.Prelude.{
  test_of_ne, String, true, some, ok, ◌==◌, ◌≡◌, ◌≢◌, inl, inr, refl, Bool-cases, ok-inj,
}
use nsw.Task.Plugin.Tables.{simple_form_fsm}
use nsw.Task.Store.{TaskTable}
use nsw.Task.LocalState.{Codec}
use nsw.Task.Container.{Container, run_plugin}
use nsw.Task.Container.Performs.{
  AnyEntry, NeverCompletes, NeverCompletes-All, IsOpenTask, run_plugin-IsOpenTask,
}
use nsw.Task.Factory.{ExecutionRequest}
use nsw.Task.Plugin.Api.Allows.{run-Performs}
use nsw.Task.Plugin.Config.{Services}
use nsw.Task.Plugin.SimpleForm.{FormConfig, requires_verification}
use nsw.Task.Plugin.SimpleForm.Methods.{resolve_action, execute, simple_form}
use nsw.Task.Plugin.SimpleForm.Calls.{KeepsHistory, execute-Allows}

-- The actions that no edge of the table completes the task by.
abbrev IsPending : String → Type 0
IsPending action = (action ≢ "SUBMIT_FORM_COMPLETE") × (action ≢ "OGA_VERIFICATION_APPROVED")

simple_form_fsm-NeverCompletes : NeverCompletes simple_form_fsm IsPending
unfolding simple_form_fsm
simple_form_fsm-NeverCompletes = NeverCompletes-All IsPending simple_form_fsm (
  (λ p e. absurd cc),
  (
    (λ p e. absurd cc),
    (
      (λ p e. absurd cc),
      (
        (λ p e. absurd cc),
        (
          (λ p e. p.0 refl),
          (
            (λ p e. p.0 refl),
            (
              (λ p e. p.0 refl),
              (
                (λ p e. absurd cc),
                (
                  (λ p e. absurd cc),
                  (
                    (λ p e. absurd cc),
                    (
                      (λ p e. absurd cc),
                      (
                        (λ p e. absurd cc),
                        (
                          (λ p e. absurd cc),
                          (
                            (λ p e. absurd cc),
                            (
                              (λ p e. p.1 refl),
                              (
                                (λ p e. absurd cc),
                                ((λ p e. absurd cc), ((λ p e. p.1 refl), ((λ p e. absurd cc), tt))),
                              ),
                            ),
                          ),
                        ),
                      ),
                    ),
                  ),
                ),
              ),
            ),
          ),
        ),
      ),
    ),
  ),
)

-- The request neither is a verification nor names an action that completes the task.
pub record IsUnverified (action : String) : Type 0 where
  pub no_verification : action ≢ "OGA_VERIFICATION"
  pub pending : IsPending action

-- What such a request stands for is not an action that completes the task.
resolve_action-IsPending :
    (services : Services) (config : FormConfig) (request : ExecutionRequest) (action : String)
    → requires_verification config ≡ true
    → IsUnverified request.action
    → resolve_action services config request ≡ ok action
    → IsPending action
unfolding resolve_action
resolve_action-IsPending services config request action r u h =
    elim (Bool-cases (request.action == "SUBMIT_FORM")) [
      | inl e ↦
          let same : "SUBMIT_FORM_AWAIT_OGA" ≡ action = ok-inj (rw (e, r) at h) in
          rw (← same) ((λ e. absurd cc), λ e. absurd cc)
      | inr e ↦
          let same : request.action ≡ action =
            ok-inj (rw (e, test_of_ne _ _ u.no_verification) at h) in
          rw (← same) u.pending
    ]

-- A form whose task requires verification does not complete it on any request but a verification:
-- whatever the external service, the form registry and the database answer, a task that is not
-- completed and goes by the table of forms is not completed after `Execute`. It is assumed that the
-- request names neither the verification nor one of the two internal actions whose edges complete
-- the task.
pub execute-IsOpenTask :
    {S : Type 0} (services : Services) (config : FormConfig) (request : ExecutionRequest)
    (t : TaskTable S) (codec : Codec) (c : Container) (s : S)
    → requires_verification config ≡ true
    → IsUnverified request.action
    → IsOpenTask simple_form_fsm c
    → IsOpenTask simple_form_fsm
        (run_plugin t codec ((simple_form services config).execute (some request)) c s).0
unfolding simple_form
execute-IsOpenTask services config request t codec c s r u h =
    let anything : KeepsHistory services AnyEntry (λ history. Unit) = record {
      free = λ key value ne. tt;
      starts = tt;
      reads = λ value history j e. tt;
      writes = λ history remarks n. tt;
    } in
    run_plugin-IsOpenTask t codec simple_form_fsm IsPending simple_form_fsm-NeverCompletes _ c s
      (run-Performs (execute services config request) (
        execute-Allows services IsPending AnyEntry (λ history. Unit) anything config request
          ((λ e. absurd cc), λ e. absurd cc)
          (λ action. resolve_action-IsPending services config request action r u)))
      h
