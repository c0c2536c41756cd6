-- ===== src/Task/Plugin/SimpleForm/Feedback.antt =====
-- The rounds of feedback in the local state of a task: plugin/simple_form.go.
use nsw.Prelude.{ℕ, ◌+◌, some, List, length, ok, ◌≡◌, refl, sym, arith}
use mathlib.Core.Path.{subst}
use nsw.Json.{Fields}
use nsw.Task.Store.{Json, TaskTable}
use nsw.Task.LocalState.{Codec, LocalState}
use nsw.Task.Container.{Container, run_plugin}
use nsw.Task.Container.Performs.{AnyAction}
use nsw.Task.Container.Entries.{OnKey, HasEntry, Keeps-HasEntry, HasEntry-Keeps, run_plugin-Keeps}
use nsw.Task.Factory.{ExecutionRequest}
use nsw.Task.Plugin.Rounds.{rounds, KeepsRounds, NumberedFrom, NumberedFrom-append}
use nsw.Task.Plugin.Api.Allows.{run-Performs}
use nsw.Task.Plugin.Config.{FeedbackEntry, Services}
use nsw.Task.Plugin.SimpleForm.{FormConfig}
use nsw.Task.Plugin.SimpleForm.Review.{append_feedback}
use nsw.Task.Plugin.SimpleForm.Methods.{execute, simple_form}
use nsw.Task.Plugin.SimpleForm.Calls.{KeepsHistory, execute-Allows}

-- The rounds are numbered from one.
abbrev pub round_of : FeedbackEntry → ℕ
round_of e = e.round

abbrev pub IsNumbered : List FeedbackEntry → Type 0
IsNumbered history = NumberedFrom 1 (rounds round_of history)

abbrev pub HoldsNumbered : Services → Json → Type 0
HoldsNumbered services value =
    (history : List FeedbackEntry)
    → services.feedback.decode value ≡ ok history
    → IsNumbered history

-- The feedback that the local state holds is numbered.
abbrev pub FeedbackIsNumbered : Services → LocalState → Type 0
FeedbackIsNumbered services m = HasEntry "ogaFeedback" (HoldsNumbered services) m

append_feedback-IsNumbered :
    (services : Services) (history : List FeedbackEntry) (remarks : Fields)
    → IsNumbered history
    → IsNumbered (append_feedback services history remarks)
unfolding append_feedback
append_feedback-IsNumbered services history remarks h =
    NumberedFrom-append round_of 1 history
      (record { content = remarks; timestamp = services.now; round = length history + 1 }) h
      (omega arith)

KeepsHistory-IsNumbered :
    (services : Services)
    → KeepsRounds round_of services.feedback
    → KeepsHistory services (OnKey "ogaFeedback" (HoldsNumbered services)) IsNumbered
KeepsHistory-IsNumbered services coding = record {
  free = λ key value ne same. absurd (ne same);
  starts = tt;
  reads = λ value history held e. held refl history e;
  writes = λ history remarks h same stored e.
      subst (NumberedFrom 1) (sym (coding (append_feedback services history remarks) stored e))
        (append_feedback-IsNumbered services history remarks h);
}

-- If the rounds of feedback that the local state holds are numbered from one in their order, they
-- are so after `Execute` of any request. It is assumed that the numbers of the rounds survive their
-- coding as JSON.
pub execute-FeedbackIsNumbered :
    {S : Type 0} (services : Services) (config : FormConfig) (request : ExecutionRequest)
    (t : TaskTable S) (codec : Codec) (c : Container) (s : S)
    → KeepsRounds round_of services.feedback
    → FeedbackIsNumbered services c.local_state
    → FeedbackIsNumbered services
        (run_plugin t codec
          ((simple_form services config).execute (some request))
          c
          s).0.local_state
unfolding simple_form
execute-FeedbackIsNumbered services config request t codec c s coding h =
    let K = HoldsNumbered services in
    HasEntry-Keeps "ogaFeedback" K _ (
      run_plugin-Keeps t codec (OnKey "ogaFeedback" K) _ c s
        (run-Performs (execute services config request) (
          execute-Allows services AnyAction (OnKey "ogaFeedback" K) IsNumbered
            (KeepsHistory-IsNumbered services coding) config request tt (λ action e. tt)))
        (Keeps-HasEntry "ogaFeedback" K c.local_state h))
