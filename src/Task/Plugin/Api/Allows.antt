-- ===== src/Task/Plugin/Api/Allows.antt =====
-- Parts of methods by the actions that they perform: plugin/plugin.go.
use nsw.Prelude.{String, Bool, true, false, Result, ok, err, panic, ◌≡◌, refl, if◌then◌else◌}
use nsw.Task.Store.{Json}
use nsw.Task.Container.{ExecutionResponse, PluginRun}
use nsw.Task.Container.Performs.{Held, Performs}
use nsw.Task.Plugin.Api.{
  Call, ◌>>=◌, return, abort, try, require, get_task_id, get_workflow_id, get_plugin_state,
  get_task_state, read_from_global_store, read_from_local_store, write_to_local_store,
  can_transition, transition, run,
}

-- The part keeps to `P` and `J` if what follows it does, which may rely on `Q` of its result.
pub record Allows (P : String → Type 0) (J : String → Json → Type 0) {A : Type 0} (Q : A → Type 0)
    (m : Call A) : Type 0 where
  pub performs : (k : A → PluginRun) → ((a : A) → Q a → Performs P J (k a)) → Performs P J (m k)

-- Nothing is known of the result.
abbrev pub Any : {A : Type 0} → A → Type 0
Any a = Unit

module _ {P : String → Type 0} {J : String → Json → Type 0} where
  infixl 5 ◌then◌
  abbrev pub ◌then◌ :
      {A B : Type 0} {Q : A → Type 0} {R : B → Type 0} {m : Call A} {next : A → Call B}
      → Allows P J Q m
      → ((a : A) → Q a → Allows P J R (next a))
      → Allows P J R (m >>= next)
  ◌then◌ h step = record { performs = λ k hk. h.performs _ (λ a q. (step a q).performs k hk) }

  pub weaken :
      {A : Type 0} {Q R : A → Type 0} {m : Call A}
      → ((a : A) → Q a → R a)
      → Allows P J Q m
      → Allows P J R m
  weaken w h = record { performs = λ k hk. h.performs k (λ a q. hk a (w a q)) }

  pub return-Allows : {A : Type 0} {Q : A → Type 0} (a : A) → Q a → Allows P J Q (return a)
  return-Allows a q = record { performs = λ k h. h a q }

  pub abort-Allows : {A : Type 0} {Q : A → Type 0} (e : String) → Allows P J Q (abort e)
  unfolding Performs
  abort-Allows e = record { performs = λ k h. tt }

  pub try-Allows : {A : Type 0} (r : Result A) → Allows P J (λ a. r ≡ ok a) (try r)
  unfolding Performs
  try-Allows (ok a) = record { performs = λ k h. h a refl }
  try-Allows (err e) = record { performs = λ k h. tt }
  try-Allows panic = record { performs = λ k h. tt }

  pub if-Allows :
      {A : Type 0} {Q : A → Type 0} (b : Bool) {m n : Call A}
      → Allows P J Q m
      → Allows P J Q n
      → Allows P J Q (if b then m else n)
  if-Allows true h h' = h
  if-Allows false h h' = h'

  pub require-Allows : (b : Bool) (e : String) → Allows P J Any (require b e)
  require-Allows b e = if-Allows b (return-Allows tt tt) (abort-Allows e)

  pub read-Allows : (key : String) → Allows P J (Held J key) (read_from_local_store key)
  unfolding Performs
  read-Allows key = record { performs = λ k h. h }

  pub write-Allows :
      (key : String) (value : Json) → J key value → Allows P J Any (write_to_local_store key value)
  unfolding Performs
  write-Allows key value j = record { performs = λ k h. (j, λ x. h x tt) }

  pub global-Allows : (key : String) → Allows P J Any (read_from_global_store key)
  unfolding Performs
  global-Allows key = record { performs = λ k h x. h x tt }

  pub plugin_state-Allows : Allows P J Any get_plugin_state
  unfolding Performs
  plugin_state-Allows = record { performs = λ k h x. h x tt }

  pub task_state-Allows : Allows P J Any get_task_state
  unfolding Performs
  task_state-Allows = record { performs = λ k h x. h x tt }

  pub task_id-Allows : Allows P J Any get_task_id
  unfolding Performs
  task_id-Allows = record { performs = λ k h x. h x tt }

  pub workflow_id-Allows : Allows P J Any get_workflow_id
  unfolding Performs
  workflow_id-Allows = record { performs = λ k h x. h x tt }

  pub can_transition-Allows : (action : String) → Allows P J Any (can_transition action)
  unfolding Performs
  can_transition-Allows action = record { performs = λ k h x. h x tt }

  pub transition-Allows : (action : String) → P action → Allows P J Any (transition action)
  unfolding Performs
  transition-Allows action p = record { performs = λ k h. (p, λ x. h x tt) }

  pub run-Performs :
      {Q : ExecutionResponse → Type 0} (m : Call ExecutionResponse)
      → Allows P J Q m
      → Performs P J (run m)
  unfolding Performs
  run-Performs m h = h.performs _ (λ r q. tt)
