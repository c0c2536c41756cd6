-- ===== src/Workflow/Lifecycle.antt =====
-- The life of a workflow node: the moves between its states that the engine makes, and their
-- sequences.
use nsw.Prelude.{String, ◌≡◌, refl, Result, ok}
use nsw.Workflow.Model.{NodeState, locked, ready, in_progress, completed, failed, WorkflowNode}

infix 40 ◌⟶◌
pub data ◌⟶◌ : NodeState → NodeState → Type 0 where
  stay : {s : NodeState} → s ⟶ s
  unlock : locked ⟶ ready
  -- the end node is completed in the transition that unlocks it
  pass_end : locked ⟶ completed
  start : ready ⟶ in_progress
  retry : failed ⟶ in_progress
  finish_ready : ready ⟶ completed
  finish : in_progress ⟶ completed
  fail_ready : ready ⟶ failed
  fail : in_progress ⟶ failed

infix 40 ◌⟶*◌
pub data ◌⟶*◌ : NodeState → NodeState → Type 0 where
  here : {s : NodeState} → s ⟶* s
  then : {s t u : NodeState} → s ⟶ t → t ⟶* u → s ⟶* u

⟶_of_completed : {s t : NodeState} → s ⟶ t → s ≡ completed → t ≡ completed
⟶_of_completed stay h = h
⟶_of_completed finish_ready h = refl
⟶_of_completed finish h = refl
⟶_of_completed pass_end h = refl
⟶_of_completed _ h = cc

pub ⟶*_of_completed : {s t : NodeState} → s ⟶* t → s ≡ completed → t ≡ completed
⟶*_of_completed here h = h
⟶*_of_completed (then m ms) h = ⟶*_of_completed ms (⟶_of_completed m h)

-- `u` is a lawful new version of the node that `stored` has under its ID.
pub record Justified (stored : String → Result WorkflowNode) (u : WorkflowNode) : Type 0 where
  pub before : WorkflowNode
  pub found : stored u.id ≡ ok before
  pub move : before.state ⟶ u.state

-- Every stored node is still stored, in a state that its old one may move to.
pub record Lawful (before after : String → Result WorkflowNode) : Type 0 where
  pub moved :
      (i : String) (n : WorkflowNode)
      → before i ≡ ok n
      → (n' : WorkflowNode) × (after i ≡ ok n') × (n.state ⟶ n'.state)

pub Lawful-refl : (stored : String → Result WorkflowNode) → Lawful stored stored
Lawful-refl stored = record { moved = λ i n h. (n, h, stay) }
