-- ===== src/Workflow/StateMachine.antt =====
-- manager/state_machine.go: transitions of a workflow node and the unlocking of the nodes that
-- depend on it.
pub mod Unlocking
pub mod Releases
pub mod Entries
pub mod Plan
use Prim.Native.String.{compare}
use text.Mathlib.Text.{is_lt}
use nsw.Prelude.{
  ℕ, String, Bool, true, false, not, ◌&&◌, ◌||◌, Option, none, some, List, [], ◌∷◌, ◌++◌, Map,
  lookup, insert, length, set, is_some, if◌then◌else◌, Result, ok, ◌>>=◌,
}
use nsw.Workflow.Model.{
  NodeState, locked, ready, in_progress, completed, failed, is_state, WorkflowNode,
}
use nsw.Workflow.Unlock.{evaluate}

pub record TransitionResult : Type 0 where
  pub updated_nodes : List WorkflowNode
  pub new_ready_nodes : List WorkflowNode
  pub workflow_finished : Bool

-- `WorkflowCompletionConfig`
pub record CompletionConfig : Type 0 where
  pub end_node_id : Option String

abbrev pub can_transition_to_completed : NodeState → Bool
can_transition_to_completed s = is_state s ready || is_state s in_progress

abbrev pub can_transition_to_failed : NodeState → Bool
can_transition_to_failed s = is_state s ready || is_state s in_progress

abbrev pub can_transition_to_in_progress : NodeState → Bool
can_transition_to_in_progress s = is_state s ready || is_state s failed || is_state s in_progress

unfoldable pub insert_nodes : Map WorkflowNode → List WorkflowNode → Map WorkflowNode
insert_nodes m [] = m
insert_nodes m (n ∷ ns) = insert_nodes (insert n.id n m) ns

unfoldable pub build_node_state_map : List WorkflowNode → Map WorkflowNode
unfolding insert_nodes
build_node_state_map nodes = insert_nodes [] nodes

-- the loop over `DependsOn`
unfoldable pub all_completed : List String → Map WorkflowNode → Bool
all_completed [] nodes = true
all_completed (dep ∷ deps) nodes = elim (lookup dep nodes) [
  | none ↦ false
  | some n ↦ is_state n.state completed && all_completed deps nodes
]

unfoldable pub are_dependencies_met : WorkflowNode → Map WorkflowNode → Result Bool
are_dependencies_met node nodes = elim node.unlock_configuration [
  | some uc ↦ evaluate nodes uc
  | none ↦ ok (all_completed node.depends_on nodes)
]

-- one round of the loop of `unlockDependentNodes`: the node as unlocked, if it is
unfoldable pub unlock_node : WorkflowNode → Map WorkflowNode → Result (Option WorkflowNode)
unfolding are_dependencies_met
unlock_node node nodes = if not (is_state node.state locked) then ok none else do
  met ← are_dependencies_met node nodes
  ok (if met then some (record node { state = ready }) else none)

abbrev pub record_unlocked : Option WorkflowNode → Map WorkflowNode → Map WorkflowNode
record_unlocked none nodes = nodes
record_unlocked (some n) nodes = insert n.id n nodes

abbrev pub append_unlocked : Option WorkflowNode → List WorkflowNode → List WorkflowNode
append_unlocked none ns = ns
append_unlocked (some n) ns = n ∷ ns

-- `unlockDependentNodes`, which also writes each unlocked node into the map
unfoldable pub unlock_dependent_nodes :
    List WorkflowNode → Map WorkflowNode → Result (List WorkflowNode × Map WorkflowNode)
unlock_dependent_nodes [] nodes = ok ([], nodes)
unlock_dependent_nodes (n ∷ ns) nodes = do
  unlocked ← unlock_node n nodes
  (rest, nodes') ← unlock_dependent_nodes ns (record_unlocked unlocked nodes)
  ok (append_unlocked unlocked rest, nodes')

-- `nodesToUpdate`, with `updatedNodeIndex`, the position of each node ID in it
pub record Updates : Type 0 where
  pub nodes : List WorkflowNode
  pub index : Map ℕ

unfoldable pub append_update : Updates → WorkflowNode → Updates
append_update u n = record {
  nodes = u.nodes ++ n ∷ [];
  index = insert n.id (length u.nodes) u.index;
}

unfoldable pub append_if_new : Updates → WorkflowNode → Updates
unfolding append_update
append_if_new u n = if is_some (lookup n.id u.index) then u else append_update u n

unfoldable pub append_updates : Updates → List WorkflowNode → Updates
unfolding append_if_new
append_updates u [] = u
append_updates u (n ∷ ns) = append_updates (append_if_new u n) ns

-- `nodesToUpdate[index] = endNode`, or an append
unfoldable pub write_end_node : Option ℕ → WorkflowNode → Updates → Updates
unfolding append_update
write_end_node none n u = append_update u n
write_end_node (some i) n u = record u { nodes = set u.nodes i n }

unfoldable pub complete_found :
    Option WorkflowNode → String → Updates → Map WorkflowNode → Updates × Map WorkflowNode
unfolding write_end_node
complete_found none end_id u nodes = (u, nodes)
complete_found (some found) end_id u nodes =
    let end_node = record found { state = completed } in
    if is_state found.state ready
    then (write_end_node (lookup end_id u.index) end_node u, insert end_id end_node nodes)
    else (u, nodes)

unfoldable pub complete_end_id :
    Option String → Updates → Map WorkflowNode → Updates × Map WorkflowNode
unfolding complete_found
complete_end_id none u nodes = (u, nodes)
complete_end_id (some end_id) u nodes = complete_found (lookup end_id nodes) end_id u nodes

-- The end node, once it is READY, is completed in the same transition.
unfoldable pub complete_end_node :
    Option CompletionConfig → Updates → Map WorkflowNode → Updates × Map WorkflowNode
unfolding complete_end_id
complete_end_node none u nodes = (u, nodes)
complete_end_node (some cfg) u nodes = complete_end_id cfg.end_node_id u nodes

abbrev is_ready_in : Map WorkflowNode → String → Bool
is_ready_in nodes id = elim (lookup id nodes) [ none ↦ false | some n ↦ is_state n.state ready ]

unfoldable pub new_ready_nodes : Map WorkflowNode → List WorkflowNode → List WorkflowNode
new_ready_nodes nodes [] = []
new_ready_nodes nodes (u ∷ us) =
    let rest = new_ready_nodes nodes us in if is_ready_in nodes u.id then u ∷ rest else rest

-- `sortNodesByID`. The order of entries with one ID is left open by `sort.Slice`.
unfoldable pub insert_sorted : WorkflowNode → List WorkflowNode → List WorkflowNode
insert_sorted n [] = n ∷ []
insert_sorted n (m ∷ ms) =
    let rest = insert_sorted n ms in if is_lt (compare m.id n.id) then m ∷ rest else n ∷ m ∷ ms

unfoldable pub sort_nodes_by_id : List WorkflowNode → List WorkflowNode
unfolding insert_sorted
sort_nodes_by_id [] = []
sort_nodes_by_id (n ∷ ns) = insert_sorted n (sort_nodes_by_id ns)

abbrev is_completed_in : Map WorkflowNode → WorkflowNode → Bool
is_completed_in nodes n = elim (lookup n.id nodes) [
  | none ↦ is_state n.state completed
  | some current ↦ is_state current.state completed
]

unfoldable pub all_nodes_completed : List WorkflowNode → Map WorkflowNode → Bool
all_nodes_completed [] nodes = true
all_nodes_completed (n ∷ ns) nodes = is_completed_in nodes n && all_nodes_completed ns nodes

unfoldable pub evaluate_workflow_completion :
    List WorkflowNode → Map WorkflowNode → Option CompletionConfig → Bool
unfolding all_nodes_completed
evaluate_workflow_completion all_nodes nodes none = all_nodes_completed all_nodes nodes
evaluate_workflow_completion all_nodes nodes (some cfg) = elim cfg.end_node_id [
  | none ↦ all_nodes_completed all_nodes nodes
  | some end_id ↦ elim (lookup end_id nodes) [ none ↦ false | some n ↦ is_state n.state completed ]
]

-- from the unlocked nodes and the map after the loop to what is written and returned
unfoldable pub completion_result :
    WorkflowNode
    → List WorkflowNode
    → Option CompletionConfig
    → List WorkflowNode × Map WorkflowNode
    → TransitionResult
completion_result node all_nodes cfg (unlocked, nodes) =
    let first_update : Updates = record { nodes = node ∷ []; index = insert node.id 0 [] } in
    let (updates, final) = complete_end_node cfg (append_updates first_update unlocked) nodes in
    record {
      updated_nodes = sort_nodes_by_id updates.nodes;
      new_ready_nodes = new_ready_nodes final unlocked;
      workflow_finished = evaluate_workflow_completion all_nodes final cfg;
    }

-- What `TransitionToCompleted` computes between reading the siblings and writing the updates.
unfoldable pub plan_completion :
    WorkflowNode → List WorkflowNode → Option CompletionConfig → Result TransitionResult
unfolding completion_result
plan_completion node all_nodes cfg = do
  looped ← unlock_dependent_nodes all_nodes (insert node.id node (build_node_state_map all_nodes))
  ok (completion_result node all_nodes cfg looped)
