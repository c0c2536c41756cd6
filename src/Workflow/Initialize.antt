-- ===== src/Workflow/Initialize.antt =====
-- `InitializeNodesFromTemplates` of manager/state_machine.go: nodes from templates, with template
-- IDs in dependencies and unlock configurations replaced by the IDs of the nodes created.
pub mod Nodes
pub mod Stored
use nsw.Prelude.{
  String, Bool, false, not, ◌&&◌, ◌||◌, Option, none, some, List, [], ◌∷◌, Map, lookup, insert,
  ◌==◌, map, is_empty, is_some, if◌then◌else◌, Result, ok, err, ◌>>=◌, wrap,
}
use nsw.Workflow.Model.{locked, ready, NodeTemplate, WorkflowNode, UnlockConfig}
use nsw.Workflow.Unlock.{resolve_to_instance_ids}
use nsw.Workflow.NodeService.{NodeRepository}

-- `createdNodes`, `newReadyNodes`, `nodesToUpdate` and `endNodeID`
pub record Initialized : Type 0 where
  pub created : List WorkflowNode
  pub new_ready : List WorkflowNode
  pub to_update : List WorkflowNode
  pub end_node_id : Option String

unfoldable pub template_map : Map NodeTemplate → List NodeTemplate → Map NodeTemplate
template_map m [] = m
template_map m (t ∷ ts) = template_map (insert t.id t m) ts

unfoldable pub new_node : String → NodeTemplate → WorkflowNode
new_node workflow_id template = record {
  id = "";
  workflow_id = workflow_id;
  template_id = template.id;
  state = locked;
  extended_state = none;
  outcome = none;
  depends_on = [];
  unlock_configuration = none;
}

-- `nodeByTemplateID`, of which only the IDs of the nodes are used, so also `templateToNodeID`
unfoldable pub template_to_node_id : Map String → List WorkflowNode → Map String
template_to_node_id m [] = m
template_to_node_id m (n ∷ ns) = template_to_node_id (insert n.template_id n.id m) ns

-- the loop over `template.DependsOn`; a dependency without a node is dropped
unfoldable pub resolve_depends_on : Map String → List String → List String
resolve_depends_on ids [] = []
resolve_depends_on ids (t ∷ ts) =
    let rest = resolve_depends_on ids ts in
    elim (lookup t ids) [ none ↦ rest | some id ↦ id ∷ rest ]

unfoldable pub resolve_configuration :
    Map String → Option UnlockConfig → Result (Option UnlockConfig)
resolve_configuration ids none = ok none
resolve_configuration ids (some uc) = do
  resolved ←
      wrap "failed to resolve unlock configuration for node template: "
        (resolve_to_instance_ids ids uc)
  ok (some resolved)

-- one round of the loop over `createdNodes`: the node with its dependencies and its state
unfoldable pub initialize_node : Map NodeTemplate → Map String → WorkflowNode → Result WorkflowNode
unfolding resolve_configuration
initialize_node templates ids node = elim (lookup node.template_id templates) [
  | none ↦ err "workflow node template not found"
  | some template ↦ do
    config ← resolve_configuration ids template.unlock_configuration
    let depends_on = resolve_depends_on ids template.depends_on
    ok (record node {
      depends_on = depends_on;
      unlock_configuration = config;
      state = if is_empty depends_on && not (is_some config) then ready else node.state;
    })
]

-- `needsUpdate`, which holds on each of the three ways through
abbrev pub needs_update : WorkflowNode → Bool
needs_update n =
    not (is_empty n.depends_on)
    || is_some n.unlock_configuration
    || (is_empty n.depends_on && not (is_some n.unlock_configuration))

abbrev pub is_end_node : Map NodeTemplate → WorkflowNode → Bool
is_end_node templates n = elim (lookup n.template_id templates) [
  | none ↦ false
  | some template ↦ template.type_name == "END_NODE"
]

unfoldable pub add_node : Bool → WorkflowNode → Initialized → Initialized
add_node is_end n rest = record {
  created = n ∷ rest.created;
  new_ready =
      if is_empty n.depends_on && not (is_some n.unlock_configuration)
      then n ∷ rest.new_ready
      else rest.new_ready;
  to_update = if needs_update n then n ∷ rest.to_update else rest.to_update;
  end_node_id =
      if is_some rest.end_node_id then rest.end_node_id else if is_end then some n.id else none;
}

-- the loop; of several end nodes the last one counts
unfoldable pub initialize_nodes :
    Map NodeTemplate → Map String → List WorkflowNode → Result Initialized
unfolding add_node
initialize_nodes templates ids [] =
    ok (record { created = []; new_ready = []; to_update = []; end_node_id = none })
initialize_nodes templates ids (node ∷ nodes) = do
  n ← initialize_node templates ids node
  rest ← initialize_nodes templates ids nodes
  ok (add_node (is_end_node templates node) n rest)

module _ {S : Type 0} (repo : NodeRepository S) where
  -- `InitializeNodesFromTemplates`
  unfoldable pub initialize_nodes_from_templates :
      String → List NodeTemplate → S → Result (Initialized × S)
  unfolding initialize_nodes template_map
  initialize_nodes_from_templates workflow_id templates s =
      if is_empty templates
      then ok (record { created = []; new_ready = []; to_update = []; end_node_id = none }, s)
      else do
        (created, s₁) ←
            wrap "failed to create workflow nodes: "
              (repo.create_nodes s (map (new_node workflow_id) templates))
        result ←
            initialize_nodes (template_map [] templates) (template_to_node_id [] created) created
        s₂ ←
            (if is_empty result.to_update
              then ok s₁
              else wrap "failed to update workflow nodes with dependencies: "
                  (repo.update_nodes s₁ result.to_update))
        ok (result, s₂)
