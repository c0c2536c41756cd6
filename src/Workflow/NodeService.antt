-- ===== src/Workflow/NodeService.antt =====
-- service/workflow_node_service.go: the repository of workflow nodes over one database table.
-- The table itself is gorm's, and a parameter: `First`, `Find`, `Create` and `Save` inside a
-- transaction, as functions of the state of that transaction.
pub mod Writes
pub mod Rows
use nsw.Prelude.{
  String, List, [], ◌∷◌, ◌≡◌, ◌≢◌, All, is_empty, if◌then◌else◌, Result, ok, ◌>>=◌, wrap,
}
use nsw.Workflow.Model.{WorkflowNode}

pub record NodeTable (S : Type 0) : Type 0 where
  -- `tx.Where("id = ?", id).First(&node)`
  pub first : S → String → Result WorkflowNode
  -- `tx.Where("workflow_id = ?", id).Find(&nodes)`
  pub find : S → String → Result (List WorkflowNode)
  -- `tx.Create(&nodes)`, which fills in the identifiers
  pub create : S → List WorkflowNode → Result (List WorkflowNode × S)
  -- `tx.Save(&node)`
  pub save : S → WorkflowNode → Result S

-- What gorm documents of them, with `id` as the primary key.
pub record IsNodeTable {S : Type 0} (t : NodeTable S) : Type 0 where
  pub first_id : (s : S) (i : String) (n : WorkflowNode) → t.first s i ≡ ok n → n.id ≡ i
  pub first-save_self : (s s' : S) (n : WorkflowNode) → t.save s n ≡ ok s' → t.first s' n.id ≡ ok n
  pub first-save_ne :
      (s s' : S) (n : WorkflowNode) (j : String)
      → t.save s n ≡ ok s'
      → n.id ≢ j
      → t.first s' j ≡ t.first s j
  pub find_first :
      (s : S) (w : String) (ns : List WorkflowNode)
      → t.find s w ≡ ok ns
      → All (λ (n : WorkflowNode). t.first s n.id ≡ ok n) ns

-- `WorkflowNodeRepository`, the interface that the manager works with.
pub record NodeRepository (S : Type 0) : Type 0 where
  pub get_node : S → String → Result WorkflowNode
  pub get_workflow_nodes : S → String → Result (List WorkflowNode)
  pub create_nodes : S → List WorkflowNode → Result (List WorkflowNode × S)
  pub update_nodes : S → List WorkflowNode → Result S

-- "Update the fields": the stored row keeps all other fields
unfoldable pub updated_row : WorkflowNode → WorkflowNode → WorkflowNode
updated_row existing node = record existing {
  state = node.state;
  extended_state = node.extended_state;
  outcome = node.outcome;
  depends_on = node.depends_on;
  unlock_configuration = node.unlock_configuration;
}

module _ {S : Type 0} (t : NodeTable S) where
  -- `GetWorkflowNodeByIDInTx`
  unfoldable pub get_node : S → String → Result WorkflowNode
  get_node s id = wrap "failed to retrieve workflow node in transaction: " (t.first s id)

  -- `GetWorkflowNodesByWorkflowIDInTx`
  unfoldable pub get_workflow_nodes : S → String → Result (List WorkflowNode)
  get_workflow_nodes s workflow_id =
      wrap "failed to retrieve workflow nodes for workflow in transaction: " (t.find s workflow_id)

  -- `CreateWorkflowNodesInTx`
  unfoldable pub create_nodes : S → List WorkflowNode → Result (List WorkflowNode × S)
  create_nodes s nodes =
      if is_empty nodes
      then ok ([], s)
      else wrap "failed to create workflow nodes in transaction: " (t.create s nodes)

  -- one round of the loop of `UpdateWorkflowNodesInTx`
  unfoldable pub update_node : S → WorkflowNode → Result S
  unfolding updated_row
  update_node s node = do
    existing ← wrap "failed to find workflow node for update: " (t.first s node.id)
    wrap "failed to update workflow node in transaction: " (t.save s (updated_row existing node))

  -- `UpdateWorkflowNodesInTx`
  unfoldable pub update_nodes : S → List WorkflowNode → Result S
  update_nodes s [] = ok s
  update_nodes s (node ∷ nodes) = do s' ← update_node s node; update_nodes s' nodes

  unfoldable pub node_service : NodeRepository S
  unfolding get_node get_workflow_nodes create_nodes update_nodes update_node
  node_service = record {
    get_node = get_node;
    get_workflow_nodes = get_workflow_nodes;
    create_nodes = create_nodes;
    update_nodes = update_nodes;
  }
