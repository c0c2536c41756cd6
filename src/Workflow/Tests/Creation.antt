-- ===== src/Workflow/Tests/Creation.antt =====
-- The creation of a workflow of two nodes.
use nsw.Prelude.{none, [], ◌∷◌, ◌++◌, map, ◌≡◌, refl, arith, eq_iff, ok, lookup, insert}
use nsw.Workflow.Model.{locked, ready, NodeTemplate, WorkflowNode}
use nsw.Workflow.NodeService.{NodeTable, IsNodeTable, node_service}
use nsw.Workflow.Initialize.{
  Initialized, new_node, template_map, template_to_node_id, initialize_nodes_from_templates,
}
use nsw.Workflow.Initialize.Stored.{IsCreation, AreNew, initialize_nodes_from_templates-AreNew}
use nsw.Workflow.Tests.{Tables, node_table, node_table-IsNodeTable}

-- The identifier of a created node is that of its template.
abbrev filling_table : NodeTable Tables
filling_table = record node_table {
  create = λ s ns.
      let made = map (λ (n : WorkflowNode). record n { id = n.template_id }) ns in
      ok (made, record s { rows = s.rows ++ made });
}

filling_table-IsNodeTable : IsNodeTable filling_table
filling_table-IsNodeTable = record {
  first_id = node_table-IsNodeTable.first_id;
  first-save_self = node_table-IsNodeTable.first-save_self;
  first-save_ne = node_table-IsNodeTable.first-save_ne;
  find_first = node_table-IsNodeTable.find_first;
}

abbrev form : NodeTemplate
form = record {
  id = "form";
  type_name = "SIMPLE_FORM";
  config = "{}";
  depends_on = [];
  unlock_configuration = none;
}

abbrev payment : NodeTemplate
payment = record form { id = "payment"; depends_on = "form" ∷ [] }

abbrev made_of : NodeTemplate → WorkflowNode
made_of template = record {
  id = template.id;
  workflow_id = "w";
  template_id = template.id;
  state = locked;
  extended_state = none;
  outcome = none;
  depends_on = [];
  unlock_configuration = none;
}

abbrev no_tables : Tables
no_tables = record { rows = []; workflows = [] }

abbrev with_rows : Tables
with_rows = record { rows = made_of form ∷ made_of payment ∷ []; workflows = [] }

abbrev form_ready : WorkflowNode
form_ready = record (made_of form) { state = ready }

abbrev payment_locked : WorkflowNode
payment_locked = record (made_of payment) { depends_on = "form" ∷ [] }

abbrev new_workflow : Initialized
new_workflow = record {
  created = form_ready ∷ payment_locked ∷ [];
  new_ready = form_ready ∷ [];
  to_update = form_ready ∷ payment_locked ∷ [];
  end_node_id = none;
}

abbrev with_workflow : Tables
with_workflow = record { rows = form_ready ∷ payment_locked ∷ []; workflows = [] }

with_rows-IsCreation : IsCreation filling_table with_rows (made_of form ∷ made_of payment ∷ [])
with_rows-IsCreation = record {
  stored = (refl, (refl, tt));
  distinct = ((λ same. absurd (ground (arith, eq_iff "form" "payment")), tt), (tt, tt));
  are_locked = (refl, (refl, tt));
}

new_workflow-run :
    initialize_nodes_from_templates (node_service filling_table) "w" (form ∷ payment ∷ []) no_tables
    ≡ ok (new_workflow, with_workflow)
unfolding initialize_nodes_from_templates node_service nsw.Workflow.Initialize.initialize_node
    lookup insert new_node nsw.Workflow.Initialize.resolve_depends_on template_to_node_id
new_workflow-run = refl

initialize_nodes_from_templates-AreNew_example :
    AreNew filling_table
      (template_map [] (form ∷ payment ∷ []))
      (template_to_node_id [] (made_of form ∷ made_of payment ∷ []))
      with_workflow
      new_workflow
unfolding new_node
initialize_nodes_from_templates-AreNew_example =
    initialize_nodes_from_templates-AreNew filling_table filling_table-IsNodeTable "w" form
      (payment ∷ []) no_tables with_rows (made_of form ∷ made_of payment ∷ []) refl
      with_rows-IsCreation new_workflow-run
