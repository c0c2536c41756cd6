-- ===== src/Workflow/Manager/Start.antt =====
-- manager/manager.go: `StartWorkflowInstance` and `RegisterTaskHandler`.
use nsw.Prelude.{
  String, Option, none, some, List, [], ◌∷◌, ◌++◌, Map, insert, ◌==◌, any, if◌then◌else◌, Result,
  ok, err, panic, ◌>>=◌, wrap,
}
use nsw.Workflow.Model.{
  Json, NodeTemplate, WorkflowNode, WorkflowStatus, Workflow, WorkflowTemplate,
}
use nsw.Workflow.Initialize.{initialize_nodes_from_templates}
use nsw.Workflow.Manager.{Database, EventHandler, InitTaskRequest, TemplateProvider, Engine}
use nsw.Workflow.Manager.TaskUpdate.{register_nodes}

-- `RegisterTaskHandler`
unfoldable pub register_task_handler :
    {S T : Type 0}
    → Engine S T
    → Option (T → InitTaskRequest → T × Result (Unit {0}))
    → Engine S T × Result (Unit {0})
register_task_handler e none = (e, err "init task callback cannot be nil")
register_task_handler e (some callback) = (record e { init_task = some callback }, ok tt)

-- the key set of `uniqueNodeTemplateIDs`, in the order of first insertion
unfoldable pub add_unique : List String → List String → List String
add_unique seen [] = seen
add_unique seen (id ∷ ids) =
    add_unique (if any (λ s. s == id) seen then seen else seen ++ id ∷ []) ids

unfoldable pub unique_ids : List String → List WorkflowTemplate → List String
unfolding add_unique
unique_ids seen [] = seen
unique_ids seen (t ∷ ts) = unique_ids (add_unique seen t.node_templates) ts

unfoldable pub end_template_ids : List WorkflowTemplate → List String
end_template_ids [] = []
end_template_ids (t ∷ ts) =
    let rest = end_template_ids ts in
    elim t.end_node_template_id [ none ↦ rest | some id ↦ id ∷ rest ]

-- The shared end node waits for the end nodes of the templates.
unfoldable pub add_end_template :
    TemplateProvider → List String → List NodeTemplate → Result (List NodeTemplate)
add_end_template templates [] found = ok found
add_end_template templates (id ∷ ids) found = do
  end_template ← wrap "failed to get end node template: " templates.get_end_template
  ok (found ++ record end_template { depends_on = id ∷ ids } ∷ [])

module _ {S : Type 0} (database : Database S) (templates : TemplateProvider) where
  unfoldable pub save_end_node : Workflow → Option String → S → Result (Workflow × S)
  save_end_node wf none s = ok (wf, s)
  save_end_node wf (some id) s = do
    let wf' : Workflow = record wf { end_node_id = some id }
    s' ← wrap "failed to update workflow end node: " (database.save_workflow s wf')
    ok (wf', s')

  -- `StartWorkflowInstance` up to the registration of tasks. `arrange` is the order in which Go
  -- ranges over the set of template IDs.
  unfoldable pub prepare_workflow :
      (List String → List String)
      → String
      → List WorkflowTemplate
      → Map Json
      → S
      → Result (Workflow × List WorkflowNode × S)
  unfolding unique_ids end_template_ids add_end_template save_end_node
  prepare_workflow arrange workflow_id workflow_templates global_context s = do
    let wf : Workflow = record {
      id = workflow_id;
      status = WorkflowStatus.in_progress;
      global_context = global_context;
      end_node_id = none;
    }
    s₁ ← wrap "failed to create workflow: " (database.create_workflow s wf)
    found ←
        wrap "failed to retrieve workflow node templates: "
          (templates.get_templates (arrange (unique_ids [] workflow_templates)))
    node_templates ← add_end_template templates (end_template_ids workflow_templates) found
    (nodes, s₂) ←
        wrap "failed to initialize workflow nodes: "
          (initialize_nodes_from_templates database.nodes workflow_id node_templates s₁)
    (wf', s₃) ← save_end_node wf nodes.end_node_id s₂
    ok (wf', nodes.new_ready, s₃)

module _ {S T : Type 0} (database : Database S) (templates : TemplateProvider) where
  -- `StartWorkflowInstance`, in the transaction of the caller, whose new state it returns. The
  -- handler is remembered before it is called, and stays remembered if it fails.
  unfoldable pub start_workflow_instance :
      (List String → List String)
      → Engine S T
      → S
      → String
      → List WorkflowTemplate
      → Map Json
      → Option (EventHandler S)
      → Engine S T × Result S
  start_workflow_instance arrange e s workflow_id workflow_templates global_context none =
      (e, err "workflow event handler cannot be nil")
  start_workflow_instance arrange e s workflow_id workflow_templates global_context (some handler) =
      elim (prepare_workflow database templates arrange workflow_id workflow_templates
        global_context s) [
          | err message ↦ (e, err message)
          | panic ↦ (e, panic)
          | ok (wf, new_ready, s') ↦
              let (e', registered) = register_nodes database templates e new_ready global_context in
              elim registered [
                | err message ↦
                    (e', wrap "failed to register workflow nodes with task manager: " (err message))
                | panic ↦ (e', panic)
                | ok _ ↦ (
                  record e' { handlers = insert workflow_id handler e'.handlers },
                  wrap "event handler OnWorkflowStatusChanged failed for workflow start: " (
                      handler s' workflow_id WorkflowStatus.none_yet WorkflowStatus.in_progress wf),
                )
              ]
        ]
