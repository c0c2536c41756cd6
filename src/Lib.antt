-- ===== src/Lib.antt =====
-- The core of the National Single Window backend (backend/): the workflow engine, the task engine
-- and the three plugins that tasks run.
--
-- A workflow is a set of nodes, each with a state (LOCKED, READY, IN_PROGRESS, COMPLETED, FAILED)
-- and either a list of nodes that it depends on or an unlock configuration, a Boolean expression
-- over the states and outcomes of other nodes. The task engine runs one task for each node that is
-- READY: a container with a plugin, whose progress is a table-driven state machine. The task
-- manager reports changes of a task to the workflow manager, which moves the node in a transaction
-- of the database, unlocks the nodes that depend on it, and asks the task manager to start the
-- tasks of the nodes that became READY.
--
-- Which file models which part:
--   Prelude                     tests on numbers, lists, maps with string keys, and results
--   Json                        backend/pkg/jsonform: values at paths (Path), schemas and their
--                               traversal (Schema); backend/pkg/jsonutils (Template);
--                               mergeFormData of simple_form.go (Merge)
--   Pagination                  backend/utils/pagination.go
--   Workflow/Model              backend/internal/workflow/model: WorkflowNode, Workflow,
--                               UnlockConfig and the other records
--   Workflow/Lifecycle          the moves between the states of a node, as a relation
--   Workflow/Unlock             workflow/model/unlock_config.go: Validate, ResolveToInstanceIDs,
--                               Evaluate
--   Workflow/NodeService        workflow/service/workflow_node_service.go
--   Workflow/StateMachine       workflow/manager/state_machine.go: unlocking and completion
--   Workflow/Transitions        TransitionToCompleted, TransitionToFailed, TransitionToInProgress
--   Workflow/Initialize         InitializeNodesFromTemplates
--   Workflow/Manager            workflow/manager/manager.go: processStateTransition (Process),
--                               HandleTaskUpdate (TaskUpdate), StartWorkflowInstance (Start)
--   Workflow/Consignment        workflow/service/consignment_service.go
--   Task/Plugin                 task/plugin: fsm.go, constants.go and the three transition tables;
--                               plugin.go (Api); emit.go and transition.go (Rules); the plugins,
--                               simple_form.go (SimpleForm), payment.go (Payment) and
--                               wait_for_event.go (WaitForEvent); attachFormDisplay (FormDisplay)
--   Task/Store, Task/LocalState task/persistence: store.go and state_manager.go
--   Task/Container              task/container/container.go
--   Task/Factory                task/plugin/factory.go
--   Task/Cache                  task/manager/cache.go
--   Task/Manager                task/manager/manager.go
-- The modules under a file hold the theorems about it, and Tests the examples.
--
-- How state and errors are modelled. The database is gorm's, and a parameter: a record of
-- operations on an abstract state, with the laws that gorm documents as named hypotheses
-- (IsNodeTable, IsTaskTable, IsConsignmentTable, IsDatabase). The tests give an instance of each.
-- A Go pair of a value and an error is a Result, which has a third case for a run-time panic. A
-- transaction is a function of the state that it began with; a rollback drops the new state. What
-- is stored is the text of a JSON value, and encoding/json, which reads and writes it, is a
-- parameter. Locks are left out: each method of a manager is one step. All loops are structural
-- recursion, so no definition has fuel.
--
-- A plugin is the tree of the calls that one run of it makes of its API, with what follows on
-- every answer, so a theorem about all trees holds of every plugin. The three plugins are written
-- as chains of these calls, each part taking what follows it. What they ask of others, the form
-- registry, external services, the payment service, clocks, identifiers and decimals, are
-- parameters. Performs and Entries, under Task/Container, say by which actions and by which entries
-- of the local state a run keeps to a property, and Task/Plugin/Api/Allows how the parts of a method
-- make up such a run.
--
-- Not modelled: HTTP routing and authentication, uploads, notifications and remote calls,
-- pre-consignments, lists and responses of consignments, the runtime over Temporal, the
-- agencies' own service, time stamps and display text, the descriptions of the items of a payment
-- included.
pub mod Prelude
pub mod Json
pub mod Pagination
pub mod Task
pub mod Workflow
