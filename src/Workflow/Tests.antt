-- ===== src/Workflow/Tests.antt =====
-- A small database of workflow nodes, for examples of what the workflow engine does.
mod Consignments
mod Examples
mod Steps
mod Creation
use nsw.Prelude.{
  String, Bool, true, false, not, Option, none, some, List, [], ◌∷◌, ◌++◌, Map, lookup, insert, ◌≡◌,
  ◌≢◌, refl, arith, ◌==◌, eq_iff, eq_refl, if◌then◌else◌, All, Result, ok, err, panic, ◌>>=◌,
  ok-inj, inl, inr, Bool-cases,
}
use nsw.Workflow.Model
use nsw.Workflow.Model.{
  locked, ready, NodeTemplate, WorkflowNode, WorkflowStatus, Workflow, UnlockConfig, expr, nil,
}
use nsw.Workflow.NodeService.{NodeTable, IsNodeTable, node_service}
use nsw.Workflow.Manager.{Database, EventHandler, TemplateProvider, Engine}
use nsw.Workflow.Manager.Process.Frame.{IsDatabase, KeepsNodes}

pub record Tables : Type 0 where
  pub rows : List WorkflowNode
  pub workflows : Map Workflow

abbrev first_row : List WorkflowNode → String → Result WorkflowNode
first_row [] id = err "record not found"
first_row (n ∷ rows) id = if n.id == id then ok n else first_row rows id

abbrev save_row : List WorkflowNode → WorkflowNode → List WorkflowNode
save_row [] n = n ∷ []
save_row (m ∷ rows) n = if m.id == n.id then n ∷ rows else m ∷ save_row rows n

abbrev without : String → List WorkflowNode → List WorkflowNode
without id [] = []
without id (n ∷ ns) = if id == n.id then without id ns else n ∷ without id ns

abbrev find_rows : List WorkflowNode → String → List WorkflowNode
find_rows [] w = []
find_rows (n ∷ rows) w =
    if n.workflow_id == w
    then n ∷ without n.id (find_rows rows w)
    else without n.id (find_rows rows w)

abbrev pub node_table : NodeTable Tables
node_table = record {
  first = λ s id. first_row s.rows id;
  find = λ s w. ok (find_rows s.rows w);
  create = λ s ns. ok (ns, record s { rows = s.rows ++ ns });
  save = λ s n. ok (record s { rows = save_row s.rows n });
}

first_row-id :
    (rows : List WorkflowNode) (i : String) (n : WorkflowNode) → first_row rows i ≡ ok n → n.id ≡ i
first_row-id [] i n h = cc
first_row-id (m ∷ rows) i n h = elim (Bool-cases (m.id == i)) [
  | inl e ↦ let k = ok-inj (rw (e, first_row) at h) in rw (← k) ((eq_iff m.id i).0 e)
  | inr ne ↦ first_row-id rows i n (rw (ne, first_row) at h)
]

first_row-save_self :
    (rows : List WorkflowNode) (n : WorkflowNode) → first_row (save_row rows n) n.id ≡ ok n
first_row-save_self [] n = ground (arith, eq_refl n.id)
first_row-save_self (m ∷ rows) n = ground (arith, eq_refl n.id, first_row-save_self rows n)

first_row-save_ne :
    (rows : List WorkflowNode) (n : WorkflowNode) (j : String)
    → n.id ≢ j
    → first_row (save_row rows n) j ≡ first_row rows j
first_row-save_ne [] n j ne = ground (arith, eq_iff n.id j)
first_row-save_ne (m ∷ rows) n j ne =
    ground (arith, eq_iff n.id j, eq_iff m.id n.id, eq_iff m.id j, first_row-save_ne rows n j ne)

All-without :
    (m : WorkflowNode) (rows ns : List WorkflowNode)
    → All (λ (n : WorkflowNode). first_row rows n.id ≡ ok n) ns
    → All (λ (n : WorkflowNode). first_row (m ∷ rows) n.id ≡ ok n) (without m.id ns)
All-without m rows [] h = tt
All-without m rows (n ∷ ns) h = elim (Bool-cases (m.id == n.id)) [
  | inl e ↦ rw (e, without) (All-without m rows ns h.1)
  | inr ne ↦ rw (ne, without) (rw (ne, first_row) (h.0), All-without m rows ns h.1)
]

find_rows-first :
    (rows : List WorkflowNode) (w : String)
    → All (λ (n : WorkflowNode). first_row rows n.id ≡ ok n) (find_rows rows w)
find_rows-first [] w = tt
find_rows-first (n ∷ rows) w =
    let rest = All-without n rows (find_rows rows w) (find_rows-first rows w) in
    elim (Bool-cases (n.workflow_id == w)) [
      | inl e ↦ rw (e, find_rows) (rw (eq_refl n.id, first_row) refl, rest)
      | inr ne ↦ rw (ne, find_rows) rest
    ]

pub node_table-IsNodeTable : IsNodeTable node_table
node_table-IsNodeTable = record {
  first_id = λ s i n h. first_row-id s.rows i n h;
  first-save_self = λ s s' n h. rw (← ok-inj h) (first_row-save_self s.rows n);
  first-save_ne = λ s s' n j h ne. rw (← ok-inj h) (first_row-save_ne s.rows n j ne);
  find_first = λ s w ns h. rw (← ok-inj h) (find_rows-first s.rows w);
}

abbrev found_workflow : Option Workflow → Result Workflow
found_workflow none = err "record not found"
found_workflow (some wf) = ok wf

unfoldable pub database : Database Tables
unfolding node_service lookup insert
database = record {
  nodes = node_service node_table;
  create_workflow = λ s wf. ok (record s { workflows = insert wf.id wf s.workflows });
  first_workflow = λ s id. found_workflow (lookup id s.workflows);
  save_workflow = λ s wf. ok (record s { workflows = insert wf.id wf s.workflows });
  commit = λ s. ok s;
}

pub database-IsDatabase : IsDatabase node_table database
unfolding node_service database
database-IsDatabase = record {
  nodes_eq = refl;
  save_workflow_nodes = λ s s' wf h i. rw (← ok-inj h) refl;
  commit_nodes = λ s s' h i. rw (← ok-inj h) refl;
}

-- a handler of the domain that writes nothing
abbrev pub silent : EventHandler Tables
silent s id from to wf = ok s

pub silent-KeepsNodes : KeepsNodes node_table silent
silent-KeepsNodes s s' id from to wf h i = rw (← ok-inj h) refl

-- A workflow of three nodes: `a` is READY, `b` unlocks when `a` is completed as APPROVED, and `c`
-- when `a` and `b` are completed.
abbrev pub approved : UnlockConfig
approved = record {
  any_of = [];
  expression = some (
      expr nil nil (record {
        node_template_id = "A";
        node_id = some "a";
        state = some "COMPLETED";
        outcome = some "APPROVED";
      }));
}

abbrev pub node_a : WorkflowNode
node_a = record {
  id = "a";
  workflow_id = "w";
  template_id = "A";
  state = ready;
  extended_state = none;
  outcome = none;
  depends_on = [];
  unlock_configuration = none;
}

abbrev pub node_b : WorkflowNode
node_b = record node_a {
  id = "b";
  template_id = "B";
  state = locked;
  unlock_configuration = some approved;
}

abbrev pub node_c : WorkflowNode
node_c = record node_a { id = "c"; template_id = "C"; state = locked; depends_on = "a" ∷ "b" ∷ [] }

abbrev pub workflow : Workflow
workflow = record {
  id = "w";
  status = WorkflowStatus.in_progress;
  global_context = [];
  end_node_id = none;
}

abbrev pub tables : Tables
tables = record { rows = node_a ∷ node_b ∷ node_c ∷ []; workflows = ("w", workflow) ∷ [] }

abbrev pub some_template : NodeTemplate
some_template = record {
  id = "T";
  type_name = "SIMPLE_FORM";
  config = "{}";
  depends_on = [];
  unlock_configuration = none;
}

abbrev pub templates : TemplateProvider
templates = record {
  get_template = λ id. ok (record some_template { id = id });
  get_templates = λ ids. ok (some_template ∷ []);
  get_end_template = err "no end template";
}

-- The state behind the callback is the list of the tasks that were registered.
abbrev pub engine : Engine Tables (List String)
engine = record {
  db = tables;
  tasks = [];
  handlers = ("w", silent) ∷ [];
  init_task = some (λ tasks request. (request.task_id ∷ tasks, ok tt));
}
