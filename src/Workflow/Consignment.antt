-- ===== src/Workflow/Consignment.antt =====
-- workflow/service/consignment_service.go: the life of a consignment, over the runtime of workflows.
-- The responses, which only read, are left out. The table of consignments, the templates and the
-- runtime are parameters; the runtime's state changes also where it returns an error.
pub mod Start
pub mod Progress
use nsw.Prelude.{
  String, Bool, true, false, Option, none, some, List, [], ◌∷◌, Map, Result, ok, err, panic,
}
use nsw.Workflow.Model.{Json}

-- `ConsignmentState`
pub data ConsignmentState : Type 0 where
  initialized : ConsignmentState
  in_progress : ConsignmentState
  finished : ConsignmentState

-- `Consignment`, with the HS codes of its items
pub record Consignment : Type 0 where
  pub id : String
  pub flow : String
  pub trader_id : String
  pub cha_id : String
  pub state : ConsignmentState
  pub items : List String

pub record ConsignmentTable (S : Type 0) : Type 0 where
  -- `First` of a customs house agent
  pub first_cha : S → String → Result (Unit {0})
  pub first : S → String → Result Consignment
  -- `Create`, which gives the row its ID
  pub create : S → Consignment → Result (S × Consignment)
  pub save : S → Consignment → Result S
  pub commit : S → Result S

-- `GetWorkflowTemplateByHSCodeIDAndFlowV2`, whose template may be nil: the workflow's definition
abbrev pub FindTemplate : Type 0 → Type 0
FindTemplate S = S → String → String → Result (Option Json)

-- `Manager.StartWorkflow` of the runtime
abbrev pub StartWorkflow : Type 0 → Type 0
StartWorkflow T = T → String → Json → Map Json → T × Result (Unit {0})

-- What comes to the service: `complete` is `CompletionHandler`, which the runtime calls.
pub data Request : Type 0 where
  create : String → String → String → Request
  initialize : String → List String → Map Json → Request
  complete : String → Request

module _ {S T : Type 0} (t : ConsignmentTable S) (find_template : FindTemplate S)
    (start_workflow : StartWorkflow T) where
  -- the database, the runtime, and the consignment; none stands for a nil without an error
  abbrev pub Answer : Type 0
  Answer = S × T × Result (Option Consignment)

  abbrev pub created : S → T → Result (S × Consignment) → Answer
  created s w (ok (s', stored)) = (s', w, ok (some stored))
  created s w (err e) = (s, w, err e)
  created s w panic = (s, w, panic)

  -- `CreateConsignmentShell`, once the agent was looked for
  unfoldable pub create_for : S → T → Consignment → Result (Unit {0}) → Answer
  create_for s w shell (ok _) = created s w (t.create s shell)
  create_for s w shell (err e) = (s, w, err e)
  create_for s w shell panic = (s, w, panic)

  -- `CreateConsignmentShell`
  unfoldable pub create_consignment_shell : S → T → String → String → String → Answer
  unfolding create_for
  create_consignment_shell s w flow cha_id trader_id =
      create_for s w
        (record {
          id = "";
          flow = flow;
          trader_id = trader_id;
          cha_id = cha_id;
          state = initialized;
          items = [];
        })
        (t.first_cha s cha_id)

  -- The transaction is dropped.
  abbrev pub failed : S → T → String → Answer
  failed s w message = (s, w, err message)

  -- So it is after a panic, which the service recovers from: it returns nil without an error.
  abbrev pub recovered : S → T → Answer
  recovered s w = (s, w, ok none)

  abbrev pub committed : S → T → Consignment → Result S → Answer
  committed s w c (ok s') = (s', w, ok (some c))
  committed s w c (err e) = failed s w e
  committed s w c panic = recovered s w

  -- the commit of the transaction, once the workflow was started
  unfoldable pub commit_started : S → S → Consignment → T × Result (Unit {0}) → Answer
  commit_started s tx c (w, err e) = failed s w e
  commit_started s tx c (w, panic) = recovered s w
  commit_started s tx c (w, ok _) = committed s w c (t.commit tx)

  -- the start of the workflow, once its template was looked for
  unfoldable pub start_found : S → S → T → Consignment → Map Json → Result (Option Json) → Answer
  unfolding commit_started
  start_found s tx w c context (err e) = failed s w e
  start_found s tx w c context panic = recovered s w
  start_found s tx w c context (ok none) =
      failed s w "no workflow template found for HS code and flow"
  start_found s tx w c context (ok (some definition)) =
      commit_started s tx c (start_workflow w c.id definition context)

  -- what follows once the consignment was saved in the transaction, or not
  unfoldable pub start_saved : S → T → Consignment → List String → Map Json → Result S → Answer
  unfolding start_found
  start_saved s w c codes context (err e) = failed s w e
  start_saved s w c codes context panic = recovered s w
  start_saved s w c (code ∷ []) context (ok tx) =
      start_found s tx w c context (find_template s code c.flow)
  start_saved s w c _ context (ok tx) =
      failed s w "workflow manager currently supports only one HS code"

  -- the transaction of `InitializeConsignmentByID`
  unfoldable pub initialize_in_tx : S → T → Consignment → List String → Map Json → Answer
  unfolding start_saved
  initialize_in_tx s w c codes context =
      let c' : Consignment = record c { items = codes; state = in_progress } in
      start_saved s w c' codes context (t.save s c')

  -- the check of the consignment's state
  unfoldable pub initialize_found :
      S → T → List String → Map Json → Consignment → ConsignmentState → Answer
  unfolding initialize_in_tx
  initialize_found s w codes context c initialized = initialize_in_tx s w c codes context
  initialize_found s w codes context c _ = (s, w, err "consignment must be in INITIALIZED")

  abbrev pub initialize_row : S → T → List String → Map Json → Result Consignment → Answer
  initialize_row s w codes context (ok c) = initialize_found s w codes context c c.state
  initialize_row s w codes context (err e) = (s, w, err e)
  initialize_row s w codes context panic = (s, w, panic)

  -- `InitializeConsignmentByID`, up to its response
  unfoldable pub initialize_consignment : S → T → String → List String → Map Json → Answer
  unfolding initialize_found
  initialize_consignment s w id [] context = (s, w, err "at least one HS code ID is required")
  initialize_consignment s w id (code ∷ codes) context =
      initialize_row s w (code ∷ codes) context (t.first s id)

  abbrev pub finish_row : S → Result Consignment → Result S
  finish_row s (ok c) = t.save s (record c { state = finished })
  finish_row s (err e) = err e
  finish_row s panic = panic

  -- `markConsignmentAsFinished`
  unfoldable pub mark_consignment_as_finished : S → String → Result S
  mark_consignment_as_finished s id = finish_row s (t.first s id)

  abbrev pub after : S → Result S → S
  after s (ok s') = s'
  after s (err e) = s
  after s panic = s

  unfoldable pub perform : S → T → Request → S × T
  unfolding create_consignment_shell initialize_consignment mark_consignment_as_finished
  perform s w (create flow cha_id trader_id) =
      let (s', w', answer) = create_consignment_shell s w flow cha_id trader_id in (s', w')
  perform s w (initialize id codes context) =
      let (s', w', answer) = initialize_consignment s w id codes context in (s', w')
  perform s w (complete id) = (after s (mark_consignment_as_finished s id), w)

  unfoldable pub perform_all : S → T → List Request → S × T
  unfolding perform
  perform_all s w [] = (s, w)
  perform_all s w (request ∷ requests) =
      let (s', w') = perform s w request in perform_all s' w' requests
