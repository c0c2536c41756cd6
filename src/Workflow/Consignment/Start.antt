-- ===== src/Workflow/Consignment/Start.antt =====
-- When a consignment's workflow is started: workflow/service/consignment_service.go.
use nsw.Prelude.{
  String, Option, none, some, List, [], ◌∷◌, Map, Result, ok, err, panic, ◌≡◌, ◌≢◌, ◌⊎◌, inl, inr,
  refl, sym, ap, ◌∙◌,
}
use nsw.Workflow.Model.{Json}
use nsw.Workflow.Consignment.{
  ConsignmentState, initialized, in_progress, finished, Consignment, ConsignmentTable, FindTemplate,
  StartWorkflow, Answer, committed, commit_started, start_found, initialize_found, initialize_row,
  start_saved, initialize_in_tx, initialize_consignment,
}

-- What gorm documents of the table, and of a transaction that only this service writes in.
pub record IsConsignmentTable {S : Type 0} (t : ConsignmentTable S) : Type 0 where
  pub first_id : (s : S) (id : String) (c : Consignment) → t.first s id ≡ ok c → c.id ≡ id
  pub first-save_self :
      (s s' : S) (c old : Consignment)
      → t.first s c.id ≡ ok old
      → t.save s c ≡ ok s'
      → t.first s' c.id ≡ ok c
  pub first-save_ne :
      (s s' : S) (c : Consignment) (id : String)
      → t.save s c ≡ ok s'
      → c.id ≢ id
      → t.first s' id ≡ t.first s id
  pub first-create :
      (s s' : S) (c stored old : Consignment) (id : String)
      → t.create s c ≡ ok (s', stored)
      → t.first s id ≡ ok old
      → t.first s' id ≡ ok old
  pub commit_all : (s s' : S) → t.commit s ≡ ok s' → s' ≡ s

module _ {S T : Type 0} (t : ConsignmentTable S) (lawful : IsConsignmentTable t)
    (find_template : FindTemplate S) (start_workflow : StartWorkflow T) where
  -- The workflow of a new consignment was started, with its one HS code, and this was stored.
  pub record IsStarted (s : S) (w : T) (id : String) (codes : List String) (context : Map Json)
      (s' : S) (w' : T) : Type 0 where
    pub before : Consignment
    pub stored : t.first s id ≡ ok before
    pub was_new : before.state ≡ initialized
    pub code : String
    pub one_code : codes ≡ code ∷ []
    pub definition : Json
    pub found : find_template s code before.flow ≡ ok (some definition)
    pub started : start_workflow w id definition context ≡ (w', ok tt)
    pub saved : t.save s (record before { items = codes; state = in_progress }) ≡ ok s'

  module _ (s : S) (w : T) (id : String) (context : Map Json) where
    -- The database is as it was, or the workflow was started.
    abbrev pub Outcome : List String → Answer t find_template start_workflow → Type 0
    Outcome codes answer = (answer.0 ≡ s) ⊎ IsStarted s w id codes context answer.0 answer.1

    module _ (c : Consignment) (code : String) (tx : S) (stored : t.first s id ≡ ok c)
        (was_new : c.state ≡ initialized)
        (saved : t.save s (record c { items = code ∷ []; state = in_progress }) ≡ ok tx) where
      abbrev moved : Consignment
      moved = record c { items = code ∷ []; state = in_progress }

      committed-Outcome :
          (definition : Json) (w' : T) (r : Result S)
          → find_template s code c.flow ≡ ok (some definition)
          → start_workflow w id definition context ≡ (w', ok tt)
          → t.commit tx ≡ r
          → Outcome (code ∷ []) (committed t find_template start_workflow s w' moved r)
      committed-Outcome definition w' (ok s') found started e = inr (record {
        before = c;
        stored = stored;
        was_new = was_new;
        code = code;
        one_code = refl;
        definition = definition;
        found = found;
        started = started;
        saved = saved ∙ ap ok (sym (lawful.commit_all tx s' e));
      })
      committed-Outcome definition w' (err e) found started _ = inl refl
      committed-Outcome definition w' panic found started _ = inl refl

      commit_started-Outcome :
          (definition : Json) (r : T × Result (Unit {0}))
          → find_template s code c.flow ≡ ok (some definition)
          → start_workflow w id definition context ≡ r
          → Outcome (code ∷ []) (commit_started t find_template start_workflow s tx moved r)
      unfolding commit_started
      commit_started-Outcome definition (w', err e) found started = inl refl
      commit_started-Outcome definition (w', panic) found started = inl refl
      commit_started-Outcome definition (w', ok _) found started =
          committed-Outcome definition w' (t.commit tx) found started refl

      start_found-Outcome :
          (r : Result (Option Json))
          → find_template s code c.flow ≡ r
          → Outcome (code ∷ []) (start_found t find_template start_workflow s tx w moved context r)
      unfolding start_found
      start_found-Outcome (err e) _ = inl refl
      start_found-Outcome panic _ = inl refl
      start_found-Outcome (ok none) _ = inl refl
      start_found-Outcome (ok (some definition)) found =
          commit_started-Outcome definition (start_workflow w c.id definition context) found
            (ap (λ i. start_workflow w i definition context) (sym (lawful.first_id s id c stored)))

    start_saved-Outcome :
        (c : Consignment) (code : String) (codes : List String) (r : Result S)
        → t.first s id ≡ ok c
        → c.state ≡ initialized
        → t.save s (record c { items = code ∷ codes; state = in_progress }) ≡ r
        → Outcome (code ∷ codes) (
            start_saved t find_template start_workflow s w
              (record c { items = code ∷ codes; state = in_progress })
              (code ∷ codes)
              context
              r)
    unfolding start_saved
    start_saved-Outcome c code codes (err e) stored was_new _ = inl refl
    start_saved-Outcome c code codes panic stored was_new _ = inl refl
    start_saved-Outcome c code [] (ok tx) stored was_new saved =
        start_found-Outcome c code tx stored was_new saved (find_template s code c.flow) refl
    start_saved-Outcome c code (other ∷ codes) (ok tx) stored was_new saved = inl refl

    initialize_found-Outcome :
        (c : Consignment) (code : String) (codes : List String) (state : ConsignmentState)
        → t.first s id ≡ ok c
        → c.state ≡ state
        → Outcome
            (code ∷ codes)
            (initialize_found t find_template start_workflow s w (code ∷ codes) context c state)
    unfolding initialize_found initialize_in_tx
    initialize_found-Outcome c code codes initialized stored was_new =
        start_saved-Outcome c code codes _ stored was_new refl
    initialize_found-Outcome c code codes in_progress stored _ = inl refl
    initialize_found-Outcome c code codes finished stored _ = inl refl

    initialize_row-Outcome :
        (code : String) (codes : List String) (r : Result Consignment)
        → t.first s id ≡ r
        → Outcome
            (code ∷ codes)
            (initialize_row t find_template start_workflow s w (code ∷ codes) context r)
    initialize_row-Outcome code codes (ok c) stored =
        initialize_found-Outcome c code codes c.state stored refl
    initialize_row-Outcome code codes (err e) _ = inl refl
    initialize_row-Outcome code codes panic _ = inl refl

    -- `InitializeConsignmentByID` leaves the database as it is, whatever fails, or else the stored
    -- consignment was INITIALIZED, there was exactly one HS code with a workflow template, the
    -- runtime has started its workflow without an error, and the consignment is saved as
    -- IN_PROGRESS with that code. It is assumed that the table obeys the laws that gorm documents.
    pub initialize_consignment-Outcome :
        (codes : List String)
        → Outcome codes (initialize_consignment t find_template start_workflow s w id codes context)
    unfolding initialize_consignment
    initialize_consignment-Outcome [] = inl refl
    initialize_consignment-Outcome (code ∷ codes) =
        initialize_row-Outcome code codes (t.first s id) refl
