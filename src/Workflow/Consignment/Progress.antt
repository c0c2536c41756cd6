-- ===== src/Workflow/Consignment/Progress.antt =====
-- What the service does to the stored consignments: workflow/service/consignment_service.go.
use nsw.Prelude.{
  ℕ, ◌≤◌, String, List, [], ◌∷◌, Map, Result, ok, err, panic, ◌≡◌, inl, inr, refl, sym, ap, ◌∙◌,
  arith, ok-inj, String-cases,
}
use mathlib.Core.Path.{subst}
use nsw.Workflow.Model.{Json}
use nsw.Workflow.Consignment.{
  ConsignmentState, initialized, in_progress, finished, Consignment, ConsignmentTable, FindTemplate,
  StartWorkflow, Request, create, initialize, complete, created, create_for, finish_row,
  create_consignment_shell, initialize_consignment, mark_consignment_as_finished, after, perform,
  perform_all,
}
use nsw.Workflow.Consignment.Start.{IsConsignmentTable, initialize_consignment-Outcome}

abbrev pub stage : ConsignmentState → ℕ
stage initialized = 0
stage in_progress = 1
stage finished = 2

module _ {S : Type 0} (t : ConsignmentTable S) where
  -- The consignment is stored, at this stage or a later one.
  pub record IsFurther (s : S) (id : String) (n : ℕ) : Type 0 where
    pub now : Consignment
    pub stored : t.first s id ≡ ok now
    pub at_least : n ≤ stage now.state

  -- No stored consignment is lost or goes back.
  abbrev Forward : S → S → Type 0
  Forward s s' =
      (id : String) (c : Consignment) → t.first s id ≡ ok c → IsFurther s' id (stage c.state)

  Forward-refl : (s : S) → Forward s s
  Forward-refl s id c h = record { now = c; stored = h; at_least = omega arith }

  Forward-trans : (s s' s'' : S) → Forward s s' → Forward s' s'' → Forward s s''
  Forward-trans s s' s'' h h' id c e =
      let first = h id c e in
      let later = h' id first.now first.stored in
      record {
        now = later.now;
        stored = later.stored;
        at_least = let a = first.at_least in let b = later.at_least in omega arith;
      }

module _ {S T : Type 0} (t : ConsignmentTable S) (lawful : IsConsignmentTable t)
    (find_template : FindTemplate S) (start_workflow : StartWorkflow T) where
  save-Forward :
      (s s' : S) (c old : Consignment)
      → t.first s c.id ≡ ok old
      → stage old.state ≤ stage c.state
      → t.save s c ≡ ok s'
      → Forward t s s'
  save-Forward s s' c old was up saved id row h = elim (String-cases c.id id) [
    | inl same ↦
        let it : old ≡ row = ok-inj (sym was ∙ ap (t.first s) same ∙ h) in
        record {
          now = c;
          stored = ap (t.first s') (sym same) ∙ lawful.first-save_self s s' c old was saved;
          at_least = subst (λ (r : Consignment). stage r.state ≤ stage c.state) it up;
        }
    | inr ne ↦ record {
      now = row;
      stored = lawful.first-save_ne s s' c id saved ne ∙ h;
      at_least = omega arith;
    }
  ]

  created-Forward :
      (s : S) (w : T) (shell : Consignment) (r : Result (S × Consignment))
      → t.create s shell ≡ r
      → Forward t s (created t find_template start_workflow s w r).0
  created-Forward s w shell (err e) _ = Forward-refl t s
  created-Forward s w shell panic _ = Forward-refl t s
  created-Forward s w shell (ok (s', stored)) made = λ id c h. record {
    now = c;
    stored = lawful.first-create s s' shell stored c id made h;
    at_least = omega arith;
  }

  create_for-Forward :
      (s : S) (w : T) (shell : Consignment) (r : Result (Unit {0}))
      → Forward t s (create_for t find_template start_workflow s w shell r).0
  unfolding create_for
  create_for-Forward s w shell (ok _) = created-Forward s w shell (t.create s shell) refl
  create_for-Forward s w shell (err e) = Forward-refl t s
  create_for-Forward s w shell panic = Forward-refl t s

  initialize-Forward :
      (s : S) (w : T) (id : String) (codes : List String) (context : Map Json)
      → Forward t s (initialize_consignment t find_template start_workflow s w id codes context).0
  initialize-Forward s w id codes context =
      elim (initialize_consignment-Outcome t lawful find_template start_workflow s w id context
        codes) [
          | inl same ↦ subst (Forward t s) (sym same) (Forward-refl t s)
          | inr it ↦
              let up : stage it.before.state ≤ 1 =
                subst (λ (state : ConsignmentState). stage state ≤ 1) (sym it.was_new)
                  (omega arith) in
              save-Forward s _ (record it.before { items = codes; state = in_progress }) it.before
                (ap (t.first s) (lawful.first_id s id it.before it.stored) ∙ it.stored) up it.saved
        ]

  stage-le : (state : ConsignmentState) → stage state ≤ 2
  stage-le initialized = omega arith
  stage-le in_progress = omega arith
  stage-le finished = omega arith

  finished-Forward :
      (s : S) (id : String) (c : Consignment) (r : Result S)
      → t.first s id ≡ ok c
      → t.save s (record c { state = finished }) ≡ r
      → Forward t s (after t find_template start_workflow s r)
  finished-Forward s id c (err e) _ _ = Forward-refl t s
  finished-Forward s id c panic _ _ = Forward-refl t s
  finished-Forward s id c (ok s') stored saved =
      save-Forward s s' (record c { state = finished }) c
        (ap (t.first s) (lawful.first_id s id c stored) ∙ stored) (stage-le c.state) saved

  finish_row-Forward :
      (s : S) (id : String) (r : Result Consignment)
      → t.first s id ≡ r
      → Forward t s
          (after t find_template start_workflow s (finish_row t find_template start_workflow s r))
  finish_row-Forward s id (err e) _ = Forward-refl t s
  finish_row-Forward s id panic _ = Forward-refl t s
  finish_row-Forward s id (ok c) stored = finished-Forward s id c _ stored refl

  perform-Forward :
      (s : S) (w : T) (request : Request)
      → Forward t s (perform t find_template start_workflow s w request).0
  unfolding perform create_consignment_shell mark_consignment_as_finished
  perform-Forward s w (create flow cha_id trader_id) =
      create_for-Forward s w _ (t.first_cha s cha_id)
  perform-Forward s w (initialize id codes context) = initialize-Forward s w id codes context
  perform-Forward s w (complete id) = finish_row-Forward s id (t.first s id) refl

  perform_all-Forward :
      (s : S) (w : T) (requests : List Request)
      → Forward t s (perform_all t find_template start_workflow s w requests).0
  unfolding perform_all
  perform_all-Forward s w [] = Forward-refl t s
  perform_all-Forward s w (request ∷ requests) =
      let (s', w') = perform t find_template start_workflow s w request in
      Forward-trans t s s' _ (perform-Forward s w request) (perform_all-Forward s' w' requests)

  -- Through any sequence of creations, initializations and completions, no stored consignment is
  -- lost, and its state never goes back from FINISHED to IN_PROGRESS or INITIALIZED, or from
  -- IN_PROGRESS to INITIALIZED. It is assumed that the table obeys the laws that gorm documents.
  pub perform_all-IsFurther :
      (s : S) (w : T) (requests : List Request) (id : String) (c : Consignment)
      → t.first s id ≡ ok c
      → IsFurther t (perform_all t find_template start_workflow s w requests).0 id (stage c.state)
  perform_all-IsFurther s w requests id c h = perform_all-Forward s w requests id c h
