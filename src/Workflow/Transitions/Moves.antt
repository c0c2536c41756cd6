-- ===== src/Workflow/Transitions/Moves.antt =====
-- Each transition moves the stored nodes only along the edges of the life cycle.
use nsw.Prelude.{
  String, true, ◌&&◌, Option, some, List, [], ◌∷◌, ◌≡◌, inl, inr, refl, ap, ◌∙◌, arith, Bool-cases,
  All, ok, >>=-eq-ok, wrap, wrap-eq-ok, ok-inj,
}
use nsw.Workflow.Model.{ready, in_progress, completed, failed, is_state, WorkflowNode, UpdateNode}
use nsw.Workflow.Lifecycle.{
  ◌⟶◌, stay, start, retry, fail, fail_ready, Justified, Lawful, Lawful-refl,
}
use nsw.Workflow.NodeService.{NodeTable, IsNodeTable, node_service}
use nsw.Workflow.NodeService.Writes.{update_nodes-Lawful}
use nsw.Workflow.StateMachine.{
  TransitionResult, CompletionConfig, can_transition_to_completed, can_transition_to_failed,
  can_transition_to_in_progress, plan_completion,
}
use nsw.Workflow.StateMachine.Plan.{move_to_completed, plan_completion-Justified}
use nsw.Workflow.Transitions.{
  same_pointer, transition_to_completed, transition_to_failed, transition_to_in_progress,
}

module _ {S : Type 0} (t : NodeTable S) (law : IsNodeTable t) (node : WorkflowNode)
    (req : UpdateNode) (s : S) (stored : t.first s node.id ≡ ok node) where
  -- a write of one new version of the node
  write_one :
      (u : WorkflowNode) (message : String) {s' : S}
      → u.id ≡ node.id
      → node.state ⟶ u.state
      → wrap message ((node_service t).update_nodes s (u ∷ [])) ≡ ok s'
      → Lawful (t.first s) (t.first s')
  unfolding node_service
  write_one u message same move h =
      update_nodes-Lawful t law (t.first s) s (u ∷ [])
        (record { before = node; found = ap (t.first s) same ∙ stored; move = move }, tt)
        (Lawful-refl (t.first s)) (wrap-eq-ok message _ h)

  move_to_failed : can_transition_to_failed node.state ≡ true → node.state ⟶ failed
  move_to_failed h = elim (Bool-cases (is_state node.state ready)) [
    | inl is_ready ↦ let e : node.state ≡ ready = ground arith in rw e fail_ready
    | inr not_ready ↦ let e : node.state ≡ in_progress = ground arith in rw e fail
  ]

  -- `TransitionToFailed` of a stored node moves the stored nodes only along the edges of the life
  -- cycle.
  pub transition_to_failed-Lawful :
      {s' : S}
      → transition_to_failed (node_service t) (some node) req s ≡ ok s'
      → Lawful (t.first s) (t.first s')
  unfolding transition_to_failed
  transition_to_failed-Lawful h = elim (Bool-cases (is_state node.state failed)) [
    | inl already ↦ let e = ok-inj (rw already at h) in rw (← e) (Lawful-refl (t.first s))
    | inr active ↦ elim (Bool-cases (can_transition_to_failed node.state)) [
      | inl allowed ↦
          write_one (record node { state = failed; extended_state = req.extended_state }) _ refl
            (move_to_failed allowed) (rw (active, allowed) at h)
      | inr refused ↦ absurd (ground arith)
    ]
  ]

  move_to_in_progress : can_transition_to_in_progress node.state ≡ true → node.state ⟶ in_progress
  move_to_in_progress h = elim (Bool-cases (is_state node.state ready)) [
    | inl is_ready ↦ let e : node.state ≡ ready = ground arith in rw e start
    | inr not_ready ↦ elim (Bool-cases (is_state node.state failed)) [
      | inl is_failed ↦ let e : node.state ≡ failed = ground arith in rw e retry
      | inr not_failed ↦ let e : node.state ≡ in_progress = ground arith in rw e stay
    ]
  ]

  -- `TransitionToInProgress` of a stored node moves the stored nodes only along the edges of the
  -- life cycle.
  pub transition_to_in_progress-Lawful :
      {s' : S}
      → transition_to_in_progress (node_service t) (some node) req s ≡ ok s'
      → Lawful (t.first s) (t.first s')
  unfolding transition_to_in_progress
  transition_to_in_progress-Lawful h =
      elim (Bool-cases
        (same_pointer req.extended_state node.extended_state && is_state node.state in_progress)) [
          | inl already ↦ let e = ok-inj (rw already at h) in rw (← e) (Lawful-refl (t.first s))
          | inr changed ↦ elim (Bool-cases (can_transition_to_in_progress node.state)) [
            | inl allowed ↦
                write_one (record node { state = in_progress; extended_state = req.extended_state })
                  _ refl (move_to_in_progress allowed) (rw (changed, allowed) at h)
            | inr refused ↦ absurd (ground arith)
          ]
        ]

  siblings_stored :
      (all_nodes : List WorkflowNode)
      → wrap "failed to retrieve sibling workflow nodes: "
          ((node_service t).get_workflow_nodes s node.workflow_id)
        ≡ ok all_nodes
      → All (λ (n : WorkflowNode). t.first s n.id ≡ ok n) all_nodes
  unfolding node_service
  siblings_stored all_nodes h =
      law.find_first s node.workflow_id all_nodes (wrap-eq-ok _ _ (wrap-eq-ok _ _ h))

  -- `TransitionToCompleted` of a stored node moves the stored nodes only along the edges of the
  -- life cycle: the node itself, the nodes that it unlocks, and the end node.
  pub transition_to_completed-Lawful :
      (cfg : Option CompletionConfig) {r : TransitionResult × S}
      → transition_to_completed (node_service t) (some node) req cfg s ≡ ok r
      → Lawful (t.first s) (t.first r.1)
  unfolding transition_to_completed node_service
  transition_to_completed-Lawful cfg {r} h = elim (Bool-cases (is_state node.state completed)) [
    | inl already ↦ let e = ok-inj (rw already at h) in rw (← e) (Lawful-refl (t.first s))
    | inr active ↦ elim (Bool-cases (can_transition_to_completed node.state)) [
      | inl allowed ↦
          let done : WorkflowNode = record node {
            state = completed;
            extended_state = req.extended_state;
            outcome = req.outcome;
          } in
          let h₁ = rw (active, allowed) at h in
          let (all_nodes, read, h₂) =
            >>=-eq-ok
              (wrap "failed to retrieve sibling workflow nodes: "
                ((node_service t).get_workflow_nodes s node.workflow_id))
              _ h₁ in
          let (result, planned, h₃) = >>=-eq-ok (plan_completion done all_nodes cfg) _ h₂ in
          let (s', written, last) =
            >>=-eq-ok
              (wrap "failed to update workflow nodes: "
                ((node_service t).update_nodes s result.updated_nodes))
              _ h₃ in
          let justified : Justified (t.first s) done = record {
            before = node;
            found = stored;
            move = move_to_completed (t.first s) node allowed;
          } in
          let lawful =
            update_nodes-Lawful t law (t.first s) s result.updated_nodes
              (plan_completion-Justified (t.first s) done refl all_nodes cfg justified
                (siblings_stored all_nodes read) planned)
              (Lawful-refl (t.first s)) (wrap-eq-ok _ _ written) in
          rw (← ok-inj last) lawful
      | inr refused ↦ absurd (ground arith)
    ]
  ]
