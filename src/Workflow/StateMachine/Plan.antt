-- ===== src/Workflow/StateMachine/Plan.antt =====
-- What `TransitionToCompleted` writes: each updated node is a lawful new version of a stored one.
use nsw.Prelude.{
  ℕ, zero, suc, String, Bool, true, false, Option, none, some, List, [], ◌∷◌, Map, lookup, insert,
  ◌≡◌, inl, inr, refl, ap, arith, set, Bool-cases, All, All-mono, All-append, if◌then◌else◌,
  is_some, Result, ok, >>=-eq-ok, ok-inj,
}
use nsw.Workflow.Model.{ready, in_progress, completed, is_state, WorkflowNode}
use nsw.Workflow.Lifecycle.{◌⟶◌, unlock, pass_end, finish_ready, finish, Justified}
use nsw.Workflow.StateMachine.{
  TransitionResult, CompletionConfig, can_transition_to_completed, build_node_state_map,
  unlock_dependent_nodes, Updates, append_update, append_if_new, write_end_node, complete_found,
  complete_end_id, append_updates, complete_end_node, insert_sorted, sort_nodes_by_id,
  completion_result, plan_completion,
}
use nsw.Workflow.StateMachine.Entries.{
  IsUnlocked, IsStored, Entry, Entries, start-Entries, unlocking,
}

module _ (P : WorkflowNode → Type 0) where
  All-set :
      (xs : List WorkflowNode) (i : ℕ) (x : WorkflowNode) → P x → All P xs → All P (set xs i x)
  All-set [] i x p h = tt
  All-set (y ∷ xs) zero x p h = (p, h.1)
  All-set (y ∷ xs) (suc i) x p h = (h.0, All-set xs i x p h.1)

  append_update-All :
      (u : Updates) (n : WorkflowNode) → P n → All P u.nodes → All P (append_update u n).nodes
  unfolding append_update
  append_update-All u n p h = All-append P u.nodes (n ∷ []) h (p, tt)

  append_if_new-All :
      (u : Updates) (n : WorkflowNode) → P n → All P u.nodes → All P (append_if_new u n).nodes
  unfolding append_if_new
  append_if_new-All u n p h = by_test (is_some (lookup n.id u.index))
    where
      by_test : (b : Bool) → All P (if b then u else append_update u n).nodes
      by_test true = h
      by_test false = append_update-All u n p h

  write_end_node-All :
      (i : Option ℕ) (n : WorkflowNode) (u : Updates)
      → P n
      → All P u.nodes
      → All P (write_end_node i n u).nodes
  unfolding write_end_node
  write_end_node-All none n u p h = append_update-All u n p h
  write_end_node-All (some i) n u p h = All-set u.nodes i n p h

  append_updates-All :
      (u : Updates) (ns : List WorkflowNode)
      → All P ns
      → All P u.nodes
      → All P (append_updates u ns).nodes
  unfolding append_updates
  append_updates-All u [] s h = h
  append_updates-All u (n ∷ ns) s h =
      append_updates-All (append_if_new u n) ns s.1 (append_if_new-All u n s.0 h)

  insert_sorted-All :
      (n : WorkflowNode) (ms : List WorkflowNode) → P n → All P ms → All P (insert_sorted n ms)
  unfolding insert_sorted
  insert_sorted-All n [] p h = (p, tt)
  insert_sorted-All n (m ∷ ms) p h = ground (arith, insert_sorted-All n ms p h.1)

  sort_nodes_by_id-All : (ns : List WorkflowNode) → All P ns → All P (sort_nodes_by_id ns)
  unfolding sort_nodes_by_id
  sort_nodes_by_id-All [] h = tt
  sort_nodes_by_id-All (n ∷ ns) h =
      insert_sorted-All n (sort_nodes_by_id ns) h.0 (sort_nodes_by_id-All ns h.1)

module _ (stored : String → Result WorkflowNode) where
  pub move_to_completed :
      (n : WorkflowNode) → can_transition_to_completed n.state ≡ true → n.state ⟶ completed
  move_to_completed n h = elim (Bool-cases (is_state n.state ready)) [
    | inl is_ready ↦ let e : n.state ≡ ready = ground arith in rw e finish_ready
    | inr not_ready ↦ let e : n.state ≡ in_progress = ground arith in rw e finish
  ]

  IsUnlocked-Justified : (u : WorkflowNode) → IsUnlocked stored u → Justified stored u
  IsUnlocked-Justified u h = record {
    before = h.before;
    found = h.found;
    move =
        let is_ready : u.state ≡ ready = ap (λ (x : WorkflowNode). x.state) h.now_ready in
        rw (h.was_locked, is_ready) unlock;
  }

  module _ (node : WorkflowNode) (node_completed : node.state ≡ completed) where
    -- A READY entry of the map may be completed.
    end_node-Justified :
        (end_id : String) (n : WorkflowNode)
        → Entry stored node end_id n
        → n.state ≡ ready
        → Justified stored (record n { state = completed })
    end_node-Justified end_id n e is_ready = elim e.origin [
      | inl is_stored ↦ record { before = n; found = is_stored; move = rw is_ready finish_ready }
      | inr (inl is_node) ↦ absurd (let c : n.state ≡ completed = rw is_node node_completed in cc)
      | inr (inr h) ↦ record { before = h.before; found = h.found; move = rw h.was_locked pass_end }
    ]

    complete_found-All :
        (found : Option WorkflowNode) (end_id : String) (u : Updates) (m : Map WorkflowNode)
        → ((n : WorkflowNode) → found ≡ some n → Entry stored node end_id n)
        → All (Justified stored) u.nodes
        → All (Justified stored) (complete_found found end_id u m).0.nodes
    unfolding complete_found
    complete_found-All none end_id u m e h = h
    complete_found-All (some n) end_id u m e h = by_test (is_state n.state ready) refl
      where
        done : Updates × Map WorkflowNode
        done = (
          write_end_node (lookup end_id u.index) (record n { state = completed }) u,
          insert end_id (record n { state = completed }) m,
        )

        by_test :
            (b : Bool)
            → is_state n.state ready ≡ b
            → All (Justified stored) (if b then done else (u, m)).0.nodes
        by_test true is_ready =
            write_end_node-All (Justified stored) (lookup end_id u.index) _ u
              (end_node-Justified end_id n (e n refl) (ground arith)) h
        by_test false not_ready = h

    complete_end_id-All :
        (o : Option String) (u : Updates) (m : Map WorkflowNode)
        → Entries stored node m
        → All (Justified stored) u.nodes
        → All (Justified stored) (complete_end_id o u m).0.nodes
    unfolding complete_end_id
    complete_end_id-All none u m e h = h
    complete_end_id-All (some end_id) u m e h =
        complete_found-All (lookup end_id m) end_id u m (e end_id) h

    complete_end_node-All :
        (cfg : Option CompletionConfig) (u : Updates) (m : Map WorkflowNode)
        → Entries stored node m
        → All (Justified stored) u.nodes
        → All (Justified stored) (complete_end_node cfg u m).0.nodes
    unfolding complete_end_node
    complete_end_node-All none u m e h = h
    complete_end_node-All (some cfg) u m e h = complete_end_id-All cfg.end_node_id u m e h

    completion_result-Justified :
        (all_nodes : List WorkflowNode) (cfg : Option CompletionConfig)
        (looped : List WorkflowNode × Map WorkflowNode)
        → Justified stored node
        → All (IsUnlocked stored) looped.0
        → Entries stored node looped.1
        → All (Justified stored) (completion_result node all_nodes cfg looped).updated_nodes
    unfolding completion_result
    completion_result-Justified all_nodes cfg (unlocked, m) j us e =
        sort_nodes_by_id-All (Justified stored) _ (
          complete_end_node-All cfg _ m e (
            append_updates-All (Justified stored)
              (record { nodes = node ∷ []; index = insert node.id 0 [] }) unlocked
              (All-mono _ _ IsUnlocked-Justified unlocked us) (j, tt)))

    -- Every node that a completion writes, the unlocked nodes and the end node included, keeps or
    -- lawfully moves the state that the table has for it, if all the siblings are stored as read
    -- and the completed node itself is such a move.
    pub plan_completion-Justified :
        (all_nodes : List WorkflowNode) (cfg : Option CompletionConfig) {r : TransitionResult}
        → Justified stored node
        → All (IsStored stored) all_nodes
        → plan_completion node all_nodes cfg ≡ ok r
        → All (Justified stored) r.updated_nodes
    unfolding plan_completion
    plan_completion-Justified all_nodes cfg {r} j s h =
        let start = insert node.id node (build_node_state_map all_nodes) in
        let (looped, ran, last) = >>=-eq-ok (unlock_dependent_nodes all_nodes start) _ h in
        let (us, e) =
          unlocking stored node all_nodes start s (start-Entries stored node all_nodes s) ran in
        rw (← ok-inj last) (completion_result-Justified all_nodes cfg looped j us e)
