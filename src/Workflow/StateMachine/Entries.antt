-- ===== src/Workflow/StateMachine/Entries.antt =====
-- What the node state map of `TransitionToCompleted` holds, while nodes are being unlocked.
use nsw.Prelude.{
  String, Option, none, some, List, [], ◌∷◌, Map, lookup, insert, ◌≡◌, ◌⊎◌, inl, inr, refl, arith,
  String-cases, lookup-insert_self, lookup-insert_ne, All, Result, ok, >>=-eq-ok,
}
use nsw.Workflow.Model.{locked, ready, WorkflowNode}
use nsw.Workflow.StateMachine.{
  insert_nodes, build_node_state_map, unlock_node, record_unlocked, append_unlocked,
  unlock_dependent_nodes,
}

module _ (stored : String → Result WorkflowNode) where
  -- `u` is a stored LOCKED node made READY.
  pub record IsUnlocked (u : WorkflowNode) : Type 0 where
    pub before : WorkflowNode
    pub found : stored u.id ≡ ok before
    pub was_locked : before.state ≡ locked
    pub now_ready : u ≡ record before { state = ready }

  abbrev pub IsStored : WorkflowNode → Type 0
  IsStored n = stored n.id ≡ ok n

  module _ (node : WorkflowNode) where
    -- What the node state map holds under an ID.
    pub record Entry (i : String) (n : WorkflowNode) : Type 0 where
      pub key : n.id ≡ i
      pub origin : IsStored n ⊎ (n ≡ node) ⊎ IsUnlocked n

    abbrev pub Entries : Map WorkflowNode → Type 0
    Entries m = (i : String) (n : WorkflowNode) → lookup i m ≡ some n → Entry i n

    Entries-insert :
        (m : Map WorkflowNode) (n : WorkflowNode)
        → Entry n.id n
        → Entries m
        → Entries (insert n.id n m)
    Entries-insert m n e h i x found = elim (String-cases n.id i) [
      | inl same ↦
          let found' : lookup n.id (insert n.id n m) ≡ some x = rw (← same) at found in
          let is_n : x ≡ n = cc (lookup-insert_self n.id n m, found') in rw (← same) (rw is_n e)
      | inr other ↦ h i x (cc (lookup-insert_ne n.id i n m other, found))
    ]

    insert_nodes-Entries :
        (m : Map WorkflowNode) (ns : List WorkflowNode)
        → Entries m
        → All IsStored ns
        → Entries (insert_nodes m ns)
    unfolding insert_nodes
    insert_nodes-Entries m [] h s = h
    insert_nodes-Entries m (n ∷ ns) h s =
        insert_nodes-Entries (insert n.id n m) ns
          (Entries-insert m n (record { key = refl; origin = inl s.0 }) h) s.1

    pub start-Entries :
        (ns : List WorkflowNode)
        → All IsStored ns
        → Entries (insert node.id node (build_node_state_map ns))
    unfolding build_node_state_map lookup
    start-Entries ns s =
        Entries-insert (build_node_state_map ns) node
          (record { key = refl; origin = inr (inl refl) })
          (insert_nodes-Entries [] ns (λ i n e. cc) s)

    unlock_node-IsUnlocked :
        (n : WorkflowNode) (m : Map WorkflowNode) {u : WorkflowNode}
        → IsStored n
        → unlock_node n m ≡ ok (some u)
        → IsUnlocked u
    unfolding unlock_node
    unlock_node-IsUnlocked n m {u} s h =
        let eq : u ≡ record n { state = ready } = ground arith in
        record { before = n; found = rw eq s; was_locked = ground arith; now_ready = eq }

    round-Entries :
        (n : WorkflowNode) (m : Map WorkflowNode) (u : Option WorkflowNode)
        → IsStored n
        → unlock_node n m ≡ ok u
        → Entries m
        → Entries (record_unlocked u m)
    round-Entries n m none s e h = h
    round-Entries n m (some u) s e h =
        Entries-insert m u
          (record { key = refl; origin = inr (inr (unlock_node-IsUnlocked n m s e)) }) h

    round-IsUnlocked :
        (n : WorkflowNode) (m : Map WorkflowNode) (u : Option WorkflowNode) (us : List WorkflowNode)
        → IsStored n
        → unlock_node n m ≡ ok u
        → All IsUnlocked us
        → All IsUnlocked (append_unlocked u us)
    round-IsUnlocked n m none us s e h = h
    round-IsUnlocked n m (some u) us s e h = (unlock_node-IsUnlocked n m s e, h)

    -- The loop unlocks stored nodes only, and its map stays consistent.
    pub unlocking :
        (ns : List WorkflowNode) (m : Map WorkflowNode) {r : List WorkflowNode × Map WorkflowNode}
        → All IsStored ns
        → Entries m
        → unlock_dependent_nodes ns m ≡ ok r
        → All IsUnlocked r.0 × Entries r.1
    unfolding unlock_dependent_nodes
    unlocking [] m {r} s h e = let eq : r ≡ ([], m) = cc in rw eq (tt, h)
    unlocking (n ∷ ns) m {r} s h e =
        let (u, judged, e') = >>=-eq-ok (unlock_node n m) _ e in
        let (rest, looped, last) =
          >>=-eq-ok (unlock_dependent_nodes ns (record_unlocked u m)) _ e' in
        let (all_rest, entries) =
          unlocking ns (record_unlocked u m) s.1 (round-Entries n m u s.0 judged h) looped in
        let eq : r ≡ (append_unlocked u rest.0, rest.1) = cc in
        rw eq (round-IsUnlocked n m u rest.0 s.0 judged all_rest, entries)
