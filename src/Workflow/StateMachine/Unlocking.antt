-- ===== src/Workflow/StateMachine/Unlocking.antt =====
-- `unlockDependentNodes` reads and writes one map while it goes. Here it is compared with a
-- reference that reads the map as it was at the start.
use nsw.Prelude.{
  String, true, Option, none, some, List, [], ◌∷◌, Map, lookup, insert, ◌≡◌, inl, inr, refl, ap,
  ◌∙◌, arith, String-cases, Option-cases, lookup-insert_self, lookup-insert_ne, All, Result, ok,
  err, panic, ◌>>=◌,
}
use nsw.Workflow.Model.{locked, ready, WorkflowNode, UnlockConfig}
use nsw.Workflow.Unlock.Stability.{Extends, IsStable, evaluate-Extends}
use nsw.Workflow.StateMachine.{
  all_completed, are_dependencies_met, unlock_node, record_unlocked, append_unlocked,
  unlock_dependent_nodes,
}

Extends-insert :
    (m m' : Map WorkflowNode) (n : WorkflowNode)
    → lookup n.id m ≡ some n
    → n.state ≡ locked
    → Extends m m'
    → Extends m (insert n.id (record n { state = ready }) m')
Extends-insert m m' n here is_locked h i = elim (String-cases n.id i) [
  | inl e ↦ inr (n, rw (← e) here, is_locked, rw (← e) (lookup-insert_self n.id _ m'))
  | inr ne ↦ rw (lookup-insert_ne n.id i _ m' ne) (h i)
]

-- What is COMPLETED is the same on both sides.
all_completed-Extends :
    (deps : List String) (m m' : Map WorkflowNode)
    → Extends m m'
    → all_completed deps m' ≡ all_completed deps m
unfolding all_completed
all_completed-Extends [] m m' h = refl
all_completed-Extends (d ∷ ds) m m' h = ground (arith, h d, all_completed-Extends ds m m' h)

abbrev pub IsStableOption : Option UnlockConfig → Type 0
IsStableOption none = Unit
IsStableOption (some uc) = IsStable uc

-- The unlock configuration of the node, if it has one, asks for no READY or LOCKED node.
abbrev pub HasStableConfig : WorkflowNode → Type 0
HasStableConfig n = IsStableOption n.unlock_configuration

dependencies-Extends :
    (n : WorkflowNode) (m m' : Map WorkflowNode)
    → HasStableConfig n
    → Extends m m'
    → are_dependencies_met n m' ≡ are_dependencies_met n m
unfolding are_dependencies_met
dependencies-Extends n m m' s h = elim (Option-cases n.unlock_configuration) [
  | inl e ↦ ground (arith, all_completed-Extends n.depends_on m m' h)
  | inr (uc, e) ↦
      let stable : IsStable uc = rw e at s in ground (arith, evaluate-Extends m m' h uc stable)
]

unlock-Extends :
    (n : WorkflowNode) (m m' : Map WorkflowNode)
    → HasStableConfig n
    → Extends m m'
    → unlock_node n m' ≡ unlock_node n m
unfolding unlock_node
unlock-Extends n m m' s h = rw (dependencies-Extends n m m' s h)

-- A node that is unlocked was LOCKED with its dependencies met, and is READY now.
pub unlock_node-eq-some :
    (n : WorkflowNode) (m : Map WorkflowNode) {u : WorkflowNode}
    → unlock_node n m ≡ ok (some u)
    → (n.state ≡ locked) × (are_dependencies_met n m ≡ ok true) × (u ≡ record n { state = ready })
unfolding unlock_node
unlock_node-eq-some n m h = ground arith

-- The reference: every node is judged by the map as it was at the start.
unfoldable pub unlocked_at_start : Map WorkflowNode → List WorkflowNode → Result (List WorkflowNode)
unlocked_at_start m [] = ok []
unlocked_at_start m (n ∷ ns) = do
  u ← unlock_node n m
  rest ← unlocked_at_start m ns
  ok (append_unlocked u rest)

abbrev pub unlocked_list :
    Result (List WorkflowNode × Map WorkflowNode) → Result (List WorkflowNode)
unlocked_list r = do (ns, m) ← r; ok ns

-- A node of the list that is LOCKED is in the map as it is, and its configuration is stable.
abbrev pub IsListed : Map WorkflowNode → WorkflowNode → Type 0
IsListed m n = (n.state ≡ locked → lookup n.id m ≡ some n) × HasStableConfig n

Extends-record :
    (m m' : Map WorkflowNode) (n : WorkflowNode) (u : Option WorkflowNode)
    → IsListed m n
    → unlock_node n m ≡ ok u
    → Extends m m'
    → Extends m (record_unlocked u m')
Extends-record m m' n none l e h = h
Extends-record m m' n (some u) l e h =
    let (is_locked, met, eq) = unlock_node-eq-some n m e in
    rw eq (Extends-insert m m' n (l.0 is_locked) is_locked h)

unlocked_list-append :
    (u : Option WorkflowNode) (r : Result (List WorkflowNode × Map WorkflowNode))
    → unlocked_list (do (rest, m) ← r; ok (append_unlocked u rest, m))
      ≡ (do rest ← unlocked_list r; ok (append_unlocked u rest))
unlocked_list-append u (ok _) = refl
unlocked_list-append u (err _) = refl
unlocked_list-append u panic = refl

-- one round, with the rest of the loop known to agree whatever the node became
reference_round :
    (m : Map WorkflowNode) (ns : List WorkflowNode) (m' : Map WorkflowNode)
    (r : Result (Option WorkflowNode))
    → ((u : Option WorkflowNode)
        → r ≡ ok u
        → unlocked_list (unlock_dependent_nodes ns (record_unlocked u m')) ≡ unlocked_at_start m ns)
    → unlocked_list (do
      unlocked ← r
      (rest, nodes') ← unlock_dependent_nodes ns (record_unlocked unlocked m')
      ok (append_unlocked unlocked rest, nodes'))
      ≡ (do u ← r; rest ← unlocked_at_start m ns; ok (append_unlocked u rest))
reference_round m ns m' (err e) k = refl
reference_round m ns m' panic k = refl
reference_round m ns m' (ok u) k =
    unlocked_list-append u (unlock_dependent_nodes ns (record_unlocked u m'))
    ∙ ap (λ (r : Result (List WorkflowNode)). do rest ← r; ok (append_unlocked u rest)) (k u refl)

reference_from :
    (m : Map WorkflowNode) (ns : List WorkflowNode) (m' : Map WorkflowNode)
    → All (IsListed m) ns
    → Extends m m'
    → unlocked_list (unlock_dependent_nodes ns m') ≡ unlocked_at_start m ns
unfolding unlock_dependent_nodes unlocked_at_start
reference_from m [] m' l h = refl
reference_from m (n ∷ ns) m' l h = rw (unlock-Extends n m m' l.0.1 h) (
    reference_round m ns m' (unlock_node n m)
      (λ u e. reference_from m ns (record_unlocked u m') l.1 (Extends-record m m' n u l.0 e h)))

-- `unlockDependentNodes` unlocks the nodes that the map as it was at the start unlocks, and fails
-- where that fails: the writes of the loop are not seen by it. It is assumed that a LOCKED node
-- of the list is in the map as it is, and that no configuration asks for LOCKED or READY nodes.
pub unlock_dependent_nodes-unlocked_at_start :
    (m : Map WorkflowNode) (ns : List WorkflowNode)
    → All (IsListed m) ns
    → unlocked_list (unlock_dependent_nodes ns m) ≡ unlocked_at_start m ns
unlock_dependent_nodes-unlocked_at_start m ns l = reference_from m ns m l (λ i. inl refl)
