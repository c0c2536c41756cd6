-- ===== src/Workflow/StateMachine/Releases.antt =====
-- The nodes that `unlockDependentNodes` returns: which they are.
use nsw.Prelude.{
  true, Option, none, some, List, [], ◌∷◌, Map, ◌≡◌, refl, sym, ap, ◌∙◌, arith, All, All-mono, ok,
  >>=-eq-ok,
}
use mathlib.Core.List.{Memᴰ}
use nsw.Workflow.Model.{locked, ready, WorkflowNode}
use nsw.Workflow.StateMachine.{
  are_dependencies_met, unlock_node, append_unlocked, unlock_dependent_nodes,
}
use nsw.Workflow.StateMachine.Unlocking.{
  unlock_node-eq-some, unlocked_at_start, unlocked_list, IsListed,
  unlock_dependent_nodes-unlocked_at_start,
}

-- `u` is a node of the list that was LOCKED with its dependencies met over `m`, made READY.
pub record IsReleased (m : Map WorkflowNode) (ns : List WorkflowNode) (u : WorkflowNode)
    : Type 0 where
  pub original : WorkflowNode
  pub listed : Memᴰ original ns
  pub was_locked : original.state ≡ locked
  pub met : are_dependencies_met original m ≡ ok true
  pub now_ready : u ≡ record original { state = ready }

IsReleased-tail :
    (m : Map WorkflowNode) (n : WorkflowNode) (ns : List WorkflowNode) (u : WorkflowNode)
    → IsReleased m ns u
    → IsReleased m (n ∷ ns) u
IsReleased-tail m n ns u r = record {
  original = r.original;
  listed = Memᴰ.tail r.listed;
  was_locked = r.was_locked;
  met = r.met;
  now_ready = r.now_ready;
}

append_unlocked-IsReleased :
    (m : Map WorkflowNode) (n : WorkflowNode) (ns : List WorkflowNode) (u : Option WorkflowNode)
    (us : List WorkflowNode)
    → unlock_node n m ≡ ok u
    → All (IsReleased m ns) us
    → All (IsReleased m (n ∷ ns)) (append_unlocked u us)
append_unlocked-IsReleased m n ns none us e h = All-mono _ _ (IsReleased-tail m n ns) us h
append_unlocked-IsReleased m n ns (some u) us e h =
    let (is_locked, met, eq) = unlock_node-eq-some n m e in
    (
      record {
        original = n;
        listed = Memᴰ.head refl;
        was_locked = is_locked;
        met = met;
        now_ready = eq;
      },
      All-mono _ _ (IsReleased-tail m n ns) us h,
    )

unlocked_at_start-IsReleased :
    (m : Map WorkflowNode) (ns : List WorkflowNode) {us : List WorkflowNode}
    → unlocked_at_start m ns ≡ ok us
    → All (IsReleased m ns) us
unfolding unlocked_at_start
unlocked_at_start-IsReleased m [] {us} h = let e : us ≡ [] = cc in rw e tt
unlocked_at_start-IsReleased m (n ∷ ns) {us} h =
    let (u, judged, h') = >>=-eq-ok (unlock_node n m) _ h in
    let (rest, found, last) = >>=-eq-ok (unlocked_at_start m ns) _ h' in
    let e : us ≡ append_unlocked u rest = cc in
    rw e (append_unlocked-IsReleased m n ns u rest judged (unlocked_at_start-IsReleased m ns found))

unlock_node_met :
    (n : WorkflowNode) (m : Map WorkflowNode)
    → n.state ≡ locked
    → are_dependencies_met n m ≡ ok true
    → unlock_node n m ≡ ok (some (record n { state = ready }))
unfolding unlock_node
unlock_node_met n m is_locked met = ground arith

mem-append_unlocked :
    (u : Option WorkflowNode) (us : List WorkflowNode) {x : WorkflowNode}
    → Memᴰ x us
    → Memᴰ x (append_unlocked u us)
mem-append_unlocked none us m = m
mem-append_unlocked (some u) us m = Memᴰ.tail m

complete_head :
    (m : Map WorkflowNode) (ns : List WorkflowNode) {us : List WorkflowNode} (n : WorkflowNode)
    → unlocked_at_start m (n ∷ ns) ≡ ok us
    → n.state ≡ locked
    → are_dependencies_met n m ≡ ok true
    → Memᴰ (record n { state = ready }) us
unfolding unlocked_at_start
complete_head m ns {us} n h is_locked met =
    let h' = rw (unlock_node_met n m is_locked met) at h in
    let (rest, found, last) = >>=-eq-ok (unlocked_at_start m ns) _ h' in
    let e : us ≡ record n { state = ready } ∷ rest = cc in rw e (Memᴰ.head refl)

unlocked_at_start-complete :
    (m : Map WorkflowNode) (ns : List WorkflowNode) {us : List WorkflowNode} (n : WorkflowNode)
    → unlocked_at_start m ns ≡ ok us
    → Memᴰ n ns
    → n.state ≡ locked
    → are_dependencies_met n m ≡ ok true
    → Memᴰ (record n { state = ready }) us
unfolding unlocked_at_start
unlocked_at_start-complete m [] n h mem is_locked met = elim mem [ ]
unlocked_at_start-complete m (k ∷ ns) n h (Memᴰ.head e) is_locked met =
    complete_head m ns n (rw (← e) at h) is_locked met
unlocked_at_start-complete m (k ∷ ns) {us} n h (Memᴰ.tail t) is_locked met =
    let (u, judged, h') = >>=-eq-ok (unlock_node k m) _ h in
    let (rest, found, last) = >>=-eq-ok (unlocked_at_start m ns) _ h' in
    let e : us ≡ append_unlocked u rest = cc in
    rw e (mem-append_unlocked u rest (unlocked_at_start-complete m ns n found t is_locked met))

unlocked_at_start-eq :
    (m m' : Map WorkflowNode) (ns us : List WorkflowNode)
    → All (IsListed m) ns
    → unlock_dependent_nodes ns m ≡ ok (us, m')
    → unlocked_at_start m ns ≡ ok us
unlocked_at_start-eq m m' ns us l h =
    sym (unlock_dependent_nodes-unlocked_at_start m ns l) ∙ ap unlocked_list h

-- Each node that `unlockDependentNodes` returns is a node of the list that was LOCKED, with its
-- dependencies met over the map as it was at the start, and is READY with nothing else changed. It
-- is assumed that the LOCKED nodes of the list are in the map as they are, and that no
-- configuration asks for LOCKED or READY nodes.
pub unlock_dependent_nodes-IsReleased :
    (m m' : Map WorkflowNode) (ns us : List WorkflowNode)
    → All (IsListed m) ns
    → unlock_dependent_nodes ns m ≡ ok (us, m')
    → All (IsReleased m ns) us
unlock_dependent_nodes-IsReleased m m' ns us l h =
    unlocked_at_start-IsReleased m ns (unlocked_at_start-eq m m' ns us l h)

-- Each LOCKED node of the list whose dependencies are met over the map as it was at the start is
-- among the nodes that `unlockDependentNodes` returns, as READY. It is assumed that the LOCKED
-- nodes of the list are in the map as they are, and that no configuration asks for LOCKED or READY
-- nodes.
pub unlock_dependent_nodes-complete :
    (m m' : Map WorkflowNode) (ns us : List WorkflowNode) (n : WorkflowNode)
    → All (IsListed m) ns
    → unlock_dependent_nodes ns m ≡ ok (us, m')
    → Memᴰ n ns
    → n.state ≡ locked
    → are_dependencies_met n m ≡ ok true
    → Memᴰ (record n { state = ready }) us
unlock_dependent_nodes-complete m m' ns us n l h mem is_locked met =
    unlocked_at_start-complete m ns n (unlocked_at_start-eq m m' ns us l h) mem is_locked met
