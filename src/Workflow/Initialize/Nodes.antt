-- ===== src/Workflow/Initialize/Nodes.antt =====
-- The nodes that `InitializeNodesFromTemplates` makes of its templates: manager/state_machine.go.
use nsw.Prelude.{
  String, Bool, true, false, not, ◌&&◌, ◌||◌, some, List, [], ◌∷◌, Map, lookup, ◌≡◌, ◌↔◌, refl, sym,
  ap, ◌∙◌, is_empty, is_some, if◌then◌else◌, All, Result, ok, err, >>=-eq-ok, ok-inj, inl, inr,
  Option-cases,
}
use mathlib.Core.List.{Memᴰ}
use nsw.Workflow.Model.{is_state, locked, ready, NodeTemplate, WorkflowNode}
use nsw.Workflow.NodeService.{updated_row}
use nsw.Workflow.Initialize.{
  Initialized, resolve_depends_on, resolve_configuration, initialize_node, add_node,
  initialize_nodes, is_end_node,
}

-- The nodes of a list that are READY.
unfoldable pub ready_nodes : List WorkflowNode → List WorkflowNode
ready_nodes [] = []
ready_nodes (n ∷ ns) = if is_state n.state ready then n ∷ ready_nodes ns else ready_nodes ns

-- The node waits for nothing.
abbrev pub is_free : WorkflowNode → Bool
is_free n = is_empty n.depends_on && not (is_some n.unlock_configuration)

-- `i` is the node of a template that the template depends on.
abbrev pub IsDependency : Map String → List String → String → Type 0
IsDependency ids names i = (name : String) × Memᴰ name names × (lookup name ids ≡ some i)

-- What a node is like that has been made of its template.
pub record IsInitialized (templates : Map NodeTemplate) (ids : Map String) (n : WorkflowNode)
    : Type 0 where
  pub template : NodeTemplate
  pub of_template : lookup n.template_id templates ≡ some template
  pub dependencies : (i : String) → Memᴰ i n.depends_on ↔ IsDependency ids template.depends_on i
  pub configuration :
      resolve_configuration ids template.unlock_configuration ≡ ok n.unlock_configuration
  pub state : n.state ≡ (if is_free n then ready else locked)

resolve_depends_on-IsDependency :
    (ids : Map String) (names : List String) (i : String)
    → Memᴰ i (resolve_depends_on ids names)
    → IsDependency ids names i
unfolding resolve_depends_on
resolve_depends_on-IsDependency ids [] i m = elim m [ ]
resolve_depends_on-IsDependency ids (name ∷ names) i m = elim (Option-cases (lookup name ids)) [
  | inl missing ↦
      let m' : Memᴰ i (resolve_depends_on ids names) = rw (missing, resolve_depends_on) at m in
      let (other, there, e) = resolve_depends_on-IsDependency ids names i m' in
      (other, Memᴰ.tail there, e)
  | inr (id, found) ↦
      let m' : Memᴰ i (id ∷ resolve_depends_on ids names) = rw (found, resolve_depends_on) at m in
      elim m' [
        | Memᴰ.head e ↦ (name, Memᴰ.head refl, found ∙ ap some (sym e))
        | Memᴰ.tail later ↦
            let (other, there, e) = resolve_depends_on-IsDependency ids names i later in
            (other, Memᴰ.tail there, e)
      ]
]

IsDependency-resolve_depends_on :
    (ids : Map String) (names : List String) (i : String)
    → IsDependency ids names i
    → Memᴰ i (resolve_depends_on ids names)
unfolding resolve_depends_on
IsDependency-resolve_depends_on ids [] i (name, m, e) = elim m [ ]
IsDependency-resolve_depends_on ids (other ∷ names) i (name, Memᴰ.head same, e) =
    let found : lookup other ids ≡ some i = ap (λ x. lookup x ids) (sym same) ∙ e in
    rw (found, resolve_depends_on) (Memᴰ.head refl)
IsDependency-resolve_depends_on ids (other ∷ names) i (name, Memᴰ.tail m, e) =
    let rest = IsDependency-resolve_depends_on ids names i (name, m, e) in
    elim (Option-cases (lookup other ids)) [
      | inl missing ↦ rw (missing, resolve_depends_on) rest
      | inr (id, found) ↦ rw (found, resolve_depends_on) (Memᴰ.tail rest)
    ]

-- Writing the second nodes over the first ones stores them as they are.
abbrev pub AreWrites : List WorkflowNode → List WorkflowNode → Type 0
AreWrites [] [] = Unit
AreWrites (c ∷ cs) (n ∷ ns) = (n.id ≡ c.id) × (updated_row c n ≡ n) × AreWrites cs ns
AreWrites _ _ = ⊥

-- What one round makes of a LOCKED node.
record IsRound (templates : Map NodeTemplate) (ids : Map String) (c n : WorkflowNode) : Type 0 where
  initialized : IsInitialized templates ids n
  same_id : n.id ≡ c.id
  writes : updated_row c n ≡ n

initialize_node-IsRound :
    (templates : Map NodeTemplate) (ids : Map String) (c : WorkflowNode) {n : WorkflowNode}
    → c.state ≡ locked
    → initialize_node templates ids c ≡ ok n
    → IsRound templates ids c n
unfolding initialize_node updated_row
initialize_node-IsRound templates ids c {n} was h =
    elim (Option-cases (lookup c.template_id templates)) [
      | inl missing ↦
          let h' : Path (Result WorkflowNode) (err "workflow node template not found") (ok n) =
            rw (missing, initialize_node) at h in
          absurd cc
      | inr (template, found) ↦
          let (config, resolved, last) =
            >>=-eq-ok (resolve_configuration ids template.unlock_configuration) _
              (rw (found, initialize_node) at h) in
          let made = ok-inj last in
          rw (← made) (record {
            initialized = record {
              template = template;
              of_template = found;
              dependencies = λ i. (
                resolve_depends_on-IsDependency ids template.depends_on i,
                IsDependency-resolve_depends_on ids template.depends_on i,
              );
              configuration = resolved;
              state = rw was refl;
            };
            same_id = refl;
            writes = refl;
          })
    ]

-- What the loop makes of LOCKED nodes.
pub record AreRounds (templates : Map NodeTemplate) (ids : Map String) (cs : List WorkflowNode)
    (r : Initialized) : Type 0 where
  pub initialized : All (IsInitialized templates ids) r.created
  pub reported : r.new_ready ≡ ready_nodes r.created
  pub written : r.to_update ≡ r.created
  pub writes : AreWrites cs r.created

if_ready : (b : Bool) → is_state (if b then ready else locked) ready ≡ b
if_ready true = refl
if_ready false = refl

any_way : (a s : Bool) → (not a || s || (a && not s)) ≡ true
any_way true true = refl
any_way true false = refl
any_way false s = refl

-- Each node is written, and a READY one reported.
add_node-AreRounds :
    (templates : Map NodeTemplate) (ids : Map String) (is_end : Bool) (c n : WorkflowNode)
    (cs : List WorkflowNode) (rest : Initialized)
    → IsRound templates ids c n
    → AreRounds templates ids cs rest
    → AreRounds templates ids (c ∷ cs) (add_node is_end n rest)
unfolding add_node ready_nodes
add_node-AreRounds templates ids is_end c n cs rest one k = record {
  initialized = (one.initialized, k.initialized);
  reported =
      ap (λ (rs : List WorkflowNode). if is_free n then n ∷ rs else rs) k.reported
      ∙ ap (λ (b : Bool). if b then n ∷ ready_nodes rest.created else ready_nodes rest.created)
          (sym (ap (λ x. is_state x ready) one.initialized.state ∙ if_ready (is_free n)));
  written =
      rw (any_way (is_empty n.depends_on) (is_some n.unlock_configuration))
        (ap (λ ns. n ∷ ns) k.written);
  writes = (one.same_id, one.writes, k.writes);
}

pub initialize_nodes-AreRounds :
    (templates : Map NodeTemplate) (ids : Map String) (cs : List WorkflowNode) {r : Initialized}
    → All (λ (c : WorkflowNode). c.state ≡ locked) cs
    → initialize_nodes templates ids cs ≡ ok r
    → AreRounds templates ids cs r
unfolding initialize_nodes ready_nodes
initialize_nodes-AreRounds templates ids [] were h =
    rw (← ok-inj h) (record { initialized = tt; reported = refl; written = refl; writes = tt })
initialize_nodes-AreRounds templates ids (c ∷ cs) were h =
    let (n, one, h₁) = >>=-eq-ok (initialize_node templates ids c) _ h in
    let (rest, more, last) = >>=-eq-ok (initialize_nodes templates ids cs) _ h₁ in
    rw (← ok-inj last) (
      add_node-AreRounds templates ids (is_end_node templates c) c n cs rest
        (initialize_node-IsRound templates ids c were.0 one)
        (initialize_nodes-AreRounds templates ids cs were.1 more))
