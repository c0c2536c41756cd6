-- ===== src/Workflow/Unlock/Meaning.antt =====
-- What a configuration of templates means over the nodes that stand for them, and that the
-- resolved configuration evaluates to exactly that.
use nsw.Prelude.{
  String, Bool, true, false, not, ◌&&◌, ◌||◌, Option, none, some, List, [], ◌∷◌, Map, lookup, ◌≡◌,
  inl, inr, any, all, arith, eq_iff, if◌then◌else◌, ok, >>=-eq-ok, wrap-eq-ok, wrap,
}
use nsw.Workflow.Unlock.Validity.{IsCondition, IsExpression, AreExpressions, IsConfig, validate_iff}
use nsw.Workflow.Model.{
  UnlockCondition, UnlockGroup, UnlockExpression, expr, Expressions, nil, cons, UnlockConfig,
  WorkflowNode,
}
use nsw.Workflow.Unlock.{
  is_nil, state_matches, outcome_matches, validate, resolve_condition, resolve_conditions,
  resolve_groups, resolve_validated, resolve_leaf, resolve_expression, resolve_expressions,
  resolve_to_instance_ids, evaluate_condition, evaluate_conditions, evaluate_group, evaluate_groups,
  evaluate_expression, evaluate_any, evaluate_all, evaluate,
}

-- The node of a template, through the map from templates to node IDs.
abbrev pub node_of : Map String → Map WorkflowNode → String → Option WorkflowNode
node_of ids nodes template = elim (lookup template ids) [ none ↦ none | some id ↦ lookup id nodes ]

-- A condition holds if its template has a node and the node has the state and the outcome asked.
abbrev pub condition_holds : (String → Option WorkflowNode) → UnlockCondition → Bool
condition_holds node cond = elim (node cond.node_template_id) [
  | none ↦ false
  | some n ↦ state_matches cond.state n && outcome_matches cond.outcome n.outcome
]

mutual
  pub expression_holds : (String → Option WorkflowNode) → UnlockExpression → Bool
  expression_holds node (expr any_of all_of leaf) =
      let some_holds = any_holds node any_of in
      let each_holds = all_hold node all_of in
      if not (is_nil any_of)
      then some_holds
      else if not (is_nil all_of)
      then each_holds
      else condition_holds node leaf

  pub any_holds : (String → Option WorkflowNode) → Expressions → Bool
  any_holds node nil = false
  any_holds node (cons e es) = expression_holds node e || any_holds node es

  pub all_hold : (String → Option WorkflowNode) → Expressions → Bool
  all_hold node nil = true
  all_hold node (cons e es) = expression_holds node e && all_hold node es

-- The disjunction of conjunctions, or the expression.
pub config_holds : (String → Option WorkflowNode) → UnlockConfig → Bool
config_holds node uc = elim uc.expression [
  | some e ↦ expression_holds node e
  | none ↦ any (λ (g : UnlockGroup). all (condition_holds node) g.all_of) uc.any_of
]

module _ (ids : Map String) (nodes : Map WorkflowNode) where
  condition_meaning :
      (c : UnlockCondition) {c' : UnlockCondition}
      → resolve_condition ids c ≡ ok c'
      → evaluate_condition nodes c' ≡ ok (condition_holds (node_of ids nodes) c)
  unfolding resolve_condition evaluate_condition
  condition_meaning c h = ground arith

  conditions_meaning :
      (cs : List UnlockCondition) {cs' : List UnlockCondition}
      → resolve_conditions ids cs ≡ ok cs'
      → evaluate_conditions nodes cs' ≡ ok (all (condition_holds (node_of ids nodes)) cs)
  unfolding resolve_conditions evaluate_conditions
  conditions_meaning [] h = ground arith
  conditions_meaning (c ∷ cs) h =
      let (c', first, h') = >>=-eq-ok (resolve_condition ids c) _ h in
      let (cs', rest, last) = >>=-eq-ok (resolve_conditions ids cs) _ h' in
      ground (arith, condition_meaning c first, conditions_meaning cs rest)

  groups_meaning :
      (gs : List UnlockGroup) {gs' : List UnlockGroup}
      → resolve_groups ids gs ≡ ok gs'
      → evaluate_groups nodes gs'
        ≡ ok (any (λ (g : UnlockGroup). all (condition_holds (node_of ids nodes)) g.all_of) gs)
  unfolding resolve_groups evaluate_groups evaluate_group
  groups_meaning [] h = ground arith
  groups_meaning (g ∷ gs) h =
      let (cs', first, h') = >>=-eq-ok (resolve_conditions ids g.all_of) _ h in
      let (gs', rest, last) = >>=-eq-ok (resolve_groups ids gs) _ h' in
      ground (arith, conditions_meaning g.all_of first, groups_meaning gs rest)

is_nil-resolve :
    (ids : Map String) (es : Expressions) {es' : Expressions}
    → resolve_expressions ids es ≡ ok es'
    → is_nil es' ≡ is_nil es
unfolding resolve_expression
is_nil-resolve ids nil h = ground arith
is_nil-resolve ids (cons e es) h = ground arith

nil_parts : (ids : Map String) {es : Expressions} → resolve_expressions ids nil ≡ ok es → es ≡ nil
unfolding resolve_expression
nil_parts ids h = cc

cons_parts :
    (ids : Map String) (e : UnlockExpression) (es : Expressions) {r : Expressions}
    → resolve_expressions ids (cons e es) ≡ ok r
    → (e' : UnlockExpression) × (es' : Expressions) × (resolve_expression ids e ≡ ok e')
      × (resolve_expressions ids es ≡ ok es')
      × (r ≡ cons e' es')
unfolding resolve_expression
cons_parts ids e es h =
    let (e', he, h1) = >>=-eq-ok (resolve_expression ids e) _ h in
    let (es', hes, h2) = >>=-eq-ok (resolve_expressions ids es) _ h1 in (e', es', he, hes, cc)

-- The three parts of a resolved expression.
resolve_parts :
    (ids : Map String) (xs ys : Expressions) (leaf : UnlockCondition) {e' : UnlockExpression}
    → resolve_expression ids (expr xs ys leaf) ≡ ok e'
    → (xs' : Expressions) × (ys' : Expressions) × (leaf' : UnlockCondition) × (resolve_expressions
          ids xs
        ≡ ok xs')
      × (resolve_expressions ids ys ≡ ok ys')
      × (resolve_leaf ids leaf ≡ ok leaf')
      × (e' ≡ expr xs' ys' leaf')
unfolding resolve_expression
resolve_parts ids xs ys leaf h =
    let (xs', hx, h1) = >>=-eq-ok (resolve_expressions ids xs) _ h in
    let (ys', hy, h2) = >>=-eq-ok (resolve_expressions ids ys) _ h1 in
    let (leaf', hl, h3) = >>=-eq-ok (resolve_leaf ids leaf) _ h2 in
    (xs', ys', leaf', hx, hy, hl, cc)

module _ (ids : Map String) (nodes : Map WorkflowNode) where
  leaf_meaning :
      (leaf : UnlockCondition) {leaf' : UnlockCondition}
      → IsCondition leaf
      → resolve_leaf ids leaf ≡ ok leaf'
      → evaluate_condition nodes leaf' ≡ ok (condition_holds (node_of ids nodes) leaf)
  unfolding resolve_leaf
  leaf_meaning leaf v h =
      condition_meaning ids nodes leaf (ground (arith, eq_iff leaf.node_template_id ""))

  mutual
    unfolding evaluate_expression expression_holds

    expression_meaning :
        (e : UnlockExpression) {e' : UnlockExpression}
        → IsExpression e
        → resolve_expression ids e ≡ ok e'
        → evaluate_expression nodes e' ≡ ok (expression_holds (node_of ids nodes) e)
    expression_meaning (expr nil nil leaf) v h =
        let (xs', ys', leaf', hx, hy, hl, eq) = resolve_parts ids nil nil leaf h in
        rw eq (
          ground
            (arith, is_nil-resolve ids nil hx, is_nil-resolve ids nil hy, leaf_meaning leaf v hl))
    expression_meaning (expr (cons e es) nil leaf) v h =
        let (xs', ys', leaf', hx, hy, hl, eq) = resolve_parts ids (cons e es) nil leaf h in
        rw eq (ground (arith, is_nil-resolve ids (cons e es) hx, any_meaning (cons e es) v.1 hx))
    expression_meaning (expr nil (cons e es) leaf) v h =
        let (xs', ys', leaf', hx, hy, hl, eq) = resolve_parts ids nil (cons e es) leaf h in
        rw eq (
          ground (
            arith,
            is_nil-resolve ids nil hx,
            is_nil-resolve ids (cons e es) hy,
            all_meaning (cons e es) v.1 hy,
          ))
    expression_meaning (expr (cons _ _) (cons _ _) leaf) v h = absurd v

    any_meaning :
        (es : Expressions) {es' : Expressions}
        → AreExpressions es
        → resolve_expressions ids es ≡ ok es'
        → evaluate_any nodes es' ≡ ok (any_holds (node_of ids nodes) es)
    any_meaning nil v h = rw (nil_parts ids h)
    any_meaning (cons e es) v h =
        let (e', es', he, hes, eq) = cons_parts ids e es h in
        rw eq (ground (arith, expression_meaning e v.0 he, any_meaning es v.1 hes))

    all_meaning :
        (es : Expressions) {es' : Expressions}
        → AreExpressions es
        → resolve_expressions ids es ≡ ok es'
        → evaluate_all nodes es' ≡ ok (all_hold (node_of ids nodes) es)
    all_meaning nil v h = rw (nil_parts ids h)
    all_meaning (cons e es) v h =
        let (e', es', he, hes, eq) = cons_parts ids e es h in
        rw eq (ground (arith, expression_meaning e v.0 he, all_meaning es v.1 hes))

validated_meaning :
    (uc : UnlockConfig) {resolved : UnlockConfig} (ids : Map String) (nodes : Map WorkflowNode)
    → IsConfig uc
    → resolve_validated ids uc ≡ ok resolved
    → evaluate nodes resolved ≡ ok (config_holds (node_of ids nodes) uc)
unfolding resolve_validated evaluate config_holds
validated_meaning uc ids nodes (inl (e, is_e, no_groups, v)) h =
    let h' = rw is_e at h in
    let (e', he, eq) = >>=-eq-ok (resolve_expression ids e) _ h' in
    rw is_e (ground (arith, expression_meaning ids nodes e v he))
validated_meaning uc ids nodes (inr (no_e, groups, v)) h =
    let h' = rw no_e at h in
    let (gs, hgs, eq) = >>=-eq-ok (resolve_groups ids uc.any_of) _ h' in
    rw no_e (ground (arith, groups_meaning ids nodes uc.any_of hgs))

-- If a configuration resolves, then evaluating the result never panics, and gives what the
-- unresolved configuration means over the nodes that stand for its templates.
pub evaluate-resolve :
    (uc : UnlockConfig) {resolved : UnlockConfig} (ids : Map String) (nodes : Map WorkflowNode)
    → resolve_to_instance_ids ids uc ≡ ok resolved
    → evaluate nodes resolved ≡ ok (config_holds (node_of ids nodes) uc)
unfolding resolve_to_instance_ids
evaluate-resolve uc ids nodes h =
    let (u, checked, h') = >>=-eq-ok (wrap "invalid unlock configuration: " (validate uc)) _ h in
    validated_meaning uc ids nodes ((validate_iff uc).0 (wrap-eq-ok _ (validate uc) checked)) h'
