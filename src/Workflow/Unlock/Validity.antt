-- ===== src/Workflow/Unlock/Validity.antt =====
-- What `Validate` accepts: a declarative description of the configurations without errors.
use nsw.Prelude.{
  String, false, Option, none, some, List, [], ◌∷◌, ◌≡◌, ◌≢◌, ◌↔◌, ◌⊎◌, inl, inr, refl, arith,
  eq_iff, All, Option-cases, ok, >>=-eq-ok,
}
use nsw.Workflow.Model.{
  UnlockCondition, UnlockGroup, UnlockExpression, expr, Expressions, nil, cons, UnlockConfig,
}
use nsw.Workflow.Unlock.{
  is_blank, validate_condition, validate_expression, validate_expressions, validate_conditions,
  validate_groups, validate,
}

-- A text that is absent, or holds something other than spaces.
abbrev pub IsFilled : Option String → Type 0
IsFilled none = Unit
IsFilled (some s) = is_blank s ≡ false

abbrev pub IsPresent : Option String → Type 0
IsPresent none = ⊥
IsPresent (some _) = Unit

-- A condition names a template and asks for a state or an outcome.
pub record IsCondition (c : UnlockCondition) : Type 0 where
  pub named : c.node_template_id ≢ ""
  pub asks : IsPresent c.state ⊎ IsPresent c.outcome
  pub state_filled : IsFilled c.state
  pub outcome_filled : IsFilled c.outcome

-- No leaf field is set.
pub record IsBare (c : UnlockCondition) : Type 0 where
  pub unnamed : c.node_template_id ≡ ""
  pub no_state : c.state ≡ none
  pub no_outcome : c.outcome ≡ none

-- Exactly one of a condition, a disjunction and a conjunction.
abbrev mutual
  pub IsExpression : UnlockExpression → Type 0
  IsExpression (expr nil nil leaf) = IsCondition leaf
  IsExpression (expr (cons e es) nil leaf) = IsBare leaf × AreExpressions (cons e es)
  IsExpression (expr nil (cons e es) leaf) = IsBare leaf × AreExpressions (cons e es)
  IsExpression (expr (cons _ _) (cons _ _) leaf) = ⊥

  pub AreExpressions : Expressions → Type 0
  AreExpressions nil = Unit
  AreExpressions (cons e es) = IsExpression e × AreExpressions es

condition_valid : (c : UnlockCondition) → IsCondition c → validate_condition c ≡ ok tt
unfolding validate_condition
condition_valid c h = ground (arith, eq_iff c.node_template_id "")

validate_condition-IsCondition :
    (c : UnlockCondition) → validate_condition c ≡ ok tt → IsCondition c
unfolding validate_condition
validate_condition-IsCondition c h = ground (arith, eq_iff c.node_template_id "")

mutual
  unfolding validate_expression

  expression_valid : (e : UnlockExpression) → IsExpression e → validate_expression e ≡ ok tt
  expression_valid (expr nil nil leaf) h =
      ground (arith, eq_iff leaf.node_template_id "", condition_valid leaf h)
  expression_valid (expr (cons e es) nil leaf) h =
      ground (arith, eq_iff leaf.node_template_id "", expressions_valid (cons e es) h.1)
  expression_valid (expr nil (cons e es) leaf) h =
      ground (arith, eq_iff leaf.node_template_id "", expressions_valid (cons e es) h.1)
  expression_valid (expr (cons _ _) (cons _ _) leaf) h = absurd h

  expressions_valid : (es : Expressions) → AreExpressions es → validate_expressions es ≡ ok tt
  expressions_valid nil h = refl
  expressions_valid (cons e es) h = rw (expression_valid e h.0) (expressions_valid es h.1)

mutual
  unfolding validate_expression

  validate_expression-IsExpression :
      (e : UnlockExpression) → validate_expression e ≡ ok tt → IsExpression e
  validate_expression-IsExpression (expr nil nil leaf) h =
      validate_condition-IsCondition leaf (ground (arith, eq_iff leaf.node_template_id ""))
  validate_expression-IsExpression (expr (cons e es) nil leaf) h = (
    ground (arith, eq_iff leaf.node_template_id ""),
    validate_expressions-AreExpressions (cons e es)
        (ground (arith, eq_iff leaf.node_template_id "")),
  )
  validate_expression-IsExpression (expr nil (cons e es) leaf) h = (
    ground (arith, eq_iff leaf.node_template_id ""),
    validate_expressions-AreExpressions (cons e es)
        (ground (arith, eq_iff leaf.node_template_id "")),
  )
  validate_expression-IsExpression (expr (cons _ _) (cons _ _) leaf) h =
      ground (arith, eq_iff leaf.node_template_id "")

  validate_expressions-AreExpressions :
      (es : Expressions) → validate_expressions es ≡ ok tt → AreExpressions es
  validate_expressions-AreExpressions nil h = tt
  validate_expressions-AreExpressions (cons e es) h =
      let (u, first, rest) = >>=-eq-ok (validate_expression e) (λ _. validate_expressions es) h in
      (validate_expression-IsExpression e first, validate_expressions-AreExpressions es rest)

-- Every group has a condition, and every condition is well formed.
abbrev pub IsGroup : UnlockGroup → Type 0
IsGroup g = (g.all_of ≢ []) × All IsCondition g.all_of

-- Either an expression or groups, not both.
abbrev pub IsConfig : UnlockConfig → Type 0
IsConfig uc =
    ((e : UnlockExpression) × (uc.expression ≡ some e) × (uc.any_of ≡ []) × IsExpression e)
    ⊎ ((uc.expression ≡ none) × (uc.any_of ≢ []) × All IsGroup uc.any_of)

conditions_valid : (cs : List UnlockCondition) → All IsCondition cs → validate_conditions cs ≡ ok tt
unfolding validate_conditions
conditions_valid [] h = refl
conditions_valid (c ∷ cs) h = rw (condition_valid c h.0) (conditions_valid cs h.1)

valid_conditions : (cs : List UnlockCondition) → validate_conditions cs ≡ ok tt → All IsCondition cs
unfolding validate_conditions
valid_conditions [] h = tt
valid_conditions (c ∷ cs) h =
    let (u, first, rest) = >>=-eq-ok (validate_condition c) (λ _. validate_conditions cs) h in
    (validate_condition-IsCondition c first, valid_conditions cs rest)

groups_valid : (gs : List UnlockGroup) → All IsGroup gs → validate_groups gs ≡ ok tt
unfolding validate_groups
groups_valid [] h = refl
groups_valid (g ∷ gs) h = ground (arith, conditions_valid g.all_of h.0.1, groups_valid gs h.1)

valid_groups : (gs : List UnlockGroup) → validate_groups gs ≡ ok tt → All IsGroup gs
unfolding validate_groups
valid_groups [] h = tt
valid_groups (g ∷ gs) h =
    ((ground arith, valid_conditions g.all_of (ground arith)), valid_groups gs (ground arith))

config_valid : (uc : UnlockConfig) → IsConfig uc → validate uc ≡ ok tt
unfolding validate
config_valid uc (inl (e, is_e, no_groups, h)) = ground (arith, expression_valid e h)
config_valid uc (inr (no_e, groups, h)) = ground (arith, groups_valid uc.any_of h)

validate-IsConfig : (uc : UnlockConfig) → validate uc ≡ ok tt → IsConfig uc
unfolding validate
validate-IsConfig uc h = elim (Option-cases uc.expression) [
  | inl no_e ↦ inr (no_e, ground arith, valid_groups uc.any_of (ground arith))
  | inr (e, is_e) ↦ inl (e, is_e, ground arith, validate_expression-IsExpression e (ground arith))
]

-- `Validate` returns no error exactly for the well-formed configurations: one of an expression and
-- a non-empty list of non-empty groups, with exactly one form at each expression, and at each
-- condition a template and a state or an outcome that are not blank.
pub validate_iff : (uc : UnlockConfig) → (validate uc ≡ ok tt) ↔ IsConfig uc
validate_iff uc = (validate-IsConfig uc, config_valid uc)
