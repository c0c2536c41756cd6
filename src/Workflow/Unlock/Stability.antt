-- ===== src/Workflow/Unlock/Stability.antt =====
-- Evaluation does not see a node go from LOCKED to READY, if no condition asks for these states.
use nsw.Prelude.{
  String, Option, none, some, List, [], ◌∷◌, Map, lookup, ◌≡◌, ◌≢◌, ◌⊎◌, inl, inr, refl, arith,
  eq_iff, Option-cases, All,
}
use nsw.Workflow.Model.{
  locked, ready, state_string, WorkflowNode, UnlockConfig, UnlockGroup, UnlockCondition,
  UnlockExpression, expr, Expressions, nil, cons,
}
use nsw.Workflow.Unlock.{
  state_matches, evaluate, evaluate_condition, evaluate_conditions, evaluate_group, evaluate_groups,
  evaluate_expression, evaluate_any, evaluate_all,
}

-- An entry stays, or goes from LOCKED to READY.
abbrev pub Progress : Option WorkflowNode → Option WorkflowNode → Type 0
Progress a b =
    (a ≡ b)
    ⊎ ((n : WorkflowNode) × (a ≡ some n)
        × (n.state ≡ locked)
        × (b ≡ some (record n { state = ready })))

abbrev pub Extends : Map WorkflowNode → Map WorkflowNode → Type 0
Extends m m' = (i : String) → Progress (lookup i m) (lookup i m')

-- A condition that asks for no state, or for one other than LOCKED and READY.
abbrev pub IsStableCondition : UnlockCondition → Type 0
IsStableCondition c = (c.state ≢ some "LOCKED") × (c.state ≢ some "READY")

abbrev mutual
  pub IsStableExpression : UnlockExpression → Type 0
  IsStableExpression (expr xs ys leaf) = AreStable xs × AreStable ys × IsStableCondition leaf

  pub AreStable : Expressions → Type 0
  AreStable nil = Unit
  AreStable (cons e es) = IsStableExpression e × AreStable es

abbrev pub IsStableOption : Option UnlockExpression → Type 0
IsStableOption none = Unit
IsStableOption (some e) = IsStableExpression e

-- No condition of the configuration asks for LOCKED or READY.
pub record IsStable (uc : UnlockConfig) : Type 0 where
  pub groups : All (λ (g : UnlockGroup). All IsStableCondition g.all_of) uc.any_of
  pub expression : IsStableOption uc.expression

-- The state check gives the same answer for a LOCKED node and for the same node READY.
state_matches_unlocked :
    (wanted : Option String) (n : WorkflowNode)
    → wanted ≢ some "LOCKED"
    → wanted ≢ some "READY"
    → n.state ≡ locked
    → state_matches wanted (record n { state = ready }) ≡ state_matches wanted n
unfolding state_string
state_matches_unlocked none n a b h = refl
state_matches_unlocked (some s) n a b h = ground (arith, eq_iff "READY" s, eq_iff "LOCKED" s)

module _ (m m' : Map WorkflowNode) (h : Extends m m') where
  condition-Extends :
      (c : UnlockCondition) → IsStableCondition c → evaluate_condition m' c ≡ evaluate_condition m c
  unfolding evaluate_condition
  condition-Extends c s = elim (Option-cases c.node_id) [
    | inl e ↦ ground arith
    | inr (i, e) ↦ elim (h i) [
      | inl same ↦ ground arith
      | inr (n, before, is_locked, after) ↦
          ground (arith, state_matches_unlocked c.state n s.0 s.1 is_locked)
    ]
  ]

  conditions-Extends :
      (cs : List UnlockCondition)
      → All IsStableCondition cs
      → evaluate_conditions m' cs ≡ evaluate_conditions m cs
  unfolding evaluate_conditions
  conditions-Extends [] s = refl
  conditions-Extends (c ∷ cs) s = ground (arith, condition-Extends c s.0, conditions-Extends cs s.1)

  groups-Extends :
      (gs : List UnlockGroup)
      → All (λ (g : UnlockGroup). All IsStableCondition g.all_of) gs
      → evaluate_groups m' gs ≡ evaluate_groups m gs
  unfolding evaluate_groups evaluate_group
  groups-Extends [] s = refl
  groups-Extends (g ∷ gs) s = rw (conditions-Extends g.all_of s.0, groups-Extends gs s.1)

  mutual
    unfolding evaluate_expression

    expression-Extends :
        (e : UnlockExpression)
        → IsStableExpression e
        → evaluate_expression m' e ≡ evaluate_expression m e
    expression-Extends (expr xs ys leaf) s =
        rw (any-Extends xs s.0, all-Extends ys s.1, condition-Extends leaf s.2)

    any-Extends : (es : Expressions) → AreStable es → evaluate_any m' es ≡ evaluate_any m es
    any-Extends nil s = refl
    any-Extends (cons e es) s = rw (expression-Extends e s.0, any-Extends es s.1)

    all-Extends : (es : Expressions) → AreStable es → evaluate_all m' es ≡ evaluate_all m es
    all-Extends nil s = refl
    all-Extends (cons e es) s = rw (expression-Extends e s.0, all-Extends es s.1)

  option-Extends :
      (o : Option UnlockExpression) (gs : List UnlockGroup)
      → IsStableOption o
      → All (λ (g : UnlockGroup). All IsStableCondition g.all_of) gs
      → evaluate m' (record { any_of = gs; expression = o })
        ≡ evaluate m (record { any_of = gs; expression = o })
  unfolding evaluate
  option-Extends none gs s sg = groups-Extends gs sg
  option-Extends (some e) gs s sg = expression-Extends e s

  -- A configuration of which no condition asks for LOCKED or READY evaluates alike over two maps of
  -- which the second has some LOCKED nodes of the first READY.
  pub evaluate-Extends : (uc : UnlockConfig) → IsStable uc → evaluate m' uc ≡ evaluate m uc
  evaluate-Extends uc s = option-Extends uc.expression uc.any_of s.expression s.groups
