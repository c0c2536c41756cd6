-- ===== src/Workflow/Unlock.antt =====
-- model/unlock_config.go: validation, resolution to node instances and evaluation of the unlock
-- configuration of a node. An error carries the constant text of its message; the path through
-- the expression that the messages also print is left out.
pub mod Meaning
pub mod Validity
pub mod Stability
use Prim.Native.Char.{Char, code}
use nsw.Prelude.{
  ℕ, suc, ◌+◌, String, Bool, true, false, not, ◌&&◌, ◌||◌, Option, none, some, List, [], ◌∷◌, Map,
  lookup, ◌==◌, ◌==ℕ◌, leb, if◌then◌else◌, is_some, is_empty, Result, ok, err, panic, ◌>>=◌, ◌>>◌,
  wrap,
}
use nsw.Workflow.Model.{
  UnlockCondition, UnlockGroup, UnlockExpression, expr, Expressions, nil, cons, UnlockConfig,
  WorkflowNode, state_string,
}

-- `unicode.IsSpace`
unfoldable pub is_space : ℕ → Bool
is_space c =
    (leb 9 c && leb c 13)
    || c ==ℕ 32
    || c ==ℕ 0x85
    || c ==ℕ 0xA0
    || c ==ℕ 0x1680
    || (leb 0x2000 c && leb c 0x200A)
    || c ==ℕ 0x2028
    || c ==ℕ 0x2029
    || c ==ℕ 0x202F
    || c ==ℕ 0x205F
    || c ==ℕ 0x3000

-- `len(strings.TrimSpace(s)) == 0`: every character is a space.
unfoldable pub is_blank : String → Bool
unfolding is_space
is_blank String.[] = true
is_blank (String.◌∷◌ c s) = is_space (code c) && is_blank s

-- `s != nil && len(strings.TrimSpace(*s)) == 0`
abbrev blank_if_set : Option String → Bool
blank_if_set none = false
blank_if_set (some s) = is_blank s

unfoldable pub validate_condition : UnlockCondition → Result (Unit {0})
validate_condition cond =
    if cond.node_template_id == ""
    then err "has nil nodeTemplateId"
    else if not (is_some cond.state) && not (is_some cond.outcome)
    then err "must specify at least state or outcome"
    else if blank_if_set cond.state
    then err "has empty state"
    else if blank_if_set cond.outcome
    then err "has empty outcome"
    else ok tt

abbrev is_nil : Expressions → Bool
is_nil nil = true
is_nil (cons _ _) = false

-- `expr.NodeTemplateID != "" || expr.State != nil || expr.Outcome != nil`
abbrev has_leaf : UnlockCondition → Bool
has_leaf leaf = not (leaf.node_template_id == "") || is_some leaf.state || is_some leaf.outcome

abbrev count_true : Bool → ℕ
count_true true = 1
count_true false = 0

unfoldable mutual
  pub validate_expression : UnlockExpression → Result (Unit {0})
  validate_expression (expr any_of all_of leaf) =
      let has_any = not (is_nil any_of) in
      let has_all = not (is_nil all_of) in
      let has_condition = has_leaf leaf in
      let defined_count = count_true has_any + count_true has_all + count_true has_condition in
      let any_checked = validate_expressions any_of in
      let all_checked = validate_expressions all_of in
      if defined_count ==ℕ 0
      then err "must define one of anyOf, allOf, or a condition"
      else if leb 2 defined_count
      then err "must define exactly one of anyOf, allOf, or a condition"
      else if has_any
      then any_checked
      else if has_all
      then all_checked
      else validate_condition leaf

  -- the loops over `AnyOf` and `AllOf`
  pub validate_expressions : Expressions → Result (Unit {0})
  validate_expressions nil = ok tt
  validate_expressions (cons e es) = do validate_expression e; validate_expressions es

unfoldable pub validate_conditions : List UnlockCondition → Result (Unit {0})
validate_conditions [] = ok tt
validate_conditions (c ∷ cs) = do validate_condition c; validate_conditions cs

unfoldable pub validate_groups : List UnlockGroup → Result (Unit {0})
validate_groups [] = ok tt
validate_groups (g ∷ gs) =
    if is_empty g.all_of
    then err "unlock configuration group must have at least one condition in allOf"
    else do validate_conditions g.all_of; validate_groups gs

unfoldable pub validate : UnlockConfig → Result (Unit {0})
unfolding validate_groups validate_conditions
validate uc = elim uc.expression [
  | some e ↦
      if not (is_empty uc.any_of)
      then err "unlock configuration cannot define both expression and anyOf"
      else validate_expression e
  | none ↦
      if is_empty uc.any_of
      then err "unlock configuration must have at least one group in anyOf or define expression"
      else validate_groups uc.any_of
]

unfoldable pub resolve_condition : Map String → UnlockCondition → Result UnlockCondition
resolve_condition template_to_node cond = elim (lookup cond.node_template_id template_to_node) [
  | none ↦ err "no instance node found for template ID in unlock configuration"
  | some node_id ↦ ok (record cond { node_id = some node_id })
]

unfoldable pub resolve_conditions :
    Map String → List UnlockCondition → Result (List UnlockCondition)
resolve_conditions m [] = ok []
resolve_conditions m (c ∷ cs) = do
  c' ← resolve_condition m c
  cs' ← resolve_conditions m cs
  ok (c' ∷ cs')

unfoldable pub resolve_groups : Map String → List UnlockGroup → Result (List UnlockGroup)
resolve_groups m [] = ok []
resolve_groups m (g ∷ gs) = do
  cs ← resolve_conditions m g.all_of
  gs' ← resolve_groups m gs
  ok (record { all_of = cs } ∷ gs')

-- The leaf part of a resolved expression keeps its state and outcome, and gets its template and
-- node only if a template is named.
unfoldable pub resolve_leaf : Map String → UnlockCondition → Result UnlockCondition
resolve_leaf m leaf =
    if not (leaf.node_template_id == "")
    then resolve_condition m leaf
    else ok (record leaf { node_template_id = ""; node_id = none })

unfoldable mutual
  pub resolve_expression : Map String → UnlockExpression → Result UnlockExpression
  resolve_expression m (expr any_of all_of leaf) = do
    any_resolved ← resolve_expressions m any_of
    all_resolved ← resolve_expressions m all_of
    leaf_resolved ← resolve_leaf m leaf
    ok (expr any_resolved all_resolved leaf_resolved)

  pub resolve_expressions : Map String → Expressions → Result Expressions
  resolve_expressions m nil = ok nil
  resolve_expressions m (cons e es) = do
    e' ← resolve_expression m e
    es' ← resolve_expressions m es
    ok (cons e' es')

-- the body of `ResolveToInstanceIDs` after validation
unfoldable pub resolve_validated : Map String → UnlockConfig → Result UnlockConfig
resolve_validated m uc = elim uc.expression [
  | some e ↦ do e' ← resolve_expression m e; ok (record { any_of = []; expression = some e' })
  | none ↦ do gs ← resolve_groups m uc.any_of; ok (record { any_of = gs; expression = none })
]

-- `ResolveToInstanceIDs`
unfoldable pub resolve_to_instance_ids : Map String → UnlockConfig → Result UnlockConfig
resolve_to_instance_ids m uc = do
  wrap "invalid unlock configuration: " (validate uc)
  resolve_validated m uc

-- `cond.State != nil && string(node.State) != *cond.State` fails
abbrev state_matches : Option String → WorkflowNode → Bool
state_matches none node = true
state_matches (some s) node = state_string node.state == s

-- the outcome check, which fails on a nil outcome of the node
abbrev outcome_matches : Option String → Option String → Bool
outcome_matches none found = true
outcome_matches (some s) none = false
outcome_matches (some s) (some found) = found == s

-- `*cond.NodeID` panics on a condition that was not resolved.
unfoldable pub evaluate_condition : Map WorkflowNode → UnlockCondition → Result Bool
evaluate_condition nodes cond = elim cond.node_id [
  | none ↦ panic
  | some id ↦ elim (lookup id nodes) [
    | none ↦ ok false
    | some node ↦ ok (state_matches cond.state node && outcome_matches cond.outcome node.outcome)
  ]
]

-- stops at the first condition that fails
unfoldable pub evaluate_conditions : Map WorkflowNode → List UnlockCondition → Result Bool
evaluate_conditions nodes [] = ok true
evaluate_conditions nodes (c ∷ cs) = do
  met ← evaluate_condition nodes c
  if met then evaluate_conditions nodes cs else ok false

unfoldable pub evaluate_group : Map WorkflowNode → UnlockGroup → Result Bool
unfolding evaluate_conditions
evaluate_group nodes group = evaluate_conditions nodes group.all_of

-- stops at the first group that is satisfied
unfoldable pub evaluate_groups : Map WorkflowNode → List UnlockGroup → Result Bool
evaluate_groups nodes [] = ok false
evaluate_groups nodes (g ∷ gs) = do
  met ← evaluate_group nodes g
  if met then ok true else evaluate_groups nodes gs

unfoldable mutual
  pub evaluate_expression : Map WorkflowNode → UnlockExpression → Result Bool
  evaluate_expression nodes (expr any_of all_of leaf) =
      let any_met = evaluate_any nodes any_of in
      let all_met = evaluate_all nodes all_of in
      if not (is_nil any_of)
      then any_met
      else if not (is_nil all_of)
      then all_met
      else evaluate_condition nodes leaf

  pub evaluate_any : Map WorkflowNode → Expressions → Result Bool
  evaluate_any nodes nil = ok false
  evaluate_any nodes (cons e es) =
      let rest = evaluate_any nodes es in
      do met ← evaluate_expression nodes e; if met then ok true else rest

  pub evaluate_all : Map WorkflowNode → Expressions → Result Bool
  evaluate_all nodes nil = ok true
  evaluate_all nodes (cons e es) =
      let rest = evaluate_all nodes es in
      do met ← evaluate_expression nodes e; if met then rest else ok false

-- `Evaluate`
unfoldable pub evaluate : Map WorkflowNode → UnlockConfig → Result Bool
evaluate nodes uc = elim uc.expression [
  | some e ↦ evaluate_expression nodes e
  | none ↦ evaluate_groups nodes uc.any_of
]
