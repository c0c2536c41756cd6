-- ===== src/Task/Plugin/Rules.antt =====
-- plugin/emit.go and plugin/transition.go: rules that choose an outcome, or the action of a
-- request, by the values at dotted paths of an object.
pub mod Emission
use nsw.Prelude.{
  String, Bool, true, false, ◌&&◌, Option, none, some, List, [], ◌∷◌, Map, lookup, ◌==◌,
  if◌then◌else◌, Result, ok, err,
}
use nsw.Json.{Value, Fields, text, as_text}
use nsw.Json.Path.{get_value_by_path}

pub record FieldCondition : Type 0 where
  pub field : String
  pub value : String

pub record EmissionRule : Type 0 where
  pub outcome : String
  pub conditions : List FieldCondition

-- `EmissionConfig`
abbrev pub EmissionConfig : Type 0
EmissionConfig = List EmissionRule

-- `exists`, `val.(string)` and `str == c.Value`
unfoldable pub value_matches : String → Option Value → Bool
value_matches wanted none = false
value_matches wanted (some (text s)) = s == wanted
value_matches wanted (some _) = false

-- one round of the loop of `matches`
unfoldable pub condition_matches : Fields → FieldCondition → Bool
unfolding value_matches
condition_matches fs c = value_matches c.value (get_value_by_path fs c.field)

unfoldable pub conditions_match : Fields → List FieldCondition → Bool
conditions_match fs [] = true
conditions_match fs (c ∷ cs) = condition_matches fs c && conditions_match fs cs

-- `matches`
unfoldable pub rule_matches : Fields → EmissionRule → Bool
unfolding conditions_match
rule_matches fs rule = conditions_match fs rule.conditions

-- `EmissionConfig.Evaluate`
unfoldable pub evaluate_emission : EmissionConfig → Fields → Option String
unfolding rule_matches
evaluate_emission [] fs = none
evaluate_emission (rule ∷ rules) fs =
    let later = evaluate_emission rules fs in
    if rule_matches fs rule then some rule.outcome else later

pub record TransitionConfig : Type 0 where
  pub field : String
  pub mapping : Map String
  pub default : String

abbrev or_default : TransitionConfig → String → Result String
or_default t message = if t.default == "" then err message else ok t.default

-- `TransitionConfig.Resolve`
unfoldable pub resolve_transition : TransitionConfig → Fields → Result String
unfolding as_text
resolve_transition t fs = elim (get_value_by_path fs t.field) [
  | none ↦ or_default t "transition field not found in data"
  | some v ↦ elim (as_text v) [
    | none ↦ err "transition field is not a string"
    | some s ↦ elim (lookup s t.mapping) [
      | some action ↦ ok action
      | none ↦ or_default t "no transition mapped for field value and no default set"
    ]
  ]
]
