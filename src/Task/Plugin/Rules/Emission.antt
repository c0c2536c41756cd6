-- ===== src/Task/Plugin/Rules/Emission.antt =====
-- Which outcome `Evaluate` chooses: plugin/emit.go.
use nsw.Prelude.{
  String, Bool, true, false, Option, none, some, List, [], ◌∷◌, ◌++◌, eq_iff, ◌≡◌, ◌↔◌, inl, inr,
  refl, sym, ap, ◌∙◌, All, Bool-cases,
}
use nsw.Json.{Value, Fields, text}
use nsw.Json.Path.{get_value_by_path}
use nsw.Task.Plugin.Rules.{
  FieldCondition, EmissionRule, EmissionConfig, value_matches, condition_matches, conditions_match,
  rule_matches, evaluate_emission,
}

-- The value at the condition's path is the text that it asks for.
abbrev pub Holds : Fields → FieldCondition → Type 0
Holds fs c = get_value_by_path fs c.field ≡ some (text c.value)

abbrev pub Applies : Fields → EmissionRule → Type 0
Applies fs rule = All (Holds fs) rule.conditions

-- The first rule of the list all of whose conditions hold.
pub record IsFirst (fs : Fields) (rules : List EmissionRule) (outcome : String) : Type 0 where
  pub before : List EmissionRule
  pub rule : EmissionRule
  pub after : List EmissionRule
  pub split : rules ≡ before ++ rule ∷ after
  pub passed_over : All (λ (r : EmissionRule). ¬ Applies fs r) before
  pub applies : Applies fs rule
  pub chosen : rule.outcome ≡ outcome

value_matches-eq_text :
    (wanted : String) (o : Option Value)
    → (value_matches wanted o ≡ true) ↔ (o ≡ some (text wanted))
unfolding value_matches
value_matches-eq_text wanted none = ((λ h. absurd cc), λ h. absurd cc)
value_matches-eq_text wanted (some (text s)) =
    ((λ h. ap (λ x. some (text x)) ((eq_iff s wanted).0 h)), (λ h. (eq_iff s wanted).1 (cc)))
value_matches-eq_text wanted (some Value.null) = ((λ h. absurd cc), λ h. absurd cc)
value_matches-eq_text wanted (some (Value.boolean b)) = ((λ h. absurd cc), λ h. absurd cc)
value_matches-eq_text wanted (some (Value.number n)) = ((λ h. absurd cc), λ h. absurd cc)
value_matches-eq_text wanted (some (Value.array vs)) = ((λ h. absurd cc), λ h. absurd cc)
value_matches-eq_text wanted (some (Value.object fs)) = ((λ h. absurd cc), λ h. absurd cc)

conditions_match-Holds :
    (fs : Fields) (cs : List FieldCondition) → (conditions_match fs cs ≡ true) ↔ All (Holds fs) cs
unfolding conditions_match condition_matches
conditions_match-Holds fs [] = ((λ h. tt), λ h. refl)
conditions_match-Holds fs (c ∷ cs) =
    let found = get_value_by_path fs c.field in
    let (to, from) = value_matches-eq_text c.value found in
    let (to', from') = conditions_match-Holds fs cs in
    elim (Bool-cases (value_matches c.value found)) [
      | inl e ↦ ((λ h. (to e, to' (rw e at h))), λ h. rw e (from' h.1))
      | inr e ↦ (
        (λ h. let h' : Path Bool false true = rw e at h in absurd cc),
        λ h. let h' : Path Bool false true = sym e ∙ from h.0 in absurd cc,
      )
    ]

evaluate_emission-eq-some :
    (rules : EmissionConfig) (fs : Fields) (outcome : String)
    → evaluate_emission rules fs ≡ some outcome
    → IsFirst fs rules outcome
unfolding evaluate_emission rule_matches
evaluate_emission-eq-some [] fs outcome h = absurd cc
evaluate_emission-eq-some (rule ∷ rules) fs outcome h =
    let (to, from) = conditions_match-Holds fs rule.conditions in
    elim (Bool-cases (conditions_match fs rule.conditions)) [
      | inl e ↦
          let h' : Path (Option String) (some rule.outcome) (some outcome) = rw e at h in
          record {
            before = [];
            rule = rule;
            after = rules;
            split = refl;
            passed_over = tt;
            applies = to e;
            chosen = cc;
          }
      | inr e ↦
          let later = evaluate_emission-eq-some rules fs outcome (rw e at h) in
          record {
            before = rule ∷ later.before;
            rule = later.rule;
            after = later.after;
            split = ap (λ rs. rule ∷ rs) later.split;
            passed_over = (
              (λ a. let h' : Path Bool false true = sym e ∙ from a in absurd cc),
              later.passed_over,
            );
            applies = later.applies;
            chosen = later.chosen;
          }
    ]

evaluate_emission-eq-none :
    (rules : EmissionConfig) (fs : Fields)
    → evaluate_emission rules fs ≡ none
    → All (λ (r : EmissionRule). ¬ Applies fs r) rules
unfolding evaluate_emission rule_matches
evaluate_emission-eq-none [] fs h = tt
evaluate_emission-eq-none (rule ∷ rules) fs h =
    let (to, from) = conditions_match-Holds fs rule.conditions in
    elim (Bool-cases (conditions_match fs rule.conditions)) [
      | inl e ↦ let h' : Path (Option String) (some rule.outcome) none = rw e at h in absurd cc
      | inr e ↦ (
        (λ a. let h' : Path Bool false true = sym e ∙ from a in absurd cc),
        evaluate_emission-eq-none rules fs (rw e at h),
      )
    ]

abbrev pub Chosen : Fields → List EmissionRule → Option String → Type 0
Chosen fs rules none = All (λ (r : EmissionRule). ¬ Applies fs r) rules
Chosen fs rules (some outcome) = IsFirst fs rules outcome

-- `Evaluate` gives the outcome of the first rule all of whose conditions hold, and nothing only if
-- no rule is such.
pub evaluate_emission-Chosen :
    (rules : EmissionConfig) (fs : Fields) → Chosen fs rules (evaluate_emission rules fs)
evaluate_emission-Chosen rules fs = by_answer (evaluate_emission rules fs) refl
  where
    by_answer : (o : Option String) → evaluate_emission rules fs ≡ o → Chosen fs rules o
    by_answer none h = evaluate_emission-eq-none rules fs h
    by_answer (some outcome) h = evaluate_emission-eq-some rules fs outcome h
