-- ===== src/Json/Merge.antt =====
-- Two objects merged, the second one before the first: `mergeFormData` of plugin/simple_form.go.
use nsw.Prelude.{String, Option, none, some, ◌==◌, eq_iff, ◌≡◌, refl, ap, ◌∙◌, Bool-cases, inl, inr}
use nsw.Json.{
  Value, Fields, null, boolean, number, text, array, object, end, field, find_field, set_field,
  find_field-set_field,
}

-- what is kept where both objects may have the key
unfoldable mutual
  unfolding find_field set_field

  pub merge_value : Option Value → Value → Value
  merge_value none v = v
  merge_value (some (object fs)) (object gs) = object (merge_form_data fs gs)
  merge_value (some _) v = v

  -- `mergeFormData`
  pub merge_form_data : Fields → Fields → Fields
  merge_form_data result end = result
  merge_form_data result (field key v rest) =
      merge_form_data (set_field key (merge_value (find_field key result) v) result) rest

-- No key twice.
abbrev pub IsMap : Fields → Type 0
IsMap end = Unit
IsMap (field key v rest) = (find_field key rest ≡ none) × IsMap rest

-- What the merged object is to have under a key that the two objects have so: the existing value,
-- but two objects merged in turn.
abbrev pub merged : Option Value → Option Value → Option Value
merged prepopulated none = prepopulated
merged none (some v) = some v
merged (some (object fs)) (some (object gs)) = some (object (merge_form_data fs gs))
merged (some _) (some v) = some v

-- `merge_value` keeps what it is to keep.
merge_value-merged : (o : Option Value) (v : Value) → some (merge_value o v) ≡ merged o (some v)
unfolding merge_value
merge_value-merged none v = refl
merge_value-merged (some null) v = refl
merge_value-merged (some (boolean b)) v = refl
merge_value-merged (some (number n)) v = refl
merge_value-merged (some (text s)) v = refl
merge_value-merged (some (array vs)) v = refl
merge_value-merged (some (object fs)) null = refl
merge_value-merged (some (object fs)) (boolean b) = refl
merge_value-merged (some (object fs)) (number n) = refl
merge_value-merged (some (object fs)) (text s) = refl
merge_value-merged (some (object fs)) (array vs) = refl
merge_value-merged (some (object fs)) (object gs) = refl

-- Under each key, the merged form data have the existing value if there is one, merged in turn
-- where both values are objects, and the prepopulated one otherwise. It is assumed that no key
-- stands twice in the existing data.
pub find_field-merge_form_data :
    (key : String) (prepopulated existing : Fields)
    → IsMap existing
    → find_field key (merge_form_data prepopulated existing)
      ≡ merged (find_field key prepopulated) (find_field key existing)
unfolding merge_form_data find_field
find_field-merge_form_data key prepopulated end h = refl
find_field-merge_form_data key prepopulated (field other v rest) (fresh, h) =
    let first = merge_value (find_field other prepopulated) v in
    let later = find_field-merge_form_data key (set_field other first prepopulated) rest h in
    let set = find_field-set_field other key first prepopulated in
    elim (Bool-cases (other == key)) [
      | inl e ↦
          let same : other ≡ key = (eq_iff other key).0 e in
          rw (e, find_field)
            (later
              ∙ ap (merged (find_field key (set_field other first prepopulated))) (rw same at fresh)
              ∙ set
              ∙ rw e (rw same (merge_value-merged (find_field key prepopulated) v)))
      | inr e ↦
          rw (e, find_field) (later ∙ ap (λ o. merged o (find_field key rest)) (set ∙ rw e refl))
    ]
