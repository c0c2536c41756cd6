-- ===== src/Json/Template.antt =====
-- backend/pkg/jsonutils/resolver.go: a template with its texts replaced by what they name. The
-- function that finds a value may call back into its caller, so it takes what follows it.
use nsw.Prelude.{String, Option, none, some}
use nsw.Json.{
  Value, Items, Fields, null, boolean, number, text, array, object, nil, cons, end, field,
}

-- `ResolveTemplate`; `find` gives nothing where Go's `lookup` gives nil
module _ {R : Type 0} (find : String → (Option Value → R) → R) where
  unfoldable mutual
    pub resolve_template : Value → (Value → R) → R
    resolve_template null k = k null
    resolve_template (boolean b) k = k (boolean b)
    resolve_template (number n) k = k (number n)
    resolve_template (text s) k = find s (λ o. elim o [ none ↦ k (text s) | some v ↦ k v ])
    resolve_template (array vs) k = resolve_items vs (λ ws. k (array ws))
    resolve_template (object fs) k = resolve_fields fs (λ gs. k (object gs))

    pub resolve_items : Items → (Items → R) → R
    resolve_items nil k = k nil
    resolve_items (cons v vs) k = resolve_template v (λ w. resolve_items vs (λ ws. k (cons w ws)))

    pub resolve_fields : Fields → (Fields → R) → R
    resolve_fields end k = k end
    resolve_fields (field key v rest) k =
        resolve_template v (λ w. resolve_fields rest (λ gs. k (field key w gs)))
