-- ===== src/Task/Plugin/Payment/Amounts.antt =====
-- `calculateBreakdown` reads the global context only: plugin/payment.go.
use nsw.Prelude.{String, Option, none, some, List, [], ◌∷◌, ◌++◌, ◌==◌, if◌then◌else◌}
use nsw.Json.Path.{split_on, split_path}
use nsw.Task.Store.{Json}
use nsw.Task.Plugin.Config.{lookup_keys}
use nsw.Task.Plugin.Api.Allows.{Allows, Any, ◌then◌, return-Allows, if-Allows, global-Allows}
use nsw.Task.Plugin.Payment.{BreakdownItem, ResolvedItem, PaymentConfig, PaymentServices}
use nsw.Task.Plugin.Payment.Breakdown.{
  resolve_value, resolve_form, fixed_items, percentage_items, calculate_breakdown, placeholder,
  decimal_of, default_of, first_part, apply_amount, fixed_item, percentage_item,
}

module _ {D : Type 0} (services : PaymentServices D) (config : PaymentConfig) (P : String → Type 0)
    (J : String → Json → Type 0) where
  lookup_keys-Allows : (keys : List String) → Allows P J Any (lookup_keys services.values keys)
  unfolding lookup_keys
  lookup_keys-Allows [] = return-Allows none tt
  lookup_keys-Allows (key ∷ keys) = global-Allows key then λ stored _. return-Allows _ tt

  resolve_form-Allows :
      (val : String) (fallback : D) (form : Option String)
      → Allows P J Any (resolve_form services val fallback form)
  unfolding resolve_form
  resolve_form-Allows val fallback none = return-Allows _ tt
  resolve_form-Allows val fallback (some inner) =
      lookup_keys-Allows (split_path (first_part (split_on b':' inner))) then λ found _.
      return-Allows (decimal_of services found (default_of services (split_on b':' inner) fallback))
        tt

  resolve_value-Allows :
      (val : String) (fallback : D) → Allows P J Any (resolve_value services val fallback)
  unfolding resolve_value
  resolve_value-Allows val fallback =
      if-Allows (val == "") (return-Allows fallback tt)
        (resolve_form-Allows val fallback (placeholder val))

  fixed_items-Allows :
      (items : List BreakdownItem) (resolved : List (ResolvedItem D)) (subtotal : D)
      → Allows P J Any (fixed_items services items resolved subtotal)
  unfolding fixed_items
  fixed_items-Allows [] resolved subtotal = return-Allows (resolved, subtotal) tt
  fixed_items-Allows (item ∷ items) resolved subtotal =
      if-Allows (item.type_name == "FIXED")
        (resolve_value-Allows item.quantity (services.decimals.of_int 1) then λ quantity _.
          (resolve_value-Allows item.unit_price (services.decimals.of_int 0) then λ price _.
          fixed_items-Allows items (resolved ++ fixed_item services item quantity price ∷ [])
            (apply_amount services item subtotal (services.decimals.mul quantity price))))
        (fixed_items-Allows items resolved subtotal)

  percentage_items-Allows :
      (items : List BreakdownItem) (resolved : List (ResolvedItem D)) (total : D)
      → Allows P J Any (percentage_items services items resolved total)
  unfolding percentage_items
  percentage_items-Allows [] resolved total = return-Allows (resolved, total) tt
  percentage_items-Allows (item ∷ items) resolved total =
      let num = services.decimals in
      if-Allows (item.type_name == "PERCENTAGE")
        (resolve_value-Allows item.value (num.of_int 0) then λ percentage _.
          let amount : D = num.div (num.mul total percentage) (num.of_int 100) in
          percentage_items-Allows items (resolved ++ percentage_item services item amount ∷ [])
            (apply_amount services item total amount))
        (percentage_items-Allows items resolved total)

  pub calculate_breakdown-Allows : Allows P J Any (calculate_breakdown services config)
  unfolding calculate_breakdown
  calculate_breakdown-Allows =
      let num = services.decimals in
      fixed_items-Allows config.breakdown [] (num.of_int 0) then λ fixed _.
      (percentage_items-Allows config.breakdown fixed.0 fixed.1 then λ all _.
      return-Allows (all.0, num.round all.1 2) tt)
