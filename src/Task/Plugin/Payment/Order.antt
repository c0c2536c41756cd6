-- ===== src/Task/Plugin/Payment/Order.antt =====
-- The order in which `calculateBreakdown` takes the items: plugin/payment.go.
use nsw.Prelude.{
  String, true, false, List, [], ◌∷◌, ◌++◌, ◌==◌, eq_iff, if◌then◌else◌, ◌≡◌, refl, sym, ap, ◌∙◌,
  All, inl, inr, Bool-cases,
}
use mathlib.Core.Path.{fun_ext}
use nsw.Task.Plugin.Api.{Call, ◌>>=◌}
use nsw.Task.Plugin.Payment.{BreakdownItem, ResolvedItem, PaymentConfig, PaymentServices}
use nsw.Task.Plugin.Payment.Breakdown.{
  resolve_value, apply_amount, fixed_item, percentage_item, fixed_items, percentage_items,
  calculate_breakdown,
}

-- The items of one type, in their order.
abbrev pub only : String → List BreakdownItem → List BreakdownItem
only type_name [] = []
only type_name (item ∷ items) =
    if item.type_name == type_name then item ∷ only type_name items else only type_name items

-- The items of a fixed amount before the percentages, without any others.
abbrev pub fixed_first : List BreakdownItem → List BreakdownItem
fixed_first items = only "FIXED" items ++ only "PERCENTAGE" items

abbrev HasNo : String → List BreakdownItem → Type 0
HasNo type_name = All (λ (item : BreakdownItem). (item.type_name == type_name) ≡ false)

only-HasNo :
    (wanted other : String) (items : List BreakdownItem)
    → (wanted == other) ≡ false
    → HasNo other (only wanted items)
only-HasNo wanted other [] ne = tt
only-HasNo wanted other (item ∷ items) ne = elim (Bool-cases (item.type_name == wanted)) [
  | inl e ↦
      let same : item.type_name ≡ wanted = (eq_iff item.type_name wanted).0 e in
      rw e ((rw same ne), only-HasNo wanted other items ne)
  | inr e ↦ rw e (only-HasNo wanted other items ne)
]

module _ {D : Type 0} (services : PaymentServices D) where
  abbrev Loop : Type 0
  Loop = List (ResolvedItem D) → D → Call (List (ResolvedItem D) × D)

  -- one round of the first loop on an item of a fixed amount
  abbrev fixed_round : BreakdownItem → Loop → Loop
  fixed_round item next resolved subtotal =
      resolve_value services item.quantity (services.decimals.of_int 1) >>= λ quantity.
      (resolve_value services item.unit_price (services.decimals.of_int 0) >>= λ price.
      next (resolved ++ fixed_item services item quantity price ∷ [])
        (apply_amount services item subtotal (services.decimals.mul quantity price)))

  -- one round of the second loop on a percentage
  abbrev percentage_round : BreakdownItem → Loop → Loop
  percentage_round item next resolved total =
      resolve_value services item.value (services.decimals.of_int 0) >>= λ percentage.
      let amount : D =
        services.decimals.div (services.decimals.mul total percentage)
          (services.decimals.of_int 100) in
      next (resolved ++ percentage_item services item amount ∷ [])
        (apply_amount services item total amount)

  -- A loop takes an item of its own type, and passes over the others.
  fixed_items-own :
      (item : BreakdownItem) (items : List BreakdownItem)
      → (item.type_name == "FIXED") ≡ true
      → Path Loop
          (fixed_items services (item ∷ items))
          (fixed_round item (fixed_items services items))
  unfolding fixed_items
  fixed_items-own item items e = fun_ext (λ resolved. fun_ext (λ subtotal. rw e refl))

  fixed_items-other :
      (item : BreakdownItem) (items : List BreakdownItem)
      → (item.type_name == "FIXED") ≡ false
      → Path Loop (fixed_items services (item ∷ items)) (fixed_items services items)
  unfolding fixed_items
  fixed_items-other item items e = fun_ext (λ resolved. fun_ext (λ subtotal. rw e refl))

  percentage_items-own :
      (item : BreakdownItem) (items : List BreakdownItem)
      → (item.type_name == "PERCENTAGE") ≡ true
      → Path Loop
          (percentage_items services (item ∷ items))
          (percentage_round item (percentage_items services items))
  unfolding percentage_items
  percentage_items-own item items e = fun_ext (λ resolved. fun_ext (λ total. rw e refl))

  percentage_items-other :
      (item : BreakdownItem) (items : List BreakdownItem)
      → (item.type_name == "PERCENTAGE") ≡ false
      → Path Loop (percentage_items services (item ∷ items)) (percentage_items services items)
  unfolding percentage_items
  percentage_items-other item items e = fun_ext (λ resolved. fun_ext (λ total. rw e refl))

  fixed_items-none :
      (items : List BreakdownItem)
      → HasNo "FIXED" items
      → Path Loop (fixed_items services items) (fixed_items services [])
  fixed_items-none [] h = refl
  fixed_items-none (item ∷ items) (h, hs) =
      fixed_items-other item items h ∙ fixed_items-none items hs

  percentage_items-none :
      (before items : List BreakdownItem)
      → HasNo "PERCENTAGE" before
      → Path Loop (percentage_items services (before ++ items)) (percentage_items services items)
  percentage_items-none [] items h = refl
  percentage_items-none (item ∷ before) items (h, hs) =
      percentage_items-other item (before ++ items) h ∙ percentage_items-none before items hs

  fixed_items-only :
      (items rest : List BreakdownItem)
      → HasNo "FIXED" rest
      → Path Loop (fixed_items services (only "FIXED" items ++ rest)) (fixed_items services items)
  fixed_items-only [] rest h = fixed_items-none rest h
  fixed_items-only (item ∷ items) rest h = elim (Bool-cases (item.type_name == "FIXED")) [
    | inl e ↦
        rw (e, only)
          (fixed_items-own item (only "FIXED" items ++ rest) e
            ∙ ap (fixed_round item) (fixed_items-only items rest h)
            ∙ sym (fixed_items-own item items e))
    | inr e ↦ rw (e, only) (fixed_items-only items rest h ∙ sym (fixed_items-other item items e))
  ]

  percentage_items-only :
      (items : List BreakdownItem)
      → Path Loop
          (percentage_items services (only "PERCENTAGE" items))
          (percentage_items services items)
  percentage_items-only [] = refl
  percentage_items-only (item ∷ items) = elim (Bool-cases (item.type_name == "PERCENTAGE")) [
    | inl e ↦
        rw (e, only)
          (percentage_items-own item (only "PERCENTAGE" items) e
            ∙ ap (percentage_round item) (percentage_items-only items)
            ∙ sym (percentage_items-own item items e))
    | inr e ↦ rw (e, only) (percentage_items-only items ∙ sym (percentage_items-other item items e))
  ]

  -- `calculateBreakdown` makes the same calls and gives the same items and the same total as on the
  -- items of a fixed amount followed by the percentages, in whatever order they are configured; an
  -- item of another type counts for nothing.
  pub calculate_breakdown-fixed_first :
      (config : PaymentConfig)
      → calculate_breakdown services (record config { breakdown = fixed_first config.breakdown })
        ≡ calculate_breakdown services config
  unfolding calculate_breakdown
  calculate_breakdown-fixed_first config =
      let items = config.breakdown in
      let fixed =
        fixed_items-only items (only "PERCENTAGE" items)
          (only-HasNo "PERCENTAGE" "FIXED" items refl) in
      let percentages =
        percentage_items-none (only "FIXED" items) (only "PERCENTAGE" items)
          (only-HasNo "FIXED" "PERCENTAGE" items refl)
        ∙ percentage_items-only items in
      fun_ext (λ k.
        ap
          (λ (loops : Loop × Loop).
            loops.0 [] (services.decimals.of_int 0) (λ fixed.
              loops.1 fixed.0 fixed.1 (λ all. k (all.0, services.decimals.round all.1 2))))
          (λ i. (fixed i, percentages i)))
