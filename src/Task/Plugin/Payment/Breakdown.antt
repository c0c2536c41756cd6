-- ===== src/Task/Plugin/Payment/Breakdown.antt =====
-- `calculateBreakdown` of plugin/payment.go, with the values that it resolves. The description of
-- an item, which is display text, is left out.
use Prim.Native.Char.{code}
use nsw.Prelude.{String, Option, none, some, List, [], ◌∷◌, ◌++◌, ◌==ℕ◌, ◌==◌, if◌then◌else◌}
use nsw.Json.{Value, number, text}
use nsw.Json.Path.{split_on, split_path}
use nsw.Task.Plugin.Config.{lookup_keys}
use nsw.Task.Plugin.Api.{Call, ◌>>=◌, return}
use nsw.Task.Plugin.Payment.{BreakdownItem, Decimals, ResolvedItem, PaymentConfig, PaymentServices}

-- the text without its last character, if that is "}"
unfoldable pub without_brace : String → Option String
without_brace String.[] = none
without_brace (String.◌∷◌ c s) =
    let rest = without_brace s in
    if s == ""
    then (if code c ==ℕ b'}' then some "" else none)
    else elim rest [ none ↦ none | some inner ↦ some (String.◌∷◌ c inner) ]

-- `inner`, if the text has the form `{path:default}`
unfoldable pub placeholder : String → Option String
unfolding without_brace
placeholder String.[] = none
placeholder (String.◌∷◌ c s) = if code c ==ℕ b'{' then without_brace s else none

abbrev pub first_part : List String → String
first_part [] = ""
first_part (part ∷ parts) = part

module _ {D : Type 0} (services : PaymentServices D) where
  abbrev num : Decimals D
  num = services.decimals

  abbrev pub or_else : Option D → D → D
  or_else none fallback = fallback
  or_else (some d) fallback = d

  -- the fallback, or what stands after the colon
  unfoldable pub default_of : List String → D → D
  default_of (path ∷ default ∷ more) fallback = or_else (num.of_text default) fallback
  default_of _ fallback = fallback

  -- the switch on the type of the value that is found
  unfoldable pub decimal_of : Option Value → D → D
  decimal_of (some (number n)) fallback = num.of_number n
  decimal_of (some (text s)) fallback = or_else (num.of_text s) fallback
  decimal_of _ fallback = fallback

  -- the value of the literal, or of the placeholder with this text in it
  unfoldable pub resolve_form : String → D → Option String → Call D
  unfolding split_on default_of decimal_of lookup_keys
  resolve_form val fallback none = return (or_else (num.of_text val) fallback)
  resolve_form val fallback (some inner) = do
    found ← lookup_keys services.values (split_path (first_part (split_on b':' inner)))
    return (decimal_of found (default_of (split_on b':' inner) fallback))

  -- `resolveValue`
  unfoldable pub resolve_value : String → D → Call D
  unfolding placeholder resolve_form
  resolve_value val fallback =
      if val == "" then return fallback else resolve_form val fallback (placeholder val)

  -- `subtotal.Add(amount)` or `subtotal.Sub(amount)`
  unfoldable pub apply_amount : BreakdownItem → D → D → D
  apply_amount item total amount =
      if item.category == "ADDITION" then num.add total amount else num.sub total amount

  -- the resolved form of an item of a fixed amount
  unfoldable pub fixed_item : BreakdownItem → D → D → ResolvedItem D
  fixed_item item quantity price = record {
    category = item.category;
    type_name = item.type_name;
    quantity = quantity;
    unit_price = price;
    amount = num.round (num.mul quantity price) 2;
  }

  -- of a percentage of the total
  unfoldable pub percentage_item : BreakdownItem → D → ResolvedItem D
  percentage_item item amount = record {
    category = item.category;
    type_name = item.type_name;
    quantity = num.of_int 0;
    unit_price = num.of_int 0;
    amount = num.round amount 2;
  }

  -- the first loop of `calculateBreakdown`
  unfoldable pub fixed_items :
      List BreakdownItem → List (ResolvedItem D) → D → Call (List (ResolvedItem D) × D)
  unfolding resolve_value apply_amount fixed_item
  fixed_items [] resolved subtotal = return (resolved, subtotal)
  fixed_items (item ∷ items) resolved subtotal =
      if item.type_name == "FIXED"
      then (do
        quantity ← resolve_value item.quantity (num.of_int 1)
        price ← resolve_value item.unit_price (num.of_int 0)
        fixed_items items (resolved ++ fixed_item item quantity price ∷ [])
            (apply_amount item subtotal (num.mul quantity price)))
      else fixed_items items resolved subtotal

  -- the second loop
  unfoldable pub percentage_items :
      List BreakdownItem → List (ResolvedItem D) → D → Call (List (ResolvedItem D) × D)
  unfolding resolve_value apply_amount percentage_item
  percentage_items [] resolved total = return (resolved, total)
  percentage_items (item ∷ items) resolved total =
      if item.type_name == "PERCENTAGE"
      then (do
        percentage ← resolve_value item.value (num.of_int 0)
        let amount : D = num.div (num.mul total percentage) (num.of_int 100)
        percentage_items items (resolved ++ percentage_item item amount ∷ [])
            (apply_amount item total amount))
      else percentage_items items resolved total

  -- `calculateBreakdown`: the resolved items and the total
  unfoldable pub calculate_breakdown : PaymentConfig → Call (List (ResolvedItem D) × D)
  unfolding fixed_items percentage_items
  calculate_breakdown config = do
    fixed ← fixed_items config.breakdown [] (num.of_int 0)
    all ← percentage_items config.breakdown fixed.0 fixed.1
    return (all.0, num.round all.1 2)
