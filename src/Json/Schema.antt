-- ===== src/Json/Schema.antt =====
-- backend/pkg/jsonform/schema.go and traverse.go: the schema of a form, and its traversal. The
-- properties of an object stand in the order in which Go ranges over their map.
use Prim.Native.String
use nsw.Prelude.{String, Option, ◌==◌, if◌then◌else◌}

-- `JSONSchema`, with the two texts of `XGlobalContext`; what validates values is left out
mutual
  pub data Schema : Type 0 where
    schema :
        (type_name : String) (properties : Properties) (items : ItemSchema)
        (read_from write_to : Option String)
        → Schema

  pub data Properties : Type 0 where
    no_more : Properties
    property : String → Schema → Properties → Properties

  pub data ItemSchema : Type 0 where
    no_items : ItemSchema
    items_of : Schema → ItemSchema

unfoldable pub schema_type : Schema → String
schema_type (schema type_name properties items read_from write_to) = type_name

-- `node.XGlobalContext.ReadFrom`
unfoldable pub schema_read_from : Schema → Option String
schema_read_from (schema type_name properties items read_from write_to) = read_from

-- `node.XGlobalContext.WriteTo`
unfoldable pub schema_write_to : Schema → Option String
schema_write_to (schema type_name properties items read_from write_to) = write_to

-- `childPath` of a property
abbrev pub property_path : String → String → String
property_path path key = if path == "" then key else String.◌++◌ path (String.◌++◌ "." key)

-- The callback takes what follows it, with the state that it changes; where it returns an error,
-- it leaves out the rest.
module _ {S R : Type 0} (visit : String → Schema → S → (S → R) → R) where
  -- `traverseRecursive`
  unfoldable mutual
    pub traverse_recursive : Schema → String → S → (S → R) → R
    traverse_recursive (schema type_name properties items read_from write_to) path s k =
        visit path (schema type_name properties items read_from write_to) s (λ s₁.
          let below = traverse_properties properties path s₁ k in
          let inside = traverse_items items path s₁ k in
          if type_name == "object" then below else if type_name == "array" then inside else k s₁)

    pub traverse_properties : Properties → String → S → (S → R) → R
    traverse_properties no_more path s k = k s
    traverse_properties (property key child rest) path s k =
        traverse_recursive child (property_path path key) s
          (λ s₁. traverse_properties rest path s₁ k)

    pub traverse_items : ItemSchema → String → S → (S → R) → R
    traverse_items no_items path s k = k s
    traverse_items (items_of child) path s k = traverse_recursive child (String.◌++◌ path "[]") s k

  -- `Traverse`
  unfoldable pub traverse : Schema → S → (S → R) → R
  unfolding traverse_recursive traverse_properties traverse_items
  traverse node s k = traverse_recursive node "" s k
