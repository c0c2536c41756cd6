-- ===== src/Json.antt =====
-- JSON values as `encoding/json` decodes them: backend/pkg/jsonform and backend/pkg/jsonutils.
-- A number is kept as its text. The fields of an object stand in the order in which Go's map
-- happens to be ranged over, and no result here depends on it but where that is said.
pub mod Merge
pub mod Path
pub mod Schema
pub mod Template
mod Tests
use nsw.Prelude.{
  ℕ, zero, suc, String, Bool, true, false, Option, none, some, ◌==◌, eq_iff, if◌then◌else◌, ◌≡◌,
  ◌≢◌, refl, arith, Result, ok, err,
}

mutual
  pub data Value : Type 0 where
    null : Value
    boolean : Bool → Value
    number : String → Value
    text : String → Value
    array : Items → Value
    object : Fields → Value

  pub data Items : Type 0 where
    nil : Items
    cons : Value → Items → Items

  pub data Fields : Type 0 where
    end : Fields
    field : String → Value → Fields → Fields

-- `v, ok := m[k]`
unfoldable pub find_field : String → Fields → Option Value
find_field key end = none
find_field key (field other v rest) = if other == key then some v else find_field key rest

-- `m[k] = v`
unfoldable pub set_field : String → Value → Fields → Fields
set_field key v end = field key v end
set_field key v (field other w rest) =
    if other == key then field key v rest else field other w (set_field key v rest)

-- `v.(map[string]any)`
unfoldable pub as_object : Value → Option Fields
as_object (object fs) = some fs
as_object _ = none

-- `v.(string)`
unfoldable pub as_text : Value → Option String
as_text (text s) = some s
as_text _ = none

-- `v.([]any)`
unfoldable pub as_array : Value → Option Items
as_array (array vs) = some vs
as_array _ = none

-- `arr[index]`, within bounds
unfoldable pub get_item? : Items → ℕ → Option Value
get_item? nil i = none
get_item? (cons v vs) zero = some v
get_item? (cons v vs) (suc i) = get_item? vs i

-- the texts of values, and their types: `json.Marshal` and `json.Unmarshal` at a type
pub record Coding (A : Type 0) : Type 0 where
  pub encode : A → String
  pub decode : String → Result A

-- What `encoding/json` documents of a type without lossy fields.
pub record IsCoding {A : Type 0} (c : Coding A) : Type 0 where
  pub decode-encode : (a : A) → c.decode (c.encode a) ≡ ok a

pub find_field-set_field :
    (key other : String) (v : Value) (fs : Fields)
    → find_field other (set_field key v fs) ≡ (if key == other then some v else find_field other fs)
unfolding find_field set_field
find_field-set_field key other v end = refl
find_field-set_field key other v (field third w rest) = ground (
  arith,
  eq_iff key other,
  eq_iff third key,
  eq_iff third other,
  find_field-set_field key other v rest,
)

pub find_field-set_field_self :
    (key : String) (v : Value) (fs : Fields) → find_field key (set_field key v fs) ≡ some v
find_field-set_field_self key v fs =
    ground (arith, find_field-set_field key key v fs, eq_iff key key)

pub find_field-set_field_ne :
    (key other : String) (v : Value) (fs : Fields)
    → key ≢ other
    → find_field other (set_field key v fs) ≡ find_field other fs
find_field-set_field_ne key other v fs ne =
    ground (arith, find_field-set_field key other v fs, eq_iff key other)
