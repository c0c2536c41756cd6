-- ===== src/Json/Path.antt =====
-- backend/pkg/jsonform/value.go: values of an object by dotted paths.
pub mod RoundTrip
use Prim.Native.Char.{Char, code}
use nsw.Prelude.{
  ℕ, ◌+◌, ◌*◌, ◌-◌, String, Bool, true, false, ◌&&◌, ◌||◌, Option, none, some, List, [], ◌∷◌, leb,
  ◌==ℕ◌, ◌==◌, if◌then◌else◌, is_empty,
}
use nsw.Json.{Value, Fields, object, end, find_field, set_field, as_object, as_array, get_item?}

abbrev pub push : Char → List String → List String
push c [] = (String.◌∷◌ c "") ∷ []
push c (word ∷ words) = (String.◌∷◌ c word) ∷ words

-- `strings.Split` at a separator of one character
unfoldable pub split_on : ℕ → String → List String
split_on separator String.[] = "" ∷ []
split_on separator (String.◌∷◌ c s) =
    let rest = split_on separator s in if code c ==ℕ separator then "" ∷ rest else push c rest

-- `strings.Split(path, ".")`
abbrev pub split_path : String → List String
split_path path = split_on b'.' path

abbrev is_digit : ℕ → Bool
is_digit c = leb b'0' c && leb c b'9'

-- `[a-zA-Z0-9_-]`
abbrev is_word : ℕ → Bool
is_word c =
    leb b'a' c && leb c b'z' || leb b'A' c && leb c b'Z' || is_digit c || c ==ℕ b'_' || c ==ℕ b'-'

-- `\d+]$`, with the digits read so far and whether there are any
unfoldable pub read_index : ℕ → Bool → String → Option ℕ
read_index n some_digit String.[] = none
read_index n some_digit (String.◌∷◌ c s) =
    let more = read_index (n * 10 + (code c - b'0')) true s in
    if is_digit (code c)
    then more
    else if code c ==ℕ b']' && some_digit && s == ""
    then some n
    else none

abbrev with_char : Char → Option (String × ℕ) → Option (String × ℕ)
with_char c none = none
with_char c (some (name, index)) = some (String.◌∷◌ c name, index)

abbrev with_name : Option ℕ → Option (String × ℕ)
with_name none = none
with_name (some index) = some ("", index)

-- the rest of `arrayRegex`, with whether the name has begun
unfoldable pub read_name : Bool → String → Option (String × ℕ)
unfolding read_index
read_name begun String.[] = none
read_name begun (String.◌∷◌ c s) =
    let more = read_name true s in
    if is_word (code c)
    then with_char c more
    else if code c ==ℕ b'[' && begun
    then with_name (read_index 0 false s)
    else none

-- `arrayRegex.FindStringSubmatch(segment)`: the field and the index of `items[0]`
unfoldable pub indexed : String → Option (String × ℕ)
unfolding read_name
indexed segment = read_name false segment

-- the value at one segment of the fields of an object
unfoldable pub at_segment : String → Fields → Option Value
unfolding indexed
at_segment segment fs = elim (indexed segment) [
  | none ↦ find_field segment fs
  | some (name, index) ↦ elim (find_field name fs) [
    | none ↦ none
    | some v ↦ elim (as_array v) [ none ↦ none | some items ↦ get_item? items index ]
  ]
]

-- one round of the loop of `GetValueByPath`: a value that is no object has no parts
unfoldable pub get_step : Value → String → Option Value
unfolding at_segment as_object
get_step v segment = elim (as_object v) [ none ↦ none | some fs ↦ at_segment segment fs ]

unfoldable pub get_steps : Value → List String → Option Value
unfolding get_step
get_steps v [] = some v
get_steps v (segment ∷ segments) = elim (get_step v segment) [
  | none ↦ none
  | some w ↦ get_steps w segments
]

-- `GetValueByPath`
unfoldable pub get_value_by_path : Fields → String → Option Value
unfolding get_steps split_on
get_value_by_path fs path =
    if path == "" then some (object fs) else get_steps (object fs) (split_path path)

-- the loop of `SetValueByPath` and what follows it; nested maps are changed in place
unfoldable pub set_steps : Fields → List String → Value → Fields
unfolding find_field set_field as_object
set_steps fs [] v = fs
set_steps fs (segment ∷ []) v = set_field segment v fs
set_steps fs (segment ∷ next ∷ segments) v = elim (find_field segment fs) [
  | none ↦ set_field segment (object (set_steps end (next ∷ segments) v)) fs
  | some w ↦ elim (as_object w) [
    | none ↦ fs
    | some gs ↦ set_field segment (object (set_steps gs (next ∷ segments) v)) fs
  ]
]

-- `SetValueByPath`
unfoldable pub set_value_by_path : Fields → String → Value → Fields
unfolding set_steps split_on
set_value_by_path fs path v = if path == "" then fs else set_steps fs (split_path path) v
