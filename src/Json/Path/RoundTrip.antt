-- ===== src/Json/Path/RoundTrip.antt =====
-- `GetValueByPath` finds what `SetValueByPath` has put: backend/pkg/jsonform/value.go.
use Prim.Native.Char.{Char, code}
use nsw.Prelude.{
  ◌==ℕ◌, String, Bool, true, false, none, some, List, [], ◌∷◌, ◌≡◌, ◌≢◌, ◌⊎◌, inl, inr, refl, ◌∙◌,
  All, arith, eq_iff, if◌then◌else◌,
}
use nsw.Json.{
  Value, Fields, object, end, find_field, set_field, as_object, find_field-set_field_self,
}
use nsw.Json.Path.{
  indexed, push, at_segment, get_step, get_steps, set_steps, split_on, split_path,
  get_value_by_path, set_value_by_path,
}

-- A segment that does not have the form `items[0]`.
abbrev pub IsPlain : String → Type 0
IsPlain segment = indexed segment ≡ none

-- What stands on the way of the path, as far as there is something, is an object.
abbrev pub IsOpen : Fields → List String → Type 0
IsOpen fs [] = Unit
IsOpen fs (segment ∷ []) = Unit
IsOpen fs (segment ∷ next ∷ segments) =
    (find_field segment fs ≡ none)
    ⊎ ((gs : Fields) × (find_field segment fs ≡ some (object gs)) × IsOpen gs (next ∷ segments))

get_step-plain :
    (fs : Fields) (segment : String)
    → IsPlain segment
    → get_step (object fs) segment ≡ find_field segment fs
unfolding get_step at_segment as_object
get_step-plain fs segment plain = rw (plain, at_segment)

-- The rest of the path is followed from what the segment holds.
get_steps-through :
    (fs : Fields) (w : Value) (segment : String) (segments : List String)
    → IsPlain segment
    → find_field segment fs ≡ some w
    → get_steps (object fs) (segment ∷ segments) ≡ get_steps w segments
unfolding get_steps
get_steps-through fs w segment segments plain found =
    rw (get_step-plain fs segment plain ∙ found, get_steps)

end-IsOpen : (segment : String) (segments : List String) → IsOpen end (segment ∷ segments)
unfolding find_field
end-IsOpen segment [] = tt
end-IsOpen segment (next ∷ segments) = inl refl

get_steps-set_steps :
    (fs : Fields) (segments : List String) (v : Value)
    → All IsPlain segments
    → IsOpen fs segments
    → segments ≢ []
    → get_steps (object (set_steps fs segments v)) segments ≡ some v
unfolding set_steps get_steps
get_steps-set_steps fs [] v plain way some_segment = absurd (some_segment refl)
get_steps-set_steps fs (segment ∷ []) v plain way some_segment =
    get_steps-through (set_field segment v fs) v segment [] plain.0
      (find_field-set_field_self segment v fs)
get_steps-set_steps fs (segment ∷ next ∷ segments) v (plain, rest) (inl absent) some_segment =
    let gs = set_steps end (next ∷ segments) v in
    rw (absent, set_steps)
      (get_steps-through (set_field segment (object gs) fs) (object gs) segment (next ∷ segments)
          plain (find_field-set_field_self segment (object gs) fs)
        ∙ get_steps-set_steps end (next ∷ segments) v rest (end-IsOpen next segments)
            (λ e. absurd cc))
get_steps-set_steps fs (segment ∷ next ∷ segments) v (plain, rest) (inr (hs, found, way))
      some_segment =
    let gs = set_steps hs (next ∷ segments) v in
    rw (found, set_steps, as_object)
      (get_steps-through (set_field segment (object gs) fs) (object gs) segment (next ∷ segments)
          plain (find_field-set_field_self segment (object gs) fs)
        ∙ get_steps-set_steps hs (next ∷ segments) v rest way (λ e. absurd cc))

dotted : (c : Char) (b : Bool) (rest : List String) → (if b then "" ∷ rest else push c rest) ≢ []
dotted c true rest e = absurd cc
dotted c false [] e = absurd cc
dotted c false (word ∷ words) e = absurd cc

split_path-ne-nil : (path : String) → split_path path ≢ []
unfolding split_on
split_path-ne-nil String.[] e = absurd cc
split_path-ne-nil (String.◌∷◌ c s) e = dotted c (code c ==ℕ b'.') (split_path s) e

-- After `SetValueByPath` puts a value at a path, `GetValueByPath` finds it there. It is assumed
-- that the path is not empty, that none of its segments has the form of an array access, and that
-- whatever stands on its way already is an object.
pub get_value_by_path-set_value_by_path :
    (fs : Fields) (path : String) (v : Value)
    → path ≢ ""
    → All IsPlain (split_path path)
    → IsOpen fs (split_path path)
    → get_value_by_path (set_value_by_path fs path v) path ≡ some v
unfolding get_value_by_path set_value_by_path
get_value_by_path-set_value_by_path fs path v some_path plain way =
    let found = get_steps-set_steps fs (split_path path) v plain way (split_path-ne-nil path) in
    ground (arith, eq_iff path "")
