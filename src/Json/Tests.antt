-- ===== src/Json/Tests.antt =====
-- The theorems about values at paths on a small form.
use nsw.Prelude.{some, ◌≡◌, inl, inr, refl}
use nsw.Json.{Fields, text, object, end, field, find_field}
use nsw.Json.Merge.{merge_form_data, merged, find_field-merge_form_data}
use nsw.Json.Path.{indexed, get_value_by_path, set_value_by_path}
use nsw.Json.Path.RoundTrip.{get_value_by_path-set_value_by_path}

abbrev small_form : Fields
small_form = field "exporter" (object (field "name" (text "A") end)) end

get_value_by_path-set_value_by_path_example :
    get_value_by_path
      (set_value_by_path small_form "exporter.address.city" (text "Galle"))
      "exporter.address.city"
    ≡ some (text "Galle")
unfolding nsw.Json.Path.split_on indexed find_field
get_value_by_path-set_value_by_path_example =
    get_value_by_path-set_value_by_path small_form "exporter.address.city" (text "Galle")
      (λ e. absurd cc) (refl, (refl, (refl, tt)))
      (inr (field "name" (text "A") end, refl, inl refl))

find_field-merge_form_data_example :
    find_field "exporter"
      (merge_form_data small_form (field "exporter" (object (field "name" (text "B") end)) end))
    ≡ merged
        (find_field "exporter" small_form)
        (find_field "exporter" (field "exporter" (object (field "name" (text "B") end)) end))
unfolding find_field
find_field-merge_form_data_example =
    find_field-merge_form_data "exporter" small_form
      (field "exporter" (object (field "name" (text "B") end)) end) (refl, tt)
