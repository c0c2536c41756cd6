-- ===== src/Pagination/Examples.antt =====
-- The theorems about pages on a second page of twenty rows.
use nsw.Prelude.{◌≤◌, ◌<◌, String, Option, none, some, ◌==◌, if◌then◌else◌, ok, ◌≡◌, ◌↔◌}
use nsw.Pagination.{
  ℤ, pos, page_size_default, page_size_max, get_pagination_params, parse_pagination_params, IsTaken,
  get_pagination_params-IsTaken, get_pagination_params-bounds,
}

abbrev atoi : String → Option ℤ
atoi s = if s == "20" then some (pos 20) else none

get_pagination_params-IsTaken_example :
    ((asked : Option ℤ × Option ℤ) × (parse_pagination_params atoi "20" "" ≡ ok asked)
      × (get_pagination_params asked.0 asked.1 ≡ (20, 50)))
    ↔ (IsTaken atoi 0 "20" 20
        × IsTaken atoi page_size_default "" 50
        × (0 < 50)
        × (50 ≤ page_size_max))
get_pagination_params-IsTaken_example = get_pagination_params-IsTaken atoi "20" "" 20 50

get_pagination_params-bounds_example :
    (0 < (get_pagination_params none (some (pos 5000))).1)
    × ((get_pagination_params none (some (pos 5000))).1 ≤ page_size_max)
get_pagination_params-bounds_example = get_pagination_params-bounds none (some (pos 5000))
