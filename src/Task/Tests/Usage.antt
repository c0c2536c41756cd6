-- ===== src/Task/Tests/Usage.antt =====
-- A cache of two containers, in the order of use.
use nsw.Prelude.{ℕ, ◌≤◌, ◌≡◌, String, none, some, [], ◌∷◌, refl, lookup, keys, arith, eq_iff}
use mathlib.Core.List.{Memᴰ}
use nsw.Task.Cache.{ContainerCache, get, set, remove, len}
use nsw.Task.Cache.Contents.{held}
use nsw.Task.Cache.Keys.{without}
use nsw.Task.Cache.Order.{IsOrder}
use nsw.Task.Cache.Usage.{touched, used, get-IsOrder}
use nsw.Task.Cache.Recency.{set-IsOrder, remove-IsOrder}

abbrev two : ContainerCache ℕ
two = record {
  capacity = 2;
  cache =
      ("a", record { container = 1; prev = some "b"; next = none })
      ∷ ("b", record { container = 2; prev = none; next = some "a" })
      ∷ [];
  head = some "b";
  tail = some "a";
}

members : (j : String) → Memᴰ j ("a" ∷ "b" ∷ []) → Memᴰ j ("b" ∷ "a" ∷ [])
members j (Memᴰ.head e) = Memᴰ.tail (Memᴰ.head e)
members j (Memᴰ.tail (Memᴰ.head e)) = Memᴰ.head e
members j (Memᴰ.tail (Memᴰ.tail m)) = elim m [ ]

two-IsOrder : IsOrder two ("b" ∷ "a" ∷ [])
unfolding lookup keys
two-IsOrder = record {
  chain = record {
    head = refl;
    tail = refl;
    linked = (
      record {
        node = record { container = 2; prev = none; next = some "a" };
        found = refl;
        prev = refl;
        next = refl;
      },
      (
        record {
          node = record { container = 1; prev = some "b"; next = none };
          found = refl;
          prev = refl;
          next = refl;
        },
        tt,
      ),
    );
  };
  listed = record {
    distinct = ((λ same. absurd (ground (arith, eq_iff "b" "a")), tt), (tt, tt));
    distinct_keys = ((λ same. absurd (ground (arith, eq_iff "a" "b")), tt), (tt, tt));
    size = refl;
    members = members;
  };
}

-- The third container makes the cache drop the one that was used first.
set-IsOrder_example :
    IsOrder (set "c" 3 two) (used 2 "c" (without "c" ("b" ∷ "a" ∷ []))) × (len (set "c" 3 two) ≤ 2)
set-IsOrder_example = set-IsOrder "c" 3 ("b" ∷ "a" ∷ []) two two-IsOrder (omega arith)

get-IsOrder_example :
    ((get "a" two).0 ≡ held "a" two)
    × IsOrder (get "a" two).1 (touched (held "a" two) "a" ("b" ∷ "a" ∷ []))
get-IsOrder_example = get-IsOrder "a" ("b" ∷ "a" ∷ []) two two-IsOrder

remove-IsOrder_example : IsOrder (remove "b" two) (without "b" ("b" ∷ "a" ∷ []))
remove-IsOrder_example = remove-IsOrder "b" ("b" ∷ "a" ∷ []) two two-IsOrder
