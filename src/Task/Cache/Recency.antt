-- ===== src/Task/Cache/Recency.antt =====
-- The cache is a list in the order of use that is never longer than its capacity: `Set` and
-- `Delete` of manager/cache.go.
use nsw.Prelude.{
  ℕ, suc, ◌≤◌, String, Bool, true, false, Option, none, some, List, [], ◌∷◌, Map, lookup, insert,
  length, ltb, if◌then◌else◌, String-cases, inl, inr, ◌≡◌, refl, sym, ap, ◌∙◌, arith,
}
use mathlib.Core.Path.{subst}
use nsw.Task.Cache.{
  CacheNode, ContainerCache, modify_found, modify_node, link_back, add_to_front, drop_found,
  evict_lru, set_found, set, update_node, insert_node, remove, len, move_to_front, remove_node,
}
use nsw.Task.Cache.Links.{Linked, IsChanged, modify_node-IsChanged}
use nsw.Task.Cache.Chain.{modify_node-ends}
use nsw.Task.Cache.Keys.{without, without-away, keys-modify_node, length-keys}
use nsw.Task.Cache.Listed.{IsListed, length-without}
use nsw.Task.Cache.Order.{IsOrder, move_to_front-IsOrder, drop_found-IsOrder, Memᴰ-keys}
use nsw.Task.Cache.Usage.{all_but_last, used, added-IsOrder, evict_lru-IsOrder, away_of-Linked}

used_fits :
    (capacity : ℕ) (id : String) (xs : List String)
    → suc (length xs) ≤ capacity
    → id ∷ xs ≡ used capacity id xs
unfolding used
used_fits capacity id xs h = ground arith

length-all_but_last : (x : String) (xs : List String) → length (all_but_last x xs) ≡ length xs
unfolding all_but_last
length-all_but_last x [] = refl
length-all_but_last x (y ∷ ys) = ap suc (length-all_but_last y ys)

length-used :
    (capacity : ℕ) (id : String) (xs : List String)
    → length xs ≤ capacity
    → length (used capacity id xs) ≤ capacity
unfolding used
length-used capacity id xs h = ground (arith, length-all_but_last id xs)

module _ {V : Type 0} where
  capacity-modify_found :
      (id : String) (f : CacheNode V → CacheNode V) (o : Option (CacheNode V))
      (c : ContainerCache V)
      → (modify_found id f o c).capacity ≡ c.capacity
  unfolding modify_found
  capacity-modify_found id f none c = refl
  capacity-modify_found id f (some node) c = refl

  capacity-link_back :
      (h : Option String) (id : String) (c : ContainerCache V)
      → (link_back h id c).capacity ≡ c.capacity
  unfolding link_back modify_node
  capacity-link_back none id c = refl
  capacity-link_back (some head) id c = capacity-modify_found head _ (lookup head c.cache) c

  capacity-add_to_front :
      (id : String) (c : ContainerCache V) → (add_to_front id c).capacity ≡ c.capacity
  unfolding add_to_front modify_node
  capacity-add_to_front id c =
      let c' = modify_node id (λ node. record node { next = c.head; prev = none }) c in
      capacity-link_back c.head id c' ∙ capacity-modify_found id _ (lookup id c.cache) c

  -- A new container leaves the links.
  Linked-container :
      (before after : Map (CacheNode V)) (id : String) (v : V) (p n : Option String)
      (xs : List String)
      → IsChanged before after id (λ node. record node { container = v })
      → Linked before p xs n
      → Linked after p xs n
  Linked-container before after id v p n [] c l = tt
  Linked-container before after id v p n (x ∷ xs) c (l, ls) = (
    elim (String-cases id x) [
      | inl e ↦ record {
        node = record l.node { container = v };
        found =
            ap (λ z. lookup z after) (sym e)
            ∙ c.changed l.node (ap (λ z. lookup z before) e ∙ l.found);
        prev = l.prev;
        next = l.next;
      }
      | inr ne ↦ record {
        node = l.node;
        found = c.kept x ne ∙ l.found;
        prev = l.prev;
        next = l.next;
      }
    ],
    Linked-container before after id v (some x) n xs c ls,
  )

  update_node-IsOrder :
      (id : String) (v : V) (node : CacheNode V) (xs : List String) (c : ContainerCache V)
      → lookup id c.cache ≡ some node
      → IsOrder c xs
      → IsOrder (update_node id v node c) (id ∷ without id xs)
  unfolding update_node move_to_front remove_node
  update_node-IsOrder id v node xs c found k =
      let f : CacheNode V → CacheNode V = λ node. record node { container = v } in
      let c' = modify_node id f c in
      let ch = modify_node-IsChanged id f c in
      let ends = modify_node-ends id f c in
      move_to_front-IsOrder xs id (record node { container = v }) c' (ch.changed node found)
        (record {
          chain = record {
            head = ends.0 ∙ k.chain.head;
            tail = ends.1 ∙ k.chain.tail;
            linked = Linked-container c.cache c'.cache id v none none xs ch k.chain.linked;
          };
          listed = subst (λ ks. IsListed ks xs) (sym (keys-modify_node id f c)) k.listed;
        })

  insert_node-IsOrder :
      (id : String) (v : V) (xs : List String) (c : ContainerCache V)
      → lookup id c.cache ≡ none
      → IsOrder c xs
      → IsOrder (insert_node id v c) (used c.capacity id xs)
  unfolding insert_node used
  insert_node-IsOrder id v xs c absent k =
      let node : CacheNode V = record { container = v; prev = none; next = none } in
      let c' : ContainerCache V = record c { cache = insert id node c.cache } in
      let added = add_to_front id c' in
      let order = added-IsOrder id node xs c absent k in
      let size : length added.cache ≡ suc (length xs) =
        sym (length-keys added.cache) ∙ order.listed.size in
      let test : ltb c.capacity (suc (length xs)) ≡ ltb added.capacity (length added.cache) =
        ap (λ n. ltb n (suc (length xs))) (sym (capacity-add_to_front id c'))
        ∙ ap (λ n. ltb added.capacity n) (sym size) in
      by_test added (ltb added.capacity (length added.cache)) (ltb c.capacity (suc (length xs)))
        test order
    where
      by_test :
          (added : ContainerCache V) (b b' : Bool)
          → b' ≡ b
          → IsOrder added (id ∷ xs)
          → IsOrder
              (if b then evict_lru added else added)
              (if b' then all_but_last id xs else id ∷ xs)
      by_test added true true e order = evict_lru-IsOrder id xs added order
      by_test added false false e order = order
      by_test added true false e order = absurd cc
      by_test added false true e order = absurd cc

  set_found-IsOrder :
      (id : String) (v : V) (o : Option (CacheNode V)) (xs : List String) (c : ContainerCache V)
      → lookup id c.cache ≡ o
      → IsOrder c xs
      → length xs ≤ c.capacity
      → IsOrder (set_found id v o c) (used c.capacity id (without id xs))
        × (length (without id xs) ≤ c.capacity)
  unfolding set_found
  set_found-IsOrder id v none xs c e k fits =
      let away = away_of-Linked none none xs id c.cache e k.chain.linked in
      let same : without id xs ≡ xs = without-away id xs away in
      (
        subst (λ ks. IsOrder (insert_node id v c) (used c.capacity id ks)) (sym same)
            (insert_node-IsOrder id v xs c e k),
        rw same fits,
      )
  set_found-IsOrder id v (some node) xs c e k fits =
      let size =
        length-without id xs k.listed.distinct (k.listed.members id (Memᴰ-keys id c.cache e)) in
      (
        subst (IsOrder (update_node id v node c))
            (used_fits c.capacity id (without id xs) (omega arith))
            (update_node-IsOrder id v node xs c e k),
        omega arith,
      )

  remove_found-IsOrder :
      (id : String) (o : Option (CacheNode V)) (xs : List String) (c : ContainerCache V)
      → lookup id c.cache ≡ o
      → IsOrder c xs
      → IsOrder (drop_found id o c) (without id xs)
  unfolding drop_found
  remove_found-IsOrder id none xs c e k =
      let away = away_of-Linked none none xs id c.cache e k.chain.linked in
      subst (IsOrder c) (sym (without-away id xs away)) k
  remove_found-IsOrder id (some node) xs c e k = drop_found-IsOrder xs id node c e k

  -- `Delete` of a task takes it out of the order and leaves the order of the others. The order of a
  -- cache is the list of its tasks from the head to the tail of its links, which agree in both
  -- directions and with its map. It is assumed that the cache has an order.
  pub remove-IsOrder :
      (id : String) (xs : List String) (c : ContainerCache V)
      → IsOrder c xs
      → IsOrder (remove id c) (without id xs)
  unfolding remove
  remove-IsOrder id xs c k = remove_found-IsOrder id (lookup id c.cache) xs c refl k

  -- `Set` of the cache moves the task to the front of the order, or adds it there, and, if the
  -- order then is longer than the capacity, drops the last task, the one that was not used for the
  -- longest time; and the cache never holds more tasks than its capacity. The order of a cache is
  -- the list of its tasks from the head to the tail of its links, which agree in both directions
  -- and with its map. It is assumed that the cache has an order, and no more tasks than its
  -- capacity.
  pub set-IsOrder :
      (id : String) (v : V) (xs : List String) (c : ContainerCache V)
      → IsOrder c xs
      → length xs ≤ c.capacity
      → IsOrder (set id v c) (used c.capacity id (without id xs)) × (len (set id v c) ≤ c.capacity)
  unfolding set len
  set-IsOrder id v xs c k fits =
      let (order, few) = set_found-IsOrder id v (lookup id c.cache) xs c refl k fits in
      let a = length-used c.capacity id (without id xs) few in
      let b = length-keys (set id v c).cache in let size = order.listed.size in (order, omega arith)
