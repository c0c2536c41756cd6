-- ===== src/Task/Cache/Contents.antt =====
-- What the cache holds for each task, whatever the order of its list: manager/cache.go.
use nsw.Prelude.{
  String, Bool, true, false, Option, none, some, ◌==◌, eq_iff, if◌then◌else◌, Map, lookup, insert,
  delete, lookup-insert, lookup-delete, length, ltb, ◌≡◌, refl, sym, ◌∙◌, arith,
}
use nsw.Task.Cache.{
  CacheNode, ContainerCache, points_to, modify_found, modify_node, set_next, set_prev, remove_node,
  link_back, add_to_front, move_to_front, drop_found, evict_tail, evict_lru, get_found, get,
  set_found, set, update_node, insert_node,
}

module _ {V : Type 0} where
  abbrev pub container_of : Option (CacheNode V) → Option V
  container_of none = none
  container_of (some node) = some node.container

  -- the container that the cache holds for a task
  unfoldable pub held : String → ContainerCache V → Option V
  held id c = container_of (lookup id c.cache)

  held-insert :
      (id j : String) (node : CacheNode V) (nodes : Map (CacheNode V))
      → container_of (lookup j (insert id node nodes))
        ≡ (if id == j then some node.container else container_of (lookup j nodes))
  held-insert id j node nodes = ground (arith, lookup-insert id j node nodes)

  held-modify_found :
      (id j : String) (f : CacheNode V → CacheNode V) (o : Option (CacheNode V))
      (c : ContainerCache V)
      → lookup id c.cache ≡ o
      → ((node : CacheNode V) → (f node).container ≡ node.container)
      → held j (modify_found id f o c) ≡ held j c
  unfolding held modify_found
  held-modify_found id j f none c e same = refl
  held-modify_found id j f (some node) c e same =
      ground (arith, held-insert id j (f node) c.cache, same node, eq_iff id j)

  -- a change of a link
  held-relink :
      (id j : String) (f : CacheNode V → CacheNode V) (c : ContainerCache V)
      → ((node : CacheNode V) → (f node).container ≡ node.container)
      → held j (modify_node id f c) ≡ held j c
  unfolding modify_node
  held-relink id j f c same = held-modify_found id j f (lookup id c.cache) c refl same

  held-set_next :
      (p next : Option String) (j : String) (c : ContainerCache V)
      → held j (set_next p next c) ≡ held j c
  unfolding set_next held
  held-set_next none next j c = refl
  held-set_next (some id) next j c = held-relink id j _ c (λ node. refl)

  held-set_prev :
      (n prev : Option String) (j : String) (c : ContainerCache V)
      → held j (set_prev n prev c) ≡ held j c
  unfolding set_prev held
  held-set_prev none prev j c = refl
  held-set_prev (some id) prev j c = held-relink id j _ c (λ node. refl)

  pub held-remove_node :
      (node : CacheNode V) (j : String) (c : ContainerCache V)
      → held j (remove_node node c) ≡ held j c
  unfolding remove_node
  held-remove_node node j c =
      held-set_prev node.next node.prev j (set_next node.prev node.next c)
      ∙ held-set_next node.prev node.next j c

  held-link_back :
      (h : Option String) (id j : String) (c : ContainerCache V)
      → held j (link_back h id c) ≡ held j c
  unfolding link_back
  held-link_back none id j c = refl
  held-link_back (some head) id j c = held-relink head j _ c (λ node. refl)

  pub held-add_to_front :
      (id j : String) (c : ContainerCache V) → held j (add_to_front id c) ≡ held j c
  unfolding add_to_front held
  held-add_to_front id j c =
      held-link_back c.head id j
        (modify_node id (λ node. record node { next = c.head; prev = none }) c)
      ∙ held-relink id j (λ node. record node { next = c.head; prev = none }) c (λ node. refl)

  held-move_to_front :
      (id j : String) (node : CacheNode V) (c : ContainerCache V)
      → held j (move_to_front id node c) ≡ held j c
  unfolding move_to_front
  held-move_to_front id j node c = by_test (points_to c.head id)
    where
      by_test :
          (b : Bool) → held j (if b then c else add_to_front id (remove_node node c)) ≡ held j c
      by_test true = refl
      by_test false = held-add_to_front id j (remove_node node c) ∙ held-remove_node node j c

  get_found-held :
      (id : String) (o : Option (CacheNode V)) (j : String) (c : ContainerCache V)
      → ((get_found id o c).0 ≡ container_of o) × (held j (get_found id o c).1 ≡ held j c)
  unfolding get_found
  get_found-held id none j c = (refl, refl)
  get_found-held id (some node) j c = (refl, held-move_to_front id j node c)

  -- `Get` returns what the cache holds, and leaves what it holds as it is.
  pub get-held :
      (id j : String) (c : ContainerCache V)
      → ((get id c).0 ≡ held id c) × (held j (get id c).1 ≡ held j c)
  unfolding get held
  get-held id j c = get_found-held id (lookup id c.cache) j c

  held-delete :
      (id j : String) (c : ContainerCache V) {v : V}
      → container_of (lookup j (delete id c.cache)) ≡ some v
      → held j c ≡ some v
  unfolding held
  held-delete id j c h = ground (arith, lookup-delete id j c.cache)

  drop_found-held :
      (id : String) (o : Option (CacheNode V)) (j : String) (c : ContainerCache V) {v : V}
      → held j (drop_found id o c) ≡ some v
      → held j c ≡ some v
  unfolding drop_found held
  drop_found-held id none j c h = h
  drop_found-held id (some node) j c h =
      sym (held-remove_node node j c) ∙ held-delete id j (remove_node node c) h

  evict_tail-held :
      (o : Option String) (j : String) (c : ContainerCache V) {v : V}
      → held j (evict_tail o c) ≡ some v
      → held j c ≡ some v
  unfolding evict_tail
  evict_tail-held none j c h = h
  evict_tail-held (some id) j c h = drop_found-held id (lookup id c.cache) j c h

  held-update_node :
      (id : String) (v : V) (node : CacheNode V) (j : String) (c : ContainerCache V)
      → lookup id c.cache ≡ some node
      → held j (update_node id v node c) ≡ (if id == j then some v else held j c)
  unfolding update_node modify_node held
  held-update_node id v node j c e =
      held-move_to_front id j node (modify_node id (λ n. record n { container = v }) c) ∙ changed
    where
      changed :
          held j (modify_node id (λ n. record n { container = v }) c)
          ≡ (if id == j then some v else held j c)
      changed = rw (e, modify_found) (held-insert id j (record node { container = v }) c.cache)

  insert_node-held :
      (id : String) (v : V) (j : String) (c : ContainerCache V) {a : V}
      → held j (insert_node id v c) ≡ some a
      → (if id == j then some v else held j c) ≡ some a
  unfolding insert_node evict_lru held
  insert_node-held id v j c {a} h = by_test (ltb added.capacity (length added.cache)) h
    where
      node : CacheNode V
      node = record { container = v; prev = none; next = none }

      added : ContainerCache V
      added = add_to_front id (record c { cache = insert id node c.cache })

      holds : held j added ≡ some a → (if id == j then some v else held j c) ≡ some a
      holds k =
          sym (held-insert id j node c.cache)
          ∙ sym (held-add_to_front id j (record c { cache = insert id node c.cache }))
          ∙ k

      by_test :
          (b : Bool)
          → held j (if b then evict_tail added.tail added else added) ≡ some a
          → (if id == j then some v else held j c) ≡ some a
      by_test true k = holds (evict_tail-held added.tail j added k)
      by_test false k = holds k

  set_found-held :
      (id : String) (v : V) (o : Option (CacheNode V)) (j : String) (c : ContainerCache V) {a : V}
      → lookup id c.cache ≡ o
      → held j (set_found id v o c) ≡ some a
      → (if id == j then some v else held j c) ≡ some a
  unfolding set_found
  set_found-held id v none j c e h = insert_node-held id v j c h
  set_found-held id v (some node) j c e h = sym (held-update_node id v node j c e) ∙ h

  -- After `Set` the cache holds nothing but the new container and what it held before for other tasks.
  pub set-held :
      (id : String) (v : V) (j : String) (c : ContainerCache V) {a : V}
      → held j (set id v c) ≡ some a
      → (if id == j then some v else held j c) ≡ some a
  unfolding set
  set-held id v j c h = set_found-held id v (lookup id c.cache) j c refl h

  abbrev change : (V → V) → Option V → Option V
  change g none = none
  change g (some v) = some (g v)

  held-change_found :
      (id j : String) (g : V → V) (o : Option (CacheNode V)) (c : ContainerCache V)
      → lookup id c.cache ≡ o
      → held j (modify_found id (λ node. record node { container = g node.container }) o c)
        ≡ (if id == j then change g (held id c) else held j c)
  unfolding held modify_found
  held-change_found id j g none c e = ground (arith, eq_iff id j)
  held-change_found id j g (some node) c e =
      rw e (held-insert id j (record node { container = g node.container }) c.cache)

  -- a change of the container that a node points to
  pub held-change :
      (id j : String) (g : V → V) (c : ContainerCache V)
      → held j (modify_node id (λ node. record node { container = g node.container }) c)
        ≡ (if id == j then change g (held id c) else held j c)
  unfolding modify_node
  held-change id j g c = held-change_found id j g (lookup id c.cache) c refl
