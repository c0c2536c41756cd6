-- ===== src/Task/Cache/Keys.antt =====
-- The tasks that the map of the cache has nodes for: manager/cache.go.
use nsw.Prelude.{
  suc, String, Option, none, some, List, [], ◌∷◌, ◌++◌, Map, lookup, insert, delete, keys, length,
  ◌==◌, eq_iff, if◌then◌else◌, Bool-cases, inl, inr, ◌≡◌, ◌≢◌, refl, sym, ap, ◌∙◌, All, arith,
}
use nsw.Task.Cache.{
  CacheNode, ContainerCache, modify_found, modify_node, set_next, set_prev, remove_node, link_back,
  add_to_front,
}

unfoldable pub without : String → List String → List String
without x [] = []
without x (y ∷ ys) = let rest = without x ys in if y == x then rest else y ∷ rest

pub without-away :
    (x : String) (ys : List String) → All (λ (y : String). x ≢ y) ys → without x ys ≡ ys
unfolding without
without-away x [] k = refl
without-away x (y ∷ ys) (ne, k) = ground (arith, eq_iff y x, without-away x ys k)

module _ {V : Type 0} where
  pub keys-insert_old :
      (k : String) (v : V) {old : V} (m : Map V)
      → lookup k m ≡ some old
      → keys (insert k v m) ≡ keys m
  unfolding keys insert lookup
  keys-insert_old k v [] h = absurd cc
  keys-insert_old k v ((other, held) ∷ rest) h = elim (Bool-cases (other == k)) [
    | inl e ↦ rw (e, insert) (ap (λ x. x ∷ keys rest) (sym ((eq_iff other k).0 e)))
    | inr ne ↦
        rw (ne, insert) (ap (λ ks. other ∷ ks) (keys-insert_old k v rest (rw (ne, lookup) at h)))
  ]

  pub keys-insert_new :
      (k : String) (v : V) (m : Map V) → lookup k m ≡ none → keys (insert k v m) ≡ keys m ++ k ∷ []
  unfolding keys insert lookup
  keys-insert_new k v [] h = refl
  keys-insert_new k v ((other, held) ∷ rest) h = elim (Bool-cases (other == k)) [
    | inl e ↦ let h' : Path (Option V) (some held) none = rw (e, lookup) at h in absurd cc
    | inr ne ↦
        rw (ne, insert) (ap (λ ks. other ∷ ks) (keys-insert_new k v rest (rw (ne, lookup) at h)))
  ]

  pub keys-delete : (k : String) (m : Map V) → keys (delete k m) ≡ without k (keys m)
  unfolding keys delete without
  keys-delete k [] = refl
  keys-delete k ((other, held) ∷ rest) = elim (Bool-cases (other == k)) [
    | inl e ↦ rw (e, delete, without) (keys-delete k rest)
    | inr ne ↦ rw (ne, delete, without) (ap (λ ks. other ∷ ks) (keys-delete k rest))
  ]

  pub length-keys : (m : Map V) → length (keys m) ≡ length m
  unfolding keys
  length-keys [] = refl
  length-keys (_ ∷ m) = ap suc (length-keys m)

  pub lookup-none-away :
      (k : String) (m : Map V) → lookup k m ≡ none → All (λ (x : String). k ≢ x) (keys m)
  unfolding keys lookup
  lookup-none-away k [] h = tt
  lookup-none-away k ((other, held) ∷ rest) h = elim (Bool-cases (other == k)) [
    | inl e ↦ let h' : Path (Option V) (some held) none = rw (e, lookup) at h in absurd cc
    | inr ne ↦
        ((λ same. ground (arith, eq_iff other k)), lookup-none-away k rest (rw (ne, lookup) at h))
  ]

module _ {V : Type 0} where
  keys-modify_found :
      (id : String) (f : CacheNode V → CacheNode V) (o : Option (CacheNode V))
      (c : ContainerCache V)
      → lookup id c.cache ≡ o
      → keys (modify_found id f o c).cache ≡ keys c.cache
  unfolding modify_found
  keys-modify_found id f none c h = refl
  keys-modify_found id f (some node) c h = keys-insert_old id (f node) c.cache h

  pub keys-modify_node :
      (id : String) (f : CacheNode V → CacheNode V) (c : ContainerCache V)
      → keys (modify_node id f c).cache ≡ keys c.cache
  unfolding modify_node
  keys-modify_node id f c = keys-modify_found id f (lookup id c.cache) c refl

  keys-set_next :
      (p n : Option String) (c : ContainerCache V) → keys (set_next p n c).cache ≡ keys c.cache
  unfolding set_next
  keys-set_next none n c = refl
  keys-set_next (some p) n c = keys-modify_node p (λ node. record node { next = n }) c

  keys-set_prev :
      (n p : Option String) (c : ContainerCache V) → keys (set_prev n p c).cache ≡ keys c.cache
  unfolding set_prev
  keys-set_prev none p c = refl
  keys-set_prev (some n) p c = keys-modify_node n (λ node. record node { prev = p }) c

  pub keys-remove_node :
      (node : CacheNode V) (c : ContainerCache V) → keys (remove_node node c).cache ≡ keys c.cache
  unfolding remove_node
  keys-remove_node node c =
      keys-set_prev node.next node.prev (set_next node.prev node.next c)
      ∙ keys-set_next node.prev node.next c

  keys-link_back :
      (h : Option String) (id : String) (c : ContainerCache V)
      → keys (link_back h id c).cache ≡ keys c.cache
  unfolding link_back
  keys-link_back none id c = refl
  keys-link_back (some head) id c = keys-modify_node head (λ node. record node { prev = some id }) c

  pub keys-add_to_front :
      (id : String) (c : ContainerCache V) → keys (add_to_front id c).cache ≡ keys c.cache
  unfolding add_to_front
  keys-add_to_front id c =
      keys-link_back c.head id
        (modify_node id (λ node. record node { next = c.head; prev = none }) c)
      ∙ keys-modify_node id (λ node. record node { next = c.head; prev = none }) c
