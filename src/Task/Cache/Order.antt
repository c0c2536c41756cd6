-- ===== src/Task/Cache/Order.antt =====
-- What the operations of the cache do to the order of use: manager/cache.go.
use nsw.Prelude.{
  String, true, Option, none, some, List, [], ◌∷◌, ◌++◌, Map, lookup, delete, lookup-delete, keys,
  ◌==◌, eq_iff, Bool-cases, inl, inr, ◌≡◌, ◌≢◌, refl, sym, ap, ◌∙◌, All, arith,
}
use mathlib.Core.Path.{subst}
use mathlib.Core.List.{Memᴰ}
use nsw.Task.Cache.{
  CacheNode, ContainerCache, points_to, remove_node, add_to_front, move_to_front, drop_found,
}
use nsw.Task.Cache.Links.{AreDistinct, Linked-kept}
use nsw.Task.Cache.Chain.{IsChain}
use nsw.Task.Cache.Front.{remove_node-IsChain, add_to_front-IsChain}
use nsw.Task.Cache.Keys.{without, without-away, keys-delete, keys-remove_node, keys-add_to_front}
use nsw.Task.Cache.Listed.{IsListed, AreDistinct-front, IsListed-front, IsListed-without}

pub Memᴰ-keys :
    {V : Type 0} (k : String) {v : V} (m : Map V) → lookup k m ≡ some v → Memᴰ k (keys m)
unfolding keys lookup
Memᴰ-keys k [] h = absurd cc
Memᴰ-keys k ((other, held) ∷ rest) h = elim (Bool-cases (other == k)) [
  | inl e ↦ Memᴰ.head (sym ((eq_iff other k).0 e))
  | inr ne ↦ Memᴰ.tail (Memᴰ-keys k rest (rw (ne, lookup) at h))
]

Memᴰ-lookup :
    {V : Type 0} (k : String) (m : Map V) → Memᴰ k (keys m) → (v : V) × (lookup k m ≡ some v)
unfolding keys lookup
Memᴰ-lookup k [] m = elim m [ ]
Memᴰ-lookup k ((other, held) ∷ rest) (Memᴰ.head e) = (held, ground (arith, eq_iff other k))
Memᴰ-lookup k ((other, held) ∷ rest) (Memᴰ.tail m) = elim (Bool-cases (other == k)) [
  | inl e ↦ (held, rw (e, lookup) refl)
  | inr ne ↦ let (v, found) = Memᴰ-lookup k rest m in (v, rw (ne, lookup) found)
]

Memᴰ-split :
    (x : String) (xs : List String)
    → Memᴰ x xs
    → (ys : List String) × (zs : List String) × (xs ≡ ys ++ x ∷ zs)
Memᴰ-split x [] m = elim m [ ]
Memᴰ-split x (y ∷ ys) (Memᴰ.head e) = ([], ys, ap (λ z. z ∷ ys) (sym e))
Memᴰ-split x (y ∷ ys) (Memᴰ.tail m) =
    let (front, back, e) = Memᴰ-split x ys m in (y ∷ front, back, ap (λ zs. y ∷ zs) e)

without-middle :
    (ys zs : List String) (x : String)
    → All (λ (y : String). x ≢ y) (ys ++ zs)
    → without x (ys ++ x ∷ zs) ≡ ys ++ zs
unfolding without
without-middle [] zs x away =
    let gone : without x (x ∷ zs) ≡ without x zs = ground (arith, eq_iff x x) in
    gone ∙ without-away x zs away
without-middle (y ∷ ys) zs x (ne, away) =
    let kept : without x (y ∷ ys ++ x ∷ zs) ≡ y ∷ without x (ys ++ x ∷ zs) =
      ground (arith, eq_iff y x) in
    kept ∙ ap (λ ks. y ∷ ks) (without-middle ys zs x away)

points_to-head : (h : Option String) (id : String) → points_to h id ≡ true → h ≡ some id
points_to-head none id e = absurd cc
points_to-head (some head) id e = ap some ((eq_iff head id).0 e)

-- The order, split at a task that the cache has.
record IsSplit (xs : List String) (id : String) : Type 0 where
  before : List String
  after : List String
  whole : before ++ id ∷ after ≡ xs
  rest : before ++ after ≡ without id xs

module _ {V : Type 0} where
  -- The cache has the containers of the tasks `xs`, in the order of their last use, the latest
  -- first.
  pub record IsOrder (c : ContainerCache V) (xs : List String) : Type 0 where
    pub chain : IsChain c xs
    pub listed : IsListed (keys c.cache) xs

  -- A node that is moved by its links.
  moved-IsOrder :
      (ys zs : List String) (id : String) (node : CacheNode V) (c : ContainerCache V)
      → lookup id c.cache ≡ some node
      → IsOrder c (ys ++ id ∷ zs)
      → IsOrder (add_to_front id (remove_node node c)) (id ∷ ys ++ zs)
  moved-IsOrder ys zs id node c found k =
      let c' = remove_node node c in
      let same_keys = keys-remove_node node c in
      let m : Memᴰ id (keys c'.cache) =
        subst (λ ks. Memᴰ id ks) (sym same_keys) (Memᴰ-keys id c.cache found) in
      let (node', found') = Memᴰ-lookup id c'.cache m in
      let (away, d) = AreDistinct-front ys zs id k.listed.distinct in
      record {
        chain =
            add_to_front-IsChain id node' (ys ++ zs) c' away d found'
              (remove_node-IsChain ys zs id node c k.listed.distinct k.chain found);
        listed =
            subst (λ ks. IsListed ks (id ∷ ys ++ zs)) (sym (keys-add_to_front id c' ∙ same_keys))
              (IsListed-front (keys c.cache) ys zs id k.listed);
      }

  -- The head is where it should be.
  at_front-IsOrder :
      (ys zs : List String) (id : String) (c : ContainerCache V)
      → points_to c.head id ≡ true
      → IsOrder c (ys ++ id ∷ zs)
      → IsOrder c (id ∷ ys ++ zs)
  at_front-IsOrder [] zs id c e k = k
  at_front-IsOrder (y ∷ ys) zs id c e k =
      let same : Path (Option String) (some y) (some id) =
        sym k.chain.head ∙ points_to-head c.head id e in
      let (ne, _) = (AreDistinct-front (y ∷ ys) zs id k.listed.distinct).0 in absurd (ne cc)

  split_moved :
      (ys zs : List String) (id : String) (node : CacheNode V) (c : ContainerCache V)
      → lookup id c.cache ≡ some node
      → IsOrder c (ys ++ id ∷ zs)
      → IsOrder (move_to_front id node c) (id ∷ ys ++ zs)
  unfolding move_to_front
  split_moved ys zs id node c found k = elim (Bool-cases (points_to c.head id)) [
    | inl e ↦ rw (e, move_to_front) (at_front-IsOrder ys zs id c e k)
    | inr ne ↦ rw (ne, move_to_front) (moved-IsOrder ys zs id node c found k)
  ]

  IsOrder-IsSplit :
      (c : ContainerCache V) (xs : List String) (id : String) (node : CacheNode V)
      → lookup id c.cache ≡ some node
      → IsOrder c xs
      → IsSplit xs id
  IsOrder-IsSplit c xs id node found k =
      let (ys, zs, e) = Memᴰ-split id xs (k.listed.members id (Memᴰ-keys id c.cache found)) in
      let d : AreDistinct (ys ++ id ∷ zs) = subst AreDistinct e k.listed.distinct in
      record {
        before = ys;
        after = zs;
        whole = sym e;
        rest =
            sym (without-middle ys zs id (AreDistinct-front ys zs id d).0)
            ∙ ap (λ ks. without id ks) (sym e);
      }

  pub move_to_front-IsOrder :
      (xs : List String) (id : String) (node : CacheNode V) (c : ContainerCache V)
      → lookup id c.cache ≡ some node
      → IsOrder c xs
      → IsOrder (move_to_front id node c) (id ∷ without id xs)
  move_to_front-IsOrder xs id node c found k =
      let split = IsOrder-IsSplit c xs id node found k in
      subst (λ ks. IsOrder (move_to_front id node c) (id ∷ ks)) split.rest
        (split_moved split.before split.after id node c found
          (subst (IsOrder c) (sym split.whole) k))

  -- A node that leaves the list and the map.
  pub dropped-IsOrder :
      (ys zs : List String) (id : String) (node : CacheNode V) (c : ContainerCache V)
      → lookup id c.cache ≡ some node
      → IsOrder c (ys ++ id ∷ zs)
      → IsOrder (drop_found id (some node) c) (ys ++ zs)
  unfolding drop_found
  dropped-IsOrder ys zs id node c found k =
      let c' = remove_node node c in
      let chain = remove_node-IsChain ys zs id node c k.listed.distinct k.chain found in
      let away = (AreDistinct-front ys zs id k.listed.distinct).0 in
      record {
        chain = record {
          head = chain.head;
          tail = chain.tail;
          linked =
              Linked-kept c'.cache (delete id c'.cache) (ys ++ zs) none none
                (undeleted (ys ++ zs) away) chain.linked;
        };
        listed =
            subst (λ ks. IsListed ks (ys ++ zs))
              (ap (λ ks. without id ks) (sym (keys-remove_node node c))
                ∙ sym (keys-delete id c'.cache))
              (IsListed-without (keys c.cache) ys zs id (Memᴰ-keys id c.cache found) k.listed);
      }
    where
      undeleted :
          (ks : List String)
          → All (λ (x : String). id ≢ x) ks
          → All
              (λ (x : String).
                lookup x (delete id (remove_node node c).cache)
                ≡ lookup x (remove_node node c).cache)
              ks
      undeleted [] a = tt
      undeleted (x ∷ ks) (ne, a) = (
        ground (arith, lookup-delete id x (remove_node node c).cache, eq_iff id x),
        undeleted ks a,
      )

  pub drop_found-IsOrder :
      (xs : List String) (id : String) (node : CacheNode V) (c : ContainerCache V)
      → lookup id c.cache ≡ some node
      → IsOrder c xs
      → IsOrder (drop_found id (some node) c) (without id xs)
  drop_found-IsOrder xs id node c found k =
      let split = IsOrder-IsSplit c xs id node found k in
      subst (IsOrder (drop_found id (some node) c)) split.rest (
        dropped-IsOrder split.before split.after id node c found
          (subst (IsOrder c) (sym split.whole) k))
