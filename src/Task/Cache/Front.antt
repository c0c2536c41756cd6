-- ===== src/Task/Cache/Front.antt =====
-- `removeNode` and `addToFront` on the order of use: manager/cache.go.
use nsw.Prelude.{
  String, Option, none, some, List, [], ◌∷◌, ◌++◌, lookup, ◌≡◌, ◌≢◌, refl, sym, ap, ◌∙◌, All,
}
use mathlib.Core.Path.{subst}
use nsw.Task.Cache.{
  CacheNode, ContainerCache, modify_node, set_next, set_prev, remove_node, link_back, add_to_front,
}
use nsw.Task.Cache.Links.{
  AreDistinct, first_or, last_or, Linked, modify_node-IsChanged, Linked-kept, All-kept,
  Linked-set_prev, Linked-split,
}
use nsw.Task.Cache.Chain.{IsChain, unlink-IsChain}

tail_kept :
    (id x : String) (xs : List String)
    → Path
        (Option String)
        (elim (last_or (some x) xs) [ none ↦ some id | some last ↦ some last ])
        (last_or (some x) xs)
tail_kept id x [] = refl
tail_kept id x (y ∷ ys) = tail_kept id y ys

module _ {V : Type 0} where
  pub remove_node-IsChain :
      (xs ys : List String) (id : String) (node : CacheNode V) (c : ContainerCache V)
      → AreDistinct (xs ++ id ∷ ys)
      → IsChain c (xs ++ id ∷ ys)
      → lookup id c.cache ≡ some node
      → IsChain (remove_node node c) (xs ++ ys)
  unfolding remove_node
  remove_node-IsChain xs ys id node c d k found =
      let (_, (l, _)) = Linked-split c.cache xs (id ∷ ys) none none k.linked in
      let same : l.node ≡ node = cc (l.found, found) in
      let prev : last_or none xs ≡ node.prev = sym l.prev ∙ ap (λ (x : CacheNode V). x.prev) same in
      let next : first_or ys none ≡ node.next =
        sym l.next ∙ ap (λ (x : CacheNode V). x.next) same in
      subst (λ q. IsChain (set_prev node.next q (set_next q node.next c)) (xs ++ ys)) prev
        (subst
          (λ q. IsChain (set_prev q (last_or none xs) (set_next (last_or none xs) q c)) (xs ++ ys))
          next (unlink-IsChain xs ys id c d k))

  -- `addToFront` of a node, by what the head and the tail are
  added : Option String → Option String → String → ContainerCache V → ContainerCache V
  added head tail id c =
      record (link_back head id
        (modify_node id (λ node. record node { next = head; prev = none }) c)) {
          head = some id;
          tail = elim tail [ none ↦ some id | some last ↦ some last ];
        }

  added-IsChain :
      (id : String) (node : CacheNode V) (xs : List String) (c : ContainerCache V)
      → All (λ (x : String). id ≢ x) xs
      → AreDistinct xs
      → lookup id c.cache ≡ some node
      → Linked c.cache none xs none
      → IsChain (added (first_or xs none) (last_or none xs) id c) (id ∷ xs)
  unfolding added link_back
  added-IsChain id node [] c away d found l =
      let ch = modify_node-IsChanged id (λ node. record node { next = none; prev = none }) c in
      record {
        head = refl;
        tail = refl;
        linked = (
          record {
            node = record node { next = none; prev = none };
            found = ch.changed node found;
            prev = refl;
            next = refl;
          },
          tt,
        );
      }
  added-IsChain id node (x ∷ xs) c away d found l =
      let c₁ = modify_node id (λ node. record node { next = some x; prev = none }) c in
      let c₂ = modify_node x (λ node. record node { prev = some id }) c₁ in
      let ch = modify_node-IsChanged id (λ node. record node { next = some x; prev = none }) c in
      let ch' = modify_node-IsChanged x (λ node. record node { prev = some id }) c₁ in
      record {
        head = refl;
        tail = tail_kept id x xs;
        linked = (
          record {
            node = record node { next = some x; prev = none };
            found = ch'.kept id (λ e. away.0 (sym e)) ∙ ch.changed node found;
            prev = refl;
            next = refl;
          },
          Linked-set_prev c₁.cache c₂.cache x xs none (some id) none d ch'
              (Linked-kept c.cache c₁.cache (x ∷ xs) none none (All-kept (x ∷ xs) ch away) l),
        );
      }

  pub add_to_front-IsChain :
      (id : String) (node : CacheNode V) (xs : List String) (c : ContainerCache V)
      → All (λ (x : String). id ≢ x) xs
      → AreDistinct xs
      → lookup id c.cache ≡ some node
      → IsChain c xs
      → IsChain (add_to_front id c) (id ∷ xs)
  unfolding add_to_front added
  add_to_front-IsChain id node xs c away d found k =
      subst (λ q. IsChain (added q c.tail id c) (id ∷ xs)) (sym k.head)
        (subst (λ q. IsChain (added (first_or xs none) q id c) (id ∷ xs)) (sym k.tail)
          (added-IsChain id node xs c away d found k.linked))
