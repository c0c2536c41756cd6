-- ===== src/Task/Cache/Usage.antt =====
-- `Get`, `Set` and `Delete` of the cache as operations on the order of use: manager/cache.go.
use nsw.Prelude.{
  ℕ, suc, String, Option, none, some, List, [], ◌∷◌, ◌++◌, Map, lookup, insert, lookup-insert_self,
  lookup-insert_ne, keys, length, ltb, if◌then◌else◌, ◌≡◌, ◌≢◌, refl, sym, ap, ◌∙◌, All,
}
use mathlib.Core.Path.{subst}
use nsw.Task.Cache.{
  CacheNode, ContainerCache, add_to_front, drop_found, evict_tail, evict_lru, get_found, get,
}
use nsw.Task.Cache.Contents.{held, get-held}
use nsw.Task.Cache.Links.{Linked, Linked-kept, Linked-split, last_of}
use nsw.Task.Cache.Chain.{IsChain, last_or-some}
use nsw.Task.Cache.Front.{add_to_front-IsChain}
use nsw.Task.Cache.Keys.{without, keys-insert_new, keys-add_to_front, lookup-none-away}
use nsw.Task.Cache.Listed.{IsListed, IsListed-new}
use nsw.Task.Cache.Order.{IsOrder, dropped-IsOrder, move_to_front-IsOrder}

-- the order after a task is looked up
unfoldable pub touched : {V : Type 0} → Option V → String → List String → List String
touched none id xs = xs
touched (some _) id xs = id ∷ without id xs

-- the order without the task that was not used for the longest time
unfoldable pub all_but_last : String → List String → List String
all_but_last x [] = []
all_but_last x (y ∷ ys) = x ∷ all_but_last y ys

-- the order after a task is used, within the capacity
unfoldable pub used : ℕ → String → List String → List String
unfolding all_but_last
used capacity id xs = if ltb capacity (suc (length xs)) then all_but_last id xs else id ∷ xs

last_split : (x : String) (xs : List String) → all_but_last x xs ++ last_of x xs ∷ [] ≡ x ∷ xs
unfolding all_but_last
last_split x [] = refl
last_split x (y ∷ ys) = ap (λ zs. x ∷ zs) (last_split y ys)

append_nil : (xs : List String) → xs ++ [] ≡ xs
append_nil [] = refl
append_nil (x ∷ xs) = ap (λ zs. x ∷ zs) (append_nil xs)

module _ {V : Type 0} where
  get_found-IsOrder :
      (id : String) (o : Option (CacheNode V)) (xs : List String) (c : ContainerCache V)
      → lookup id c.cache ≡ o
      → IsOrder c xs
      → IsOrder (get_found id o c).1 (touched (get_found id o c).0 id xs)
  unfolding get_found touched
  get_found-IsOrder id none xs c e k = k
  get_found-IsOrder id (some node) xs c e k = move_to_front-IsOrder xs id node c e k

  -- `Get` answers with the container that the cache holds for the task, if it holds one, and then
  -- moves the task to the front of the order; of another task it leaves the order as it is. The
  -- order of a cache is the list of its tasks from the head to the tail of its links, which agree
  -- in both directions and with its map. It is assumed that the cache has an order.
  pub get-IsOrder :
      (id : String) (xs : List String) (c : ContainerCache V)
      → IsOrder c xs
      → ((get id c).0 ≡ held id c) × IsOrder (get id c).1 (touched (held id c) id xs)
  unfolding get held
  get-IsOrder id xs c k =
      let (answer, _) = get-held id id c in
      (
        answer,
        subst (λ o. IsOrder (get id c).1 (touched o id xs)) answer
            (get_found-IsOrder id (lookup id c.cache) xs c refl k),
      )

  pub away_of-Linked :
      (p n : Option String) (xs : List String) (id : String) (nodes : Map (CacheNode V))
      → lookup id nodes ≡ none
      → Linked nodes p xs n
      → All (λ (x : String). id ≢ x) xs
  away_of-Linked p n [] id nodes h l = tt
  away_of-Linked p n (x ∷ xs) id nodes h (l, ls) = (
    (λ e.
        let there : lookup id nodes ≡ some l.node = ap (λ z. lookup z nodes) e ∙ l.found in
        let clash : Path (Option (CacheNode V)) none (some l.node) = sym h ∙ there in absurd cc),
    away_of-Linked (some x) n xs id nodes h ls,
  )

  inserted_kept :
      (id : String) (node : CacheNode V) (xs : List String) (nodes : Map (CacheNode V))
      → All (λ (x : String). id ≢ x) xs
      → All (λ (x : String). lookup x (insert id node nodes) ≡ lookup x nodes) xs
  inserted_kept id node [] nodes k = tt
  inserted_kept id node (x ∷ xs) nodes (ne, k) =
      (lookup-insert_ne id x node nodes ne, inserted_kept id node xs nodes k)

  -- the new node, before anything is evicted
  pub added-IsOrder :
      (id : String) (node : CacheNode V) (xs : List String) (c : ContainerCache V)
      → lookup id c.cache ≡ none
      → IsOrder c xs
      → IsOrder (add_to_front id (record c { cache = insert id node c.cache })) (id ∷ xs)
  added-IsOrder id node xs c absent k =
      let c' : ContainerCache V = record c { cache = insert id node c.cache } in
      let away = away_of-Linked none none xs id c.cache absent k.chain.linked in
      let with_node : IsChain c' xs = record {
        head = k.chain.head;
        tail = k.chain.tail;
        linked =
            Linked-kept c.cache c'.cache xs none none (inserted_kept id node xs c.cache away)
              k.chain.linked;
      } in
      record {
        chain =
            add_to_front-IsChain id node xs c' away k.listed.distinct
              (lookup-insert_self id node c.cache) with_node;
        listed =
            subst (λ ks. IsListed ks (id ∷ xs))
              (sym (keys-add_to_front id c' ∙ keys-insert_new id node c.cache absent))
              (IsListed-new (keys c.cache) xs id (lookup-none-away id c.cache absent) away
                k.listed);
      }

  evict_found-IsOrder :
      (x : String) (xs : List String) (o : Option (CacheNode V)) (c : ContainerCache V)
      → lookup (last_of x xs) c.cache ≡ o
      → IsOrder c (all_but_last x xs ++ last_of x xs ∷ [])
      → IsOrder (drop_found (last_of x xs) o c) (all_but_last x xs ++ [])
  evict_found-IsOrder x xs (some node) c e k =
      dropped-IsOrder (all_but_last x xs) [] (last_of x xs) node c e k
  evict_found-IsOrder x xs none c e k =
      let (_, (l, _)) =
        Linked-split c.cache (all_but_last x xs) (last_of x xs ∷ []) none none k.chain.linked in
      let clash : Path (Option (CacheNode V)) none (some l.node) = sym e ∙ l.found in absurd cc

  -- `evictLRU` drops the last task of the order.
  pub evict_lru-IsOrder :
      (x : String) (xs : List String) (c : ContainerCache V)
      → IsOrder c (x ∷ xs)
      → IsOrder (evict_lru c) (all_but_last x xs)
  unfolding evict_lru evict_tail
  evict_lru-IsOrder x xs c k =
      let last : some (last_of x xs) ≡ c.tail = sym (k.chain.tail ∙ last_or-some x xs) in
      subst (λ o. IsOrder (evict_tail o c) (all_but_last x xs)) last
        (subst (IsOrder (evict_tail (some (last_of x xs)) c)) (append_nil (all_but_last x xs)) (
          evict_found-IsOrder x xs (lookup (last_of x xs) c.cache) c refl
            (subst (IsOrder c) (sym (last_split x xs)) k)))
