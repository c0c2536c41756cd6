-- ===== src/Task/Cache.antt =====
-- manager/cache.go: the cache of active containers, a map from task identifiers to the nodes of a
-- doubly linked list in the order of use. A node is in the list just while it is in the map, under
-- its own task, so a pointer to a node is that task's identifier. Locks are left out: each
-- operation is one step.
pub mod Contents
pub mod Links
pub mod Chain
pub mod Front
pub mod Keys
pub mod Listed
pub mod Order
pub mod Usage
pub mod Recency
use nsw.Prelude.{
  ℕ, String, Bool, false, Option, none, some, [], ◌==◌, if◌then◌else◌, Map, lookup, insert, delete,
  length, ltb, ◌==ℕ◌,
}

pub record CacheNode (V : Type 0) : Type 0 where
  pub container : V
  pub prev : Option String
  pub next : Option String

pub record ContainerCache (V : Type 0) : Type 0 where
  pub capacity : ℕ
  pub cache : Map (CacheNode V)
  pub head : Option String
  pub tail : Option String

-- `c.head == node`
abbrev points_to : Option String → String → Bool
points_to none id = false
points_to (some head) id = head == id

module _ {V : Type 0} where
  -- `newContainerCache`; the capacity is not negative here
  unfoldable pub new_container_cache : ℕ → ContainerCache V
  new_container_cache capacity = record {
    capacity = if capacity ==ℕ 0 then 100 else capacity;
    cache = [];
    head = none;
    tail = none;
  }

  unfoldable pub modify_found :
      String
      → (CacheNode V → CacheNode V)
      → Option (CacheNode V)
      → ContainerCache V
      → ContainerCache V
  modify_found id f none c = c
  modify_found id f (some node) c = record c { cache = insert id (f node) c.cache }

  -- a write through the pointer to a node
  unfoldable pub modify_node :
      String → (CacheNode V → CacheNode V) → ContainerCache V → ContainerCache V
  unfolding modify_found
  modify_node id f c = modify_found id f (lookup id c.cache) c

  -- `node.prev.next = next`, or the list's head when there is no `node.prev`
  unfoldable pub set_next : Option String → Option String → ContainerCache V → ContainerCache V
  unfolding modify_node
  set_next none next c = record c { head = next }
  set_next (some prev) next c = modify_node prev (λ node. record node { next = next }) c

  -- `node.next.prev = prev`, or the list's tail when there is no `node.next`
  unfoldable pub set_prev : Option String → Option String → ContainerCache V → ContainerCache V
  unfolding modify_node
  set_prev none prev c = record c { tail = prev }
  set_prev (some next) prev c = modify_node next (λ node. record node { prev = prev }) c

  -- `removeNode`
  unfoldable pub remove_node : CacheNode V → ContainerCache V → ContainerCache V
  unfolding set_next set_prev
  remove_node node c = set_prev node.next node.prev (set_next node.prev node.next c)

  -- `c.head.prev = node`, if there is a head
  unfoldable pub link_back : Option String → String → ContainerCache V → ContainerCache V
  unfolding modify_node
  link_back none id c = c
  link_back (some head) id c = modify_node head (λ node. record node { prev = some id }) c

  -- `addToFront`
  unfoldable pub add_to_front : String → ContainerCache V → ContainerCache V
  unfolding modify_node link_back
  add_to_front id c =
      let linked = modify_node id (λ node. record node { next = c.head; prev = none }) c in
      record (link_back c.head id linked) {
        head = some id;
        tail = elim c.tail [ none ↦ some id | some tail ↦ some tail ];
      }

  -- `moveToFront`
  unfoldable pub move_to_front : String → CacheNode V → ContainerCache V → ContainerCache V
  unfolding remove_node add_to_front
  move_to_front id node c = if points_to c.head id then c else add_to_front id (remove_node node c)

  -- the node leaves the list and the map
  unfoldable pub drop_found : String → Option (CacheNode V) → ContainerCache V → ContainerCache V
  unfolding remove_node
  drop_found id none c = c
  drop_found id (some node) c =
      let c' = remove_node node c in record c' { cache = delete id c'.cache }

  unfoldable pub evict_tail : Option String → ContainerCache V → ContainerCache V
  unfolding drop_found
  evict_tail none c = c
  evict_tail (some id) c = drop_found id (lookup id c.cache) c

  -- `evictLRU`
  unfoldable pub evict_lru : ContainerCache V → ContainerCache V
  unfolding evict_tail
  evict_lru c = evict_tail c.tail c

  unfoldable pub get_found :
      String → Option (CacheNode V) → ContainerCache V → Option V × ContainerCache V
  unfolding move_to_front
  get_found id none c = (none, c)
  get_found id (some node) c = (some node.container, move_to_front id node c)

  -- `Get`
  unfoldable pub get : String → ContainerCache V → Option V × ContainerCache V
  unfolding get_found
  get id c = get_found id (lookup id c.cache) c

  -- the branch of `Set` for a task that is in the cache
  unfoldable pub update_node : String → V → CacheNode V → ContainerCache V → ContainerCache V
  unfolding modify_node move_to_front
  update_node id v node c =
      move_to_front id node (modify_node id (λ node. record node { container = v }) c)

  -- the branch of `Set` for a task that is not
  unfoldable pub insert_node : String → V → ContainerCache V → ContainerCache V
  unfolding add_to_front evict_lru
  insert_node id v c =
      let node : CacheNode V = record { container = v; prev = none; next = none } in
      let added = add_to_front id (record c { cache = insert id node c.cache }) in
      if ltb added.capacity (length added.cache) then evict_lru added else added

  unfoldable pub set_found : String → V → Option (CacheNode V) → ContainerCache V → ContainerCache V
  unfolding update_node insert_node
  set_found id v none c = insert_node id v c
  set_found id v (some node) c = update_node id v node c

  -- `Set`
  unfoldable pub set : String → V → ContainerCache V → ContainerCache V
  unfolding set_found
  set id v c = set_found id v (lookup id c.cache) c

  -- `Delete`
  unfoldable pub remove : String → ContainerCache V → ContainerCache V
  unfolding drop_found
  remove id c = drop_found id (lookup id c.cache) c

  -- `Clear`
  unfoldable pub clear : ContainerCache V → ContainerCache V
  clear c = record c { cache = []; head = none; tail = none }

  -- `Len`
  unfoldable pub len : ContainerCache V → ℕ
  len c = length c.cache
