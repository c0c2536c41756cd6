-- ===== src/Task/Cache/Links.antt =====
-- Doubly linked lists in the map of the cache: manager/cache.go.
use nsw.Prelude.{
  String, Option, none, some, List, [], ◌∷◌, ◌++◌, Map, lookup, lookup-insert_self,
  lookup-insert_ne, ◌≡◌, ◌≢◌, refl, sym, ap, ◌∙◌, All,
}
use nsw.Task.Cache.{CacheNode, ContainerCache, modify_found, modify_node}

abbrev pub AreDistinct : List String → Type 0
AreDistinct [] = Unit
AreDistinct (x ∷ xs) = All (λ (y : String). x ≢ y) xs × AreDistinct xs

-- the first element, and `n` if there is none
abbrev pub first_or : List String → Option String → Option String
first_or [] n = n
first_or (x ∷ xs) n = some x

-- the last element, and `p` if there is none
abbrev pub last_or : Option String → List String → Option String
last_or p [] = p
last_or p (x ∷ xs) = last_or (some x) xs

-- the last node of a list that is not empty
abbrev pub last_of : String → List String → String
last_of x [] = x
last_of x (y ∷ ys) = last_of y ys

last_of_ne :
    (x y : String) (ys : List String) → All (λ (z : String). x ≢ z) (y ∷ ys) → x ≢ last_of y ys
last_of_ne x y [] (ne, _) = ne
last_of_ne x y (z ∷ ys) (_, away) = last_of_ne x z ys away

module _ {V : Type 0} where
  pub record IsLinkedNode (nodes : Map (CacheNode V)) (p : Option String) (x : String)
      (n : Option String) : Type 0 where
    pub node : CacheNode V
    pub found : lookup x nodes ≡ some node
    pub prev : node.prev ≡ p
    pub next : node.next ≡ n

  -- The nodes of `xs` point to each other, the first one back to `p` and the last one on to `n`.
  abbrev pub Linked : Map (CacheNode V) → Option String → List String → Option String → Type 0
  Linked nodes p [] n = Unit
  Linked nodes p (x ∷ xs) n = IsLinkedNode nodes p x (first_or xs n) × Linked nodes (some x) xs n

  -- Only the node `k` changes, by `f`.
  pub record IsChanged (before after : Map (CacheNode V)) (k : String)
      (f : CacheNode V → CacheNode V) : Type 0 where
    pub changed :
        (node : CacheNode V) → lookup k before ≡ some node → lookup k after ≡ some (f node)
    pub kept : (j : String) → k ≢ j → lookup j after ≡ lookup j before

  pub modify_node-IsChanged :
      (id : String) (f : CacheNode V → CacheNode V) (c : ContainerCache V)
      → IsChanged c.cache (modify_node id f c).cache id f
  unfolding modify_node modify_found
  modify_node-IsChanged id f c = by_entry (lookup id c.cache) refl
    where
      by_entry :
          (o : Option (CacheNode V))
          → lookup id c.cache ≡ o
          → IsChanged c.cache (modify_found id f o c).cache id f
      by_entry none e = record { changed = λ node found. absurd cc; kept = λ j ne. refl }
      by_entry (some held) e = record {
        changed = λ node found.
            let same : held ≡ node = cc in
            lookup-insert_self id (f held) c.cache ∙ ap (λ x. some (f x)) same;
        kept = λ j ne. lookup-insert_ne id j (f held) c.cache ne;
      }

  -- A change elsewhere leaves the links.
  pub Linked-kept :
      (before after : Map (CacheNode V)) (xs : List String) (p n : Option String)
      → All (λ (x : String). lookup x after ≡ lookup x before) xs
      → Linked before p xs n
      → Linked after p xs n
  Linked-kept b a [] p n k l = tt
  Linked-kept b a (x ∷ xs) p n (k, ks) (l, ls) = (
    record { node = l.node; found = k ∙ l.found; prev = l.prev; next = l.next },
    Linked-kept b a xs (some x) n ks ls,
  )

  pub All-kept :
      {before after : Map (CacheNode V)} {k : String} {f : CacheNode V → CacheNode V}
      (xs : List String)
      → IsChanged before after k f
      → All (λ (x : String). k ≢ x) xs
      → All (λ (x : String). lookup x after ≡ lookup x before) xs
  All-kept [] c away = tt
  All-kept (x ∷ xs) c (ne, away) = (c.kept x ne, All-kept xs c away)

  -- A new back pointer of the first node.
  pub Linked-set_prev :
      (before after : Map (CacheNode V)) (x : String) (xs : List String) (p p' n : Option String)
      → AreDistinct (x ∷ xs)
      → IsChanged before after x (λ node. record node { prev = p' })
      → Linked before p (x ∷ xs) n
      → Linked after p' (x ∷ xs) n
  Linked-set_prev b a x xs p p' n (away, _) c (l, ls) = (
    record {
      node = record l.node { prev = p' };
      found = c.changed l.node l.found;
      prev = refl;
      next = l.next;
    },
    Linked-kept b a xs (some x) n (All-kept xs c away) ls,
  )

  -- A new forward pointer of the last node.
  pub Linked-set_next :
      (before after : Map (CacheNode V)) (x : String) (xs : List String) (p n n' : Option String)
      → AreDistinct (x ∷ xs)
      → IsChanged before after (last_of x xs) (λ node. record node { next = n' })
      → Linked before p (x ∷ xs) n
      → Linked after p (x ∷ xs) n'
  Linked-set_next b a x [] p n n' d c (l, _) = (
    record {
      node = record l.node { next = n' };
      found = c.changed l.node l.found;
      prev = l.prev;
      next = refl;
    },
    tt,
  )
  Linked-set_next b a x (y ∷ ys) p n n' (away, d) c (l, ls) = (
    record {
      node = l.node;
      found = c.kept x (λ e. last_of_ne x y ys away (sym e)) ∙ l.found;
      prev = l.prev;
      next = l.next;
    },
    Linked-set_next b a y ys (some x) n n' d c ls,
  )

  pub Linked-split :
      (nodes : Map (CacheNode V)) (xs ys : List String) (p n : Option String)
      → Linked nodes p (xs ++ ys) n
      → Linked nodes p xs (first_or ys n) × Linked nodes (last_or p xs) ys n
  Linked-split m [] ys p n l = (tt, l)
  Linked-split m (x ∷ []) ys p n (l, ls) = ((l, tt), ls)
  Linked-split m (x ∷ y ∷ xs) ys p n (l, ls) =
      let (front, back) = Linked-split m (y ∷ xs) ys (some x) n ls in ((l, front), back)

  pub Linked-join :
      (nodes : Map (CacheNode V)) (xs ys : List String) (p n : Option String)
      → Linked nodes p xs (first_or ys n)
      → Linked nodes (last_or p xs) ys n
      → Linked nodes p (xs ++ ys) n
  Linked-join m [] ys p n front back = back
  Linked-join m (x ∷ []) ys p n (l, _) back = (l, back)
  Linked-join m (x ∷ y ∷ xs) ys p n (l, front) back =
      (l, Linked-join m (y ∷ xs) ys (some x) n front back)
