-- ===== src/Task/Cache/Chain.antt =====
-- The order of use that the links of the cache form: `removeNode` and `addToFront` of
-- manager/cache.go.
use nsw.Prelude.{
  String, Option, none, some, List, [], ◌∷◌, ◌++◌, lookup, ◌≡◌, ◌≢◌, refl, sym, ap, ◌∙◌, All,
}
use mathlib.Core.Path.{subst}
use nsw.Task.Cache.{CacheNode, ContainerCache, modify_found, modify_node, set_next, set_prev}
use nsw.Task.Cache.Links.{
  AreDistinct, first_or, last_or, last_of, Linked, modify_node-IsChanged, Linked-kept, All-kept,
  Linked-set_prev, Linked-set_next, Linked-split, Linked-join,
}

pub last_or-append :
    (p : Option String) (xs ys : List String) → last_or p (xs ++ ys) ≡ last_or (last_or p xs) ys
last_or-append p [] ys = refl
last_or-append p (x ∷ xs) ys = last_or-append (some x) xs ys

pub last_or-some : (x : String) (xs : List String) → last_or (some x) xs ≡ some (last_of x xs)
last_or-some x [] = refl
last_or-some x (y ∷ ys) = last_or-some y ys

-- No element of the first list is in the second.
abbrev pub AreApart : List String → List String → Type 0
AreApart xs ys = All (λ (x : String). All (λ (y : String). x ≢ y) ys) xs

pub All-split : (P : String → Type 0) (xs ys : List String) → All P (xs ++ ys) → All P xs × All P ys
All-split P [] ys k = (tt, k)
All-split P (x ∷ xs) ys (k, ks) = let (front, back) = All-split P xs ys ks in ((k, front), back)

pub AreDistinct-split :
    (xs ys : List String)
    → AreDistinct (xs ++ ys)
    → AreDistinct xs × AreDistinct ys × AreApart xs ys
AreDistinct-split [] ys d = (tt, d, tt)
AreDistinct-split (x ∷ xs) ys (away, d) =
    let (front, back, apart) = AreDistinct-split xs ys d in
    let (near, far) = All-split (λ y. x ≢ y) xs ys away in ((near, front), back, (far, apart))

AreApart-last_or :
    (p : Option String) (xs ys : List String)
    → All (λ (y : String). p ≢ some y) ys
    → AreApart xs ys
    → All (λ (y : String). last_or p xs ≢ some y) ys
AreApart-last_or p [] ys k apart = k
AreApart-last_or p (x ∷ xs) ys k (away, apart) =
    AreApart-last_or (some x) xs ys (lift ys away) apart
  where
    lift :
        (zs : List String)
        → All (λ (z : String). x ≢ z) zs
        → All (λ (z : String). some x ≢ some z) zs
    lift [] k = tt
    lift (z ∷ zs) (k, ks) = ((λ e. k cc), lift zs ks)

pub none-All : (ys : List String) → All (λ (y : String). none ≢ some y) ys
none-All [] = tt
none-All (y ∷ ys) = ((λ e. absurd cc), none-All ys)

AreApart-first_or :
    (xs : List String) (id : String) (ys : List String)
    → AreApart xs (id ∷ ys)
    → All (λ (x : String). first_or ys none ≢ some x) xs
AreApart-first_or xs id [] apart = none-All xs
AreApart-first_or [] id (y ∷ ys) apart = tt
AreApart-first_or (x ∷ xs) id (y ∷ ys) ((_, (ne, _)), apart) =
    ((λ e. ne cc), AreApart-first_or xs id (y ∷ ys) apart)

-- what a change of a link keeps
away_of :
    (k : String) (xs : List String)
    → All (λ (x : String). some k ≢ some x) xs
    → All (λ (x : String). k ≢ x) xs
away_of k [] h = tt
away_of k (x ∷ xs) (h, hs) = ((λ e. h (ap some e)), away_of k xs hs)

module _ {V : Type 0} where
  -- The cache is the list `xs`, from the head to the tail.
  pub record IsChain (c : ContainerCache V) (xs : List String) : Type 0 where
    pub head : c.head ≡ first_or xs none
    pub tail : c.tail ≡ last_or none xs
    pub linked : Linked c.cache none xs none

  modify_found-ends :
      (id : String) (f : CacheNode V → CacheNode V) (o : Option (CacheNode V))
      (c : ContainerCache V)
      → ((modify_found id f o c).head ≡ c.head) × ((modify_found id f o c).tail ≡ c.tail)
  unfolding modify_found
  modify_found-ends id f none c = (refl, refl)
  modify_found-ends id f (some node) c = (refl, refl)

  pub modify_node-ends :
      (id : String) (f : CacheNode V → CacheNode V) (c : ContainerCache V)
      → ((modify_node id f c).head ≡ c.head) × ((modify_node id f c).tail ≡ c.tail)
  unfolding modify_node
  modify_node-ends id f c = modify_found-ends id f (lookup id c.cache) c

  set_next-Linked :
      (xs : List String) (n n' : Option String) (c : ContainerCache V)
      → AreDistinct xs
      → Linked c.cache none xs n
      → Linked (set_next (last_or none xs) n' c).cache none xs n'
  unfolding set_next
  set_next-Linked [] n n' c d l = tt
  set_next-Linked (x ∷ xs) n n' c d l =
      subst (λ q. Linked (set_next q n' c).cache none (x ∷ xs) n') (sym (last_or-some x xs))
        (Linked-set_next c.cache
          (modify_node (last_of x xs) (λ node. record node { next = n' }) c).cache x xs none n n' d
          (modify_node-IsChanged (last_of x xs) (λ node. record node { next = n' }) c) l)

  set_prev-Linked :
      (xs : List String) (p p' : Option String) (c : ContainerCache V)
      → AreDistinct xs
      → Linked c.cache p xs none
      → Linked (set_prev (first_or xs none) p' c).cache p' xs none
  unfolding set_prev
  set_prev-Linked [] p p' c d l = tt
  set_prev-Linked (x ∷ xs) p p' c d l =
      Linked-set_prev c.cache (modify_node x (λ node. record node { prev = p' }) c).cache x xs p p'
        none d (modify_node-IsChanged x (λ node. record node { prev = p' }) c) l

  set_next-kept :
      (p n : Option String) (c : ContainerCache V) (xs : List String)
      → All (λ (x : String). p ≢ some x) xs
      → All (λ (x : String). lookup x (set_next p n c).cache ≡ lookup x c.cache) xs
  unfolding set_next
  set_next-kept none n c [] k = tt
  set_next-kept none n c (x ∷ xs) (_, k) = (refl, set_next-kept none n c xs k)
  set_next-kept (some p) n c xs k = All-kept xs (modify_node-IsChanged p _ c) (away_of p xs k)

  set_prev-kept :
      (n p : Option String) (c : ContainerCache V) (xs : List String)
      → All (λ (x : String). n ≢ some x) xs
      → All (λ (x : String). lookup x (set_prev n p c).cache ≡ lookup x c.cache) xs
  unfolding set_prev
  set_prev-kept none p c [] k = tt
  set_prev-kept none p c (x ∷ xs) (_, k) = (refl, set_prev-kept none p c xs k)
  set_prev-kept (some n) p c xs k = All-kept xs (modify_node-IsChanged n _ c) (away_of n xs k)

  set_next-head :
      (xs ys : List String) (id : String) (n : Option String) (c : ContainerCache V)
      → c.head ≡ first_or (xs ++ id ∷ ys) none
      → n ≡ first_or ys none
      → (set_next (last_or none xs) n c).head ≡ first_or (xs ++ ys) none
  unfolding set_next
  set_next-head [] ys id n c h e = e
  set_next-head (x ∷ xs) ys id n c h e =
      subst (λ q. (set_next q n c).head ≡ some x) (sym (last_or-some x xs))
        ((modify_node-ends (last_of x xs) (λ node. record node { next = n }) c).0 ∙ h)

  set_next-tail : (p n : Option String) (c : ContainerCache V) → (set_next p n c).tail ≡ c.tail
  unfolding set_next
  set_next-tail none n c = refl
  set_next-tail (some p) n c = (modify_node-ends p (λ node. record node { next = n }) c).1

  set_prev-head : (n p : Option String) (c : ContainerCache V) → (set_prev n p c).head ≡ c.head
  unfolding set_prev
  set_prev-head none p c = refl
  set_prev-head (some n) p c = (modify_node-ends n (λ node. record node { prev = p }) c).0

  set_prev-tail :
      (p : Option String) (id : String) (ys : List String) (c : ContainerCache V)
      → c.tail ≡ last_or p (id ∷ ys)
      → (set_prev (first_or ys none) p c).tail ≡ last_or p ys
  unfolding set_prev
  set_prev-tail p id [] c h = refl
  set_prev-tail p id (y ∷ ys) c h = (modify_node-ends y (λ node. record node { prev = p }) c).1 ∙ h

  -- the two writes of `removeNode`
  pub unlink-IsChain :
      (xs ys : List String) (id : String) (c : ContainerCache V)
      → AreDistinct (xs ++ id ∷ ys)
      → IsChain c (xs ++ id ∷ ys)
      → IsChain
          (set_prev
            (first_or ys none)
            (last_or none xs)
            (set_next (last_or none xs) (first_or ys none) c))
          (xs ++ ys)
  unlink-IsChain xs ys id c d k =
      let p = last_or none xs in
      let n = first_or ys none in
      let c₁ = set_next p n c in
      let c₂ = set_prev n p c₁ in
      let (d_xs, (_, d_ys), apart) = AreDistinct-split xs (id ∷ ys) d in
      let (front, (_, back)) = Linked-split c.cache xs (id ∷ ys) none none k.linked in
      let p_away = AreApart-last_or none xs (id ∷ ys) (none-All (id ∷ ys)) apart in
      let n_away = AreApart-first_or xs id ys apart in
      let front₂ : Linked c₂.cache none xs n =
        Linked-kept c₁.cache c₂.cache xs none n (set_prev-kept n p c₁ xs n_away)
          (set_next-Linked xs (some id) n c d_xs front) in
      let back₁ : Linked c₁.cache (some id) ys none =
        Linked-kept c.cache c₁.cache ys (some id) none (set_next-kept p n c ys p_away.1) back in
      let tail₁ : c₁.tail ≡ last_or p (id ∷ ys) =
        set_next-tail p n c ∙ k.tail ∙ last_or-append none xs (id ∷ ys) in
      record {
        head = set_prev-head n p c₁ ∙ set_next-head xs ys id n c k.head refl;
        tail = set_prev-tail p id ys c₁ tail₁ ∙ sym (last_or-append none xs ys);
        linked =
            Linked-join c₂.cache xs ys none none front₂
              (set_prev-Linked ys (some id) p c₁ d_ys back₁);
      }
