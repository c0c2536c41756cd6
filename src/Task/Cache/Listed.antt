-- ===== src/Task/Cache/Listed.antt =====
-- The order of use against the keys of the map of the cache: manager/cache.go.
use nsw.Prelude.{
  suc, String, List, [], ◌∷◌, ◌++◌, length, length-append, ◌==◌, eq_iff, Bool-cases, ◌⊎◌, inl, inr,
  ◌≡◌, ◌≢◌, refl, sym, ap, ◌∙◌, All, All-mem, All-append, arith,
}
use mathlib.Core.List.{Memᴰ}
use nsw.Task.Cache.Links.{AreDistinct}
use nsw.Task.Cache.Chain.{AreApart, AreDistinct-split}
use nsw.Task.Cache.Keys.{without, without-away}

-- `xs` has just the keys `ks`.
pub record IsListed (ks xs : List String) : Type 0 where
  pub distinct : AreDistinct xs
  pub distinct_keys : AreDistinct ks
  pub size : length ks ≡ length xs
  pub members : (j : String) → Memᴰ j ks → Memᴰ j xs

Memᴰ-middle :
    (xs ys : List String) (id j : String) → Memᴰ j (xs ++ id ∷ ys) → (j ≡ id) ⊎ Memᴰ j (xs ++ ys)
Memᴰ-middle [] ys id j (Memᴰ.head e) = inl e
Memᴰ-middle [] ys id j (Memᴰ.tail m) = inr m
Memᴰ-middle (x ∷ xs) ys id j (Memᴰ.head e) = inr (Memᴰ.head e)
Memᴰ-middle (x ∷ xs) ys id j (Memᴰ.tail m) = elim (Memᴰ-middle xs ys id j m) [
  | inl e ↦ inl e
  | inr m' ↦ inr (Memᴰ.tail m')
]

All-without :
    (P : String → Type 0) (x : String) (ys : List String) → All P ys → All P (without x ys)
unfolding without
All-without P x [] k = tt
All-without P x (y ∷ ys) (k, ks) = elim (Bool-cases (y == x)) [
  | inl e ↦ rw (e, without) (All-without P x ys ks)
  | inr ne ↦ rw (ne, without) (k, All-without P x ys ks)
]

AreDistinct-without : (x : String) (ys : List String) → AreDistinct ys → AreDistinct (without x ys)
unfolding without
AreDistinct-without x [] d = tt
AreDistinct-without x (y ∷ ys) (away, d) = elim (Bool-cases (y == x)) [
  | inl e ↦ rw (e, without) (AreDistinct-without x ys d)
  | inr ne ↦ rw (ne, without) (All-without (λ z. y ≢ z) x ys away, AreDistinct-without x ys d)
]

Memᴰ-without : (x j : String) (ys : List String) → Memᴰ j (without x ys) → Memᴰ j ys × (x ≢ j)
unfolding without
Memᴰ-without x j [] m = elim m [ ]
Memᴰ-without x j (y ∷ ys) m = elim (Bool-cases (y == x)) [
  | inl e ↦
      let m' : Memᴰ j (without x ys) = rw (e, without) at m in
      let (there, ne) = Memᴰ-without x j ys m' in (Memᴰ.tail there, ne)
  | inr ne ↦
      let m' : Memᴰ j (y ∷ without x ys) = rw (ne, without) at m in
      elim m' [
        | Memᴰ.head e ↦ (Memᴰ.head e, λ same. ground (arith, eq_iff y x))
        | Memᴰ.tail later ↦ let (there, ne') = Memᴰ-without x j ys later in (Memᴰ.tail there, ne')
      ]
]

pub length-without :
    (x : String) (ys : List String)
    → AreDistinct ys
    → Memᴰ x ys
    → suc (length (without x ys)) ≡ length ys
unfolding without
length-without x [] d m = elim m [ ]
length-without x (y ∷ ys) (away, d) (Memᴰ.head e) =
    let gone : without x (y ∷ ys) ≡ without x ys = ground (arith, eq_iff y x) in
    let kept : without x ys ≡ ys = without-away x ys (rw e away) in
    ap (λ zs. suc (length zs)) (gone ∙ kept)
length-without x (y ∷ ys) (away, d) (Memᴰ.tail m) =
    let ne : y ≢ x = All-mem (λ z. y ≢ z) ys away m in
    let kept : without x (y ∷ ys) ≡ y ∷ without x ys = ground (arith, eq_iff y x) in
    ap (λ zs. suc (length zs)) kept ∙ ap suc (length-without x ys d m)

length-middle :
    (xs ys : List String) (id : String) → length (xs ++ id ∷ ys) ≡ suc (length (xs ++ ys))
length-middle [] ys id = refl
length-middle (x ∷ xs) ys id = ap suc (length-middle xs ys id)

AreApart-drop : (xs ys : List String) (id : String) → AreApart xs (id ∷ ys) → AreApart xs ys
AreApart-drop [] ys id k = tt
AreApart-drop (x ∷ xs) ys id ((_, k), ks) = (k, AreApart-drop xs ys id ks)

AreApart-first :
    (xs ys : List String) (id : String) → AreApart xs (id ∷ ys) → All (λ (x : String). id ≢ x) xs
AreApart-first [] ys id k = tt
AreApart-first (x ∷ xs) ys id ((ne, _), ks) = ((λ e. ne (sym e)), AreApart-first xs ys id ks)

AreDistinct-join :
    (xs ys : List String)
    → AreDistinct xs
    → AreDistinct ys
    → AreApart xs ys
    → AreDistinct (xs ++ ys)
AreDistinct-join [] ys d d' k = d'
AreDistinct-join (x ∷ xs) ys (away, d) d' (k, ks) =
    (All-append (λ z. x ≢ z) xs ys away k, AreDistinct-join xs ys d d' ks)

-- A list with its middle element in front, or gone.
pub AreDistinct-front :
    (xs ys : List String) (id : String) → AreDistinct (xs ++ id ∷ ys) → AreDistinct (id ∷ xs ++ ys)
AreDistinct-front xs ys id d =
    let (front, (away, back), apart) = AreDistinct-split xs (id ∷ ys) d in
    (
      All-append (λ z. id ≢ z) xs ys (AreApart-first xs ys id apart) away,
      AreDistinct-join xs ys front back (AreApart-drop xs ys id apart),
    )

pub IsListed-front :
    (ks xs ys : List String) (id : String)
    → IsListed ks (xs ++ id ∷ ys)
    → IsListed ks (id ∷ xs ++ ys)
IsListed-front ks xs ys id l = record {
  distinct = AreDistinct-front xs ys id l.distinct;
  distinct_keys = l.distinct_keys;
  size = l.size ∙ length-middle xs ys id;
  members = λ j m. elim (Memᴰ-middle xs ys id j (l.members j m)) [
    | inl e ↦ Memᴰ.head e
    | inr m' ↦ Memᴰ.tail m'
  ];
}

pub IsListed-without :
    (ks xs ys : List String) (id : String)
    → Memᴰ id ks
    → IsListed ks (xs ++ id ∷ ys)
    → IsListed (without id ks) (xs ++ ys)
IsListed-without ks xs ys id m l = record {
  distinct = (AreDistinct-front xs ys id l.distinct).1;
  distinct_keys = AreDistinct-without id ks l.distinct_keys;
  size =
      let a = length-without id ks l.distinct_keys m in
      let b = length-middle xs ys id in let c = l.size in omega arith;
  members = λ j there.
      let (was, ne) = Memᴰ-without id j ks there in
      elim (Memᴰ-middle xs ys id j (l.members j was)) [ inl e ↦ absurd (ne (sym e)) | inr m' ↦ m' ];
}

-- A new element.
pub IsListed-new :
    (ks xs : List String) (id : String)
    → All (λ (x : String). id ≢ x) ks
    → All (λ (x : String). id ≢ x) xs
    → IsListed ks xs
    → IsListed (ks ++ id ∷ []) (id ∷ xs)
IsListed-new ks xs id new away l = record {
  distinct = (away, l.distinct);
  distinct_keys = AreDistinct-join ks (id ∷ []) l.distinct_keys (tt, tt) (apart ks new);
  size = let a = length-append ks (id ∷ []) in let b = l.size in omega arith;
  members = λ j m. last ks j l.members m;
}
  where
    apart : (zs : List String) → All (λ (z : String). id ≢ z) zs → AreApart zs (id ∷ [])
    apart [] k = tt
    apart (z ∷ zs) (k, ks) = (((λ e. k (sym e)), tt), apart zs ks)

    last :
        (zs : List String) (j : String)
        → ((i : String) → Memᴰ i zs → Memᴰ i xs)
        → Memᴰ j (zs ++ id ∷ [])
        → Memᴰ j (id ∷ xs)
    last [] j f (Memᴰ.head e) = Memᴰ.head e
    last [] j f (Memᴰ.tail m) = elim m [ ]
    last (z ∷ zs) j f (Memᴰ.head e) = Memᴰ.tail (f j (Memᴰ.head e))
    last (z ∷ zs) j f (Memᴰ.tail m) = last zs j (λ i n. f i (Memᴰ.tail n)) m
