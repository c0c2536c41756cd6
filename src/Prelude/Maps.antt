-- ===== src/Prelude/Maps.antt =====
-- Go's maps with string keys. The program's results do not depend on the order of the entries
-- except where a loop ranges over a map, and there the order is an argument.
use Prim.Native.String.{String}
use text.Mathlib.Text.{◌==◌}
use text.Mathlib.TextEquality.{eq_iff}
use mathlib.Core.Path.{◌≡◌, refl}
use mathlib.Core.Logic.{◌≢◌}
use mathlib.Core.Option.{Option, none, some}
use mathlib.Core.List.{List, [], ◌∷◌, map}
use native.Mathlib.Omega.{arith}
use nsw.Prelude.Tests.{if◌then◌else◌}

abbrev pub Map {ℓ} : Type ℓ → Type ℓ
Map V = List (String × V)

module _ {ℓ} {V : Type ℓ} where
  -- `v, ok := m[k]`
  unfoldable pub lookup : String → Map V → Option V
  lookup key [] = none
  lookup key ((other, value) ∷ rest) = if other == key then some value else lookup key rest

  -- `m[k] = v`
  unfoldable pub insert : String → V → Map V → Map V
  insert key value [] = (key, value) ∷ []
  insert key value ((other, held) ∷ rest) =
      if other == key then (key, value) ∷ rest else (other, held) ∷ insert key value rest

  -- `delete(m, k)`
  unfoldable pub delete : String → Map V → Map V
  delete key [] = []
  delete key ((other, held) ∷ rest) =
      let less = delete key rest in if other == key then less else (other, held) ∷ less

  unfoldable pub keys : Map V → List String
  keys = map (λ e. e.0)

  pub lookup-insert :
      (key other : String) (value : V) (rest : Map V)
      → lookup other (insert key value rest)
        ≡ (if key == other then some value else lookup other rest)
  unfolding lookup insert
  lookup-insert key other value [] = refl
  lookup-insert key other value ((third, held) ∷ rest) = ground (
    arith,
    eq_iff key other,
    eq_iff third key,
    eq_iff third other,
    lookup-insert key other value rest,
  )

  pub lookup-insert_self :
      (key : String) (value : V) (rest : Map V) → lookup key (insert key value rest) ≡ some value
  lookup-insert_self key value rest =
      ground (arith, lookup-insert key key value rest, eq_iff key key)

  pub lookup-insert_ne :
      (key other : String) (value : V) (rest : Map V)
      → key ≢ other
      → lookup other (insert key value rest) ≡ lookup other rest
  lookup-insert_ne key other value rest h =
      ground (arith, lookup-insert key other value rest, eq_iff key other)

  pub lookup-delete :
      (key other : String) (rest : Map V)
      → lookup other (delete key rest) ≡ (if key == other then none else lookup other rest)
  unfolding lookup delete
  lookup-delete key other [] = ground arith
  lookup-delete key other ((third, held) ∷ rest) =
      ground (
        arith,
        eq_iff key other,
        eq_iff third key,
        eq_iff third other,
        lookup-delete key other rest,
      )
