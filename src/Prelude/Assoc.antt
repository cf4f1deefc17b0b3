-- ===== src/Prelude/Assoc.antt =====
-- Go's `map[string]V` as an association list. A range over a map visits its entries in the order
-- of the list: every order is some list.
use Prim.Native.String.{String}
use mathlib.Core.Path.{◌≡◌}
use mathlib.Core.Option.{Option, none, some}
use mathlib.Core.List.{List, [], ◌∷◌}
use native.Mathlib.Omega.{arith}
use text.Mathlib.TextEquality.{eq_iff}
use ceph_provider.Prelude.Tests.{str_eq, if◌then◌else◌}

abbrev pub Map {ℓ} : Type ℓ → Type ℓ
Map E = List (String × E)

module _ {ℓ} {E : Type ℓ} where
  -- m[key] = value
  unfoldable pub insert : String → E → Map E → Map E
  insert key value [] = (key, value) ∷ []
  insert key value ((other, old) ∷ rest) =
      if str_eq other key then (key, value) ∷ rest else (other, old) ∷ insert key value rest

  -- m[key], none where the key is missing
  unfoldable pub lookup : String → Map E → Option E
  lookup key [] = none
  lookup key ((other, value) ∷ rest) = if str_eq other key then some value else lookup key rest

  pub lookup-insert :
      (key other : String) (value : E) (entries : Map E)
      → lookup other (insert key value entries)
        ≡ (if str_eq key other then some value else lookup other entries)
  unfolding lookup insert
  lookup-insert key other value [] = ground (arith, eq_iff key other, eq_iff other key)
  lookup-insert key other value ((third, old) ∷ rest) = ground (
    arith,
    eq_iff key other,
    eq_iff other key,
    eq_iff third other,
    eq_iff third key,
    lookup-insert key other value rest,
  )

  -- delete(m, key)
  unfoldable pub remove : String → Map E → Map E
  remove key [] = []
  remove key ((other, value) ∷ entries) =
      let rest = remove key entries in if str_eq other key then rest else (other, value) ∷ rest

  pub lookup-remove :
      (key other : String) (entries : Map E)
      → lookup other (remove key entries)
        ≡ (if str_eq key other then none else lookup other entries)
  unfolding lookup remove
  lookup-remove key other [] = ground arith
  lookup-remove key other ((third, value) ∷ rest) =
      ground (
        arith,
        lookup-remove key other rest,
        eq_iff third key,
        eq_iff third other,
        eq_iff key other,
      )
