-- ===== src/Base/Maps.antt =====
-- A Go map with keys of type string, as an association list with one entry for a key. What a
-- `range` over a map visits first is not specified; here it is the entry that was made first.
use Prim.Native.String.{String}
use mathlib.Core.Path.{◌≡◌, refl}
use mathlib.Core.List.{List, [], ◌∷◌}
use mathlib.Core.Option.{Option, none, some}
use native.Mathlib.Omega.{arith}
use text.Mathlib.Text.{◌==◌}
use text.Mathlib.TextEquality.{eq_iff}
use wakehub.Base.Tests.{if◌then◌else◌}

module _ {V : Type 0} where
  unfoldable pub lookup : String → List (String × V) → Option V
  lookup key [] = none
  lookup key (entry ∷ rest) = if entry.0 == key then some entry.1 else lookup key rest

  -- m[key] = value
  unfoldable pub insert : String → V → List (String × V) → List (String × V)
  insert key value [] = (key, value) ∷ []
  insert key value (entry ∷ rest) =
      let inserted = insert key value rest in
      if entry.0 == key then (key, value) ∷ rest else entry ∷ inserted

  -- delete(m, key)
  unfoldable pub erase : String → List (String × V) → List (String × V)
  erase key [] = []
  erase key (entry ∷ rest) =
      let erased = erase key rest in if entry.0 == key then erased else entry ∷ erased

  -- An insertion changes what is found under its key alone.
  pub lookup-insert :
      (key at : String) (value : V) (table : List (String × V))
      → lookup at (insert key value table) ≡ (if key == at then some value else lookup at table)
  unfolding insert lookup
  lookup-insert key at value [] = refl
  lookup-insert key at value (entry ∷ rest) =
      let same = lookup-insert key at value rest in
      ground (arith, same, eq_iff entry.0 at, eq_iff entry.0 key, eq_iff key at)

  pub lookup-erase :
      (key at : String) (table : List (String × V))
      → lookup at (erase key table) ≡ (if key == at then none else lookup at table)
  unfolding erase lookup
  lookup-erase key at [] = ground arith
  lookup-erase key at (entry ∷ rest) =
      let same = lookup-erase key at rest in
      ground (arith, same, eq_iff entry.0 at, eq_iff entry.0 key, eq_iff key at)
