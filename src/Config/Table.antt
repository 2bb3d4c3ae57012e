-- ===== src/Config/Table.antt =====
-- The loops over a slice of entries with an id, which store.go writes out for devices, groups and
-- schedules.
pub mod Laws
pub mod Entries
use wakehub.Base.{String, List, [], ◌∷◌, ◌++◌, ◌≡◌, false, Option, none, some, if◌then◌else◌, ◌==◌}

module _ {A : Type 0} (key : A → String) where
  -- The first entry with this id.
  unfoldable pub find : String → List A → Option A
  find id [] = none
  find id (x ∷ xs) = if key x == id then some x else find id xs

  -- The entry written over the first one with its id.
  unfoldable pub replace : A → List A → List A
  replace new [] = []
  replace new (x ∷ xs) = if key x == key new then new ∷ xs else x ∷ replace new xs

  -- All entries but those with this id.
  unfoldable pub remove : String → List A → List A
  remove id [] = []
  remove id (x ∷ xs) = let rest = remove id xs in if key x == id then rest else x ∷ rest

  -- An id is no entry's, and no two entries share one.
  abbrev pub IsFresh : String → List A → Type 0
  IsFresh id [] = Unit {0}
  IsFresh id (x ∷ xs) = ((key x == id) ≡ false) × IsFresh id xs

  abbrev pub HasUniqueIds : List A → Type 0
  HasUniqueIds [] = Unit {0}
  HasUniqueIds (x ∷ xs) = IsFresh (key x) xs × HasUniqueIds xs

-- The entry that an upsert overwrites: none where the id is empty.
abbrev pub existing : {A : Type 0} → (A → String) → String → List A → Option A
existing key id xs = if id == "" then none else find key id xs

-- The table that an upsert leaves, by the entry that it overwrites.
unfoldable pub upserted : {A : Type 0} → (A → String) → Option A → A → List A → List A
upserted key none y xs = xs ++ y ∷ []
upserted key (some old) y xs = replace key y xs

abbrev pub id_or : String → String → String
id_or drawn id = if id == "" then drawn else id
