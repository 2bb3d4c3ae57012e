-- ===== src/Config/Table/Laws.antt =====
-- The ids of the entries when a table of store.go is changed.
use wakehub.Base.{
  map, Option, Option-cases, All-append, String, List, [], ◌∷◌, ◌++◌, true, false, none, some,
  if◌then◌else◌, ◌==◌, eq_iff, ◌≡◌, refl, arith, All, inl, inr, Bool-cases, is_some, subst,
}
use wakehub.Config.Table.{existing, upserted, id_or, find, replace, remove, IsFresh, HasUniqueIds}

module _ {A : Type 0} (key : A → String) where
  pub find-append :
      (id : String) (xs : List A) (y : A)
      → find key id (xs ++ y ∷ []) ≡ (
          if is_some (find key id xs) then find key id xs else if key y == id then some y else none)
  unfolding find
  find-append id [] y = refl
  find-append id (x ∷ xs) y = ground (arith, find-append id xs y)

  pub find-replace :
      (id : String) (xs : List A) (y : A)
      → find key id (replace key y xs) ≡ (
          if key y == id
          then (if is_some (find key id xs) then some y else none)
          else find key id xs)
  unfolding find replace
  find-replace id [] y = ground arith
  find-replace id (x ∷ xs) y =
      ground
        (arith, eq_iff (key x) (key y), eq_iff (key y) id, eq_iff (key x) id, find-replace id xs y)

  pub find-remove :
      (id j : String) (xs : List A)
      → find key j (remove key id xs) ≡ (if id == j then none else find key j xs)
  unfolding find remove
  find-remove id j [] = ground arith
  find-remove id j (x ∷ xs) =
      ground (arith, eq_iff (key x) id, eq_iff id j, eq_iff (key x) j, find-remove id j xs)

  pub find-append_fresh :
      (j : String) (xs : List A) (y : A)
      → find key (key y) xs ≡ none
      → find key j (xs ++ y ∷ []) ≡ (if key y == j then some y else find key j xs)
  find-append_fresh j xs y h = ground (arith, find-append j xs y, eq_iff (key y) j)

  pub find-replace_found :
      (j : String) (xs : List A) (y : A)
      → is_some (find key (key y) xs) ≡ true
      → find key j (replace key y xs) ≡ (if key y == j then some y else find key j xs)
  find-replace_found j xs y h = ground (arith, find-replace j xs y, eq_iff (key y) j)

  -- What is found has the id that was asked for.
  pub key-find : (id : String) (xs : List A) (x : A) → find key id xs ≡ some x → key x ≡ id
  unfolding find
  key-find id [] x h = cc
  key-find id (y ∷ xs) x h = ground (arith, key-find id xs x, eq_iff (key y) id)

  pub IsFresh-find : (id : String) (xs : List A) → find key id xs ≡ none → IsFresh key id xs
  unfolding find
  IsFresh-find id [] h = tt
  IsFresh-find id (x ∷ xs) h = ground (arith, IsFresh-find id xs)

  pub find_of_IsFresh : (id : String) (xs : List A) → IsFresh key id xs → find key id xs ≡ none
  unfolding find
  find_of_IsFresh id [] h = refl
  find_of_IsFresh id (x ∷ xs) h = ground (arith, find_of_IsFresh id xs)

  IsFresh-append :
      (id : String) (xs : List A) (y : A)
      → IsFresh key id xs
      → (key y == id) ≡ false
      → IsFresh key id (xs ++ y ∷ [])
  IsFresh-append id [] y h e = (e, tt)
  IsFresh-append id (x ∷ xs) y h e = (h.0, IsFresh-append id xs y h.1 e)

  pub HasUniqueIds-append :
      (xs : List A) (y : A)
      → HasUniqueIds key xs
      → IsFresh key (key y) xs
      → HasUniqueIds key (xs ++ y ∷ [])
  HasUniqueIds-append [] y h f = (tt, tt)
  HasUniqueIds-append (x ∷ xs) y h f = (
    IsFresh-append (key x) xs y h.0
        (ground (arith, f.0, eq_iff (key x) (key y), eq_iff (key y) (key x))),
    HasUniqueIds-append xs y h.1 f.1,
  )

  IsFresh-replace :
      (id : String) (xs : List A) (y : A) → IsFresh key id xs → IsFresh key id (replace key y xs)
  unfolding replace
  IsFresh-replace id [] y h = tt
  IsFresh-replace id (x ∷ xs) y h = ground (
    arith,
    IsFresh-replace id xs y h.1,
    eq_iff (key x) (key y),
    eq_iff (key y) id,
    eq_iff (key x) id,
  )

  pub HasUniqueIds-replace :
      (xs : List A) (y : A) → HasUniqueIds key xs → HasUniqueIds key (replace key y xs)
  unfolding replace
  HasUniqueIds-replace [] y h = tt
  HasUniqueIds-replace (x ∷ xs) y h = elim (Bool-cases (key x == key y)) [
    | inl hit ↦ rw (hit, replace) (subst (λ k. IsFresh key k xs) ((eq_iff _ _).0 hit) h.0, h.1)
    | inr miss ↦
        rw (miss, replace) (IsFresh-replace (key x) xs y h.0, HasUniqueIds-replace xs y h.1)
  ]

  IsFresh-remove :
      (id j : String) (xs : List A) → IsFresh key j xs → IsFresh key j (remove key id xs)
  unfolding remove
  IsFresh-remove id j [] h = tt
  IsFresh-remove id j (x ∷ xs) h = ground (arith, IsFresh-remove id j xs h.1)

  pub HasUniqueIds-remove :
      (id : String) (xs : List A) → HasUniqueIds key xs → HasUniqueIds key (remove key id xs)
  unfolding remove
  HasUniqueIds-remove id [] h = tt
  HasUniqueIds-remove id (x ∷ xs) h =
      ground (arith, HasUniqueIds-remove id xs h.1, IsFresh-remove id (key x) xs h.0)

  -- Removing an id that no entry has changes nothing.
  pub remove_of_find : (id : String) (xs : List A) → find key id xs ≡ none → remove key id xs ≡ xs
  unfolding find remove
  remove_of_find id [] h = refl
  remove_of_find id (x ∷ xs) h = ground (arith, remove_of_find id xs)

  module _ (P : A → Type 0) where
    pub All-replace : (xs : List A) (y : A) → P y → All P xs → All P (replace key y xs)
    unfolding replace
    All-replace [] y p h = tt
    All-replace (x ∷ xs) y p h = ground (arith, All-replace xs y p h.1)

    pub All-remove : (id : String) (xs : List A) → All P xs → All P (remove key id xs)
    unfolding remove
    All-remove id [] h = tt
    All-remove id (x ∷ xs) h = ground (arith, All-remove id xs h.1)

    pub All-find : (id : String) (xs : List A) (x : A) → find key id xs ≡ some x → All P xs → P x
    unfolding find
    All-find id [] x e h = cc
    All-find id (y ∷ xs) x e h = elim (Bool-cases (key y == id)) [
      | inl hit ↦ subst P (ground arith) h.0
      | inr miss ↦ All-find id xs x (ground arith) h.1
    ]

-- An upsert of an entry whose id is the given one, or a drawn one that is new.
module _ {A : Type 0} (key : A → String) (drawn id : String) (xs : List A) (y : A)
    (named : key y ≡ id_or drawn id) (new : id ≡ "" → find key drawn xs ≡ none) where
  find-named : existing key id xs ≡ none → find key (key y) xs ≡ none
  find-named h = rw named (ground (arith, eq_iff id ""))

  find-existing : (old : A) → existing key id xs ≡ some old → is_some (find key (key y) xs) ≡ true
  find-existing old h = rw named (ground (arith, eq_iff id ""))

  pub find-upserted :
      (j : String)
      → find key j (upserted key (existing key id xs) y xs)
        ≡ (if key y == j then some y else find key j xs)
  unfolding upserted
  find-upserted j = elim (Option-cases (existing key id xs)) [
    | inl e ↦ rw (e, upserted) (find-append_fresh key j xs y (find-named e))
    | inr (old, e) ↦ rw (e, upserted) (find-replace_found key j xs y (find-existing old e))
  ]

  pub HasUniqueIds-upserted :
      HasUniqueIds key xs → HasUniqueIds key (upserted key (existing key id xs) y xs)
  unfolding upserted
  HasUniqueIds-upserted h = elim (Option-cases (existing key id xs)) [
    | inl e ↦
        rw (e, upserted)
          (HasUniqueIds-append key xs y h (IsFresh-find key (key y) xs (find-named e)))
    | inr (old, e) ↦ rw (e, upserted) (HasUniqueIds-replace key xs y h)
  ]

pub All-upserted :
    {A : Type 0} (key : A → String) (P : A → Type 0) (o : Option A) (y : A) (xs : List A)
    → P y
    → All P xs
    → All P (upserted key o y xs)
unfolding upserted
All-upserted key P none y xs p h = All-append P xs (y ∷ []) h (p, tt)
All-upserted key P (some old) y xs p h = All-replace key P xs y p h

-- A change of entries that keeps their ids keeps ids unique.
module _ {A : Type 0} (key : A → String) (f : A → A) (keeps : (x : A) → key (f x) ≡ key x) where
  IsFresh-map : (id : String) (xs : List A) → IsFresh key id xs → IsFresh key id (map f xs)
  IsFresh-map id [] h = tt
  IsFresh-map id (x ∷ xs) h = (rw (keeps x) h.0, IsFresh-map id xs h.1)

  pub HasUniqueIds-map : (xs : List A) → HasUniqueIds key xs → HasUniqueIds key (map f xs)
  HasUniqueIds-map [] h = tt
  HasUniqueIds-map (x ∷ xs) h = (rw (keeps x) (IsFresh-map (key x) xs h.0), HasUniqueIds-map xs h.1)
