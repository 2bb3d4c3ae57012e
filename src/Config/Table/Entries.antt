-- ===== src/Config/Table/Entries.antt =====
-- The keys of a Go map, in the words that tables use.
use wakehub.Base.{
  String, List, [], ◌∷◌, ◌≡◌, refl, false, none, ◌==◌, eq_iff, arith, Bool-cases, inl, inr, subst,
  lookup, insert,
}
use wakehub.Config.Table.{IsFresh, HasUniqueIds}

abbrev pub entry_key : {V : Type 0} → String × V → String
entry_key e = e.0

module _ {V : Type 0} where
  pub IsFresh-insert :
      (key at : String) (value : V) (table : List (String × V))
      → IsFresh entry_key at table
      → (key == at) ≡ false
      → IsFresh entry_key at (insert key value table)
  unfolding insert
  IsFresh-insert key at value [] h n = (n, tt)
  IsFresh-insert key at value (e ∷ table) h n =
      ground (arith, IsFresh-insert key at value table h.1 n)

  pub HasUniqueIds-insert :
      (key : String) (value : V) (table : List (String × V))
      → HasUniqueIds entry_key table
      → HasUniqueIds entry_key (insert key value table)
  unfolding insert
  HasUniqueIds-insert key value [] h = (tt, tt)
  HasUniqueIds-insert key value (e ∷ table) h = elim (Bool-cases (e.0 == key)) [
    | inl hit ↦
        rw (hit, insert) (subst (λ k. IsFresh entry_key k table) ((eq_iff e.0 key).0 hit) h.0, h.1)
    | inr miss ↦
        rw (miss, insert)
          (
            IsFresh-insert key e.0 value table h.0 (ground (arith, eq_iff e.0 key, eq_iff key e.0)),
            HasUniqueIds-insert key value table h.1,
          )
  ]

  pub lookup_of_IsFresh :
      (at : String) (table : List (String × V))
      → IsFresh entry_key at table
      → lookup at table ≡ none
  unfolding lookup
  lookup_of_IsFresh at [] h = refl
  lookup_of_IsFresh at (e ∷ table) h = ground (arith, lookup_of_IsFresh at table h.1)
