-- ===== src/Audit/History.antt =====
-- internal/audit/log.go: the ring and the list of the newest entries that it stands for.
use native.Mathlib.Nat.{mod-eq_of_lt}
use native.Mathlib.Numerals.{add-one}
use wakehub.Base.{
  drop, ap₂, subst, ltb→lt, ltb→ge, Bool-cases, inl, inr, ℕ, suc, zero, ◌+◌, ◌-◌, ◌*◌, ◌%◌, ◌<◌,
  ◌≤◌, ◌≡◌, ◌≢◌, refl, sym, ap, ◌∙◌, List, [], ◌∷◌, ltb, nat_eq, if◌then◌else◌, get_or, set, take,
  length, length-set, length-replicate, length-take, arith,
}
use wakehub.Audit.{Entry, zero_entry, Ring, new, stamped, add, index, collect, list}

mod_wrap : (a m : ℕ) → a < m → (a + m) % m ≡ a
mod_wrap a m h = grind arith

mod_wrap_twice : (a m : ℕ) → a < m → (a + m + m) % m ≡ a
mod_wrap_twice a m h = grind arith

index_lem :
    (n m i : ℕ)
    → n < m
    → i < m
    → (n + m * 2 - 1 - i) % m ≡ (if ltb i n then n - 1 - i else n + m - 1 - i)
index_lem n m i h k = elim (Bool-cases (ltb i n)) [
  | inl back ↦
      let lt = ltb→lt i n back in
      let e : n + m * 2 - 1 - i ≡ n - 1 - i + m + m = omega arith in
      rw (back, e) (mod_wrap_twice (n - 1 - i) m (omega arith))
  | inr round ↦
      let le = ltb→ge i n round in
      let e : n + m * 2 - 1 - i ≡ n + m - 1 - i + m = omega arith in
      rw (round, e) (mod_wrap (n + m - 1 - i) m (omega arith))
]

next_lem : (n m : ℕ) → n < m → (n + 1) % m ≡ (if ltb (n + 1) m then n + 1 else 0)
next_lem n m h = elim (Bool-cases (ltb (n + 1) m)) [
  | inl more ↦ rw more (mod-eq_of_lt (ltb→lt (n + 1) m more))
  | inr last ↦
      let e : n + 1 ≡ 0 + m = omega (arith, ltb→ge (n + 1) m last) in
      rw (last, e) (mod_wrap 0 m (omega arith))
]

next-lt : (n m : ℕ) → n < m → (n + 1) % m < m
next-lt n m h = ground (arith, next_lem n m h)

-- The newest entry stands where the last one was written; the others moved back by one.
index_newest : (n m : ℕ) → n < m → ((n + 1) % m + m * 2 - 1 - 0) % m ≡ n
index_newest n m h =
    index_lem ((n + 1) % m) m 0 (next-lt n m h) (omega arith) ∙ ground (arith, next_lem n m h)

index_older :
    (n m i : ℕ)
    → n < m
    → i + 1 < m
    → ((n + 1) % m + m * 2 - 1 - suc i) % m ≡ (n + m * 2 - 1 - i) % m
index_older n m i h k =
    index_lem ((n + 1) % m) m (suc i) (next-lt n m h) (omega arith)
    ∙ ground (arith, next_lem n m h)
    ∙ sym (index_lem n m i h (omega arith))

index_ne : (n m i : ℕ) → n < m → i + 1 < m → n ≢ (n + m * 2 - 1 - i) % m
index_ne n m i h k = ground (arith, index_lem n m i h)

get_or-set_self :
    (xs : List Entry) (i : ℕ) (v d : Entry) → i < length xs → get_or (set xs i v) i d ≡ v
get_or-set_self [] i v d h = elim h [ ]
get_or-set_self (x ∷ xs) zero v d h = refl
get_or-set_self (x ∷ xs) (suc i) v d h = get_or-set_self xs i v d (omega arith)

get_or-set_ne :
    (xs : List Entry) (i j : ℕ) (v d : Entry) → i ≢ j → get_or (set xs i v) j d ≡ get_or xs j d
get_or-set_ne [] i j v d h = refl
get_or-set_ne (x ∷ xs) zero zero v d h = absurd (h refl)
get_or-set_ne (x ∷ xs) zero (suc j) v d h = refl
get_or-set_ne (x ∷ xs) (suc i) zero v d h = refl
get_or-set_ne (x ∷ xs) (suc i) (suc j) v d h = get_or-set_ne xs i j v d (λ e. h (ap suc e))

-- The ring holds the list `h`, newest first.
pub record Represents (r : Ring) (h : List Entry) : Type 0 where
  pub within : r.next < r.cap
  pub filled : length r.buf ≡ r.cap
  pub bounded : r.size ≤ r.cap
  pub sized : length h ≡ r.size
  pub holds : (i : ℕ) → i < r.size → get_or r.buf (index r i) zero_entry ≡ get_or h i zero_entry

get_or-take :
    (n i : ℕ) (xs : List Entry) → i < n → get_or (take n xs) i zero_entry ≡ get_or xs i zero_entry
get_or-take zero i xs h = elim h [ ]
get_or-take (suc n) i [] h = refl
get_or-take (suc n) zero (x ∷ xs) h = refl
get_or-take (suc n) (suc i) (x ∷ xs) h = get_or-take n i xs (omega arith)

new-Represents : (n : ℕ) → Represents (new n) []
unfolding new
new-Represents n = record {
  within = ground arith;
  filled = length-replicate _ zero_entry;
  bounded = ground arith;
  sized = refl;
  holds = λ i h. elim h [ ];
}

-- What an entry costs: the oldest one, when the ring is full.
add-holds :
    (now : ℕ) (e : Entry) (r : Ring) (h : List Entry)
    → Represents r h
    → (i : ℕ) → i < (add now e r).size
    → get_or (add now e r).buf (index (add now e r) i) zero_entry
      ≡ get_or (stamped now e ∷ h) i zero_entry
unfolding add index
add-holds now e r h v zero lt =
    rw (index_newest r.next r.cap v.within)
      (get_or-set_self r.buf r.next (stamped now e) zero_entry (omega (arith, v.filled)))
add-holds now e r h v (suc i) lt =
    let room : i + 1 < r.cap = ground arith in
    rw (index_older r.next r.cap i v.within room) (
      get_or-set_ne r.buf r.next _ (stamped now e) zero_entry
        (index_ne r.next r.cap i v.within room)
      ∙ v.holds i (ground arith))

add-Represents :
    (now : ℕ) (e : Entry) (r : Ring) (h : List Entry)
    → Represents r h
    → Represents (add now e r) (take r.cap (stamped now e ∷ h))
unfolding add
add-Represents now e r h v = record {
  within = grind (arith, next_lem r.next r.cap v.within);
  filled = length-set r.buf r.next (stamped now e) ∙ v.filled;
  bounded = ground arith;
  sized = ground (arith, length-take r.cap (stamped now e ∷ h));
  holds = λ i lt.
      add-holds now e r h v i lt ∙ sym (get_or-take r.cap i (stamped now e ∷ h) (ground arith));
}

drop-get_or :
    (xs : List Entry) (i : ℕ) → i < length xs → drop i xs ≡ get_or xs i zero_entry ∷ drop (i + 1) xs
drop-get_or [] i h = elim h [ ]
drop-get_or (x ∷ xs) zero h = refl
drop-get_or (x ∷ xs) (suc i) h = rw (drop-get_or xs i (omega arith), add-one, add-one)

collect-take :
    (r : Ring) (h : List Entry) (i count : ℕ)
    → Represents r h
    → i + count ≤ r.size
    → collect r i count ≡ take count (drop i h)
unfolding collect
collect-take r h i zero v lt = refl
collect-take r h i (suc count) v lt =
    rw (drop-get_or h i (omega (arith, v.sized)))
      (ap₂ ◌∷◌ (v.holds i (omega arith)) (collect-take r h (i + 1) count v (omega arith)))

take_long : (n : ℕ) (xs : List Entry) → length xs ≤ n → take n xs ≡ xs
take_long zero [] h = refl
take_long zero (x ∷ xs) h = absurd (omega arith)
take_long (suc n) [] h = refl
take_long (suc n) (x ∷ xs) h = ap (◌∷◌ x) (take_long n xs (omega arith))

-- A limit of 0 asks for everything.
abbrev pub limited : ℕ → List Entry → List Entry
limited limit xs = if nat_eq limit 0 then xs else take limit xs

list-limited :
    (r : Ring) (h : List Entry) (limit : ℕ) → Represents r h → list r limit ≡ limited limit h
unfolding list
list-limited r h limit v = ground (
  arith,
  collect-take r h 0 r.size v,
  collect-take r h 0 limit v,
  take_long r.size h,
  take_long limit h,
)

take-cons-take : (n : ℕ) (e : Entry) (xs : List Entry) → take n (e ∷ take n xs) ≡ take n (e ∷ xs)
take-cons-take zero e xs = refl
take-cons-take (suc n) e xs = ap (◌∷◌ e) (take-take n xs)
  where
    take-take : (m : ℕ) (ys : List Entry) → take m (take (suc m) ys) ≡ take m ys
    take-take zero ys = refl
    take-take (suc m) [] = refl
    take-take (suc m) (y ∷ ys) = ap (◌∷◌ y) (take-take m ys)

-- A log of calls of `Add`, the newest first, each with the time at which it was made.
abbrev pub add_all : Ring → List (ℕ × Entry) → Ring
add_all r [] = r
add_all r ((now, e) ∷ calls) = add now e (add_all r calls)

abbrev pub entries : List (ℕ × Entry) → List Entry
entries [] = []
entries ((now, e) ∷ calls) = stamped now e ∷ entries calls

cap-add_all : (r : Ring) (calls : List (ℕ × Entry)) → (add_all r calls).cap ≡ r.cap
unfolding add
cap-add_all r [] = refl
cap-add_all r ((now, e) ∷ calls) = cap-add_all r calls

add_all-Represents :
    (n : ℕ) (calls : List (ℕ × Entry))
    → Represents (add_all (new n) calls) (take (new n).cap (entries calls))
add_all-Represents n [] =
    subst (Represents (new n)) (sym (take_long (new n).cap [] (omega arith))) (new-Represents n)
add_all-Represents n ((now, e) ∷ calls) =
    let r = add_all (new n) calls in
    subst (Represents (add now e r))
      (ap (λ c. take c (stamped now e ∷ take (new n).cap (entries calls)))
          (cap-add_all (new n) calls)
        ∙ take-cons-take (new n).cap (stamped now e) (entries calls))
      (add-Represents now e r _ (add_all-Represents n calls))

-- Whatever was logged, `List` gives the newest entries in the order from the newest: as many as
-- the ring's capacity, or the limit if that is positive and less.
pub list-add_all :
    (n limit : ℕ) (calls : List (ℕ × Entry))
    → list (add_all (new n) calls) limit ≡ limited limit (take (new n).cap (entries calls))
list-add_all n limit calls = list-limited _ _ limit (add_all-Represents n calls)
