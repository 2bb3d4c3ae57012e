-- ===== src/Interfaces/Addresses.antt =====
-- The broadcast address of a network as its last address.
use native.Mathlib.Nat.{mul-add-div_right, mul_assoc, one-le-pow, two-pow-succ}
use wakehub.Base.{
  ℕ, suc, ◌+◌, ◌-◌, ◌*◌, ◌/◌, ◌^◌, ◌≤◌, ◌<◌, ◌≡◌, refl, ap, ◌∙◌, true, nat_eq, ltb, all_below,
  all_below_sound, if◌then◌else◌, Bool-cases, inl, inr, sym, subst, arith,
}
use wakehub.Interfaces.{Bytes4, broadcast_byte, broadcast}

-- The last number of the block of p numbers that n lies in.
abbrev pub last : ℕ → ℕ → ℕ
last n p = n / p * p + (p - 1)

-- Every byte with every mask of j zeros.
byte_table :
    all_below 9
      (λ j. all_below 256 (λ ip. nat_eq (broadcast_byte ip (256 - 2 ^ j)) (last ip (2 ^ j))))
    ≡ true
unfolding all_below
byte_table = refl

broadcast_byte-last :
    (j ip : ℕ) → j < 9 → ip < 256 → broadcast_byte ip (256 - 2 ^ j) ≡ last ip (2 ^ j)
broadcast_byte-last j ip zeros byte =
    let row = all_below_sound 9 _ byte_table j zeros in
    let cell = all_below_sound 256 _ row ip byte in ground arith

-- A byte behind the number, where the block has whole bytes' numbers.
last_behind : (p n lo : ℕ) → 0 < p → lo < 256 → last (n * 256 + lo) (256 * p) ≡ last n p * 256 + 255
last_behind p n lo pos byte = grind arith

-- And where it lies within the byte's.
last_within : (p m n lo : ℕ) → 0 < p → last (n * (m * p) + lo) p ≡ n * (m * p) + last lo p
last_within p m n lo pos =
    let quotient : (n * (m * p) + lo) / p ≡ n * m + lo / p =
      ap (λ k. (k + lo) / p) (sym (mul_assoc n m p)) ∙ mul-add-div_right pos (n * m) lo in
    let sums : (n * m + lo / p) * p ≡ n * (m * p) + lo / p * p = grind arith in
    ap (λ q. q * p + (p - 1)) quotient ∙ ap (λ q. q + (p - 1)) sums ∙ omega arith

byte_powers : all_below 9 (λ j. nat_eq (2 ^ (8 - j) * 2 ^ j) 256) ≡ true
unfolding all_below
byte_powers = refl

-- The byte of a mask that has h zeros from the end of this byte on.
abbrev pub byte_mask : ℕ → ℕ
byte_mask h = if ltb h 8 then 256 - 2 ^ h else 0

-- The mask that leaves h bits to the hosts.
abbrev pub mask_with_hosts : ℕ → Bytes4
mask_with_hosts h = (byte_mask (h - 24), byte_mask (h - 16), byte_mask (h - 8), byte_mask h)

abbrev pub number : Bytes4 → ℕ
number (a, b, c, d) = ((a * 256 + b) * 256 + c) * 256 + d

pow_behind : (k : ℕ) → 2 ^ (k + 8) ≡ 256 * 2 ^ k
pow_behind k =
    let a = two-pow-succ k in
    let b = two-pow-succ (suc k) in
    let c = two-pow-succ (suc (suc k)) in
    let d = two-pow-succ (suc (suc (suc k))) in
    let e = two-pow-succ (k + 4) in
    let f = two-pow-succ (k + 5) in
    let g = two-pow-succ (k + 6) in let h = two-pow-succ (k + 7) in grind arith

last-own : (d : ℕ) → d < 256 → last d 256 ≡ 255
last-own d byte = omega arith

last-byte_behind :
    (n d k : ℕ)
    → d < 256
    → last (n * 256 + d) (2 ^ (k + 8)) ≡ last n (2 ^ k) * 256 + broadcast_byte d 0
last-byte_behind n d k byte =
    let full = broadcast_byte-last 8 d (omega arith) byte in
    ap (last (n * 256 + d)) (pow_behind k)
    ∙ last_behind (2 ^ k) n d (one-le-pow k 2 (omega arith)) byte
    ∙ ap (λ b. last n (2 ^ k) * 256 + b) (sym (full ∙ last-own d byte))

last-byte_within :
    (n d h : ℕ)
    → h < 8
    → d < 256
    → last (n * 256 + d) (2 ^ h) ≡ n * 256 + broadcast_byte d (256 - 2 ^ h)
last-byte_within n d h within byte =
    let here = broadcast_byte-last h d (omega arith) byte in
    let whole = all_below_sound 9 _ byte_powers h (omega arith) in
    let split = last_within (2 ^ h) (2 ^ (8 - h)) n d (one-le-pow h 2 (omega arith)) in
    let same : 2 ^ (8 - h) * 2 ^ h ≡ 256 = ground arith in
    rw here (subst (λ w. last (n * w + d) (2 ^ h) ≡ n * w + last d (2 ^ h)) same split)

last-one : (n : ℕ) → last n (2 ^ 0) ≡ n
last-one n = omega arith

last-byte :
    (n d h : ℕ)
    → d < 256
    → last (n * 256 + d) (2 ^ h) ≡ last n (2 ^ (h - 8)) * 256 + broadcast_byte d (byte_mask h)
last-byte n d h byte = elim (Bool-cases (ltb h 8)) [
  | inl within ↦
      let none_left : h - 8 ≡ 0 = ground arith in
      rw (within, none_left)
        (last-byte_within n d h (ground arith) byte
          ∙ ap (λ m. m * 256 + broadcast_byte d (256 - 2 ^ h)) (sym (last-one n)))
  | inr behind ↦
      let split : h ≡ (h - 8) + 8 = ground arith in
      rw behind (ap (λ k. last (n * 256 + d) (2 ^ k)) split ∙ last-byte_behind n d (h - 8) byte)
]

last-first : (a k : ℕ) → k ≤ 8 → a < 256 → last a (2 ^ k) ≡ broadcast_byte a (byte_mask k)
last-first a k small byte =
    let here = broadcast_byte-last k a (omega arith) byte in
    elim (Bool-cases (ltb k 8)) [
      | inl within ↦ rw within (sym here)
      | inr behind ↦
          let full = broadcast_byte-last 8 a (omega arith) byte in
          let eight : k ≡ 8 = ground arith in rw (behind, eight) (sym full)
    ]

-- The broadcast address of a network whose mask leaves h bits to the hosts is the last address of
-- the block of 2 ^ h addresses that the interface's own address lies in, for every h up to 32.
pub broadcast-last :
    (a b c d h : ℕ)
    → a < 256
    → b < 256
    → c < 256
    → d < 256
    → h ≤ 32
    → number (broadcast (a, b, c, d) (mask_with_hosts h)) ≡ last (number (a, b, c, d)) (2 ^ h)
unfolding broadcast
broadcast-last a b c d h a_byte b_byte c_byte d_byte small =
    let third = last-byte ((a * 256 + b) * 256 + c) d h d_byte in
    let second = last-byte (a * 256 + b) c (h - 8) c_byte in
    let first = last-byte a b (h - 16) b_byte in
    let top = last-first a (h - 24) (omega arith) a_byte in
    let sixteen : h - 8 - 8 ≡ h - 16 = omega arith in
    let twenty_four : h - 16 - 8 ≡ h - 24 = omega arith in
    sym (
      third
      ∙ ap (λ m. m * 256 + broadcast_byte d (byte_mask h))
          (second
            ∙ ap (λ m. m * 256 + broadcast_byte c (byte_mask (h - 8)))
                (ap (λ k. last (a * 256 + b) (2 ^ k)) sixteen
                  ∙ first
                  ∙ ap (λ m. m * 256 + broadcast_byte b (byte_mask (h - 16)))
                      (ap (λ k. last a (2 ^ k)) twenty_four ∙ top))))
