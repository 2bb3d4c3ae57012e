-- ===== src/Base/Int.antt =====
-- Signed integers, for the fields that the source declares `int`.
use Prim.Native.Nat.{ℕ, ◌≤◌}
use mathlib.Core.Bool.{Bool, true, false}
use wakehub.Base.Tests.{leb, ltb}

-- `negsuc n` is -(n + 1).
pub data ℤ : Type 0 where
  pos : ℕ → ℤ
  negsuc : ℕ → ℤ

-- a ≤ b
abbrev pub leb_ℤ : ℤ → ℤ → Bool
leb_ℤ (pos a) (pos b) = leb a b
leb_ℤ (pos a) (negsuc b) = false
leb_ℤ (negsuc a) (pos b) = true
leb_ℤ (negsuc a) (negsuc b) = leb b a

-- a < b
abbrev pub ltb_ℤ : ℤ → ℤ → Bool
ltb_ℤ (pos a) (pos b) = ltb a b
ltb_ℤ (pos a) (negsuc b) = false
ltb_ℤ (negsuc a) (pos b) = true
ltb_ℤ (negsuc a) (negsuc b) = ltb b a

-- The integer lies between two numbers.
abbrev pub IsBetween : ℕ → ℕ → ℤ → Type 0
IsBetween lo hi (pos n) = (lo ≤ n) × (n ≤ hi)
IsBetween lo hi (negsuc n) = ⊥

abbrev pub IsAtLeast : ℕ → ℤ → Type 0
IsAtLeast lo (pos n) = lo ≤ n
IsAtLeast lo (negsuc n) = ⊥
