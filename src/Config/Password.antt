-- ===== src/Config/Password.antt =====
-- internal/config/password.go. bcrypt is the parameter `Bcrypt`: `generate` is
-- GenerateFromPassword for the salt that it draws, `compare` says whether CompareHashAndPassword
-- returns nil.
pub mod Bytes
pub mod Hashing
use Prim.Native.Char.{Char, code}
use Prim.Native.Nat.{bit_or, bit_xor}
use Prim.Native.String
use wakehub.Base.{
  ℕ, zero, suc, ◌+◌, ◌*◌, ◌/◌, ◌%◌, String, List, [], ◌∷◌, ◌++◌, Bool, true, false, ◌||◌, not,
  Result, ok, err, ltb, nat_eq, length, if◌then◌else◌, Option, none, some, ◌==◌,
}
use wakehub.Text.{trim_space, has_prefix}
use wakehub.Config.{default_auth_password}

pub record Bcrypt : Type 0 where
  pub generate : String → Result String
  pub compare : String → String → Bool

unfoldable pub is_bcrypt_hash : String → Bool
is_bcrypt_hash s =
    let t = trim_space s in has_prefix t "$2a$" || has_prefix t "$2b$" || has_prefix t "$2y$"

-- The bytes of a character in UTF-8.
unfoldable pub utf8 : ℕ → List ℕ
utf8 n =
    if ltb n 0x80
    then n ∷ []
    else if ltb n 0x800
    then (0xc0 + n / 64) ∷ (0x80 + n % 64) ∷ []
    else if ltb n 0x10000
    then (0xe0 + n / 4096) ∷ (0x80 + n / 64 % 64) ∷ (0x80 + n % 64) ∷ []
    else (0xf0 + n / 262144) ∷ (0x80 + n / 4096 % 64) ∷ (0x80 + n / 64 % 64) ∷ (0x80 + n % 64) ∷ []

-- []byte(s)
unfoldable pub bytes : String → List ℕ
unfolding utf8
bytes String.[] = []
bytes (String.◌∷◌ c s) = utf8 (code c) ++ bytes s

-- for i := 0; i < len(a); i++ { v |= a[i] ^ b[i] }, for lists of one length
unfoldable pub collect_differences : ℕ → List ℕ → List ℕ → ℕ
collect_differences v [] bs = v
collect_differences v (a ∷ rest) [] = v
collect_differences v (a ∷ rest) (b ∷ bs) = collect_differences (bit_or v (bit_xor a b)) rest bs

unfoldable pub subtle_constant_equal : String → String → Bool
subtle_constant_equal a b =
    if nat_eq (length (bytes a)) (length (bytes b))
    then nat_eq (collect_differences 0 (bytes a) (bytes b)) 0
    else false

unfoldable pub hash_password : Bcrypt → String → Result String
hash_password crypt plain = crypt.generate plain

unfoldable pub check_password : Bcrypt → String → String → Bool
check_password crypt stored plain =
    let kept = trim_space stored in
    if kept == ""
    then false
    else if is_bcrypt_hash kept
    then crypt.compare kept plain
    else subtle_constant_equal kept plain

-- What EnsurePasswordHashed leaves in `*stored`, whether it changed it, and its error.
unfoldable pub ensure_password_hashed : Bcrypt → String → String × Bool × Option String
ensure_password_hashed crypt stored =
    let pw = trim_space stored in
    if pw == ""
    then (stored, false, none)
    else if is_bcrypt_hash pw
    then (stored, false, none)
    else elim (hash_password crypt pw) [ ok h ↦ (h, true, none) | err e ↦ (stored, false, some e) ]

unfoldable pub is_default_password : Bcrypt → String → Bool
is_default_password crypt stored = check_password crypt stored default_auth_password
