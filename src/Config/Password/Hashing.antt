-- ===== src/Config/Password/Hashing.antt =====
-- internal/config/password.go: hashing a stored password.
use wakehub.Base.{
  String, Bool, true, false, ok, none, ◌≡◌, ◌≢◌, ◌⊎◌, inl, inr, Bool-cases, eq_iff, ◌==◌, arith,
  subst,
}
use wakehub.Text.{trim_space, has_prefix}
use wakehub.Text.Laws.{trim_space_idem}
use wakehub.Config.Password.{
  Bcrypt, is_bcrypt_hash, hash_password, check_password, ensure_password_hashed,
}
use wakehub.Config.Password.Bytes.{subtle_constant_equal_iff}

-- What golang.org/x/crypto/bcrypt documents: a hash begins with its version, has no white space
-- around it, and compares to the password that it was made from.
pub record IsSound (crypt : Bcrypt) : Type 0 where
  pub versioned : (p h : String) → crypt.generate p ≡ ok h → is_bcrypt_hash h ≡ true
  pub trimmed : (p h : String) → crypt.generate p ≡ ok h → trim_space h ≡ h
  pub verifies : (p h : String) → crypt.generate p ≡ ok h → crypt.compare h p ≡ true

pub is_bcrypt_hash-ne-empty : (h : String) → is_bcrypt_hash h ≡ true → h ≢ ""
unfolding is_bcrypt_hash trim_space has_prefix
is_bcrypt_hash-ne-empty h v e = cc (subst (λ x. is_bcrypt_hash x ≡ true) e v)

-- A stored plain text admits itself alone.
check_password_plain :
    (crypt : Bcrypt) (stored plain : String)
    → is_bcrypt_hash (trim_space stored) ≡ false
    → check_password crypt stored plain ≡ true
    → trim_space stored ≡ plain
unfolding check_password
check_password_plain crypt stored plain n h =
    (subtle_constant_equal_iff (trim_space stored) plain).0 (ground arith)

pub is_bcrypt_hash-trim_space : (s : String) → is_bcrypt_hash (trim_space s) ≡ is_bcrypt_hash s
unfolding is_bcrypt_hash
is_bcrypt_hash-trim_space s = rw (trim_space_idem s)

module _ (crypt : Bcrypt) (sound : IsSound crypt) where
  -- For a bcrypt as documented, a hash is accepted for the password that it was made from.
  pub check_password-hash_password :
      (p h : String) → hash_password crypt p ≡ ok h → check_password crypt h p ≡ true
  unfolding hash_password check_password
  check_password-hash_password p h e =
      let v = sound.versioned p h e in
      rw (sound.trimmed p h e)
        (ground (arith, v, sound.verifies p h e, is_bcrypt_hash-ne-empty h v, eq_iff h ""))

  -- For a bcrypt as documented: where EnsurePasswordHashed succeeds it leaves a blank text or a
  -- hash, and whoever could log in by the stored text still can.
  pub ensure_password_hashed-keeps :
      (stored new plain : String) (changed : Bool)
      → ensure_password_hashed crypt stored ≡ (new, changed, none)
      → ((trim_space new ≡ "") ⊎ (is_bcrypt_hash new ≡ true))
        × ((check_password crypt stored plain ≡ false) ⊎ (check_password crypt new plain ≡ true))
  unfolding ensure_password_hashed
  ensure_password_hashed-keeps stored new plain changed e =
      elim (Bool-cases (is_bcrypt_hash (trim_space stored))) [
        | inl old ↦ ground (arith, eq_iff (trim_space stored) "", is_bcrypt_hash-trim_space stored)
        | inr legacy ↦ elim (Bool-cases (trim_space stored == "")) [
          | inl blank ↦ ground (arith, eq_iff (trim_space stored) "")
          | inr filled ↦
              let made : hash_password crypt (trim_space stored) ≡ ok new = ground arith in
              (
                inr (sound.versioned (trim_space stored) new (unfold hash_password in made)),
                elim (Bool-cases (check_password crypt stored plain)) [
                  | inl h ↦ inr (
                      subst (λ p. check_password crypt new p ≡ true)
                        (check_password_plain crypt stored plain legacy h)
                        (check_password-hash_password _ new made))
                  | inr refused ↦ inl refused
                ],
              )
        ]
      ]
