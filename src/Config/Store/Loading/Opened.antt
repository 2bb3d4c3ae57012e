-- ===== src/Config/Store/Loading/Opened.antt =====
-- internal/config/store.go, Open: the password that a store starts with.
use wakehub.Base.{
  String, Bool, true, false, ok, err, ◌≡◌, ◌≢◌, refl, sym, ap, ◌==◌, subst, ◌∙◌, ◌⊎◌, inl, inr,
  arith, eq_iff, Bool-cases,
}
use wakehub.Text.{trim_space}
use wakehub.Config.{Settings, File, default_auth_password}
use wakehub.Config.Password.{Bcrypt, hash_password, is_bcrypt_hash, ensure_password_hashed}
use wakehub.Config.Password.Hashing.{IsSound, is_bcrypt_hash-trim_space, is_bcrypt_hash-ne-empty}
use wakehub.Config.Normalize.{default_password_hash, normalize_settings, normalize}
use wakehub.Config.Store.{Content, empty, malformed, json, Store, Env, save_locked}
use wakehub.Config.Store.Loading.{
  Reading, absent, unreadable, holds, default_file, enable_basic_auth, parse, migrate, open_store,
}
use wakehub.Config.Store.Loading.Migration.{
  IsMigrated, result_cases, admin_trimmed, open_store-IsMigrated,
}

admin_same : trim_space "admin" ≡ "admin"
unfolding trim_space
admin_same = refl

-- The password is no blank, and it is a hash where bcrypt makes one of it.
abbrev pub HasPassword : Bcrypt → String → Type 0
HasPassword crypt pw =
    (trim_space pw ≢ "")
    × ((is_bcrypt_hash pw ≡ true) ⊎ ((e : String) × (hash_password crypt (trim_space pw) ≡ err e)))

hash-HasPassword :
    (crypt : Bcrypt) (p h : String)
    → IsSound crypt
    → hash_password crypt p ≡ ok h
    → HasPassword crypt h
unfolding hash_password
hash-HasPassword crypt p h sound made =
    let versioned = sound.versioned p h made in
    (
      subst (λ t. t ≢ "") (sym (sound.trimmed p h made)) (is_bcrypt_hash-ne-empty h versioned),
      inl versioned,
    )

default_password_hash-HasPassword :
    (crypt : Bcrypt) → IsSound crypt → HasPassword crypt (default_password_hash crypt)
unfolding default_password_hash
default_password_hash-HasPassword crypt sound =
    elim (result_cases (hash_password crypt default_auth_password)) [
      | inr (h, made) ↦
          rw (default_password_hash, made)
            (hash-HasPassword crypt default_auth_password h sound made)
      | inl (e, failed) ↦
          rw (default_password_hash, failed)
            (admin_trimmed, inr (e, ap (hash_password crypt) admin_same ∙ failed))
    ]

ensure_password_hashed-HasPassword :
    (crypt : Bcrypt) (pw : String)
    → IsSound crypt
    → trim_space pw ≢ ""
    → HasPassword crypt (ensure_password_hashed crypt pw).0
unfolding ensure_password_hashed
ensure_password_hashed-HasPassword crypt pw sound given =
    let filled : (trim_space pw == "") ≡ false = ground (arith, eq_iff (trim_space pw) "") in
    elim (Bool-cases (is_bcrypt_hash (trim_space pw))) [
      | inl old ↦
          rw (ensure_password_hashed, filled, old)
            (given, inl (sym (is_bcrypt_hash-trim_space pw) ∙ old))
      | inr plain ↦ elim (result_cases (hash_password crypt (trim_space pw))) [
        | inr (h, made) ↦
            rw (ensure_password_hashed, filled, plain, made)
              (hash-HasPassword crypt (trim_space pw) h sound made)
        | inl (e, failed) ↦
            rw (ensure_password_hashed, filled, plain, failed) (given, inr (e, failed))
      ]
    ]

normalize_settings-HasPassword :
    (crypt : Bcrypt) (st : Settings)
    → IsSound crypt
    → HasPassword crypt (normalize_settings crypt st).0.basic_auth_password
unfolding normalize_settings
normalize_settings-HasPassword crypt st sound =
    elim (Bool-cases (trim_space st.basic_auth_password == "")) [
      | inl blank ↦ rw (normalize_settings, blank) (default_password_hash-HasPassword crypt sound)
      | inr given ↦
          rw (normalize_settings, given)
            (ensure_password_hashed-HasPassword crypt st.basic_auth_password sound
              (ground (arith, eq_iff (trim_space st.basic_auth_password) "")))
    ]

-- Whether the server asks for the password: what the file says under its key, and yes where it has
-- no such key.
abbrev pub asks_password : Bcrypt → Reading → Bool
asks_password crypt (holds (json overwrite true)) =
    (overwrite (default_file crypt)).settings.basic_auth_enable
asks_password crypt _ = true

-- A store starts with migrated data, a password, and the question for it as the file has it.
abbrev pub IsOpened : Bcrypt → Reading → File → Type 0
IsOpened crypt r f =
    IsMigrated f
    × HasPassword crypt f.settings.basic_auth_password
    × (f.settings.basic_auth_enable ≡ asks_password crypt r)

enable-normalize_settings :
    (crypt : Bcrypt) (st : Settings)
    → (normalize_settings crypt st).0.basic_auth_enable ≡ st.basic_auth_enable
unfolding normalize_settings
enable-normalize_settings crypt st = ground arith

settings-migrate :
    (crypt : Bcrypt) (p : File × Bool)
    → (migrate crypt p).0.settings ≡ (normalize_settings crypt p.0.settings).0
unfolding migrate normalize
settings-migrate crypt (f, b) = ground arith

enable-parse :
    (crypt : Bcrypt) (content : Content) (p : File × Bool)
    → parse crypt content ≡ ok p
    → p.0.settings.basic_auth_enable ≡ asks_password crypt (holds content)
unfolding parse enable_basic_auth default_file
enable-parse crypt empty p e = ground arith
enable-parse crypt (malformed m) p e = cc
enable-parse crypt (json overwrite true) p e = ground arith
enable-parse crypt (json overwrite false) p e = ground arith

-- What Open makes of the settings of a file.
abbrev IsGuarded : Bcrypt → Reading → File → Type 0
IsGuarded crypt r f =
    HasPassword crypt f.settings.basic_auth_password
    × (f.settings.basic_auth_enable ≡ asks_password crypt r)

migrate-IsGuarded :
    (crypt : Bcrypt) (content : Content) (p : File × Bool)
    → IsSound crypt
    → parse crypt content ≡ ok p
    → IsGuarded crypt (holds content) (migrate crypt p).0
migrate-IsGuarded crypt content p sound good =
    let same = settings-migrate crypt p in
    (
      subst (λ st. HasPassword crypt st.basic_auth_password) (sym same)
          (normalize_settings-HasPassword crypt p.0.settings sound),
      ap (λ st. st.basic_auth_enable) same
          ∙ enable-normalize_settings crypt p.0.settings
          ∙ enable-parse crypt content p good,
    )

default_file-IsGuarded :
    (crypt : Bcrypt) → IsSound crypt → IsGuarded crypt absent (default_file crypt)
unfolding default_file
default_file-IsGuarded crypt sound = (default_password_hash-HasPassword crypt sound, refl)

open_store-IsGuarded :
    (crypt : Bcrypt) (env : Env) (r : Reading) (s : Store)
    → IsSound crypt
    → open_store crypt env r ≡ ok s
    → IsGuarded crypt r s.file
unfolding open_store save_locked
open_store-IsGuarded crypt env absent s sound e =
    let same : default_file crypt ≡ s.file = ground arith in
    subst (IsGuarded crypt absent) same (default_file-IsGuarded crypt sound)
open_store-IsGuarded crypt env (unreadable m) s sound e = cc
open_store-IsGuarded crypt env (holds content) s sound e =
    elim (result_cases (parse crypt content)) [
      | inl (m, bad) ↦ ground arith
      | inr (p, good) ↦
          let same : (migrate crypt p).0 ≡ s.file = ground arith in
          subst (IsGuarded crypt (holds content)) same
            (migrate-IsGuarded crypt content p sound good)
    ]

-- Whatever file Open accepts, the store starts with an address and a path that are not empty, a user
-- and a password that are not blank, a password that is a hash wherever bcrypt makes one of it, the
-- question for the password as the file has it, and yes where the file does not say, every device
-- and schedule normalised, and the current version or a later one. The library bcrypt is as
-- documented.
pub open_store-IsOpened :
    (crypt : Bcrypt) (env : Env) (r : Reading) (s : Store)
    → IsSound crypt
    → open_store crypt env r ≡ ok s
    → IsOpened crypt r s.file
open_store-IsOpened crypt env r s sound e =
    let (password, asked) = open_store-IsGuarded crypt env r s sound e in
    (open_store-IsMigrated crypt env r s e, password, asked)
