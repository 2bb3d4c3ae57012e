-- ===== src/Tests/Stores.antt =====
-- The store, its data and its helpers at small inputs.
use Prim.Native.String.{len}
use wakehub.Base.{
  ℕ, String, true, false, none, some, ◌≡◌, refl, ◌↔◌, ◌⊎◌, ok, eq_iff, arith, All, is_some,
  replicate, length, zero, suc, ◌<◌, length-replicate, subst,
}
use wakehub.Text.{trim_space, has_prefix}
use wakehub.Config.Normalize.{default_password_hash}
use wakehub.Config.Random.{random_token}
use wakehub.Config.Random.Bounds.{FillsSlices, decode_hex, random_token-spells}
use wakehub.Config.Password.{is_bcrypt_hash, check_password, hash_password, ensure_password_hashed}
use wakehub.Config.Password.Hashing.{IsSound, ensure_password_hashed-keeps}
use wakehub.Config.Table.{find}
use wakehub.Config.Store.{save_locked, Store, encode, get_device, upsert_device}
use wakehub.Config.Store.Lookup.{upsert_device-error_iff}
use wakehub.Config.Store.Requests.{History, start, step, IsWellFormed, put_device, serve}
use wakehub.Config.Store.Requests.Steps.{IsAtomic, serve-IsAtomic}
use wakehub.Config.Store.Requests.Shape.{History-IsWellFormed}
use wakehub.Config.Store.Loading.{open_store, absent, holds, default_file}
use wakehub.Config.Store.Loading.Opened.{IsOpened, open_store-IsOpened}
use wakehub.Config.Store.Loading.Migration.{open_store_again}
use wakehub.Tests.Samples.{crypt, env, pc, empty_store, full_store}

empty_store-IsWellFormed : IsWellFormed empty_store.file
empty_store-IsWellFormed = record {
  device_ids = tt;
  group_ids = tt;
  schedule_ids = tt;
  devices = tt;
  schedules = tt;
}

abbrev after_put : Store
after_put = (serve crypt env (put_device pc) empty_store).0

one_put : History crypt empty_store after_put
one_put = step env (put_device pc) start (λ _. unfold find in refl) refl

History-IsWellFormed_example : IsWellFormed after_put.file
History-IsWellFormed_example = History-IsWellFormed empty_store-IsWellFormed one_put

serve-IsAtomic_example :
    IsAtomic empty_store after_put (serve crypt env (put_device pc) empty_store).1
serve-IsAtomic_example = serve-IsAtomic crypt env (put_device pc) empty_store

upsert_device-error_iff_example :
    (is_some (upsert_device env pc empty_store).2 ≡ true)
    ↔ ((pc.name ≡ "") ⊎ ((pc.mac ≡ "") ⊎ (is_some env.save ≡ true)))
upsert_device-error_iff_example = upsert_device-error_iff env pc empty_store

no_device : get_device full_store "d2" ≡ none
unfolding get_device find
no_device = refl

abbrev opened_store : Store
opened_store = record {
  file = default_file crypt;
  disk = some (encode (default_file crypt));
  backup = none;
}

opened : open_store crypt env absent ≡ ok (opened_store)
unfolding open_store save_locked
opened = refl

default_hash : is_bcrypt_hash (default_file crypt).settings.basic_auth_password ≡ true
unfolding default_file is_bcrypt_hash trim_space has_prefix default_password_hash hash_password
default_hash = refl

open_store_again_example :
    open_store crypt env (holds (encode (default_file crypt)))
    ≡ ok (record {
      file = default_file crypt;
      disk = some (encode (default_file crypt));
      backup = none;
    })
open_store_again_example = open_store_again crypt env env absent (opened_store) opened default_hash

crypt-generate : (p h : String) → crypt.generate p ≡ ok h → (h ≡ "$2a$10$admin") × (p ≡ "admin")
crypt-generate p h e = ground (arith, eq_iff p "admin")

crypt-IsSound : IsSound crypt
crypt-IsSound = record {
  versioned =
      λ p h e. rw ((crypt-generate p h e).0) (unfold is_bcrypt_hash trim_space has_prefix in refl);
  trimmed = λ p h e. rw ((crypt-generate p h e).0) (unfold trim_space in refl);
  verifies = λ p h e. rw ((crypt-generate p h e).0, (crypt-generate p h e).1) refl;
}

rehashed : ensure_password_hashed crypt "admin" ≡ ("$2a$10$admin", true, none)
unfolding ensure_password_hashed is_bcrypt_hash trim_space has_prefix hash_password
rehashed = refl

open_store-IsOpened_example : IsOpened crypt absent (default_file crypt)
open_store-IsOpened_example =
    open_store-IsOpened crypt env absent (opened_store) crypt-IsSound opened

ensure_password_hashed-keeps_example :
    ((trim_space "$2a$10$admin" ≡ "") ⊎ (is_bcrypt_hash "$2a$10$admin" ≡ true))
    × ((check_password crypt "admin" "admin" ≡ false)
        ⊎ (check_password crypt "$2a$10$admin" "admin" ≡ true))
ensure_password_hashed-keeps_example =
    ensure_password_hashed-keeps crypt crypt-IsSound "admin" "$2a$10$admin" "admin" true rehashed

All-replicate : (n : ℕ) → All (λ x. x < 256) (replicate n 0xab)
All-replicate zero = tt
All-replicate (suc n) = (omega arith, All-replicate n)

pub env-FillsSlices : FillsSlices env.read
env-FillsSlices = record {
  filled = λ n b e.
      (let same : replicate n 0xab ≡ b = cc e in
        subst (λ c. length c ≡ n) same (length-replicate n 0xab));
  bytes = λ n b e.
      (let same : replicate n 0xab ≡ b = cc e in subst (All (λ x. x < 256)) same (All-replicate n));
}

random_token-spells_example :
    (token : String) × (random_token env.read 32 ≡ some token)
    × (len token ≡ 32)
    × (decode_hex token ≡ some (replicate 16 0xab))
random_token-spells_example = random_token-spells env.read (replicate 16 0xab) env-FillsSlices refl
