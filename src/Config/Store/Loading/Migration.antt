-- ===== src/Config/Store/Loading/Migration.antt =====
-- internal/config/store.go, Open: the data that a store starts with.
use wakehub.Base.{
  ltb, ℕ, ◌≤◌, String, Bool, true, false, List, [], ◌∷◌, map, none, some, Result, ok, err, ◌≡◌, ◌≢◌,
  refl, subst, ◌∙◌, ap₂, All, ◌⊎◌, inl, inr, arith, eq_iff, Bool-cases,
}
use wakehub.Text.{trim_space}
use wakehub.Config.{Device, Schedule, Settings, File}
use wakehub.Config.Password.{Bcrypt, is_bcrypt_hash, ensure_password_hashed}
use wakehub.Config.Password.Hashing.{is_bcrypt_hash-trim_space, is_bcrypt_hash-ne-empty}
use wakehub.Config.Normalize.{
  normalize_device_fields, normalize_schedule_fields, normalize_settings, normalize,
}
use wakehub.Config.Normalize.Ranges.{
  IsNormal, IsTimed, normalize_device_fields-IsNormal, normalize_schedule_fields-IsTimed,
  normalize_device_fields_of_IsNormal, normalize_schedule_fields_of_IsTimed,
}
use wakehub.Config.Store.{encode, Store, Env, save_locked}
use wakehub.Config.Store.Loading.{
  Reading, absent, unreadable, holds, default_file, parse, migrate, open_store,
}

-- What the data of an opened store satisfies.
pub record IsMigrated (f : File) : Type 0 where
  pub listen : f.settings.listen ≢ ""
  pub ws_path : f.settings.ws_path ≢ ""
  pub user : trim_space f.settings.basic_auth_user ≢ ""
  pub devices : All IsNormal f.devices
  pub schedules : All IsTimed f.schedules
  pub version : 2 ≤ f.version

pub result_cases :
    {A : Type 0} (r : Result A) → ((m : String) × (r ≡ err m)) ⊎ ((a : A) × (r ≡ ok a))
result_cases (err m) = inl (m, refl)
result_cases (ok a) = inr (a, refl)

all_devices : (ds : List Device) → All IsNormal (map normalize_device_fields ds)
all_devices [] = tt
all_devices (d ∷ ds) = (normalize_device_fields-IsNormal d, all_devices ds)

all_schedules : (scs : List Schedule) → All IsTimed (map normalize_schedule_fields scs)
all_schedules [] = tt
all_schedules (sc ∷ scs) = (normalize_schedule_fields-IsTimed sc, all_schedules scs)

same_devices : (ds : List Device) → All IsNormal ds → map normalize_device_fields ds ≡ ds
same_devices [] h = refl
same_devices (d ∷ ds) h = ap₂ ◌∷◌ (normalize_device_fields_of_IsNormal d h.0) (same_devices ds h.1)

same_schedules : (scs : List Schedule) → All IsTimed scs → map normalize_schedule_fields scs ≡ scs
same_schedules [] h = refl
same_schedules (sc ∷ scs) h =
    ap₂ ◌∷◌ (normalize_schedule_fields_of_IsTimed sc h.0) (same_schedules scs h.1)

pub admin_trimmed : trim_space "admin" ≢ ""
unfolding trim_space
admin_trimmed = ground (arith, eq_iff "admin" "")

normalize_settings-filled :
    (crypt : Bcrypt) (st : Settings)
    → ((normalize_settings crypt st).0.listen ≢ "")
      × ((normalize_settings crypt st).0.ws_path ≢ "")
      × (trim_space (normalize_settings crypt st).0.basic_auth_user ≢ "")
unfolding normalize_settings
normalize_settings-filled crypt st = (
  ground (arith, eq_iff st.listen "", eq_iff ":8080" ""),
  ground (arith, eq_iff st.ws_path "", eq_iff "/api/ws/client" ""),
  ground (arith, eq_iff (trim_space st.basic_auth_user) "", admin_trimmed),
)

normal_at : Bcrypt → File → ℕ → File
normal_at crypt f n = record (normalize crypt f).0 { version = n }

normal_at-IsMigrated :
    (crypt : Bcrypt) (f : File) (n : ℕ) → 2 ≤ n → IsMigrated (normal_at crypt f n)
unfolding normal_at normalize
normal_at-IsMigrated crypt f n h =
    let filled = normalize_settings-filled crypt f.settings in
    record {
      listen = filled.0;
      ws_path = filled.1;
      user = filled.2;
      devices = all_devices f.devices;
      schedules = all_schedules f.schedules;
      version = h;
    }

migrate-IsMigrated : (crypt : Bcrypt) (p : File × Bool) → IsMigrated (migrate crypt p).0
unfolding migrate normalize normal_at
migrate-IsMigrated crypt (f, b) = elim (Bool-cases (ltb f.version 2)) [
  | inl old ↦ subst IsMigrated (ground arith) (normal_at-IsMigrated crypt f 2 (omega arith))
  | inr new ↦
      subst IsMigrated (ground arith) (normal_at-IsMigrated crypt f f.version (ground arith))
]

default_file-IsMigrated : (crypt : Bcrypt) → IsMigrated (default_file crypt)
unfolding default_file
default_file-IsMigrated crypt = record {
  listen = ground (arith, eq_iff ":8080" "");
  ws_path = ground (arith, eq_iff "/api/ws/client" "");
  user = admin_trimmed;
  devices = tt;
  schedules = tt;
  version = omega arith;
}

normalize_settings_of_hash :
    (crypt : Bcrypt) (f : File)
    → IsMigrated f
    → is_bcrypt_hash f.settings.basic_auth_password ≡ true
    → normalize_settings crypt f.settings ≡ (f.settings, false)
unfolding normalize_settings ensure_password_hashed
normalize_settings_of_hash crypt f v h =
    let st = f.settings in
    let hashed = is_bcrypt_hash-trim_space st.basic_auth_password ∙ h in
    ground (
      arith,
      hashed,
      is_bcrypt_hash-ne-empty (trim_space st.basic_auth_password) hashed,
      eq_iff st.listen "",
      eq_iff st.ws_path "",
      eq_iff (trim_space st.basic_auth_user) "",
      eq_iff (trim_space st.basic_auth_password) "",
    )

migrate_of_IsMigrated :
    (crypt : Bcrypt) (f : File)
    → IsMigrated f
    → is_bcrypt_hash f.settings.basic_auth_password ≡ true
    → migrate crypt (f, false) ≡ (f, false)
unfolding migrate normalize
migrate_of_IsMigrated crypt f v h = ground (
  arith,
  normalize_settings_of_hash crypt f v h,
  same_devices f.devices v.devices,
  same_schedules f.schedules v.schedules,
)

-- Whatever file Open accepts, the data that the store starts with is migrated.
pub open_store-IsMigrated :
    (crypt : Bcrypt) (env : Env) (r : Reading) (s : Store)
    → open_store crypt env r ≡ ok s
    → IsMigrated s.file
unfolding open_store save_locked
open_store-IsMigrated crypt env absent s e =
    subst IsMigrated (ground arith) (default_file-IsMigrated crypt)
open_store-IsMigrated crypt env (unreadable m) s e = cc
open_store-IsMigrated crypt env (holds content) s e = elim (result_cases (parse crypt content)) [
  | inl (m, bad) ↦ ground arith
  | inr (p, good) ↦ subst IsMigrated (ground arith) (migrate-IsMigrated crypt p)
]

-- Once a store is opened and its password is hashed, opening what it saves gives the same data
-- and writes nothing.
pub open_store_again :
    (crypt : Bcrypt) (env later : Env) (r : Reading) (s : Store)
    → open_store crypt env r ≡ ok s
    → is_bcrypt_hash s.file.settings.basic_auth_password ≡ true
    → open_store crypt later (holds (encode s.file))
      ≡ ok (record { file = s.file; disk = some (encode s.file); backup = none })
unfolding open_store encode parse
open_store_again crypt env later r s e h =
    ground (arith, migrate_of_IsMigrated crypt s.file (open_store-IsMigrated crypt env r s e) h)
