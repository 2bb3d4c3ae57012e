-- ===== src/OpenWrt/Committed.antt =====
-- internal/openwrt/uci.go: what is committed after the settings are written.
use Prim.Native.String.{◌++◌ as ◌<>◌}
use wakehub.Base.{
  ◌≡◌, ◌≢◌, refl, ap, ◌∙◌, String, Bool, true, false, not, List, [], ◌∷◌, Option, none, some,
  if◌then◌else◌, ◌==◌, nat_eq, All, Option-cases, Bool-cases, inl, inr, eq_iff, arith,
}
use wakehub.Text.{trim_space, all_chars}
use wakehub.Config.{Settings, default_ws_path, default_auth_user, default_auth_password}
use wakehub.Config.Listen.{listen_port}
use wakehub.Os.{Os}
use wakehub.OpenWrt.{or_default, sets, run_uci, set_all, resync, write_globals}

-- An option that is set to the empty text is deleted.
abbrev pub stored : String → Option String
stored value = if value == "" then none else some value

abbrev pub IsKey : String → Type 0
IsKey key = all_chars (λ n. not (nat_eq n b'=')) key ≡ true

-- What the documentation of uci says: `set` changes what is staged, and `commit` makes this the
-- stored configuration.
pub record IsUci {W : Type 0} (os : Os W) (staged committed : W → String → Option String)
    : Type 0 where
  pub staged-set :
      (key value at : String) (w : W)
      → IsKey key
      → (os.exec "uci" ("set" ∷ (key <> "=" <> value) ∷ []) w).1.failed ≡ none
      → staged (os.exec "uci" ("set" ∷ (key <> "=" <> value) ∷ []) w).0 at
        ≡ (if key == at then stored value else staged w at)
  pub committed-set :
      (argument at : String) (w : W)
      → committed (os.exec "uci" ("set" ∷ argument ∷ []) w).0 at ≡ committed w at
  pub committed-commit :
      (at : String) (w : W)
      → (os.exec "uci" ("commit" ∷ "wakehub" ∷ []) w).1.failed ≡ none
      → committed (os.exec "uci" ("commit" ∷ "wakehub" ∷ []) w).0 at ≡ staged w at
  pub committed-refused :
      (at : String) (w : W)
      → (os.exec "uci" ("commit" ∷ "wakehub" ∷ []) w).1.failed ≢ none
      → committed (os.exec "uci" ("commit" ∷ "wakehub" ∷ []) w).0 at ≡ committed w at

-- The value of an option after these have been set one after the other.
abbrev after : List (String × String) → String → Option String → Option String
after [] at before = before
after (kv ∷ rest) at before = after rest at (if kv.0 == at then stored kv.1 else before)

-- UCI holds the settings.
abbrev pub IsMirrored : {W : Type 0} → (W → String → Option String) → W → Settings → Type 0
IsMirrored committed w st =
    (committed w "wakehub.main.listen_port" ≡ stored (listen_port st.listen))
    × (committed w "wakehub.main.bemfa_uid" ≡ stored st.bemfa_uid)
    × (committed w "wakehub.main.client_token" ≡ stored st.client_token)
    × (committed w "wakehub.main.ws_path"
        ≡ stored (or_default (trim_space st.ws_path) default_ws_path))
    × (committed w "wakehub.main.basic_auth_enable"
        ≡ some (if st.basic_auth_enable then "1" else "0"))
    × (committed w "wakehub.main.basic_auth_user"
        ≡ some (or_default (trim_space st.basic_auth_user) default_auth_user))
    × (committed w "wakehub.main.basic_auth_password"
        ≡ some (
            if trim_space st.basic_auth_password == ""
            then default_auth_password
            else st.basic_auth_password))

module _ {W : Type 0} (os : Os W) (staged committed : W → String → Option String)
    (uci : IsUci os staged committed) where
  state-run_uci :
      (arguments : List String) (w : W) → (run_uci os arguments w).0 ≡ (os.exec "uci" arguments w).0
  unfolding run_uci
  state-run_uci arguments w = ground arith

  failed-run_uci :
      (arguments : List String) (w : W)
      → (run_uci os arguments w).1 ≡ none
      → (os.exec "uci" arguments w).1.failed ≡ none
  unfolding run_uci
  failed-run_uci arguments w h = ground arith

  refused-run_uci :
      (arguments : List String) (e : String) (w : W)
      → (run_uci os arguments w).1 ≡ some e
      → (os.exec "uci" arguments w).1.failed ≢ none
  unfolding run_uci
  refused-run_uci arguments e w h fine = ground arith

  staged-set_all :
      (kvs : List (String × String)) (at : String) (w : W)
      → All (λ kv. IsKey kv.0) kvs
      → (set_all os kvs w).1 ≡ none
      → staged (set_all os kvs w).0 at ≡ after kvs at (staged w at)
  unfolding set_all
  staged-set_all [] at w keys done = refl
  staged-set_all (kv ∷ rest) at w keys done =
      let arguments = "set" ∷ (kv.0 <> "=" <> kv.1) ∷ [] in
      let w' = (run_uci os arguments w).0 in
      elim (Option-cases (run_uci os arguments w).1) [
        | inr (e, failed) ↦ absurd (ground arith)
        | inl fine ↦
            let same = state-run_uci arguments w in
            let now = uci.staged-set kv.0 kv.1 at w keys.0 (failed-run_uci arguments w fine) in
            let later = staged-set_all rest at w' keys.1 (ground arith) in
            rw (fine, set_all)
              (later ∙ ap (λ v. after rest at v) (ap (λ t. staged t at) same ∙ now))
      ]

  committed-set_all :
      (kvs : List (String × String)) (at : String) (w : W)
      → committed (set_all os kvs w).0 at ≡ committed w at
  unfolding set_all
  committed-set_all [] at w = refl
  committed-set_all (kv ∷ rest) at w =
      let arguments = "set" ∷ (kv.0 <> "=" <> kv.1) ∷ [] in
      let w' = (run_uci os arguments w).0 in
      let now =
        ap (λ t. committed t at) (state-run_uci arguments w)
        ∙ uci.committed-set (kv.0 <> "=" <> kv.1) at w in
      elim (Option-cases (run_uci os arguments w).1) [
        | inr (e, failed) ↦ rw (failed, set_all) now
        | inl fine ↦ rw (fine, set_all) (committed-set_all rest at w' ∙ now)
      ]

  -- Writing without an error has put these values in the store of UCI, before the script of the
  -- synchronisation is run.
  committed-write_globals :
      (script : String) (st : Settings) (w : W)
      → All (λ kv. IsKey kv.0) (sets st)
      → (write_globals os script st w).1 ≡ none
      → (done : W) × ((at : String) → committed done at ≡ after (sets st) at (staged w at))
        × ((write_globals os script st w).0 ≡ resync os script done)
  unfolding write_globals
  committed-write_globals script st w keys succeeded =
      let w' = (set_all os (sets st) w).0 in
      elim (Bool-cases (os.look_path "uci" w)) [
        | inr absent ↦ absurd (ground arith)
        | inl there ↦ elim (Option-cases (set_all os (sets st) w).1) [
          | inr (e, stuck) ↦ absurd (ground arith)
          | inl fine ↦ elim (Option-cases (run_uci os ("commit" ∷ "wakehub" ∷ []) w').1) [
            | inr (e, refused) ↦ absurd (ground arith)
            | inl kept ↦
                let arguments : List String = "commit" ∷ "wakehub" ∷ [] in
                (
                  (run_uci os arguments w').0,
                  λ at.
                      ap (λ t. committed t at) (state-run_uci arguments w')
                      ∙ uci.committed-commit at w' (failed-run_uci arguments w' kept)
                      ∙ staged-set_all (sets st) at w keys fine,
                  rw (there, fine, kept, write_globals) refl,
                )
          ]
        ]
      ]

  committed-write_globals_error :
      (script at e : String) (st : Settings) (w : W)
      → (write_globals os script st w).1 ≡ some e
      → committed (write_globals os script st w).0 at ≡ committed w at
  unfolding write_globals
  committed-write_globals_error script at e st w failed =
      let w' = (set_all os (sets st) w).0 in
      let arguments : List String = "commit" ∷ "wakehub" ∷ [] in
      let before = committed-set_all (sets st) at w in
      elim (Bool-cases (os.look_path "uci" w)) [
        | inr absent ↦ rw (absent, write_globals) refl
        | inl there ↦ elim (Option-cases (set_all os (sets st) w).1) [
          | inr (stuck, e) ↦ rw (there, e, write_globals) before
          | inl fine ↦ elim (Option-cases (run_uci os ("commit" ∷ "wakehub" ∷ []) w').1) [
            | inl kept ↦ absurd (ground arith)
            | inr (refused, e) ↦
                rw (there, fine, e, write_globals)
                  (ap (λ t. committed t at) (state-run_uci arguments w')
                    ∙ uci.committed-refused at w' (refused-run_uci arguments refused w' e)
                    ∙ before)
          ]
        ]
      ]

sets-IsKey : (st : Settings) → All (λ kv. IsKey kv.0) (sets st)
unfolding sets all_chars
sets-IsKey st = (refl, (refl, (refl, (refl, (refl, (refl, (refl, tt)))))))

stored_flag : (b : Bool) → stored (if b then "1" else "0") ≡ some (if b then "1" else "0")
stored_flag true = refl
stored_flag false = refl

stored_set : (value : String) → (value == "") ≡ false → stored value ≡ some value
stored_set value set = rw set refl

-- A text that is not blank, with another one in the place of a blank one.
stored-or_default :
    (s fallback : String)
    → (fallback == "") ≡ false
    → stored (or_default s fallback) ≡ some (or_default s fallback)
stored-or_default s fallback set = ground arith

trim_empty : (trim_space "" == "") ≡ true
unfolding trim_space
trim_empty = refl

set_of_trimmed : (s : String) → (trim_space s == "") ≡ false → (s == "") ≡ false
set_of_trimmed s given = elim (Bool-cases (s == "")) [
  | inr set ↦ set
  | inl empty ↦ absurd (blank ((eq_iff s "").0 empty))
]
  where
    blank : s ≡ "" → ⊥
    blank e = let trimmed = ap (λ t. trim_space t == "") e in cc (trimmed, given, trim_empty)

stored_password :
    (s : String)
    → stored (if trim_space s == "" then default_auth_password else s)
      ≡ some (if trim_space s == "" then default_auth_password else s)
stored_password s = elim (Bool-cases (trim_space s == "")) [
  | inl blank ↦ rw blank refl
  | inr given ↦ rw given (stored_set s (set_of_trimmed s given))
]

-- Every option has the value that was set last.
IsMirrored-of :
    {W : Type 0} (committed : W → String → Option String) (before : String → Option String) (w : W)
    (st : Settings)
    → ((at : String) → committed w at ≡ after (sets st) at (before at))
    → IsMirrored committed w st
unfolding sets
IsMirrored-of committed before w st h = (
  h "wakehub.main.listen_port",
  h "wakehub.main.bemfa_uid",
  h "wakehub.main.client_token",
  h "wakehub.main.ws_path",
  h "wakehub.main.basic_auth_enable" ∙ stored_flag st.basic_auth_enable,
  h "wakehub.main.basic_auth_user"
      ∙ stored-or_default (trim_space st.basic_auth_user) default_auth_user refl,
  h "wakehub.main.basic_auth_password" ∙ stored_password st.basic_auth_password,
)

-- What WriteGlobals leaves: without an error UCI holds the settings when the script of the
-- synchronisation is run, and with one UCI holds what it did.
abbrev pub IsWritten :
    {W : Type 0}
    → Os W
    → (W → String → Option String)
    → String
    → Settings
    → W
    → W
    → Option String
    → Type 0
IsWritten {W} os committed script st w w' none =
    (done : W) × IsMirrored committed done st × (w' ≡ resync os script done)
IsWritten {W} os committed script st w w' (some e) =
    (at : String) → committed w' at ≡ committed w at

-- Where WriteGlobals has no error UCI holds the settings, with the defaults of the path, the user and
-- the password where these are blank, when the script of the synchronisation is run, which comes
-- last; where it has an error, what UCI holds is as it was.
pub write_globals-IsMirrored :
    {W : Type 0} (os : Os W) (staged committed : W → String → Option String) (script : String)
    (st : Settings) (w : W)
    → IsUci os staged committed
    → IsWritten os committed script st w
        (write_globals os script st w).0
        (write_globals os script st w).1
write_globals-IsMirrored os staged committed script st w uci =
    elim (Option-cases (write_globals os script st w).1) [
      | inl succeeded ↦
          let (done, values, last) =
            committed-write_globals os staged committed uci script st w (sets-IsKey st) succeeded in
          rw succeeded (done, IsMirrored-of committed (staged w) done st values, last)
      | inr (e, failed) ↦
          rw failed
            (λ at. committed-write_globals_error os staged committed uci script at e st w failed)
    ]
