-- ===== src/OpenWrt.antt =====
-- internal/openwrt/uci.go: the settings that are written to UCI, the configuration of OpenWrt. The
-- program uci is a parameter.
pub mod Committed
use Prim.Native.String.{◌++◌ as ◌<>◌}
use wakehub.Base.{String, Bool, not, List, [], ◌∷◌, Option, none, some, if◌then◌else◌, ◌==◌}
use wakehub.Text.{trim_space}
use wakehub.Config.{Settings, default_ws_path, default_auth_user, default_auth_password}
use wakehub.Config.Listen.{listen_port}
use wakehub.Os.{Os}

abbrev pub or_default : String → String → String
or_default s fallback = if s == "" then fallback else s

-- The options with their values.
unfoldable pub sets : Settings → List (String × String)
sets st =
    ("wakehub.main.listen_port", listen_port st.listen)
    ∷ ("wakehub.main.bemfa_uid", st.bemfa_uid)
    ∷ ("wakehub.main.client_token", st.client_token)
    ∷ ("wakehub.main.ws_path", or_default (trim_space st.ws_path) default_ws_path)
    ∷ ("wakehub.main.basic_auth_enable", if st.basic_auth_enable then "1" else "0")
    ∷ ("wakehub.main.basic_auth_user", or_default (trim_space st.basic_auth_user) default_auth_user)
    ∷ (
      "wakehub.main.basic_auth_password",
      if trim_space st.basic_auth_password == ""
          then default_auth_password
          else st.basic_auth_password,
    )
    ∷ []

module _ {W : Type 0} (os : Os W) where
  unfoldable pub run_uci : List String → W → W × Option String
  run_uci arguments w =
      let (w', ran) = os.exec "uci" arguments w in
      elim ran.failed [ none ↦ (w', none) | some e ↦ (w', some (e <> ": " <> trim_space ran.out)) ]

  -- The loop over the options, which ends at the first error.
  unfoldable pub set_all : List (String × String) → W → W × Option String
  set_all [] w = (w, none)
  set_all (kv ∷ rest) w =
      let (w', failed) = run_uci ("set" ∷ (kv.0 <> "=" <> kv.1) ∷ []) w in
      elim failed [ none ↦ set_all rest w' | some e ↦ (w', some ("uci set " <> kv.0 <> ": " <> e)) ]

  -- The best effort at the end; `script` is the variable WAKEHUB_UCI_SYNC.
  unfoldable pub resync : String → W → W
  resync script w =
      if not (script == "")
      then (os.exec script [] w).0
      else if os.exists "/usr/libexec/wakehub-uci-sync" w
      then (os.exec "/usr/libexec/wakehub-uci-sync" [] w).0
      else w

  unfoldable pub write_globals : String → Settings → W → W × Option String
  write_globals script st w =
      if not (os.look_path "uci" w)
      then (w, some "uci not found; cannot writeback globals")
      else let (w', failed) = set_all (sets st) w in
        elim failed [
          | some e ↦ (w', some e)
          | none ↦
              let (w'', refused) = run_uci ("commit" ∷ "wakehub" ∷ []) w' in
              elim refused [
                | some e ↦ (w'', some ("uci commit: " <> e))
                | none ↦ (resync script w'', none)
              ]
        ]
