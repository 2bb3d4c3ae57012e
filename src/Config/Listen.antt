-- ===== src/Config/Listen.antt =====
-- internal/config/store.go: ListenPort.
use Prim.Native.Char.{code}
use wakehub.Base.{String, not, Option, none, some, if◌then◌else◌, ◌==◌, nat_eq}
use wakehub.Text.{trim_space, all_chars, is_digit}

-- The text behind the last ":", strings.LastIndex with the cut after it.
unfoldable pub behind_last_colon : String → Option String
behind_last_colon String.[] = none
behind_last_colon (String.◌∷◌ c s) = elim (behind_last_colon s) [
  | some port ↦ some port
  | none ↦ if nat_eq (code c) b':' then some s else none
]

-- A text that has digits only, by strings.Trim.
abbrev digits_or : String → String → String
digits_or s fallback = if all_chars is_digit s then s else fallback

-- For the field Listen of the settings.
unfoldable pub listen_port : String → String
listen_port listen =
    let s = trim_space listen in
    if s == "" then "8080" else elim (behind_last_colon s) [
      | none ↦ digits_or s "8080"
      | some port ↦ if not (port == "") then port else digits_or s "8080"
    ]
