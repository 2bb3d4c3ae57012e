-- ===== src/Services/Systemd.antt =====
-- internal/service/service_unix.go: the service as a unit of systemd.
pub mod Running
use Prim.Native.String.{◌++◌ as ◌<>◌}
use wakehub.Base.{
  ℕ, String, Bool, true, false, List, [], ◌∷◌, Option, none, some, if◌then◌else◌, ◌==◌,
}
use wakehub.Text.{trim_space}
use wakehub.Os.{Os}

unfoldable pub unit_text : String → String → String
unit_text display command =
    "[Unit]\nDescription=" <> display
    <> "\nAfter=network-online.target\nWants=network-online.target\n\n[Service]\nType=simple\nExecStart="
    <> command <> "\nRestart=always\nRestartSec=3\n\n[Install]\nWantedBy=multi-user.target\n"

-- `join` is filepath.Join of two names.
unfoldable pub unit_path : (String → String → String) → String → String
unit_path join name = join "/etc/systemd/system" (name <> ".service")

module _ {W : Type 0} (os : Os W) where
  -- A call of systemctl whose error ends the installation, with the word for it.
  unfoldable pub systemctl : String → List String → W → W × Option String
  systemctl word arguments w =
      let (w', ran) = os.exec "systemctl" arguments w in
      elim ran.failed [
        | none ↦ (w', none)
        | some e ↦ (w', some (word <> ": " <> e <> ": " <> ran.out))
      ]

  -- Start and Stop, with the status that the program ends with.
  unfoldable pub control : String → String → W → W × ℕ
  control verb name w =
      let (w', ran) = os.exec "systemctl" (verb ∷ name ∷ []) w in
      elim ran.failed [ none ↦ (w', 0) | some e ↦ (w', 1) ]

  unfoldable pub start : String → W → W × ℕ
  start name w = control "start" name w

  unfoldable pub stop : String → W → W × ℕ
  stop name w = control "stop" name w

  unfoldable pub status : String → W → W × ℕ
  status name w =
      let (w', ran) = os.exec "systemctl" ("is-active" ∷ name ∷ []) w in
      elim ran.failed [
        | some e ↦ (w', 1)
        | none ↦ (w', if trim_space ran.out == "active" then 0 else 2)
      ]

module _ {W : Type 0} (os : Os W) (join : String → String → String) where
  unfoldable pub exists : String → W → W × Bool
  exists name w = (w, os.exists (unit_path join name) w)

  unfoldable pub install : String → String → String → W → W × Option String
  install name display command w =
      let (w₁, unwritten) = os.write_file (unit_path join name) (unit_text display command) w in
      elim unwritten [
        | some e ↦ (w₁, some e)
        | none ↦
            let (w₂, unread) = systemctl os "daemon-reload" ("daemon-reload" ∷ []) w₁ in
            elim unread [
              | some e ↦ (w₂, some e)
              | none ↦
                  let (w₃, disabled) = systemctl os "enable" ("enable" ∷ name ∷ []) w₂ in
                  elim disabled [
                    | some e ↦ (w₃, some e)
                    | none ↦ systemctl os "restart" ("restart" ∷ name ∷ []) w₃
                  ]
            ]
      ]

  unfoldable pub uninstall : String → W → W × Option String
  uninstall name w =
      let w₁ = (os.exec "systemctl" ("disable" ∷ "--now" ∷ name ∷ []) w).0 in
      let w₂ = (os.remove (unit_path join name) w₁).0 in
      ((os.exec "systemctl" ("daemon-reload" ∷ []) w₂).0, none)
