-- ===== src/Services/Systemd/Running.antt =====
-- internal/service/service_unix.go: what systemd runs after Install.
use wakehub.Base.{
  ◌≡◌, ◌≢◌, ap, ◌∙◌, String, Bool, true, List, [], ◌∷◌, Option, none, some, Option-cases, inl, inr,
  arith,
}
use wakehub.Os.{Os}
use wakehub.Os.Files.{IsFiles}
use wakehub.Services.Systemd.{unit_text, unit_path, systemctl, install}

-- What the documentation of systemctl says: the manager reads the unit files at daemon-reload and at
-- enable, enable lets the service start with the machine, and restart starts it by the unit that
-- the manager has read. None of them changes a file with a text.
pub record IsSystemd {W : Type 0} (os : Os W) (join : String → String → String)
    (content loaded running : W → String → Option String) (enabled : W → String → Bool)
    : Type 0 where
  pub reload :
      (name : String) (w : W)
      → (os.exec "systemctl" ("daemon-reload" ∷ []) w).1.failed ≡ none
      → loaded (os.exec "systemctl" ("daemon-reload" ∷ []) w).0 name
        ≡ content w (unit_path join name)
  pub enable :
      (name : String) (w : W)
      → (os.exec "systemctl" ("enable" ∷ name ∷ []) w).1.failed ≡ none
      → (loaded (os.exec "systemctl" ("enable" ∷ name ∷ []) w).0 name
          ≡ content w (unit_path join name))
        × (enabled (os.exec "systemctl" ("enable" ∷ name ∷ []) w).0 name ≡ true)
  pub restart :
      (name : String) (w : W)
      → (os.exec "systemctl" ("restart" ∷ name ∷ []) w).1.failed ≡ none
      → (running (os.exec "systemctl" ("restart" ∷ name ∷ []) w).0 name ≡ loaded w name)
        × (enabled (os.exec "systemctl" ("restart" ∷ name ∷ []) w).0 name ≡ enabled w name)
  pub texts :
      (arguments : List String) (at : String) (w : W)
      → content (os.exec "systemctl" arguments w).0 at ≡ content w at

module _ {W : Type 0} (os : Os W) (join : String → String → String)
    (content loaded running : W → String → Option String) (enabled : W → String → Bool)
    (files : IsFiles os content) (systemd : IsSystemd os join content loaded running enabled) where
  state-systemctl :
      (word : String) (arguments : List String) (w : W)
      → (systemctl os word arguments w).0 ≡ (os.exec "systemctl" arguments w).0
  unfolding systemctl
  state-systemctl word arguments w = ground arith

  done-systemctl :
      (word : String) (arguments : List String) (w : W)
      → (systemctl os word arguments w).1 ≡ none
      → (os.exec "systemctl" arguments w).1.failed ≡ none
  unfolding systemctl
  done-systemctl word arguments w h = ground arith

  content-systemctl :
      (word : String) (arguments : List String) (at : String) (w : W)
      → content (systemctl os word arguments w).0 at ≡ content w at
  content-systemctl word arguments at w =
      ap (λ t. content t at) (state-systemctl word arguments w) ∙ systemd.texts arguments at w

  -- A service that Install has set up without an error starts with the machine and runs by the unit
  -- with its command.
  pub install-IsRunning :
      (name display command : String) (w : W)
      → (install os join name display command w).1 ≡ none
      → (enabled (install os join name display command w).0 name ≡ true)
        × (running (install os join name display command w).0 name
            ≡ some (unit_text display command))
  unfolding install
  install-IsRunning name display command w done =
      let path = unit_path join name in
      let w₁ = (os.write_file path (unit_text display command) w).0 in
      let w₂ = (systemctl os "daemon-reload" ("daemon-reload" ∷ []) w₁).0 in
      let w₃ = (systemctl os "enable" ("enable" ∷ name ∷ []) w₂).0 in
      elim (Option-cases (os.write_file path (unit_text display command) w).1) [
        | inr (e, failed) ↦ absurd (ground arith)
        | inl written ↦
            elim (Option-cases (systemctl os "daemon-reload" ("daemon-reload" ∷ []) w₁).1) [
              | inr (e, failed) ↦ absurd (ground arith)
              | inl read ↦ elim (Option-cases (systemctl os "enable" ("enable" ∷ name ∷ []) w₂).1) [
                | inr (e, failed) ↦ absurd (ground arith)
                | inl linked ↦
                    let restarted : (systemctl os "restart" ("restart" ∷ name ∷ []) w₃).1 ≡ none =
                      ground arith in
                    let same₃ = state-systemctl "restart" ("restart" ∷ name ∷ []) w₃ in
                    let same₂ = state-systemctl "enable" ("enable" ∷ name ∷ []) w₂ in
                    let r =
                      systemd.restart name w₃
                        (done-systemctl "restart" ("restart" ∷ name ∷ []) w₃ restarted) in
                    let n =
                      systemd.enable name w₂
                        (done-systemctl "enable" ("enable" ∷ name ∷ []) w₂ linked) in
                    rw (written, read, linked, install)
                      (
                        ap (λ t. enabled t name) same₃ ∙ r.1 ∙ ap (λ t. enabled t name) same₂ ∙ n.1,
                        ap (λ t. running t name) same₃
                            ∙ r.0
                            ∙ ap (λ t. loaded t name) same₂
                            ∙ n.0
                            ∙ content-systemctl "daemon-reload" ("daemon-reload" ∷ []) path w₁
                            ∙ files.write path (unit_text display command) w written,
                      )
              ]
            ]
      ]

  -- Install changes no other file than the unit.
  pub content-install :
      (name display command at : String) (w : W)
      → at ≢ unit_path join name
      → content (install os join name display command w).0 at ≡ content w at
  unfolding install
  content-install name display command at w other =
      let path = unit_path join name in
      let w₁ = (os.write_file path (unit_text display command) w).0 in
      let w₂ = (systemctl os "daemon-reload" ("daemon-reload" ∷ []) w₁).0 in
      let w₃ = (systemctl os "enable" ("enable" ∷ name ∷ []) w₂).0 in
      let c₁ = files.write_other path (unit_text display command) at w other in
      let c₂ = content-systemctl "daemon-reload" ("daemon-reload" ∷ []) at w₁ in
      let c₃ = content-systemctl "enable" ("enable" ∷ name ∷ []) at w₂ in
      let c₄ = content-systemctl "restart" ("restart" ∷ name ∷ []) at w₃ in ground arith
