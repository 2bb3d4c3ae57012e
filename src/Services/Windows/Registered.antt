-- ===== src/Services/Windows/Registered.antt =====
-- internal/service/service_windows.go: what the service manager holds after Install.
use wakehub.Base.{
  ◌≡◌, refl, ap, ◌∙◌, String, Bool, false, List, [], ◌∷◌, Option, none, some, Option-cases,
  Bool-cases, inl, inr, ◌==◌, ◌||◌, arith,
}
use wakehub.Os.{Os}
use wakehub.Services.Windows.{exists, sc, register, describe, launch, install, uninstall}

abbrev pub changes : String → Bool
changes verb = (verb == "config" || verb == "create") || verb == "delete"

-- What the documentation of sc.exe says: `create` and `config` set the command of a service, `delete`
-- takes the service away, and the other verbs leave the commands alone.
pub record IsScm {W : Type 0} (os : Os W) (command_of : W → String → Option String) : Type 0 where
  pub config :
      (name command display : String) (w : W)
      → let arguments : List String =
          "config" ∷ name ∷ "binPath=" ∷ command ∷ "DisplayName=" ∷ display ∷ "start=" ∷ "auto"
          ∷ [] in
        (os.exec "sc.exe" arguments w).1.failed ≡ none
        → command_of (os.exec "sc.exe" arguments w).0 name ≡ some command
  pub create :
      (name command display : String) (w : W)
      → let arguments : List String =
          "create" ∷ name ∷ "binPath=" ∷ command ∷ "start=" ∷ "auto" ∷ "DisplayName=" ∷ display
          ∷ [] in
        (os.exec "sc.exe" arguments w).1.failed ≡ none
        → command_of (os.exec "sc.exe" arguments w).0 name ≡ some command
  pub delete :
      (name : String) (w : W)
      → (os.exec "sc.exe" ("delete" ∷ name ∷ []) w).1.failed ≡ none
      → command_of (os.exec "sc.exe" ("delete" ∷ name ∷ []) w).0 name ≡ none
  pub others :
      (verb name : String) (rest : List String) (w : W)
      → changes verb ≡ false
      → command_of (os.exec "sc.exe" (verb ∷ rest) w).0 name ≡ command_of w name

module _ {W : Type 0} (os : Os W) (command_of : W → String → Option String)
    (scm : IsScm os command_of) where
  state-sc :
      (words : String) (arguments : List String) (w : W)
      → (sc os words arguments w).0 ≡ (os.exec "sc.exe" arguments w).0
  unfolding sc
  state-sc words arguments w = ground arith

  done-sc :
      (words : String) (arguments : List String) (w : W)
      → (sc os words arguments w).1 ≡ none
      → (os.exec "sc.exe" arguments w).1.failed ≡ none
  unfolding sc
  done-sc words arguments w h = ground arith

  command-register :
      (name display command : String) (w : W)
      → (register os name display command w).1 ≡ none
      → command_of (register os name display command w).0 name ≡ some command
  unfolding register
  command-register name display command w done =
      let w' = (exists os name w).0 in
      let stopped = (os.exec "sc.exe" ("stop" ∷ name ∷ []) w').0 in
      let old : List String =
        "config" ∷ name ∷ "binPath=" ∷ command ∷ "DisplayName=" ∷ display ∷ "start=" ∷ "auto"
        ∷ [] in
      let new : List String =
        "create" ∷ name ∷ "binPath=" ∷ command ∷ "start=" ∷ "auto" ∷ "DisplayName=" ∷ display
        ∷ [] in
      elim (Bool-cases (exists os name w).1) [
        | inl there ↦
            let fine : (sc os "update service: " old stopped).1 ≡ none = ground arith in
            rw (there, register)
              (ap (λ t. command_of t name) (state-sc "update service: " old stopped)
                ∙ scm.config name command display stopped
                    (done-sc "update service: " old stopped fine))
        | inr gone ↦
            let fine : (sc os "" new w').1 ≡ none = ground arith in
            rw (gone, register)
              (ap (λ t. command_of t name) (state-sc "" new w')
                ∙ scm.create name command display w' (done-sc "" new w' fine))
      ]

  command-launch :
      (name : String) (w : W) → command_of (launch os name w).0 name ≡ command_of w name
  unfolding launch
  command-launch name w = let same = scm.others "start" name (name ∷ []) w refl in ground arith

  command-describe :
      (name : String) (w : W) → command_of (describe os name w) name ≡ command_of w name
  unfolding describe
  command-describe name w =
      let text : List String = name ∷ "WakeHub shutdown client for wakehub-server" ∷ [] in
      let actions : List String =
        name ∷ "reset=" ∷ "86400" ∷ "actions=" ∷ "restart/5000/restart/10000/restart/30000" ∷ [] in
      let w₁ = (os.exec "sc.exe" ("description" ∷ text) w).0 in
      let w₂ = (os.exec "sc.exe" ("failure" ∷ actions) w₁).0 in
      scm.others "failureflag" name (name ∷ "1" ∷ []) w₂ refl
      ∙ scm.others "failure" name actions w₁ refl
      ∙ scm.others "description" name text w refl

  -- Install without an error leaves the command with the service manager, whether the service was
  -- there before or not; Uninstall without an error leaves none.
  pub install-IsRegistered :
      (name display command : String) (w : W)
      → ((install os name display command w).1 ≡ none
          → command_of (install os name display command w).0 name ≡ some command)
        × ((uninstall os name w).1 ≡ none → command_of (uninstall os name w).0 name ≡ none)
  unfolding install uninstall
  install-IsRegistered name display command w =
      let stopped = (os.exec "sc.exe" ("stop" ∷ name ∷ []) w).0 in
      (
        λ done. elim (Option-cases (register os name display command w).1) [
          | inr (e, failed) ↦ absurd (ground arith)
          | inl fine ↦
              let w' = (register os name display command w).0 in
              rw (fine, install)
                (command-launch name (describe os name w')
                  ∙ command-describe name w'
                  ∙ command-register name display command w fine)
        ],
        λ done.
            ap (λ t. command_of t name) (state-sc "" ("delete" ∷ name ∷ []) stopped)
            ∙ scm.delete name stopped (done-sc "" ("delete" ∷ name ∷ []) stopped done),
      )
