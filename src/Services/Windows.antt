-- ===== src/Services/Windows.antt =====
-- internal/service/service_windows.go: the service by the program sc.exe, and the loop that answers
-- the service manager.
pub mod Registered
pub mod Control
use Prim.Native.String.{◌++◌ as ◌<>◌}
use wakehub.Base.{
  ℕ, String, Bool, true, false, List, [], ◌∷◌, Option, none, some, if◌then◌else◌, ◌==◌,
}
use wakehub.Text.{contains}
use wakehub.Os.{Os}

module _ {W : Type 0} (os : Os W) where
  unfoldable pub exists : String → W → W × Bool
  exists name w =
      let (w', ran) = os.exec "sc.exe" ("query" ∷ name ∷ []) w in
      elim ran.failed [ some e ↦ (w', false) | none ↦ (w', contains ran.out "SERVICE_NAME") ]

  -- A call of sc.exe whose error ends the function, with the words for it.
  unfoldable pub sc : String → List String → W → W × Option String
  sc words arguments w =
      let (w', ran) = os.exec "sc.exe" arguments w in
      elim ran.failed [ none ↦ (w', none) | some e ↦ (w', some (words <> e <> ": " <> ran.out)) ]

  -- A service that is there is stopped and changed, another one made. The wait of half a second
  -- is for the service manager.
  unfoldable pub register : String → String → String → W → W × Option String
  register name display command w =
      let (w', there) = exists name w in
      if there
      then sc "update service: "
          ("config" ∷ name ∷ "binPath=" ∷ command ∷ "DisplayName=" ∷ display ∷ "start=" ∷ "auto"
            ∷ [])
          (os.exec "sc.exe" ("stop" ∷ name ∷ []) w').0
      else sc ""
          ("create" ∷ name ∷ "binPath=" ∷ command ∷ "start=" ∷ "auto" ∷ "DisplayName=" ∷ display
            ∷ [])
          w'

  -- The settings whose errors are dropped.
  unfoldable pub describe : String → W → W
  describe name w =
      let text : String = "WakeHub shutdown client for wakehub-server" in
      let actions : String = "restart/5000/restart/10000/restart/30000" in
      let w₁ = (os.exec "sc.exe" ("description" ∷ name ∷ text ∷ []) w).0 in
      let w₂ =
        (os.exec "sc.exe" ("failure" ∷ name ∷ "reset=" ∷ "86400" ∷ "actions=" ∷ actions ∷ [])
          w₁).0 in
      (os.exec "sc.exe" ("failureflag" ∷ name ∷ "1" ∷ []) w₂).0

  -- The start, where the error 1056, that the service runs already, counts as none.
  unfoldable pub launch : String → W → W × Option String
  launch name w =
      let (w', ran) = os.exec "sc.exe" ("start" ∷ name ∷ []) w in
      elim ran.failed [
        | none ↦ (w', none)
        | some e ↦
            if contains ran.out "1056"
            then (w', none)
            else (w', some ("service start failed: " <> e <> ": " <> ran.out))
      ]

  unfoldable pub install : String → String → String → W → W × Option String
  install name display command w =
      let (w', failed) = register name display command w in
      elim failed [ some e ↦ (w', some e) | none ↦ launch name (describe name w') ]

  unfoldable pub uninstall : String → W → W × Option String
  uninstall name w = sc "" ("delete" ∷ name ∷ []) (os.exec "sc.exe" ("stop" ∷ name ∷ []) w).0

  -- Start and Stop, with the status that the program ends with.
  unfoldable pub control : String → String → W → W × ℕ
  control verb name w =
      let (w', ran) = os.exec "sc.exe" (verb ∷ name ∷ []) w in
      elim ran.failed [ none ↦ (w', 0) | some e ↦ (w', 1) ]

  unfoldable pub start : String → W → W × ℕ
  start name w = control "start" name w

  unfoldable pub stop : String → W → W × ℕ
  stop name w = control "stop" name w

  unfoldable pub status : String → W → W × ℕ
  status name w =
      let (w', ran) = os.exec "sc.exe" ("query" ∷ name ∷ []) w in
      elim ran.failed [
        | some e ↦ (w', 1)
        | none ↦ (w', if contains ran.out "RUNNING" then 0 else 2)
      ]
