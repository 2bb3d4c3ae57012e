-- ===== src/Services.antt =====
-- internal/service: the background service of the client, by systemd (service_unix.go) and by the
-- service manager of Windows (service_windows.go).
pub mod Systemd
pub mod Windows
use wakehub.Base.{ℕ, String, Option, Bool}

-- The functions of the package, for one of the two systems. The numbers are statuses to exit with.
pub record Platform (W : Type 0) : Type 0 where
  pub windows : Bool
  pub exists : String → W → W × Bool
  pub install : String → String → String → W → W × Option String
  pub uninstall : String → W → W × Option String
  pub start : String → W → W × ℕ
  pub stop : String → W → W × ℕ
  pub status : String → W → W × ℕ
