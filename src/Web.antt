-- ===== src/Web.antt =====
-- internal/web: the access to the server, the page of its settings, and those of its tables and devices.
pub mod Auth
pub mod Globals
pub mod Tables
pub mod Devices
pub mod Routes
pub mod Pages

-- r.Method
pub data Method : Type 0 where
  get : Method
  post : Method
  put : Method
  delete : Method
  other : Method
