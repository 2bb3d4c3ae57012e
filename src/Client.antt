-- ===== src/Client.antt =====
-- internal/clientapp: the program on the machines that are to be switched off.
pub mod Nics
pub mod Greeting
pub mod Reconnect
pub mod Control
pub mod Quote
pub mod Version
pub mod Settings
pub mod Files
pub mod Install
pub mod Update
