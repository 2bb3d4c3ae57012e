-- ===== src/Programs.antt =====
-- cmd: the two programs, with what they do before and around their parts.
pub mod Server
pub mod Client
