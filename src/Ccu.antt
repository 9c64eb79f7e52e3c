-- ===== src/Ccu.antt =====
-- src/ccu: the targets, and the sessions with them.
pub mod Targets
pub mod Client
pub mod Session
