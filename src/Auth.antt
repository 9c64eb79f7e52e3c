-- ===== src/Auth.antt =====
-- src/auth/token.ts: the bearer tokens of the HTTP transport.
pub mod Tokens
pub mod File
pub mod Resolve
