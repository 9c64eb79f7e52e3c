-- ===== src/Middleware.antt =====
-- src/middleware: rate limiting, retries, the write gate's callers.
pub mod RateLimiter
pub mod Retry
pub mod Resolver
pub mod ToolHandler
