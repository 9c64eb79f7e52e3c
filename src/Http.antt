-- ===== src/Http.antt =====
-- The HTTP server of src/index.ts: its MCP sessions, the handler of a request, the health check.
mod Sessions
mod Handler
mod Evicted
mod Reached
mod Bounds
mod Gate
mod Tests
