-- ===== src/Http/Gate.antt =====
-- src/index.ts: who gets past the guards of the HTTP handler.
use ccu_mcp.Prelude.{
  ap, sym, ◌∙◌, ℕ, ◌+◌, ◌≤◌, ◌<◌, String, false, ◌≡◌, ◌⊎◌, some, [], length, arith, eq_iff,
  if◌then◌else◌,
}
use ccu_mcp.Prelude.Dict.{get}
use ccu_mcp.Auth.Tokens.{verify}
use ccu_mcp.Http.Sessions.{McpSession, HttpServer, session_idle_ms, evict_idle}
use ccu_mcp.Http.Handler.{
  HttpRequest, Access, Handled, answered, health, unauthorized, is_given, origin_allowed,
  at_capacity, handle, admit, note_failure, before_query, presented,
}
use ccu_mcp.Http.Reached.{Reach, count, evict_idle-Reach}

-- A request without an accepted token reaches no session and starts none. What it gets is the answer to a
-- preflight, the bare health check, or a 401 that tells a wrong token from none and is logged once.
pub handle-unverified :
    (c : Access) (r : HttpRequest) (now : ℕ) (s : HttpServer)
    → verify c.sha256 c.tokens (presented r) now ≡ false
    → ((r.method ≡ "OPTIONS")
        × (handle c r now s
            ≡ (answered (if origin_allowed c.allowed_origins r.origin then 204 else 403) [] "", s)))
      ⊎ (((r.method ≡ "GET")
            × (before_query r.url ≡ "/health")
            × (handle c r now s ≡ (health false, s)))
          ⊎ (handle c r now s ≡ (unauthorized (is_given (presented r)), note_failure r s)))
unfolding handle
handle-unverified c r now s h =
    ground (
      arith,
      eq_iff r.method "OPTIONS",
      eq_iff r.method "GET",
      eq_iff (before_query r.url) "/health",
    )

admitted :
    (c : Access) (r : HttpRequest) (now : ℕ) (s : HttpServer)
    → (handle c r now s).0 ≡ at_capacity
    → handle c r now s ≡ admit now s
unfolding handle
admitted c r now s h = ground arith

admit_full :
    (now : ℕ) (s : HttpServer)
    → (admit now s).0 ≡ at_capacity
    → (admit now s ≡ (at_capacity, evict_idle now s)) × (256 ≤ length (evict_idle now s).sessions)
unfolding admit
admit_full now s h = ground arith

-- A new session is refused for want of room only while 256 sessions at least are in use, each of them with an
-- open stream or seen in the last 30 minutes: idle ones never keep a client out.
pub refused_in_use :
    (c : Access) (most : ℕ) (s : HttpServer) (r : HttpRequest) (now : ℕ) (sid : String)
    (x : McpSession)
    → Reach c most s
    → (handle c r now s).0 ≡ at_capacity
    → get (handle c r now s).1.sessions sid ≡ some x
    → (256 ≤ length (handle c r now s).1.sessions)
      × ((0 < count sid s.streams) ⊎ (now ≤ x.last_seen + session_idle_ms))
refused_in_use c most s r now sid x w h e =
    let a = admitted c r now s h in
    let full = admit_full now s (ap (λ (p : Handled × HttpServer). p.0) (sym a) ∙ h) in
    let q : handle c r now s ≡ (at_capacity, evict_idle now s) = a ∙ full.0 in
    (rw q full.1, ((evict_idle-Reach c most s now sid x w).0 (rw q at e)).1)
