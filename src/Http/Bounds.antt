-- ===== src/Http/Bounds.antt =====
-- src/index.ts: how many MCP sessions there can be.
use ccu_mcp.Prelude.{ℕ, ◌+◌, ◌≤◌, String, ◌≡◌, refl, Option, none, some, ◌===◌, length, arith}
use ccu_mcp.Prelude.Dict.{Dict, get, length-set, length-remove-le}
use ccu_mcp.Http.Sessions.{
  McpSession, HttpServer, evict_idle, seen, touch, released, release, stream_closed, initialized,
  rejected, transport_closed,
}
use ccu_mcp.Http.Handler.{HttpRequest, Access, admit, route, to_session}
use ccu_mcp.Http.Evicted.{length-evict_from-le}
use ccu_mcp.Http.Reached.{
  Step, requests, initialises, rejects, stream_closes, transport_closes, sweeps, Reach, here, next,
  handle_rule,
}

abbrev pub Bounded : ℕ → HttpServer → Type 0
Bounded most s = length s.sessions + s.pending ≤ 255 + most

admit-Bounded :
    (most now : ℕ) (s : HttpServer)
    → Bounded most s
    → (admit now s).1.pending ≤ most
    → Bounded most (admit now s).1
unfolding admit evict_idle
admit-Bounded most now s b p = ground (arith, length-evict_from-le now s.sessions s.sessions)

to_session-Bounded :
    (most : ℕ) (r : HttpRequest) (now : ℕ) (sid : String) (o : Option McpSession) (s : HttpServer)
    → get s.sessions sid ≡ o
    → Bounded most s
    → Bounded most (to_session r now sid o s).1
unfolding touch
to_session-Bounded most r now sid none s e b = b
to_session-Bounded most r now sid (some x) s e b =
    ground (arith, length-set s.sessions sid (seen now (r.method === "GET") x))

route-Bounded :
    (most : ℕ) (r : HttpRequest) (now : ℕ) (o : Option String) (s : HttpServer)
    → Bounded most s
    → (route r now o s).1.pending ≤ most
    → Bounded most (route r now o s).1
route-Bounded most r now none s b p = admit-Bounded most now s b p
route-Bounded most r now (some sid) s b p =
    to_session-Bounded most r now sid (get s.sessions sid) s refl b

release-length :
    (now : ℕ) (sid : String) (o : Option McpSession) (m : Dict McpSession)
    → get m sid ≡ o
    → length (release now sid o m) ≡ length m
release-length now sid none m e = refl
release-length now sid (some x) m e = ground (arith, length-set m sid (released now x))

Step-Bounded :
    (c : Access) (most : ℕ) {s t : HttpServer}
    → Step c s t
    → t.pending ≤ most
    → Bounded most s
    → Bounded most t
unfolding initialized rejected transport_closed stream_closed evict_idle
Step-Bounded c most {s = s} (requests r now) p b =
    handle_rule (λ t. t.pending ≤ most → Bounded most t) c r now s (λ q. b) (λ q. b)
      (λ q. route-Bounded most r now r.session_id s b q) p
Step-Bounded c most {s = s} (initialises sid now q f) p b =
    ground (arith, length-set s.sessions sid (record { last_seen = now; open_streams = 0 }))
Step-Bounded c most (rejects q) p b = omega arith
Step-Bounded c most {s = s} (stream_closes sid now q) p b =
    omega (arith, release-length now sid (get s.sessions sid) s.sessions refl)
Step-Bounded c most {s = s} (transport_closes sid) p b =
    omega (arith, length-remove-le s.sessions sid)
Step-Bounded c most {s = s} (sweeps now) p b =
    omega (arith, length-evict_from-le now s.sessions s.sessions)

Reach-Bounded : (c : Access) (most : ℕ) {s : HttpServer} → Reach c most s → Bounded most s
Reach-Bounded c most here = omega arith
Reach-Bounded c most (next r st p) = Step-Bounded c most st p (Reach-Bounded c most r)

-- However requests, closing streams and sweeps interleave: while `most` new transports at most are
-- initialising at the same time, the server holds at most 255 + `most` sessions, thus 256 where each
-- initialisation ends before the next begins.
pub Reach-sessions :
    (c : Access) (most : ℕ) (s : HttpServer) → Reach c most s → length s.sessions ≤ 255 + most
Reach-sessions c most s r = omega (arith, Reach-Bounded c most r)
