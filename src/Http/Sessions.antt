-- ===== src/Http/Sessions.antt =====
-- src/index.ts: the map of MCP sessions of the HTTP server, and what changes it besides a request.
use ccu_mcp.Prelude.{
  ℕ, suc, ◌+◌, ◌-◌, ◌*◌, String, Bool, ◌&&◌, Option, none, some, List, [], ◌∷◌, ◌==◌, ◌===◌, ltb,
  if◌then◌else◌,
}
use ccu_mcp.Prelude.Dict.{Dict, get, set, remove}
use ccu_mcp.Auth.Tokens.{Text}

-- `MAX_SESSIONS`, `SESSION_IDLE_MS`, `MAX_BODY_BYTES`
abbrev pub max_sessions : ℕ
max_sessions = 256

abbrev pub session_idle_ms : ℕ
session_idle_ms = 30 * 60000

abbrev pub max_body_bytes : ℕ
max_body_bytes = 4 * 1024 * 1024

-- A session, without its server and its transport.
pub record McpSession : Type 0 where
  pub last_seen : ℕ
  pub open_streams : ℕ

-- The line that `auth_failed` logs.
pub record AuthFailure : Type 0 where
  pub client : Text
  pub had_token : Bool

-- The map; the sessions whose streams are open, one entry for each stream; how many fresh transports have
-- not yet initialised a session; the log of failed authorisations, newest first.
pub record HttpServer : Type 0 where
  pub sessions : Dict McpSession
  pub streams : List String
  pub pending : ℕ
  pub auth_failures : List AuthFailure

abbrev pub starting : HttpServer
starting = record { sessions = []; streams = []; pending = 0; auth_failures = [] }

-- `s.lastSeen < cutoff && s.openStreams === 0`, where the cutoff is `now - SESSION_IDLE_MS`
abbrev pub is_idle : ℕ → McpSession → Bool
is_idle now s = ltb (s.last_seen + session_idle_ms) now && s.open_streams == 0

-- The loop of `evictIdleSessions` over the entries.
unfoldable pub evict_from : ℕ → Dict McpSession → Dict McpSession → Dict McpSession
evict_from now [] m = m
evict_from now ((sid, s) ∷ l) m = evict_from now l (if is_idle now s then remove m sid else m)

-- `evictIdleSessions(Date.now() - SESSION_IDLE_MS)`, which is also the periodic sweep.
unfoldable pub evict_idle : ℕ → HttpServer → HttpServer
evict_idle now s = record s { sessions = evict_from now s.sessions s.sessions }

-- What a request does to the session that it belongs to; a GET opens a stream.
abbrev pub seen : ℕ → Bool → McpSession → McpSession
seen now opens s = record {
  last_seen = now;
  open_streams = if opens then suc s.open_streams else s.open_streams;
}

unfoldable pub touch : ℕ → Bool → String → McpSession → HttpServer → HttpServer
touch now opens sid existing s = record s {
  sessions = set s.sessions sid (seen now opens existing);
  streams = if opens then sid ∷ s.streams else s.streams;
}

abbrev pub remove_one : List String → String → List String
remove_one [] x = []
remove_one (y ∷ ys) x = let rest = remove_one ys x in if y === x then ys else y ∷ rest

abbrev pub released : ℕ → McpSession → McpSession
released now s = record { last_seen = now; open_streams = s.open_streams - 1 }

abbrev pub release : ℕ → String → Option McpSession → Dict McpSession → Dict McpSession
release now sid none m = m
release now sid (some s) m = set m sid (released now s)

-- `res.on("close", …)` of a stream
unfoldable pub stream_closed : String → ℕ → HttpServer → HttpServer
stream_closed sid now s = record s {
  sessions = release now sid (get s.sessions sid) s.sessions;
  streams = remove_one s.streams sid;
}

-- `onsessioninitialized`
unfoldable pub initialized : String → ℕ → HttpServer → HttpServer
initialized sid now s = record s {
  sessions = set s.sessions sid (record { last_seen = now; open_streams = 0 });
  pending = s.pending - 1;
}

-- A fresh transport whose request was none to initialise a session.
unfoldable pub rejected : HttpServer → HttpServer
rejected s = record s { pending = s.pending - 1 }

-- `transport.onclose`
unfoldable pub transport_closed : String → HttpServer → HttpServer
transport_closed sid s = record s { sessions = remove s.sessions sid }
