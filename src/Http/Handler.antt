-- ===== src/Http/Handler.antt =====
-- src/index.ts, `handleRequest`, with src/health/handler.ts and src/http/error-response.ts. The transports of
-- the MCP SDK are left to it: the handler says which one gets the request.
use Prim.Native.Char.{code}
use ccu_mcp.Prelude.{
  ℕ, suc, String, Bool, true, false, not, ◌&&◌, Option, none, some, List, [], ◌∷◌, ◌==◌, ◌===◌, ltb,
  leb, any, length, if◌then◌else◌,
}
use ccu_mcp.Prelude.Dict.{get}
use ccu_mcp.Auth.Tokens.{Text, Hash, AuthTokens, verify}
use ccu_mcp.Utils.{extract_bearer_token, normalize_client_ip}
use ccu_mcp.Http.Sessions.{max_sessions, max_body_bytes, McpSession, HttpServer, evict_idle, touch}

-- The parts of a request that are read. `content_length` is the number of the header, if it is one.
pub record HttpRequest : Type 0 where
  pub method : String
  pub url : String
  pub authorization : Option Text
  pub origin : Option String
  pub session_id : Option String
  pub content_length : Option ℕ
  pub remote_address : Option Text

-- What the handler knows: `MCP_ALLOWED_ORIGINS`, the tokens and SHA-256.
pub record Access : Type 0 where
  pub allowed_origins : List String
  pub tokens : AuthTokens
  pub sha256 : Hash

-- An answer of the handler itself, the health check, or the transport that the request goes to.
pub data Handled : Type 0 where
  answered : (status : ℕ) (headers : List (String × String)) (body : String) → Handled
  health : (detailed : Bool) → Handled
  routed : (sid : String) → Handled
  fresh : Handled

abbrev json : String × String
json = ("Content-Type", "application/json")

-- `config.mcp.allowedOrigins.includes(requestOrigin)`
abbrev pub origin_allowed : List String → Option String → Bool
origin_allowed allowed none = false
origin_allowed allowed (some origin) = any (λ o. o === origin) allowed

abbrev cors_for : Bool → Option String → List (String × String)
cors_for true (some origin) =
    ("Access-Control-Allow-Origin", origin)
    ∷ ("Vary", "Origin")
    ∷ ("Access-Control-Allow-Methods", "GET, POST, DELETE, OPTIONS")
    ∷ (
      "Access-Control-Allow-Headers",
      "Content-Type, Authorization, Mcp-Session-Id, Mcp-Protocol-Version, Last-Event-ID",
    )
    ∷ ("Access-Control-Expose-Headers", "Mcp-Session-Id")
    ∷ ("Access-Control-Max-Age", "86400")
    ∷ []
cors_for _ _ = []

-- The headers that are set before anything else.
unfoldable pub cors_headers : Access → HttpRequest → List (String × String)
cors_headers c r = cors_for (origin_allowed c.allowed_origins r.origin) r.origin

-- `url.split("?")[0]`
abbrev pub before_query : String → String
before_query String.[] = String.[]
before_query (String.◌∷◌ ch s) =
    let rest = before_query s in if code ch == b'?' then String.[] else String.◌∷◌ ch rest

abbrev pub or_no_text : Option Text → Text
or_no_text none = []
or_no_text (some t) = t

abbrev pub is_given : Text → Bool
is_given [] = false
is_given (ch ∷ t) = true

abbrev pub presented : HttpRequest → Text
presented r = extract_bearer_token (or_no_text r.authorization)

abbrev pub challenge : Bool → String
challenge had_token =
    if had_token
    then "Bearer realm=\"ccu-mcp\", error=\"invalid_token\""
    else "Bearer realm=\"ccu-mcp\""

abbrev pub unauthorized : Bool → Handled
unauthorized had_token =
    answered 401 (json ∷ ("WWW-Authenticate", challenge had_token) ∷ [])
      "{\"error\":\"Unauthorized\"}"

abbrev pub note_failure : HttpRequest → HttpServer → HttpServer
note_failure r s = record s {
  auth_failures =
      record { client = normalize_client_ip r.remote_address; had_token = is_given (presented r) }
      ∷ s.auth_failures;
}

abbrev pub is_too_large : Option ℕ → Bool
is_too_large none = false
is_too_large (some n) = ltb max_body_bytes n

abbrev begun : HttpServer → HttpServer
begun s = record s { pending = suc s.pending }

abbrev pub at_capacity : Handled
at_capacity =
    answered 503 (json ∷ ("Retry-After", "60") ∷ [])
      "{\"error\":\"Server at session capacity, retry later\"}"

-- A new session, if there is room.
unfoldable pub admit : ℕ → HttpServer → Handled × HttpServer
admit now s =
    if leb max_sessions (length s.sessions)
    then (let s' = evict_idle now s in
        if leb max_sessions (length s'.sessions) then (at_capacity, s') else (fresh, begun s'))
    else (fresh, begun s)

abbrev pub to_session :
    HttpRequest → ℕ → String → Option McpSession → HttpServer → Handled × HttpServer
to_session r now sid none s = (
  answered 404 (json ∷ [])
      "{\"jsonrpc\":\"2.0\",\"error\":{\"code\":-32001,\"message\":\"Session not found\"},\"id\":null}",
  s,
)
to_session r now sid (some existing) s = (routed sid, touch now (r.method === "GET") sid existing s)

-- Behind the guards: the session of the request, or a new one.
abbrev pub route : HttpRequest → ℕ → Option String → HttpServer → Handled × HttpServer
route r now none s = admit now s
route r now (some sid) s = to_session r now sid (get s.sessions sid) s

-- `handleRequest`
unfoldable pub handle : Access → HttpRequest → ℕ → HttpServer → Handled × HttpServer
handle c r now s =
    let path = before_query r.url in
    let valid = verify c.sha256 c.tokens (presented r) now in
    if r.method === "OPTIONS"
    then (answered (if origin_allowed c.allowed_origins r.origin then 204 else 403) [] "", s)
    else if path === "/health" && r.method === "GET"
    then (health valid, s)
    else if not valid
    then (unauthorized (is_given (presented r)), note_failure r s)
    else if not (path === "/") && not (path === "/mcp")
    then (answered 404 (json ∷ []) "{\"error\":\"Not found\"}", s)
    else if is_too_large r.content_length
    then (answered 413 (json ∷ []) "{\"error\":\"Request body too large\"}", s)
    else route r now r.session_id s

-- The checks of `handleHealthRequest`.
pub record Checks : Type 0 where
  pub session_valid : Bool
  pub cache_types_count : ℕ
  pub cache_warming : Bool

pub record HealthReply : Type 0 where
  pub health_status : ℕ
  pub status_text : String
  pub checks : Option Checks

-- `handleHealthRequest`
unfoldable pub handle_health_request : Checks → (detailed : Bool) → HealthReply
handle_health_request k false = record { health_status = 200; status_text = "ok"; checks = none }
handle_health_request k true = record {
  health_status = if k.session_valid then 200 else 503;
  status_text = if k.session_valid then "healthy" else "degraded";
  checks = some k;
}

-- `endWithInternalError`: what it writes before it ends the response.
unfoldable pub end_with_internal_error : (headers_sent : Bool) → Option Handled
end_with_internal_error true = none
end_with_internal_error false = some (answered 500 (json ∷ []) "{\"error\":\"Internal error\"}")
