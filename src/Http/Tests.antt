-- ===== src/Http/Tests.antt =====
-- src/index.ts: a server with one token, from its start to a full map of sessions.
use ccu_mcp.Prelude.{
  ◌+◌, ◌≤◌, ◌<◌, true, false, ◌↔◌, ◌⊎◌, ◌≡◌, refl, none, some, [], ◌∷◌, length, codes, arith,
}
use ccu_mcp.Prelude.Dict.{get, set, remove}
use ccu_mcp.Auth.Tokens.{verify, verify_from}
use ccu_mcp.Utils.{extract_bearer_token}
use ccu_mcp.Http.Sessions.{
  McpSession, HttpServer, starting, evict_from, evict_idle, touch, stream_closed, initialized,
  session_idle_ms,
}
use ccu_mcp.Http.Handler.{
  HttpRequest, Access, fresh, answered, health, unauthorized, handle, admit, presented,
  note_failure, before_query,
}
use ccu_mcp.Http.Reached.{Reach, here, next, requests, initialises, count, evict_idle-Reach}
use ccu_mcp.Http.Bounds.{Reach-sessions}
use ccu_mcp.Http.Gate.{handle-unverified}

abbrev access : Access
access = record {
  allowed_origins = "https://app.example" ∷ [];
  tokens = record { hash = codes "secret"; expires_at = none; label = codes "env" } ∷ [];
  sha256 = λ t. t;
}

abbrev post : HttpRequest
post = record {
  method = "POST";
  url = "/mcp?x=1";
  authorization = some (codes "Bearer secret");
  origin = none;
  session_id = none;
  content_length = some 120;
  remote_address = some (codes "::ffff:10.0.0.1");
}

abbrev listen : HttpRequest
listen = record post { method = "GET"; session_id = some "a" }

abbrev intruder : HttpRequest
intruder = record listen { authorization = some (codes "Bearer guess") }

-- One request that initialises the session "a", and its stream of notifications.
abbrev admitted_one : HttpServer
admitted_one = (handle access post 5 starting).1

abbrev with_session : HttpServer
with_session = initialized "a" 6 admitted_one

abbrev with_stream : HttpServer
with_stream = (handle access listen 7 with_session).1

abbrev watched : McpSession
watched = record { last_seen = 7; open_streams = 1 }

runs :
    ((handle access post 5 starting).0 ≡ fresh)
    × (with_stream.sessions ≡ ("a", watched) ∷ [])
    × (verify access.sha256 access.tokens (presented intruder) 8 ≡ false)
    × ((handle access (record post { session_id = some "b" }) 8 with_stream).1 ≡ with_stream)
    × ((evict_idle 2000000 with_stream).sessions ≡ ("a", watched) ∷ [])
    × ((evict_idle 2000000 (stream_closed "a" 9 with_stream)).sessions ≡ [])
unfolding handle initialized admit evict_idle evict_from touch stream_closed get set remove verify
    verify_from extract_bearer_token
runs = (refl, refl, refl, refl, refl, refl)

reached : Reach access 1 with_stream
unfolding handle initialized admit touch get set verify verify_from extract_bearer_token
reached =
    next
      (next (next here (requests post 5) (omega arith))
        (initialises "a" 6 (omega arith) (refl, refl)) (omega arith))
      (requests listen 7) (omega arith)

Reach-sessions_example : length with_stream.sessions ≤ 255 + 1
Reach-sessions_example = Reach-sessions access 1 with_stream reached

evict_idle-Reach_example : (get (evict_idle 2000000 with_stream).sessions "a" ≡ some watched) ↔ (
    (get with_stream.sessions "a" ≡ some watched)
    × ((0 < count "a" with_stream.streams) ⊎ (2000000 ≤ 7 + session_idle_ms)))
evict_idle-Reach_example = evict_idle-Reach access 1 with_stream 2000000 "a" watched reached

handle-unverified_example :
    ((intruder.method ≡ "OPTIONS")
      × (handle access intruder 8 with_stream ≡ (answered 403 [] "", with_stream)))
    ⊎ (((intruder.method ≡ "GET")
          × (before_query intruder.url ≡ "/health")
          × (handle access intruder 8 with_stream ≡ (health false, with_stream)))
        ⊎ (handle access intruder 8 with_stream
            ≡ (unauthorized true, note_failure intruder with_stream)))
unfolding extract_bearer_token
handle-unverified_example = handle-unverified access intruder 8 with_stream runs.2
