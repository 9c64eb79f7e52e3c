-- ===== src/Http/Reached.antt =====
-- src/index.ts: the states that the HTTP server can get to, whatever the order of requests, closing
-- streams, transports and sweeps.
use ccu_mcp.Prelude.{
  ℕ, suc, ◌+◌, ◌-◌, ◌≤◌, ◌<◌, String, Bool, not, ◌≡◌, refl, ◌↔◌, ◌⊎◌, Option, none, some, List, [],
  ◌∷◌, ◌===◌, ◌&&◌, arith, eq_iff, if◌then◌else◌, Bool-cases, inl, inr,
}
use ccu_mcp.Prelude.Dict.{Dict, get, get-set, get-remove, Distinct, set-Distinct, remove-Distinct}
use ccu_mcp.Auth.Tokens.{verify}
use ccu_mcp.Http.Sessions.{
  McpSession, HttpServer, starting, session_idle_ms, evict_idle, seen, touch, released, release,
  remove_one, stream_closed, initialized, rejected, transport_closed,
}
use ccu_mcp.Http.Handler.{
  HttpRequest, Access, handle, admit, route, to_session, note_failure, before_query, presented,
  is_too_large,
}
use ccu_mcp.Http.Evicted.{get-evict, evict_from-Distinct}

-- How many streams of the session are open.
abbrev pub count : String → List String → ℕ
count sid [] = 0
count sid (x ∷ xs) = if x === sid then suc (count sid xs) else count sid xs

-- `randomUUID()` gives an id that no session and no stream has.
abbrev pub IsNew : String → HttpServer → Type 0
IsNew sid s = (get s.sessions sid ≡ none) × (count sid s.streams ≡ 0)

-- What happens to the server.
pub data Step (c : Access) (s : HttpServer) : HttpServer → Type 0 where
  requests : (r : HttpRequest) (now : ℕ) → Step c s (handle c r now s).1
  initialises :
      (sid : String) (now : ℕ) → 0 < s.pending → IsNew sid s → Step c s (initialized sid now s)
  rejects : 0 < s.pending → Step c s (rejected s)
  stream_closes :
      (sid : String) (now : ℕ) → 0 < count sid s.streams → Step c s (stream_closed sid now s)
  transport_closes : (sid : String) → Step c s (transport_closed sid s)
  sweeps : (now : ℕ) → Step c s (evict_idle now s)

-- Reachable while `most` fresh transports at most are initialising at the same time.
pub data Reach (c : Access) (most : ℕ) : HttpServer → Type 0 where
  here : Reach c most starting
  next : {s t : HttpServer} → Reach c most s → Step c s t → t.pending ≤ most → Reach c most t

abbrev CountedIn : List String → Dict McpSession → Type 0
CountedIn streams m =
    (sid : String) (x : McpSession) → get m sid ≡ some x → x.open_streams ≡ count sid streams

-- Every session knows how many of its streams are open, and the map has no double keys.
pub record IsSound (s : HttpServer) : Type 0 where
  pub distinct : Distinct s.sessions
  pub counted : CountedIn s.streams s.sessions

count-remove_one :
    (sid x : String) (l : List String)
    → count sid (remove_one l x) ≡ (if x === sid then count sid l - 1 else count sid l)
count-remove_one sid x [] = ground arith
count-remove_one sid x (y ∷ l) =
    ground (arith, count-remove_one sid x l, eq_iff y x, eq_iff y sid, eq_iff x sid)

evict_idle-IsSound : (now : ℕ) (s : HttpServer) → IsSound s → IsSound (evict_idle now s)
unfolding evict_idle
evict_idle-IsSound now s v = record {
  distinct = evict_from-Distinct now s.sessions s.sessions v.distinct;
  counted = λ sid x e. ground (arith, get-evict now s.sessions sid v.distinct, v.counted sid x);
}

touch-IsSound :
    (now : ℕ) (opens : Bool) (sid : String) (existing : McpSession) (s : HttpServer)
    → get s.sessions sid ≡ some existing
    → IsSound s
    → IsSound (touch now opens sid existing s)
unfolding touch
touch-IsSound now opens sid existing s e v = record {
  distinct = set-Distinct s.sessions sid (seen now opens existing) v.distinct;
  counted = λ k x f. ground (
    arith,
    get-set s.sessions sid k (seen now opens existing),
    eq_iff sid k,
    v.counted k x,
    v.counted sid existing,
  );
}

admit-IsSound : (now : ℕ) (s : HttpServer) → IsSound s → IsSound (admit now s).1
unfolding admit
admit-IsSound now s v = ground (arith, evict_idle-IsSound now s v)

-- What holds of a state however a request ends, holds behind the handler.
pub handle_rule {ℓ} :
    (P : HttpServer → Type ℓ) (c : Access) (r : HttpRequest) (now : ℕ) (s : HttpServer)
    → P s
    → P (note_failure r s)
    → P (route r now r.session_id s).1
    → P (handle c r now s).1
unfolding handle
handle_rule P c r now s same failed routed =
    let path = before_query r.url in
    elim (Bool-cases (r.method === "OPTIONS")) [
      | inl a ↦ rw a same
      | inr a ↦ elim (Bool-cases (path === "/health" && r.method === "GET")) [
        | inl b ↦ rw (a, b) same
        | inr b ↦ elim (Bool-cases (verify c.sha256 c.tokens (presented r) now)) [
          | inr d ↦ rw (a, b, d) failed
          | inl d ↦ elim (Bool-cases (not (path === "/") && not (path === "/mcp"))) [
            | inl f ↦ rw (a, b, d, f) same
            | inr f ↦ elim (Bool-cases (is_too_large r.content_length)) [
              | inl g ↦ rw (a, b, d, f, g) same
              | inr g ↦ rw (a, b, d, f, g) routed
            ]
          ]
        ]
      ]
    ]

to_session-IsSound :
    (r : HttpRequest) (now : ℕ) (sid : String) (o : Option McpSession) (s : HttpServer)
    → get s.sessions sid ≡ o
    → IsSound s
    → IsSound (to_session r now sid o s).1
to_session-IsSound r now sid none s e v = v
to_session-IsSound r now sid (some x) s e v = touch-IsSound now (r.method === "GET") sid x s e v

route-IsSound :
    (r : HttpRequest) (now : ℕ) (o : Option String) (s : HttpServer)
    → IsSound s
    → IsSound (route r now o s).1
route-IsSound r now none s v = admit-IsSound now s v
route-IsSound r now (some sid) s v = to_session-IsSound r now sid (get s.sessions sid) s refl v

released-IsSound :
    (sid : String) (now : ℕ) (o : Option McpSession) (s : HttpServer)
    → get s.sessions sid ≡ o
    → IsSound s
    → IsSound
        (record s { sessions = release now sid o s.sessions; streams = remove_one s.streams sid })
released-IsSound sid now none s e v = record {
  distinct = v.distinct;
  counted = λ k x f. ground (arith, count-remove_one k sid s.streams, eq_iff sid k, v.counted k x);
}
released-IsSound sid now (some y) s e v = record {
  distinct = set-Distinct s.sessions sid (released now y) v.distinct;
  counted = λ k x f. ground (
    arith,
    get-set s.sessions sid k (released now y),
    count-remove_one k sid s.streams,
    eq_iff sid k,
    v.counted k x,
    v.counted sid y,
  );
}

Step-IsSound : (c : Access) {s t : HttpServer} → Step c s t → IsSound s → IsSound t
unfolding initialized rejected transport_closed stream_closed
Step-IsSound c {s = s} (requests r now) v =
    handle_rule IsSound c r now s v (record { distinct = v.distinct; counted = v.counted })
      (route-IsSound r now r.session_id s v)
Step-IsSound c {s = s} (initialises sid now p f) v = record {
  distinct = set-Distinct s.sessions sid (record { last_seen = now; open_streams = 0 }) v.distinct;
  counted = λ k x e. ground (
    arith,
    get-set s.sessions sid k (record { last_seen = now; open_streams = 0 }),
    eq_iff sid k,
    v.counted k x,
  );
}
Step-IsSound c (rejects p) v = record { distinct = v.distinct; counted = v.counted }
Step-IsSound c {s = s} (stream_closes sid now p) v =
    released-IsSound sid now (get s.sessions sid) s refl v
Step-IsSound c {s = s} (transport_closes sid) v = record {
  distinct = remove-Distinct s.sessions sid v.distinct;
  counted = λ k x e. ground (arith, get-remove s.sessions sid k, v.counted k x);
}
Step-IsSound c {s = s} (sweeps now) v = evict_idle-IsSound now s v

pub Reach-IsSound : (c : Access) (most : ℕ) {s : HttpServer} → Reach c most s → IsSound s
unfolding get
Reach-IsSound c most here = record { distinct = tt; counted = λ sid x e. ground (arith, e) }
Reach-IsSound c most (next r st p) = Step-IsSound c st (Reach-IsSound c most r)

-- In every reachable state, an eviction leaves exactly the sessions as they are that have an open stream or
-- were seen in the last 30 minutes, and drops all others.
pub evict_idle-Reach :
    (c : Access) (most : ℕ) (s : HttpServer) (now : ℕ) (sid : String) (x : McpSession)
    → Reach c most s
    → (get (evict_idle now s).sessions sid ≡ some x) ↔ (
        (get s.sessions sid ≡ some x)
        × ((0 < count sid s.streams) ⊎ (now ≤ x.last_seen + session_idle_ms)))
unfolding evict_idle
evict_idle-Reach c most s now sid x r =
    let v = Reach-IsSound c most r in
    ground (arith, get-evict now s.sessions sid v.distinct, v.counted sid x)
