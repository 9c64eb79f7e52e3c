-- ===== src/Ccu/Client.antt =====
-- src/ccu/client.ts: the calls of the CCU over HTTP, and how its TLS certificate is verified. `fetch`,
-- `JSON.parse`, the TLS connection, `toLowerCase` and the printing of numbers are parameters.
mod Outcomes
mod Pinning
mod Tests
use Prim.Native.Char.{code}
use Prim.Native.String
use ccu_mcp.Prelude.{
  ℕ, zero, suc, ◌-◌, String, Bool, true, false, not, ◌||◌, ◌&&◌, Option, none, some, ◌==◌, ◌===◌,
  ◌<>◌, ltb, leb, if◌then◌else◌,
}
use ccu_mcp.Errors.{
  JsError, StructuredError, Failure, ccu, other, CcuRpcError, plain_error, ccu_error, map_ccu_error,
  map_network_error,
}
use ccu_mcp.Action.{Action, Outcome, ok, thrown, pure, throw, ◌>>=◌, ◌>>◌, gets, modify, try◌}
use ccu_mcp.Config.{CcuConfig}

-- What is read of a JSON text: `null`, or a truthy `error` and the `result`.
pub data Json (D : Type 0) : Type 0 where
  null : Json D
  envelope : Option CcuRpcError → D → Json D

-- The request that is sent: `id`, `method` and `params`, with the time that it is given.
pub record RpcRequest (P : Type 0) : Type 0 where
  pub id : String
  pub method : String
  pub params : P
  pub timeout : ℕ

pub record HttpReply : Type 0 where
  pub http_status : ℕ
  pub body : String

-- How a certificate is verified; the last is the trust store of the system, or nothing.
pub data Trust : Type 0 where
  pinned : (expected : String) → Trust
  ca : (pem : String) → Trust
  system : (verified : Bool) → Trust

-- What the TLS connection to a peer gives: an error, no socket, or a socket with the fingerprint of the
-- certificate that the peer presented, if it has one.
pub data Handshake : Type 0 where
  broken : (message : String) → Handshake
  no_socket : Handshake
  connected : (fingerprint256 : Option String) → Handshake

-- `fetch` and the read of its body end in a reply or throw an error of JavaScript; so does the abort.
pub data Fetched : Type 0 where
  reply : HttpReply → Fetched
  failed : JsError → Fetched

pub record Network (W P D : Type 0) : Type 0 where
  pub fetch : (url : String) → (dispatcher : Option Trust) → RpcRequest P → W → Fetched × W
  pub parse_json : String → Option (Json D)
  pub shown : ℕ → String
  pub lower : String → String

-- What the client keeps, and the world behind it.
pub record CcuClient (W : Type 0) : Type 0 where
  pub request_counter : ℕ
  pub world : W

-- `fp.replace(/:/g, "")`
abbrev without_colons : String → String
without_colons String.[] = String.[]
without_colons (String.◌∷◌ c s) =
    let rest = without_colons s in if code c == b':' then rest else String.◌∷◌ c rest

-- `text.slice(0, n)`, but for a surrogate pair that the cut would divide.
abbrev pub slice_to : ℕ → String → String
slice_to zero s = String.[]
slice_to (suc n) String.[] = String.[]
slice_to (suc n) (String.◌∷◌ c s) =
    String.◌∷◌ c (slice_to (if leb 65536 (code c) then n - 1 else n) s)

abbrev pub or_timeout : Option ℕ → ℕ → ℕ
or_timeout none t = t
or_timeout (some n) t = n

-- A non-empty setting.
abbrev pub truthy : Option String → Bool
truthy none = false
truthy (some s) = not (s === "")

abbrev pub or_empty : Option String → String
or_empty none = ""
or_empty (some s) = s

module _ {W P D : Type 0} (v : Network W P D) where
  -- `normalizeFingerprint`
  unfoldable pub normalize_fingerprint : String → String
  normalize_fingerprint fp = v.lower (without_colons fp)

  -- `buildConnect`
  unfoldable pub build_connect : CcuConfig → Trust
  build_connect c =
      if truthy c.tls_fingerprint
      then pinned (normalize_fingerprint (or_empty c.tls_fingerprint))
      else if truthy c.ca_cert
      then ca (or_empty c.ca_cert)
      else system c.tls_verify

  abbrev pub actual_fingerprint : Option String → String
  actual_fingerprint fp = if truthy fp then normalize_fingerprint (or_empty fp) else ""

  abbrev pub mismatch_rest : String → String → String
  mismatch_rest expected actual =
      expected <> ", got " <> (if actual === "" then "none" else actual) <> ")"

  abbrev pub mismatch : String → String → String
  mismatch expected actual =
      "CCU TLS certificate fingerprint mismatch (expected " <> mismatch_rest expected actual

  -- The check of the fingerprint that is presented: `none` if it is accepted, or the message of the error.
  unfoldable pub pin : (expected : String) → Option String → Option String
  pin expected fp =
      let actual = actual_fingerprint fp in
      if actual === "" || not (actual === expected) then some (mismatch expected actual) else none

  -- The pinning connector: `none` where it passes on the socket, or the message of its error.
  unfoldable pub connect : (expected : String) → Handshake → Option String
  unfolding pin
  connect expected (broken message) = some message
  connect expected no_socket = some "CCU TLS connect failed"
  connect expected (connected fp) = pin expected fp

  -- `dispatcher`: an agent with that connector, for HTTPS only.
  unfoldable pub dispatcher : CcuConfig → Option Trust
  unfolding build_connect
  dispatcher c = if c.https then some (build_connect c) else none

  -- `baseUrl`
  abbrev pub base_url : CcuConfig → String
  base_url c =
      (if c.https then "https" else "http")
      <> "://"
      <> c.host
      <> ":"
      <> v.shown c.port
      <> "/api/homematic.cgi"

  abbrev pub Call : Type 0 → Type 0
  Call A = Action (CcuClient W) A

  -- `++this.requestCounter`
  abbrev pub next_id : Call ℕ
  next_id s = (ok (suc s.request_counter), record s { request_counter = suc s.request_counter })

  abbrev pub end_fetch : String → Fetched → Outcome HttpReply
  end_fetch method (reply r) = ok r
  end_fetch method (failed e) = thrown (ccu (map_network_error e method))

  -- The request; what it throws is mapped to a network error.
  unfoldable pub send : CcuConfig → RpcRequest P → Call HttpReply
  send c r s =
      let (f, w) = v.fetch (base_url c) (dispatcher c) r s.world in
      (end_fetch r.method f, record s { world = w })

  abbrev pub unexpected : String → String → String → Failure
  unexpected method message hint =
      ccu (record (plain_error ccu_error message hint) { ccu_method = some method })

  abbrev pub invalid_json : String → HttpReply → Failure
  invalid_json method r =
      unexpected method
        ("Invalid JSON response from CCU (HTTP "
          <> v.shown r.http_status
          <> "): "
          <> slice_to 200 r.body)
        "CCU returned invalid JSON. It may be overloaded, misconfigured, or behind a proxy returning an error page."

  abbrev pub bad_status : String → HttpReply → Failure
  bad_status method r =
      unexpected method
        ("Unexpected HTTP "
          <> v.shown r.http_status
          <> " from CCU endpoint (no JSON-RPC error in body)")
        "The response did not come from the CCU JSON-RPC API — check proxies or the CCU's web server."

  -- `response.error` of `null` throws.
  abbrev pub type_error : JsError
  type_error = record {
    name = "TypeError";
    message = "Cannot read properties of null (reading 'error')";
    cause = none;
  }

  abbrev pub is_success : ℕ → Bool
  is_success status = leb 200 status && ltb status 300

  -- What follows the request.
  unfoldable pub read_reply : String → HttpReply → Option (Json D) → Outcome D
  read_reply method r none = thrown (invalid_json method r)
  read_reply method r (some null) = thrown (other type_error)
  read_reply method r (some (envelope (some e) result)) = thrown (ccu (map_ccu_error e method))
  read_reply method r (some (envelope none result)) =
      if is_success r.http_status then ok result else thrown (bad_status method r)

  -- `call`
  unfoldable pub call : CcuConfig → String → P → Option ℕ → Call D
  call c method params timeout = next_id >>= λ n.
      send c (record {
        id = v.shown n;
        method = method;
        params = params;
        timeout = or_timeout timeout c.timeout;
      })
      >>= λ r s. (read_reply method r (v.parse_json r.body), s)
