-- ===== src/Ccu/Session.antt =====
-- src/ccu/session.ts: `SessionManager`, the session with one CCU. Each call runs by itself, so the
-- promise that concurrent callers of `login` share is left out. `client` is the CCU client (a method
-- with its reply, or what it throws), over a world `W` of its own; `pause` is the wait before the next
-- login. A reply is a text. The session file is what `JSON.parse` makes of it; scrypt and the reading
-- of hexadecimal digits are parameters.
pub mod Calls
mod Steps
mod InFlight
mod Renewal
mod Closed
mod Denial
mod Tests
use ccu_mcp.Prelude.{
  ℕ, suc, zero, ◌+◌, Bool, true, false, not, ◌&&◌, ◌||◌, Option, none, some, List, [], ◌∷◌, ◌++◌,
  ◌==◌, String, ◌<>◌, codes, length, filter, includes, usable, is_some, text_eq, if◌then◌else◌,
}
use ccu_mcp.Prelude.Decimal.{show}
use ccu_mcp.Errors.{ErrorCategory, auth, StructuredError, Failure, ccu, other, plain_error}
use ccu_mcp.Action.{Outcome, ok, thrown, Action, pure, throw, ◌>>=◌, ◌>>◌, try◌, gets, modify}

abbrev pub Text : Type 0
Text = List ℕ

-- The fields of `CcuConfig` that are used here.
pub record CcuConfig : Type 0 where
  pub host : Text
  pub port : ℕ
  pub user : Text
  pub password : Text

-- The session file; `none` for a field that is missing or of another type.
pub record SessionFile : Type 0 where
  pub file_session : Option Text
  pub file_host : Option Text
  pub file_port : Option ℕ
  pub file_user : Option Text
  pub cred_salt : Option Text
  pub cred : Option Text

-- What the client sends: the calls of this module, and those of the tools with the session's id.
pub data Request (P : Type 0) : Type 0 where
  session_renew : Text → Request P
  session_login : Request P
  session_logout : Text → Request P
  tool_call : String → P → Text → Request P

-- The fields of `SessionManager`; `active` are the timers that will fire, and `sent` the requests so
-- far, newest first.
pub record SessionManager (W P : Type 0) : Type 0 where
  pub session_id : Option Text
  pub renew_timer : Option ℕ
  pub closed : Bool
  pub file : Option SessionFile
  pub next_handle : ℕ
  pub active : List ℕ
  pub sent : List (Request P)
  pub world : W

-- What the session manager is built from.
pub record Services (W P : Type 0) : Type 0 where
  pub client : Request P → Action W Text
  pub pause : W → W
  pub config : CcuConfig
  -- `scryptSync(input, Buffer.from(salt, "hex"), 32).toString("hex")`; `none` if it throws.
  pub scrypt_hex : Text → Text → Option Text
  -- `Buffer.from(text, "hex")`
  pub from_hex : Text → Text
  -- The salt of the next file, and whether it can be written.
  pub salt : W → Text
  pub writable : W → Bool

abbrev pub login_max_retries : ℕ
login_max_retries = 3

-- The constructor's fields.
abbrev pub create : {W P : Type 0} → W → Option SessionFile → SessionManager W P
create world file = record {
  session_id = none;
  renew_timer = none;
  closed = false;
  file = file;
  next_handle = 0;
  active = [];
  sent = [];
  world = world;
}

abbrev pub shut_down : Failure
shut_down = ccu (
    plain_error auth "Session manager is closed (server shutting down)"
      "Retry after the server restarts.")

abbrev pub no_session : Failure
no_session = ccu (
    plain_error auth "No active session"
      "Session not initialized. The server may still be starting.")

abbrev pub denied : String → StructuredError → Failure
denied method e = ccu (record {
  error = auth;
  code = e.code;
  message = "Access denied for " <> method <> ": the CCU user lacks the required privilege level";
  hint =
      "The session is valid but the configured CCU user may not call this method (e.g. script execution needs an ADMIN-level user). Configure a user with sufficient rights or avoid this tool.";
  ccu_method = some method;
  ccu_code = none;
})

abbrev pub out_of_retries : StructuredError → Failure
out_of_retries e = ccu (record e {
  error = auth;
  hint =
      "The CCU reports one error for both invalid credentials and too many sessions. Verify CCU_USER/CCU_PASSWORD first; if they are correct, wait a few minutes for stale CCU sessions to expire and try again.";
})

abbrev pub is_auth : ErrorCategory → Bool
is_auth auth = true
is_auth _ = false

-- `err instanceof CcuError && err.structured.error === "AUTH"`, with the structured error.
abbrev pub auth_error : Failure → Option StructuredError
auth_error (ccu e) = if is_auth e.error then some e else none
auth_error (other e) = none

-- `err instanceof CcuError && err.structured.message?.includes("too many sessions")`
abbrev pub too_many : Failure → Option StructuredError
too_many (ccu e) = if includes (codes "too many sessions") (codes e.message) then some e else none
too_many (other e) = none

abbrev pub same_text : Option Text → Option Text → Bool
same_text none none = true
same_text (some a) (some b) = text_eq a b
same_text _ _ = false

abbrev pub same_number : Option ℕ → ℕ → Bool
same_number none n = false
same_number (some m) n = m == n

-- The input of `credVerifier`.
pub cred_input : CcuConfig → Text
cred_input c = show (length c.user) ++ codes ":" ++ c.user ++ codes ":" ++ c.password
