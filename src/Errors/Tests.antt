-- ===== src/Errors/Tests.antt =====
-- src/middleware/error-mapper.ts at concrete errors.
use ccu_mcp.Prelude.{◌≡◌, refl, some}
use ccu_mcp.Errors.{tls_error, JsError, map_network_error, mentions_mismatch, mentions_timeout}

-- A mismatch that also speaks of a timeout.
abbrev intercepted : JsError
intercepted = record {
  name = "TypeError";
  message = "fetch failed: Timeout";
  cause = some "TLS fingerprint mismatch";
}

mismatch_first : (map_network_error intercepted "Room.getAll").error ≡ tls_error
unfolding map_network_error mentions_mismatch mentions_timeout
mismatch_first = refl
