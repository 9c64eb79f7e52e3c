-- ===== src/Errors/Mapping.antt =====
-- What src/middleware/error-mapper.ts makes of the errors of the network layer.
use ccu_mcp.Prelude.{String, true, false, ◌||◌, ◌⊎◌, ◌≡◌, ◌≢◌, ◌↔◌, some, ◌===◌, arith}
use ccu_mcp.Errors.{
  auth, timeout, unreachable, tls_error, CcuRpcError, JsError, map_ccu_error, map_network_error,
  mentions_mismatch, mentions_timeout, cause_message,
}

-- A network failure is a TLS failure exactly when its cause speaks of a fingerprint mismatch, whatever
-- its own name and message are; otherwise it is a timeout exactly when it is an abort or its message or
-- its cause's speaks of a timeout, in any case; otherwise the CCU is unreachable. It is never anything
-- else, and the method that failed is always named.
pub map_network_error_categories :
    (e : JsError) (method : String)
    → ((map_network_error e method).error ≡ tls_error ↔ mentions_mismatch (cause_message e) ≡ true)
      × ((map_network_error e method).error ≡ timeout ↔ (
          (mentions_mismatch (cause_message e) ≡ false)
          × ((e.name === "AbortError"
                || mentions_timeout e.message
                || mentions_timeout (cause_message e))
              ≡ true)))
      × (((map_network_error e method).error ≡ tls_error)
          ⊎ ((map_network_error e method).error ≡ timeout)
          ⊎ ((map_network_error e method).error ≡ unreachable))
      × ((map_network_error e method).ccu_method ≡ some method)
unfolding map_network_error
map_network_error_categories e method = ground arith

-- The error codes of the CCU: a session error (400) is the only one that asks for a new login, and no
-- code is reported as a timeout, an unreachable CCU or a TLS failure, so none is ever retried.
pub map_ccu_error_auth :
    (e : CcuRpcError) (method : String)
    → ((map_ccu_error e method).error ≡ auth ↔ e.code ≡ 400)
      × ((map_ccu_error e method).error ≢ timeout)
      × ((map_ccu_error e method).error ≢ unreachable)
      × ((map_ccu_error e method).ccu_code ≡ some e.code)
unfolding map_ccu_error
map_ccu_error_auth e method = ground arith
