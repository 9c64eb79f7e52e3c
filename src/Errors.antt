-- ===== src/Errors.antt =====
-- src/ccu/types.ts (`ErrorCategory`, `StructuredError`) and src/middleware/error-mapper.ts: the
-- structured errors that tools answer with. An error code is a natural number, as every code that
-- the CCU documents is.
pub mod Mapping
mod Tests
use ccu_mcp.Prelude.{
  ℕ, String, Bool, true, false, ◌||◌, Option, none, some, ◌==◌, ◌===◌, ◌<>◌, List, [], ◌∷◌, ltb,
  leb, ◌&&◌, ◌+◌, map, codes, includes, if◌then◌else◌,
}

pub data ErrorCategory : Type 0 where
  auth not_found invalid_input ccu_error timeout unreachable tls_error rate_limited internal :
      ErrorCategory

pub record StructuredError : Type 0 where
  pub error : ErrorCategory
  pub code : ℕ
  pub message : String
  pub hint : String
  pub ccu_method : Option String
  pub ccu_code : Option ℕ

pub record CcuRpcError : Type 0 where
  pub name : String
  pub code : ℕ
  pub message : String

-- An error that JavaScript throws: `cause` is the message of a cause that is itself an `Error`.
pub record JsError : Type 0 where
  pub name : String
  pub message : String
  pub cause : Option String

-- What can be thrown: a `CcuError` around a structured error, or any other error.
pub data Failure : Type 0 where
  ccu : StructuredError → Failure
  other : JsError → Failure

-- An error of ccu-mcp itself: no method, no CCU code.
abbrev pub plain_error : ErrorCategory → String → String → StructuredError
plain_error category message hint = record {
  error = category;
  code = 0;
  message = message;
  hint = hint;
  ccu_method = none;
  ccu_code = none;
}

pub record Mapped : Type 0 where
  pub category : ErrorCategory
  pub hint : String

abbrev mapped : ErrorCategory → String → Option Mapped
mapped category hint = some (record { category = category; hint = hint })

-- `CCU_ERROR_MAP`
unfoldable pub ccu_error_map : ℕ → Option Mapped
ccu_error_map code =
    if code == 400
    then mapped auth "Session expired. Will re-login automatically."
    else if code == 401
    then mapped internal "Invalid CCU method called — this is a bug in ccu-mcp."
    else if code == 402
    then mapped internal "Missing required argument — this is a bug in ccu-mcp."
    else if code == 501
    then mapped ccu_error "CCU internal error. Try again or check CCU logs."
    else if code == 502
    then mapped not_found
        "Device or channel not found. Call list_devices to discover valid addresses."
    else if code == 503
    then mapped not_found
        "Invalid paramset key. Valid keys are VALUES, MASTER, or a link partner's channel address."
    else if code == 505
    then mapped invalid_input
        "Invalid valueKey or value. Call describe_device_type to see valid parameters."
    else if code == 506
    then mapped invalid_input "Operation not supported by this device/channel."
    else if code == 507
    then mapped ccu_error "Transmission pending in HmIP Legacy API. Try again shortly."
    else none

abbrev category_or_default : Option Mapped → ErrorCategory
category_or_default none = ccu_error
category_or_default (some m) = m.category

abbrev hint_or_default : Option Mapped → String
hint_or_default none = "Unexpected CCU error."
hint_or_default (some m) = m.hint

-- `mapCcuError`
unfoldable pub map_ccu_error : CcuRpcError → String → StructuredError
unfolding ccu_error_map
map_ccu_error e method =
    let m = ccu_error_map e.code in
    record {
      error = category_or_default m;
      code = e.code;
      message = e.message;
      hint = hint_or_default m;
      ccu_method = some method;
      ccu_code = some e.code;
    }

-- ASCII lower case of one code unit: the `i` flag of /timeout/i folds no other character onto an
-- ASCII letter.
abbrev pub to_lower : ℕ → ℕ
to_lower c = if leb b'A' c && leb c b'Z' then c + 32 else c

-- `/timeout/i.test(message)`
unfoldable pub mentions_timeout : String → Bool
mentions_timeout message = includes (codes "timeout") (map to_lower (codes message))

unfoldable pub mentions_mismatch : String → Bool
mentions_mismatch message = includes (codes "fingerprint mismatch") (codes message)

abbrev pub cause_message : JsError → String
cause_message e = elim e.cause [ none ↦ "" | some m ↦ m ]

abbrev described : JsError → String
described e =
    if cause_message e === "" then e.message else e.message <> " (" <> cause_message e <> ")"

abbrev network_error : ErrorCategory → String → String → String → StructuredError
network_error category message hint method = record (plain_error category message hint) {
  ccu_method = some method;
}

-- `mapNetworkError`
unfoldable pub map_network_error : JsError → String → StructuredError
map_network_error e method =
    if mentions_mismatch (cause_message e)
    then network_error tls_error ("CCU TLS certificate verification failed: " <> cause_message e)
        "The CCU presented a DIFFERENT certificate than the pinned one. If the CCU's certificate was legitimately renewed, refresh CCU_TLS_FINGERPRINT; otherwise treat this as a possible interception attempt."
        method
    else if e.name === "AbortError"
        || mentions_timeout e.message
        || mentions_timeout (cause_message e)
    then network_error timeout ("Request to CCU timed out: " <> method)
        "CCU may be slow or overloaded. Try again." method
    else network_error unreachable ("Cannot connect to CCU: " <> described e)
        "Check that the CCU is running and reachable at the configured host/port." method
