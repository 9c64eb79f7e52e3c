-- ===== src/Tools/Target.antt =====
-- What a tool works on: the state of the target that it pinned at its start, the requests that it sent,
-- and the world behind the CCU client. The calls of one tool are one action; what other tools do to the
-- type cache of system variables while this one waits for a reply is the parameter `meanwhile`.
use ccu_mcp.Prelude.{
  ℕ, String, Bool, Option, none, some, List, [], ◌∷◌, map, ◌===◌, ◌<>◌, if◌then◌else◌,
}
use ccu_mcp.Prelude.Dict.{Dict}
use ccu_mcp.Errors.{Failure, ccu, ccu_error, not_found, invalid_input, plain_error}
use ccu_mcp.Action.{Action, pure, throw, ◌>>=◌, ◌>>◌, gets, modify}
use ccu_mcp.Middleware.Retry.{RetryOptions, one_retry, with_retry}
use ccu_mcp.Middleware.Resolver.{
  Resolver, CcuDevice, CachedDeviceType, get_in, device_address, update_device_list,
}
use ccu_mcp.Ccu.Targets.{Naming, Target, TargetSelection, assert_writable}
use ccu_mcp.Tools.Values.{Param, Request, Item, Reply, items}

-- What `SysVar.getAll` said of a variable.
pub record SysvarType : Type 0 where
  pub var_type : String
  pub labels : Option String

pub record TypeEntry : Type 0 where
  pub ts : ℕ
  pub types : Dict SysvarType

-- `SysVarTypeCacheHolder` of src/ccu/target-registry.ts
pub record SysvarTypes : Type 0 where
  pub entry : Option TypeEntry
  pub gen : ℕ

pub record ToolState (W N : Type 0) : Type 0 where
  pub selection : TargetSelection
  pub resolver : Resolver
  pub device_types : Dict CachedDeviceType
  pub sysvar_types : SysvarTypes
  pub world : W
  -- Newest first.
  pub sent : List (Request N)

-- What a tool is given: the session with the CCU, the rate limiter, the clock.
pub record Services (W N : Type 0) : Type 0 where
  pub session_call : Request N → Action W (Reply N)
  pub take_token : Action W (Unit {0})
  pub delay : ℕ → Action W (Unit {0})
  pub now : W → ℕ
  pub meanwhile : W → SysvarTypes → SysvarTypes

abbrev pub invalid : String → String → Failure
invalid message hint = ccu (plain_error invalid_input message hint)

abbrev pub missing : String → String → Failure
missing message hint = ccu (plain_error not_found message hint)

abbrev pub broken : String → String → Failure
broken message hint = ccu (plain_error ccu_error message hint)

module _ {W N : Type 0} (v : Services W N) where
  abbrev pub Tool : Type 0 → Type 0
  Tool A = Action (ToolState W N) A

  -- `session.call(method, params)`
  unfoldable pub request : String → List (String × Param N) → Tool (Reply N)
  request method params s =
      let r : Request N = record { method = method; params = params } in
      let (o, w) = v.session_call r s.world in
      (o, record s { world = w; sent = r ∷ s.sent; sysvar_types = v.meanwhile w s.sysvar_types })

  -- `rateLimiter.acquire()`
  unfoldable pub acquire : Tool (Unit {0})
  acquire s = let (o, w) = v.take_token s.world in (o, record s { world = w })

  unfoldable pub sleep : ℕ → Tool (Unit {0})
  sleep ms s = let (o, w) = v.delay ms s.world in (o, record s { world = w })

  abbrev pub paid_retry : RetryOptions (ToolState W N)
  paid_retry = one_retry acquire

  -- `withRetry(() => session.call(method, params), label, logger, { rateLimiter })`
  unfoldable pub retried : String → String → List (String × Param N) → Tool (Reply N)
  retried label method params = with_retry sleep paid_retry (request method params) label

  -- A request with a token of its own, retried.
  abbrev pub paid : String → List (String × Param N) → Tool (Reply N)
  paid method params = acquire >> retried method method params

  abbrev pub not_an_array : Failure
  not_an_array =
      broken "CCU returned an unexpected non-array result"
        "The CCU (or a proxy in front of it) answered with a malformed result. Try again; if it persists, check the CCU's API service."

  -- `expectArray` of src/utils.ts
  unfoldable pub expect_array : Reply N → Tool (List Item)
  expect_array (items l) = pure l
  expect_array _ = throw not_an_array

  -- The list that a method answers.
  abbrev pub fetch_items : String → Tool (List Item)
  fetch_items method = paid method [] >>= expect_array

  abbrev pub fetch_devices : Tool (List CcuDevice)
  fetch_devices = fetch_items "Device.listAllDetail" >>= λ l. pure (map (λ i. i.device) l)

  -- `assertWritable` for the pinned target.
  unfoldable pub gate : Naming → Target → (confirm : Option Bool) (always : Bool) → Tool (Unit {0})
  gate n t confirm always s =
      let (o, selection) = assert_writable n t confirm always s.selection in
      (o, record s { selection = selection })

  -- `doRefresh` of src/middleware/resolver.ts
  unfoldable pub refresh : Tool (Unit {0})
  refresh = fetch_devices >>= λ l. modify (λ s. record s { resolver = update_device_list l })

  abbrev pub unresolved : String → Failure
  unresolved address =
      missing ("Cannot resolve interface for address: " <> address)
        "Address not found in device list. Call list_devices to discover valid addresses."

  -- The end of `resolveInterface`: an empty interface is as none.
  abbrev pub found_interface : String → Option String → Tool String
  found_interface address none = throw (unresolved address)
  found_interface address (some i) = if i === "" then throw (unresolved address) else pure i

  abbrev pub known_interface : String → Tool (Option String)
  known_interface address = gets (λ s. get_in s.resolver.interface_map (device_address address))

  abbrev pub or_refreshed : String → Option String → Tool String
  or_refreshed address (some i) = pure i
  or_refreshed address none = refresh >> (known_interface address >>= found_interface address)

  -- `resolveInterface` of src/middleware/resolver.ts
  unfoldable pub resolve_interface : String → Tool String
  resolve_interface address = known_interface address >>= or_refreshed address
