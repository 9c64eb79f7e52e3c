-- ===== src/Tools/Tests.antt =====
-- `resolveInterface` at a resolver that knows nothing.
use ccu_mcp.Prelude.{ℕ, ◌≡◌, refl, [], ◌∷◌}
use ccu_mcp.Prelude.Dict.{get, set}
use ccu_mcp.Action.{ok}
use ccu_mcp.Middleware.Resolver.{
  device_address, has_colon, before_colon, update_device_list, fill_map,
}
use ccu_mcp.Middleware.Retry.{with_retry, attempts, non_idempotent}
use ccu_mcp.Tools.Target.{
  ToolState, request, acquire, sleep, retried, expect_array, refresh, resolve_interface,
}
use ccu_mcp.Tools.Example.{services, fresh}

abbrev learned : ToolState ℕ ℕ
learned = (resolve_interface services "A1:1" fresh).1

-- The first call fetches the device list, the second finds what it left.
resolves :
    ((resolve_interface services "A1:1" fresh).0 ≡ ok "HmIP-RF")
    × ((resolve_interface services "A1:1" fresh).1.sent
        ≡ record { method = "Device.listAllDetail"; params = [] } ∷ [])
    × (resolve_interface services "A1:2" learned ≡ (ok "HmIP-RF", learned))
unfolding resolve_interface device_address has_colon before_colon refresh retried with_retry
    attempts non_idempotent expect_array request acquire sleep update_device_list fill_map get set
resolves = (refl, refl, refl)
