-- ===== src/Tools/Interface.antt =====
-- `resolveInterface` of src/middleware/resolver.ts: what it answers, and when it asks the CCU.
use ccu_mcp.Prelude.{String, ◌≡◌, refl, Option, none, some, Bool-cases, inl, inr, ◌===◌}
use ccu_mcp.Action.{ok}
use ccu_mcp.Action.Ends.{IfOk, bind-IfOk, IfOk-ok}
use ccu_mcp.Middleware.Resolver.{get_in, device_address}
use ccu_mcp.Tools.Target.{
  ToolState, Services, found_interface, or_refreshed, refresh, resolve_interface,
}

module _ {W N : Type 0} (v : Services W N) where
  abbrev Listed : String → String → ToolState W N → Type 0
  Listed address i s = get_in s.resolver.interface_map (device_address address) ≡ some i

  found-Listed :
      (address : String) (o : Option String) (s : ToolState W N)
      → get_in s.resolver.interface_map (device_address address) ≡ o
      → IfOk (Listed address) (found_interface v address o s).0 (found_interface v address o s).1
  found-Listed address none s h = tt
  found-Listed address (some i) s h = elim (Bool-cases (i === "")) [
    | inl y ↦ rw y (tt {0})
    | inr y ↦ rw y h
  ]

  or_refreshed-Listed :
      (address : String) (o : Option String) (s : ToolState W N)
      → get_in s.resolver.interface_map (device_address address) ≡ o
      → IfOk (Listed address) (or_refreshed v address o s).0 (or_refreshed v address o s).1
  or_refreshed-Listed address (some i) s h = h
  or_refreshed-Listed address none s h = bind-IfOk (Listed address) (refresh v) _ s λ u e.
      let fresh = (refresh v s).1 in
      found-Listed address (get_in fresh.resolver.interface_map (device_address address)) fresh refl

  -- An interface that is known is answered without a request or a change.
  resolve_interface_hit :
      (address i : String) (s : ToolState W N)
      → get_in s.resolver.interface_map (device_address address) ≡ some i
      → resolve_interface v address s ≡ (ok i, s)
  unfolding resolve_interface
  resolve_interface_hit address i s h = rw h refl

  -- Whatever `resolveInterface` answers, with or without fetching the device list, the resolver then has
  -- it for the device of the address.
  pub resolve_interface-known :
      (address i : String) (s : ToolState W N)
      → (resolve_interface v address s).0 ≡ ok i
      → get_in (resolve_interface v address s).1.resolver.interface_map (device_address address)
        ≡ some i
  unfolding resolve_interface
  resolve_interface-known address i s =
      IfOk-ok (Listed address) (resolve_interface v address s).0 (resolve_interface v address s).1
        (or_refreshed-Listed address (get_in s.resolver.interface_map (device_address address)) s
          refl)
        i
