-- ===== src/Middleware/Resolver/Tests.antt =====
-- src/middleware/resolver.ts at a list with two devices of one address.
use ccu_mcp.Prelude.{String, ◌≡◌, refl, none, some, List, [], ◌∷◌}
use ccu_mcp.Middleware.Resolver.{
  CcuDevice, CachedDeviceType, before_colon, has_colon, after_colon, device_address, channel_index,
  get_in, fill_map, update_device_list, get_device_type, resolve_type, rpc_type,
  resolve_raw_param_type,
}
use ccu_mcp.Prelude.Dict.{Dict, get, set}
use ccu_mcp.Middleware.Resolver.Lookup.{last_device, update_device_list-finds}

abbrev device : (address interface type : String) → CcuDevice
device address interface type = record {
  address = address;
  device_interface = interface;
  device_type = type;
  channels = [];
}

abbrev devices : List CcuDevice
devices =
    device "A1" "BidCos-RF" "Old"
    ∷ device "B2" "HmIP-RF" "Dimmer"
    ∷ device "A1" "HmIP-RF" "Switch"
    ∷ []

abbrev cache : Dict CachedDeviceType
cache =
    (
      "Switch",
      record {
        type_interface = "HmIP-RF";
        schemas =
            (
              "1",
              record {
                schema_type = "KEY";
                paramsets = ("VALUES", ("PRESS", record { param_type = "ACTION" }) ∷ []) ∷ [];
              },
            )
            ∷ [];
      },
    )
    ∷ []

lookups :
    (get_device_type (update_device_list devices) "A1:1" ≡ some "Switch")
    × (get_device_type (update_device_list devices) "C3:1" ≡ none)
    × (channel_index "A1:" ≡ "0")
    × (resolve_type (update_device_list devices) cache "A1:1" "PRESS" "VALUES" ≡ some "bool")
    × (resolve_type (update_device_list devices) cache "A1:2" "PRESS" "VALUES" ≡ none)
unfolding get_device_type update_device_list device_address channel_index has_colon before_colon
    after_colon resolve_type resolve_raw_param_type rpc_type fill_map get set
lookups = (refl, refl, refl, refl, refl)

update_device_list-finds_example :
    (get_in (update_device_list devices).interface_map "A1" ≡ some "HmIP-RF")
    × (get_device_type (update_device_list devices) "A1" ≡ some "Switch")
    × ((update_device_list devices).device_list ≡ some devices)
unfolding last_device device_address has_colon before_colon
update_device_list-finds_example = update_device_list-finds devices "A1"
