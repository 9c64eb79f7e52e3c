-- ===== src/Cache/DeviceTypes/Tests.antt =====
-- src/cache/device-type-cache.ts against a CCU with a switch and a group without channels.
use ccu_mcp.Prelude.{
  ℕ, ◌+◌, true, false, ◌≡◌, refl, none, some, List, [], ◌∷◌, ◌===◌, any, is_some, if◌then◌else◌,
}
use ccu_mcp.Prelude.Dict.{Dict, get, set}
use ccu_mcp.Errors.{other}
use ccu_mcp.Action.{ok}
use ccu_mcp.Middleware.Resolver.{before_colon, after_colon}
use ccu_mcp.Cache.DeviceTypes.{
  RawParamDesc, ListedDevice, ChannelSchema, DeviceTypeCache, CacheServices, add_device,
  add_devices, parse_param_descriptions, acquire, query, fetch_paramsets, index_of, fetch_from,
  fetch_channels, process_type, process_types, collect, save_to_disk, warm_all, warm,
  load_from_disk,
}
use ccu_mcp.Cache.DeviceTypes.Collected.{or_else, first_device, get-add_devices}
use ccu_mcp.Cache.DeviceTypes.Fetched.{asked_channels, fetch_channels_total}
use ccu_mcp.Cache.DeviceTypes.Warmed.{forgets, warm_safe}

abbrev state : RawParamDesc
state = record {
  id = "STATE";
  raw_type = "BOOL";
  raw_operations = "7";
  raw_min = none;
  raw_max = some "1";
  raw_default = none;
  raw_unit = some "";
  raw_values = none;
}

abbrev devices : List ListedDevice
devices =
    record { device_type = "Group"; children = some [] }
    ∷ record { device_type = "Switch"; children = some ("A1:0" ∷ "A1:1" ∷ []) }
    ∷ record { device_type = "Switch"; children = some ("B1:0" ∷ []) }
    ∷ []

-- The world is the clock. Channel 0 has no paramset.
abbrev services : CacheServices ℕ ℕ
services = record {
  take_token = λ w. (ok tt, w + 1);
  list_interfaces = λ w. (ok (some ("HmIP-RF" ∷ [])), w);
  list_devices = λ iface w. (ok (some devices), w);
  describe =
      λ q w. if q.query_address === "A1:0" then (ok none, w) else (ok (some (state ∷ [])), w);
  not_an_array = other (record { name = "Error"; message = "no array"; cause = none });
  now = λ w. w;
  writable = λ w. true;
  parse_int = λ s. 7;
  number = λ s. 1;
  through_json = λ n. n;
  ttl = 60;
}

abbrev empty : DeviceTypeCache ℕ ℕ
empty = record { cache = []; warming = false; stale = true; file = none; asked = []; world = 1000 }

abbrev warmed : DeviceTypeCache ℕ ℕ
warmed = (warm services empty).1

-- Another process, within the TTL of a minute.
abbrev restarted : DeviceTypeCache ℕ ℕ
restarted = record empty { file = (save_to_disk services warmed).1.file; world = 61000 }

runs :
    (warmed.stale ≡ false)
    × (is_some (get warmed.cache "Switch") ≡ true)
    × (is_some (get warmed.cache "Group") ≡ false)
    × ((load_from_disk services restarted).0 ≡ true)
unfolding warm warm_all acquire collect add_devices add_device process_types process_type
    fetch_channels fetch_from fetch_paramsets query parse_param_descriptions save_to_disk
    load_from_disk index_of before_colon after_colon get set
runs = (refl, refl, refl, refl)

get-add_devices_example :
    get (add_devices "HmIP-RF" [] devices) "Switch"
    ≡ or_else (get [] "Switch") (first_device "HmIP-RF" "Switch" devices)
get-add_devices_example = get-add_devices "HmIP-RF" "Switch" [] devices

fetch_channels_total_example :
    (out : Dict (ChannelSchema ℕ)) × (t : DeviceTypeCache ℕ ℕ) × (fetch_channels services "HmIP-RF"
        ("A1:0" ∷ "A1:1" ∷ [])
        empty
      ≡ (ok out, t))
    × (t.asked ≡ asked_channels services "HmIP-RF" ("A1:0" ∷ "A1:1" ∷ []) [])
    × (is_some (get out "1") ≡ any (λ a. index_of a === "1") ("A1:0" ∷ "A1:1" ∷ []))
fetch_channels_total_example =
    fetch_channels_total services "HmIP-RF" ("A1:0" ∷ "A1:1" ∷ []) empty "1" (λ w. refl)

warm_safe_example :
    ((warm services empty).0 ≡ ok tt)
    × ((warm services empty).1.warming ≡ empty.warming)
    × (forgets services "Switch" empty (warm services empty).1 ≡ false)
warm_safe_example = warm_safe services "Switch" empty
