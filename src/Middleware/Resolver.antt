-- ===== src/Middleware/Resolver.antt =====
-- src/middleware/resolver.ts, what it knows of devices and of the types of parameters, and the schemas
-- of src/cache/types.ts that it reads. A `Record` has the keys that it owns. What fetches the device
-- list is in Tools/Target.
mod Lookup
mod Tests
use Prim.Native.Char.{code}
use Prim.Native.String
use ccu_mcp.Prelude.{
  String, Bool, true, false, ◌||◌, Option, none, some, List, [], ◌∷◌, ◌==◌, ◌===◌, if◌then◌else◌,
}
use ccu_mcp.Prelude.Dict.{Dict, get, set}

-- The fields of `CcuDevice` and `CcuChannel` that are read.
pub record CcuChannel : Type 0 where
  pub channel_id : String
  pub channel_address : String

pub record CcuDevice : Type 0 where
  pub address : String
  pub device_interface : String
  pub device_type : String
  pub channels : List CcuChannel

-- `CachedParamDescription`; only its type is read.
pub record CachedParamDescription : Type 0 where
  pub param_type : String

-- `CachedChannelSchema`
pub record CachedChannelSchema : Type 0 where
  pub schema_type : String
  pub paramsets : Dict (Dict CachedParamDescription)

pub record CachedDeviceType : Type 0 where
  pub type_interface : String
  pub schemas : Dict CachedChannelSchema

pub record Resolver : Type 0 where
  pub interface_map : Option (Dict String)
  pub device_type_map : Option (Dict String)
  pub device_list : Option (List CcuDevice)

abbrev pub no_devices : Resolver
no_devices = record { interface_map = none; device_type_map = none; device_list = none }

-- `address.includes(":")`
unfoldable pub has_colon : String → Bool
has_colon String.[] = false
has_colon (String.◌∷◌ c s) = code c == b':' || has_colon s

-- `text.split(":")[0]`
unfoldable pub before_colon : String → String
before_colon String.[] = String.[]
before_colon (String.◌∷◌ c s) =
    let rest = before_colon s in if code c == b':' then String.[] else String.◌∷◌ c rest

-- What follows the first colon, if there is one.
unfoldable pub after_colon : String → String
after_colon String.[] = String.[]
after_colon (String.◌∷◌ c s) = let rest = after_colon s in if code c == b':' then s else rest

unfoldable pub device_address : String → String
device_address address = if has_colon address then before_colon address else address

-- `(address.includes(":") ? address.split(":")[1] : "0") || "0"`
abbrev pub or_zero : String → String
or_zero text = if text === "" then "0" else text

unfoldable pub channel_index : String → String
channel_index address =
    or_zero (if has_colon address then before_colon (after_colon address) else "0")

-- `map?.get(key)`
abbrev pub get_in {ℓ} : {A : Type ℓ} → Option (Dict A) → String → Option A
get_in none key = none
get_in (some m) key = get m key

-- `if (!text) return undefined`
abbrev pub if_text {ℓ} : {A : Type ℓ} → Option String → (String → Option A) → Option A
if_text none f = none
if_text (some text) f = if text === "" then none else f text

abbrev pub and_then {ℓ κ} : {A : Type ℓ} {B : Type κ} → Option A → (A → Option B) → Option B
and_then none f = none
and_then (some a) f = f a

-- `resolveRawParamType`
unfoldable pub resolve_raw_param_type :
    Resolver → Dict CachedDeviceType → (address value_key paramset_key : String) → Option String
resolve_raw_param_type r cache address value_key paramset_key =
    if_text (get_in r.device_type_map (device_address address)) λ type.
      and_then (get cache type) λ cached.
        and_then (get cached.schemas (channel_index address)) λ channel.
          and_then (get channel.paramsets paramset_key)
            λ params. and_then (get params value_key) λ p. some p.param_type

-- `typeMap[rawType] || "string"`
unfoldable pub rpc_type : String → String
rpc_type raw =
    if raw === "BOOL"
    then "bool"
    else if raw === "ACTION"
    then "bool"
    else if raw === "FLOAT"
    then "double"
    else if raw === "INTEGER"
    then "int"
    else if raw === "ENUM"
    then "int"
    else "string"

-- `resolveType`
unfoldable pub resolve_type :
    Resolver → Dict CachedDeviceType → (address value_key paramset_key : String) → Option String
resolve_type r cache address value_key paramset_key =
    if_text (resolve_raw_param_type r cache address value_key paramset_key)
      λ raw. some (rpc_type raw)

-- `getDeviceType`
unfoldable pub get_device_type : Resolver → String → Option String
get_device_type r address = get_in r.device_type_map (device_address address)

-- The loop of `updateDeviceList`, for one of its maps.
unfoldable pub fill_map : (CcuDevice → String) → Dict String → List CcuDevice → Dict String
fill_map field m [] = m
fill_map field m (d ∷ ds) = fill_map field (set m d.address (field d)) ds

-- `updateDeviceList`
unfoldable pub update_device_list : List CcuDevice → Resolver
update_device_list devices = record {
  interface_map = some (fill_map (λ d. d.device_interface) [] devices);
  device_type_map = some (fill_map (λ d. d.device_type) [] devices);
  device_list = some devices;
}
