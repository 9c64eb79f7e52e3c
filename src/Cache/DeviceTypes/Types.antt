-- ===== src/Cache/DeviceTypes/Types.antt =====
-- What src/cache/device-type-cache.ts works on: the schemas of src/cache/types.ts, the replies of the CCU, the
-- cache with its file, and what the cache is given.
use ccu_mcp.Prelude.{ℕ, String, Bool, Option, List}
use ccu_mcp.Prelude.Dict.{Dict}
use ccu_mcp.Errors.{Failure}
use ccu_mcp.Action.{Action}
use ccu_mcp.Cache.TclList.{Text}

-- `CachedParamDescription`, `CachedChannelSchema`, `CachedDeviceType`
pub record ParamDescription (N : Type 0) : Type 0 where
  pub type : String
  pub operations : N
  pub min : Option N
  pub max : Option N
  pub default : Option String
  pub unit : Option String
  pub value_list : Option (List Text)

pub record ChannelSchema (N : Type 0) : Type 0 where
  pub channel_type : String
  pub paramsets : Dict (Dict (ParamDescription N))

pub record DeviceType (N : Type 0) : Type 0 where
  pub interface : String
  pub channels : Dict (ChannelSchema N)

pub data ValueList : Type 0 where
  labels : List Text → ValueList
  joined : Text → ValueList

-- `RawParamDesc`
pub record RawParamDesc : Type 0 where
  pub id : String
  pub raw_type : String
  pub raw_operations : String
  pub raw_min : Option String
  pub raw_max : Option String
  pub raw_default : Option String
  pub raw_unit : Option String
  pub raw_values : Option ValueList

-- A device as `Interface.listDevices` answers it; `children` are the addresses of its channels.
pub record ListedDevice : Type 0 where
  pub device_type : String
  pub children : Option (List String)

pub record ParamQuery : Type 0 where
  pub query_interface : String
  pub query_address : String
  pub paramset_key : String

-- `DeviceTypeCacheFile`: `timestamp` and `types` are none if they are no date and no object.
pub record CacheFile (N : Type 0) : Type 0 where
  pub version : ℕ
  pub timestamp : Option ℕ
  pub types : Option (Dict (DeviceType N))

-- The cache, its file, the queries of parameters that it sent, newest first, and the world.
pub record DeviceTypeCache (W N : Type 0) : Type 0 where
  pub cache : Dict (DeviceType N)
  pub warming : Bool
  pub stale : Bool
  pub file : Option (CacheFile N)
  pub asked : List ParamQuery
  pub world : W

-- A reply that is no array is none. `through_json` is what `JSON.parse` reads of a number that `JSON.stringify`
-- wrote: the number, or `null` for one that is not finite.
pub record CacheServices (W N : Type 0) : Type 0 where
  pub take_token : Action W (Unit {0})
  pub list_interfaces : Action W (Option (List String))
  pub list_devices : String → Action W (Option (List ListedDevice))
  pub describe : ParamQuery → Action W (Option (List RawParamDesc))
  pub not_an_array : Failure
  pub now : W → ℕ
  pub writable : W → Bool
  pub parse_int : String → N
  pub number : String → N
  pub through_json : N → N
  pub ttl : ℕ
