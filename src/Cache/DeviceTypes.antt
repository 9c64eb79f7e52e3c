-- ===== src/Cache/DeviceTypes.antt =====
-- src/cache/device-type-cache.ts: the schemas of device types, how they are asked of the CCU and kept on
-- disk. The CCU, the clock, whether the disk can be written, and JavaScript's numbers are parameters; the
-- file is what `JSON.parse` gives of it. The workers of `warm` run one after another here.
pub mod Types
mod Collected
mod Fetched
mod Warmed
mod Tests
use ccu_mcp.Prelude.{
  ℕ, ◌+◌, ◌*◌, String, Bool, true, false, not, Option, none, some, List, [], ◌∷◌, ◌==◌, ◌===◌, ltb,
  codes, is_some, if◌then◌else◌,
}
use ccu_mcp.Prelude.Dict.{Dict, get, set}
use ccu_mcp.Errors.{Failure}
use ccu_mcp.Action.{Action, Outcome, ok, thrown, pure, throw, ◌>>=◌, ◌>>◌, gets, modify, try◌}
use ccu_mcp.Middleware.Resolver.{or_zero, before_colon, after_colon}
use ccu_mcp.Cache.TclList.{Text, parse_tcl_list}
pub use Types.*

-- `CACHE_VERSION`
abbrev pub cache_version : ℕ
cache_version = 2

abbrev pub map_some {ℓ κ} : {A : Type ℓ} {B : Type κ} → (A → B) → Option A → Option B
map_some f none = none
map_some f (some a) = some (f a)

abbrev pub map_values : {A B : Type 0} → (A → B) → Dict A → Dict B
map_values f [] = []
map_values f ((k, a) ∷ m) = (k, f a) ∷ map_values f m

abbrev pub if_given : Option String → Option String
if_given none = none
if_given (some s) = if s === "" then none else some s

-- An empty text gives no list, an empty array does.
abbrev pub value_labels : Option ValueList → Option (List Text)
value_labels none = none
value_labels (some (labels l)) = some l
value_labels (some (joined [])) = none
value_labels (some (joined (c ∷ t))) = some (parse_tcl_list (c ∷ t))

-- A type and what a device of it is asked by.
pub record FirstDevice : Type 0 where
  pub on_interface : String
  pub addresses : List String

-- A device with no children is a channel; the first device of a type stands for it.
unfoldable pub add_device : String → Dict FirstDevice → ListedDevice → Dict FirstDevice
add_device iface found d = elim d.children [
  | none ↦ found
  | some [] ↦ found
  | some (c ∷ cs) ↦
      if is_some (get found d.device_type)
      then found
      else set found d.device_type (record { on_interface = iface; addresses = c ∷ cs })
]

unfoldable pub add_devices : String → Dict FirstDevice → List ListedDevice → Dict FirstDevice
add_devices iface found [] = found
add_devices iface found (d ∷ ds) = add_devices iface (add_device iface found d) ds

abbrev pub paramset_keys : List String
paramset_keys = "VALUES" ∷ "MASTER" ∷ []

-- `channelAddr.split(":")[1] || "0"`
unfoldable pub index_of : String → String
index_of address = or_zero (before_colon (after_colon address))

module _ {W N : Type 0} (v : CacheServices W N) where
  abbrev pub Job : Type 0 → Type 0
  Job A = Action (DeviceTypeCache W N) A

  abbrev pub describe_param : RawParamDesc → ParamDescription N
  describe_param p = record {
    type = p.raw_type;
    operations = v.parse_int p.raw_operations;
    min = map_some v.number p.raw_min;
    max = map_some v.number p.raw_max;
    default = p.raw_default;
    unit = if_given p.raw_unit;
    value_list = value_labels p.raw_values;
  }

  abbrev pub add_params : Dict (ParamDescription N) → List RawParamDesc → Dict (ParamDescription N)
  add_params m [] = m
  add_params m (p ∷ ps) = add_params (set m p.id (describe_param p)) ps

  -- `parseParamDescriptions`
  unfoldable pub parse_param_descriptions : List RawParamDesc → Dict (ParamDescription N)
  parse_param_descriptions ps = add_params [] ps

  abbrev pub outside : {A : Type 0} → Action W A → Job A
  outside m s = let (o, w) = m s.world in (o, record s { world = w })

  abbrev pub expect : {A : Type 0} → Option (List A) → Job (List A)
  expect none = throw v.not_an_array
  expect (some l) = pure l

  -- `rateLimiter.acquire()`
  unfoldable pub acquire : Job (Unit {0})
  acquire = outside v.take_token

  unfoldable pub query : ParamQuery → Job (Dict (ParamDescription N))
  query q =
      modify (λ s. record s { asked = q ∷ s.asked }) >> outside (v.describe q) >>= expect >>= λ ps.
      pure (parse_param_descriptions ps)

  abbrev pub with_params :
      String
      → Dict (ParamDescription N)
      → Dict (Dict (ParamDescription N))
      → Dict (Dict (ParamDescription N))
  with_params key [] sets = sets
  with_params key (p ∷ ps) sets = set sets key (p ∷ ps)

  -- The loop over the keys of the paramsets; a query that fails is skipped.
  unfoldable pub fetch_paramsets :
      (iface address : String)
      → List String
      → Dict (Dict (ParamDescription N))
      → Job (Dict (Dict (ParamDescription N)))
  fetch_paramsets iface address [] sets = pure sets
  fetch_paramsets iface address (key ∷ keys) sets =
      acquire
      >> try◌
          (query (record { query_interface = iface; query_address = address; paramset_key = key }))
          (λ params. fetch_paramsets iface address keys (with_params key params sets))
          (λ e. fetch_paramsets iface address keys sets)

  -- The loop of `fetchChannels` with its map.
  unfoldable pub fetch_from :
      String → List String → Dict (ChannelSchema N) → Job (Dict (ChannelSchema N))
  fetch_from iface [] out = pure out
  fetch_from iface (address ∷ rest) out = fetch_paramsets iface address paramset_keys [] >>= λ sets.
      fetch_from iface rest
        (set out (index_of address) (record { channel_type = address; paramsets = sets }))

  -- `fetchChannels`
  unfoldable pub fetch_channels : String → List String → Job (Dict (ChannelSchema N))
  fetch_channels iface channels = fetch_from iface channels []

  abbrev pub store : String → String → Dict (ChannelSchema N) → Job (Unit {0})
  store device_type iface channels = modify (λ s. record s {
    cache = set s.cache device_type (record { interface = iface; channels = channels });
  })

  -- `processType`
  unfoldable pub process_type : String → FirstDevice → Job (Unit {0})
  process_type device_type info =
      try◌ (fetch_channels info.on_interface info.addresses) (store device_type info.on_interface)
        (λ e. pure tt)

  unfoldable pub process_types : Dict FirstDevice → Job (Unit {0})
  process_types [] = pure tt
  process_types ((device_type, info) ∷ rest) = process_type device_type info >> process_types rest

  -- The loop over the interfaces; one that does not answer is skipped.
  unfoldable pub collect : List String → Dict FirstDevice → Job (Dict FirstDevice)
  collect [] found = pure found
  collect (iface ∷ rest) found =
      acquire
      >> try◌ (outside (v.list_devices iface) >>= expect)
          (λ devices. collect rest (add_devices iface found devices)) (λ e. collect rest found)

  abbrev pub saved_param : ParamDescription N → ParamDescription N
  saved_param p = record p {
    operations = v.through_json p.operations;
    min = map_some v.through_json p.min;
    max = map_some v.through_json p.max;
  }

  abbrev pub saved_channel : ChannelSchema N → ChannelSchema N
  saved_channel c = record c { paramsets = map_values (map_values saved_param) c.paramsets }

  abbrev pub saved_type : DeviceType N → DeviceType N
  saved_type t = record t { channels = map_values saved_channel t.channels }

  -- The types as JSON keeps them.
  unfoldable pub saved_types : Dict (DeviceType N) → Dict (DeviceType N)
  saved_types types = map_values saved_type types

  -- `doSaveToDisk`: a file that cannot be written stays as it was.
  unfoldable pub save_to_disk : Job (Unit {0})
  save_to_disk s = (
    ok tt,
    if v.writable s.world
        then record s {
          file = some (record {
            version = cache_version;
            timestamp = some (v.now s.world);
            types = some (saved_types s.cache);
          });
        }
        else s,
  )

  -- What `warm` tries.
  unfoldable pub warm_all : Job (Unit {0})
  warm_all =
      acquire
      >> outside v.list_interfaces
      >>= expect
      >>= (λ interfaces. collect interfaces [])
      >>= process_types
      >> save_to_disk
      >> modify (λ s. record s { stale = false })

  abbrev pub ended : Job (Unit {0})
  ended = modify (λ s. record s { warming = false })

  abbrev start_warm : Job (Unit {0})
  start_warm = modify (λ s. record s { warming = true }) >> try◌ warm_all (λ u. ended) (λ e. ended)

  -- `warm`
  unfoldable pub warm : Job (Unit {0})
  warm s = if s.warming then (ok tt, s) else start_warm s

  -- `doQueryAndCache`
  unfoldable pub query_and_cache : String → String → List String → Job (DeviceType N)
  query_and_cache device_type iface channels = fetch_channels iface channels >>= λ found.
      store device_type iface found
      >> save_to_disk
      >> pure (record { interface = iface; channels = found })

  -- `age > this.ttl`, in seconds; a timestamp that is no date compares as false.
  abbrev pub is_expired : Option ℕ → ℕ → Bool
  is_expired none now = false
  is_expired (some t) now = ltb (t + 1000 * v.ttl) now

  abbrev load_types :
      Option ℕ → Option (Dict (DeviceType N)) → DeviceTypeCache W N → Bool × DeviceTypeCache W N
  load_types timestamp none s = (false, s)
  load_types timestamp (some types) s =
      let expired = is_expired timestamp (v.now s.world) in
      (not expired, record s { cache = types; stale = expired })

  abbrev load_file : Option (CacheFile N) → DeviceTypeCache W N → Bool × DeviceTypeCache W N
  load_file none s = (false, s)
  load_file (some f) s =
      if f.version == cache_version then load_types f.timestamp f.types s else (false, s)

  -- `loadFromDisk`
  unfoldable pub load_from_disk : DeviceTypeCache W N → Bool × DeviceTypeCache W N
  load_from_disk s = load_file s.file s
