-- ===== src/Middleware/Resolver/Lookup.antt =====
-- src/middleware/resolver.ts: the maps of `updateDeviceList` answer what a search of the device list does.
use ccu_mcp.Prelude.{
  String, ◌≡◌, refl, ◌∙◌, Option, none, some, List, [], ◌∷◌, ◌===◌, arith, if◌then◌else◌,
}
use ccu_mcp.Prelude.Dict.{Dict, get, set, get-set}
use ccu_mcp.Middleware.Resolver.{
  CcuDevice, get_in, fill_map, update_device_list, device_address, get_device_type,
}

-- The last device of the list with this address.
unfoldable pub last_device : List CcuDevice → String → Option CcuDevice
last_device [] a = none
last_device (d ∷ ds) a =
    let rest = last_device ds a in
    elim rest [ some e ↦ some e | none ↦ if d.address === a then some d else none ]

-- What is known of the device, or what was known before.
abbrev field_or : (CcuDevice → String) → Option CcuDevice → Option String → Option String
field_or field none before = before
field_or field (some d) before = some (field d)

field-step :
    (field : CcuDevice → String) (m : Dict String) (d : CcuDevice) (a : String)
    (o : Option CcuDevice)
    → field_or field o (get (set m d.address (field d)) a)
      ≡ field_or field
          (elim o [ some e ↦ some e | none ↦ if d.address === a then some d else none ])
          (get m a)
field-step field m d a (some e) = refl
field-step field m d a none = ground (arith, get-set m d.address a (field d))

fill_map-last :
    (field : CcuDevice → String) (m : Dict String) (ds : List CcuDevice) (a : String)
    → get (fill_map field m ds) a ≡ field_or field (last_device ds a) (get m a)
unfolding fill_map last_device
fill_map-last field m [] a = refl
fill_map-last field m (d ∷ ds) a =
    fill_map-last field (set m d.address (field d)) ds a ∙ field-step field m d a (last_device ds a)

-- After `updateDeviceList`, the interface and the device type of an address are those of the last device in
-- the list whose address is the part before the colon, and unknown if the list has none.
pub update_device_list-finds :
    (ds : List CcuDevice) (address : String)
    → let r = update_device_list ds in
      let known = last_device ds (device_address address) in
      (get_in r.interface_map (device_address address)
        ≡ field_or (λ d. d.device_interface) known none)
      × (get_device_type r address ≡ field_or (λ d. d.device_type) known none)
      × (r.device_list ≡ some ds)
unfolding update_device_list get_device_type get
update_device_list-finds ds address = (
  fill_map-last (λ d. d.device_interface) [] ds (device_address address),
  fill_map-last (λ d. d.device_type) [] ds (device_address address),
  refl,
)
