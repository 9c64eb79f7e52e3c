-- ===== src/Cache/DeviceTypes/Collected.antt =====
-- src/cache/device-type-cache.ts, `warm`: which device stands for a type.
use ccu_mcp.Prelude.{
  String, ◌≡◌, ◌∙◌, ap, refl, Option, none, some, List, [], ◌∷◌, ◌===◌, arith, eq_iff,
  if◌then◌else◌,
}
use ccu_mcp.Prelude.Dict.{Dict, get, get-set}
use ccu_mcp.Cache.DeviceTypes.{ListedDevice, FirstDevice, add_device, add_devices}

abbrev pub children_of : Option (List String) → Option (List String)
children_of none = none
children_of (some []) = none
children_of (some (c ∷ cs)) = some (c ∷ cs)

abbrev pub offered : String → Option (List String) → Option FirstDevice
offered iface none = none
offered iface (some l) = some (record { on_interface = iface; addresses = l })

abbrev pub or_else : Option FirstDevice → Option FirstDevice → Option FirstDevice
or_else none o = o
or_else (some d) o = some d

abbrev pub of_device : String → String → ListedDevice → Option FirstDevice
of_device iface t d = if d.device_type === t then offered iface (children_of d.children) else none

-- The first device of the type that has channels.
abbrev pub first_device : String → String → List ListedDevice → Option FirstDevice
first_device iface t [] = none
first_device iface t (d ∷ ds) = or_else (of_device iface t d) (first_device iface t ds)

get-add_device :
    (iface t : String) (found : Dict FirstDevice) (type : String) (children : Option (List String))
    → get (add_device iface found (record { device_type = type; children = children })) t
      ≡ or_else
          (get found t)
          (of_device iface t (record { device_type = type; children = children }))
unfolding add_device
get-add_device iface t found type none = ground arith
get-add_device iface t found type (some []) = ground arith
get-add_device iface t found type (some (c ∷ cs)) = ground (
  arith,
  eq_iff type t,
  get-set found type t (record { on_interface = iface; addresses = c ∷ cs }),
)

or_else_assoc : (a b c : Option FirstDevice) → or_else (or_else a b) c ≡ or_else a (or_else b c)
or_else_assoc none b c = refl
or_else_assoc (some d) b c = refl

-- The table of types holds, for every type, what it held before, and else the first of the listed devices of
-- that type that has channels, with the interface that listed it.
pub get-add_devices :
    (iface t : String) (found : Dict FirstDevice) (ds : List ListedDevice)
    → get (add_devices iface found ds) t ≡ or_else (get found t) (first_device iface t ds)
unfolding add_devices
get-add_devices iface t found [] = ground arith
get-add_devices iface t found (d ∷ ds) =
    get-add_devices iface t (add_device iface found d) ds
    ∙ (ap (λ o. or_else o (first_device iface t ds))
          (get-add_device iface t found d.device_type d.children)
        ∙ or_else_assoc (get found t) (of_device iface t d) (first_device iface t ds))
