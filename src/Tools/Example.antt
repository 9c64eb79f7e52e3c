-- ===== src/Tools/Example.antt =====
-- A CCU for the tests of the tools: it
-- answers each method in one way.
use ccu_mcp.Prelude.{
  ℕ, suc, String, Bool, true, false, refl, none, some, [], ◌∷◌, ◌===◌, ltb, codes, if◌then◌else◌,
}
use ccu_mcp.Errors.{Failure, ccu, plain_error, timeout}
use ccu_mcp.Action.{Outcome, ok, thrown}
use ccu_mcp.Middleware.Resolver.{CcuDevice, CcuChannel, no_devices}
use ccu_mcp.Ccu.Targets.{Naming, Target, TargetSelection, make_target}
use ccu_mcp.Tools.Values.{Js, Reply, flag, text, items, null, Item}
use ccu_mcp.Tools.Target.{ToolState, Services}

abbrev pub js : Js ℕ
js = record {
  text = λ n. if ltb n 1 then "0" else "1";
  read = λ s. none;
  is_integer = λ n. true;
  finite = λ n. true;
  below = ltb;
  index = some;
  of_index = λ n. n;
  quote = λ s. s;
  upper = λ s. s;
}

abbrev pub key_channel : CcuChannel
key_channel = record { channel_id = "1001"; channel_address = "A1:1" }

abbrev pub key_device : CcuDevice
key_device = record {
  address = "A1";
  device_interface = "HmIP-RF";
  device_type = "Switch";
  channels = key_channel ∷ [];
}

abbrev pub listed : (id name : String) → Item
listed id name = record { item_id = id; item_name = name; value_list = none; device = key_device }

abbrev pub slow : Failure
slow = ccu (plain_error timeout "Request to CCU timed out" "")

-- A write of a value times out.
abbrev pub answer : String → Outcome (Reply ℕ)
answer method =
    if method === "Device.listAllDetail"
    then ok (items (listed "1" "Key" ∷ []))
    else if method === "Program.getAll"
    then ok (items (listed "7" "Night" ∷ []))
    else if method === "Program.execute"
    then ok (flag true)
    else if method === "Room.getAll"
    then ok (items (listed "20" "Hall" ∷ []))
    else if method === "Interface.getValue"
    then ok (text "false")
    else ok null

-- The world counts the tokens that were taken.
abbrev pub services : Services ℕ ℕ
services = record {
  session_call = λ r w. (answer r.method, w);
  take_token = λ w. (ok tt, suc w);
  delay = λ ms w. (ok tt, w);
  now = λ w. w;
  meanwhile = λ w c. c;
}

-- The same CCU, where every write of a value or of a paramset times out.
abbrev pub is_slow : String → Bool
is_slow method =
    if method === "Interface.setValue" then true else method === "Interface.putParamset"

abbrev pub slow_services : Services ℕ ℕ
slow_services = record services {
  session_call = λ r w. (if is_slow r.method then thrown slow else answer r.method, w);
}

abbrev pub selection : TargetSelection
selection = record { active_key = "dev"; unlocked_keys = [] }

abbrev pub fresh : ToolState ℕ ℕ
fresh = record {
  selection = selection;
  resolver = no_devices;
  device_types = [];
  sysvar_types = record { entry = none; gen = 0 };
  world = 0;
  sent = [];
}

abbrev pub naming : Naming
naming = record { lower = λ s. s; lower_idem = λ s. refl; digest = λ s. codes "00000001" }

abbrev pub dev : Target
dev = make_target naming (record { name = "dev"; protected = false; readonly = false })

abbrev pub frozen : Target
frozen = make_target naming (record { name = "frozen"; protected = false; readonly = true })
