-- ===== src/Tools/Control/AssignChannel.antt =====
-- `registerAssignChannel` of src/tools/control.ts: the tools `assign_channel` and `unassign_channel`.
use ccu_mcp.Prelude.{
  String, Bool, false, not, ◌||◌, Option, none, some, List, [], ◌∷◌, ◌++◌, ◌===◌, ◌<>◌,
  if◌then◌else◌,
}
use ccu_mcp.Errors.{Failure, ccu}
use ccu_mcp.Action.{pure, throw, ◌>>=◌, ◌>>◌, try◌, modify}
use ccu_mcp.Middleware.Resolver.{CcuChannel, CcuDevice, update_device_list}
use ccu_mcp.Ccu.Targets.{Naming, Target}
use ccu_mcp.Tools.Values.{Item, Reply, with_text, find_name, join_names}
use ccu_mcp.Tools.Target.{
  Services, Tool, acquire, retried, fetch_items, fetch_devices, gate, invalid, missing,
}

pub data Mode : Type 0 where
  adding removing : Mode

-- `mode === "add" ? a : b`
abbrev pub by_mode : Mode → String → String → String
by_mode adding a b = a
by_mode removing a b = b

pub data Kind : Type 0 where
  room function : Kind

-- An element of `applied`.
pub record Applied : Type 0 where
  pub kind : Kind
  pub applied_name : String

pub record AssignArgs : Type 0 where
  pub channel : String
  pub to_room : Option String
  pub to_function : Option String
  pub confirm : Option Bool

-- A text that JavaScript takes for true.
abbrev pub is_given : Option String → Bool
is_given none = false
is_given (some s) = not (s === "")

abbrev pub find_channel : String → List CcuChannel → Option CcuChannel
find_channel address [] = none
find_channel address (c ∷ cs) =
    if c.channel_address === address then some c else find_channel address cs

abbrev or_first : Option CcuChannel → Option CcuChannel → Option CcuChannel
or_first none rest = rest
or_first (some c) rest = some c

-- The loop over the devices, until one has the channel.
abbrev pub find_in_devices : String → List CcuDevice → Option CcuChannel
find_in_devices address [] = none
find_in_devices address (d ∷ ds) =
    or_first (find_channel address d.channels) (find_in_devices address ds)

-- The message of a failure of the function step, after the room step.
abbrev pub with_note : Mode → List Applied → Failure → Failure
with_note mode [] e = e
with_note mode (a ∷ l) (ccu e) = ccu (record e {
  message =
      e.message
      <> " — NOTE: the room "
      <> by_mode mode "assignment" "removal"
      <> " (\""
      <> a.applied_name
      <> "\") was already applied";
})
with_note mode (a ∷ l) e = e

module _ {W N : Type 0} (v : Services W N) (n : Naming) (t : Target) where
  abbrev pub check_given : AssignArgs → Tool v (Unit {0})
  check_given args =
      if is_given args.to_room || is_given args.to_function
      then pure tt
      else throw (
          invalid "Provide a room and/or a function to assign the channel to."
            "Pass room and/or function by name (see list_rooms / list_functions).")

  abbrev pub channel_missing : String → Tool v String
  channel_missing address = throw (
      missing ("Channel not found: " <> address)
        "Call list_devices to find valid channel addresses.")

  abbrev pub known_channel : String → Option CcuChannel → Tool v String
  known_channel address none = channel_missing address
  known_channel address (some c) =
      if c.channel_id === "" then channel_missing address else pure c.channel_id

  -- The fresh device list, and the channel's id in it.
  abbrev pub find_channel_id : String → Tool v String
  find_channel_id address = fetch_devices v >>= λ devices.
      modify (λ s. record s { resolver = update_device_list devices })
      >> known_channel address (find_in_devices address devices)

  abbrev pub known_group : (noun plural name : String) → List Item → Option Item → Tool v Item
  known_group noun plural name all none =
      throw
        (missing (noun <> " not found: " <> name) ("Valid " <> plural <> ": " <> join_names all))
  known_group noun plural name all (some i) = pure i

  -- The request that changes a room or a function; its retries bear a label of their own.
  abbrev pub modify_group : (method label id channel : String) → Tool v (Reply N)
  modify_group method label id channel =
      acquire v >> retried v label method (with_text "id" id ∷ with_text "channelId" channel ∷ [])

  abbrev pub room_step : Mode → (channel name : String) → Tool v (List Applied)
  room_step mode channel name = fetch_items v "Room.getAll" >>= λ rooms.
      known_group "Room" "rooms" name rooms (find_name name rooms) >>= λ r.
      modify_group (by_mode mode "Room.addChannel" "Room.removeChannel") "Room.modifyChannel"
        r.item_id channel
      >> pure (record { kind = room; applied_name = r.item_name } ∷ [])

  abbrev pub function_step : Mode → (channel name : String) → List Applied → Tool v (List Applied)
  function_step mode channel name applied = fetch_items v "Subsection.getAll" >>= λ functions.
      known_group "Function" "functions" name functions (find_name name functions) >>= λ f.
      modify_group (by_mode mode "Subsection.addChannel" "Subsection.removeChannel")
        "Subsection.modifyChannel" f.item_id channel
      >> pure (applied ++ record { kind = function; applied_name = f.item_name } ∷ [])

  abbrev pub maybe_room : Mode → String → Option String → Tool v (List Applied)
  maybe_room mode channel none = pure []
  maybe_room mode channel (some name) = if name === "" then pure [] else room_step mode channel name

  abbrev pub maybe_function : Mode → String → Option String → List Applied → Tool v (List Applied)
  maybe_function mode channel none applied = pure applied
  maybe_function mode channel (some name) applied =
      if name === ""
      then pure applied
      else try◌ (function_step mode channel name applied) pure
          (λ e. throw (with_note mode applied e))

  -- The handler, with what it applied.
  unfoldable pub assign_channel : Mode → AssignArgs → Tool v (List Applied)
  assign_channel mode args =
      gate v n t args.confirm false
      >> (check_given args
          >> (find_channel_id args.channel >>= λ channel.
              maybe_room mode channel args.to_room
              >>= maybe_function mode channel args.to_function))
