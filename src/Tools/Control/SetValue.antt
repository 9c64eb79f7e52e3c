-- ===== src/Tools/Control/SetValue.antt =====
-- `set_value` of src/tools/control.ts.
use ccu_mcp.Prelude.{
  String, Bool, false, not, Option, none, some, List, [], ◌∷◌, ◌===◌, if◌then◌else◌,
}
use ccu_mcp.Action.{pure, ◌>>=◌, ◌>>◌, try◌, gets}
use ccu_mcp.Middleware.Resolver.{resolve_raw_param_type, resolve_type}
use ccu_mcp.Ccu.Targets.{Naming, Target}
use ccu_mcp.Tools.Values.{Js, Value, plain, Param, Reply, null, with_text, infer_type}
use ccu_mcp.Tools.Target.{
  Services, ToolState, Tool, request, acquire, retried, gate, resolve_interface,
}

pub record SetValueArgs (N : Type 0) : Type 0 where
  pub address : String
  pub value_key : String
  pub value : Value N
  pub interface_name : Option String
  pub value_type : Option String
  pub confirm : Option Bool

pub record SetValueResult (N : Type 0) : Type 0 where
  -- Before `parseValue`.
  pub previous_value : Reply N
  pub new_value : Value N
  pub used_interface : String
  pub used_type : String

-- `rawParamType !== undefined && rawParamType !== "ACTION"`
abbrev pub safe_to_retry : Option String → Bool
safe_to_retry none = false
safe_to_retry (some raw) = not (raw === "ACTION")

abbrev pub or_else {ℓ} : {A : Type ℓ} → Option A → A → A
or_else none b = b
or_else (some a) b = a

module _ {W N : Type 0} (js : Js N) (v : Services W N) (n : Naming) (t : Target) where
  -- `args.interface ?? await resolver.resolveInterface(...)`
  abbrev pub interface_of : Option String → String → Tool v String
  interface_of (some i) address = pure i
  interface_of none address = resolve_interface v address

  -- `args.type ?? resolver.resolveType(...) ?? inferType(args.value)`
  abbrev pub type_of : SetValueArgs N → ToolState W N → String
  type_of args s = or_else args.value_type (
      or_else (resolve_type s.resolver s.device_types args.address args.value_key "VALUES")
        (infer_type js args.value))

  abbrev pub point : SetValueArgs N → String → List (String × Param N)
  point args iface =
      with_text "interface" iface
      ∷ with_text "address" args.address
      ∷ with_text "valueKey" args.value_key
      ∷ []

  -- The read before the write, which may fail.
  abbrev pub read_previous : SetValueArgs N → String → Tool v (Reply N)
  read_previous args iface =
      try◌ (acquire v >> request v "Interface.getValue" (point args iface)) pure (λ _. pure null)

  abbrev pub new_value_params : SetValueArgs N → String → String → List (String × Param N)
  new_value_params args iface type =
      with_text "interface" iface
      ∷ with_text "address" args.address
      ∷ with_text "valueKey" args.value_key
      ∷ with_text "type" type
      ∷ ("value", plain args.value)
      ∷ []

  abbrev pub raw_type : SetValueArgs N → ToolState W N → Option String
  raw_type args s =
      resolve_raw_param_type s.resolver s.device_types args.address args.value_key "VALUES"

  -- The write: retried only if the schema says that the parameter is no ACTION.
  abbrev pub write_value : SetValueArgs N → String → String → Option String → Tool v (Reply N)
  write_value args iface type raw =
      let params = new_value_params args iface type in
      acquire v
      >> (if safe_to_retry raw
          then retried v "Interface.setValue" "Interface.setValue" params
          else request v "Interface.setValue" params)

  -- The handler of `set_value`.
  unfoldable pub set_value : SetValueArgs N → Tool v (SetValueResult N)
  set_value args =
      gate v n t args.confirm false
      >> (interface_of args.interface_name args.address >>= λ iface. gets (type_of args) >>= λ type.
          read_previous args iface >>= λ previous. gets (raw_type args) >>= λ raw.
          write_value args iface type raw
          >> pure (record {
            previous_value = previous;
            new_value = args.value;
            used_interface = iface;
            used_type = type;
          }))
