-- ===== src/Tools/Control/PutParamset.antt =====
-- `put_paramset` of src/tools/control.ts.
use ccu_mcp.Prelude.{
  String, Bool, false, ◌||◌, Option, none, some, List, [], ◌∷◌, ◌===◌, all, map, if◌then◌else◌,
}
use ccu_mcp.Action.{pure, throw, ◌>>=◌, ◌>>◌, gets}
use ccu_mcp.Middleware.Resolver.{resolve_raw_param_type, resolve_type}
use ccu_mcp.Ccu.Targets.{Naming, Target}
use ccu_mcp.Tools.Values.{
  Js, Value, show_value, entries, Param, ParamEntry, Reply, with_text, infer_type,
}
use ccu_mcp.Tools.Target.{Services, ToolState, Tool, request, acquire, retried, gate, invalid}
use ccu_mcp.Tools.Control.SetValue.{safe_to_retry, interface_of}

pub record PutParamsetArgs (N : Type 0) : Type 0 where
  pub address : String
  pub paramset_key : String
  pub values : List (String × Value N)
  pub interface_name : Option String
  pub confirm : Option Bool

module _ {W N : Type 0} (js : Js N) (v : Services W N) (n : Naming) (t : Target) where
  -- `if (!type) type = inferType(value)`
  abbrev type_or : Option String → Value N → String
  type_or none value = infer_type js value
  type_or (some type) value = if type === "" then infer_type js value else type

  abbrev pub entry_of : PutParamsetArgs N → ToolState W N → String × Value N → ParamEntry
  entry_of args s (name, value) = record {
    entry_name = name;
    entry_type =
        type_or (resolve_type s.resolver s.device_types args.address name args.paramset_key) value;
    entry_value = show_value js value;
  }

  abbrev pub param_array : PutParamsetArgs N → ToolState W N → List ParamEntry
  param_array args s = map (entry_of args s) args.values

  -- `safeToRetry`
  abbrev pub all_safe : PutParamsetArgs N → ToolState W N → Bool
  all_safe args s =
      args.paramset_key === "MASTER"
      || all
          (λ e.
            safe_to_retry
              (resolve_raw_param_type s.resolver s.device_types args.address e.0 args.paramset_key))
          args.values

  abbrev pub refuse_empty : List (String × Value N) → Tool v (Unit {0})
  refuse_empty [] = throw (
      invalid "'set' is empty — there is nothing to write."
        "Pass the parameters to write, e.g. {TEMPERATURE_WINDOW_OPEN: 5.0}. Use describe_device_type for valid names.")
  refuse_empty (x ∷ xs) = pure tt

  abbrev pub paramset_params :
      PutParamsetArgs N → String → List ParamEntry → List (String × Param N)
  paramset_params args iface array =
      with_text "interface" iface
      ∷ with_text "address" args.address
      ∷ with_text "paramsetKey" args.paramset_key
      ∷ ("set", entries array)
      ∷ []

  abbrev pub write_paramset : List (String × Param N) → Bool → Tool v (Reply N)
  write_paramset params safe =
      acquire v
      >> (if safe
          then retried v "Interface.putParamset" "Interface.putParamset" params
          else request v "Interface.putParamset" params)

  -- The handler of `put_paramset`; it answers what it was given to write.
  unfoldable pub put_paramset : PutParamsetArgs N → Tool v (List (String × Value N))
  put_paramset args =
      gate v n t args.confirm false
      >> (refuse_empty args.values
          >> (interface_of js v n t args.interface_name args.address >>= λ iface.
              gets (param_array args) >>= λ array. gets (all_safe args) >>= λ safe.
              write_paramset (paramset_params args iface array) safe >> pure args.values))
