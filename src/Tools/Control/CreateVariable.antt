-- ===== src/Tools/Control/CreateVariable.antt =====
-- `create_system_variable` of src/tools/control.ts.
use ccu_mcp.Prelude.{
  String, Bool, true, false, not, ◌&&◌, Option, none, some, List, [], ◌∷◌, ◌++◌, ◌==◌, ◌===◌, ◌<>◌,
  codes, any, comma_list, if◌then◌else◌,
}
use ccu_mcp.Action.{Outcome, pure, throw, ◌>>=◌, ◌>>◌, try◌}
use ccu_mcp.Ccu.Targets.{Naming, Target}
use ccu_mcp.Tools.Values.{Js, script, Item, with_text, find_name}
use ccu_mcp.Tools.Target.{
  Services, Tool, request, acquire, paid, fetch_items, gate, invalid, broken,
}
use ccu_mcp.Tools.Control.CreateScript.{
  VariableType, is_float, is_enum, type_name, CreateArgs, labels_of, type_setup, create_script,
}
use ccu_mcp.Tools.Control.SetVariable.{trimmed_reply}
use ccu_mcp.Tools.Control.DeleteVariable.{invalidate}

abbrev no_values : Option (List String) → Bool
no_values none = true
no_values (some []) = true
no_values (some (x ∷ xs)) = false

abbrev named : {A : Type 0} → String → Option A → List String
named field none = []
named field (some a) = field ∷ []

-- The arguments that do not apply to the type.
unfoldable pub ignored : {N : Type 0} → CreateArgs N → List String
ignored args =
    (if is_float args.type
      then []
      else named "min" args.min ++ (named "max" args.max ++ named "unit" args.unit))
    ++ (if is_enum args.type then [] else named "values" args.values)

abbrev pub has_semicolon : String → Bool
has_semicolon label = any (λ c. c == b';') (codes label)

-- The first label with a semicolon.
unfoldable pub bad_label : List String → Option String
bad_label [] = none
bad_label (l ∷ ls) = if has_semicolon l then some l else bad_label ls

module _ {W N : Type 0} (js : Js N) (v : Services W N) (n : Naming) (t : Target) where
  abbrev refuse : String → String → Tool v (Unit {0})
  refuse message hint = throw (invalid message hint)

  abbrev check_values : CreateArgs N → Tool v (Unit {0})
  check_values args =
      if is_enum args.type && no_values args.values
      then refuse "An enum system variable requires a non-empty 'values' list."
          "Pass values, e.g. [\"off\", \"low\", \"high\"]."
      else pure tt

  abbrev do_not_apply : List String → String
  do_not_apply [] = ""
  do_not_apply (x ∷ []) = x <> " does"
  do_not_apply xs = comma_list xs <> " do"

  abbrev refuse_ignored : CreateArgs N → List String → Tool v (Unit {0})
  refuse_ignored args [] = pure tt
  refuse_ignored args (x ∷ xs) =
      refuse
        (do_not_apply (x ∷ xs)
          <> " not apply to a \""
          <> type_name args.type
          <> "\" system variable")
        "min/max/unit are float-only; values is enum-only. Drop them, or change 'type'."

  abbrev check_bounds : VariableType → Option N → Option N → Tool v (Unit {0})
  check_bounds type none high = pure tt
  check_bounds type (some low) none = pure tt
  check_bounds type (some low) (some high) =
      if is_float type && not (js.below low high)
      then refuse ("min (" <> js.text low <> ") must be less than max (" <> js.text high <> ")")
          "Swap them, or omit both for the 0-100 default range."
      else pure tt

  abbrev refuse_label : Option String → Tool v (Unit {0})
  refuse_label none = pure tt
  refuse_label (some label) =
      refuse ("Enum label " <> js.quote label <> " contains \";\", the CCU's value-list separator.")
        "Rename the label without a semicolon — the CCU cannot represent one inside an enum state name."

  -- The checks of the arguments, in their order.
  unfoldable pub check_args : CreateArgs N → Tool v (Unit {0})
  check_args args =
      check_values args
      >> (refuse_ignored args (ignored args)
          >> (check_bounds args.type args.min args.max
              >> refuse_label (bad_label (labels_of args.values))))

  abbrev refuse_existing : String → Option Item → Tool v (Unit {0})
  refuse_existing name none = pure tt
  refuse_existing name (some i) =
      refuse ("System variable already exists: " <> name)
        "Pick a unique name, or use set_system_variable to change the existing one."

  abbrev lift : {A : Type 0} → Outcome A → Tool v A
  lift o s = (o, s)

  abbrev unavailable : (name actual : String) → Tool v (Unit {0})
  unavailable name actual =
      refuse
        ("System variable name unavailable: \"" <> name <> "\" (the CCU would store it as \""
          <> actual <> "\")")
        "Pick a different name — the CCU deduplicates against existing similar names."

  -- The removal of the variable with the other name, which may fail.
  abbrev pub undo : String → Tool v (Unit {0})
  undo actual =
      try◌ (acquire v >> request v "SysVar.deleteSysVarByName" (with_text "name" actual ∷ []))
        (λ r. pure tt) (λ e. pure tt)

  abbrev pub not_created : String → Tool v (Unit {0})
  not_created name = throw (
      broken
        ("Create script for \"" <> name
          <> "\" produced no output — the variable was most likely NOT created")
        "The CCU's script engine failed (busy or script error). Check with list_system_variables and retry.")

  -- What the name that the script echoed means.
  abbrev pub check_created : (name actual : String) → Tool v (Unit {0})
  check_created name actual =
      if actual === ""
      then not_created name
      else if not (actual === name)
      then undo actual >> (invalidate v n t >> unavailable name actual)
      else invalidate v n t

  -- The handler of `create_system_variable`; the name that it answers is that of the arguments.
  unfoldable pub create_system_variable : CreateArgs N → Tool v (Unit {0})
  create_system_variable args =
      gate v n t args.confirm false
      >> (check_args args
          >> (fetch_items v "SysVar.getAll" >>= λ existing.
              refuse_existing args.name (find_name args.name existing)
              >> (lift (type_setup js args args.type) >>= λ setup.
                  paid v "ReGa.runScript" (("script", script (create_script js args setup)) ∷ [])
                  >>= λ output. check_created args.name (trimmed_reply output))))
