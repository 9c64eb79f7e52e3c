-- ===== src/Tools/Control/SetVariable.antt =====
-- `set_system_variable` of src/tools/control.ts.
use ccu_mcp.Prelude.{
  ℕ, ◌+◌, String, Bool, true, false, not, ◌&&◌, Option, none, some, List, [], ◌∷◌, ◌++◌, ◌==◌,
  ◌===◌, ◌<>◌, ltb, codes, if◌then◌else◌,
}
use ccu_mcp.Prelude.Dict.{Dict, get, set}
use ccu_mcp.Errors.{ccu, ccu_error}
use ccu_mcp.Action.{Outcome, pure, throw, ◌>>=◌, ◌>>◌, try◌, gets, modify}
use ccu_mcp.Ccu.Targets.{Naming, Target}
use ccu_mcp.Utils.{escape_hm_script}
use ccu_mcp.Tools.Values.{
  Js, Value, plain, script, show_value, Item, Reply, amount, text, with_text, trim_text,
}
use ccu_mcp.Tools.Target.{
  Services, Tool, SysvarType, SysvarTypes, TypeEntry, paid, fetch_items, gate, missing, broken,
}
use ccu_mcp.Tools.Control.Coerce.{Text, Setter, by_method, by_script, setter}

-- `SYSVAR_TYPE_TTL_MS`
abbrev pub sysvar_type_ttl_ms : ℕ
sysvar_type_ttl_ms = 30000

abbrev pub type_of_item : Item → SysvarType
type_of_item i = record { var_type = i.device.device_type; labels = i.value_list }

-- `new Map(allVars.map(...))`
unfoldable pub types_of : Dict SysvarType → List Item → Dict SysvarType
types_of m [] = m
types_of m (i ∷ is) = types_of (set m i.item_name (type_of_item i)) is

-- The types that were fetched less than 30 seconds before; a clock that went back does not make them old.
abbrev pub fresh_types : Option TypeEntry → ℕ → Dict SysvarType
fresh_types none now = []
fresh_types (some e) now = if ltb now (e.ts + sysvar_type_ttl_ms) then e.types else []

-- The fetched types are kept only if no variable was created or deleted since `gen_before`.
unfoldable pub install : (gen_before now : ℕ) → Dict SysvarType → SysvarTypes → SysvarTypes
install gen_before now types c =
    if c.gen == gen_before
    then record c { entry = some (record { ts = now; types = types }) }
    else c

-- `isCcuScriptFailure`
unfoldable pub is_script_failure : {N : Type 0} → Js N → Reply N → Bool
is_script_failure js (amount x) = js.text x === "-1"
is_script_failure js (text s) = s === "-1"
is_script_failure js _ = false

-- `typeof output === "string" ? output.trim() : ""`
abbrev pub trimmed_reply : {N : Type 0} → Reply N → String
trimmed_reply (text s) = trim_text s
trimmed_reply _ = ""

-- `typeof verifyResult !== "string" || verifyResult === ""`
abbrev pub no_text : {N : Type 0} → Reply N → Bool
no_text (text s) = s === ""
no_text _ = true

-- The script that sets a variable of text.
unfoldable pub set_script : (name value : Text) → Text
set_script name value =
    codes "object sv = dom.GetObject(ID_SYSTEM_VARIABLES).Get(\""
    ++ (escape_hm_script name
        ++ (codes "\");\nif (sv) { sv.State(\""
            ++ (escape_hm_script value
                ++ codes "\"); WriteLine(\"OK\"); } else { WriteLine(\"NOT_FOUND\"); }")))

pub record SetVariableResult (N : Type 0) : Type 0 where
  pub set_to : Value N
  pub set_by : String
  pub verified : Bool

module _ {W N : Type 0} (js : Js N) (v : Services W N) (n : Naming) (t : Target)
    (join : List Text → String) where
  abbrev cached_type : String → Tool v (Option SysvarType)
  cached_type name = gets (λ s. get (fresh_types s.sysvar_types.entry (v.now s.world)) name)

  abbrev pub keep_types : ℕ → Dict SysvarType → Tool v (Unit {0})
  keep_types gen_before types =
      modify
        (λ s. record s { sysvar_types = install gen_before (v.now s.world) types s.sysvar_types })

  -- The types, fetched anew.
  abbrev pub fetch_types : Tool v (Dict SysvarType)
  fetch_types = gets (λ s. s.sysvar_types.gen) >>= λ gen_before.
      fetch_items v "SysVar.getAll" >>= λ vars.
      keep_types gen_before (types_of [] vars) >> pure (types_of [] vars)

  abbrev or_fetched : String → Option SysvarType → Tool v (Option SysvarType)
  or_fetched name (some d) = pure (some d)
  or_fetched name none = fetch_types >>= λ types. pure (get types name)

  abbrev pub known_type : String → Option SysvarType → Tool v SysvarType
  known_type name none = throw (
      missing ("System variable not found: " <> name)
        "Call list_system_variables to see available variables (name must match exactly).")
  known_type name (some d) = pure d

  abbrev lift : {A : Type 0} → Outcome A → Tool v A
  lift o s = (o, s)

  abbrev pub check_script : String → Value N → String → Tool v (SetVariableResult N)
  check_script name value outcome =
      if outcome === "NOT_FOUND"
      then throw (
          missing ("System variable not found: " <> name)
            "The variable disappeared between lookup and write. Call list_system_variables.")
      else if not (outcome === "OK")
      then throw (
          broken
            ("ReGa script produced no confirmation while setting \"" <> name
              <> "\" — the write may not have happened")
            "The CCU's script engine likely failed (busy or errored). Verify with get_value / list_system_variables and retry.")
      else pure (record { set_to = value; set_by = "ReGa.runScript (string)"; verified = true })

  -- The branch of a variable of text.
  abbrev pub set_by_script : String → Value N → Tool v (SetVariableResult N)
  set_by_script name value =
      paid v "ReGa.runScript"
        (("script", script (set_script (codes name) (codes (show_value js value)))) ∷ [])
      >>= λ output. check_script name value (trimmed_reply output)

  abbrev not_written : String → String → Tool v (Unit {0})
  not_written name method = throw (
      ccu (record {
        error = ccu_error;
        code = 0;
        message = method <> " reported failure for \"" <> name <> "\" — the value was NOT written";
        hint =
            "The CCU's script engine failed (busy or errored). Verify with list_system_variables and retry.";
        ccu_method = some method;
        ccu_code = none;
      }))

  abbrev pub check_written : String → String → Value N → Reply N → Tool v (Unit {0})
  check_written name method value reply =
      if is_script_failure js reply && not (show_value js value === "-1")
      then not_written name method
      else pure tt

  -- The read after the write: the reply, or none if the read failed.
  abbrev pub read_back : String → Tool v (Option (Reply N))
  read_back name =
      try◌ (paid v "SysVar.getValueByName" (with_text "name" name ∷ [])) (λ r. pure (some r))
        (λ _. pure none)

  abbrev pub confirmed_by :
      String → String → Value N → Option (Reply N) → Tool v (SetVariableResult N)
  confirmed_by name method value none =
      pure (record { set_to = value; set_by = method; verified = false })
  confirmed_by name method value (some reply) =
      if no_text reply
      then throw (
          missing
            ("Could not confirm the write to \"" <> name <> "\": the CCU returned no value for it")
            "Either the variable was deleted concurrently, or the CCU's script engine failed during verification. The write itself was acknowledged. Call list_system_variables to see which.")
      else pure (record { set_to = value; set_by = method; verified = true })

  abbrev pub set_by : String → Value N → Setter N → Tool v (SetVariableResult N)
  set_by name value by_script = set_by_script name value
  set_by name value (by_method method rpc_value) =
      paid v method (with_text "name" name ∷ ("value", plain rpc_value) ∷ []) >>= λ reply.
      check_written name method rpc_value reply
      >> (read_back name >>= confirmed_by name method rpc_value)

  -- The handler of `set_system_variable`.
  unfoldable pub set_system_variable :
      (name : String) (value : Value N) (confirm : Option Bool) → Tool v (SetVariableResult N)
  set_system_variable name value confirm =
      gate v n t confirm false
      >> (cached_type name >>= λ known. or_fetched name known >>= λ found.
          known_type name found >>= λ d. lift (setter js join name value d) >>= set_by name value)
