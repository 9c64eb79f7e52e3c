-- ===== src/Tools/Control/DeleteVariable.antt =====
-- `delete_system_variable` of src/tools/control.ts.
use ccu_mcp.Prelude.{suc, String, Bool, true, Option, none, some, [], ◌∷◌, ◌<>◌, if◌then◌else◌}
use ccu_mcp.Errors.{ccu, ccu_error}
use ccu_mcp.Action.{pure, throw, ◌>>=◌, ◌>>◌, modify}
use ccu_mcp.Ccu.Targets.{Naming, Target}
use ccu_mcp.Tools.Values.{Item, Reply, with_text, find_name}
use ccu_mcp.Tools.Target.{Services, Tool, SysvarTypes, paid, fetch_items, gate, missing}
use ccu_mcp.Tools.Control.Program.{says_true}

-- `typeCacheHolder.entry = null; typeCacheHolder.gen++`
abbrev pub forget_types : SysvarTypes → SysvarTypes
forget_types c = record { entry = none; gen = suc c.gen }

module _ {W N : Type 0} (v : Services W N) (n : Naming) (t : Target) where
  abbrev pub require_variable : String → Option Item → Tool v (Unit {0})
  require_variable name none = throw (
      missing ("System variable not found: " <> name)
        "Call list_system_variables to see available variables (name must match exactly).")
  require_variable name (some i) = pure tt

  abbrev pub not_deleted : String → Tool v (Unit {0})
  not_deleted name = throw (
      ccu (record {
        error = ccu_error;
        code = 0;
        message =
            "SysVar.deleteSysVarByName reported failure for \"" <> name
            <> "\" — it was NOT deleted";
        hint =
            "The CCU's script engine failed (busy or errored). Confirm with list_system_variables and retry.";
        ccu_method = some "SysVar.deleteSysVarByName";
        ccu_code = none;
      }))

  abbrev pub check_deleted : String → Reply N → Tool v (Unit {0})
  check_deleted name reply = if says_true reply then pure tt else not_deleted name

  abbrev pub invalidate : Tool v (Unit {0})
  invalidate = modify (λ s. record s { sysvar_types = forget_types s.sysvar_types })

  -- The handler of `delete_system_variable`.
  unfoldable pub delete_system_variable :
      (name : String) (confirm : Option Bool) → Tool v (Unit {0})
  delete_system_variable name confirm =
      gate v n t confirm true
      >> (fetch_items v "SysVar.getAll" >>= λ existing.
          require_variable name (find_name name existing)
          >> (paid v "SysVar.deleteSysVarByName" (with_text "name" name ∷ [])
              >>= check_deleted name
              >> invalidate))
