-- ===== src/Tools/Control/Program.antt =====
-- `execute_program` of src/tools/control.ts.
use ccu_mcp.Prelude.{
  String, Bool, false, Option, none, some, List, [], ◌∷◌, ◌===◌, ◌<>◌, if◌then◌else◌,
}
use ccu_mcp.Action.{pure, throw, ◌>>=◌, ◌>>◌}
use ccu_mcp.Ccu.Targets.{Naming, Target}
use ccu_mcp.Tools.Values.{Item, Reply, flag, text, with_text}
use ccu_mcp.Tools.Target.{Services, Tool, request, acquire, fetch_items, gate, missing, broken}

-- `reply === true || reply === "true"`
abbrev pub says_true : {N : Type 0} → Reply N → Bool
says_true (flag b) = b
says_true (text s) = s === "true"
says_true _ = false

-- `programs.find((p) => String(p.id) === args.id)`
abbrev pub find_id : String → List Item → Option Item
find_id id [] = none
find_id id (p ∷ ps) = if p.item_id === id then some p else find_id id ps

module _ {W N : Type 0} (v : Services W N) (n : Naming) (t : Target) where
  abbrev pub known_program : String → Option Item → Tool v Item
  known_program id none = throw (
      missing ("Program not found: " <> id)
        "Call list_programs to see available programs and their IDs.")
  known_program id (some p) = pure p

  abbrev pub check_executed : String → Item → Reply N → Tool v Item
  check_executed id p reply =
      if says_true reply
      then pure p
      else throw (
          broken
            ("Program.execute reported failure for program " <> id <> " (\"" <> p.item_name
              <> "\")")
            "The CCU's script engine failed or the program vanished. Check list_programs and the CCU logs, then retry.")

  -- The handler of `execute_program`, with the program that it executed.
  unfoldable pub execute_program : (id : String) (confirm : Option Bool) → Tool v Item
  execute_program id confirm =
      gate v n t confirm false
      >> (fetch_items v "Program.getAll" >>= λ programs.
          known_program id (find_id id programs) >>= λ p.
          acquire v
          >> (request v "Program.execute" (with_text "id" id ∷ []) >>= check_executed id p))
