-- ===== src/Tools/Control/Scripts.antt =====
-- src/tools/control.ts: the texts that go into the scripts come back out of them as they are.
use ccu_mcp.Prelude.{false, ◌≡◌, refl, Option, none, some, codes, after_prefix}
use ccu_mcp.Utils.Script.{literal, literal-escape_hm_script}
use ccu_mcp.Tools.Control.Coerce.{Text}
use ccu_mcp.Tools.Control.SetVariable.{set_script}

abbrev and_then :
    Option (Text × Text) → (Text → Text → Option (Text × Text × Text)) → Option (Text × Text × Text)
and_then none f = none
and_then (some (a, b)) f = f a b

abbrev literal_after : Text → Text → Option (Text × Text)
literal_after prefix t = elim (after_prefix prefix t) [
  | none ↦ none
  | some rest ↦ literal false rest
]

-- How a script engine reads the script: the name of the variable, the value it is given, and the rest
-- of the program.
pub read_set_script : Text → Option (Text × Text × Text)
read_set_script t =
    and_then (literal_after (codes "object sv = dom.GetObject(ID_SYSTEM_VARIABLES).Get(\"") t)
      λ name rest.
        and_then (literal_after (codes ");\nif (sv) { sv.State(\"") rest)
          λ value tail. some (name, value, tail)

-- The script of `set_system_variable`, read with its string literals, looks up the variable of that name,
-- sets it to that text, and goes on with the program that the tool wrote: no name and no value adds to
-- the program.
pub read_set_script-set_script :
    (name value : Text)
    → read_set_script (set_script name value)
      ≡ some (name, value, codes "); WriteLine(\"OK\"); } else { WriteLine(\"NOT_FOUND\"); }")
unfolding read_set_script set_script
read_set_script-set_script name value =
    rw (literal-escape_hm_script name) (rw (literal-escape_hm_script value) refl)
