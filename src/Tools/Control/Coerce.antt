-- ===== src/Tools/Control/Coerce.antt =====
-- `set_system_variable` of src/tools/control.ts: which setter a variable has, and the value that it is
-- given.
use ccu_mcp.Prelude.{
  ℕ, suc, String, Bool, true, false, ◌||◌, Option, none, some, List, [], ◌∷◌, ◌==◌, ◌===◌, ◌<>◌,
  ltb, codes, length, includes, text_eq, if◌then◌else◌,
}
use ccu_mcp.Prelude.Decimal.{read_digits}
use ccu_mcp.Errors.{Failure}
use ccu_mcp.Action.{Outcome, ok, thrown}
use ccu_mcp.Auth.File.{cons_first, trim}
use ccu_mcp.Tools.Values.{Js, Value, quoted, number, truth, show_value, stringify}
use ccu_mcp.Tools.Target.{SysvarType, invalid, broken}

abbrev pub Text : Type 0
Text = List ℕ

-- How the value is written: by a method with a value, or by a script.
pub data Setter (N : Type 0) : Type 0 where
  by_method : String → Value N → Setter N
  by_script : Setter N

-- `text.split(";")`
unfoldable pub split_labels : Text → List Text
split_labels [] = [] ∷ []
split_labels (c ∷ t) =
    let rest = split_labels t in if c == b';' then [] ∷ rest else cons_first c rest

-- `labels.indexOf(label)`
unfoldable pub index_of : Text → List Text → Option ℕ
index_of label [] = none
index_of label (l ∷ ls) =
    if text_eq l label
    then some 0
    else elim (index_of label ls) [ none ↦ none | some i ↦ some (suc i) ]

module _ {N : Type 0} (js : Js N) where
  -- What `set_system_variable` takes for true, and for false.
  abbrev pub is_number : N → ℕ → Bool
  is_number x i = elim (js.index x) [ none ↦ false | some j ↦ j == i ]

  abbrev pub as_flag : Value N → Option ℕ
  as_flag (truth true) = some 1
  as_flag (truth false) = some 0
  as_flag (quoted s) =
      if s === "true" || s === "1"
      then some 1
      else if s === "false" || s === "0"
      then some 0
      else none
  as_flag (number x) = if is_number x 1 then some 1 else if is_number x 0 then some 0 else none

  abbrev pub not_boolean : String → Value N → Failure
  not_boolean name value =
      invalid ("System variable \"" <> name <> "\" is boolean; got: " <> stringify js value)
        "Pass true/false (or 0/1)."

  abbrev pub set_bool : String → Value N → Option ℕ → Outcome (Setter N)
  set_bool name value none = thrown (not_boolean name value)
  set_bool name value (some i) = ok (by_method "SysVar.setBool" (number (js.of_index i)))

  abbrev pub as_number : Value N → Option N
  as_number (truth b) = none
  as_number (number x) = if js.finite x then some x else none
  as_number (quoted s) = if text_eq (trim (codes s)) [] then none else js.read s

  abbrev pub set_number : String → Value N → Option N → Outcome (Setter N)
  set_number name value none = thrown (
      invalid ("System variable \"" <> name <> "\" is numeric; got: " <> stringify js value)
        "Pass a finite number.")
  set_number name value (some x) = ok (by_method "SysVar.setFloat" (number x))

  -- The index of a label, or else the digits that the text is.
  abbrev label_or_digits : Option ℕ → Text → Option ℕ
  label_or_digits (some i) t = some i
  label_or_digits none t = read_digits t

  -- The index that the value means, before the check of its range.
  unfoldable pub enum_index : List Text → Value N → Option ℕ
  enum_index labels (number x) = js.index x
  enum_index labels (quoted s) = label_or_digits (index_of (codes s) labels) (codes s)
  enum_index labels (truth b) =
      let t = codes (show_value js (truth b)) in label_or_digits (index_of t labels) t

  abbrev pub not_in_enum : String → Value N → String → Failure
  not_in_enum name value hint =
      invalid ("Invalid value for enum variable \"" <> name <> "\": " <> stringify js value) hint

  abbrev pub set_index : String → Value N → String → ℕ → Option ℕ → Outcome (Setter N)
  set_index name value hint count none = thrown (not_in_enum name value hint)
  set_index name value hint count (some i) =
      if ltb i count
      then ok (by_method "SysVar.setFloat" (number (js.of_index i)))
      else thrown (not_in_enum name value hint)

  abbrev pub no_list : String → Failure
  no_list name =
      broken
        ("System variable \"" <> name <> "\" is an enum but the CCU reports no value list for it")
        "The variable is misconfigured on the CCU — open it in the WebUI and define its value list, or recreate it with create_system_variable."

  -- The hint names the labels; `join` makes its text.
  abbrev pub set_enum : (List Text → String) → String → Value N → Option String → Outcome (Setter N)
  set_enum join name value none = thrown (no_list name)
  set_enum join name value (some list) =
      let labels = split_labels (codes list) in
      if list === ""
      then thrown (no_list name)
      else set_index name value (join labels) (length labels) (enum_index labels value)

  abbrev pub unsupported : String → String → Failure
  unsupported name type =
      invalid ("System variable \"" <> name <> "\" has unsupported type: " <> type)
        "Supported types are logic/alarm, number, list, and string."

  abbrev pub names_type : String → Text → Bool
  names_type word upper = includes (codes word) upper

  -- From `varType` on: the setter for the variable, or why there is none.
  unfoldable pub setter : (List Text → String) → String → Value N → SysvarType → Outcome (Setter N)
  setter join name value t =
      let u = codes (js.upper t.var_type) in
      if names_type "LOGIC" u || names_type "BOOL" u || names_type "ALARM" u
      then set_bool name value (as_flag value)
      else if names_type "FLOAT" u || names_type "NUMBER" u || names_type "INTEGER" u
      then set_number name value (as_number value)
      else if names_type "ENUM" u || names_type "LIST" u
      then set_enum join name value t.labels
      else if names_type "STRING" u
      then ok by_script
      else thrown (unsupported name t.var_type)
