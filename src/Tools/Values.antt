-- ===== src/Tools/Values.antt =====
-- The values that tools pass on: arguments, requests to the CCU and its replies.
use Prim.Native.Char.{code}
use ccu_mcp.Prelude.{
  ℕ, String, Bool, true, false, Option, none, some, List, [], ◌∷◌, ◌===◌, ◌<>◌, ◌&&◌, if◌then◌else◌,
}
use ccu_mcp.Auth.File.{is_space}
use ccu_mcp.Middleware.Resolver.{CcuDevice}

-- What JavaScript gives: its numbers, `Number(text)` where that is finite (`read`), the natural number that
-- a number is, if it is one (`index`), `Number.isFinite` (`finite`), `JSON.stringify` of a string (`quote`) and `toUpperCase`.
pub record Js (N : Type 0) : Type 0 where
  pub text : N → String
  pub read : String → Option N
  pub is_integer : N → Bool
  pub finite : N → Bool
  pub below : N → N → Bool
  pub index : N → Option ℕ
  pub of_index : ℕ → N
  pub quote : String → String
  pub upper : String → String

-- The value of a tool's argument: `string | number | boolean`.
pub data Value (N : Type 0) : Type 0 where
  quoted : String → Value N
  number : N → Value N
  truth : Bool → Value N

abbrev pub show_bool : Bool → String
show_bool true = "true"
show_bool false = "false"

-- `String(value)`
abbrev pub show_value : {N : Type 0} → Js N → Value N → String
show_value js (quoted s) = s
show_value js (number n) = js.text n
show_value js (truth b) = show_bool b

-- `JSON.stringify(value)`
abbrev pub stringify : {N : Type 0} → Js N → Value N → String
stringify js (quoted s) = js.quote s
stringify js (number n) = js.text n
stringify js (truth b) = show_bool b

-- `inferType` of src/tools/control.ts
unfoldable pub infer_type : {N : Type 0} → Js N → Value N → String
infer_type js (truth b) = "bool"
infer_type js (number n) = if js.is_integer n then "int" else "double"
infer_type js (quoted s) = "string"

-- An entry of the `set` of `Interface.putParamset`.
pub record ParamEntry : Type 0 where
  pub entry_name : String
  pub entry_type : String
  pub entry_value : String

pub data Param (N : Type 0) : Type 0 where
  plain : Value N → Param N
  entries : List ParamEntry → Param N
  script : List ℕ → Param N

-- A request: its method and its parameters by name.
pub record Request (N : Type 0) : Type 0 where
  pub method : String
  pub params : List (String × Param N)

abbrev pub with_text : {N : Type 0} → String → String → String × Param N
with_text key s = (key, plain (quoted s))

-- An element of a list that the CCU answers: a system variable, a program, a room, a function or a
-- device, with the fields that the sources declare for any of them. The type is in `device`.
pub record Item : Type 0 where
  pub item_id : String
  pub item_name : String
  pub value_list : Option String
  pub device : CcuDevice

-- A reply of the CCU. `items` is an array.
pub data Reply (N : Type 0) : Type 0 where
  null : Reply N
  flag : Bool → Reply N
  amount : N → Reply N
  text : String → Reply N
  object : Reply N
  items : List Item → Reply N

-- The first item of that name, `list.find((v) => v.name === name)`.
abbrev pub find_name : String → List Item → Option Item
find_name name [] = none
find_name name (v ∷ vs) = if v.item_name === name then some v else find_name name vs

abbrev pub join_names : List Item → String
join_names [] = ""
join_names (v ∷ []) = v.item_name
join_names (v ∷ vs) = v.item_name <> ", " <> join_names vs

-- `text.trim()`
abbrev trim_start : String → String
trim_start String.[] = String.[]
trim_start (String.◌∷◌ c s) =
    let rest = trim_start s in if is_space (code c) then rest else String.◌∷◌ c s

abbrev trim_end : String → String
trim_end String.[] = String.[]
trim_end (String.◌∷◌ c s) =
    let rest = trim_end s in
    if is_space (code c) && rest === "" then String.[] else String.◌∷◌ c rest

abbrev pub trim_text : String → String
trim_text s = trim_end (trim_start s)
