-- ===== src/Tools/Control/CreateScript.antt =====
-- `create_system_variable` of src/tools/control.ts: its arguments, and the script that it runs.
use ccu_mcp.Prelude.{
  ℕ, String, Bool, true, false, ◌&&◌, Option, none, some, List, [], ◌∷◌, ◌++◌, ◌==◌, ◌<>◌, leb,
  codes, if◌then◌else◌,
}
use ccu_mcp.Action.{Outcome, ok, thrown}
use ccu_mcp.Utils.{escape_hm_script}
use ccu_mcp.Tools.Values.{Js}
use ccu_mcp.Tools.Target.{invalid}
use ccu_mcp.Tools.Control.Coerce.{Text}

pub data VariableType : Type 0 where
  bool_type float_type enum_type string_type : VariableType

abbrev pub is_float : VariableType → Bool
is_float float_type = true
is_float _ = false

abbrev pub is_enum : VariableType → Bool
is_enum enum_type = true
is_enum _ = false

abbrev pub type_name : VariableType → String
type_name bool_type = "bool"
type_name float_type = "float"
type_name enum_type = "enum"
type_name string_type = "string"

pub record CreateArgs (N : Type 0) : Type 0 where
  pub name : String
  pub type : VariableType
  pub description : Option String
  pub unit : Option String
  pub min : Option N
  pub max : Option N
  pub values : Option (List String)
  pub confirm : Option Bool

abbrev pub labels_of : Option (List String) → List String
labels_of none = []
labels_of (some l) = l

abbrev all_digits : Text → Bool
all_digits [] = true
all_digits (c ∷ t) = leb b'0' c && leb c b'9' && all_digits t

-- `\d+`
abbrev digits : Text → Bool
digits [] = false
digits (c ∷ t) = all_digits (c ∷ t)

abbrev split_point : Text → Text × Option Text
split_point [] = ([], none)
split_point (c ∷ t) = let r = split_point t in if c == b'.' then ([], some t) else (c ∷ r.0, r.1)

abbrev is_fraction : Option Text → Bool
is_fraction none = true
is_fraction (some t) = digits t

abbrev without_sign : Text → Text
without_sign [] = []
without_sign (c ∷ t) = if c == b'-' then t else c ∷ t

-- `/^-?\d+(\.\d+)?$/`
unfoldable pub is_plain_decimal : Text → Bool
is_plain_decimal t = let p = split_point (without_sign t) in digits p.0 && is_fraction p.1

-- `labels.join(";")`
abbrev pub join_labels : List String → Text
join_labels [] = []
join_labels (l ∷ []) = codes l
join_labels (l ∷ ls) = codes l ++ b';' ∷ join_labels ls

abbrev text_or_empty : Option String → Text
text_or_empty none = []
text_or_empty (some s) = codes s

abbrev pub quoted_call : String → Text → Text → Text
quoted_call before body after = codes before ++ (b'"' ∷ (escape_hm_script body ++ b'"' ∷ after))

abbrev pub line_end : Text
line_end = codes ");\n"

module _ {N : Type 0} (js : Js N) where
  -- `hmNumberLiteral`
  unfoldable pub hm_number_literal : N → String → Outcome Text
  hm_number_literal x field =
      let s = js.text x in
      if is_plain_decimal (codes s)
      then ok (codes s)
      else thrown (
          invalid
            ("Value for \"" <> field <> "\" (" <> s
              <> ") cannot be written as a HomeMatic Script number literal")
            "Use a plain decimal magnitude (no exponent notation).")

  abbrev or_index : Option N → ℕ → N
  or_index none i = js.of_index i
  or_index (some x) i = if js.finite x then x else js.of_index i

  abbrev and_ok : {A B : Type 0} → Outcome A → (A → Outcome B) → Outcome B
  and_ok (ok a) f = f a
  and_ok (thrown e) f = thrown e

  abbrev float_setup : Text → Text → Text → Text
  float_setup name low high =
      codes "sv.ValueType(ivtFloat);\n"
      ++ (quoted_call "sv.Name(" name line_end
          ++ (codes "sv.ValueMin("
              ++ (low ++ (codes ");\nsv.ValueMax(" ++ (high ++ codes ");\nsv.State(0);")))))

  -- `typeSetup`
  unfoldable pub type_setup : CreateArgs N → VariableType → Outcome Text
  type_setup args bool_type = ok (
      codes "sv.ValueType(ivtBinary);\nsv.ValueSubType(istBool);\n"
      ++ (quoted_call "sv.Name(" (codes args.name) line_end
          ++ codes "sv.ValueName0(\"false\");\nsv.ValueName1(\"true\");\nsv.State(false);"))
  type_setup args float_type = and_ok (hm_number_literal (or_index args.min 0) "min") λ low.
      and_ok (hm_number_literal (or_index args.max 100) "max")
        λ high. ok (float_setup (codes args.name) low high)
  type_setup args enum_type = ok (
      codes "sv.ValueType(ivtInteger);\nsv.ValueSubType(istEnum);\n"
      ++ (quoted_call "sv.Name(" (codes args.name) line_end
          ++ (quoted_call "sv.ValueList(" (join_labels (labels_of args.values)) line_end
              ++ codes "sv.State(0);")))
  type_setup args string_type = ok (
      codes "sv.ValueType(ivtString);\n"
      ++ quoted_call "sv.Name(" (codes args.name) (codes ");\nsv.State(\"\");"))

  abbrev post_add : CreateArgs N → Text
  post_add args =
      (if is_float args.type
        then quoted_call "sv.ValueUnit(" (text_or_empty args.unit) line_end
        else [])
      ++ quoted_call "sv.DPInfo(" (text_or_empty args.description) (codes ");")

  -- The whole script.
  unfoldable pub create_script : CreateArgs N → Text → Text
  create_script args setup =
      codes
        "object oSysVars = dom.GetObject(ID_SYSTEM_VARIABLES);\nobject sv = dom.CreateObject(OT_VARDP);\n"
      ++ (setup
          ++ (codes "\nsv.Internal(false);\noSysVars.Add(sv.ID());\n"
              ++ (post_add args ++ codes "\ndom.RTUpdate(false);\nWriteLine(sv.Name());")))
