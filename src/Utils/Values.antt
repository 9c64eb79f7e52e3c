-- ===== src/Utils/Values.antt =====
-- `parseValue` and `parseValues` of src/utils.ts: the native value of what the CCU answers as a text.
mod Exact
mod Tests
use ccu_mcp.Prelude.{
  ℕ, String, Bool, true, false, not, ◌&&◌, ◌||◌, Option, none, some, List, [], ◌∷◌, ◌==◌, leb, map,
  any, all, filter, length, codes, drop_while, text_eq, if◌then◌else◌,
}
use ccu_mcp.Prelude.Decimal.{is_digit}
use ccu_mcp.Utils.{Text}

-- A value of JSON. An object or an array is what `String` makes of it, or nothing where that throws.
pub data Json (N : Type 0) : Type 0 where
  null : Json N
  flag : Bool → Json N
  amount : N → Json N
  text : Text → Json N
  composite : Option Text → Json N

-- What JavaScript does with its numbers: `String(n)`, `Number(s)` of a decimal, and
-- `BigInt(s) === BigInt(n)`, which is false where a `BigInt` throws.
pub record Numbers (N : Type 0) : Type 0 where
  pub to_text : N → Text
  pub read : Text → N
  pub same_integer : Text → N → Bool

-- `\d+$`
abbrev pub some_digits : Text → Bool
some_digits [] = false
some_digits (c ∷ t) = all is_digit (c ∷ t)

-- `(\.\d+)?$`
abbrev pub is_fraction : Text → Bool
is_fraction [] = true
is_fraction (c ∷ t) = c == b'.' && some_digits t

-- `\d*(\.\d+)?$`
abbrev pub after_digits : Text → Bool
after_digits [] = true
after_digits (c ∷ t) = let rest = after_digits t in if is_digit c then rest else is_fraction (c ∷ t)

-- `(0|[1-9]\d*)(\.\d+)?$`
abbrev pub is_unsigned : Text → Bool
is_unsigned [] = false
is_unsigned (c ∷ t) = if c == b'0' then is_fraction t else is_digit c && after_digits t

-- `DECIMAL_RE.test(s)`
unfoldable pub is_decimal : Text → Bool
is_decimal [] = false
is_decimal (c ∷ t) = if c == b'-' then is_unsigned t else is_unsigned (c ∷ t)

abbrev pub is_mark : ℕ → Bool
is_mark c = c == b'-' || c == b'.'

-- `s.replace(/[-.]/g, "").replace(/^0+/, "")`
unfoldable pub significant : Text → Text
significant s = drop_while (λ c. c == b'0') (filter (λ c. not (is_mark c)) s)

abbrev pub is_dot : ℕ → Bool
is_dot c = c == b'.'

module _ {N : Type 0} (js : Numbers N) where
  -- The value of a decimal: a number, unless it may lose digits.
  abbrev pub parse_decimal : Text → Json N
  parse_decimal s =
      let n = js.read s in
      if leb (length (significant s)) 15
      then amount n
      else if any is_dot s
      then text s
      else if js.same_integer s n
      then amount n
      else text s

  abbrev pub parse_text : Text → Json N
  parse_text s =
      if text_eq s []
      then null
      else if text_eq s (codes "true")
      then flag true
      else if text_eq s (codes "false")
      then flag false
      else if is_decimal s
      then parse_decimal s
      else text s

  abbrev pub parse_string : Option Text → Json N
  parse_string none = null
  parse_string (some s) = parse_text s

  -- `String(val)`
  abbrev pub string_of : Json N → Option Text
  string_of null = some (codes "null")
  string_of (flag true) = some (codes "true")
  string_of (flag false) = some (codes "false")
  string_of (amount n) = some (js.to_text n)
  string_of (text s) = some s
  string_of (composite s) = s

  -- `parseValue`
  unfoldable pub parse_value : Json N → Json N
  parse_value null = null
  parse_value (flag b) = parse_string (string_of (flag b))
  parse_value (amount n) = parse_string (string_of (amount n))
  parse_value (text s) = parse_string (string_of (text s))
  parse_value (composite s) = parse_string (string_of (composite s))

  -- `parseValues`, on the entries of an object.
  unfoldable pub parse_values : List (Text × Json N) → List (Text × Json N)
  unfolding parse_value
  parse_values obj = map (λ (e : Text × Json N). (e.0, parse_value e.1)) obj
