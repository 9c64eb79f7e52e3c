-- ===== src/Cache/TclList.antt =====
-- src/cache/device-type-cache.ts, `parseTclList`: a TCL list, written in one text, split into its items.
mod RoundTrip
mod Tests
use ccu_mcp.Prelude.{
  ℕ, zero, suc, ◌+◌, ◌-◌, Bool, true, false, not, Option, none, some, List, [], ◌∷◌, ◌++◌, ◌==◌,
  length, drop_while, if◌then◌else◌,
}

abbrev pub Text : Type 0
Text = List ℕ

abbrev pub push : ℕ → Text × Text → Text × Text
push c r = (c ∷ r.0, r.1)

-- The depth of braces behind a character.
abbrev pub depth_after : ℕ → ℕ → ℕ
depth_after depth c = if c == b'{' then suc depth else if c == b'}' then depth - 1 else depth

-- The inner loop behind an opening brace: the item, and what follows its closing brace.
pub braced : ℕ → Text → Text × Text
braced depth [] = ([], [])
braced depth (c ∷ t) =
    let d = depth_after depth c in let rest = braced d t in if d == 0 then ([], t) else push c rest

-- The inner loop of an item without braces.
pub word : Text → Text × Text
word [] = ([], [])
word (c ∷ t) = let rest = word t in if c == b' ' then ([], c ∷ t) else push c rest

-- One turn of the outer loop, behind the spaces.
abbrev pub item : Text → Option (Text × Text)
item [] = none
item (c ∷ t) = some (if c == b'{' then braced 1 t else word (c ∷ t))

abbrev pub is_blank : ℕ → Bool
is_blank c = c == b' '

abbrev pub skip_spaces : Text → Text
skip_spaces t = drop_while is_blank t

abbrev pub items_of : Option (Text × Text) → (Text → List Text) → List Text
items_of none more = []
items_of (some r) more = r.0 ∷ more r.1

-- The outer loop; every turn takes a character at least, so the length of the text is fuel enough.
pub tcl_from : ℕ → Text → List Text
tcl_from zero t = []
tcl_from (suc fuel) t = items_of (item (skip_spaces t)) (tcl_from fuel)

-- `parseTclList`
pub parse_tcl_list : Text → List Text
parse_tcl_list input = tcl_from (suc (length input)) input
