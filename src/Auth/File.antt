-- ===== src/Auth/File.antt =====
-- src/auth/token.ts: the token file (`parsePersisted`, `serialize`, `persist`). A text is a list of
-- UTF-16 code units. `Number` of a text that is not all digits is the parameter `other_number`; of such
-- values the model has the natural numbers, which is what `serialize` writes. Digits are read exactly,
-- as JavaScript does up to 2^53.
pub mod Lines
pub mod RoundTrip
pub mod Operator
pub mod Tests
use mathlib.Core.List.{reverse}
use ccu_mcp.Prelude.{
  ℕ, ◌≤◌, Bool, true, false, not, ◌&&◌, ◌||◌, Option, none, some, List, [], ◌∷◌, ◌++◌, ◌==◌, any,
  filter, leb, codes, after_prefix, is_some, drop_while, if◌then◌else◌,
}
use ccu_mcp.Prelude.Decimal.{show, read_digits}
use ccu_mcp.Auth.Tokens.{Text}

-- `PersistedToken`; a token is a text.
pub record PersistedToken : Type 0 where
  pub token : Option Text
  pub issued : Option ℕ
  pub previous : Option Text
  pub previous_expires : Option ℕ

abbrev pub nothing_persisted : PersistedToken
nothing_persisted = record { token = none; issued = none; previous = none; previous_expires = none }

-- The characters that end a line for `^`, `$` and `.` of a regular expression.
abbrev pub is_eol : ℕ → Bool
is_eol c = c == 10 || c == 13 || c == 8232 || c == 8233

-- The characters that `trim` removes: white space and line ends.
abbrev pub is_space : ℕ → Bool
is_space c =
    leb 9 c && leb c 13
    || c == 32
    || c == 160
    || c == 5760
    || leb 8192 c && leb c 8202
    || c == 8232
    || c == 8233
    || c == 8239
    || c == 8287
    || c == 12288
    || c == 65279

unfoldable pub trim : Text → Text
trim t = reverse (drop_while is_space (reverse (drop_while is_space t)))

abbrev pub cons_first : ℕ → List Text → List Text
cons_first c [] = (c ∷ []) ∷ []
cons_first c (l ∷ ls) = (c ∷ l) ∷ ls

-- The lines of a text for a regular expression with the `m` flag.
pub lines : Text → List Text
lines [] = [] ∷ []
lines (c ∷ t) = let rest = lines t in if is_eol c then [] ∷ rest else cons_first c rest

abbrev pub key_token : Text
key_token = codes "MCP_AUTH_TOKEN="

abbrev pub key_issued : Text
key_issued = codes "MCP_AUTH_TOKEN_ISSUED="

abbrev pub key_previous : Text
key_previous = codes "MCP_AUTH_TOKEN_PREVIOUS="

abbrev pub key_expires : Text
key_expires = codes "MCP_AUTH_TOKEN_PREVIOUS_EXPIRES="

-- `content.match(new RegExp(`^${key}=(.+)$`, "m"))?.[1]`: the rest of the first line that starts with
-- the key and goes on.
abbrev pub line_value : Option Text → Option Text → Option Text
line_value (some (c ∷ v)) rest = some (c ∷ v)
line_value (some []) rest = rest
line_value none rest = rest

pub find_value : Text → List Text → Option Text
find_value key [] = none
find_value key (l ∷ ls) = line_value (after_prefix key l) (find_value key ls)

abbrev pub trimmed : Option Text → Option Text
trimmed none = none
trimmed (some t) = some (trim t)

-- `read`
pub read : Text → Text → Option Text
read content key = trimmed (find_value key (lines content))

-- `Number` of a text, if it is finite.
abbrev pub number : (Text → Option ℕ) → Text → Option ℕ
number other_number t = elim (read_digits t) [ some n ↦ some n | none ↦ other_number t ]

-- What `readNum` makes of the text that `read` gives.
abbrev pub raw_number : (Text → Option ℕ) → Option Text → Option ℕ
raw_number other_number none = none
raw_number other_number (some raw) = number other_number raw

-- `readNum`
pub read_num : (Text → Option ℕ) → Text → Text → Option ℕ
read_num other_number content key = raw_number other_number (read content key)

-- `parsePersisted`
pub parse_persisted : (Text → Option ℕ) → Text → PersistedToken
parse_persisted other_number content = record {
  token = read content key_token;
  issued = read_num other_number content key_issued;
  previous = read content key_previous;
  previous_expires = read_num other_number content key_expires;
}

-- `${state.token}`, which `serialize` is given only with a token.
abbrev pub token_text : Option Text → Text
token_text none = codes "undefined"
token_text (some t) = t

abbrev pub issued_lines : Option ℕ → List Text
issued_lines none = []
issued_lines (some n) = (key_issued ++ show n) ∷ []

abbrev pub expires_lines : Option ℕ → List Text
expires_lines none = []
expires_lines (some n) = (key_expires ++ show n) ∷ []

abbrev pub previous_lines : Option Text → Option ℕ → List Text
previous_lines none expires = []
previous_lines (some t) expires = (key_previous ++ t) ∷ expires_lines expires

-- The lines of `serialize`.
abbrev pub state_lines : PersistedToken → List Text
state_lines s =
    (key_token ++ token_text s.token)
    ∷ (issued_lines s.issued ++ previous_lines s.previous s.previous_expires)

-- `lines.join("\n") + "\n"`, of at least one line.
unfoldable pub unlines : List Text → Text
unlines [] = []
unlines (l ∷ ls) = l ++ 10 ∷ unlines ls

-- `serialize`
pub serialize : PersistedToken → Text
serialize s = unlines (state_lines s)

abbrev starts_newline : Text → Bool
starts_newline [] = false
starts_newline (c ∷ t) = c == 10

-- `.split(/\r?\n/)`
unfoldable pub rows : Text → List Text
rows [] = [] ∷ []
rows (c ∷ t) =
    let rest = rows t in
    if c == 10 then [] ∷ rest else if c == 13 && starts_newline t then rest else cons_first c rest

-- `MANAGED_KEY_RE.test(line)`
pub is_managed : Text → Bool
is_managed l =
    is_some (after_prefix key_token l)
    || is_some (after_prefix key_issued l)
    || is_some (after_prefix key_previous l)
    || is_some (after_prefix key_expires l)

abbrev pub is_blank : Text → Bool
is_blank [] = true
is_blank (c ∷ t) = false

-- The filter of `persist`.
abbrev pub is_foreign : Text → Bool
is_foreign l = not (is_blank (trim l)) && not (is_managed l)

-- The lines of the operator in the file that is there, if it can be read.
pub foreign_lines : Option Text → List Text
foreign_lines none = []
foreign_lines (some content) = filter is_foreign (rows content)

-- What `persist` writes.
pub new_content : PersistedToken → Option Text → Text
new_content s old = serialize s ++ unlines (foreign_lines old)
