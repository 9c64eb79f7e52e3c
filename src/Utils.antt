-- ===== src/Utils.antt =====
-- src/utils.ts: the helpers on texts. A text is a list of UTF-16 code units.
pub mod Script
mod Header
mod Values
mod Tests
use ccu_mcp.Prelude.{
  ℕ, ◌+◌, Bool, true, false, not, ◌&&◌, Option, none, some, List, [], ◌∷◌, ◌++◌, ◌==◌, leb, map,
  any, codes, after_prefix, drop_while, usable, if◌then◌else◌,
}
use ccu_mcp.Errors.{to_lower}
use ccu_mcp.Auth.File.{is_space, is_eol}

abbrev pub Text : Type 0
Text = List ℕ

-- `t.replace(c, r)` for a regular expression of one character with the `g` flag.
pub replace_all : ℕ → Text → Text → Text
replace_all c r [] = []
replace_all c r (x ∷ t) = let rest = replace_all c r t in if x == c then r ++ rest else x ∷ rest

-- `escapeHmScript`
pub escape_hm_script : Text → Text
escape_hm_script input = replace_all b'\r' (codes "\\r") (
    replace_all b'\n' (codes "\\n")
      (replace_all b'"' (codes "\\\"") (replace_all b'\\' (codes "\\\\") input)))

-- What follows a prefix in ASCII, whatever its case.
abbrev pub after_word : Text → Text → Option Text
after_word [] t = some t
after_word (p ∷ ps) [] = none
after_word (p ∷ ps) (c ∷ t) = let rest = after_word ps t in if p == to_lower c then rest else none

-- `(\S.*)$`, after the white space.
abbrev pub to_end : Text → Text
to_end t = if any is_eol t then [] else t

-- `\s+(\S.*)$`
abbrev pub credentials : Text → Text
credentials [] = []
credentials (c ∷ t) = if is_space c then to_end (drop_while is_space t) else []

abbrev pub credentials_of : Option Text → Text
credentials_of none = []
credentials_of (some t) = credentials t

-- `extractBearerToken`
unfoldable pub extract_bearer_token : Text → Text
extract_bearer_token header = credentials_of (after_word (codes "bearer") header)

abbrev pub or_unknown : Text → Text
or_unknown [] = codes "unknown"
or_unknown (c ∷ t) = c ∷ t

abbrev pub without_prefix : Text → Option Text → Text
without_prefix t none = t
without_prefix t (some rest) = rest

-- `normalizeClientIp`
unfoldable pub normalize_client_ip : Option Text → Text
normalize_client_ip none = codes "unknown"
normalize_client_ip (some t) =
    if usable (some t)
    then or_unknown (without_prefix t (after_prefix (codes "::ffff:") t))
    else codes "unknown"
