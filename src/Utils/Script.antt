-- ===== src/Utils/Script.antt =====
-- `escapeHmScript` of src/utils.ts: no input ends the string literal that it is put into.
use mathlib.Core.List.{append_assoc}
use ccu_mcp.Prelude.{
  ℕ, ◌≡◌, refl, Bool, false, not, ◌&&◌, Option, none, some, [], ◌∷◌, ◌++◌, ◌==◌, codes, arith,
  if◌then◌else◌,
}
use ccu_mcp.Utils.{Text, replace_all, escape_hm_script}

-- The character that an escape stands for.
abbrev pub decoded : ℕ → ℕ
decoded c = if c == b'n' then b'\n' else if c == b'r' then b'\r' else c

abbrev pub push : ℕ → Option (Text × Text) → Option (Text × Text)
push c none = none
push c (some (t, rest)) = some (c ∷ t, rest)

-- A reader of string literals with the escapes that the comment of `escapeHmScript` names: from behind
-- the opening quote, the text and what follows the closing quote; `escaped` is set behind a backslash.
unfoldable pub literal : (escaped : Bool) → Text → Option (Text × Text)
literal escaped [] = none
literal escaped (c ∷ t) =
    let rest = literal (not escaped && c == b'\\') t in
    if escaped
    then push (decoded c) rest
    else if c == b'\\'
    then rest
    else if c == b'"'
    then some ([], t)
    else push c rest

-- What each character becomes.
abbrev pub escaped_char : ℕ → Text
escaped_char c =
    if c == b'\\'
    then codes "\\\\"
    else if c == b'"'
    then codes "\\\""
    else if c == b'\n'
    then codes "\\n"
    else if c == b'\r'
    then codes "\\r"
    else c ∷ []

escape-cons : (c : ℕ) (t : Text) → escape_hm_script (c ∷ t) ≡ escaped_char c ++ escape_hm_script t
unfolding escape_hm_script replace_all
escape-cons c t = ground arith

literal-char :
    (c : ℕ) (t tail : Text) (rest : Text)
    → literal false t ≡ some (tail, rest)
    → literal false (escaped_char c ++ t) ≡ some (c ∷ tail, rest)
unfolding literal
literal-char c t tail rest h = ground arith

escape-nil : escape_hm_script [] ≡ []
unfolding escape_hm_script replace_all
escape-nil = refl

literal-quote : (rest : Text) → literal false (b'"' ∷ rest) ≡ some ([], rest)
unfolding literal
literal-quote rest = refl

-- A text, escaped and followed by a quote, is read back whole as a string literal: nothing of it is
-- read as code, and what follows the quote is left as it is.
pub literal-escape_hm_script :
    (t rest : Text) → literal false (escape_hm_script t ++ b'"' ∷ rest) ≡ some (t, rest)
literal-escape_hm_script [] rest = rw escape-nil (literal-quote rest)
literal-escape_hm_script (c ∷ t) rest = rw (escape-cons c t) (
    rw (append_assoc (escaped_char c) (escape_hm_script t) (b'"' ∷ rest))
      (literal-char c (escape_hm_script t ++ b'"' ∷ rest) t rest (literal-escape_hm_script t rest)))
