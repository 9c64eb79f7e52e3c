-- ===== src/Auth/File/Tests.antt =====
-- The token file of src/auth/token.ts on one concrete file of an operator.
use ccu_mcp.Prelude.{◌≡◌, refl, ℕ, Option, none, some, [], ◌∷◌, ◌++◌, codes, arith, All}
use ccu_mcp.Auth.Tokens.{Text}
use ccu_mcp.Auth.File.{
  PersistedToken, token_text, parse_persisted, lines, rows, trim, is_managed, foreign_lines,
  new_content, read, read_num, find_value,
}
use ccu_mcp.Prelude.Decimal.{read_digits}
use ccu_mcp.Auth.File.Lines.{OneLine}
use ccu_mcp.Auth.File.RoundTrip.{IsSound, parse_persisted-new_content}

abbrev sample : PersistedToken
sample = record {
  token = some (codes "Ab-9_z");
  issued = some 1700;
  previous = some (codes "old1");
  previous_expires = some 1800;
}

abbrev sample_file : Text
sample_file =
    codes "# mine" ++ 10 ∷ codes "CCU_HOST=x" ++ 13 ∷ 10 ∷ codes "MCP_AUTH_TOKEN=zz" ++ 10 ∷ []

abbrev pub no_number : Text → Option ℕ
no_number t = none

sample-IsSound : IsSound sample
sample-IsSound = record {
  has_token = ground arith;
  token_value = (ground arith, ground arith);
  previous_value = (ground arith, ground arith);
  complete = tt;
}

sample_foreign : foreign_lines (some sample_file) ≡ codes "# mine" ∷ codes "CCU_HOST=x" ∷ []
unfolding foreign_lines rows trim is_managed
sample_foreign = refl

sample-OneLine : All OneLine (foreign_lines (some sample_file))
sample-OneLine = rw sample_foreign (ground arith)

parse_persisted-new_content_example :
    parse_persisted no_number (new_content sample (some sample_file)) ≡ sample
parse_persisted-new_content_example =
    parse_persisted-new_content no_number sample (some sample_file) sample-IsSound sample-OneLine

-- A file with CRLF line ends is read, and the first line of a key counts.
crlf :
    parse_persisted no_number (codes "MCP_AUTH_TOKEN=abc" ++ 13 ∷ 10 ∷ codes "MCP_AUTH_TOKEN=def")
    ≡ record { token = some (codes "abc"); issued = none; previous = none; previous_expires = none }
unfolding parse_persisted read read_num lines trim find_value
crlf = refl

-- A file with a token, issued at 1000, and a line of the operator.
abbrev pub token_file : Option Text
token_file =
    some (codes "MCP_AUTH_TOKEN=ab" ++ 10 ∷ codes "MCP_AUTH_TOKEN_ISSUED=1000" ++ 10 ∷ codes "X=1")

abbrev pub token_state : PersistedToken
token_state = record {
  token = some (codes "ab");
  issued = some 1000;
  previous = none;
  previous_expires = none;
}

pub token_file_lem : parse_persisted no_number (token_text token_file) ≡ token_state
unfolding parse_persisted read read_num find_value lines trim read_digits
token_file_lem = refl

pub operator_line : foreign_lines token_file ≡ codes "X=1" ∷ []
unfolding foreign_lines rows trim is_managed
operator_line = refl
