-- ===== src/Cli/EnvFile.antt =====
-- src/cli/env-writer.ts: the env file that the setup writes. `envPrefix` is a parameter, on texts here.
mod Merged
mod Replaced
mod Tests
use mathlib.Core.List.{reverse}
use ccu_mcp.Prelude.{
  ℕ, String, Bool, true, false, not, ◌&&◌, ◌||◌, Option, none, some, List, [], ◌∷◌, ◌++◌, ◌==◌, leb,
  map, any, all, filter, codes, text_eq, after_prefix, is_some, if◌then◌else◌,
}
use ccu_mcp.Prelude.Decimal.{show}
use ccu_mcp.Auth.File.{is_space, trim, rows, unlines}
use ccu_mcp.Config.{Setting, good, bad, ◌>>=◌}

abbrev pub Text : Type 0
Text = List ℕ

-- `WizardProfile`
pub record WizardProfile : Type 0 where
  pub name : Text
  pub host : Text
  pub port : ℕ
  pub https : Bool
  pub tls_fingerprint : Option Text
  pub user : Text
  pub password : Option Text
  pub protected : Bool
  pub readonly : Bool

-- `MANAGED_SUFFIXES`
abbrev pub managed_suffixes : List Text
managed_suffixes = map codes (
    "HOST" ∷ "PORT" ∷ "HTTPS" ∷ "USER" ∷ "PASSWORD" ∷ "TLS_FINGERPRINT" ∷ "TLS_VERIFY" ∷ "CA_CERT"
    ∷ "PROTECTED" ∷ "READONLY" ∷ [])

-- `[A-Z0-9_]`
abbrev pub is_key_char : ℕ → Bool
is_key_char c = leb b'A' c && leb c b'Z' || leb b'0' c && leb c b'9' || c == b'_'

abbrev pub is_key_part : Option Text → Bool
is_key_part none = false
is_key_part (some []) = false
is_key_part (some (c ∷ t)) = all is_key_char (c ∷ t)

-- `[A-Z0-9_]+_` in front of the suffix
abbrev pub has_suffix : Text → Text → Bool
has_suffix key s = is_key_part (after_prefix (reverse (codes "_" ++ s)) (reverse key))

abbrev pub managed_key : Text → Bool
managed_key key =
    text_eq (codes "PROFILES") key
    || text_eq (codes "DEFAULT_PROFILE") key
    || any (λ s. text_eq s key || has_suffix key s) managed_suffixes

-- What stands before the first `=`.
abbrev pub before_equals : Text → Option Text
before_equals [] = none
before_equals (c ∷ t) =
    let rest = before_equals t in
    if c == b'=' then some [] else elim rest [ none ↦ none | some r ↦ some (c ∷ r) ]

abbrev pub is_managed_key : Option Text → Bool
is_managed_key none = false
is_managed_key (some key) = managed_key key

abbrev pub managed_rest : Option Text → Bool
managed_rest none = false
managed_rest (some rest) = is_managed_key (before_equals rest)

-- `MANAGED_KEY_RE.test(line)`
unfoldable pub is_managed : Text → Bool
is_managed line = managed_rest (after_prefix (codes "CCU_") line)

-- `/[\s#"'`]/`
abbrev pub is_special : ℕ → Bool
is_special c = is_space c || c == b'#' || c == b'"' || c == 39 || c == 96

abbrev pub quoted_with : ℕ → Text → Text
quoted_with q value = q ∷ value ++ q ∷ []

abbrev pub occurs : ℕ → Text → Bool
occurs q value = any (λ c. c == q) value

-- The loop over the quote characters.
abbrev pub quote_with : List ℕ → Text → Setting Text
quote_with [] value =
    bad
      "value contains all three quote characters (\", ' and `) and cannot be stored in a dotenv file"
quote_with (q ∷ qs) value =
    if not (occurs q value) then good (quoted_with q value) else quote_with qs value

abbrev pub is_plain : Text → Bool
is_plain [] = false
is_plain (c ∷ t) = not (any is_special (c ∷ t))

-- `quoteEnvValue`
unfoldable pub quote_env_value : Text → Setting Text
quote_env_value value =
    if is_plain value then good value else quote_with (b'"' ∷ 39 ∷ 96 ∷ []) value

abbrev pub setting : Text → String → Text → Text
setting prefix name value = codes "CCU_" ++ (prefix ++ (codes name ++ value))

abbrev pub show_flag : Bool → Text
show_flag b = if b then codes "true" else codes "false"

abbrev pub quoted_password : Text → Option Text → Setting (List Text)
quoted_password prefix none = good []
quoted_password prefix (some p) =
    quote_env_value p >>= λ q. good (setting prefix "PASSWORD=" q ∷ [])

abbrev pub fingerprint_lines : Text → Option Text → List Text
fingerprint_lines prefix none = []
fingerprint_lines prefix (some []) = []
fingerprint_lines prefix (some (c ∷ t)) = setting prefix "TLS_FINGERPRINT=" (c ∷ t) ∷ []

abbrev pub flag_lines : Text → String → Bool → List Text
flag_lines prefix name b = if b then setting prefix name (codes "true") ∷ [] else []

-- `emit`
unfoldable pub emit : Text → WizardProfile → Setting (List Text)
emit prefix p = quote_env_value p.host >>= λ host. quote_env_value p.user >>= λ user.
    quoted_password prefix p.password >>= λ password. good (
      setting prefix "HOST=" host
      ∷ setting prefix "PORT=" (show p.port)
      ∷ setting prefix "HTTPS=" (show_flag p.https)
      ∷ setting prefix "USER=" user
      ∷ (password
          ++ (fingerprint_lines prefix p.tls_fingerprint
              ++ (flag_lines prefix "PROTECTED=" p.protected
                  ++ flag_lines prefix "READONLY=" p.readonly))))

abbrev pub join_with : Text → List Text → Text
join_with sep [] = []
join_with sep (l ∷ []) = l
join_with sep (l ∷ ls) = l ++ (sep ++ join_with sep ls)

abbrev pub written_by : Text
written_by =
    codes "# Written by ccu-mcp setup — https://github.com/claymore666/ccu-mcp#configuration"

module _ (env_prefix : Text → Text) where
  unfoldable pub emit_targets : List WizardProfile → Setting (List Text)
  emit_targets [] = good []
  emit_targets (p ∷ ps) = emit (env_prefix p.name ++ codes "_") p >>= λ lines.
      emit_targets ps >>= λ rest.
      good ([] ∷ (codes "# --- target: " ++ (p.name ++ codes " ---")) ∷ (lines ++ rest))

  abbrev pub in_profiles : List WizardProfile → Text → Setting (List Text)
  in_profiles ps default_profile = emit_targets ps >>= λ lines. good (
      (codes "CCU_PROFILES=" ++ join_with (codes ",") (map (λ (p : WizardProfile). p.name) ps))
      ∷ (codes "CCU_DEFAULT_PROFILE=" ++ default_profile)
      ∷ lines)

  abbrev pub env_lines : List WizardProfile → Text → Bool → Setting (List Text)
  env_lines (p ∷ []) default_profile false = emit [] p
  env_lines ps default_profile force = in_profiles ps default_profile

  -- `buildEnvContent`
  unfoldable pub build_env_content : List WizardProfile → Text → Bool → Setting Text
  build_env_content ps default_profile force =
      env_lines ps default_profile force >>= λ lines. good (unlines (written_by ∷ lines))

-- A line that the operator keeps.
abbrev pub is_foreign : Text → Bool
is_foreign line = not (is_managed line) && not (text_eq [] (trim line))

abbrev pub key_of : Text → Text
key_of line = elim (before_equals line) [ none ↦ [] | some k ↦ k ]

abbrev pub foreign_part : List Text → Text
foreign_part [] = []
foreign_part (l ∷ ls) = 10 ∷ unlines (l ∷ ls)

-- `mergeEnvContent`: the new content, and the keys that were replaced.
unfoldable pub merge_env_content : (existing managed : Text) → Text × List Text
merge_env_content existing managed = (
  managed ++ foreign_part (filter is_foreign (rows existing)),
  map key_of (filter is_managed (rows existing)),
)

-- The first line that sets the key, replaced.
abbrev pub replace_first : Text → Text → List Text → List Text
replace_first prefix line [] = []
replace_first prefix line (l ∷ ls) =
    let rest = replace_first prefix line ls in
    if is_some (after_prefix prefix l) then line ∷ ls else l ∷ rest

abbrev pub no_lines : List Text → Bool
no_lines [] = true
no_lines (l ∷ ls) = false

abbrev pub pop_empty : List Text → List Text
pop_empty [] = []
pop_empty (l ∷ ls) =
    let rest = pop_empty ls in if no_lines rest && text_eq [] l then [] else l ∷ rest

abbrev pub sets_key : Text → List Text → Bool
sets_key prefix ls = any (λ l. is_some (after_prefix prefix l)) ls

unfoldable pub replaced_lines : (prefix line : Text) → List Text → List Text
replaced_lines prefix line ls =
    if sets_key prefix ls then replace_first prefix line ls else pop_empty ls ++ line ∷ [] ∷ []

-- `replaceEnvKey`
unfoldable pub replace_env_key : (content key value : Text) → Text
replace_env_key content key value =
    join_with (10 ∷ [])
      (replaced_lines (key ++ codes "=") (key ++ (codes "=" ++ value)) (rows content))
