-- ===== src/Config.antt =====
-- src/config.ts: how single settings in the environment are read. The environment is
-- a function; `toUpperCase`, `toLowerCase` and the files of certificates are parameters.
mod Loading
mod Server
mod Usable
mod Settings
mod Profiles
mod Tests
use Prim.Native.Char.{code}
use Prim.Native.String
use ccu_mcp.Prelude.{
  ℕ, String, Bool, true, false, not, ◌&&◌, ◌||◌, Option, none, some, List, [], ◌∷◌, ◌==◌, ◌===◌,
  ◌<>◌, leb, codes, map, filter, is_some, if◌then◌else◌,
}
use ccu_mcp.Prelude.Decimal.{read_digits}
use ccu_mcp.Prelude.Dict.{Dict, get, set, member, insert}
use ccu_mcp.Ccu.Targets.{Profile}
use ccu_mcp.Tools.Values.{trim_text}

-- A value, or the message of the error that is thrown.
pub data Setting {ℓ} (A : Type ℓ) : Type ℓ where
  good : A → Setting A
  bad : String → Setting A

infixl 10 ◌>>=◌
abbrev pub ◌>>=◌ {ℓ κ} : {A : Type ℓ} {B : Type κ} → Setting A → (A → Setting B) → Setting B
good a >>= f = f a
bad message >>= f = bad message

abbrev pub check : Bool → String → Setting (Unit {0})
check true message = good tt
check false message = bad message

pub record Environment : Type 0 where
  pub value : String → Option String
  pub upper : String → String
  pub lower : String → String
  pub read_file : String → Setting String

pub record CcuConfig : Type 0 where
  pub host : String
  pub port : ℕ
  pub https : Bool
  pub tls_verify : Bool
  pub tls_fingerprint : Option String
  pub ca_cert : Option String
  pub user : String
  pub password : String
  pub timeout : ℕ
  pub script_timeout : ℕ

-- `CcuProfile`; what the targets need of it is `policy`.
pub record CcuProfile : Type 0 where
  pub policy : Profile
  pub is_flat : Bool
  pub ccu : CcuConfig

-- The profiles, and the name of the default one.
pub record Loaded : Type 0 where
  pub profiles : List CcuProfile
  pub default_profile : String

-- `Number.MAX_SAFE_INTEGER`
abbrev pub max_safe_integer : ℕ
max_safe_integer = 9007199254740991

-- `value || undefined`
abbrev pub non_empty : Option String → Option String
non_empty none = none
non_empty (some s) = if s === "" then none else some s

abbrev pub trimmed_value : Option String → Option String
trimmed_value none = none
trimmed_value (some s) = some (trim_text s)

abbrev pub or_text : Option String → String → String
or_text none fallback = fallback
or_text (some s) fallback = s

abbrev pub is_safe_positive : ℕ → Bool
is_safe_positive n = leb 1 n && leb n max_safe_integer

abbrev pub positive : String → Option String → Option ℕ → Setting ℕ
positive name raw none =
    bad (name <> " must be a positive integer, got: \"" <> or_text raw "undefined" <> "\"")
positive name raw (some n) =
    if is_safe_positive n
    then good n
    else bad (name <> " must be a positive integer, got: \"" <> or_text raw "undefined" <> "\"")

-- Unset and empty mean the default, white space does not.
abbrev pub int_source : Option String → String → String
int_source none fallback = fallback
int_source (some s) fallback = if s === "" then fallback else trim_text s

abbrev pub is_prefix_char : ℕ → Bool
is_prefix_char c = leb b'A' c && leb c b'Z' || leb b'0' c && leb c b'9'

-- Each UTF-16 unit that is not `[A-Z0-9]` becomes an underscore.
abbrev underscored : String → String
underscored String.[] = String.[]
underscored (String.◌∷◌ c s) =
    let rest = underscored s in
    if is_prefix_char (code c)
    then String.◌∷◌ c rest
    else if leb 65536 (code c)
    then "__" <> rest
    else "_" <> rest

abbrev first_char : String → List String → List String
first_char c [] = c ∷ []
first_char c (x ∷ xs) = (c <> x) ∷ xs

-- `text.split(",")`
abbrev split_commas : String → List String
split_commas String.[] = "" ∷ []
split_commas (String.◌∷◌ c s) =
    let rest = split_commas s in
    if code c == b',' then "" ∷ rest else first_char (String.◌∷◌ c String.[]) rest

-- `.map((s) => s.trim()).filter(Boolean)`
abbrev pub listed : String → List String
listed s = filter (λ x. not (x === "")) (map trim_text (split_commas s))

module _ (e : Environment) where
  -- `envPrefix`
  unfoldable pub env_prefix : String → String
  env_prefix name = underscored (e.upper name)

  -- `parseIntEnv`
  unfoldable pub parse_int_env : (name fallback : String) → Setting ℕ
  parse_int_env name fallback =
      positive name (e.value name) (read_digits (codes (int_source (e.value name) fallback)))

  abbrev pub lowered : Option String → Option String
  lowered none = none
  lowered (some s) = some (e.lower (trim_text s))

  abbrev pub truth : String → Option String → Setting Bool
  truth name none = good false
  truth name (some raw) =
      if raw === ""
      then good false
      else if raw === "true"
      then good true
      else if raw === "false"
      then good false
      else bad
          (name <> " must be \"true\" or \"false\", got: \"" <> or_text (e.value name) "" <> "\"")

  -- `parseBoolEnv`
  unfoldable pub parse_bool_env : String → Setting Bool
  parse_bool_env name = truth name (lowered (e.value name))

  -- `requirePasswordEnv`
  abbrev pub require_password_env : String → Setting String
  require_password_env name = elim (e.value name) [
    | some s ↦ good s
    | none ↦ bad (
        name
        <> " environment variable is required — run `ccu-mcp secret` to store one (an empty password is allowed)")
  ]

  abbrev pub trimmed_env : String → Option String
  trimmed_env name = non_empty (trimmed_value (e.value name))

  -- `readCaCert`
  abbrev pub read_ca_cert : String → Option String → Setting (Option String)
  read_ca_cert name none = good none
  read_ca_cert name (some path) = elim (e.read_file path) [
    | good pem ↦ good (some pem)
    | bad message ↦ bad (name <> " could not be read: " <> message)
  ]

  abbrev pub required : Option String → String → Setting String
  required none message = bad message
  required (some s) message = good s

  abbrev pub default_port : Bool → String
  default_port https = if https then "443" else "80"
