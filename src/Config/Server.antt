-- ===== src/Config/Server.antt =====
-- src/config.ts: the settings of the server itself, and all that `loadConfig` returns.
use ccu_mcp.Prelude.{
  ℕ, ◌*◌, String, Bool, true, false, not, Option, none, some, List, [], ◌∷◌, map, filter, ◌===◌,
  ◌<>◌, any, is_some, if◌then◌else◌,
}
use ccu_mcp.Config.{
  Setting, good, bad, ◌>>=◌, check, Environment, CcuConfig, CcuProfile, Loaded, or_text, listed,
  env_prefix, parse_int_env, parse_bool_env, trimmed_env, lowered, non_empty,
}
use ccu_mcp.Config.Loading.{load_profiles}

pub data Transport : Type 0 where
  http : Transport
  stdio : Transport

-- JavaScript's numbers: `${n}`, and `Math.round(Number(raw) * unit)` if `Number(raw)` is finite and positive.
pub record Numerals : Type 0 where
  pub shown : ℕ → String
  pub duration : String → ℕ → Option ℕ

pub record McpConfig : Type 0 where
  pub transport : Transport
  pub port : ℕ
  pub auth_token : Option String
  pub auth_token_previous : Option String
  pub auth_token_ttl_ms : Option ℕ
  pub auth_token_grace_ms : ℕ
  pub allowed_origins : List String
  pub allowed_hosts : List String
  pub host : Option String
  pub tls_cert_path : Option String
  pub tls_key_path : Option String
  pub allow_plaintext : Bool

-- `ccu`, the alias of the default profile's connection, is `default_ccu`.
pub record AppConfig : Type 0 where
  pub profiles : Loaded
  pub default_ccu : Option CcuConfig
  pub mcp : McpConfig
  pub cache_dir : String
  pub cache_ttl : ℕ
  pub burst : ℕ
  pub rate : ℕ
  pub resource_poll_interval : ℕ

abbrev contains : String → List String → Bool
contains x xs = any (λ y. y === x) xs

-- The flags of the command line override the variable, `--http` the other one.
abbrev pub flagged : List String → Transport → Transport
flagged args t =
    if contains "--http" args then http else if contains "--stdio" args then stdio else t

abbrev pub same_bool : Bool → Bool → Bool
same_bool true b = b
same_bool false b = not b

-- `profiles.find((p) => p.name === defaultProfile)`
abbrev pub default_of : String → List CcuProfile → Option CcuConfig
default_of name [] = none
default_of name (p ∷ ps) = if p.policy.name === name then some p.ccu else default_of name ps

module _ (e : Environment) (j : Numerals) where
  abbrev pub transport_of : Option String → Setting Transport
  transport_of none = good http
  transport_of (some raw) =
      if raw === ""
      then good http
      else if raw === "http"
      then good http
      else if raw === "stdio"
      then good stdio
      else bad (
          "MCP_TRANSPORT must be \"http\" or \"stdio\", got: \""
          <> or_text (e.value "MCP_TRANSPORT") ""
          <> "\"")

  abbrev pub bounded : String → Option ℕ → Setting (Option ℕ)
  bounded name none =
      bad (name <> " must be a positive number, got: \"" <> or_text (e.value name) "" <> "\"")
  bounded name (some ms) = good (some ms)

  abbrev duration_of : String → ℕ → Option String → Setting (Option ℕ)
  duration_of name unit_ms none = good none
  duration_of name unit_ms (some raw) = bounded name (j.duration raw unit_ms)

  -- `parseDurationEnv`
  unfoldable pub parse_duration_env : String → ℕ → Setting (Option ℕ)
  parse_duration_env name unit_ms = duration_of name unit_ms (trimmed_env e name)

  abbrev or_ms : Option ℕ → ℕ → ℕ
  or_ms none fallback = fallback
  or_ms (some ms) fallback = ms

  unfoldable pub allowed_hosts_of : ℕ → List String
  allowed_hosts_of port =
      ("127.0.0.1:" <> j.shown port)
      ∷ ("localhost:" <> j.shown port)
      ∷ ("[::1]:" <> j.shown port)
      ∷ listed (or_text (e.value "MCP_ALLOWED_HOSTS") "")

  -- `loadConfig` with the arguments of the command line.
  unfoldable pub load_config : List String → Setting AppConfig
  load_config args = transport_of (lowered e (e.value "MCP_TRANSPORT")) >>= λ transport.
      parse_int_env e "MCP_PORT" "3000" >>= λ port.
      check
        (same_bool (is_some (trimmed_env e "MCP_TLS_CERT")) (is_some (trimmed_env e "MCP_TLS_KEY")))
        "MCP_TLS_CERT and MCP_TLS_KEY must both be set (or both unset)"
      >>= λ u. load_profiles e >>= λ loaded.
          parse_duration_env "MCP_AUTH_TOKEN_TTL_DAYS" 86400000 >>= λ ttl.
          parse_duration_env "MCP_AUTH_TOKEN_GRACE_HOURS" 3600000 >>= λ grace.
          parse_bool_env e "MCP_ALLOW_PLAINTEXT" >>= λ plaintext.
          parse_int_env e "CACHE_TTL" "86400" >>= λ cache_ttl.
          parse_int_env e "CCU_RATE_LIMIT_BURST" "20" >>= λ burst.
          parse_int_env e "CCU_RATE_LIMIT_RATE" "10" >>= λ rate.
          parse_int_env e "RESOURCE_POLL_INTERVAL" "60" >>= λ interval. good (record {
            profiles = loaded;
            default_ccu = default_of loaded.default_profile loaded.profiles;
            mcp = record {
              transport = flagged args transport;
              port = port;
              auth_token = trimmed_env e "MCP_AUTH_TOKEN";
              auth_token_previous = trimmed_env e "MCP_AUTH_TOKEN_PREVIOUS";
              auth_token_ttl_ms = ttl;
              auth_token_grace_ms = or_ms grace (24 * 3600000);
              allowed_origins = listed (or_text (e.value "MCP_ALLOWED_ORIGINS") "");
              allowed_hosts = allowed_hosts_of port;
              host = trimmed_env e "MCP_HOST";
              tls_cert_path = trimmed_env e "MCP_TLS_CERT";
              tls_key_path = trimmed_env e "MCP_TLS_KEY";
              allow_plaintext = plaintext;
            };
            cache_dir = or_text (non_empty (e.value "CACHE_DIR")) "/data";
            cache_ttl = cache_ttl;
            burst = burst;
            rate = rate;
            resource_poll_interval = interval;
          })

  -- `targetsAwaitingPassword`
  unfoldable pub targets_awaiting_password : AppConfig → List String
  targets_awaiting_password c =
      if not (is_some (trimmed_env e "CCU_PROFILES"))
      then []
      else map (λ (p : CcuProfile). p.policy.name)
          (filter
            (λ p. not (is_some (e.value ("CCU_" <> env_prefix e p.policy.name <> "_PASSWORD"))))
            c.profiles.profiles)
