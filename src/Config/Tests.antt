-- ===== src/Config/Tests.antt =====
-- src/config.ts at an environment with a production and a development CCU.
use ccu_mcp.Prelude.{
  ℕ, ◌≤◌, String, Bool, true, false, not, ◌||◌, ◌≡◌, refl, none, some, is_some, ◌==◌, if◌then◌else◌,
  [], ◌∷◌, All, map, codes,
}
use ccu_mcp.Prelude.Dict.{Dict, get, set, member, insert}
use ccu_mcp.Prelude.Decimal.{read_digits, read_from}
use ccu_mcp.Ccu.Targets.{Naming}
use ccu_mcp.Ccu.Targets.Selecting.{HasDistinctKeys}
use ccu_mcp.Config.{
  good, bad, Environment, CcuProfile, Loaded, parse_int_env, parse_bool_env, env_prefix,
}
use ccu_mcp.Config.Loading.{
  build_profile, build_profiles, check_names, check_tls, has_tls, load_profiles, flat_profile,
}
use ccu_mcp.Config.Settings.{says_no, variable, build_profile-policy}
use ccu_mcp.Config.Server.{
  stdio, Numerals, AppConfig, load_config, targets_awaiting_password, allowed_hosts_of,
  parse_duration_env,
}
use ccu_mcp.Config.Usable.{Connects, load_config_usable}
use ccu_mcp.Config.Profiles.{load_profiles_sound}

abbrev settings : Dict String
settings =
    ("CCU_PROFILES", "PROD, DEV")
    ∷ ("CCU_PROD_HOST", "ccu")
    ∷ ("CCU_PROD_PROTECTED", "true ")
    ∷ ("CCU_DEV_HOST", "test")
    ∷ ("CCU_DEV_PORT", " 8080")
    ∷ ("CCU_DEV_TIMEOUT", "")
    ∷ []

abbrev env : Environment
env = record {
  value = get settings;
  upper = λ s. s;
  lower = λ s. s;
  read_file = λ s. bad "no such file";
}

abbrev naming : Naming
naming = record { lower = λ s. s; lower_idem = λ s. refl; digest = λ s. codes "00000001" }

abbrev profile : (name host : String) (protected : Bool) (port : ℕ) → CcuProfile
profile name host protected port = record {
  policy = record { name = name; protected = protected; readonly = false };
  is_flat = false;
  ccu = record {
    host = host;
    port = port;
    https = false;
    tls_verify = false;
    tls_fingerprint = none;
    ca_cert = none;
    user = "Admin";
    password = "";
    timeout = 10000;
    script_timeout = 30000;
  };
}

abbrev loaded : Loaded
loaded = record {
  profiles = profile "PROD" "ccu" true 80 ∷ profile "DEV" "test" false 8080 ∷ [];
  default_profile = "PROD";
}

reads :
    (load_profiles env ≡ good loaded)
    × (build_profile env "PROD" ≡ good (profile "PROD" "ccu" true 80))
    × (parse_int_env env "CCU_DEV_PORT" "80" ≡ good 8080)
    × (parse_int_env env "CCU_DEV_TIMEOUT" "10000" ≡ good 10000)
unfolding load_profiles build_profile build_profiles check_names check_tls flat_profile env_prefix
    parse_int_env parse_bool_env read_digits read_from get set member insert
reads = (refl, refl, refl, refl)

build_profile-policy_example :
    ((profile "PROD" "ccu" true 80).policy.name ≡ "PROD")
    × (true ≡ not (says_no env (env.value (variable env "PROD" "_PROTECTED"))))
    × (false ≡ not (says_no env (env.value (variable env "PROD" "_READONLY"))))
build_profile-policy_example =
    build_profile-policy env "PROD" (profile "PROD" "ccu" true 80) reads.1

load_profiles_sound_example :
    HasDistinctKeys naming (map (λ (p : CcuProfile). p.policy) loaded.profiles)
    × All (λ (p : CcuProfile). (p.ccu.https || not (has_tls env p.ccu)) ≡ true) loaded.profiles
load_profiles_sound_example = load_profiles_sound env naming loaded refl reads.0

abbrev numerals : Numerals
numerals = record { shown = λ n. if n == 3000 then "3000" else "?"; duration = λ s unit_ms. none }

abbrev configured : AppConfig
configured = record {
  profiles = loaded;
  default_ccu = some (profile "PROD" "ccu" true 80).ccu;
  mcp = record {
    transport = stdio;
    port = 3000;
    auth_token = none;
    auth_token_previous = none;
    auth_token_ttl_ms = none;
    auth_token_grace_ms = 86400000;
    allowed_origins = [];
    allowed_hosts = "127.0.0.1:3000" ∷ "localhost:3000" ∷ "[::1]:3000" ∷ [];
    host = none;
    tls_cert_path = none;
    tls_key_path = none;
    allow_plaintext = false;
  };
  cache_dir = "/data";
  cache_ttl = 86400;
  burst = 20;
  rate = 10;
  resource_poll_interval = 60;
}

starts :
    (load_config env numerals ("--stdio" ∷ []) ≡ good configured)
    × (targets_awaiting_password env numerals configured ≡ "PROD" ∷ "DEV" ∷ [])
unfolding load_config targets_awaiting_password allowed_hosts_of parse_duration_env load_profiles
    build_profile build_profiles check_names check_tls flat_profile env_prefix parse_int_env
    parse_bool_env read_digits read_from get set member insert
starts = (refl, refl)

load_config_usable_example :
    Connects configured.profiles.profiles configured.profiles.default_profile configured.default_ccu
    × (is_some configured.mcp.tls_cert_path ≡ is_some configured.mcp.tls_key_path)
    × (1 ≤ 20)
    × (1 ≤ 10)
    × (1 ≤ 60)
load_config_usable_example = load_config_usable env numerals ("--stdio" ∷ []) configured starts.0
