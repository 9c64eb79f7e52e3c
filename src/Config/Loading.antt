-- ===== src/Config/Loading.antt =====
-- src/config.ts: the profiles of the CCUs, and the checks of them.
use ccu_mcp.Prelude.{
  String, Bool, true, false, not, ◌||◌, Option, none, some, List, [], ◌∷◌, ◌===◌, ◌<>◌, is_some,
  comma_list, if◌then◌else◌,
}
use ccu_mcp.Prelude.Dict.{Dict, get, set, member, insert}
use ccu_mcp.Config.{
  Setting, good, bad, ◌>>=◌, check, Environment, CcuConfig, CcuProfile, Loaded, non_empty, or_text,
  listed, env_prefix, parse_int_env, parse_bool_env, require_password_env, trimmed_env,
  read_ca_cert, required, default_port,
}

module _ (e : Environment) where
  -- `buildProfile`
  unfoldable pub build_profile : String → Setting CcuProfile
  build_profile name =
      let p = env_prefix e name in
      required e (trimmed_env e ("CCU_" <> p <> "_HOST"))
        ("profile \"" <> name <> "\" is missing CCU_" <> p <> "_HOST")
      >>= λ host. parse_bool_env e ("CCU_" <> p <> "_HTTPS") >>= λ https.
          parse_bool_env e ("CCU_" <> p <> "_PROTECTED") >>= λ protected.
          parse_bool_env e ("CCU_" <> p <> "_READONLY") >>= λ readonly.
          parse_int_env e ("CCU_" <> p <> "_PORT") (default_port e https) >>= λ port.
          parse_bool_env e ("CCU_" <> p <> "_TLS_VERIFY") >>= λ verify.
          read_ca_cert e ("CCU_" <> p <> "_CA_CERT") (trimmed_env e ("CCU_" <> p <> "_CA_CERT"))
          >>= λ ca_cert. parse_int_env e ("CCU_" <> p <> "_TIMEOUT") "10000" >>= λ timeout.
              parse_int_env e ("CCU_" <> p <> "_SCRIPT_TIMEOUT") "30000" >>= λ script_timeout.
              good (record {
                policy = record { name = name; protected = protected; readonly = readonly };
                is_flat = false;
                ccu = record {
                  host = host;
                  port = port;
                  https = https;
                  tls_verify = verify;
                  tls_fingerprint = trimmed_env e ("CCU_" <> p <> "_TLS_FINGERPRINT");
                  ca_cert = ca_cert;
                  user = or_text (trimmed_env e ("CCU_" <> p <> "_USER")) "Admin";
                  password = or_text (e.value ("CCU_" <> p <> "_PASSWORD")) "";
                  timeout = timeout;
                  script_timeout = script_timeout;
                };
              })

  -- The profile of the flat variables.
  unfoldable pub flat_profile : Setting CcuProfile
  flat_profile =
      check (not (is_some (trimmed_env e "CCU_DEFAULT_PROFILE")))
        "CCU_DEFAULT_PROFILE is set but CCU_PROFILES is not — either define CCU_PROFILES or remove CCU_DEFAULT_PROFILE"
      >>= λ u.
          required e (non_empty (e.value "CCU_HOST")) "CCU_HOST environment variable is required"
          >>= λ host. require_password_env e "CCU_PASSWORD" >>= λ password.
              parse_bool_env e "CCU_HTTPS" >>= λ https.
              parse_int_env e "CCU_PORT" (default_port e https) >>= λ port.
              parse_bool_env e "CCU_TLS_VERIFY" >>= λ verify.
              read_ca_cert e "CCU_CA_CERT" (trimmed_env e "CCU_CA_CERT") >>= λ ca_cert.
              parse_int_env e "CCU_TIMEOUT" "10000" >>= λ timeout.
              parse_int_env e "CCU_SCRIPT_TIMEOUT" "30000" >>= λ script_timeout. good (record {
                policy = record { name = "default"; protected = false; readonly = false };
                is_flat = true;
                ccu = record {
                  host = host;
                  port = port;
                  https = https;
                  tls_verify = verify;
                  tls_fingerprint = trimmed_env e "CCU_TLS_FINGERPRINT";
                  ca_cert = ca_cert;
                  user = or_text (non_empty (e.value "CCU_USER")) "Admin";
                  password = password;
                  timeout = timeout;
                  script_timeout = script_timeout;
                };
              })

  abbrev pub clashing : String → String → Option String → Setting (Unit {0})
  clashing prefix n none = good tt
  clashing prefix n (some clash) = check (clash === "") (
      "CCU_PROFILES names \"" <> clash <> "\" and \"" <> n
      <> "\" both map to the same env prefix CCU_" <> prefix <> "_* — rename one")

  -- The loop over the names, with the keys and the prefixes that it has seen.
  unfoldable pub check_names : List String → Dict String → List String → Setting (Unit {0})
  check_names seen prefixes [] = good tt
  check_names seen prefixes (n ∷ ns) =
      check (not (member seen (e.lower n))) ("CCU_PROFILES lists \"" <> n <> "\" more than once")
      >>= λ u. clashing (env_prefix e n) n (get prefixes (env_prefix e n)) >>= λ w.
          check_names (insert seen (e.lower n)) (set prefixes (env_prefix e n) n) ns

  -- `names.map(buildProfile)`
  unfoldable pub build_profiles : List String → Setting (List CcuProfile)
  build_profiles [] = good []
  build_profiles (n ∷ ns) = build_profile n >>= λ p. build_profiles ns >>= λ ps. good (p ∷ ps)

  abbrev pub find_named : String → List CcuProfile → Option CcuProfile
  find_named key [] = none
  find_named key (p ∷ ps) = if e.lower p.policy.name === key then some p else find_named key ps

  abbrev pub first_profile : List CcuProfile → Option CcuProfile
  first_profile [] = none
  first_profile (p ∷ ps) = some p

  -- The profile that `CCU_DEFAULT_PROFILE` names, or else the first.
  abbrev pub match_default : Option String → List CcuProfile → Option CcuProfile
  match_default none ps = first_profile ps
  match_default (some requested) ps = find_named (e.lower requested) ps

  abbrev pub default_name : Option String → List String → Option CcuProfile → Setting String
  default_name requested names none = bad (
      "CCU_DEFAULT_PROFILE=\""
      <> or_text requested ""
      <> "\" is not one of CCU_PROFILES ("
      <> comma_list names
      <> ")")
  default_name requested names (some p) = good p.policy.name

  abbrev pub is_empty : List String → Bool
  is_empty [] = true
  is_empty (x ∷ xs) = false

  abbrev pub named_profiles : List String → Setting Loaded
  named_profiles names =
      check (not (is_empty names)) "CCU_PROFILES is set but lists no profile names" >>= λ u.
      check_names [] [] names >>= λ w. build_profiles names >>= λ ps.
      default_name (trimmed_env e "CCU_DEFAULT_PROFILE") names
        (match_default (trimmed_env e "CCU_DEFAULT_PROFILE") ps)
      >>= λ name. good (record { profiles = ps; default_profile = name })

  abbrev pub chosen_profiles : Option String → Setting Loaded
  chosen_profiles none =
      flat_profile >>= λ p. good (record { profiles = p ∷ []; default_profile = "default" })
  chosen_profiles (some text) = named_profiles (listed text)

  -- A setting that only HTTPS heeds.
  abbrev pub has_tls : CcuConfig → Bool
  has_tls c = is_some (non_empty c.tls_fingerprint) || is_some (non_empty c.ca_cert) || c.tls_verify

  abbrev https_variable : CcuProfile → String
  https_variable p =
      if p.is_flat then "CCU_HTTPS" else "CCU_" <> env_prefix e p.policy.name <> "_HTTPS"

  -- TLS settings on a plain HTTP target are refused.
  unfoldable pub check_tls : List CcuProfile → Setting (Unit {0})
  check_tls [] = good tt
  check_tls (p ∷ ps) =
      check (p.ccu.https || not (has_tls p.ccu)) (
        "CCU profile \""
        <> p.policy.name
        <> "\": TLS_FINGERPRINT/CA_CERT/TLS_VERIFY is set but HTTPS is disabled — these settings only apply over HTTPS. Set "
        <> https_variable p
        <> "=true or remove them.")
      >>= λ u. check_tls ps

  -- What `loadConfig` does about profiles.
  unfoldable pub load_profiles : Setting Loaded
  load_profiles =
      chosen_profiles (trimmed_env e "CCU_PROFILES") >>= λ l. check_tls l.profiles >>= λ u. good l
