-- ===== src/Config/Usable.antt =====
-- src/config.ts: what holds of all that `loadConfig` returns.
use ccu_mcp.Prelude.{
  String, Bool, true, false, not, sym, ◌≤◌, ◌≡◌, refl, Option, none, some, List, [], ◌∷◌, arith,
  eq_iff, is_some, ◌===◌, Bool-cases, inl, inr, Among, first, later,
}
use ccu_mcp.Config.{
  good, check, Environment, CcuConfig, CcuProfile, Loaded, trimmed_env, lowered, non_empty,
  required, require_password_env, read_ca_cert, default_port, parse_int_env, parse_bool_env, listed,
}
use ccu_mcp.Config.Loading.{
  find_named, match_default, default_name, named_profiles, chosen_profiles, check_tls,
  load_profiles, flat_profile, build_profiles, check_names, is_empty,
}
use ccu_mcp.Config.Settings.{IfGood, bind-IfGood, IfGood-good, parse_int_env-bounds}
use ccu_mcp.Config.Server.{
  default_of, same_bool, Numerals, AppConfig, transport_of, parse_duration_env, load_config,
}

checked : (c : Bool) (message : String) (u : Unit {0}) → check c message ≡ good u → c ≡ true
checked true message u h = refl
checked false message u h = ground (arith, h)

module _ (e : Environment) where
  default_of-find_named :
      (key : String) (ps : List CcuProfile) (p : CcuProfile)
      → find_named e key ps ≡ some p
      → is_some (default_of p.policy.name ps) ≡ true
  default_of-find_named key [] p h = ground (arith, h)
  default_of-find_named key (q ∷ ps) p h =
      ground (arith, h, default_of-find_named key ps p, eq_iff p.policy.name p.policy.name)

  default_of-match_default :
      (o : Option String) (ps : List CcuProfile) (p : CcuProfile)
      → match_default e o ps ≡ some p
      → is_some (default_of p.policy.name ps) ≡ true
  default_of-match_default none [] p h = ground (arith, h)
  default_of-match_default none (q ∷ ps) p h = ground (arith, h, eq_iff p.policy.name p.policy.name)
  default_of-match_default (some requested) ps p h =
      default_of-find_named (e.lower requested) ps p h

  abbrev HasDefault : Loaded → Type 0
  HasDefault l = is_some (default_of l.default_profile l.profiles) ≡ true

  default_name-match :
      (requested : Option String) (names : List String) (ps : List CcuProfile)
      (o : Option CcuProfile)
      → match_default e requested ps ≡ o
      → IfGood
          (λ (name : String). is_some (default_of name ps) ≡ true)
          (default_name e requested names o)
  default_name-match requested names ps none h = tt
  default_name-match requested names ps (some p) h = default_of-match_default requested ps p h

  named-HasDefault : (names : List String) → IfGood HasDefault (named_profiles e names)
  named-HasDefault names =
      let P = HasDefault in
      let requested = trimmed_env e "CCU_DEFAULT_PROFILE" in
      bind-IfGood P
        (check (not (is_empty e names)) "CCU_PROFILES is set but lists no profile names") _
        λ u c. bind-IfGood P (check_names e [] [] names) _ λ w h.
          bind-IfGood P (build_profiles e names) _ λ ps b.
            let found = default_name e requested names (match_default e requested ps) in
            bind-IfGood P found _ λ name d.
              IfGood-good (λ (n : String). is_some (default_of n ps) ≡ true) found name
                (default_name-match requested names ps (match_default e requested ps) refl) d

  flat-IsDefault : IfGood (λ (p : CcuProfile). p.policy.name ≡ "default") (flat_profile e)
  unfolding flat_profile
  flat-IsDefault =
      let P : CcuProfile → Type 0 = λ p. p.policy.name ≡ "default" in
      bind-IfGood P (check (not (is_some (trimmed_env e "CCU_DEFAULT_PROFILE"))) _) _ λ u c.
        bind-IfGood P (required e (non_empty (e.value "CCU_HOST")) _) _ λ host h.
          bind-IfGood P (require_password_env e "CCU_PASSWORD") _ λ password w.
            bind-IfGood P (parse_bool_env e "CCU_HTTPS") _ λ https s.
              bind-IfGood P (parse_int_env e "CCU_PORT" (default_port e https)) _ λ port n.
                bind-IfGood P (parse_bool_env e "CCU_TLS_VERIFY") _ λ verify v.
                  bind-IfGood P (read_ca_cert e "CCU_CA_CERT" (trimmed_env e "CCU_CA_CERT")) _
                    λ ca a. bind-IfGood P (parse_int_env e "CCU_TIMEOUT" "10000") _ λ timeout t.
                      bind-IfGood P (parse_int_env e "CCU_SCRIPT_TIMEOUT" "30000") _
                        λ script x. refl

  chosen-HasDefault : (o : Option String) → IfGood HasDefault (chosen_profiles e o)
  chosen-HasDefault none = bind-IfGood HasDefault (flat_profile e) _ λ p f.
      let name =
        IfGood-good (λ (p : CcuProfile). p.policy.name ≡ "default") (flat_profile e) p
          flat-IsDefault f in
      ground (arith, name, eq_iff p.policy.name "default")
  chosen-HasDefault (some text) = named-HasDefault (listed text)

  load_profiles-HasDefault : IfGood HasDefault (load_profiles e)
  unfolding load_profiles
  load_profiles-HasDefault =
      let o = trimmed_env e "CCU_PROFILES" in
      bind-IfGood HasDefault (chosen_profiles e o) _ λ l c.
        bind-IfGood HasDefault (check_tls e l.profiles) _
          λ u t. IfGood-good HasDefault (chosen_profiles e o) l (chosen-HasDefault o) c

-- A connection is that of a profile with the name, of a list.
abbrev pub Connects : List CcuProfile → String → Option CcuConfig → Type 0
Connects ps name o = (p : CcuProfile) × Among p ps × (p.policy.name ≡ name) × (o ≡ some p.ccu)

default_of-Connects :
    (name : String) (ps : List CcuProfile)
    → is_some (default_of name ps) ≡ true
    → Connects ps name (default_of name ps)
default_of-Connects name [] h = ground (arith, h)
default_of-Connects name (p ∷ ps) h = elim (Bool-cases (p.policy.name === name)) [
  | inl y ↦ (p, first, (eq_iff p.policy.name name).0 y, rw y refl)
  | inr n ↦
      let (q, among, named, found) = default_of-Connects name ps (rw n at h) in
      (q, later among, named, rw n found)
]

module _ (e : Environment) (j : Numerals) where
  abbrev Usable : AppConfig → Type 0
  Usable c =
      Connects c.profiles.profiles c.profiles.default_profile c.default_ccu
      × (is_some c.mcp.tls_cert_path ≡ is_some c.mcp.tls_key_path)
      × (1 ≤ c.burst)
      × (1 ≤ c.rate)
      × (1 ≤ c.resource_poll_interval)

  same_bool_lem : (a b : Bool) → same_bool a b ≡ true → a ≡ b
  same_bool_lem true b h = sym h
  same_bool_lem false b h = ground (arith, h)

  load_config-Usable : (args : List String) → IfGood Usable (load_config e j args)
  unfolding load_config
  load_config-Usable args =
      let P = Usable in
      let cert = is_some (trimmed_env e "MCP_TLS_CERT") in
      let key = is_some (trimmed_env e "MCP_TLS_KEY") in
      bind-IfGood P (transport_of e j (lowered e (e.value "MCP_TRANSPORT"))) _ λ transport t.
        bind-IfGood P (parse_int_env e "MCP_PORT" "3000") _ λ port n.
          bind-IfGood P (check (same_bool cert key) _) _ λ u both.
            bind-IfGood P (load_profiles e) _ λ l loaded.
              bind-IfGood P (parse_duration_env e j "MCP_AUTH_TOKEN_TTL_DAYS" 86400000) _ λ ttl d.
                bind-IfGood P (parse_duration_env e j "MCP_AUTH_TOKEN_GRACE_HOURS" 3600000) _
                  λ grace g. bind-IfGood P (parse_bool_env e "MCP_ALLOW_PLAINTEXT") _ λ plain pl.
                    bind-IfGood P (parse_int_env e "CACHE_TTL" "86400") _ λ cache_ttl ct.
                      bind-IfGood P (parse_int_env e "CCU_RATE_LIMIT_BURST" "20") _ λ burst b.
                        bind-IfGood P (parse_int_env e "CCU_RATE_LIMIT_RATE" "10") _ λ rate r.
                          bind-IfGood P (parse_int_env e "RESOURCE_POLL_INTERVAL" "60") _ λ poll p.
                            (
                              default_of-Connects l.default_profile l.profiles (
                                  IfGood-good (HasDefault e) (load_profiles e) l
                                    (load_profiles-HasDefault e) loaded),
                              same_bool_lem cert key (checked (same_bool cert key) _ u both),
                              (parse_int_env-bounds e "CCU_RATE_LIMIT_BURST" "20" burst b).0,
                              (parse_int_env-bounds e "CCU_RATE_LIMIT_RATE" "10" rate r).0,
                              (parse_int_env-bounds e "RESOURCE_POLL_INTERVAL" "60" poll p).0,
                            )

  -- A configuration that `loadConfig` returns has, as the connection of the default, that of the profile
  -- in its list that has the default's name; a certificate and a key for the server or neither; and a burst, a rate and an interval of polls of at least 1.
  pub load_config_usable :
      (args : List String) (c : AppConfig)
      → load_config e j args ≡ good c
      → Connects c.profiles.profiles c.profiles.default_profile c.default_ccu
        × (is_some c.mcp.tls_cert_path ≡ is_some c.mcp.tls_key_path)
        × (1 ≤ c.burst)
        × (1 ≤ c.rate)
        × (1 ≤ c.resource_poll_interval)
  load_config_usable args c h =
      IfGood-good Usable (load_config e j args) c (load_config-Usable args) h
