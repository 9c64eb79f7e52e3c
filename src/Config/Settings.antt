-- ===== src/Config/Settings.antt =====
-- src/config.ts: what holds of single settings that are accepted, and of the policy of a profile.
use mathlib.Core.Path.{subst}
use ccu_mcp.Tools.Values.{trim_text}
use ccu_mcp.Prelude.{
  ◌<>◌, ℕ, ◌≤◌, String, Bool, true, false, not, ◌||◌, ◌≡◌, refl, Option, none, some, ◌===◌, arith,
  codes, eq_iff,
}
use ccu_mcp.Prelude.Decimal.{read_digits}
use ccu_mcp.Config.{
  Setting, good, bad, ◌>>=◌, check, Environment, CcuProfile, positive, parse_int_env,
  parse_bool_env, truth, env_prefix, int_source, max_safe_integer, trimmed_env, lowered, required,
  default_port, read_ca_cert,
}
use ccu_mcp.Config.Loading.{build_profile}

module _ {A : Type 0} where
  -- A value comes through `>>=` only from a value.
  pub bind-good :
      {B : Type 0} (m : Setting A) (f : A → Setting B) (b : B)
      → (m >>= f) ≡ good b
      → (a : A) × ((m ≡ good a) × (f a ≡ good b))
  bind-good (good a) f b h = (a, (refl, h))
  bind-good (bad message) f b h = ground (arith, h)

abbrev pub IfGood : {A : Type 0} → (A → Type 0) → Setting A → Type 0
IfGood P (good a) = P a
IfGood P (bad message) = Unit

pub bind-IfGood :
    {A B : Type 0} (P : B → Type 0) (m : Setting A) (f : A → Setting B)
    → ((a : A) → m ≡ good a → IfGood P (f a))
    → IfGood P (m >>= f)
bind-IfGood P (good a) f h = h a refl
bind-IfGood P (bad message) f h = tt

pub IfGood-good :
    {A : Type 0} (P : A → Type 0) (m : Setting A) (a : A) → IfGood P m → m ≡ good a → P a
IfGood-good P m a h e = subst (IfGood P) e h

pub check-bind :
    {B : Type 0} (c : Bool) (message : String) (f : Unit {0} → Setting B) (x : B)
    → (check c message >>= f) ≡ good x
    → (c ≡ true) × (f tt ≡ good x)
check-bind true message f x h = (refl, h)
check-bind false message f x h = ground (arith, h)

positive-bounds :
    (name : String) (raw : Option String) (o : Option ℕ) (n : ℕ)
    → positive name raw o ≡ good n
    → (1 ≤ n) × (n ≤ max_safe_integer)
positive-bounds name raw none n h = ground (arith, h)
positive-bounds name raw (some m) n h = ground (arith, h)

module _ (e : Environment) where
  -- A number that is accepted is positive and exact in JavaScript.
  pub parse_int_env-bounds :
      (name fallback : String) (n : ℕ)
      → parse_int_env e name fallback ≡ good n
      → (1 ≤ n) × (n ≤ max_safe_integer)
  unfolding parse_int_env
  parse_int_env-bounds name fallback n h =
      positive-bounds name (e.value name) (read_digits (codes (int_source (e.value name) fallback)))
        n h

  -- The text of a setting that is off: unset, empty or `false`, in any case.
  abbrev pub says_no : Option String → Bool
  says_no none = true
  says_no (some s) = e.lower (trim_text s) === "" || e.lower (trim_text s) === "false"

  truth-text :
      (name r : String) (b : Bool)
      → truth e name (some r) ≡ good b
      → b ≡ not (r === "" || r === "false")
  truth-text name r b h =
      ground (arith, h, eq_iff r "", eq_iff r "true", eq_iff r "false", eq_iff "true" "false")

  bool-text :
      (name : String) (o : Option String) (b : Bool)
      → truth e name (lowered e o) ≡ good b
      → b ≡ not (says_no o)
  bool-text name none b h = ground (arith, h)
  bool-text name (some s) b h = truth-text name (e.lower (trim_text s)) b h

  parse_bool-text :
      (name : String) (b : Bool) → parse_bool_env e name ≡ good b → b ≡ not (says_no (e.value name))
  unfolding parse_bool_env
  parse_bool-text name b h = bool-text name (e.value name) b h

  abbrev pub variable : String → String → String
  variable name suffix = "CCU_" <> env_prefix e name <> suffix

  abbrev Built : String → CcuProfile → Type 0
  Built name p =
      (p.policy.name ≡ name)
      × (parse_bool_env e (variable name "_PROTECTED") ≡ good p.policy.protected)
      × (parse_bool_env e (variable name "_READONLY") ≡ good p.policy.readonly)

  build_profile-Built : (name : String) → IfGood (Built name) (build_profile e name)
  unfolding build_profile
  build_profile-Built name =
      let P = Built name in
      let p = env_prefix e name in
      bind-IfGood P (required e (trimmed_env e (variable name "_HOST")) _) _ λ host h.
        bind-IfGood P (parse_bool_env e (variable name "_HTTPS")) _ λ https s.
          bind-IfGood P (parse_bool_env e (variable name "_PROTECTED")) _ λ protected pr.
            bind-IfGood P (parse_bool_env e (variable name "_READONLY")) _ λ readonly ro.
              bind-IfGood P (parse_int_env e (variable name "_PORT") (default_port e https)) _
                λ port po.
                  bind-IfGood P (parse_bool_env e (variable name "_TLS_VERIFY")) _ λ verify ve.
                    bind-IfGood P
                      (read_ca_cert e (variable name "_CA_CERT")
                        (trimmed_env e (variable name "_CA_CERT")))
                      _
                      λ cert ce.
                        bind-IfGood P (parse_int_env e (variable name "_TIMEOUT") "10000") _
                          λ timeout ti.
                            bind-IfGood P
                              (parse_int_env e (variable name "_SCRIPT_TIMEOUT") "30000") _
                              λ script sc. (refl, pr, ro)

  -- A profile that is built is protected, and read-only, unless the variable of that is unset, empty or
  -- `false`, in any case and with any space around: a text that is neither true nor false builds none.
  pub build_profile-policy :
      (name : String) (p : CcuProfile)
      → build_profile e name ≡ good p
      → (p.policy.name ≡ name)
        × (p.policy.protected ≡ not (says_no (e.value (variable name "_PROTECTED"))))
        × (p.policy.readonly ≡ not (says_no (e.value (variable name "_READONLY"))))
  build_profile-policy name p h =
      let b = IfGood-good (Built name) (build_profile e name) p (build_profile-Built name) h in
      (
        b.0,
        parse_bool-text (variable name "_PROTECTED") p.policy.protected b.1,
        parse_bool-text (variable name "_READONLY") p.policy.readonly b.2,
      )
