-- ===== src/Config/Profiles.antt =====
-- src/config.ts: what holds of the profiles that `loadConfig` accepts.
use mathlib.Core.Path.{subst}
use ccu_mcp.Prelude.{
  String, true, false, not, ◌||◌, ◌≡◌, ◌≢◌, refl, sym, Option, none, some, List, [], ◌∷◌, arith,
  eq_iff, All, map,
}
use ccu_mcp.Prelude.Dict.{Dict, get, set, member, insert, member-insert}
use ccu_mcp.Ccu.Targets.{Naming, Profile}
use ccu_mcp.Ccu.Targets.Selecting.{HasDistinctKeys}
use ccu_mcp.Config.{
  Setting, good, ◌>>=◌, check, Environment, CcuProfile, Loaded, env_prefix, trimmed_env, listed,
}
use ccu_mcp.Config.Loading.{
  build_profile, build_profiles, check_names, clashing, chosen_profiles, named_profiles, check_tls,
  has_tls, load_profiles, flat_profile, default_name, match_default, is_empty,
}
use ccu_mcp.Config.Settings.{
  bind-good, IfGood, bind-IfGood, IfGood-good, check-bind, build_profile-policy,
}

module _ (e : Environment) where
  tls_checked :
      (ps : List CcuProfile) (u : Unit {0})
      → check_tls e ps ≡ good u
      → All (λ p. (p.ccu.https || not (has_tls e p.ccu)) ≡ true) ps
  unfolding check_tls
  tls_checked [] u h = tt
  tls_checked (p ∷ ps) u h =
      let r = check-bind (p.ccu.https || not (has_tls e p.ccu)) _ (λ w. check_tls e ps) u h in
      (r.0, tls_checked ps u r.1)

  abbrev Unseen : List String → List String → Type 0
  Unseen seen ns = All (λ m. member seen (e.lower m) ≡ false) ns

  -- The names differ in their lower case.
  abbrev Distinct : List String → Type 0
  Distinct [] = Unit
  Distinct (n ∷ ns) = All (λ m. e.lower m ≢ e.lower n) ns × Distinct ns

  inserted-Unseen :
      (seen : List String) (k : String) (ns : List String)
      → Unseen (insert seen k) ns
      → Unseen seen ns × All (λ m. e.lower m ≢ k) ns
  inserted-Unseen seen k [] h = (tt, tt)
  inserted-Unseen seen k (m ∷ ns) h =
      let rest = inserted-Unseen seen k ns h.1 in
      let unseen : member seen (e.lower m) ≡ false =
        ground (arith, h.0, member-insert seen k (e.lower m)) in
      let other : e.lower m ≢ k =
        λ q. ground (arith, h.0, member-insert seen k (e.lower m), eq_iff k (e.lower m), q) in
      ((unseen, rest.0), (other, rest.1))

  check_names-Distinct :
      (seen : List String) (prefixes : Dict String) (ns : List String) (u : Unit {0})
      → check_names e seen prefixes ns ≡ good u
      → Unseen seen ns × Distinct ns
  unfolding check_names
  check_names-Distinct seen prefixes [] u h = (tt, tt)
  check_names-Distinct seen prefixes (n ∷ ns) u h =
      let next : Unit {0} → Setting (Unit {0}) =
        λ w. check_names e (insert seen (e.lower n)) (set prefixes (env_prefix e n) n) ns in
      let clash = clashing e (env_prefix e n) n (get prefixes (env_prefix e n)) in
      let fresh = check-bind (not (member seen (e.lower n))) _ (λ u. clash >>= next) u h in
      let (later, c) = bind-good clash next u fresh.1 in
      let rest =
        check_names-Distinct (insert seen (e.lower n)) (set prefixes (env_prefix e n) n) ns u c.1 in
      let split = inserted-Unseen seen (e.lower n) ns rest.0 in
      ((ground (arith, fresh.0), split.0), (split.1, rest.1))

  abbrev Named : List String → List CcuProfile → Type 0
  Named ns ps = map (λ (p : CcuProfile). p.policy.name) ps ≡ ns

  build_profiles-Named : (ns : List String) → IfGood (Named ns) (build_profiles e ns)
  unfolding build_profiles
  build_profiles-Named [] = refl
  build_profiles-Named (n ∷ ns) = bind-IfGood (Named (n ∷ ns)) (build_profile e n) _ λ p b.
      bind-IfGood (Named (n ∷ ns)) (build_profiles e ns) _ λ ps m.
        rw (build_profile-policy e n p b).0
          (rw (IfGood-good (Named ns) (build_profiles e ns) ps (build_profiles-Named ns) m) refl)

  keys_fresh :
      (n : Naming) (k : String) (ps : List CcuProfile)
      → e.lower ≡ n.lower
      → All (λ m. e.lower m ≢ e.lower k) (map (λ (p : CcuProfile). p.policy.name) ps)
      → All (λ (p : Profile). n.lower p.name ≢ n.lower k) (map (λ (p : CcuProfile). p.policy) ps)
  keys_fresh n k [] same h = tt
  keys_fresh n k (p ∷ ps) same h =
      (subst (λ (f : String → String). f p.policy.name ≢ f k) same h.0, keys_fresh n k ps same h.1)

  Distinct-HasDistinctKeys :
      (n : Naming) (ps : List CcuProfile)
      → e.lower ≡ n.lower
      → Distinct (map (λ (p : CcuProfile). p.policy.name) ps)
      → HasDistinctKeys n (map (λ (p : CcuProfile). p.policy) ps)
  Distinct-HasDistinctKeys n [] same d = tt
  Distinct-HasDistinctKeys n (p ∷ ps) same d =
      (keys_fresh n p.policy.name ps same d.0, Distinct-HasDistinctKeys n ps same d.1)

  abbrev DistinctNames : Loaded → Type 0
  DistinctNames l = Distinct (map (λ (p : CcuProfile). p.policy.name) l.profiles)

  named-Distinct : (names : List String) → IfGood DistinctNames (named_profiles e names)
  named-Distinct names =
      let P = DistinctNames in
      bind-IfGood P
        (check (not (is_empty e names)) "CCU_PROFILES is set but lists no profile names") _
        λ u c. bind-IfGood P (check_names e [] [] names) _ λ w h.
          bind-IfGood P (build_profiles e names) _ λ ps b.
            bind-IfGood P
              (default_name e (trimmed_env e "CCU_DEFAULT_PROFILE") names
                (match_default e (trimmed_env e "CCU_DEFAULT_PROFILE") ps))
              _
              λ name d.
                subst Distinct
                  (sym (
                    IfGood-good (Named names) (build_profiles e names) ps
                      (build_profiles-Named names) b))
                  (check_names-Distinct [] [] names w h).1

  chosen-Distinct : (o : Option String) → IfGood DistinctNames (chosen_profiles e o)
  chosen-Distinct none = bind-IfGood DistinctNames (flat_profile e) _ λ p f. (tt, tt)
  chosen-Distinct (some text) = named-Distinct (listed text)

  abbrev Sound : Loaded → Type 0
  Sound l =
      DistinctNames l
      × All (λ (p : CcuProfile). (p.ccu.https || not (has_tls e p.ccu)) ≡ true) l.profiles

  load_profiles-Sound : IfGood Sound (load_profiles e)
  unfolding load_profiles
  load_profiles-Sound =
      let o = trimmed_env e "CCU_PROFILES" in
      bind-IfGood Sound (chosen_profiles e o) _ λ l c.
        bind-IfGood Sound (check_tls e l.profiles) _ λ u t. (
          IfGood-good DistinctNames (chosen_profiles e o) l (chosen-Distinct o) c,
          tls_checked l.profiles u t,
        )

  -- The profiles that `loadConfig` accepts have names that differ in lower case, so that the registry finds
  -- each, and none of them has TLS settings without HTTPS.
  pub load_profiles_sound :
      (n : Naming) (l : Loaded)
      → e.lower ≡ n.lower
      → load_profiles e ≡ good l
      → HasDistinctKeys n (map (λ (p : CcuProfile). p.policy) l.profiles)
        × All (λ (p : CcuProfile). (p.ccu.https || not (has_tls e p.ccu)) ≡ true) l.profiles
  load_profiles_sound n l same h =
      let s = IfGood-good Sound (load_profiles e) l load_profiles-Sound h in
      (Distinct-HasDistinctKeys n l.profiles same s.0, s.1)
