-- ===== src/Ccu/Targets/Selecting.antt =====
-- Which target src/ccu/target-registry.ts finds by a name, and that an active one is always there.
use mathlib.Core.List.{append-nil, append_assoc}
use ccu_mcp.Prelude.{
  String, ◌≡◌, ◌≢◌, refl, sym, ◌∙◌, Option, none, some, List, [], ◌∷◌, ◌++◌, map, arith, ◌===◌,
  eq_iff, All, if◌then◌else◌,
}
use ccu_mcp.Prelude.Dict.{Dict, get, get-set}
use ccu_mcp.Ccu.Targets.{
  Profile, Target, Naming, TargetRegistry, make_target, add_profile, add_profiles, no_targets,
  create, get_by_name, list,
}

-- No two profiles have names that differ in case only: `loadConfig` refuses such a configuration.
abbrev pub IsFresh : Naming → String → List Profile → Type 0
IsFresh n key ps = All (λ p. n.lower p.name ≢ key) ps

abbrev pub HasDistinctKeys : Naming → List Profile → Type 0
HasDistinctKeys n [] = Unit
HasDistinctKeys n (p ∷ ps) = IsFresh n (n.lower p.name) ps × HasDistinctKeys n ps

-- The profile of that key, of a list.
abbrev pub find : Naming → String → List Profile → Option Profile
find n key [] = none
find n key (p ∷ ps) = if n.lower p.name === key then some p else find n key ps

abbrev pub made : Naming → Option Profile → Option Target → Option Target
made n none t = t
made n (some p) t = some (make_target n p)

find-fresh :
    (n : Naming) (key : String) (ps : List Profile) → IsFresh n key ps → find n key ps ≡ none
find-fresh n key [] h = refl
find-fresh n key (p ∷ ps) (ne, h) =
    ground (arith, find-fresh n key ps h, eq_iff (n.lower p.name) key)

pub get-add_profiles :
    (n : Naming) (r : TargetRegistry) (ps : List Profile) (key : String)
    → HasDistinctKeys n ps
    → get (add_profiles n r ps).targets key ≡ made n (find n key ps) (get r.targets key)
unfolding add_profiles
get-add_profiles n r [] key h = refl
get-add_profiles n r (p ∷ ps) key (fresh, h) = ground (
  arith,
  get-add_profiles n (add_profile n r p) ps key h,
  get-set r.targets (n.lower p.name) key (make_target n p),
  find-fresh n (n.lower p.name) ps fresh,
  eq_iff (n.lower p.name) key,
)

-- The registry of a configuration whose names differ by more than case finds by a name, in any case,
-- the target made of the profile with that name, and nothing by any other name.
pub get_by_name-create :
    (n : Naming) (ps : List Profile) (default_profile name : String)
    → HasDistinctKeys n ps
    → get_by_name n (create n ps default_profile) name ≡ made n (find n (n.lower name) ps) none
unfolding get_by_name create get
get_by_name-create n ps default_profile name h = get-add_profiles n _ ps (n.lower name) h

order-add_profiles :
    (n : Naming) (r : TargetRegistry) (ps : List Profile)
    → (add_profiles n r ps).order ≡ r.order ++ map (λ (p : Profile). p.name) ps
unfolding add_profiles
order-add_profiles n r [] = sym (append-nil _)
order-add_profiles n r (p ∷ ps) =
    order-add_profiles n (add_profile n r p) ps
    ∙ append_assoc r.order (p.name ∷ []) (map (λ (q : Profile). q.name) ps)

-- What `list` finds for the names of some of the profiles, given that all of them are in the registry.
listed :
    (n : Naming) (targets : Dict Target) (ps : List Profile)
    → All (λ p. get targets (n.lower p.name) ≡ some (make_target n p)) ps
    → map (λ name. get targets (n.lower name)) (map (λ (p : Profile). p.name) ps)
      ≡ map (λ p. some (make_target n p)) ps
listed n targets [] h = refl
listed n targets (p ∷ ps) (found, h) = rw (found, listed n targets ps h)

find-shift :
    (n : Naming) (p : Profile) (all ps : List Profile)
    → IsFresh n (n.lower p.name) ps
    → All (λ q. find n (n.lower q.name) all ≡ some q) ps
    → All (λ q. find n (n.lower q.name) (p ∷ all) ≡ some q) ps
find-shift n p all [] fresh h = tt
find-shift n p all (q ∷ ps) (ne, fresh) (found, h) =
    (ground (arith, eq_iff (n.lower p.name) (n.lower q.name)), find-shift n p all ps fresh h)

find-listed :
    (n : Naming) (ps : List Profile)
    → HasDistinctKeys n ps
    → All (λ p. find n (n.lower p.name) ps ≡ some p) ps
find-listed n [] h = tt
find-listed n (p ∷ ps) (fresh, h) = (
  ground (arith, eq_iff (n.lower p.name) (n.lower p.name)),
  find-shift n p ps ps fresh (find-listed n ps h),
)

found-made :
    (n : Naming) (r : TargetRegistry) (all ps : List Profile)
    → ((key : String) → get r.targets key ≡ made n (find n key all) none)
    → All (λ p. find n (n.lower p.name) all ≡ some p) ps
    → All (λ p. get r.targets (n.lower p.name) ≡ some (make_target n p)) ps
found-made n r all [] g h = tt
found-made n r all (p ∷ ps) g (found, h) =
    (rw (g (n.lower p.name), found) refl, found-made n r all ps g h)

-- `list` gives all the targets, in the order of the configuration: its `!` hides nothing.
pub list-create :
    (n : Naming) (ps : List Profile) (default_profile : String)
    → HasDistinctKeys n ps
    → list n (create n ps default_profile) ≡ map (λ p. some (make_target n p)) ps
unfolding list create
list-create n ps default_profile h =
    let start = no_targets n default_profile in
    rw (order-add_profiles n start ps) (
      listed n (add_profiles n start ps).targets ps (
        found-made n (add_profiles n start ps) ps ps
          (λ key. unfold get in (get-add_profiles n start ps key h)) (find-listed n ps h)))
