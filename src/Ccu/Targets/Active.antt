-- ===== src/Ccu/Targets/Active.antt =====
-- The active target of an MCP session (src/ccu/target-registry.ts).
use ccu_mcp.Prelude.{
  String, ◌≡◌, refl, ap, ◌∙◌, ◌⊎◌, inl, inr, none, some, List, [], ◌∷◌, arith, eq_iff, Option-cases,
}
use ccu_mcp.Prelude.Dict.{get}
use ccu_mcp.Action.{ok}
use ccu_mcp.Ccu.Targets.{
  Profile, Target, Naming, TargetRegistry, TargetSelection, make_target, add_profile, add_profiles,
  no_targets, create, get_by_name, select_default, active, use_target,
}
use ccu_mcp.Ccu.Targets.Gate.{
  Move, switches, writes, after_move, after_moves, assert_writable_unlocks,
}
use ccu_mcp.Ccu.Targets.Selecting.{HasDistinctKeys, find, made, get-add_profiles}

-- Every target stands under the lower-case form of its name.
pub record IsKeyed (n : Naming) (r : TargetRegistry) : Type 0 where
  pub at_key :
      (key : String) (t : Target) → get r.targets key ≡ some t → n.lower t.profile.name ≡ key

pub find-key :
    (n : Naming) (key : String) (ps : List Profile) (p : Profile)
    → find n key ps ≡ some p
    → n.lower p.name ≡ key
find-key n key [] p h = cc
find-key n key (q ∷ ps) p h = ground (arith, find-key n key ps p, eq_iff (n.lower q.name) key)

get-create :
    (n : Naming) (ps : List Profile) (default_profile key : String)
    → HasDistinctKeys n ps
    → get (create n ps default_profile).targets key ≡ made n (find n key ps) none
unfolding create get
get-create n ps default_profile key h = get-add_profiles n (no_targets n default_profile) ps key h

made-key :
    (n : Naming) (key : String) (ps : List Profile) (t : Target)
    → made n (find n key ps) none ≡ some t
    → n.lower t.profile.name ≡ key
unfolding make_target
made-key n key ps t h = elim (Option-cases (find n key ps)) [
  | inl missing ↦ ground arith
  | inr (p, found) ↦ ground (arith, find-key n key ps p found)
]

pub create-IsKeyed :
    (n : Naming) (ps : List Profile) (default_profile : String)
    → HasDistinctKeys n ps
    → IsKeyed n (create n ps default_profile)
unfolding create
create-IsKeyed n ps default_profile h = record {
  at_key = λ key t found. made-key n key ps t (rw (get-create n ps default_profile key h) at found);
}

default_key-add_profiles :
    (n : Naming) (r : TargetRegistry) (ps : List Profile)
    → (add_profiles n r ps).default_key ≡ r.default_key
unfolding add_profiles
default_key-add_profiles n r [] = refl
default_key-add_profiles n r (p ∷ ps) = default_key-add_profiles n (add_profile n r p) ps

default_key-create :
    (n : Naming) (ps : List Profile) (default_profile : String)
    → (create n ps default_profile).default_key ≡ n.lower default_profile
unfolding create
default_key-create n ps default_profile =
    default_key-add_profiles n (no_targets n default_profile) ps

abbrev pub HasActive : Naming → TargetRegistry → TargetSelection → Type 0
HasActive n r s = (t : Target) × (active n r s ≡ some t)

-- `use_ccu`: with a name of the registry, in any case, that target is active and returned; with any
-- other name the selection stays as it was and the error is thrown.
pub use_target_lem :
    (n : Naming) (r : TargetRegistry) (name : String) (s : TargetSelection)
    → IsKeyed n r
    → ((t : Target) × (get_by_name n r name ≡ some t)
        × ((use_target n r name s).0 ≡ ok t)
        × (active n r (use_target n r name s).1 ≡ some t))
      ⊎ ((get_by_name n r name ≡ none) × ((use_target n r name s).1 ≡ s))
unfolding use_target active
use_target_lem n r name s k = elim (Option-cases (get_by_name n r name)) [
  | inl missing ↦ inr (missing, rw (missing, use_target) refl)
  | inr (t, found) ↦
      let key : n.lower t.profile.name ≡ n.lower name =
        k.at_key (n.lower name) t (unfold get_by_name in found) in
      inl (
        t,
        found,
        rw (found, use_target) refl,
        rw (found, use_target)
            (rw key (unfold get_by_name in (rw n.lower_idem (unfold get_by_name in found)))),
      )
]

after_move-HasActive :
    (n : Naming) (r : TargetRegistry) (s : TargetSelection) (m : Move)
    → IsKeyed n r
    → HasActive n r s
    → HasActive n r (after_move n r s m)
unfolding after_move get_by_name active
after_move-HasActive n r s (switches name) k h = elim (use_target_lem n r name s k) [
  | inl (t, found, result, now_active) ↦ (t, now_active)
  | inr (missing, same) ↦ rw same h
]
after_move-HasActive n r s (writes t confirm always) k h = (
  h.0,
  ap (λ (key : String). get_by_name n r key) (assert_writable_unlocks n t t confirm always s).0
      ∙ h.1,
)

after_moves-HasActive :
    (n : Naming) (r : TargetRegistry) (s : TargetSelection) (ms : List Move)
    → IsKeyed n r
    → HasActive n r s
    → HasActive n r (after_moves n r s ms)
unfolding after_moves
after_moves-HasActive n r s [] k h = h
after_moves-HasActive n r s (m ∷ ms) k h =
    after_moves-HasActive n r (after_move n r s m) ms k (after_move-HasActive n r s m k h)

active-default :
    (n : Naming) (ps : List Profile) (default_profile : String) (p : Profile)
    → HasDistinctKeys n ps
    → find n (n.lower default_profile) ps ≡ some p
    → active n (create n ps default_profile) (select_default (create n ps default_profile))
      ≡ some (make_target n p)
unfolding active get_by_name
active-default n ps default_profile p h known =
    rw (default_key-create, n.lower_idem, get-create n ps default_profile _ h, known) refl

-- Given a configuration whose names differ by more than case and whose default names one of them, an
-- MCP session has an active target after any switches, successful or not, and any writes.
pub active_defined :
    (n : Naming) (ps : List Profile) (default_profile : String) (p : Profile) (ms : List Move)
    → HasDistinctKeys n ps
    → find n (n.lower default_profile) ps ≡ some p
    → HasActive n (create n ps default_profile) (
        after_moves n
          (create n ps default_profile)
          (select_default (create n ps default_profile))
          ms)
active_defined n ps default_profile p ms h known =
    after_moves-HasActive n (create n ps default_profile)
      (select_default (create n ps default_profile)) ms (create-IsKeyed n ps default_profile h)
      (make_target n p, active-default n ps default_profile p h known)
