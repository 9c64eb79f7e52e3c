-- ===== src/Ccu/Targets.antt =====
-- src/ccu/target-registry.ts. Of a target the registry's own code reads the profile and chooses the two
-- file names. `lower` is `String.prototype.toLowerCase`, with the one law that it is idempotent, and
-- `digest` the first eight characters of the hexadecimal SHA-256 (node:crypto).
mod Files
mod Gate
pub mod Selecting
pub mod Active
mod Tests
use mathlib.Core.List.{reverse, foldl}
use ccu_mcp.Prelude.{
  ℕ, String, Bool, true, false, not, ◌&&◌, ◌||◌, ◌≡◌, Option, none, some, List, [], ◌∷◌, ◌++◌, map,
  ◌==◌, ◌===◌, ◌<>◌, leb, codes, drop_while, is_some, if◌then◌else◌,
}
use ccu_mcp.Prelude.Dict.{Dict, get, set, member, insert}
use ccu_mcp.Errors.{invalid_input, not_found, plain_error, Failure, ccu}
use ccu_mcp.Action.{Outcome, ok, thrown, Action, pure, throw}

-- What the registry reads of a `CcuProfile`.
pub record Profile : Type 0 where
  pub name : String
  pub protected : Bool
  pub readonly : Bool

pub record Target : Type 0 where
  pub profile : Profile
  pub session_file : List ℕ
  pub device_type_file : List ℕ

pub record Naming : Type 0 where
  pub lower : String → String
  pub lower_idem : (s : String) → lower (lower s) ≡ lower s
  pub digest : String → List ℕ

-- `[a-z0-9]`
abbrev pub is_slug_char : ℕ → Bool
is_slug_char c = leb b'a' c && leb c b'z' || leb b'0' c && leb c b'9'

-- `.replace(/[^a-z0-9]+/g, "-")`; the flag says that the run of other characters has begun.
pub dashed : Bool → List ℕ → List ℕ
dashed in_run [] = []
dashed in_run (c ∷ t) =
    let kept = c ∷ dashed false t in
    let rest = dashed true t in
    if is_slug_char c then kept else if in_run then rest else b'-' ∷ rest

abbrev is_dash : ℕ → Bool
is_dash c = c == b'-'

-- `.replace(/^-+|-+$/g, "")`
pub trimmed : List ℕ → List ℕ
trimmed t = reverse (drop_while is_dash (reverse (drop_while is_dash t)))

abbrev pub slug : String → List ℕ
slug canonical = trimmed (dashed false (codes canonical))

abbrev joined : List ℕ → List ℕ → List ℕ
joined [] hash = hash
joined (c ∷ t) hash = (c ∷ t) ++ b'-' ∷ hash

-- `fileSuffix`
pub file_suffix : Naming → String → List ℕ
file_suffix n name = let canonical = n.lower name in joined (slug canonical) (n.digest canonical)

-- The part of a target's file names that tells it from the others.
pub suffix_of : Naming → Profile → List ℕ
suffix_of n p = if p.name === "default" then [] else b'.' ∷ file_suffix n p.name

unfoldable pub make_target : Naming → Profile → Target
make_target n p = record {
  profile = p;
  session_file = codes "session" ++ (suffix_of n p ++ codes ".json");
  device_type_file = codes "device-type-cache" ++ (suffix_of n p ++ codes ".json");
}

pub record TargetRegistry : Type 0 where
  pub targets : Dict Target
  pub order : List String
  pub default_key : String

-- One round of the constructor's loop.
abbrev pub add_profile : Naming → TargetRegistry → Profile → TargetRegistry
add_profile n r p = record r {
  targets = set r.targets (n.lower p.name) (make_target n p);
  order = r.order ++ p.name ∷ [];
}

-- The loop of the constructor.
pub add_profiles : Naming → TargetRegistry → List Profile → TargetRegistry
add_profiles n r [] = r
add_profiles n r (p ∷ ps) = add_profiles n (add_profile n r p) ps

abbrev pub no_targets : Naming → String → TargetRegistry
no_targets n default_profile = record {
  targets = [];
  order = [];
  default_key = n.lower default_profile;
}

-- `constructor`
pub create : Naming → List Profile → String → TargetRegistry
create n profiles default_profile = add_profiles n (no_targets n default_profile) profiles

-- `getByName`, `registryLookup`
unfoldable pub get_by_name : Naming → TargetRegistry → String → Option Target
get_by_name n r name = get r.targets (n.lower name)

-- `get default`
unfoldable pub default_target : TargetRegistry → Option Target
default_target r = get r.targets r.default_key

-- `list`, where `!` claims that nothing is missing.
unfoldable pub list : Naming → TargetRegistry → List (Option Target)
list n r = map (λ name. get r.targets (n.lower name)) r.order

-- `TargetSelection`: what one MCP session has chosen and unlocked.
pub record TargetSelection : Type 0 where
  pub active_key : String
  pub unlocked_keys : List String

abbrev pub select_default : TargetRegistry → TargetSelection
select_default r = record { active_key = r.default_key; unlocked_keys = [] }

-- `get active`
unfoldable pub active : Naming → TargetRegistry → TargetSelection → Option Target
active n r s = get_by_name n r s.active_key

abbrev pub join_names : List String → String
join_names [] = ""
join_names (name ∷ []) = name
join_names (name ∷ rest) = name <> ", " <> join_names rest

abbrev pub unknown_target : String → String → Failure
unknown_target name hint = ccu (plain_error not_found ("Unknown CCU target: " <> name) hint)

-- `use`
unfoldable pub use_target : Naming → TargetRegistry → String → Action TargetSelection Target
use_target n r name s = elim (get_by_name n r name) [
  | none ↦ (
    thrown (
        unknown_target name
          ("Configured targets: " <> join_names r.order <> ". Call list_ccu_targets.")),
    s,
  )
  | some t ↦ (ok t, record s { active_key = n.lower t.profile.name })
]

unfoldable pub is_unlocked : Naming → TargetSelection → Target → Bool
is_unlocked n s t = member s.unlocked_keys (n.lower t.profile.name)

pub unlock : Naming → TargetSelection → Target → TargetSelection
unlock n s t = record s { unlocked_keys = insert s.unlocked_keys (n.lower t.profile.name) }

-- `resolveTarget`: no name, or an empty one, is the active target.
pub resolve_target :
    Naming → TargetRegistry → TargetSelection → Option String → Outcome (Option Target)
resolve_target n r s none = ok (active n r s)
resolve_target n r s (some name) =
    if name === "" then ok (active n r s) else elim (get_by_name n r name) [
      | none ↦ thrown (unknown_target name "Call list_ccu_targets to see configured targets.")
      | some t ↦ ok (some t)
    ]

-- `confirm !== true`
abbrev pub confirmed : Option Bool → Bool
confirmed none = false
confirmed (some b) = b

abbrev refuse : String → String → Failure
refuse message hint = ccu (plain_error invalid_input message hint)

abbrev pub refused_readonly : Target → Failure
refused_readonly t =
    refuse ("CCU target \"" <> t.profile.name <> "\" is read-only; writes are refused.")
      "Switch to a writable target with use_ccu, or clear its readonly flag in config."

abbrev pub refused_always : Target → Failure
refused_always t =
    refuse
      ("CCU target \"" <> t.profile.name
        <> "\" is protected. This tool requires confirm:true on EVERY call — the session unlock does not apply to it.")
      "High-impact operation on a protected CCU. Pass confirm:true with this call to proceed."

abbrev pub refused_locked : Target → Failure
refused_locked t =
    refuse
      ("CCU target \"" <> t.profile.name
        <> "\" is protected. Re-issue with confirm:true to authorize writes for this session.")
      "Safety gate on a production CCU. Pass confirm:true to proceed; later writes this session won't need it (except run_script and delete_system_variable, which confirm every call)."

-- `assertWritable`; `always` is the option `alwaysConfirm`.
unfoldable pub assert_writable :
    Naming → Target → (confirm : Option Bool) (always : Bool) → Action TargetSelection (Unit {0})
unfolding is_unlocked unlock
assert_writable n t confirm always s =
    if t.profile.readonly
    then (thrown (refused_readonly t), s)
    else if not t.profile.protected
    then (ok tt, s)
    else if always
    then (if confirmed confirm then (ok tt, s) else (thrown (refused_always t), s))
    else if is_unlocked n s t
    then (ok tt, s)
    else if confirmed confirm
    then (ok tt, unlock n s t)
    else (thrown (refused_locked t), s)
