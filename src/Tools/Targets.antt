-- ===== src/Tools/Targets.antt =====
-- src/tools/targets.ts: the tools that list the targets and switch between them. What the sessions and the
-- caches of the targets are at is a parameter, as is the connection of a profile.
mod Listed
mod Tests
use ccu_mcp.Prelude.{
  ℕ, String, Bool, true, not, ◌&&◌, Option, none, some, List, [], ◌∷◌, map, ◌===◌, if◌then◌else◌,
}
use ccu_mcp.Errors.{Failure, ccu, other, JsError, StructuredError}
use ccu_mcp.Action.{Outcome, ok, thrown, Action, pure, throw, try◌}
use ccu_mcp.Middleware.ToolHandler.{Answer, result, to_answer}
use ccu_mcp.Ccu.Targets.{
  Profile, Target, Naming, TargetRegistry, TargetSelection, list, active, use_target, is_unlocked,
}

-- What the tools tell of a `CcuProfile.ccu`.
pub record Connection : Type 0 where
  pub host : String
  pub port : ℕ
  pub user : String
  pub https : Bool

pub record Live : Type 0 where
  pub connection : Profile → Connection
  pub is_logged_in : Target → Bool
  pub is_stale : Target → Bool
  pub is_warming : Target → Bool

pub record TargetInfo : Type 0 where
  pub name : String
  pub connection : Connection
  pub protected : Bool
  pub readonly : Bool
  pub is_active : Bool
  pub logged_in : Bool
  pub writes_unlocked : Bool

-- What a handler changes: the selection of its MCP session, and the warms that it starts, newest first.
pub record SwitchState : Type 0 where
  pub selection : TargetSelection
  pub warms : List Target

-- A property of `undefined` is read.
abbrev pub undefined_target : JsError
undefined_target = record {
  name = "TypeError";
  message = "Cannot read properties of undefined (reading 'profile')";
  cause = none;
}

module _ (live : Live) (n : Naming) (r : TargetRegistry) where
  -- `targetInfo`
  unfoldable pub target_info : Target → String → Bool → TargetInfo
  target_info t active_name unlocked = record {
    name = t.profile.name;
    connection = live.connection t.profile;
    protected = t.profile.protected;
    readonly = t.profile.readonly;
    is_active = t.profile.name === active_name;
    logged_in = live.is_logged_in t;
    writes_unlocked = unlocked;
  }

  -- The loop of `list_ccu_targets`, which throws where a target is missing.
  abbrev pub infos : TargetSelection → String → List (Option Target) → Outcome (List TargetInfo)
  infos s name [] = ok []
  infos s name (none ∷ ts) = thrown (other undefined_target)
  infos s name (some t ∷ ts) = elim (infos s name ts) [
    | ok rest ↦ ok (target_info t name (is_unlocked n s t) ∷ rest)
    | thrown e ↦ thrown e
  ]

  abbrev pub infos_for : TargetSelection → Option Target → Outcome (List TargetInfo)
  infos_for s none = thrown (other undefined_target)
  infos_for s (some t) = infos s t.profile.name (list n r)

  -- The handler of `list_ccu_targets`.
  unfoldable pub list_ccu_targets : Action SwitchState (List TargetInfo)
  list_ccu_targets s = (infos_for s.selection (active n r s.selection), s)

  abbrev pub info_of : TargetSelection → Option Target → Outcome TargetInfo
  info_of s none = thrown (other undefined_target)
  info_of s (some t) = ok (target_info t t.profile.name (is_unlocked n s t))

  -- The handler of `get_connection_info`.
  unfoldable pub get_connection_info : Action SwitchState TargetInfo
  get_connection_info s = (info_of s.selection (active n r s.selection), s)

  abbrev pub switch : String → Action SwitchState Target
  switch name s =
      let (o, selection) = use_target n r name s.selection in
      (o, record s { selection = selection })

  -- A warm in the background, for a target whose cache is stale.
  abbrev pub warm_if_stale : Target → SwitchState → SwitchState
  warm_if_stale t s =
      if live.is_stale t && not (live.is_warming t) then record s { warms = t ∷ s.warms } else s

  abbrev pub answer_info : Target → Action SwitchState (Answer TargetInfo)
  answer_info t s =
      let s' = warm_if_stale t s in
      (ok (result (target_info t t.profile.name (is_unlocked n s'.selection t))), s')

  -- The handler of `use_ccu`.
  unfoldable pub use_ccu : String → Action SwitchState (Answer TargetInfo)
  use_ccu name = try◌ (switch name) answer_info to_answer
