-- ===== src/Ccu/Targets/Gate.antt =====
-- The write gate of src/ccu/target-registry.ts: `assertWritable`, and what an MCP session can unlock.
use ccu_mcp.Prelude.{
  String, Bool, true, false, not, ◌&&◌, ◌||◌, ◌≡◌, ◌↔◌, refl, sym, ◌∙◌, ◌⊎◌, inl, Option, List, [],
  ◌∷◌, arith, ◌===◌, eq_iff,
}
use ccu_mcp.Prelude.Dict.{member-insert, member}
use ccu_mcp.Action.{ok}
use ccu_mcp.Ccu.Targets.{
  Target, Naming, TargetRegistry, TargetSelection, select_default, use_target, is_unlocked,
  confirmed, assert_writable,
}

-- A write passes the gate exactly if the target is not read-only and is unprotected, or confirmed with
-- this very call, or, unless the tool asks for a confirmation on every call, unlocked before.
pub assert_writable_iff :
    (n : Naming) (t : Target) (confirm : Option Bool) (always : Bool) (s : TargetSelection)
    → ((assert_writable n t confirm always s).0 ≡ ok tt) ↔ (
        (t.profile.readonly ≡ false)
        × ((t.profile.protected ≡ false)
            ⊎ (confirmed confirm ≡ true)
            ⊎ ((always ≡ false) × (is_unlocked n s t ≡ true))))
unfolding assert_writable
assert_writable_iff n t confirm always s = ground arith

-- Passing the gate changes one thing at most: a target `u` is unlocked afterwards exactly if it was
-- before, or it is the one that this call wrote to (by name), which is writable, protected, confirmed with this
-- call, and the tool is not one that asks every time. The active target stays.
pub assert_writable_unlocks :
    (n : Naming) (t u : Target) (confirm : Option Bool) (always : Bool) (s : TargetSelection)
    → ((assert_writable n t confirm always s).1.active_key ≡ s.active_key)
      × (is_unlocked n (assert_writable n t confirm always s).1 u ≡ (
          is_unlocked n s u
          || (n.lower t.profile.name === n.lower u.profile.name
              && (not t.profile.readonly
                  && (t.profile.protected && (not always && confirmed confirm))))))
unfolding assert_writable
assert_writable_unlocks n t u confirm always s = (
  ground arith,
  ground (
    arith,
    member-insert s.unlocked_keys (n.lower t.profile.name) (n.lower u.profile.name),
    eq_iff (n.lower t.profile.name) (n.lower u.profile.name),
  ),
)

-- What an MCP session does with its selection: a switch of the active target by name, or a write that
-- goes to the gate with the given `confirm` and `alwaysConfirm`.
pub data Move : Type 0 where
  switches : String → Move
  writes : Target → Option Bool → Bool → Move

unfoldable pub after_move : Naming → TargetRegistry → TargetSelection → Move → TargetSelection
after_move n r s (switches name) = (use_target n r name s).1
after_move n r s (writes t confirm always) = (assert_writable n t confirm always s).1

unfoldable pub after_moves : Naming → TargetRegistry → TargetSelection → List Move → TargetSelection
after_moves n r s [] = s
after_moves n r s (m ∷ ms) = after_moves n r (after_move n r s m) ms

-- The move that may unlock the target with this key: a confirmed write to it by a tool that does not ask
-- every time.
abbrev pub authorizes : Naming → String → Move → Bool
authorizes n key (switches name) = false
authorizes n key (writes t confirm always) =
    n.lower t.profile.name === key && (not always && confirmed confirm)

abbrev pub authorized : Naming → String → List Move → Bool
authorized n key [] = false
authorized n key (m ∷ ms) = authorizes n key m || authorized n key ms

unlocked-switch :
    (n : Naming) (r : TargetRegistry) (s : TargetSelection) (u : Target) (name : String)
    → is_unlocked n (use_target n r name s).1 u ≡ is_unlocked n s u
unfolding use_target is_unlocked
unlocked-switch n r s u name = ground arith

after_move_unlocks :
    (n : Naming) (r : TargetRegistry) (s : TargetSelection) (u : Target) (m : Move)
    → is_unlocked n (after_move n r s m) u ≡ true
    → (is_unlocked n s u ≡ true) ⊎ (authorizes n (n.lower u.profile.name) m ≡ true)
unfolding after_move
after_move_unlocks n r s u (switches name) h = inl (sym (unlocked-switch n r s u name) ∙ h)
after_move_unlocks n r s u (writes t confirm always) h =
    ground (arith, (assert_writable_unlocks n t u confirm always s).1)

after_moves_unlocks :
    (n : Naming) (r : TargetRegistry) (s : TargetSelection) (u : Target) (ms : List Move)
    → is_unlocked n (after_moves n r s ms) u ≡ true
    → (is_unlocked n s u ≡ true) ⊎ (authorized n (n.lower u.profile.name) ms ≡ true)
unfolding after_moves
after_moves_unlocks n r s u [] h = inl h
after_moves_unlocks n r s u (m ∷ ms) h =
    ground
      (arith, after_moves_unlocks n r (after_move n r s m) u ms h, after_move_unlocks n r s u m)

fresh-locked :
    (n : Naming) (r : TargetRegistry) (t : Target) → is_unlocked n (select_default r) t ≡ false
unfolding is_unlocked member
fresh-locked n r t = refl

-- Whatever a new MCP session did before, a write to a protected target passes the gate only with a
-- confirmation: of this call, or, for a tool that does not ask every time, of an earlier write of this
-- session to this same target by such a tool. Confirmations for other targets, switches of the target and
-- confirmed calls of the tools that ask every time never count. A read-only target lets nothing pass.
pub writes_need_confirm :
    (n : Naming) (r : TargetRegistry) (ms : List Move) (t : Target) (confirm : Option Bool)
    (always : Bool)
    → (assert_writable n t confirm always (after_moves n r (select_default r) ms)).0 ≡ ok tt
    → (t.profile.readonly ≡ false)
      × ((t.profile.protected ≡ false)
          ⊎ (confirmed confirm ≡ true)
          ⊎ ((always ≡ false) × (authorized n (n.lower t.profile.name) ms ≡ true)))
writes_need_confirm n r ms t confirm always passed =
    let (writable, why) =
      (assert_writable_iff n t confirm always (after_moves n r (select_default r) ms)).0 passed in
    (
      writable,
      ground (arith, why, after_moves_unlocks n r (select_default r) t ms, fresh-locked n r t),
    )
