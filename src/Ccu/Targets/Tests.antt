-- ===== src/Ccu/Targets/Tests.antt =====
-- src/ccu/target-registry.ts at a configuration with a development and a protected production CCU.
use ccu_mcp.Prelude.{
  ℕ, String, true, false, ◌≡◌, ◌≢◌, refl, ap, ◌⊎◌, none, some, List, [], ◌∷◌, arith, length, codes,
  text_eq_iff, ◌===◌, eq_iff, if◌then◌else◌,
}
use ccu_mcp.Prelude.Dict.{set, member, insert}
use ccu_mcp.Action.{ok}
use ccu_mcp.Ccu.Targets.{
  Profile, Naming, dashed, trimmed, file_suffix, make_target, TargetRegistry, add_profiles, create,
  select_default, assert_writable,
}
use ccu_mcp.Ccu.Targets.Gate.{
  Move, writes, after_move, after_moves, authorized, writes_need_confirm,
}
use ccu_mcp.Ccu.Targets.Selecting.{HasDistinctKeys}

abbrev lower : String → String
lower s = if s === "PROD" then "prod" else s

lower_idem : (s : String) → lower (lower s) ≡ lower s
lower_idem s = ground (arith, eq_iff s "PROD", eq_iff "prod" "PROD")

-- A stand-in for the digest that tells the names of these tests apart.
abbrev digest : String → List ℕ
digest s = if s === "prod" then codes "00000001" else codes "00000002"

abbrev naming : Naming
naming = record { lower = lower; lower_idem = lower_idem; digest = digest }

abbrev dev : Profile
dev = record { name = "dev"; protected = false; readonly = false }

abbrev prod : Profile
prod = record { name = "prod"; protected = true; readonly = false }

registry : TargetRegistry
registry = create naming (dev ∷ prod ∷ []) "dev"

suffixes :
    (file_suffix naming "prod" ≡ codes "prod-00000001")
    × (trimmed (dashed false (codes "--my..ccu-")) ≡ codes "my-ccu")
unfolding file_suffix trimmed dashed
suffixes = (refl, refl)

-- A confirmed write unlocks production for plain writes and not for the tools that ask every time.
abbrev confirmed_write : List Move
confirmed_write = writes (make_target naming prod) (some true) false ∷ []

gate_tests :
    ((assert_writable naming
        (make_target naming prod)
        none
        false
        (after_moves naming registry (select_default registry) confirmed_write)).0
      ≡ ok tt)
    × ((assert_writable naming (make_target naming prod) none false (select_default registry)).1
        ≡ select_default registry)
unfolding assert_writable after_moves after_move registry create add_profiles make_target member
    insert set
gate_tests = (refl, refl)

writes_need_confirm_example :
    ((make_target naming prod).profile.readonly ≡ false)
    × (((make_target naming prod).profile.protected ≡ false)
        ⊎ (false ≡ true)
        ⊎ ((false ≡ false)
            × (authorized naming (lower (make_target naming prod).profile.name) confirmed_write
                ≡ true)))
unfolding assert_writable after_moves after_move registry create add_profiles make_target member
    insert set
writes_need_confirm_example =
    writes_need_confirm naming registry confirmed_write (make_target naming prod) none false refl

distinct : HasDistinctKeys naming (dev ∷ prod ∷ [])
distinct = ((λ e. cc (ap (λ (s : String). s === "prod") e), tt), (tt, tt))

eight : (s : String) → length (digest s) ≡ 8
eight s = ground arith

digests_differ : digest (lower "dev") ≢ digest (lower "prod")
digests_differ e = cc ((text_eq_iff (digest (lower "dev")) (digest (lower "prod"))).1 e)
