-- ===== src/Tools/Targets/Listed.antt =====
-- What src/tools/targets.ts tells after a switch.
use mathlib.Core.Path.{subst}
use ccu_mcp.Prelude.{
  String, false, not, ◌&&◌, ◌≡◌, refl, ◌∙◌, ap, ◌⊎◌, inl, inr, none, some, List, [], ◌∷◌, map,
  filter, filter_none, All, arith, eq_iff, ◌===◌, ◌<>◌, Option-cases, Bool-cases,
}
use ccu_mcp.Errors.{StructuredError, plain_error, not_found}
use ccu_mcp.Action.{ok}
use ccu_mcp.Middleware.ToolHandler.{result, mcp_error}
use ccu_mcp.Ccu.Targets.{
  Profile, Target, Naming, TargetRegistry, TargetSelection, make_target, create, get_by_name, list,
  active, use_target, is_unlocked, join_names,
}
use ccu_mcp.Ccu.Targets.Selecting.{HasDistinctKeys, IsFresh, find, get_by_name-create, list-create}
use ccu_mcp.Ccu.Targets.Active.{find-key}
use ccu_mcp.Tools.Targets.{
  Live, TargetInfo, SwitchState, target_info, infos, warm_if_stale, list_ccu_targets,
  get_connection_info, use_ccu,
}

module _ (live : Live) (n : Naming) (r : TargetRegistry) (s : TargetSelection) where
  -- What is told of a profile's target.
  told : String → Profile → TargetInfo
  told name p = target_info live n r (make_target n p) name (is_unlocked n s (make_target n p))

  infos-map :
      (name : String) (ps : List Profile)
      → infos live n r s name (map (λ p. some (make_target n p)) ps) ≡ ok (map (told name) ps)
  unfolding told
  infos-map name [] = refl
  infos-map name (p ∷ ps) = rw (infos-map name ps) refl

  told-active : (name : String) (p : Profile) → (told name p).is_active ≡ (p.name === name)
  unfolding told target_info make_target
  told-active name p = refl

  others_inactive :
      (p : Profile) (ps : List Profile)
      → IsFresh n (n.lower p.name) ps
      → All (λ i. i.is_active ≡ false) (map (told p.name) ps)
  others_inactive p [] h = tt
  others_inactive p (q ∷ ps) (ne, h) =
      (told-active p.name q ∙ ground (arith, ne, eq_iff q.name p.name), others_inactive p ps h)

  first_told :
      (q : Profile) (ps : List Profile)
      → IsFresh n (n.lower q.name) ps
      → filter (λ i. i.is_active) (map (told q.name) (q ∷ ps)) ≡ told q.name q ∷ []
  first_told q ps fresh =
      rw
        (
          told-active q.name q,
          (eq_iff q.name q.name).1 refl,
          filter_none (λ (i : TargetInfo). i.is_active) (map (told q.name) ps)
              (others_inactive q ps fresh),
        )
        refl

  differs :
      (key : String) (p q : Profile) (ps : List Profile)
      → (n.lower q.name === key) ≡ false
      → find n key ps ≡ some p
      → (q.name === p.name) ≡ false
  differs key p q ps ne found =
      ground (arith, find-key n key ps p found, eq_iff q.name p.name, eq_iff (n.lower q.name) key)

  -- One profile of the list is told to be active.
  filter-told :
      (key : String) (p : Profile) (ps : List Profile)
      → HasDistinctKeys n ps
      → find n key ps ≡ some p
      → filter (λ i. i.is_active) (map (told p.name) ps) ≡ told p.name p ∷ []
  filter-told key p [] h found = cc
  filter-told key p (q ∷ ps) (fresh, h) found = elim (Bool-cases (n.lower q.name === key)) [
    | inl eq ↦
        let found' : some q ≡ some p = rw eq at found in
        let same : q ≡ p = cc in
        subst (λ x. filter (λ i. i.is_active) (map (told x.name) (q ∷ ps)) ≡ told x.name x ∷ [])
          same (first_told q ps fresh)
    | inr ne ↦
        let found' = rw ne at found in
        rw (told-active p.name q, differs key p q ps ne found') (filter-told key p ps h found')
  ]

module _ (live : Live) (n : Naming) (r : TargetRegistry) where
  -- The selection after a switch to a target.
  abbrev chosen : TargetSelection → Target → TargetSelection
  chosen s t = record s { active_key = n.lower t.profile.name }

  abbrev shown : TargetSelection → Target → TargetInfo
  shown s t = target_info live n r t t.profile.name (is_unlocked n s t)

  warm_selection :
      (t : Target) (s : SwitchState) → (warm_if_stale live n r t s).selection ≡ s.selection
  warm_selection t s = elim (Bool-cases (live.is_stale t && not (live.is_warming t))) [
    | inl eq ↦ rw eq refl
    | inr eq ↦ rw eq refl
  ]

  use_ccu-some :
      (name : String) (s : SwitchState) (t : Target)
      → get_by_name n r name ≡ some t
      → ((use_ccu live n r name s).0 ≡ ok (result (shown (chosen s.selection t) t)))
        × ((use_ccu live n r name s).1.selection ≡ chosen s.selection t)
  unfolding use_ccu use_target
  use_ccu-some name s t h = (
    rw (h, use_target)
        (ap (λ sel. ok (result (target_info live n r t t.profile.name (is_unlocked n sel t))))
          (warm_selection t (record s { selection = chosen s.selection t }))),
    rw (h, use_target) (warm_selection t (record s { selection = chosen s.selection t })),
  )

  -- What is answered for a name that no target has.
  abbrev no_such_target : String → StructuredError
  no_such_target name =
      plain_error not_found ("Unknown CCU target: " <> name)
        ("Configured targets: " <> join_names r.order <> ". Call list_ccu_targets.")

  use_ccu-none :
      (name : String) (s : SwitchState)
      → get_by_name n r name ≡ none
      → use_ccu live n r name s ≡ (ok (mcp_error (no_such_target name)), s)
  unfolding use_ccu use_target
  use_ccu-none name s h = rw (h, use_target) refl

  list-chosen :
      (s : SwitchState) (sel : TargetSelection) (t : Target)
      → s.selection ≡ sel
      → active n r sel ≡ some t
      → ((list_ccu_targets live n r s).0 ≡ infos live n r sel t.profile.name (list n r))
        × ((get_connection_info live n r s).0 ≡ ok (shown sel t))
  unfolding list_ccu_targets get_connection_info
  list-chosen s sel t h a = (rw (h, a) refl, rw (h, a) refl)

told_found :
    (n : Naming) (ps : List Profile) (default_profile key : String) (p : Profile)
    → HasDistinctKeys n ps
    → find n (n.lower key) ps ≡ some p
    → get_by_name n (create n ps default_profile) key ≡ some (make_target n p)
told_found n ps default_profile key p h found =
    get_by_name-create n ps default_profile key h ∙ rw found refl

chosen-active :
    (live : Live) (n : Naming) (ps : List Profile) (default_profile name : String) (p : Profile)
    (s : TargetSelection)
    → HasDistinctKeys n ps
    → find n (n.lower name) ps ≡ some p
    → active n
        (create n ps default_profile)
        (chosen live n (create n ps default_profile) s (make_target n p))
      ≡ some (make_target n p)
unfolding active make_target
chosen-active live n ps default_profile name p s h found =
    told_found n ps default_profile (n.lower p.name) p h (
      ap (λ key. find n key ps) (n.lower_idem p.name ∙ find-key n (n.lower name) ps p found)
      ∙ found)

listed_infos :
    (live : Live) (n : Naming) (ps : List Profile) (default_profile : String) (s : TargetSelection)
    (p : Profile)
    → HasDistinctKeys n ps
    → infos live n
        (create n ps default_profile)
        s
        (make_target n p).profile.name
        (list n (create n ps default_profile))
      ≡ ok (map (told live n (create n ps default_profile) s p.name) ps)
unfolding make_target
listed_infos live n ps default_profile s p h =
    ap (infos live n (create n ps default_profile) s p.name) (list-create n ps default_profile h)
    ∙ infos-map live n (create n ps default_profile) s p.name ps

-- Where a profile has the name that `use_ccu` is given, in any case of letters, it answers with that profile,
-- the same that `get_connection_info` answers then and that `list_ccu_targets` says of the one target that it
-- marks as active. Where no profile has the name, it answers NOT_FOUND and changes nothing. The names of the
-- profiles differ by more than case.
pub use_ccu-listed :
    (live : Live) (n : Naming) (ps : List Profile) (default_profile name : String) (s : SwitchState)
    → HasDistinctKeys n ps
    → let r = create n ps default_profile in
      let (o, s') = use_ccu live n r name s in
      ((p : Profile) × (info : TargetInfo) × (ts : List TargetInfo) × (find n (n.lower name) ps
          ≡ some p)
        × (o ≡ ok (result info))
        × (info.name ≡ p.name)
        × (info.connection ≡ live.connection p)
        × ((list_ccu_targets live n r s').0 ≡ ok ts)
        × (filter (λ i. i.is_active) ts ≡ info ∷ [])
        × ((get_connection_info live n r s').0 ≡ ok info))
      ⊎ ((e : StructuredError) × (find n (n.lower name) ps ≡ none)
          × (o ≡ ok (mcp_error e))
          × (e.error ≡ not_found)
          × (s' ≡ s))
unfolding told target_info make_target
use_ccu-listed live n ps default_profile name s h = elim (Option-cases (find n (n.lower name) ps)) [
  | inl missing ↦
      let none_found = get_by_name-create n ps default_profile name h ∙ rw missing refl in
      let same = use_ccu-none live n (create n ps default_profile) name s none_found in
      inr (
        no_such_target live n (create n ps default_profile) name,
        missing,
        ap (λ x. x.0) same,
        refl,
        ap (λ x. x.1) same,
      )
  | inr (p, found) ↦
      let r = create n ps default_profile in
      let t = make_target n p in
      let sel = chosen live n r s.selection t in
      let (answered, selected) =
        use_ccu-some live n r name s t (told_found n ps default_profile name p h found) in
      let (listing, connected) =
        list-chosen live n r (use_ccu live n r name s).1 sel t selected
          (chosen-active live n ps default_profile name p s.selection h found) in
      inl (
        p,
        told live n r sel p.name p,
        map (told live n r sel p.name) ps,
        found,
        answered,
        refl,
        refl,
        listing ∙ listed_infos live n ps default_profile sel p h,
        filter-told live n r sel (n.lower name) p ps h found,
        connected,
      )
]
