-- ===== src/Cache/DeviceTypes/Warmed.antt =====
-- src/cache/device-type-cache.ts, `warm`: how it ends, and that it loses nothing.
use ccu_mcp.Prelude.{
  String, Bool, true, false, not, ◌&&◌, ◌≡◌, inl, inr, refl, ap, sym, ◌∙◌, Bool-cases, Option, none,
  some, List, [], ◌∷◌, is_some, arith,
}
use ccu_mcp.Prelude.Dict.{Dict, get, get-set}
use ccu_mcp.Action.{Action, Outcome, ok, thrown, ◌>>=◌, ◌>>◌, pure, modify, settle, try◌}
use ccu_mcp.Errors.{Failure}
use ccu_mcp.Action.Respects.{Respects, bind-Respects, try-Respects}
use ccu_mcp.Cache.DeviceTypes.{
  ParamQuery, ParamDescription, ChannelSchema, FirstDevice, DeviceTypeCache, CacheServices, Job,
  outside, expect, acquire, query, fetch_paramsets, paramset_keys, fetch_from, fetch_channels,
  parse_param_descriptions, store, process_type, process_types, collect, add_devices, save_to_disk,
  warm_all, warm, ended,
}

module _ {W N : Type 0} (v : CacheServices W N) (type : String) where
  -- The type stays known, and `warming` as it is.
  abbrev Keeps : DeviceTypeCache W N → DeviceTypeCache W N → Type 0
  Keeps s t =
      (is_some (get s.cache type) ≡ true → is_some (get t.cache type) ≡ true)
      × (t.warming ≡ s.warming)

  same : (s : DeviceTypeCache W N) → Keeps s s
  same s = (λ h. h, refl)

  chain : (a b c : DeviceTypeCache W N) → Keeps a b → Keeps b c → Keeps a c
  chain a b c p q = (λ h. q.0 (p.0 h), q.1 ∙ p.1)

  abbrev Safe : {A : Type 0} → Job v A → Type 0
  Safe m = Respects Keeps same chain m

  abbrev bind :
      {A B : Type 0} (m : Job v A) (f : A → Job v B)
      → Safe m
      → ((a : A) → Safe (f a))
      → Safe (m >>= f)
  bind = bind-Respects Keeps same chain

  abbrev attempt :
      {A B : Type 0} (m : Job v A) (f : A → Job v B) (g : Failure → Job v B)
      → Safe m
      → ((a : A) → Safe (f a))
      → ((e : Failure) → Safe (g e))
      → Safe (try◌ m f g)
  attempt = try-Respects Keeps same chain

  outside-Safe : {A : Type 0} (m : Action W A) → Safe (outside v m)
  outside-Safe m s = (λ h. h, refl)

  expect-Safe : {A : Type 0} (o : Option (List A)) → Safe (expect v o)
  expect-Safe none = same
  expect-Safe (some l) = same

  acquire-Safe : Safe (acquire v)
  unfolding acquire
  acquire-Safe = outside-Safe v.take_token

  query-Safe : (q : ParamQuery) → Safe (query v q)
  unfolding query
  query-Safe q s =
      bind (outside v (v.describe q) >>= expect v) (λ ps. pure (parse_param_descriptions v ps))
        (bind (outside v (v.describe q)) (expect v) (outside-Safe (v.describe q)) expect-Safe)
        (λ ps. same) (record s { asked = q ∷ s.asked })

  fetch_paramsets-Safe :
      (iface address : String) (keys : List String) (sets : Dict (Dict (ParamDescription N)))
      → Safe (fetch_paramsets v iface address keys sets)
  unfolding fetch_paramsets
  fetch_paramsets-Safe iface address [] sets = same
  fetch_paramsets-Safe iface address (key ∷ keys) sets = bind (acquire v) _ acquire-Safe λ u.
      attempt (query v _) _ _ (query-Safe _) (λ params. fetch_paramsets-Safe iface address keys _)
        λ e. fetch_paramsets-Safe iface address keys sets

  fetch_from-Safe :
      (iface : String) (channels : List String) (before : Dict (ChannelSchema N))
      → Safe (fetch_from v iface channels before)
  unfolding fetch_from
  fetch_from-Safe iface [] before = same
  fetch_from-Safe iface (a ∷ rest) before =
      bind (fetch_paramsets v iface a paramset_keys []) _
        (fetch_paramsets-Safe iface a paramset_keys []) λ sets. fetch_from-Safe iface rest _

  store-Safe :
      (device_type iface : String) (channels : Dict (ChannelSchema N))
      → Safe (store v device_type iface channels)
  store-Safe device_type iface channels s = (
    λ h. ground (
      arith,
      h,
      get-set s.cache device_type type (record { interface = iface; channels = channels }),
    ),
    refl,
  )

  process_type-Safe :
      (device_type : String) (info : FirstDevice) → Safe (process_type v device_type info)
  unfolding process_type fetch_channels
  process_type-Safe device_type info =
      attempt _ _ _ (fetch_from-Safe info.on_interface info.addresses [])
        (store-Safe device_type info.on_interface) λ e. same

  process_types-Safe : (found : Dict FirstDevice) → Safe (process_types v found)
  unfolding process_types
  process_types-Safe [] = same
  process_types-Safe ((t, info) ∷ rest) =
      bind (process_type v t info) _ (process_type-Safe t info) λ u. process_types-Safe rest

  collect-Safe : (ifaces : List String) (found : Dict FirstDevice) → Safe (collect v ifaces found)
  unfolding collect
  collect-Safe [] found = same
  collect-Safe (iface ∷ rest) found = bind (acquire v) _ acquire-Safe λ u.
      attempt _ _ _ (bind _ _ (outside-Safe (v.list_devices iface)) expect-Safe)
        (λ ds. collect-Safe rest (add_devices iface found ds)) λ e. collect-Safe rest found

  save_to_disk-Safe : Safe (save_to_disk v)
  unfolding save_to_disk
  save_to_disk-Safe s = (λ h. ground (arith, h), ground arith)

  warm_all-Safe : Safe (warm_all v)
  unfolding warm_all
  warm_all-Safe =
      let m1 : Job v (Option (List String)) = acquire v >> outside v v.list_interfaces in
      let m2 : Job v (List String) = m1 >>= expect v in
      let all : List String → Job v (Dict FirstDevice) = λ l. collect v l [] in
      let m3 : Job v (Dict FirstDevice) = m2 >>= all in
      let m4 : Job v (Unit {0}) = m3 >>= process_types v in
      let s1 =
        bind (acquire v) (λ u. outside v v.list_interfaces) acquire-Safe
          λ u. outside-Safe v.list_interfaces in
      let s2 = bind m1 (expect v) s1 expect-Safe in
      let s3 = bind m2 all s2 λ l. collect-Safe l [] in
      let s4 = bind m3 (process_types v) s3 process_types-Safe in
      let s5 = bind m4 (λ u. save_to_disk v) s4 λ u. save_to_disk-Safe in
      bind (m4 >> save_to_disk v) (λ u. modify (λ s. record s { stale = false })) s5
        λ u s. (λ h. h, refl)

  finally :
      (o : Outcome (Unit {0})) (t : DeviceTypeCache W N)
      → settle o (λ u. ended v) (λ e. ended v) t ≡ (ok tt, record t { warming = false })
  finally (ok u) t = refl
  finally (thrown e) t = refl

  abbrev warmed : DeviceTypeCache W N → DeviceTypeCache W N
  warmed s = (warm_all v (record s { warming = true })).1

  warm_run :
      (s : DeviceTypeCache W N)
      → s.warming ≡ false
      → warm v s ≡ (ok tt, record (warmed s) { warming = false })
  unfolding warm
  warm_run s idle = rw idle (finally (warm_all v (record s { warming = true })).0 (warmed s))

  abbrev pub knows : DeviceTypeCache W N → Bool
  knows s = is_some (get s.cache type)

  -- `knows` before and not after: what must not happen.
  abbrev pub forgets : DeviceTypeCache W N → DeviceTypeCache W N → Bool
  forgets s t = knows s && not (knows t)

  never_forgets : (s t : DeviceTypeCache W N) → Keeps s t → forgets s t ≡ false
  never_forgets s t k = elim (Bool-cases (knows s)) [
    | inl h ↦ rw (h, k.0 h) refl
    | inr h ↦ rw h refl
  ]

  -- From any state, whatever the CCU and the disk do: warming never throws, it leaves `warming` as it was, so
  -- none of its own behind, and it forgets no type.
  pub warm_safe :
      (s : DeviceTypeCache W N)
      → ((warm v s).0 ≡ ok tt)
        × ((warm v s).1.warming ≡ s.warming)
        × (forgets s (warm v s).1 ≡ false)
  unfolding warm
  warm_safe s = elim (Bool-cases s.warming) [
    | inl busy ↦ (rw busy refl, rw busy refl, rw busy (never_forgets s s (same s)))
    | inr idle ↦
        let e = warm_run s idle in
        (
          ap (λ (p : Outcome (Unit {0}) × DeviceTypeCache W N). p.0) e,
          ap (λ (p : Outcome (Unit {0}) × DeviceTypeCache W N). p.1.warming) e ∙ sym idle,
          ap (λ (p : Outcome (Unit {0}) × DeviceTypeCache W N). forgets s p.1) e
              ∙ never_forgets s (record (warmed s) { warming = false })
                  ((warm_all-Safe (record s { warming = true })).0, sym idle),
        )
  ]
