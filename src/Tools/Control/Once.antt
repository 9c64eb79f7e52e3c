-- ===== src/Tools/Control/Once.antt =====
-- src/tools/control.ts: how often `set_value` and `put_paramset` send their write.
use ccu_mcp.Prelude.{
  ℕ, ◌+◌, ◌≤◌, String, Bool, true, false, not, ◌&&◌, ◌||◌, ◌≡◌, refl, sym, Option, none, some, List,
  [], ◌∷◌, ◌===◌, all, arith, if◌then◌else◌,
}
use ccu_mcp.Errors.{Failure}
use ccu_mcp.Action.{Outcome, ok, thrown, Action, pure, ◌>>◌}
use ccu_mcp.Action.Respects.{bind-Respects, if-Respects, try-Respects}
use ccu_mcp.Action.Ends.{bind-Ends, state-result}
use ccu_mcp.Middleware.Resolver.{resolve_raw_param_type}
use ccu_mcp.Ccu.Targets.{Naming, Target}
use ccu_mcp.Tools.Values.{Js, Value, Param, Reply}
use ccu_mcp.Tools.Target.{ToolState, Services, request, acquire, retried, gate}
use ccu_mcp.Tools.Steps.{
  count, Keeps, retried-Keeps, resolve_interface-Keeps, Quiet, quiet_stay, quiet_chain, quiet-Steps,
  quiet_learns, others, retried-count, request-count, Same, same_stay, same_chain, same-Steps,
}
use ccu_mcp.Tools.Control.SetValue.{
  SetValueArgs, SetValueResult, safe_to_retry, interface_of, type_of, read_previous, raw_type,
  new_value_params, set_value,
}
use ccu_mcp.Tools.Control.PutParamset.{
  PutParamsetArgs, refuse_empty, param_array, all_safe, paramset_params, put_paramset,
}

-- The type is known, and it is not ACTION.
abbrev pub no_action : Option String → Bool
no_action none = false
no_action (some raw) = not (raw === "ACTION")

module _ {W N : Type 0} (v : Services W N) where
  -- The most requests that a write takes.
  abbrev pub most : Bool → ℕ
  most safe = if safe then 2 else 1

  abbrev write : String → List (String × Param N) → Bool → Action (ToolState W N) (Reply N)
  write k ps safe = acquire v >> (if safe then retried v k k ps else request v k ps)

  module _ (k : String) where
    send-count :
        (ps : List (String × Param N)) (safe : Bool) (s : ToolState W N)
        → count k ((if safe then retried v k k ps else request v k ps) s).1.sent
          ≤ count k s.sent + most safe
    send-count ps true s = (retried-count v k k ps s).1
    send-count ps false s = omega (arith, request-count v k ps s)

    write-count :
        (ps : List (String × Param N)) (safe : Bool) (s : ToolState W N)
        → count k (write k ps safe s).1.sent ≤ count k s.sent + most safe
    write-count ps safe =
        bind-Ends (Quiet v k) (λ s o s'. count k s'.sent ≤ count k s.sent + most safe)
          (λ a b e q. omega (arith, q)) (λ a b c o q h. omega (arith, q, h)) (acquire v) _
          (quiet-Steps v k).pays λ u. send-count ps safe

    write-Same :
        (ps : List (String × Param N)) (safe : Bool)
        → Keeps v (Same v) (same_stay v) (same_chain v) (write k ps safe)
    write-Same ps safe =
        bind-Respects (Same v) (same_stay v) (same_chain v) (acquire v) _ (same-Steps v).pays λ u.
          if-Respects (Same v) (same_stay v) (same_chain v) safe _ _
            (retried-Keeps v (Same v) (same_stay v) (same_chain v) (same-Steps v) k k ps refl)
            ((same-Steps v).asks k ps refl)

    module _ (A : Type 0) (decide : ToolState W N → Bool) where
      -- The bound for a run, by what is known when it ends.
      abbrev pub Bounded : ToolState W N → Outcome A → ToolState W N → Type 0
      Bounded s o s' = count k s'.sent ≤ count k s.sent + most (decide s')

      pub Bounded-fails :
          (a b : ToolState W N) (e : Failure) → Quiet v k a b → Bounded a (thrown e) b
      Bounded-fails a b e q = omega (arith, q)

      pub Bounded-before :
          (a b c : ToolState W N) (o : Outcome A) → Quiet v k a b → Bounded b o c → Bounded a o c
      Bounded-before a b c o q h = omega (arith, q, h)

      pub write-Bounded :
          (stable : (s s' : ToolState W N) → Same v s s' → decide s' ≡ decide s)
          (ps : List (String × Param N)) (result : A) (s : ToolState W N)
          → Bounded s (ok result) ((write k ps (decide s) >> pure result) s).1
      write-Bounded stable ps result s = rw (state-result (write k ps (decide s)) (λ _. result) s) (
          rw (stable s (write k ps (decide s) s).1 (write-Same ps (decide s) s))
            (write-count ps (decide s) s))

module _ {W N : Type 0} (v : Services W N) (k : String) where
  abbrev Calm {ℓ} : {A : Type ℓ} → Action (ToolState W N) A → Type 0
  Calm m = Keeps v (Quiet v k) (quiet_stay v k) (quiet_chain v k) m

  pub gate-Calm :
      (n : Naming) (t : Target) (confirm : Option Bool) (always : Bool)
      → Calm (gate v n t confirm always)
  unfolding gate
  gate-Calm n t confirm always s = refl

  pub interface-Calm :
      (js : Js N) (n : Naming) (t : Target) (iface : Option String) (address : String)
      → others v k "Device.listAllDetail" ≡ true
      → Calm (interface_of js v n t iface address)
  interface-Calm js n t (some i) address h = λ s. refl
  interface-Calm js n t none address h =
      resolve_interface-Keeps v (Quiet v k) (quiet_stay v k) (quiet_chain v k) (quiet-Steps v k)
        (quiet_learns v k) h address

module _ {W N : Type 0} (js : Js N) (v : Services W N) (n : Naming) (t : Target) where
  safe_at : SetValueArgs N → ToolState W N → Bool
  safe_at args s = safe_to_retry (raw_type js v n t args s)

  read-Calm :
      (args : SetValueArgs N) (iface : String)
      → Calm v "Interface.setValue" (read_previous js v n t args iface)
  read-Calm args iface =
      let k : String = "Interface.setValue" in
      try-Respects (Quiet v k) (quiet_stay v k) (quiet_chain v k) _ _ _
        (bind-Respects (Quiet v k) (quiet_stay v k) (quiet_chain v k) (acquire v) _
          (quiet-Steps v k).pays λ u. (quiet-Steps v k).asks "Interface.getValue" _ refl)
        (λ a s. refl) (λ e s. refl)

  safe-Same :
      (args : SetValueArgs N) (s s' : ToolState W N)
      → Same v s s'
      → safe_at args s' ≡ safe_at args s
  unfolding safe_at
  safe-Same args s s' h = rw h.0 (rw h.1 refl)

  set_value-Bounded :
      (args : SetValueArgs N) (s : ToolState W N)
      → count "Interface.setValue" (set_value js v n t args s).1.sent
        ≤ count "Interface.setValue" s.sent + most v (safe_at args (set_value js v n t args s).1)
  unfolding set_value safe_at
  set_value-Bounded args =
      let k : String = "Interface.setValue" in
      let fails = Bounded-fails v k (SetValueResult N) (safe_at args) in
      let before = Bounded-before v k (SetValueResult N) (safe_at args) in
      let B = Bounded v k (SetValueResult N) (safe_at args) in
      bind-Ends (Quiet v k) B fails before (gate v n t args.confirm false) _
        (gate-Calm v k n t args.confirm false)
        λ u.
          bind-Ends (Quiet v k) B fails before
            (interface_of js v n t args.interface_name args.address) _
            (interface-Calm v k js n t args.interface_name args.address refl)
            λ iface s.
              let type = type_of js v n t args s in
              bind-Ends (Quiet v k) B fails before (read_previous js v n t args iface) _
                (read-Calm args iface)
                (λ previous s'.
                  write-Bounded v k (SetValueResult N) (safe_at args) (safe-Same args)
                    (new_value_params js v n t args iface type)
                    (record {
                      previous_value = previous;
                      new_value = args.value;
                      used_interface = iface;
                      used_type = type;
                    })
                    s')
                s

  no_action-safe : (raw : Option String) → safe_to_retry raw ≡ no_action raw
  no_action-safe none = refl
  no_action-safe (some raw) = refl

  -- `set_value` sends `Interface.setValue` once at most, unless the schema that is known when it ends
  -- says that the parameter is no ACTION: then twice at most.
  pub set_value-count :
      (args : SetValueArgs N) (s : ToolState W N)
      → count "Interface.setValue" (set_value js v n t args s).1.sent
        ≤ count "Interface.setValue" s.sent
          + (if no_action (raw_type js v n t args (set_value js v n t args s).1) then 2 else 1)
  unfolding safe_at
  set_value-count args s =
      rw (sym (no_action-safe (raw_type js v n t args (set_value js v n t args s).1)))
        (set_value-Bounded args s)

  safe_put : PutParamsetArgs N → ToolState W N → Bool
  safe_put args s = all_safe js v n t args s

  put-Same :
      (args : PutParamsetArgs N) (s s' : ToolState W N)
      → Same v s s'
      → safe_put args s' ≡ safe_put args s
  unfolding safe_put
  put-Same args s s' h = rw h.0 (rw h.1 refl)

  empty-Calm :
      (k : String) (values : List (String × Value N)) → Calm v k (refuse_empty js v n t values)
  empty-Calm k [] s = refl
  empty-Calm k (x ∷ xs) s = refl

  put_paramset-Bounded :
      (args : PutParamsetArgs N) (s : ToolState W N)
      → count "Interface.putParamset" (put_paramset js v n t args s).1.sent
        ≤ count "Interface.putParamset" s.sent
          + most v (safe_put args (put_paramset js v n t args s).1)
  unfolding put_paramset safe_put
  put_paramset-Bounded args =
      let k : String = "Interface.putParamset" in
      let A = List (String × Value N) in
      let fails = Bounded-fails v k A (safe_put args) in
      let before = Bounded-before v k A (safe_put args) in
      let B = Bounded v k A (safe_put args) in
      bind-Ends (Quiet v k) B fails before (gate v n t args.confirm false) _
        (gate-Calm v k n t args.confirm false)
        λ u.
          bind-Ends (Quiet v k) B fails before (refuse_empty js v n t args.values) _
            (empty-Calm k args.values)
            λ w.
              bind-Ends (Quiet v k) B fails before
                (interface_of js v n t args.interface_name args.address) _
                (interface-Calm v k js n t args.interface_name args.address refl)
                λ iface s.
                  write-Bounded v k A (safe_put args) (put-Same args)
                    (paramset_params js v n t args iface (param_array js v n t args s)) args.values
                    s

  -- Every parameter is known to be no ACTION.
  abbrev pub no_actions : PutParamsetArgs N → ToolState W N → List (String × Value N) → Bool
  no_actions args s [] = true
  no_actions args s (e ∷ l) =
      no_action
        (resolve_raw_param_type s.resolver s.device_types args.address e.0 args.paramset_key)
      && no_actions args s l

  no_actions-safe :
      (args : PutParamsetArgs N) (s : ToolState W N) (l : List (String × Value N))
      → all
          (λ e.
            safe_to_retry
              (resolve_raw_param_type s.resolver s.device_types args.address e.0 args.paramset_key))
          l
        ≡ no_actions args s l
  no_actions-safe args s [] = refl
  no_actions-safe args s (e ∷ l) =
      rw
        (no_action-safe
          (resolve_raw_param_type s.resolver s.device_types args.address e.0 args.paramset_key))
        (rw (no_actions-safe args s l) refl)

  -- `put_paramset` sends `Interface.putParamset` once at most, unless it writes the MASTER paramset or
  -- the schemas that are known when it ends say of every parameter that it is no ACTION: then twice at
  -- most.
  pub put_paramset-count :
      (args : PutParamsetArgs N) (s : ToolState W N)
      → count "Interface.putParamset" (put_paramset js v n t args s).1.sent
        ≤ count "Interface.putParamset" s.sent
          + (if args.paramset_key === "MASTER"
                || no_actions args (put_paramset js v n t args s).1 args.values
              then 2
              else 1)
  unfolding safe_put
  put_paramset-count args s =
      rw (sym (no_actions-safe args (put_paramset js v n t args s).1 args.values))
        (put_paramset-Bounded args s)
