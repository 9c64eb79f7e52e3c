-- ===== src/Tools/Control/Written.antt =====
-- src/tools/control.ts: what `set_value`, `put_paramset` and `execute_program` have sent when they
-- succeed.
use ccu_mcp.Prelude.{String, Bool, true, false, ◌≡◌, refl, List, [], ◌∷◌, map, ap, if◌then◌else◌}
use ccu_mcp.Action.{Outcome, ok, thrown, pure, continue, ◌>>◌}
use ccu_mcp.Action.Ends.{IfOk, bind-IfOk, IfOk-ok, IfOk-map}
use ccu_mcp.Middleware.Retry.Steps.{with_retry-IfOk}
use ccu_mcp.Ccu.Targets.{Naming, Target}
use ccu_mcp.Tools.Values.{
  Js, Value, Request, Param, Reply, ParamEntry, plain, entries, with_text, show_value,
}
use ccu_mcp.Tools.Target.{ToolState, Services, request, acquire, sleep, retried, gate}
use ccu_mcp.Tools.Control.SetValue.{
  SetValueArgs, SetValueResult, safe_to_retry, interface_of, type_of, read_previous, raw_type,
  new_value_params, set_value,
}
use ccu_mcp.Tools.Control.PutParamset.{
  PutParamsetArgs, refuse_empty, entry_of, param_array, all_safe, paramset_params, put_paramset,
}

module _ {W N : Type 0} (v : Services W N) where
  -- The newest request.
  abbrev pub Newest : Request N → ToolState W N → Type 0
  Newest r s = (before : List (Request N)) × (s.sent ≡ r ∷ before)

  request-Newest :
      (k : String) (ps : List (String × Param N)) (s : ToolState W N)
      → Newest (record { method = k; params = ps }) (request v k ps s).1
  unfolding request
  request-Newest k ps s = (s.sent, refl)

  after_any :
      (P : ToolState W N → Type 0) (o : Outcome (Reply N)) (s : ToolState W N)
      → P s
      → IfOk (λ r s. P s) o s
  after_any P (ok a) s p = p
  after_any P (thrown e) s p = tt

  send-Newest :
      (k : String) (ps : List (String × Param N)) (safe : Bool) (s : ToolState W N)
      → IfOk
          (λ r s'. Newest (record { method = k; params = ps }) s')
          ((if safe then retried v k k ps else request v k ps) s).0
          ((if safe then retried v k k ps else request v k ps) s).1
  unfolding retried
  send-Newest k ps true s =
      with_retry-IfOk (sleep v) (acquire v) (request v k ps)
        (Newest (record { method = k; params = ps })) (request-Newest k ps) k s
  send-Newest k ps false s =
      after_any (Newest (record { method = k; params = ps })) (request v k ps s).0
        (request v k ps s).1 (request-Newest k ps s)

  finish :
      {A B : Type 0} (G : B → ToolState W N → Type 0) (o : Outcome A) (s : ToolState W N) (b : B)
      → IfOk (λ a s. G b s) o s
      → IfOk G (continue o (λ _. pure b) s).0 (continue o (λ _. pure b) s).1
  finish G (ok a) s b g = g
  finish G (thrown e) s b g = tt

  -- The write and what the tool answers.
  write-Newest :
      {B : Type 0} (k : String) (ps : List (String × Param N)) (safe : Bool)
      (G : B → ToolState W N → Type 0) (b : B)
      → ((s' : ToolState W N) → Newest (record { method = k; params = ps }) s' → G b s')
      → (s : ToolState W N)
      → IfOk G
          (((acquire v >> (if safe then retried v k k ps else request v k ps)) >> pure b) s).0
          (((acquire v >> (if safe then retried v k k ps else request v k ps)) >> pure b) s).1
  write-Newest k ps safe G b g s =
      let m = acquire v >> (if safe then retried v k k ps else request v k ps) in
      finish G (m s).0 (m s).1 b (
        bind-IfOk (λ r s'. G b s') (acquire v) _ s
          λ u h.
            IfOk-map (Newest (record { method = k; params = ps })) (G b) _ _
              (send-Newest k ps safe (acquire v s).1) g)

module _ {W N : Type 0} (js : Js N) (v : Services W N) (n : Naming) (t : Target) where
  abbrev Wrote : SetValueArgs N → SetValueResult N → ToolState W N → Type 0
  Wrote args r s =
      Newest v
        (record {
          method = "Interface.setValue";
          params = new_value_params js v n t args r.used_interface r.used_type;
        })
        s
      × (r.new_value ≡ args.value)

  set_value-IfOk :
      (args : SetValueArgs N) (s : ToolState W N)
      → IfOk (Wrote args) (set_value js v n t args s).0 (set_value js v n t args s).1
  unfolding set_value
  set_value-IfOk args s =
      let P = Wrote args in
      let gated = (gate v n t args.confirm false s).1 in
      let found = (interface_of js v n t args.interface_name args.address gated).1 in
      bind-IfOk P (gate v n t args.confirm false) _ s λ u h.
        bind-IfOk P (interface_of js v n t args.interface_name args.address) _ gated λ iface i.
          bind-IfOk P (read_previous js v n t args iface) _ found λ previous r.
            let read = (read_previous js v n t args iface found).1 in
            write-Newest v "Interface.setValue"
              (new_value_params js v n t args iface (type_of js v n t args found))
              (safe_to_retry (raw_type js v n t args read)) P
              (record {
                previous_value = previous;
                new_value = args.value;
                used_interface = iface;
                used_type = type_of js v n t args found;
              })
              (λ s' newest. (newest, refl)) read

  -- When `set_value` succeeds, the last request that it sent is `Interface.setValue` with the address,
  -- the key and the value of the arguments, and with the interface and the type that it reports.
  pub set_value-written :
      (args : SetValueArgs N) (s : ToolState W N) (r : SetValueResult N)
      → (set_value js v n t args s).0 ≡ ok r
      → (r.new_value ≡ args.value)
        × ((before : List (Request N)) × ((set_value js v n t args s).1.sent
              ≡ record {
                method = "Interface.setValue";
                params =
                    with_text "interface" r.used_interface
                    ∷ with_text "address" args.address
                    ∷ with_text "valueKey" args.value_key
                    ∷ with_text "type" r.used_type
                    ∷ ("value", plain args.value)
                    ∷ [];
              }
                ∷ before))
  set_value-written args s r e =
      let p =
        IfOk-ok (Wrote args) (set_value js v n t args s).0 (set_value js v n t args s).1
          (set_value-IfOk args s) r e in
      (p.1, p.0)

  abbrev pub name_and_text : String × Value N → String × String
  name_and_text (name, value) = (name, show_value js value)

  abbrev pub named_text : ParamEntry → String × String
  named_text e = (e.entry_name, e.entry_value)

  map-entries :
      (args : PutParamsetArgs N) (s : ToolState W N) (l : List (String × Value N))
      → map named_text (map (entry_of js v n t args s) l) ≡ map name_and_text l
  map-entries args s [] = refl
  map-entries args s ((name, value) ∷ l) =
      ap (λ rest. (name, show_value js value) ∷ rest) (map-entries args s l)

  abbrev WroteSet : PutParamsetArgs N → List (String × Value N) → ToolState W N → Type 0
  WroteSet args r s =
      (r ≡ args.values)
      × ((iface : String) × ((array : List ParamEntry) × ((map named_text array
                ≡ map name_and_text args.values)
              × Newest v
                  (record {
                    method = "Interface.putParamset";
                    params = paramset_params js v n t args iface array;
                  })
                  s)))

  put_paramset-IfOk :
      (args : PutParamsetArgs N) (s : ToolState W N)
      → IfOk (WroteSet args) (put_paramset js v n t args s).0 (put_paramset js v n t args s).1
  unfolding put_paramset
  put_paramset-IfOk args s =
      let P = WroteSet args in
      let gated = (gate v n t args.confirm false s).1 in
      let checked = (refuse_empty js v n t args.values gated).1 in
      let found = (interface_of js v n t args.interface_name args.address checked).1 in
      bind-IfOk P (gate v n t args.confirm false) _ s λ u h.
        bind-IfOk P (refuse_empty js v n t args.values) _ gated λ w g.
          bind-IfOk P (interface_of js v n t args.interface_name args.address) _ checked λ iface i.
            write-Newest v "Interface.putParamset"
              (paramset_params js v n t args iface (param_array js v n t args found))
              (all_safe js v n t args found) P args.values
              (λ s' newest. (
                refl,
                (
                  iface,
                  (param_array js v n t args found, (map-entries args found args.values, newest)),
                ),
              ))
              found

  -- When `put_paramset` succeeds, the last request that it sent is `Interface.putParamset` with the
  -- address and the paramset of the arguments, and its `set` has their names and values, as texts, in
  -- their order.
  pub put_paramset-written :
      (args : PutParamsetArgs N) (s : ToolState W N) (r : List (String × Value N))
      → (put_paramset js v n t args s).0 ≡ ok r
      → (r ≡ args.values)
        × ((iface : String) × ((array : List ParamEntry) × ((map named_text array
                  ≡ map name_and_text args.values)
                × ((before : List (Request N)) × ((put_paramset js v n t args s).1.sent
                      ≡ record {
                        method = "Interface.putParamset";
                        params =
                            with_text "interface" iface
                            ∷ with_text "address" args.address
                            ∷ with_text "paramsetKey" args.paramset_key
                            ∷ ("set", entries array)
                            ∷ [];
                      }
                        ∷ before)))))
  put_paramset-written args s r e =
      IfOk-ok (WroteSet args) (put_paramset js v n t args s).0 (put_paramset js v n t args s).1
        (put_paramset-IfOk args s) r e
