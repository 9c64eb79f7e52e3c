-- ===== src/Tools/Steps.antt =====
-- What tools do to the state, from what their requests do.
use package.text.Mathlib.TextPositions.{eq_refl}
use ccu_mcp.Prelude.{
  ℕ, suc, ◌+◌, ◌≤◌, String, Bool, true, not, ◌≡◌, refl, ◌∙◌, Option, none, some, List, [], ◌∷◌,
  ◌===◌, arith, if◌then◌else◌,
}
use ccu_mcp.Action.{Action}
use ccu_mcp.Action.Respects.{Respects, pure-Respects, bind-Respects, if-Respects}
use ccu_mcp.Middleware.Retry.Steps.{with_retry-Respects, with_retry-count}
use ccu_mcp.Middleware.Resolver.{CcuDevice, update_device_list}
use ccu_mcp.Tools.Values.{Request, Param, Reply, null, flag, amount, text, object, items}
use ccu_mcp.Tools.Target.{
  ToolState, Services, request, acquire, sleep, retried, paid, expect_array, fetch_items,
  fetch_devices, refresh, resolve_interface, found_interface, known_interface, or_refreshed,
}

-- How many requests have this method.
unfoldable pub count : {N : Type 0} → String → List (Request N) → ℕ
count m [] = 0
count m (r ∷ rs) = let rest = count m rs in if r.method === m then suc rest else rest

module _ {W N : Type 0} (v : Services W N) (R : ToolState W N → ToolState W N → Type 0)
    (stay : (s : ToolState W N) → R s s)
    (chain : (a b c : ToolState W N) → R a b → R b c → R a c) where
  abbrev pub Keeps {ℓ} : {A : Type ℓ} → Action (ToolState W N) A → Type 0
  Keeps m = Respects R stay chain m

  -- What a request with an allowed method, a token, a wait and a new device list do.
  pub record Steps (allowed : String → Bool) : Type 0 where
    pub asks :
        (m : String) (ps : List (String × Param N)) → allowed m ≡ true → Keeps (request v m ps)
    pub pays : Keeps (acquire v)
    pub waits : (ms : ℕ) → Keeps (sleep v ms)

  -- A new device list.
  abbrev pub Learns : Type 0
  Learns =
      (l : List CcuDevice) (s : ToolState W N) → R s (record s { resolver = update_device_list l })

  module _ {allowed : String → Bool} (b : Steps allowed) where
    open b use {asks, pays, waits}

    pub retried-Keeps :
        (label m : String) (ps : List (String × Param N))
        → allowed m ≡ true
        → Keeps (retried v label m ps)
    unfolding retried
    retried-Keeps label m ps h =
        with_retry-Respects R stay chain (sleep v) (acquire v) (request v m ps) waits pays
          (asks m ps h) label

    pub paid-Keeps :
        (m : String) (ps : List (String × Param N)) → allowed m ≡ true → Keeps (paid v m ps)
    paid-Keeps m ps h = bind-Respects R stay chain (acquire v) _ pays λ u. retried-Keeps m m ps h

    expect_array-Keeps : (r : Reply N) → Keeps (expect_array v r)
    unfolding expect_array
    expect_array-Keeps (items l) = pure-Respects R stay chain l
    expect_array-Keeps null = λ s. stay s
    expect_array-Keeps (flag c) = λ s. stay s
    expect_array-Keeps (amount c) = λ s. stay s
    expect_array-Keeps (text c) = λ s. stay s
    expect_array-Keeps object = λ s. stay s

    pub fetch_items-Keeps : (m : String) → allowed m ≡ true → Keeps (fetch_items v m)
    fetch_items-Keeps m h =
        bind-Respects R stay chain (paid v m []) _ (paid-Keeps m [] h) expect_array-Keeps

    pub fetch_devices-Keeps : allowed "Device.listAllDetail" ≡ true → Keeps (fetch_devices v)
    fetch_devices-Keeps h =
        bind-Respects R stay chain (fetch_items v "Device.listAllDetail") _
          (fetch_items-Keeps "Device.listAllDetail" h) λ l s. stay s

    module _ (learns : Learns) (h : allowed "Device.listAllDetail" ≡ true) where
      refresh-Keeps : Keeps (refresh v)
      unfolding refresh
      refresh-Keeps =
          bind-Respects R stay chain (fetch_devices v) _ (fetch_devices-Keeps h) λ l s. learns l s

      found-Keeps : (address : String) (o : Option String) → Keeps (found_interface v address o)
      found-Keeps address none = λ s. stay s
      found-Keeps address (some i) =
          if-Respects R stay chain (i === "") _ _ (λ s. stay s) (pure-Respects R stay chain i)

      known-Keeps : (address : String) → Keeps (known_interface v address)
      known-Keeps address s = stay s

      or_refreshed-Keeps : (address : String) (o : Option String) → Keeps (or_refreshed v address o)
      or_refreshed-Keeps address (some i) = pure-Respects R stay chain i
      or_refreshed-Keeps address none = bind-Respects R stay chain (refresh v) _ refresh-Keeps λ u.
          bind-Respects R stay chain (known_interface v address) (found_interface v address)
            (known-Keeps address) (found-Keeps address)

      pub resolve_interface-Keeps : (address : String) → Keeps (resolve_interface v address)
      unfolding resolve_interface
      resolve_interface-Keeps address =
          bind-Respects R stay chain (known_interface v address) (or_refreshed v address)
            (known-Keeps address) (or_refreshed-Keeps address)

-- The requests with a method `k`: other requests leave their number.
module _ {W N : Type 0} (v : Services W N) (k : String) where
  abbrev pub Quiet : ToolState W N → ToolState W N → Type 0
  Quiet s s' = count k s'.sent ≡ count k s.sent

  abbrev pub quiet_stay : (s : ToolState W N) → Quiet s s
  quiet_stay s = refl

  abbrev pub quiet_chain : (a b c : ToolState W N) → Quiet a b → Quiet b c → Quiet a c
  quiet_chain a b c h g = g ∙ h

  abbrev pub others : String → Bool
  others m = not (m === k)

  pub quiet-Steps : Steps v Quiet quiet_stay quiet_chain others
  unfolding request acquire sleep count
  quiet-Steps = record { asks = λ m ps h s. ground arith; pays = λ s. refl; waits = λ ms s. refl }

  pub quiet_learns : Learns v Quiet quiet_stay quiet_chain
  quiet_learns l s = refl

  -- A retried request with that method is sent once or twice.
  pub retried-count :
      (label : String) (ps : List (String × Param N)) (s : ToolState W N)
      → (count k s.sent + 1 ≤ count k (retried v label k ps s).1.sent)
        × (count k (retried v label k ps s).1.sent ≤ count k s.sent + 2)
  unfolding retried request acquire sleep count
  retried-count label ps s =
      with_retry-count (sleep v) (acquire v) (request v k ps) (λ s. count k s.sent) (λ n s. refl)
        (λ s. refl) (λ s. ground (arith, eq_refl k)) label s

  pub request-count :
      (ps : List (String × Param N)) (s : ToolState W N)
      → count k (request v k ps s).1.sent ≡ count k s.sent + 1
  unfolding request count
  request-count ps s = ground (arith, eq_refl k)

-- What the resolver and the cache of device types know stays, unless the device list is fetched.
module _ {W N : Type 0} (v : Services W N) where
  abbrev pub Same : ToolState W N → ToolState W N → Type 0
  Same s s' = (s'.resolver ≡ s.resolver) × (s'.device_types ≡ s.device_types)

  abbrev pub same_stay : (s : ToolState W N) → Same s s
  same_stay s = (refl, refl)

  abbrev pub same_chain : (a b c : ToolState W N) → Same a b → Same b c → Same a c
  same_chain a b c h g = (g.0 ∙ h.0, g.1 ∙ h.1)

  pub same-Steps : Steps v Same same_stay same_chain (λ m. true)
  unfolding request acquire sleep
  same-Steps = record {
    asks = λ m ps h s. (refl, refl);
    pays = λ s. (refl, refl);
    waits = λ ms s. (refl, refl);
  }
