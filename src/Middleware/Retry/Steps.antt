-- ===== src/Middleware/Retry/Steps.antt =====
-- src/middleware/retry.ts: `withRetry` does to a state what its attempts, its waiting and its tokens do.
use ccu_mcp.Prelude.{ℕ, zero, suc, ◌+◌, ◌≤◌, ◌≡◌, String, arith}
use ccu_mcp.Action.{Outcome, ok, thrown, Action, pure, throw}
use ccu_mcp.Action.Ends.{IfOk, settle-Ends, if-Ends, bind-IfOk}
use ccu_mcp.Action.Respects.{
  Respects, pure-Respects, throw-Respects, bind-Respects, try-Respects, if-Respects,
}
use ccu_mcp.Middleware.Retry.{non_idempotent, is_retriable, one_retry, attempts, with_retry}

module _ {S T : Type 0} (R : S → S → Type 0) (stay : (s : S) → R s s)
    (chain : (a b c : S) → R a b → R b c → R a c) (sleep : ℕ → Action S (Unit {0}))
    (acquire : Action S (Unit {0})) (fn : Action S T)
    (slept : (n : ℕ) → Respects R stay chain (sleep n)) (paid : Respects R stay chain acquire)
    (sent : Respects R stay chain fn) where
  attempts-Respects : (n : ℕ) → Respects R stay chain (attempts sleep (one_retry acquire) fn n)
  unfolding attempts
  attempts-Respects zero =
      try-Respects R stay chain fn _ _ sent (pure-Respects R stay chain)
        (throw-Respects R stay chain T)
  attempts-Respects (suc n) =
      try-Respects R stay chain fn _ _ sent (pure-Respects R stay chain) λ e.
        if-Respects R stay chain (is_retriable e) _ _
          (bind-Respects R stay chain (sleep 1000) _ (slept 1000)
            λ u. bind-Respects R stay chain acquire _ paid λ w. attempts-Respects n)
          (throw-Respects R stay chain T e)

  pub with_retry-Respects :
      (label : String) → Respects R stay chain (with_retry sleep (one_retry acquire) fn label)
  unfolding with_retry
  with_retry-Respects label =
      if-Respects R stay chain (non_idempotent label) _ _ sent (attempts-Respects 1)

-- A count that an attempt raises by one, and that waiting and tokens leave.
module _ {S T : Type 0} (sleep : ℕ → Action S (Unit {0})) (acquire : Action S (Unit {0}))
    (fn : Action S T) (count : S → ℕ) (slept : (n : ℕ) (s : S) → count (sleep n s).1 ≡ count s)
    (paid : (s : S) → count (acquire s).1 ≡ count s)
    (sent : (s : S) → count (fn s).1 ≡ count s + 1) where
  attempts-count :
      (n : ℕ) (s : S)
      → (count s + 1 ≤ count (attempts sleep (one_retry acquire) fn n s).1)
        × (count (attempts sleep (one_retry acquire) fn n s).1 ≤ count s + 1 + n)
  unfolding attempts
  attempts-count zero s = ground (arith, sent s)
  attempts-count (suc n) s =
      let first = (fn s).1 in
      let late = (sleep 1000 first).1 in
      let ready = (acquire late).1 in
      ground (arith, sent s, slept 1000 first, paid late, attempts-count n ready)

  pub with_retry-count :
      (label : String) (s : S)
      → (count s + 1 ≤ count (with_retry sleep (one_retry acquire) fn label s).1)
        × (count (with_retry sleep (one_retry acquire) fn label s).1 ≤ count s + 2)
  unfolding with_retry
  with_retry-count label s = ground (arith, sent s, attempts-count 1 s)

-- What holds whenever an attempt is over holds when `withRetry` succeeds.
module _ {S T : Type 0} (sleep : ℕ → Action S (Unit {0})) (acquire : Action S (Unit {0}))
    (fn : Action S T) (P : S → Type 0) (over : (s : S) → P (fn s).1) where
  abbrev Left : Outcome T → S → Type 0
  Left o s = IfOk (λ a s. P s) o s

  succeeded : (o : Outcome T) (s : S) → P s → Left o s
  succeeded (ok a) s p = p
  succeeded (thrown e) s p = tt

  attempts-Left :
      (n : ℕ) (s : S)
      → Left
          (attempts sleep (one_retry acquire) fn n s).0
          (attempts sleep (one_retry acquire) fn n s).1
  unfolding attempts
  attempts-Left zero s = settle-Ends Left (fn s).0 pure throw (fn s).1 (λ a e. over s) λ e h. tt
  attempts-Left (suc n) s =
      settle-Ends Left (fn s).0 pure _ (fn s).1 (λ a e. over s)
        λ e h.
          if-Ends (λ a o b. Left o b) (is_retriable e) _ _
            (λ b.
              bind-IfOk (λ a s. P s) (sleep 1000) _ b
                λ u h'.
                  bind-IfOk (λ a s. P s) acquire _ (sleep 1000 b).1
                    λ w h''. attempts-Left n (acquire (sleep 1000 b).1).1)
            (λ a. tt) (fn s).1

  pub with_retry-IfOk :
      (label : String) (s : S)
      → Left
          (with_retry sleep (one_retry acquire) fn label s).0
          (with_retry sleep (one_retry acquire) fn label s).1
  unfolding with_retry
  with_retry-IfOk label s =
      if-Ends (λ a o b. Left o b) (non_idempotent label) _ _
        (λ s. succeeded (fn s).0 (fn s).1 (over s)) (attempts-Left 1) s
