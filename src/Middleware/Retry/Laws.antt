-- ===== src/Middleware/Retry/Laws.antt =====
-- How often src/middleware/retry.ts sends a request, and what it lets through.
use ccu_mcp.Prelude.{ℕ, zero, suc, ◌+◌, ◌≤◌, ◌≡◌, refl, String, true, false, arith, ◌⊎◌, inl, inr}
use ccu_mcp.Errors.{Failure, ccu, JsError, map_network_error, mentions_mismatch, cause_message}
use ccu_mcp.Errors.Mapping.{map_network_error_categories}
use ccu_mcp.Action.{ok, thrown, Outcome-cases, Action}
use ccu_mcp.Middleware.Retry.{non_idempotent, is_retriable, RetryOptions, pay, attempts, with_retry}

module _ {S T : Type 0} (sleep : ℕ → Action S (Unit {0})) (options : RetryOptions S)
    (fn : Action S T) (sent paid : S → ℕ) where
  -- `sent` counts the requests and `paid` the tokens: a request counts once and takes no token, and
  -- waiting for a token or for time sends nothing.
  pub record Counts : Type 0 where
    pub sends : (s : S) → sent (fn s).1 ≡ sent s + 1
    pub sends_free : (s : S) → paid (fn s).1 ≡ paid s
    pub sleep_sent : (n : ℕ) (s : S) → sent (sleep n s).1 ≡ sent s
    pub sleep_paid : (n : ℕ) (s : S) → paid (sleep n s).1 ≡ paid s
    pub pay_sent : (s : S) → sent (pay options.rate_limiter s).1 ≡ sent s
    pub pay_paid : (s : S) → paid s ≤ paid (pay options.rate_limiter s).1
    pub pay_ok :
        (s : S)
        → (pay options.rate_limiter s).0 ≡ ok tt
        → paid (pay options.rate_limiter s).1 ≡ paid s + 1

  -- `acquire` and `sleep` fail, if at all, with an error that is not retriable.
  pub record FailsForGood : Type 0 where
    pub at_sleep : (n : ℕ) (s : S) (e : Failure) → (sleep n s).0 ≡ thrown e → is_retriable e ≡ false
    pub at_pay :
        (s : S) (e : Failure) → (pay options.rate_limiter s).0 ≡ thrown e → is_retriable e ≡ false

  module _ (c : Counts) where
    open c use {sends, sends_free, sleep_sent, sleep_paid, pay_sent, pay_paid, pay_ok}

    attempts-sent :
        (n : ℕ) (s : S)
        → (sent (attempts sleep options fn n s).1 ≤ sent s + 1 + n)
          × (sent (attempts sleep options fn n s).1 + paid s
              ≤ sent s + 1 + paid (attempts sleep options fn n s).1)
    unfolding attempts
    attempts-sent zero s = ground (arith, sends s, sends_free s)
    attempts-sent (suc n) s =
        let failed = (fn s).1 in
        let slept = (sleep options.delay_ms failed).1 in
        let ready = (pay options.rate_limiter slept).1 in
        ground (
          arith,
          sends s,
          sends_free s,
          sleep_sent options.delay_ms failed,
          sleep_paid options.delay_ms failed,
          pay_sent slept,
          pay_paid slept,
          pay_ok slept,
          attempts-sent n ready,
        )

    -- However the request and the limiter behave, one call of `withRetry` sends the request at most
    -- once more than it may retry, and at most once more than it takes tokens: the first attempt is paid
    -- by the caller, and every retry by a token of its own.
    pub with_retry-sent :
        (method : String) (s : S)
        → (sent (with_retry sleep options fn method s).1 ≤ sent s + 1 + options.max_retries)
          × (sent (with_retry sleep options fn method s).1 + paid s
              ≤ sent s + 1 + paid (with_retry sleep options fn method s).1)
    unfolding with_retry
    with_retry-sent method s =
        ground (arith, sends s, sends_free s, attempts-sent options.max_retries s)

    attempts_exhausted :
        (f : FailsForGood) (n : ℕ) (s : S) (e : Failure)
        → (attempts sleep options fn n s).0 ≡ thrown e
        → is_retriable e ≡ true
        → sent (attempts sleep options fn n s).1 ≡ sent s + 1 + n
    unfolding attempts
    attempts_exhausted f zero s e failed transient = ground (arith, sends s)
    attempts_exhausted f (suc n) s e failed transient =
        let first = (fn s).1 in
        let slept = (sleep options.delay_ms first).1 in
        let ready = (pay options.rate_limiter slept).1 in
        ground (
          arith,
          sends s,
          sleep_sent options.delay_ms first,
          pay_sent slept,
          f.at_sleep options.delay_ms first e,
          f.at_pay slept e,
          attempts_exhausted f n ready e,
        )

    -- When `withRetry` of a method that may be retried fails with a transient error, it has used all its
    -- attempts: the limiter's own refusals are never transient.
    pub with_retry_exhausted :
        (f : FailsForGood) (method : String) (s : S) (e : Failure)
        → non_idempotent method ≡ false
        → (with_retry sleep options fn method s).0 ≡ thrown e
        → is_retriable e ≡ true
        → sent (with_retry sleep options fn method s).1 ≡ sent s + 1 + options.max_retries
    unfolding with_retry
    with_retry_exhausted f method s e idempotent failed transient =
        ground (arith, attempts_exhausted f options.max_retries s e)

mismatch-not-retriable :
    (e : JsError) (failing : String)
    → mentions_mismatch (cause_message e) ≡ true
    → is_retriable (ccu (map_network_error e failing)) ≡ false
unfolding is_retriable
mismatch-not-retriable e failing mismatch =
    rw ((map_network_error_categories e failing).0.1 mismatch) refl

module _ {S T : Type 0} (sleep : ℕ → Action S (Unit {0})) (options : RetryOptions S)
    (fn : Action S T) where
  attempts_once :
      (n : ℕ) (s : S)
      → ((e : Failure) → (fn s).0 ≡ thrown e → is_retriable e ≡ false)
      → attempts sleep options fn n s ≡ fn s
  unfolding attempts
  attempts_once zero s h = ground arith
  attempts_once (suc n) s h = elim (Outcome-cases (fn s).0) [
    | inl (a, done) ↦ ground arith
    | inr (e, failed) ↦ ground (arith, h e)
  ]

  -- A request that succeeds, or that fails for a reason that is not transient, is sent once, and so is
  -- any request of `Program.execute` and `ReGa.runScript`: the call is then the request itself.
  pub with_retry_once :
      (method : String) (s : S)
      → (non_idempotent method ≡ true)
        ⊎ ((e : Failure) → (fn s).0 ≡ thrown e → is_retriable e ≡ false)
      → with_retry sleep options fn method s ≡ fn s
  unfolding with_retry
  with_retry_once method s (inl fixed) = rw fixed refl
  with_retry_once method s (inr final) = ground (arith, attempts_once options.max_retries s final)

  -- A certificate that does not match the pinned fingerprint ends the call at once, whatever the method
  -- and the number of retries allowed.
  pub mismatch_not_retried :
      (method : String) (s : S) (e : JsError) (failing : String)
      → (fn s).0 ≡ thrown (ccu (map_network_error e failing))
      → mentions_mismatch (cause_message e) ≡ true
      → with_retry sleep options fn method s ≡ fn s
  mismatch_not_retried method s e failing failed mismatch = with_retry_once method s (
      inr λ e' same.
        let known : e' ≡ ccu (map_network_error e failing) = cc in
        rw known (mismatch-not-retriable e failing mismatch))
