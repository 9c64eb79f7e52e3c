-- ===== src/Middleware/Retry.antt =====
-- src/middleware/retry.ts. The request and the limiter are actions on a state that the caller chooses;
-- `sleep` is `setTimeout`, and the log lines are left out.
mod Laws
pub mod Steps
mod Tests
use ccu_mcp.Prelude.{
  ℕ, zero, suc, String, Bool, true, false, ◌||◌, ◌===◌, Option, none, some, if◌then◌else◌,
}
use ccu_mcp.Errors.{ErrorCategory, timeout, unreachable, StructuredError, Failure, ccu, other}
use ccu_mcp.Action.{Outcome, ok, thrown, Action, pure, throw, settle, try◌, ◌>>=◌, ◌>>◌, continue}

-- `NON_IDEMPOTENT_METHODS.has(method)`
unfoldable pub non_idempotent : String → Bool
non_idempotent method = method === "Program.execute" || method === "ReGa.runScript"

-- `RETRIABLE_CATEGORIES.has(category)`
abbrev pub retriable_category : ErrorCategory → Bool
retriable_category timeout = true
retriable_category unreachable = true
retriable_category _ = false

-- `err instanceof CcuError && RETRIABLE_CATEGORIES.has(err.structured.error)`
unfoldable pub is_retriable : Failure → Bool
is_retriable (ccu e) = retriable_category e.error
is_retriable (other e) = false

pub record RetryOptions (S : Type 0) : Type 0 where
  pub max_retries : ℕ
  pub delay_ms : ℕ
  pub rate_limiter : Option (Action S (Unit {0}))

-- `{ rateLimiter }`: the defaults, and a token for each retry.
abbrev pub one_retry : {S : Type 0} → Action S (Unit {0}) → RetryOptions S
one_retry acquire = record { max_retries = 1; delay_ms = 1000; rate_limiter = some acquire }

module _ {S : Type 0} where
  -- `if (rateLimiter) await rateLimiter.acquire()`
  abbrev pub pay : Option (Action S (Unit {0})) → Action S (Unit {0})
  pay none = pure tt
  pay (some acquire) = acquire

module _ {S T : Type 0} (sleep : ℕ → Action S (Unit {0})) (options : RetryOptions S)
    (fn : Action S T) where
  -- The loop, with the number of retries that are left.
  unfoldable pub attempts : ℕ → Action S T
  attempts zero = try◌ fn pure throw
  attempts (suc left) = try◌ fn pure λ e.
      if is_retriable e
      then (sleep options.delay_ms >> (pay options.rate_limiter >> attempts left))
      else throw e

  -- `withRetry`
  unfoldable pub with_retry : String → Action S T
  with_retry method = if non_idempotent method then fn else attempts options.max_retries
