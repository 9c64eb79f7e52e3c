-- ===== src/Middleware/RateLimiter.antt =====
-- src/middleware/rate-limiter.ts. Tokens are counted in thousandths: `burst` and `rate` are positive
-- integers (config.ts, `parseIntEnv`), so a millisecond adds exactly `rate` thousandths, and no
-- rounding of a floating-point number is left out but that of the division by 1000. `Date.now()` is an
-- argument of each call, in milliseconds, and may go backwards; so the tokens are an integer.
mod Queue
mod Invariant
mod Budget
mod Settlement
mod Tests
use ccu_mcp.Prelude.{
  ℕ, zero, suc, ◌*◌, Bool, true, false, not, ◌&&◌, Option, none, some, List, [], ◌∷◌, ◌++◌, map,
  length, leb, if◌then◌else◌,
}
use ccu_mcp.Prelude.Int.{ℤ, pos, negsuc, sub_ℕ, ◌+ℤ◌, scale, leb_ℤ, min_ℤ}
use ccu_mcp.Errors.{ErrorCategory, ccu_error, rate_limited, StructuredError, plain_error}

-- A caller that waits for a token, by the number of its call.
abbrev pub WaiterId : Type 0
WaiterId = ℕ

pub record RateLimiter : Type 0 where
  pub tokens : ℤ
  pub max_tokens : ℕ
  pub refill_rate : ℕ
  pub max_queue : ℕ
  pub last_refill : ℕ
  pub wait_queue : List WaiterId
  pub timer_armed : Bool
  pub destroyed : Bool

-- How the promise of a call settles.
pub data Settled : Type 0 where
  resolved : WaiterId → Settled
  rejected : WaiterId → StructuredError → Settled

-- One token, and the burst, in thousandths.
abbrev pub one_token : ℤ
one_token = pos 1000

abbrev pub capacity : RateLimiter → ℕ
capacity l = 1000 * l.max_tokens

abbrev pub minus_one : ℤ
minus_one = negsuc 999

-- `constructor`
abbrev pub create : (max_burst refill_rate max_queue now : ℕ) → RateLimiter
create max_burst refill_rate max_queue now = record {
  tokens = pos (1000 * max_burst);
  max_tokens = max_burst;
  refill_rate = refill_rate;
  max_queue = max_queue;
  last_refill = now;
  wait_queue = [];
  timer_armed = false;
  destroyed = false;
}

pub record Woken : Type 0 where
  pub settled : List Settled
  pub tokens : ℤ
  pub waiting : List WaiterId

-- The loop that wakes waiting requests, oldest first, while a whole token is left.
pub wake : ℤ → List WaiterId → Woken
wake tokens [] = record { settled = []; tokens = tokens; waiting = [] }
wake tokens (w ∷ ws) =
    let rest = wake (tokens +ℤ minus_one) ws in
    if leb_ℤ one_token tokens
    then record rest { settled = resolved w ∷ rest.settled }
    else record { settled = []; tokens = tokens; waiting = w ∷ ws }

-- `Math.min(maxTokens, tokens + elapsed * refillRate)`
pub refilled : RateLimiter → ℕ → ℤ
refilled l now =
    min_ℤ (pos (capacity l)) (l.tokens +ℤ scale l.refill_rate (sub_ℕ now l.last_refill))

-- `refill`, with the promises that it resolves.
pub refill : RateLimiter → ℕ → RateLimiter × List Settled
refill l now =
    let woken = wake (refilled l now) l.wait_queue in
    (
      record l { last_refill = now; tokens = woken.tokens; wait_queue = woken.waiting },
      woken.settled,
    )

abbrev pub is_empty : List WaiterId → Bool
is_empty [] = true
is_empty (_ ∷ _) = false

-- `ensureRefillTimer`: it arms the timer if someone waits and it is not armed yet.
pub ensure_refill_timer : RateLimiter → RateLimiter
ensure_refill_timer l =
    if not l.timer_armed && not (is_empty l.wait_queue) then record l { timer_armed = true } else l

-- The callback of the timer; `destroy` clears the timer, after which it is not called again.
pub on_timer : RateLimiter → ℕ → RateLimiter × List Settled
on_timer l now =
    let (l', settled) = refill l now in
    (if is_empty l'.wait_queue then record l' { timer_armed = false } else l', settled)

abbrev pub shut_down : StructuredError
shut_down =
    plain_error ccu_error "Server is shutting down; the request was cancelled."
      "Retry after the server restarts."

abbrev pub shut_down_queued : StructuredError
shut_down_queued =
    plain_error ccu_error "Server is shutting down; the queued request was cancelled."
      "Retry after the server restarts."

abbrev pub overloaded : StructuredError
overloaded =
    plain_error rate_limited "Too many requests queued for the CCU; the server is overloaded."
      "Reduce concurrent calls and retry shortly. Raise CCU_RATE_LIMIT_BURST/RATE if this is sustained legitimate load."

-- What `acquire` does after its `refill`.
pub take_or_wait : RateLimiter → WaiterId → RateLimiter × List Settled
take_or_wait l id =
    if leb_ℤ one_token l.tokens
    then (record l { tokens = l.tokens +ℤ minus_one }, resolved id ∷ [])
    else if leb l.max_queue (length l.wait_queue)
    then (l, rejected id overloaded ∷ [])
    else (ensure_refill_timer (record l { wait_queue = l.wait_queue ++ id ∷ [] }), [])

-- `acquire`, the call `id` at the time `now`.
pub acquire : RateLimiter → WaiterId → ℕ → RateLimiter × List Settled
acquire l id now =
    if l.destroyed
    then (l, rejected id shut_down ∷ [])
    else let (l', woken) = refill l now in
      let (l'', own) = take_or_wait l' id in (l'', woken ++ own)

-- `destroy`
pub destroy : RateLimiter → RateLimiter × List Settled
destroy l = (
  record l { destroyed = true; timer_armed = false; wait_queue = [] },
  map (λ w. rejected w shut_down_queued) l.wait_queue,
)

-- What happens to a limiter: a call, a tick of its timer, the shutdown.
pub data Event : Type 0 where
  acquires : WaiterId → ℕ → Event
  ticks : ℕ → Event
  destroys : Event

-- The timer runs its callback only while it is armed.
pub step : RateLimiter → Event → RateLimiter × List Settled
step l (acquires id now) = acquire l id now
step l (ticks now) = if l.timer_armed then on_timer l now else (l, [])
step l destroys = destroy l

-- A history of events, with all that settles in it, in order.
pub run : RateLimiter → List Event → RateLimiter × List Settled
run l [] = (l, [])
run l (e ∷ es) =
    let (l', settled) = step l e in let (l'', later) = run l' es in (l'', settled ++ later)
