-- ===== src/Middleware/RateLimiter/Tests.antt =====
-- The limiter (src/middleware/rate-limiter.ts) at concrete inputs.
use ccu_mcp.Prelude.{◌+◌, ◌*◌, ◌≤◌, ◌≡◌, refl, ◌⊎◌, true, List, [], ◌∷◌, ◌++◌, length, arith}
use ccu_mcp.Prelude.Int.{pos, ◌+ℤ◌, scale}
use ccu_mcp.Middleware.RateLimiter.{
  RateLimiter, resolved, rejected, capacity, create, wake, refilled, refill, take_or_wait, acquire,
  on_timer, destroy, ensure_refill_timer, Event, acquires, ticks, destroys, step, run, overloaded,
  shut_down_queued, shut_down,
}
use ccu_mcp.Middleware.RateLimiter.Queue.{granted, acquire_fifo}
use ccu_mcp.Middleware.RateLimiter.Invariant.{create-IsWell}
use ccu_mcp.Middleware.RateLimiter.Budget.{granted-le-budget}
use ccu_mcp.Middleware.RateLimiter.Settlement.{settlements, waits, calls, settles_once}

limiter : Unit {0}
unfolding run step acquire on_timer destroy take_or_wait ensure_refill_timer refill refilled wake
    ◌+ℤ◌ scale granted
limiter = tt

-- A burst of one, ten tokens a second, at most one call in the queue.
abbrev small : RateLimiter
small = create 1 10 1 0

abbrev history : List Event
history =
    acquires 1 0
    ∷ acquires 2 10
    ∷ acquires 3 20
    ∷ ticks 120
    ∷ acquires 4 130
    ∷ destroys
    ∷ acquires 5 140
    ∷ []

history_settles :
    (run small history).1
    ≡ resolved 1
      ∷ rejected 3 overloaded
      ∷ resolved 2
      ∷ rejected 4 shut_down_queued
      ∷ rejected 5 shut_down
      ∷ []
unfolding limiter
history_settles = refl

abbrev waiting : RateLimiter
waiting = record small { tokens = pos 0; wait_queue = 7 ∷ []; timer_armed = true }

acquire_fifo_example :
    (granted (acquire waiting 8 100).1 ++ (acquire waiting 8 100).0.wait_queue ≡ 7 ∷ 8 ∷ [])
    ⊎ ((granted (acquire waiting 8 100).1 ++ (acquire waiting 8 100).0.wait_queue ≡ 7 ∷ [])
        × (1 ≤ length (acquire waiting 8 100).0.wait_queue))
acquire_fifo_example = acquire_fifo waiting 8 100 refl

granted-le-budget_example :
    1000 * length (granted (run small history).1) + 10 * 0
    ≤ capacity small + 10 * (run small history).0.last_refill
granted-le-budget_example =
    granted-le-budget small history (create-IsWell 1 10 1 0) refl (ground arith)

settles_once_example :
    settlements 3 (run small history).1 + waits 3 (run small history).0.wait_queue
    ≡ waits 3 small.wait_queue + calls 3 history
settles_once_example = settles_once 3 small history
