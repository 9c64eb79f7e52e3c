-- ===== src/Middleware/RateLimiter/Settlement.antt =====
-- Every call of the limiter (src/middleware/rate-limiter.ts) settles once, and the shutdown leaves none.
use ccu_mcp.Prelude.{
  ℕ, ◌+◌, ◌≡◌, refl, inl, inr, Bool-cases, Bool, true, false, List, [], ◌∷◌, ◌++◌, arith, map, ◌==◌,
}
use ccu_mcp.Prelude.Int.{ℤ, ◌+ℤ◌}
use ccu_mcp.Middleware.RateLimiter.{
  RateLimiter, WaiterId, Settled, resolved, rejected, minus_one, wake, refilled, refill,
  take_or_wait, acquire, on_timer, destroy, ensure_refill_timer, Event, acquires, ticks, destroys,
  step, run, shut_down_queued,
}
use ccu_mcp.Middleware.RateLimiter.Queue.{granted, granted-append, acquire_running}

abbrev pub one_if : Bool → ℕ
one_if true = 1
one_if false = 0

-- How often the call `id` settled.
abbrev pub settlements : WaiterId → List Settled → ℕ
settlements id [] = 0
settlements id (resolved w ∷ s) = one_if (w == id) + settlements id s
settlements id (rejected w e ∷ s) = one_if (w == id) + settlements id s

-- How often it waits.
abbrev pub waits : WaiterId → List WaiterId → ℕ
waits id [] = 0
waits id (w ∷ q) = one_if (w == id) + waits id q

-- How often a history makes it.
abbrev pub calls : WaiterId → List Event → ℕ
calls id [] = 0
calls id (acquires w now ∷ es) = one_if (w == id) + calls id es
calls id (ticks now ∷ es) = calls id es
calls id (destroys ∷ es) = calls id es

settlements-append :
    (id : WaiterId) (s t : List Settled)
    → settlements id (s ++ t) ≡ settlements id s + settlements id t
settlements-append id [] t = omega arith
settlements-append id (resolved w ∷ s) t = omega (arith, settlements-append id s t)
settlements-append id (rejected w e ∷ s) t = omega (arith, settlements-append id s t)

waits-append : (id : WaiterId) (p q : List WaiterId) → waits id (p ++ q) ≡ waits id p + waits id q
waits-append id [] q = omega arith
waits-append id (w ∷ p) q = omega (arith, waits-append id p q)

wake-settlements :
    (id : WaiterId) (t : ℤ) (q : List WaiterId)
    → settlements id (wake t q).settled + waits id (wake t q).waiting ≡ waits id q
unfolding wake
wake-settlements id t [] = refl
wake-settlements id t (w ∷ q) = ground (arith, wake-settlements id (t +ℤ minus_one) q)

refill-settlements :
    (id : WaiterId) (l : RateLimiter) (now : ℕ)
    → settlements id (refill l now).1 + waits id (refill l now).0.wait_queue ≡ waits id l.wait_queue
unfolding refill
refill-settlements id l now = wake-settlements id (refilled l now) l.wait_queue

take_or_wait-settlements :
    (id w : WaiterId) (l : RateLimiter)
    → settlements id (take_or_wait l w).1 + waits id (take_or_wait l w).0.wait_queue
      ≡ waits id l.wait_queue + one_if (w == id)
unfolding take_or_wait ensure_refill_timer
take_or_wait-settlements id w l = ground (arith, waits-append id l.wait_queue (w ∷ []))

acquire-settlements :
    (id w : WaiterId) (l : RateLimiter) (now : ℕ)
    → settlements id (acquire l w now).1 + waits id (acquire l w now).0.wait_queue
      ≡ waits id l.wait_queue + one_if (w == id)
acquire-settlements id w l now = elim (Bool-cases l.destroyed) [
  | inl gone ↦ unfold acquire in simp gone (omega arith)
  | inr running ↦
      rw (acquire_running l w now running, settlements-append)
        (omega (arith, refill-settlements id l now, take_or_wait-settlements id w (refill l now).0))
]

rejected-settlements :
    (id : WaiterId) (q : List WaiterId)
    → settlements id (map (λ w. rejected w shut_down_queued) q) ≡ waits id q
rejected-settlements id [] = refl
rejected-settlements id (w ∷ q) = omega (arith, rejected-settlements id q)

step-settlements :
    (id : WaiterId) (l : RateLimiter) (e : Event)
    → settlements id (step l e).1 + waits id (step l e).0.wait_queue
      ≡ waits id l.wait_queue + calls id (e ∷ [])
unfolding step
step-settlements id l (acquires w now) = omega (arith, acquire-settlements id w l now)
step-settlements id l (ticks now) = unfold on_timer in ground (arith, refill-settlements id l now)
step-settlements id l destroys =
    unfold destroy in omega (arith, rejected-settlements id l.wait_queue)

calls-cons :
    (id : WaiterId) (e : Event) (es : List Event)
    → calls id (e ∷ es) ≡ calls id (e ∷ []) + calls id es
calls-cons id (acquires w now) es = omega arith
calls-cons id (ticks now) es = omega arith
calls-cons id destroys es = omega arith

-- Over any history, the times that a call settles (gets its token or is rejected) and the times that it
-- still waits at the end together are the times that it waited at the start and was made: none is lost,
-- and none settles twice.
pub settles_once :
    (id : WaiterId) (l : RateLimiter) (es : List Event)
    → settlements id (run l es).1 + waits id (run l es).0.wait_queue
      ≡ waits id l.wait_queue + calls id es
unfolding run
settles_once id l [] = omega arith
settles_once id l (e ∷ es) =
    rw settlements-append
      (omega (arith, calls-cons id e es, step-settlements id l e, settles_once id (step l e).0 es))

-- A limiter that was destroyed: no call waits, and the timer is off.
pub record IsShut (l : RateLimiter) : Type 0 where
  pub gone : l.destroyed ≡ true
  pub nobody : l.wait_queue ≡ []
  pub idle : l.timer_armed ≡ false

granted-rejected : (q : List WaiterId) → granted (map (λ w. rejected w shut_down_queued) q) ≡ []
unfolding granted
granted-rejected [] = refl
granted-rejected (w ∷ q) = granted-rejected q

step-IsShut :
    (l : RateLimiter) (e : Event) → IsShut l → IsShut (step l e).0 × (granted (step l e).1 ≡ [])
unfolding step granted acquire
step-IsShut l (acquires w now) v = ground (arith, v.gone, v.nobody, v.idle)
step-IsShut l (ticks now) v = ground (arith, v.gone, v.nobody, v.idle)
step-IsShut l destroys v =
    unfold destroy in
    (record { gone = refl; nobody = refl; idle = refl }, granted-rejected l.wait_queue)

run-IsShut :
    (l : RateLimiter) (es : List Event)
    → IsShut l
    → IsShut (run l es).0 × (granted (run l es).1 ≡ [])
unfolding run
run-IsShut l [] v = (v, unfold granted in refl)
run-IsShut l (e ∷ es) v =
    let (kept, first) = step-IsShut l e v in
    let (final, rest) = run-IsShut (step l e).0 es kept in (final, rw (granted-append, first) rest)

-- `destroy` rejects every waiting call, and whatever happens afterwards no call gets a token, none is
-- parked and the timer stays off.
pub destroy_final :
    (l : RateLimiter) (es : List Event)
    → IsShut (run l (destroys ∷ es)).0 × (granted (run l (destroys ∷ es)).1 ≡ [])
unfolding run
destroy_final l es =
    let (final, rest) =
      run-IsShut (step l destroys).0 es
        (unfold step destroy in (record { gone = refl; nobody = refl; idle = refl })) in
    (
      final,
      rw granted-append
          (rw rest (unfold step destroy in (rw (granted-rejected l.wait_queue) refl))),
    )
