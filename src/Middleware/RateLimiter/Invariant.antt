-- ===== src/Middleware/RateLimiter/Invariant.antt =====
-- The invariant of the limiter (src/middleware/rate-limiter.ts): its bounds, and the timer that keeps
-- a waiting call from being forgotten.
use ccu_mcp.Prelude.{
  ℕ, ◌≤◌, ◌≡◌, refl, ap, ◌∙◌, inl, inr, Bool-cases, true, false, List, [], ◌∷◌, ◌++◌, length,
  length-append, arith,
}
use ccu_mcp.Prelude.Int.{ℤ, pos, ◌+ℤ◌, leb_ℤ, ◌≤ℤ◌, +ℤ_parts}
use ccu_mcp.Middleware.RateLimiter.{
  RateLimiter, WaiterId, one_token, minus_one, capacity, create, wake, refilled, refill,
  take_or_wait, acquire, on_timer, is_empty, destroy, ensure_refill_timer, Event, acquires, ticks,
  destroys, step, run,
}
use ccu_mcp.Middleware.RateLimiter.Queue.{wake_stops}

-- No more tokens than the burst, no longer queue than the bound; while a call waits the timer is armed
-- and no whole token is left; a destroyed limiter keeps no call and no timer.
pub record IsWell (l : RateLimiter) : Type 0 where
  pub within : l.tokens ≤ℤ pos (capacity l)
  pub bounded : length l.wait_queue ≤ l.max_queue
  pub armed : is_empty l.wait_queue ≡ false → l.timer_armed ≡ true
  pub starved : is_empty l.wait_queue ≡ false → leb_ℤ one_token l.tokens ≡ false
  pub closed : l.destroyed ≡ true → (is_empty l.wait_queue ≡ true) × (l.timer_armed ≡ false)

wake-le : (t : ℤ) (q : List WaiterId) → (wake t q).tokens ≤ℤ t
unfolding wake
wake-le t [] = omega arith
wake-le t (w ∷ q) = ground (arith, wake-le (t +ℤ minus_one) q, +ℤ_parts t minus_one)

wake-length : (t : ℤ) (q : List WaiterId) → length (wake t q).waiting ≤ length q
unfolding wake
wake-length t [] = omega arith
wake-length t (w ∷ q) = ground (arith, wake-length (t +ℤ minus_one) q)

wake-is_empty : (t : ℤ) (q : List WaiterId) → is_empty q ≡ true → is_empty (wake t q).waiting ≡ true
unfolding wake
wake-is_empty t [] h = refl
wake-is_empty t (w ∷ q) h = cc

pub wake_starved :
    (t : ℤ) (q : List WaiterId)
    → is_empty (wake t q).waiting ≡ false
    → leb_ℤ one_token (wake t q).tokens ≡ false
wake_starved t q h = ground (arith, wake_stops t q, ap is_empty {x = (wake t q).waiting} {y = []})

refilled-le : (l : RateLimiter) (now : ℕ) → refilled l now ≤ℤ pos (capacity l)
unfolding refilled
refilled-le l now = ground arith

pub refill-IsWell : {l : RateLimiter} (now : ℕ) → IsWell l → IsWell (refill l now).0
unfolding refill
refill-IsWell {l} now v = record {
  within = omega (arith, wake-le (refilled l now) l.wait_queue, refilled-le l now);
  bounded = omega (arith, wake-length (refilled l now) l.wait_queue, v.bounded);
  armed = λ h. ground (arith, wake-is_empty (refilled l now) l.wait_queue, v.armed);
  starved = wake_starved (refilled l now) l.wait_queue;
  closed = λ h. ground (arith, wake-is_empty (refilled l now) l.wait_queue, v.closed h);
}

is_empty-length : (q : List WaiterId) → is_empty q ≡ true → length q ≡ 0
is_empty-length [] h = refl
is_empty-length (w ∷ q) h = cc

is_empty-snoc : (q : List WaiterId) (id : WaiterId) → is_empty (q ++ id ∷ []) ≡ false
is_empty-snoc [] id = refl
is_empty-snoc (w ∷ q) id = refl

take_or_wait-IsWell :
    {l : RateLimiter} (id : WaiterId)
    → l.destroyed ≡ false
    → IsWell l
    → IsWell (take_or_wait l id).0
unfolding take_or_wait ensure_refill_timer
take_or_wait-IsWell {l} id running v = record {
  within = ground (arith, v.within, +ℤ_parts l.tokens minus_one);
  bounded = ground (arith, v.bounded, length-append l.wait_queue (id ∷ []));
  armed = ground (arith, v.armed, is_empty-snoc l.wait_queue id);
  starved = ground (arith, v.starved, is_empty-snoc l.wait_queue id, +ℤ_parts l.tokens minus_one);
  closed = ground (arith, running);
}

destroyed-refill : (l : RateLimiter) (now : ℕ) → (refill l now).0.destroyed ≡ l.destroyed
unfolding refill
destroyed-refill l now = refl

acquire-IsWell :
    {l : RateLimiter} (id : WaiterId) (now : ℕ) → IsWell l → IsWell (acquire l id now).0
unfolding acquire
acquire-IsWell {l} id now v = elim (Bool-cases l.destroyed) [
  | inl gone ↦ simp gone v
  | inr running ↦
      simp running (take_or_wait-IsWell id (destroyed-refill l now ∙ running) (refill-IsWell now v))
]

on_timer-IsWell :
    {l : RateLimiter} (now : ℕ) → l.timer_armed ≡ true → IsWell l → IsWell (on_timer l now).0
unfolding on_timer
on_timer-IsWell {l} now armed v =
    let kept = refill-IsWell now v in
    record {
      within = ground (arith, kept.within);
      bounded = ground (arith, kept.bounded);
      armed = ground (arith, kept.armed);
      starved = ground (arith, kept.starved);
      closed = ground (arith, kept.closed);
    }

destroy-IsWell : {l : RateLimiter} → IsWell l → IsWell (destroy l).0
unfolding destroy
destroy-IsWell v = ground (arith, v.within)

pub create-IsWell :
    (max_burst refill_rate max_queue now : ℕ) → IsWell (create max_burst refill_rate max_queue now)
create-IsWell max_burst refill_rate max_queue now = ground arith

pub step-IsWell : {l : RateLimiter} (e : Event) → IsWell l → IsWell (step l e).0
unfolding step
step-IsWell (acquires id now) v = acquire-IsWell id now v
step-IsWell {l} (ticks now) v = elim (Bool-cases l.timer_armed) [
  | inl armed ↦ simp armed (on_timer-IsWell now armed v)
  | inr idle ↦ simp idle v
]
step-IsWell destroys v = destroy-IsWell v

-- Whatever happens to a limiter that was well formed, and whatever the clock shows: its tokens stay
-- within the burst, its queue within the bound; while a call waits the timer is armed and no whole
-- token is left; once destroyed it has no waiting call and no timer.
pub run-IsWell : (l : RateLimiter) (es : List Event) → IsWell l → IsWell (run l es).0
unfolding run
run-IsWell l [] v = v
run-IsWell l (e ∷ es) v = run-IsWell (step l e).0 es (step-IsWell e v)
