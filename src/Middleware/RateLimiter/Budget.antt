-- ===== src/Middleware/RateLimiter/Budget.antt =====
-- The promise of the token bucket (src/middleware/rate-limiter.ts): in any stretch of time no more
-- calls pass than the burst and the rate allow, and the timer serves those that wait.
use ccu_mcp.Prelude.{
  ℕ, ◌+◌, ◌*◌, ◌-◌, ◌≤◌, ◌≡◌, refl, ap, ◌∙◌, inl, inr, Bool-cases, List, [], ◌∷◌, length,
  length-append, min, arith, map,
}
use ccu_mcp.Prelude.Int.{
  ℤ, pos, pos_part, neg_part, ◌+ℤ◌, +ℤ_parts, sub_ℕ, scale, scale-sub_ℕ_parts, scale-sub_ℕ_of_le,
}
use ccu_mcp.Middleware.RateLimiter.{
  RateLimiter, WaiterId, rejected, minus_one, capacity, wake, refilled, refill, take_or_wait,
  acquire, on_timer, destroy, ensure_refill_timer, Event, acquires, ticks, destroys, step, run,
  shut_down_queued,
}
use ccu_mcp.Middleware.RateLimiter.Queue.{granted, granted-append, wake-tokens, acquire_running}
use ccu_mcp.Middleware.RateLimiter.Invariant.{IsWell}

-- `n` calls passed between the states `l` and `l'`: they cost their tokens, and time gave at most
-- `refill_rate` thousandths for each millisecond.
pub record Paid (l l' : RateLimiter) (n : ℕ) : Type 0 where
  pub rate : l'.refill_rate ≡ l.refill_rate
  pub burst : l'.max_tokens ≡ l.max_tokens
  pub balance :
      pos_part l'.tokens + 1000 * n + neg_part l.tokens + l.refill_rate * l.last_refill
      ≤ pos_part l.tokens + neg_part l'.tokens + l.refill_rate * l'.last_refill

refilled-balance :
    (l : RateLimiter) (now : ℕ)
    → pos_part (refilled l now) + neg_part l.tokens + l.refill_rate * l.last_refill
      ≤ pos_part l.tokens + neg_part (refilled l now) + l.refill_rate * now
unfolding refilled
refilled-balance l now = ground (
  arith,
  +ℤ_parts l.tokens (scale l.refill_rate (sub_ℕ now l.last_refill)),
  scale-sub_ℕ_parts l.refill_rate now l.last_refill,
)

refill-Paid :
    (l : RateLimiter) (now : ℕ) → Paid l (refill l now).0 (length (granted (refill l now).1))
unfolding refill
refill-Paid l now = record {
  rate = refl;
  burst = refl;
  balance = omega (arith, wake-tokens (refilled l now) l.wait_queue, refilled-balance l now);
}

take_or_wait-Paid :
    (l : RateLimiter) (id : WaiterId)
    → Paid l (take_or_wait l id).0 (length (granted (take_or_wait l id).1))
unfolding take_or_wait ensure_refill_timer granted
take_or_wait-Paid l id = record {
  rate = ground arith;
  burst = ground arith;
  balance = ground (arith, +ℤ_parts l.tokens minus_one);
}

Paid-refl : (l : RateLimiter) → Paid l l 0
Paid-refl l = omega arith

Paid-trans : {l m r : RateLimiter} {a b : ℕ} → Paid l m a → Paid m r b → Paid l r (a + b)
Paid-trans {l} {m} {r} p q = record {
  rate = q.rate ∙ p.rate;
  burst = q.burst ∙ p.burst;
  balance =
      omega
        (arith, ap (λ (t : ℕ). t * m.last_refill) p.rate, ap (λ (t : ℕ). t * r.last_refill) p.rate);
}

acquire-Paid :
    (l : RateLimiter) (id : WaiterId) (now : ℕ)
    → Paid l (acquire l id now).0 (length (granted (acquire l id now).1))
acquire-Paid l id now = elim (Bool-cases l.destroyed) [
  | inl gone ↦ unfold acquire granted in simp gone (Paid-refl l)
  | inr running ↦
      rw (acquire_running l id now running, granted-append, length-append)
        (Paid-trans (refill-Paid l now) (take_or_wait-Paid (refill l now).0 id))
]

granted-rejected :
    (q : List WaiterId) → length (granted (map (λ w. rejected w shut_down_queued) q)) ≡ 0
unfolding granted
granted-rejected [] = refl
granted-rejected (w ∷ q) = granted-rejected q

step-Paid : (l : RateLimiter) (e : Event) → Paid l (step l e).0 (length (granted (step l e).1))
unfolding step
step-Paid l (acquires id now) = acquire-Paid l id now
step-Paid l (ticks now) =
    let paid = refill-Paid l now in
    unfold on_timer granted in
    record {
      rate = ground (arith, paid.rate);
      burst = ground (arith, paid.burst);
      balance = ground (arith, paid.balance);
    }
step-Paid l destroys =
    unfold destroy in
    record { rate = refl; burst = refl; balance = omega (arith, granted-rejected l.wait_queue) }

pub run-Paid :
    (l : RateLimiter) (es : List Event) → Paid l (run l es).0 (length (granted (run l es).1))
unfolding run
run-Paid l [] = unfold granted in Paid-refl l
run-Paid l (e ∷ es) =
    rw (granted-append, length-append) (Paid-trans (step-Paid l e) (run-Paid (step l e).0 es))

-- From the time `t` on, the clock does not go backwards.
abbrev pub InOrder : ℕ → List Event → Type 0
InOrder t [] = Unit
InOrder t (acquires id now ∷ es) = (t ≤ now) × InOrder now es
InOrder t (ticks now ∷ es) = (t ≤ now) × InOrder now es
InOrder t (destroys ∷ es) = InOrder t es

-- Nothing is owed, and the last refill is not later than `t`.
pub record Settles (t : ℕ) (l : RateLimiter) : Type 0 where
  pub nonneg : neg_part l.tokens ≡ 0
  pub past : l.last_refill ≤ t

wake-nonneg : (t : ℤ) (q : List WaiterId) → neg_part t ≡ 0 → neg_part (wake t q).tokens ≡ 0
unfolding wake
wake-nonneg t [] h = h
wake-nonneg t (w ∷ q) h = ground (arith, wake-nonneg (t +ℤ minus_one) q, +ℤ_parts t minus_one)

-- With the clock in order a refill adds exactly what the time has earned, up to the burst.
refilled_parts :
    (l : RateLimiter) (now : ℕ)
    → neg_part l.tokens ≡ 0
    → l.last_refill ≤ now
    → refilled l now
      ≡ pos (min (capacity l) (pos_part l.tokens + l.refill_rate * (now - l.last_refill)))
unfolding refilled ◌+ℤ◌
refilled_parts l now settled later =
    rw (scale-sub_ℕ_of_le l.refill_rate now l.last_refill later) (ground arith)

refill-Settles :
    {t : ℕ} {l : RateLimiter} (now : ℕ) → t ≤ now → Settles t l → Settles now (refill l now).0
unfolding refill
refill-Settles {t} {l} now later v = record {
  nonneg =
      wake-nonneg (refilled l now) l.wait_queue
        (rw (refilled_parts l now v.nonneg (omega (arith, v.past))) refl);
  past = omega arith;
}

take_or_wait-Settles :
    {t : ℕ} {l : RateLimiter} (id : WaiterId) → Settles t l → Settles t (take_or_wait l id).0
unfolding take_or_wait ensure_refill_timer
take_or_wait-Settles {t} {l} id v = ground (arith, v.nonneg, v.past, +ℤ_parts l.tokens minus_one)

Settles-later : {t t' : ℕ} {l : RateLimiter} → t ≤ t' → Settles t l → Settles t' l
Settles-later later v = omega (arith, v.nonneg, v.past)

acquire-Settles :
    {t : ℕ} {l : RateLimiter} (id : WaiterId) (now : ℕ)
    → t ≤ now
    → Settles t l
    → Settles now (acquire l id now).0
acquire-Settles {t} {l} id now later v = elim (Bool-cases l.destroyed) [
  | inl gone ↦ unfold acquire in simp gone (Settles-later later v)
  | inr running ↦
      rw (acquire_running l id now running) (take_or_wait-Settles id (refill-Settles now later v))
]

tick-Settles :
    {t : ℕ} {l : RateLimiter} (now : ℕ) → t ≤ now → Settles t l → Settles now (step l (ticks now)).0
unfolding step on_timer
tick-Settles {t} {l} now later v =
    let kept = refill-Settles now later v in
    ground (arith, kept.nonneg, kept.past, v.nonneg, v.past)

destroy-Settles : {t : ℕ} {l : RateLimiter} → Settles t l → Settles t (step l destroys).0
unfolding step destroy
destroy-Settles v = ground (arith, v.nonneg, v.past)

run-nonneg :
    (t : ℕ) (l : RateLimiter) (es : List Event)
    → Settles t l
    → InOrder t es
    → neg_part (run l es).0.tokens ≡ 0
unfolding run
run-nonneg t l [] v h = v.nonneg
run-nonneg t l (acquires id now ∷ es) v (later, h) =
    run-nonneg now (step l (acquires id now)).0 es (unfold step in acquire-Settles id now later v) h
run-nonneg t l (ticks now ∷ es) v (later, h) =
    run-nonneg now (step l (ticks now)).0 es (tick-Settles now later v) h
run-nonneg t l (destroys ∷ es) v h = run-nonneg t (step l destroys).0 es (destroy-Settles v) h

-- The promise of the token bucket. Start at any state that keeps the invariant and owes nothing, and let
-- anything happen to the limiter while the clock does not go backwards: the calls that get a token
-- number at most the burst, and the rate times the seconds from the last refill before to the last
-- refill in that stretch (all in thousandths of a token).
pub granted-le-budget :
    (l : RateLimiter) (es : List Event)
    → IsWell l
    → neg_part l.tokens ≡ 0
    → InOrder l.last_refill es
    → 1000 * length (granted (run l es).1) + l.refill_rate * l.last_refill
      ≤ capacity l + l.refill_rate * (run l es).0.last_refill
granted-le-budget l es v settled ordered =
    let paid = run-Paid l es in
    let nonneg =
      run-nonneg l.last_refill l es (record { nonneg = settled; past = omega arith }) ordered in
    omega (arith, paid.balance, v.within)
