-- ===== src/Middleware/RateLimiter/Queue.antt =====
-- The waiting calls of the limiter (src/middleware/rate-limiter.ts): who is served, and in which order.
use mathlib.Core.List.{append_assoc}
use ccu_mcp.Prelude.{
  ℕ, ◌+◌, ◌*◌, ◌≤◌, ◌≡◌, refl, ap, ◌⊎◌, inl, inr, false, List, [], ◌∷◌, ◌++◌, length, arith,
  Bool-cases,
}
use ccu_mcp.Prelude.Int.{ℤ, negsuc, pos_part, neg_part, ◌+ℤ◌, leb_ℤ, +ℤ_parts}
use ccu_mcp.Middleware.RateLimiter.{
  RateLimiter, WaiterId, Settled, resolved, rejected, one_token, ensure_refill_timer, wake,
  refilled, refill, take_or_wait, acquire,
}

-- The calls that got a token, in order.
unfoldable pub granted : List Settled → List WaiterId
granted [] = []
granted (resolved w ∷ s) = w ∷ granted s
granted (rejected w e ∷ s) = granted s

pub granted-append : (s t : List Settled) → granted (s ++ t) ≡ granted s ++ granted t
unfolding granted
granted-append [] t = refl
granted-append (resolved w ∷ s) t = ap (λ (r : List WaiterId). w ∷ r) (granted-append s t)
granted-append (rejected w e ∷ s) t = granted-append s t

-- Waking takes calls from the front, one token each.
pub wake-granted :
    (t : ℤ) (q : List WaiterId) → granted (wake t q).settled ++ (wake t q).waiting ≡ q
unfolding wake granted
wake-granted t [] = refl
wake-granted t (w ∷ q) = ground (arith, wake-granted (t +ℤ negsuc 999) q)

pub wake-tokens :
    (t : ℤ) (q : List WaiterId)
    → pos_part (wake t q).tokens + 1000 * length (granted (wake t q).settled) + neg_part t
      ≡ pos_part t + neg_part (wake t q).tokens
unfolding wake granted
wake-tokens t [] = omega arith
wake-tokens t (w ∷ q) = ground (arith, wake-tokens (t +ℤ negsuc 999) q, +ℤ_parts t (negsuc 999))

-- It stops only when nobody waits or no whole token is left.
pub wake_stops :
    (t : ℤ) (q : List WaiterId)
    → ((wake t q).waiting ≡ []) ⊎ (leb_ℤ one_token (wake t q).tokens ≡ false)
unfolding wake
wake_stops t [] = inl refl
wake_stops t (w ∷ q) = elim (Bool-cases (leb_ℤ one_token t)) [
  | inl enough ↦ ground (arith, wake_stops (t +ℤ negsuc 999) q)
  | inr short ↦ inr (ground arith)
]

pub refill-granted :
    (l : RateLimiter) (now : ℕ)
    → granted (refill l now).1 ++ (refill l now).0.wait_queue ≡ l.wait_queue
unfolding refill
refill-granted l now = wake-granted (refilled l now) l.wait_queue

pub refill_stops :
    (l : RateLimiter) (now : ℕ)
    → ((refill l now).0.wait_queue ≡ []) ⊎ (leb_ℤ one_token (refill l now).0.tokens ≡ false)
unfolding refill
refill_stops l now = wake_stops (refilled l now) l.wait_queue

wait_queue-ensure : (l : RateLimiter) → (ensure_refill_timer l).wait_queue ≡ l.wait_queue
unfolding ensure_refill_timer
wait_queue-ensure l = ground arith

-- After a `refill`: a token goes to the new call only if nobody waits.
take_or_wait_fifo :
    (l : RateLimiter) (id : WaiterId)
    → (l.wait_queue ≡ []) ⊎ (leb_ℤ one_token l.tokens ≡ false)
    → (granted (take_or_wait l id).1 ++ (take_or_wait l id).0.wait_queue ≡ l.wait_queue ++ id ∷ [])
      ⊎ ((granted (take_or_wait l id).1 ++ (take_or_wait l id).0.wait_queue ≡ l.wait_queue)
          × (l.max_queue ≤ length (take_or_wait l id).0.wait_queue))
unfolding take_or_wait granted
take_or_wait_fifo l id short_or_nobody = ground (
  arith,
  wait_queue-ensure (record l { wait_queue = l.wait_queue ++ id ∷ [] }),
  ap (λ (q : List WaiterId). q ++ id ∷ []) {x = l.wait_queue} {y = []},
)

-- Two runs one after the other: what the first leaves waiting, the second serves or keeps.
pub served-append :
    (s t : List Settled) (q q' q'' x : List WaiterId)
    → granted s ++ q' ≡ q
    → granted t ++ q'' ≡ q' ++ x
    → granted (s ++ t) ++ q'' ≡ q ++ x
served-append s t q q' q'' x first second =
    rw (granted-append, append_assoc, second, ← append_assoc, first)

pub acquire_running :
    (l : RateLimiter) (id : WaiterId) (now : ℕ)
    → l.destroyed ≡ false
    → acquire l id now ≡ (
      (take_or_wait (refill l now).0 id).0,
      (refill l now).1 ++ (take_or_wait (refill l now).0 id).1,
    )
unfolding acquire
acquire_running l id now running = simp running

-- A call of `acquire` on a limiter that is not destroyed: either it joins the end of those that wait,
-- and then the calls served, in order, followed by those that still wait are the old queue and the new
-- call; or it is refused, which happens only while `max_queue` calls wait, and the calls served and
-- waiting are the old queue. Nobody is overtaken.
pub acquire_fifo :
    (l : RateLimiter) (id : WaiterId) (now : ℕ)
    → l.destroyed ≡ false
    → (granted (acquire l id now).1 ++ (acquire l id now).0.wait_queue ≡ l.wait_queue ++ id ∷ [])
      ⊎ ((granted (acquire l id now).1 ++ (acquire l id now).0.wait_queue ≡ l.wait_queue)
          × (l.max_queue ≤ length (acquire l id now).0.wait_queue))
acquire_fifo l id now running = rw (acquire_running l id now running) (
    let first = refill-granted l now in
    elim (take_or_wait_fifo (refill l now).0 id (refill_stops l now)) [
      | inl joined ↦ inl (
          served-append (refill l now).1 _ l.wait_queue (refill l now).0.wait_queue _ (id ∷ [])
            first joined)
      | inr (refused, full) ↦
          inr (rw (granted-append, append_assoc, refused) first, unfold refill in full)
    ])
