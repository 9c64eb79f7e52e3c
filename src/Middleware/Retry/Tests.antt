-- ===== src/Middleware/Retry/Tests.antt =====
-- src/middleware/retry.ts at a scripted server: each request takes the next answer of the script.
use ccu_mcp.Prelude.{ℕ, ◌+◌, ◌≤◌, ◌≡◌, refl, some, List, [], ◌∷◌, arith}
use ccu_mcp.Errors.{Failure, ccu, JsError, timeout, plain_error, map_network_error}
use ccu_mcp.Action.{Outcome, ok, thrown, Action}
use ccu_mcp.Middleware.Retry.{
  non_idempotent, is_retriable, RetryOptions, one_retry, attempts, with_retry,
}
use ccu_mcp.Middleware.Retry.Laws.{Counts, FailsForGood, with_retry-sent}

record Script : Type 0 where
  answers : List (Outcome ℕ)
  sent : ℕ
  paid : ℕ

abbrev slow : Failure
slow = ccu (plain_error timeout "Request to CCU timed out" "")

abbrev request : Action Script ℕ
request s = elim s.answers [
  | [] ↦ (thrown slow, record s { sent = s.sent + 1 })
  | a ∷ rest ↦ (a, record s { answers = rest; sent = s.sent + 1 })
]

abbrev sleep : ℕ → Action Script (Unit {0})
sleep n s = (ok tt, s)

abbrev token : Action Script (Unit {0})
token s = (ok tt, record s { paid = s.paid + 1 })

abbrev script : List (Outcome ℕ) → Script
script answers = record { answers = answers; sent = 0; paid = 0 }

abbrev options : RetryOptions Script
options = one_retry token

-- A timeout is retried once, and the second answer counts.
retries :
    (with_retry sleep options request "Room.getAll" (script (thrown slow ∷ ok 7 ∷ []))
      ≡ (ok 7, record { answers = []; sent = 2; paid = 1 }))
    × (with_retry sleep options request "ReGa.runScript" (script (thrown slow ∷ ok 7 ∷ []))
        ≡ (thrown slow, record { answers = ok 7 ∷ []; sent = 1; paid = 0 }))
unfolding with_retry attempts is_retriable non_idempotent
retries = (refl, refl)

request-sent : (s : Script) → (request s).1.sent ≡ s.sent + 1
request-sent s = ground arith

request-paid : (s : Script) → (request s).1.paid ≡ s.paid
request-paid s = ground arith

counted : Counts sleep options request (λ s. s.sent) (λ s. s.paid)
counted = record {
  sends = request-sent;
  sends_free = request-paid;
  sleep_sent = λ n s. refl;
  sleep_paid = λ n s. refl;
  pay_sent = λ s. refl;
  pay_paid = λ s. omega arith;
  pay_ok = λ s h. refl;
}

final : FailsForGood sleep options request (λ s. s.sent) (λ s. s.paid)
final = record { at_sleep = λ n s e h. cc; at_pay = λ s e h. cc }

with_retry-sent_example :
    ((with_retry sleep options request "Room.getAll" (script [])).1.sent ≤ 0 + 1 + 1)
    × ((with_retry sleep options request "Room.getAll" (script [])).1.sent + 0
        ≤ 0 + 1 + (with_retry sleep options request "Room.getAll" (script [])).1.paid)
with_retry-sent_example =
    with_retry-sent sleep options request (λ s. s.sent) (λ s. s.paid) counted "Room.getAll"
      (script [])

abbrev intercepted : JsError
intercepted = record {
  name = "TypeError";
  message = "fetch failed (timeout)";
  cause = some "fingerprint mismatch";
}

abbrev attacked : Script
attacked = script (thrown (ccu (map_network_error intercepted "Room.getAll")) ∷ ok 1 ∷ [])
