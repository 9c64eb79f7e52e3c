-- ===== src/Resources/Poller/Schedule.antt =====
-- src/resources/poller.ts: when the next poll is due, and what a stop leaves.
use ccu_mcp.Prelude.{
  ℕ, zero, suc, ◌*◌, ◌^◌, ◌≤◌, Bool, true, false, ◌≡◌, refl, ◌∙◌, none, some, List, [], ◌∷◌, arith,
  length, All, ◌+◌,
}
use ccu_mcp.Action.Respects.{Respects}
use ccu_mcp.Resources.Poller.{
  Timeout, ResourcePoller, is_armed, PollServices, backoff, start, stop, on_timeout, finish_poll,
}

pow-positive : (k : ℕ) → 1 ≤ 2 ^ k
pow-positive zero = omega arith
pow-positive (suc k) = omega (arith, pow-positive k)

-- Another failure at most doubles the delay, and never shortens it.
backoff-grows : (k : ℕ) → (backoff k ≤ backoff (suc k)) × (backoff (suc k) ≤ 2 * backoff k)
unfolding backoff
backoff-grows zero = ground arith
backoff-grows (suc k) = ground (arith, pow-positive k)

-- What happens to the poller: a timeout fires, a poll that one began ends, `start` and `stop`.
pub data Event : Type 0 where
  starts stops ends : Event
  fires : (handle : ℕ) → Event

-- The polls that are under way, and how often `start` was called.
pub record Run (W : Type 0) : Type 0 where
  pub poller : ResourcePoller W
  pub polling : ℕ
  pub begun : ℕ

module _ {W D : Type 0} (v : PollServices W D) where
  abbrev fire : Bool → ℕ → Run W → Run W
  fire false h r = r
  fire true h r = record r { poller = on_timeout v h r.poller; polling = suc r.polling }

  abbrev end_poll : ℕ → Run W → Run W
  end_poll zero r = r
  end_poll (suc n) r = record r { poller = finish_poll v r.poller; polling = n }

  unfoldable pub step : Run W → Event → Run W
  step r starts = record r { poller = start v r.poller; begun = suc r.begun }
  step r stops = record r { poller = stop v r.poller }
  step r (fires h) = fire (is_armed h r.poller.armed) h r
  step r ends = end_poll r.polling r

  unfoldable pub run : Run W → List Event → Run W
  run r [] = r
  run r (e ∷ es) = run (step r e) es

  abbrev pub lowest : ℕ
  lowest = v.interval * 1000

  abbrev Timer : ResourcePoller W → ResourcePoller W → Type 0
  Timer p p' = (p'.timer ≡ p.timer) × (p'.armed ≡ p.armed)

  abbrev timer_stay : (p : ResourcePoller W) → Timer p p
  timer_stay p = (refl, refl)

  abbrev timer_chain : (a b c : ResourcePoller W) → Timer a b → Timer b c → Timer a c
  timer_chain a b c h g = (g.0 ∙ h.0, g.1 ∙ h.1)

  -- A timeout is due after the interval at the earliest, and after ten times the interval at the latest.
  abbrev pub IsDue : Timeout → Type 0
  IsDue t = (lowest ≤ t.delay_ms) × (t.delay_ms ≤ lowest * 10)

  -- A poller that was not stopped is polling or has armed the timeout that it holds; every call of `start` has
  -- begun one chain of timeouts and polls at most; the timeouts are due in time; and a poller that was started
  -- once at most has nothing armed once it is stopped.
  pub record Scheduled (r : Run W) : Type 0 where
    pub alive : (h : ℕ) → r.poller.timer ≡ some h → r.polling ≡ 0 → is_armed h r.poller.armed ≡ true
    pub chains : length r.poller.armed + r.polling ≤ r.begun
    pub due : All IsDue r.poller.armed
    pub idle : r.poller.timer ≡ none → r.begun ≤ 1 → r.poller.armed ≡ []
