-- ===== src/Ccu/Session/InFlight.antt =====
-- src/ccu/session.ts: a login that waits while the session manager is closed. `logout` closes it, waits for
-- that login and goes on: these are the events `destroyed`, `resumes` and `left`.
use ccu_mcp.Prelude.{
  ℕ, zero, suc, ◌+◌, ◌≤◌, Bool, true, false, ◌≡◌, Option, none, some, List, [], ◌∷◌, length,
  is_some, if◌then◌else◌,
}
use ccu_mcp.Action.{Outcome, ok, thrown, Action, pure, throw, ◌>>=◌, ◌>>◌, modify}
use ccu_mcp.Ccu.Session.{Text, SessionManager, Services, too_many, login_max_retries}
use ccu_mcp.Ccu.Session.Calls.{
  restored, logged_in, last_failure, pause_login, login_from, try_restore_session, Event, step,
}
use ccu_mcp.Ccu.Session.Closed.{logins}

-- What a `doLogin` waits for: the renewal of the session in memory, that of the session of the file, the
-- reply to `Session.login`, or the pause before the next attempt, with the retries that are left.
pub data Awaiting : Type 0 where
  keeping : Awaiting
  restoring : Text → Awaiting
  logging_in : (left : ℕ) → Awaiting
  pausing : (left : ℕ) → Awaiting

module _ {W P : Type 0} (v : Services W P) where
  abbrev S : Type 0
  S = SessionManager W P

  -- A login, unless the session of the file was restored.
  abbrev pub unless_restored : Bool → Action S (Unit {0})
  unless_restored back = if back then pure tt else login_from v login_max_retries

  -- The rest of `doLogin`, when what it waits for has come.
  unfoldable pub resume : Awaiting → Outcome Text → Action S (Unit {0})
  resume keeping (ok reply) = pure tt
  resume keeping (thrown e) =
      modify (λ s. record s { session_id = none }) >> (try_restore_session v >>= unless_restored)
  resume (restoring sid) (ok reply) = restored v sid >>= unless_restored
  resume (restoring sid) (thrown e) = unless_restored false
  resume (logging_in left) (ok sid) = logged_in v sid
  resume (logging_in zero) (thrown e) = throw (last_failure v (too_many e) e)
  resume (logging_in (suc left)) (thrown e) =
      if is_some (too_many e) then pause_login v >> login_from v left else throw e
  resume (pausing left) o = login_from v left

  -- A session manager and its login that waits; there is one at most, since logins share it.
  pub record Closing : Type 0 where
    pub manager : S
    pub login_promise : Option Awaiting

  -- An event of the session manager, or the login goes on with what it waited for.
  pub data Late : Type 0 where
    happens : Event v → Late
    resumes : Outcome Text → Late

  abbrev resume_step : Option Awaiting → Outcome Text → Closing → Closing
  resume_step none o c = c
  resume_step (some a) o c = record { manager = (resume a o c.manager).1; login_promise = none }

  unfoldable pub late_step : Closing → Late → Closing
  late_step c (happens e) = record c { manager = step v c.manager e }
  late_step c (resumes o) = resume_step c.login_promise o c

  unfoldable pub late_run : Closing → List Late → Closing
  unfolding late_step
  late_run c [] = c
  late_run c (e ∷ es) = late_run (late_step c e) es

  abbrev pub waiting : Option Awaiting → ℕ
  waiting none = 0
  waiting (some a) = 1

  -- Closed, no login more was sent, and at most `k` timers more are armed.
  abbrev Late1 : S → S → Type 0
  Late1 s s' =
      (s'.closed ≡ true)
      × (logins s'.sent ≡ logins s.sent)
      × (length s'.active ≤ length s.active + 1)

  -- What may still happen after the close.
  abbrev pub Settles : Closing → Closing → Type 0
  Settles c d =
      (d.manager.closed ≡ true)
      × (logins d.manager.sent ≡ logins c.manager.sent)
      × (length d.manager.active + waiting d.login_promise
          ≤ length c.manager.active + waiting c.login_promise)
