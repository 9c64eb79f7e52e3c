-- ===== src/Ccu/Session/Tests.antt =====
-- src/ccu/session.ts with a CCU that denies every call and renews every session.
use ccu_mcp.Prelude.{ℕ, ◌+◌, ◌≡◌, refl, true, false, none, some, List, [], ◌∷◌, codes, arith}
use ccu_mcp.Errors.{StructuredError, ccu, auth, plain_error}
use ccu_mcp.Action.{Outcome, ok, thrown}
use ccu_mcp.Ccu.Session.{
  Text, Request, session_renew, session_login, session_logout, tool_call, SessionManager, Services,
  create, denied,
}
use ccu_mcp.Ccu.Session.Calls.{
  logged_in, persist_session, cred_verifier, call, on_timer, Event, called, entered, fired, left,
  destroyed, run,
}
use ccu_mcp.Ccu.Session.Renewal.{IsTimed, on_timer_rearms, run-IsTimed}
use ccu_mcp.Ccu.Session.InFlight.{
  Closing, Late, logging_in, happens, resumes, resume, late_step, late_run,
}
use ccu_mcp.Ccu.Session.Denial.{call-denied}

abbrev refusal : StructuredError
refusal = plain_error auth "access denied" ""

abbrev answer : Request ℕ → Outcome Text
answer (session_renew sid) = ok (codes "true")
answer session_login = ok (codes "new")
answer (session_logout sid) = ok (codes "true")
answer (tool_call method params sid) = thrown (ccu refusal)

-- The world counts what the CCU was sent.
abbrev services : Services ℕ ℕ
services = record {
  client = λ r n. (answer r, n + 1);
  pause = λ n. n;
  config = record { host = codes "ccu"; port = 443; user = codes "u"; password = codes "p" };
  scrypt_hex = λ input salt. some input;
  from_hex = λ t. t;
  salt = λ n. [];
  writable = λ n. true;
}

-- A session manager with a session and its timer.
abbrev running : SessionManager ℕ ℕ
running = record {
  session_id = some (codes "a");
  renew_timer = some 0;
  closed = false;
  file = none;
  next_handle = 1;
  active = 0 ∷ [];
  sent = [];
  world = 0;
}

abbrev finished : SessionManager ℕ ℕ
finished = record running { closed = true }

abbrev events : List (Event services)
events = entered ∷ called "Device.listAll" 5 ∷ fired 0 ∷ left ∷ entered ∷ destroyed ∷ []

run-IsTimed_example : IsTimed services (run services (create 0 none) events)
run-IsTimed_example = run-IsTimed services 0 none events

on_timer_rearms_example :
    (h : ℕ) × ((on_timer services 0 running).renew_timer ≡ some h)
    × ((on_timer services 0 running).active ≡ h ∷ [])
on_timer_rearms_example = on_timer_rearms services 0 running refl refl (omega arith) refl

-- Closed by `destroy` while it waited for `Session.login`.
abbrev closing : Closing services
closing = record {
  manager = record finished { active = []; renew_timer = none };
  login_promise = some (logging_in 3);
}

-- The reply arms a timer that nobody stops.
left_armed : (late_run services closing (resumes (ok (codes "new")) ∷ [])).manager.active ≡ 1 ∷ []
unfolding late_run late_step resume logged_in persist_session cred_verifier
left_armed = refl

abbrev late_events : List (Late services)
late_events =
    happens entered
    ∷ happens (called "Device.listAll" 5)
    ∷ resumes (ok (codes "new"))
    ∷ happens (fired 1)
    ∷ happens left
    ∷ []

call-denied_example : call services "Device.listAll" 5 running ≡ (
  thrown (denied "Device.listAll" refusal),
  record running {
    world = 2;
    sent = session_renew (codes "a") ∷ tool_call "Device.listAll" 5 (codes "a") ∷ [];
  },
)
call-denied_example =
    call-denied services "Device.listAll" 5 running 97 [] (codes "true") refusal 1 2 refl refl refl
      refl refl
