-- ===== src/Resources/Poller/Tests.antt =====
-- src/resources/poller.ts against a CCU whose lists change with the time.
use ccu_mcp.Prelude.{
  ℕ, String, Bool, true, false, ◌≡◌, refl, none, List, [], ◌∷◌, ◌++◌, if◌then◌else◌, ◌===◌,
}
use ccu_mcp.Prelude.Dict.{get, set}
use ccu_mcp.Errors.{ccu, plain_error, timeout}
use ccu_mcp.Action.{ok, thrown}
use ccu_mcp.Middleware.Retry.{with_retry, attempts, non_idempotent, is_retriable}
use ccu_mcp.Resources.Poller.{
  ResourcePoller, PollServices, fetch, poll_from, rebased, poll, start, stop,
}
use ccu_mcp.Resources.Poller.Schedule.{Event, starts, stops, ends, fires, Run, step, run}

-- The world: the session, whether the rooms have changed, and what was notified.
record World : Type 0 where
  session : ℕ
  changed : Bool
  notified : List String

abbrev reply : World → String → String
reply w method = if method === "Room.getAll" then (if w.changed then "two" else "one") else "same"

-- Programs cannot be listed.
abbrev services : PollServices World String
services = record {
  get_session = λ w. w.session;
  session_call = λ s m w.
      if m === "Program.getAll"
      then (thrown (ccu (plain_error timeout "Request to CCU timed out" "")), w)
      else (ok (reply w m), w);
  take_token = λ w. (ok tt, w);
  delay = λ ms w. (ok tt, w);
  digest = λ d. d;
  notify_changed = λ uris w. (ok tt, record w { notified = w.notified ++ uris });
  interval = 60;
}

abbrev off : World → ResourcePoller World
off w = record {
  hashes = [];
  timer = none;
  armed = [];
  next_handle = 0;
  hashed_session = none;
  consecutive_failures = 0;
  world = w;
}

abbrev quiet : ResourcePoller World
quiet = off (record { session = 1; changed = false; notified = [] })

abbrev first : ResourcePoller World
first = (poll services quiet).1

abbrev later : ResourcePoller World
later = record first { world = record first.world { changed = true } }

-- The first poll is the base, the second notifies of the rooms; the failures of both are counted.
polls :
    (first.world.notified ≡ [])
    × ((poll services later).1.world.notified ≡ "homematic://rooms" ∷ [])
    × ((poll services later).1.consecutive_failures ≡ 2)
unfolding poll rebased poll_from fetch with_retry attempts non_idempotent is_retriable get set
polls = (refl, refl, refl)

abbrev idle : Run World
idle = record { poller = quiet; polling = 0; begun = 0 }

-- Of two starts `stop` takes back one: the timeout of the other stays armed.
left_armed :
    (run services idle (starts ∷ starts ∷ stops ∷ [])).poller.armed
    ≡ record { handle = 0; delay_ms = 60000 } ∷ []
unfolding run step start stop
left_armed = refl

abbrev started : List Event
started = starts ∷ fires 0 ∷ stops ∷ ends ∷ []
