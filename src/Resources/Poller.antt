-- ===== src/Resources/Poller.antt =====
-- src/resources/poller.ts. A session is a number that tells it from others. `poll` runs by itself; a stop
-- during a poll is an event between its beginning and its end (Poller/Schedule).
mod Switch
mod Schedule
mod Tests
use ccu_mcp.Prelude.{
  ℕ, zero, suc, ◌*◌, ◌^◌, min, String, Bool, true, false, not, ◌&&◌, Option, none, some, List, [],
  ◌∷◌, ◌++◌, ◌==◌, ◌===◌, any, filter, if◌then◌else◌,
}
use ccu_mcp.Prelude.Dict.{Dict, get, set}
use ccu_mcp.Action.{Outcome, Action, pure, ◌>>=◌, ◌>>◌, try◌, modify}
use ccu_mcp.Middleware.Retry.{one_retry, with_retry}

pub record PollableResource : Type 0 where
  pub uri : String
  pub method : String

abbrev pub polled : (uri method : String) → PollableResource
polled uri method = record { uri = uri; method = method }

-- `POLLABLE`
abbrev pub pollable : List PollableResource
pollable =
    polled "homematic://devices" "Device.listAllDetail"
    ∷ polled "homematic://rooms" "Room.getAll"
    ∷ polled "homematic://functions" "Subsection.getAll"
    ∷ polled "homematic://programs" "Program.getAll"
    ∷ polled "homematic://sysvars" "SysVar.getAll"
    ∷ polled "homematic://interfaces" "Interface.listInterfaces"
    ∷ []

-- `MAX_BACKOFF_MULTIPLIER`
abbrev pub max_backoff_multiplier : ℕ
max_backoff_multiplier = 10

-- A timeout of the runtime that is armed: its handle and its delay.
pub record Timeout : Type 0 where
  pub handle : ℕ
  pub delay_ms : ℕ

-- The fields of `ResourcePoller` that change, with what the runtime keeps of its timeouts: those that are
-- armed, and the handle of the next. `timer` is the handle of the last one, also after that has fired.
pub record ResourcePoller (W : Type 0) : Type 0 where
  pub hashes : Dict String
  pub timer : Option ℕ
  pub armed : List Timeout
  pub next_handle : ℕ
  pub hashed_session : Option ℕ
  pub consecutive_failures : ℕ
  pub world : W

-- What the poller is given. `digest` is the SHA-256 of the JSON text of a reply.
pub record PollServices (W D : Type 0) : Type 0 where
  pub get_session : W → ℕ
  pub session_call : ℕ → String → Action W D
  pub take_token : Action W (Unit {0})
  pub delay : ℕ → Action W (Unit {0})
  pub digest : D → String
  pub notify_changed : List String → Action W (Unit {0})
  pub interval : ℕ

-- `prev && prev !== hash`
abbrev pub differs : Option String → String → Bool
differs none hash = false
differs (some prev) hash = not (prev === "") && not (prev === hash)

-- The multiplier of the next delay.
unfoldable pub backoff : ℕ → ℕ
backoff zero = 1
backoff (suc k) = min (2 ^ k) max_backoff_multiplier

-- `clearTimeout`; a timeout that fires is disarmed too.
abbrev pub disarm : ℕ → List Timeout → List Timeout
disarm h l = filter (λ t. not (t.handle == h)) l

abbrev pub is_armed : ℕ → List Timeout → Bool
is_armed h l = any (λ t. t.handle == h) l

module _ {W D : Type 0} (v : PollServices W D) where
  -- `schedule`: an earlier timeout stays armed.
  abbrev pub schedule : ℕ → ResourcePoller W → ResourcePoller W
  schedule delay_ms p = record p {
    timer = some p.next_handle;
    armed = record { handle = p.next_handle; delay_ms = delay_ms } ∷ p.armed;
    next_handle = suc p.next_handle;
  }

  -- `start`
  unfoldable pub start : ResourcePoller W → ResourcePoller W
  start p = schedule (v.interval * 1000) p

  abbrev pub clear : Option ℕ → ResourcePoller W → ResourcePoller W
  clear none p = p
  clear (some h) p = record p { timer = none; armed = disarm h p.armed }

  -- `stop`
  unfoldable pub stop : ResourcePoller W → ResourcePoller W
  stop p = clear p.timer p

  abbrev on_world : {A : Type 0} → Action W A → Action (ResourcePoller W) A
  on_world m p = let (o, w) = m p.world in (o, record p { world = w })

  -- A request with a token, retried.
  unfoldable pub fetch : ℕ → PollableResource → Action (ResourcePoller W) D
  fetch session r =
      on_world v.take_token
      >> with_retry (λ ms. on_world (v.delay ms)) (one_retry (on_world v.take_token))
          (on_world (v.session_call session r.method)) r.method

  -- The URIs that changed, with one more if its digest did.
  abbrev pub noted : String → Option String → String → List String → List String
  noted uri prev hash changed = if differs prev hash then changed ++ uri ∷ [] else changed

  abbrev pub remember : String → String → ResourcePoller W → ResourcePoller W
  remember uri hash p = record p { hashes = set p.hashes uri hash }

  -- The loop: the URIs that changed, and whether a request failed.
  unfoldable pub poll_from :
      ℕ
      → List PollableResource
      → List String
      → Bool
      → Action (ResourcePoller W) (List String × Bool)
  poll_from session [] changed failed = pure (changed, failed)
  poll_from session (r ∷ rs) changed failed =
      try◌ (fetch session r)
        (λ reply p.
          poll_from session rs (noted r.uri (get p.hashes r.uri) (v.digest reply) changed) failed
            (remember r.uri (v.digest reply) p))
        (λ e. poll_from session rs changed true)

  abbrev pub count_failures : Bool → ResourcePoller W → ResourcePoller W
  count_failures failed p = record p {
    consecutive_failures = if failed then suc p.consecutive_failures else 0;
  }

  -- A consumer that fails is ignored.
  abbrev pub notify : List String → Action (ResourcePoller W) (Unit {0})
  notify [] = pure tt
  notify (uri ∷ uris) = try◌ (on_world (v.notify_changed (uri ∷ uris))) pure (λ e. pure tt)

  abbrev pub is_hashed : Option ℕ → ℕ → Bool
  is_hashed none session = false
  is_hashed (some s) session = s == session

  -- A switch of the session forgets the digests.
  unfoldable pub rebased : ResourcePoller W → ResourcePoller W
  rebased p =
      let session = v.get_session p.world in
      if is_hashed p.hashed_session session
      then p
      else record p { hashes = []; hashed_session = some session }

  -- What follows the loop.
  abbrev pub wind_up : (List String × Bool) → Action (ResourcePoller W) (Unit {0})
  wind_up r = modify (count_failures r.1) >> notify r.0

  -- `poll`
  unfoldable pub poll : Action (ResourcePoller W) (Unit {0})
  poll p = (poll_from (v.get_session p.world) pollable [] false >>= wind_up) (rebased p)

  -- The callback of a timeout, up to the end of `poll`.
  unfoldable pub on_timeout : ℕ → ResourcePoller W → ResourcePoller W
  on_timeout h p = (poll (record p { armed = disarm h p.armed })).1

  abbrev pub reschedule : Option ℕ → ResourcePoller W → ResourcePoller W
  reschedule none p = p
  reschedule (some h) p = schedule (v.interval * 1000 * backoff p.consecutive_failures) p

  -- `finally`
  unfoldable pub finish_poll : ResourcePoller W → ResourcePoller W
  finish_poll p = reschedule p.timer p
