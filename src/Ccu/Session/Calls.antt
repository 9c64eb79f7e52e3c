-- ===== src/Ccu/Session/Calls.antt =====
-- The methods of `SessionManager`, src/ccu/session.ts.
use ccu_mcp.Prelude.{
  ℕ, suc, zero, Bool, true, false, not, ◌&&◌, Option, none, some, List, [], ◌∷◌, ◌==◌, String, any,
  filter, usable, is_some, text_eq, if◌then◌else◌,
}
use ccu_mcp.Errors.{StructuredError, Failure}
use ccu_mcp.Action.{Action, pure, throw, ◌>>=◌, ◌>>◌, try◌, modify}
use ccu_mcp.Ccu.Session.{
  Text, SessionFile, Request, session_renew, session_login, session_logout, tool_call,
  SessionManager, Services, shut_down, no_session, denied, out_of_retries, auth_error, too_many,
  same_text, same_number, cred_input, login_max_retries,
}

-- The text of a field that `usable` took for true.
abbrev pub text_of : Option Text → Text
text_of none = []
text_of (some t) = t

module _ {W P : Type 0} (v : Services W P) where
  abbrev pub Session : Type 0
  Session = SessionManager W P

  -- `client.call`
  unfoldable pub request : Request P → Action Session Text
  request r s = let (o, w) = v.client r s.world in (o, record s { world = w; sent = r ∷ s.sent })

  abbrev pub clear_timer : Option ℕ → Session → Session
  clear_timer none s = s
  clear_timer (some h) s = record s {
    renew_timer = none;
    active = filter (λ a. not (a == h)) s.active;
  }

  -- `stopRenewal`
  abbrev pub stop_renewal : Session → Session
  stop_renewal s = clear_timer s.renew_timer s

  -- `scheduleRenewal`
  abbrev pub schedule_renewal : Session → Session
  schedule_renewal s = record s {
    renew_timer = some s.next_handle;
    active = s.next_handle ∷ s.active;
    next_handle = suc s.next_handle;
  }

  -- `startRenewal`
  abbrev pub start_renewal : Session → Session
  start_renewal s = schedule_renewal (stop_renewal s)

  -- `credVerifier`
  unfoldable pub cred_verifier : Text → Option Text
  cred_verifier salt = v.scrypt_hex (cred_input v.config) salt

  abbrev equal_bytes : Option Text → Text → Bool
  equal_bytes none stored = false
  equal_bytes (some expected) stored = text_eq (v.from_hex expected) stored

  -- `credMatches`
  unfoldable pub cred_matches : Option Text → Option Text → Bool
  cred_matches none salt = false
  cred_matches (some cred) none = false
  cred_matches (some cred) (some salt) = equal_bytes (cred_verifier salt) (v.from_hex cred)

  -- The test of `tryRestoreSession` on the file.
  unfoldable pub fits : SessionFile → Bool
  fits f =
      usable f.file_session
      && same_text f.file_host (some v.config.host)
      && same_number f.file_port v.config.port
      && same_text f.file_user (some v.config.user)
      && cred_matches f.cred f.cred_salt

  abbrev pub restored : Text → Action Session Bool
  restored sid = modify (λ s. start_renewal (record s { session_id = some sid })) >> pure true

  -- `tryRestoreSession`, of the file that is there.
  unfoldable pub restore_from : Option SessionFile → Action Session Bool
  restore_from none = pure false
  restore_from (some f) =
      if fits f
      then try◌ (request (session_renew (text_of f.file_session)))
          (λ _. restored (text_of f.file_session)) (λ _. pure false)
      else pure false

  abbrev written : Option Text → Text → Text → SessionFile
  written session salt cred = record {
    file_session = session;
    file_host = some v.config.host;
    file_port = some v.config.port;
    file_user = some v.config.user;
    cred_salt = some salt;
    cred = some cred;
  }

  abbrev pub write_session : Option Text → Session → Session
  write_session none s = s
  write_session (some cred) s =
      if usable s.session_id && v.writable s.world
      then record s { file = some (written s.session_id (v.salt s.world) cred) }
      else s

  -- `persistSession`
  unfoldable pub persist_session : Session → Session
  persist_session s = write_session (cred_verifier (v.salt s.world)) s

  abbrev pub clear_persisted_session : Session → Session
  clear_persisted_session s = if v.writable s.world then record s { file = none } else s

  abbrev pub open_guard : Action Session (Unit {0})
  open_guard s = (if s.closed then throw shut_down else pure tt) s

  -- The rest of `doLogin` after the CCU gave a session.
  unfoldable pub logged_in : Text → Action Session (Unit {0})
  logged_in sid = modify (λ s. persist_session (start_renewal (record s { session_id = some sid })))

  -- What is thrown if no retry is left.
  abbrev pub last_failure : Option StructuredError → Failure → Failure
  last_failure none e = e
  last_failure (some se) e = out_of_retries se

  abbrev pub pause_login : Action Session (Unit {0})
  pause_login = modify (λ s. record s { world = v.pause s.world })

  -- The loop of `doLogin`, with the retries that are left.
  unfoldable pub login_from : ℕ → Action Session (Unit {0})
  login_from zero =
      open_guard
      >> try◌ (request session_login) logged_in (λ e. throw (last_failure (too_many e) e))
  login_from (suc left) =
      open_guard
      >> try◌ (request session_login) logged_in
          (λ e. if is_some (too_many e) then pause_login >> login_from left else throw e)

  -- Whether the session in memory still serves; if not, it is dropped.
  unfoldable pub keep_session : Action Session Bool
  keep_session s =
      (if usable s.session_id
          then try◌ (request (session_renew (text_of s.session_id))) (λ _. pure true)
              (λ _. modify (λ s'. record s' { session_id = none }) >> pure false)
          else pure false)
        s

  abbrev pub try_restore_session : Action Session Bool
  try_restore_session s = restore_from s.file s

  -- `doLogin`, which `login` calls.
  unfoldable pub login : Action Session (Unit {0})
  login =
      open_guard
      >> (keep_session >>= λ kept.
          if kept
          then pure tt
          else try_restore_session >>= λ back.
              if back then pure tt else login_from login_max_retries)

  -- `getSessionId`
  unfoldable pub get_session_id : Action Session Text
  get_session_id s =
      (if usable s.session_id then pure (text_of s.session_id) else throw no_session) s

  -- `call`, after its new login: a denial, or the second request.
  unfoldable pub recheck : String → P → Text → StructuredError → Action Session Text
  recheck method params used e s =
      (if same_text s.session_id (some used)
          then throw (denied method e)
          else get_session_id >>= λ sid. request (tool_call method params sid))
        s

  abbrev pub on_failure : String → P → Text → Failure → Option StructuredError → Action Session Text
  on_failure method params used e none = throw e
  on_failure method params used e (some se) = login >> recheck method params used se

  abbrev pub lazy_login : Action Session (Unit {0})
  lazy_login s = (if is_some s.session_id then pure tt else login) s

  -- `call`
  unfoldable pub call : String → P → Action Session Text
  call method params =
      lazy_login
      >> (get_session_id >>= λ sid.
          try◌ (request (tool_call method params sid)) pure
            (λ e. on_failure method params sid e (auth_error e)))

  abbrev pub forget : Session → Session
  forget s = clear_persisted_session (record s { session_id = none })

  -- `logout`
  unfoldable pub logout : Action Session (Unit {0})
  logout s =
      (if usable s.session_id
          then try◌ (request (session_logout (text_of s.session_id))) (λ _. modify forget)
              (λ _. modify forget)
          else pure tt)
        (stop_renewal (record s { closed = true }))

  -- `destroy`
  unfoldable pub destroy : Session → Session
  destroy s = stop_renewal (record s { closed = true })

  -- `renewOnce`
  unfoldable pub renew_once : Action Session (Unit {0})
  renew_once s =
      (if usable s.session_id
          then try◌ (request (session_renew (text_of s.session_id))) (λ _. pure tt)
              (λ _. try◌ login pure (λ _. pure tt))
          else pure tt)
        s

  abbrev pub rearm : ℕ → Session → Session
  rearm handle s =
      if not s.closed && same_number s.renew_timer handle then schedule_renewal s else s

  -- The callback of the timer `handle`, and what follows it.
  unfoldable pub on_timer : ℕ → Session → Session
  on_timer handle s =
      rearm handle (renew_once (record s { active = filter (λ a. not (a == handle)) s.active })).1

  -- What happens to a session manager: a call of a tool, a login, a timer that fires, the end.
  pub data Event : Type 0 where
    called : String → P → Event
    entered : Event
    fired : ℕ → Event
    left : Event
    destroyed : Event

  -- A timer fires only if it has not been cleared.
  unfoldable pub step : Session → Event → Session
  step s (called method params) = (call method params s).1
  step s entered = (login s).1
  step s (fired handle) = if any (λ a. a == handle) s.active then on_timer handle s else s
  step s left = (logout s).1
  step s destroyed = destroy s

  unfoldable pub run : Session → List Event → Session
  unfolding step
  run s [] = s
  run s (e ∷ es) = run (step s e) es
