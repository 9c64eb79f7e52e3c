-- ===== src/Ccu/Session/Steps.antt =====
-- src/ccu/session.ts: a relation that the single steps respect is respected by the methods.
use ccu_mcp.Prelude.{ℕ, zero, suc, true, false, Option, none, some, String, usable, is_some}
use ccu_mcp.Errors.{StructuredError, Failure}
use ccu_mcp.Action.{Action}
use ccu_mcp.Action.Respects.{
  Respects, pure-Respects, throw-Respects, bind-Respects, try-Respects, if-Respects,
}
use ccu_mcp.Ccu.Session.{
  Text, SessionFile, session_renew, session_login, tool_call, SessionManager, Services, shut_down,
  no_session, denied, auth_error, too_many, same_text, login_max_retries,
}
use ccu_mcp.Ccu.Session.Calls.{
  text_of, open_guard, pause_login, try_restore_session, lazy_login, request, start_renewal, fits,
  restore_from, persist_session, logged_in, login_from, keep_session, login, get_session_id,
  recheck, on_failure, call, renew_once,
}

module _ {W P : Type 0} (v : Services W P) (R : SessionManager W P → SessionManager W P → Type 0)
    (stay : (s : SessionManager W P) → R s s)
    (chain : (a b c : SessionManager W P) → R a b → R b c → R a c) where
  abbrev Keeps {ℓ} : {A : Type ℓ} → Action (SessionManager W P) A → Type 0
  Keeps m = Respects R stay chain m

  -- The single steps of a login.
  pub record LoginSteps : Type 0 where
    pub renews : (sid : Text) → Keeps (request v (session_renew sid))
    pub asks : Keeps (request v session_login)
    pub begins :
        (sid : Text) (s : SessionManager W P)
        → R s (start_renewal v (record s { session_id = some sid }))
    pub persists : (s : SessionManager W P) → R s (persist_session v s)
    pub drops : (s : SessionManager W P) → R s (record s { session_id = none })
    pub waits : (s : SessionManager W P) → R s (record s { world = v.pause s.world })

  open_guard-Respects : Keeps (open_guard v)
  open_guard-Respects s =
      if-Respects R stay chain s.closed _ _ (throw-Respects R stay chain (Unit {0}) shut_down)
        (pure-Respects R stay chain (tt {0})) s

  module _ (b : LoginSteps) where
    restore_from-Respects : (f : Option SessionFile) → Keeps (restore_from v f)
    unfolding restore_from
    restore_from-Respects none = pure-Respects R stay chain false
    restore_from-Respects (some f) =
        if-Respects R stay chain (fits v f) _ _
          (try-Respects R stay chain _ _ _ (b.renews (text_of f.file_session))
            (λ a s. b.begins (text_of f.file_session) s) (λ e. pure-Respects R stay chain false))
          (pure-Respects R stay chain false)

    logged_in-Respects : (sid : Text) → Keeps (logged_in v sid)
    unfolding logged_in
    logged_in-Respects sid s =
        chain s (start_renewal v (record s { session_id = some sid })) _ (b.begins sid s)
          (b.persists _)

    login_from-Respects : (left : ℕ) → Keeps (login_from v left)
    unfolding login_from
    login_from-Respects zero = bind-Respects R stay chain (open_guard v) _ open_guard-Respects λ a.
        try-Respects R stay chain (request v session_login) _ _ b.asks logged_in-Respects λ e. stay
    login_from-Respects (suc left) =
        bind-Respects R stay chain (open_guard v) _ open_guard-Respects λ a.
          try-Respects R stay chain (request v session_login) _ _ b.asks logged_in-Respects λ e.
            if-Respects R stay chain (is_some (too_many e)) _ _
              (bind-Respects R stay chain (pause_login v) (λ u. login_from v left) b.waits
                λ u. login_from-Respects left)
              stay

    keep_session-Respects : Keeps (keep_session v)
    unfolding keep_session
    keep_session-Respects s =
        if-Respects R stay chain (usable s.session_id) _ _
          (try-Respects R stay chain (request v (session_renew (text_of s.session_id))) _ _
            (b.renews (text_of s.session_id)) (λ a. pure-Respects R stay chain true) (λ e. b.drops))
          (pure-Respects R stay chain false) s

    pub login-Respects : Keeps (login v)
    unfolding login
    login-Respects = bind-Respects R stay chain (open_guard v) _ open_guard-Respects λ a.
        bind-Respects R stay chain (keep_session v) _ keep_session-Respects λ kept.
          if-Respects R stay chain kept _ _ (pure-Respects R stay chain (tt {0})) (
            bind-Respects R stay chain (try_restore_session v) _
              (λ s. restore_from-Respects s.file s)
              λ back.
                if-Respects R stay chain back _ _ (pure-Respects R stay chain (tt {0}))
                  (login_from-Respects login_max_retries))

  get_session_id-Respects : Keeps (get_session_id v)
  unfolding get_session_id
  get_session_id-Respects s =
      if-Respects R stay chain (usable s.session_id) _ _
        (pure-Respects R stay chain (text_of s.session_id))
        (throw-Respects R stay chain Text no_session) s

  module _ (enters : Keeps (login v)) where
    module _
        (asks : (method : String) (params : P) (sid : Text)
          → Keeps (request v (tool_call method params sid))) where
      recheck-Respects :
          (method : String) (params : P) (used : Text) (e : StructuredError)
          → Keeps (recheck v method params used e)
      unfolding recheck
      recheck-Respects method params used e s =
          if-Respects R stay chain (same_text s.session_id (some used)) _ _
            (throw-Respects R stay chain Text (denied method e))
            (bind-Respects R stay chain (get_session_id v) _ get_session_id-Respects
              λ sid. asks method params sid)
            s

      on_failure-Respects :
          (method : String) (params : P) (used : Text) (e : Failure) (o : Option StructuredError)
          → Keeps (on_failure v method params used e o)
      on_failure-Respects method params used e none = throw-Respects R stay chain Text e
      on_failure-Respects method params used e (some se) =
          bind-Respects R stay chain (login v) _ enters λ a. recheck-Respects method params used se

      pub call-Respects : (method : String) (params : P) → Keeps (call v method params)
      unfolding call
      call-Respects method params =
          bind-Respects R stay chain (lazy_login v) _
            (λ s.
              if-Respects R stay chain (is_some s.session_id) _ _
                (pure-Respects R stay chain (tt {0})) enters s)
            λ a. bind-Respects R stay chain (get_session_id v) _ get_session_id-Respects λ sid.
              try-Respects R stay chain (request v (tool_call method params sid)) _ _
                (asks method params sid) (pure-Respects R stay chain)
                λ e. on_failure-Respects method params sid e (auth_error e)

    pub renew_once-Respects :
        ((sid : Text) → Keeps (request v (session_renew sid))) → Keeps (renew_once v)
    unfolding renew_once
    renew_once-Respects renews s =
        if-Respects R stay chain (usable s.session_id) _ _
          (try-Respects R stay chain (request v (session_renew (text_of s.session_id))) _ _
            (renews (text_of s.session_id)) (λ a. pure-Respects R stay chain (tt {0}))
            λ e.
              try-Respects R stay chain (login v) _ _ enters (pure-Respects R stay chain)
                λ e'. pure-Respects R stay chain (tt {0}))
          (pure-Respects R stay chain (tt {0})) s
