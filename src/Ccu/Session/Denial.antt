-- ===== src/Ccu/Session/Denial.antt =====
-- `call` of src/ccu/session.ts when the CCU answers that access is denied.
use ccu_mcp.Prelude.{ℕ, ◌≡◌, refl, false, some, ◌∷◌, String, text_eq_iff}
use ccu_mcp.Errors.{StructuredError, ccu, auth}
use ccu_mcp.Action.{Outcome, ok, thrown}
use ccu_mcp.Ccu.Session.{Text, Request, SessionManager, Services, denied, session_renew, tool_call}
use ccu_mcp.Ccu.Session.Calls.{request, login, keep_session, get_session_id, recheck, call}

module _ {W P : Type 0} (v : Services W P) where
  request_lem :
      (r : Request P) (s : SessionManager W P) (o : Outcome Text) (w : W)
      → v.client r s.world ≡ (o, w)
      → request v r s ≡ (o, record s { world = w; sent = r ∷ s.sent })
  unfolding request
  request_lem r s o w e = rw e refl

  -- A login that finds the session alive sends the renewal only, and keeps the session.
  login-alive :
      (s : SessionManager W P) (c : ℕ) (p reply : Text) (w : W)
      → s.closed ≡ false
      → s.session_id ≡ some (c ∷ p)
      → v.client (session_renew (c ∷ p)) s.world ≡ (ok reply, w)
      → login v s ≡ (ok tt, record s { world = w; sent = session_renew (c ∷ p) ∷ s.sent })
  unfolding login keep_session
  login-alive s c p reply w ec es er =
      simp (ec, es, request_lem (session_renew (c ∷ p)) s (ok reply) w er) refl

  recheck-same :
      (method : String) (params : P) (used : Text) (e : StructuredError) (s : SessionManager W P)
      → s.session_id ≡ some used
      → recheck v method params used e s ≡ (thrown (denied method e), s)
  unfolding recheck
  recheck-same method params used e s es = simp (es, (text_eq_iff used used).1 refl) refl

-- If the session is alive for the CCU, a call that the CCU denies ends in a denial, which is no session
-- error that could be retried: the call was sent once, the session was renewed, no login was sent, and
-- the session, its file and its timers stay.
pub call-denied :
    {W P : Type 0} (v : Services W P) (method : String) (params : P) (s : SessionManager W P)
    (c : ℕ) (p reply : Text) (e : StructuredError) (w w' : W)
    → s.closed ≡ false
    → s.session_id ≡ some (c ∷ p)
    → e.error ≡ auth
    → v.client (tool_call method params (c ∷ p)) s.world ≡ (thrown (ccu e), w)
    → v.client (session_renew (c ∷ p)) w ≡ (ok reply, w')
    → call v method params s ≡ (
      thrown (denied method e),
      record s {
        world = w';
        sent = session_renew (c ∷ p) ∷ tool_call method params (c ∷ p) ∷ s.sent;
      },
    )
unfolding call get_session_id
call-denied v method params s c p reply e w w' ec es ea ed er =
    let sent = tool_call method params (c ∷ p) ∷ s.sent in
    let s1 = record s { session_id = some (c ∷ p); world = w; sent = sent } in
    let s2 = record s1 { world = w'; sent = session_renew (c ∷ p) ∷ sent } in
    simp (es, request_lem v (tool_call method params (c ∷ p)) s (thrown (ccu e)) w ed, ea)
      (rw (login-alive v s1 c p reply w' ec refl er)
        (recheck-same v method params (c ∷ p) e s2 refl))
