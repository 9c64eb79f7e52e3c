-- ===== src/Ccu/Session/Closed.antt =====
-- src/ccu/session.ts after `logout` or `destroy`: what each event, run to its end, leaves as it was.
use ccu_mcp.Prelude.{
  ℕ, suc, ◌≤◌, ◌≡◌, refl, ◌∙◌, inl, inr, true, not, Option, none, some, List, [], ◌∷◌, ◌==◌, String,
  any, filter, arith, Bool-cases, length, length-filter-le, usable,
}
use ccu_mcp.Action.{thrown, modify}
use ccu_mcp.Action.Respects.{if-Respects, try-Respects}
use ccu_mcp.Ccu.Session.{
  Text, Request, SessionManager, Services, shut_down, session_renew, session_login, session_logout,
  tool_call,
}
use ccu_mcp.Ccu.Session.Calls.{
  request, rearm, forget, text_of, clear_timer, stop_renewal, login, call, logout, destroy,
  renew_once, on_timer, Event, called, entered, fired, left, destroyed, step,
}
use ccu_mcp.Ccu.Session.Steps.{call-Respects, renew_once-Respects}

-- How many logins were sent.
abbrev pub logins : {P : Type 0} → List (Request P) → ℕ
logins [] = 0
logins (session_login ∷ rs) = suc (logins rs)
logins (session_renew sid ∷ rs) = logins rs
logins (session_logout sid ∷ rs) = logins rs
logins (tool_call method params sid ∷ rs) = logins rs

module _ {W P : Type 0} (v : Services W P) where
  abbrev S : Type 0
  S = SessionManager W P

  -- From `s` on, no login was sent and no timer was armed.
  abbrev pub Quiet : S → S → Type 0
  Quiet s s' =
      (s'.closed ≡ true) × (logins s'.sent ≡ logins s.sent) × (length s'.active ≤ length s.active)

  abbrev pub R : S → S → Type 0
  R s s' = s.closed ≡ true → Quiet s s'

  stay : (s : S) → R s s
  stay s c = (c, refl, omega arith)

  chain : (a b c : S) → R a b → R b c → R a c
  chain a b c f g h = let x = f h in let y = g x.0 in (y.0, y.1 ∙ x.1, omega (arith, x.2, y.2))

  login-closed : (s : S) → s.closed ≡ true → login v s ≡ (thrown shut_down, s)
  unfolding login
  login-closed s c = simp c refl

  login-Quiet : (s : S) → R s (login v s).1
  login-Quiet s c = rw (login-closed s c) (stay s c)

  renew-Quiet : (sid : Text) (s : S) → R s (request v (session_renew sid) s).1
  unfolding request
  renew-Quiet sid s c = (c, refl, omega arith)

  tool-Quiet :
      (method : String) (params : P) (sid : Text) (s : S)
      → R s (request v (tool_call method params sid) s).1
  unfolding request
  tool-Quiet method params sid s c = (c, refl, omega arith)

  logout-request-Quiet : (sid : Text) (s : S) → R s (request v (session_logout sid) s).1
  unfolding request
  logout-request-Quiet sid s c = (c, refl, omega arith)

  call-Quiet : (method : String) (params : P) (s : S) → R s (call v method params s).1
  call-Quiet = call-Respects v R stay chain login-Quiet tool-Quiet

  renew_once-Quiet : (s : S) → R s (renew_once v s).1
  renew_once-Quiet = renew_once-Respects v R stay chain login-Quiet renew-Quiet

  clear_timer-Quiet : (o : Option ℕ) (s : S) → R s (clear_timer v o s)
  clear_timer-Quiet none s c = stay s c
  clear_timer-Quiet (some h) s c = (c, refl, length-filter-le (λ a. not (a == h)) s.active)

  shut-Quiet : (s : S) → R s (stop_renewal v (record s { closed = true }))
  shut-Quiet s c = clear_timer-Quiet s.renew_timer (record s { closed = true }) refl

  forget-Quiet : (s : S) → R s (forget v s)
  forget-Quiet s c = elim (Bool-cases (v.writable s.world)) [
    | inl y ↦ simp y (c, refl, omega arith)
    | inr n ↦ simp n (c, refl, omega arith)
  ]

  logout-Quiet : (s : S) → R s (logout v s).1
  unfolding logout
  logout-Quiet s =
      let shut = stop_renewal v (record s { closed = true }) in
      let m = text_of s.session_id in
      chain s shut (logout v s).1 (shut-Quiet s) (
        if-Respects R stay chain (usable s.session_id) _ _
          (try-Respects R stay chain (request v (session_logout m)) (λ _. modify (forget v))
            (λ _. modify (forget v)) (logout-request-Quiet m) (λ a. forget-Quiet)
            (λ e. forget-Quiet))
          stay shut)

  rearm-closed : (handle : ℕ) (s : S) → s.closed ≡ true → rearm v handle s ≡ s
  rearm-closed handle s c = simp c refl

  on_timer-Quiet : (handle : ℕ) (s : S) → R s (on_timer v handle s)
  unfolding on_timer
  on_timer-Quiet handle s c =
      let s0 : S = record s { active = filter (λ a. not (a == handle)) s.active } in
      let q = renew_once-Quiet s0 c in
      rw (rearm-closed handle (renew_once v s0).1 q.0)
        (q.0, q.1, omega (arith, q.2, length-filter-le (λ a. not (a == handle)) s.active))

  pub step-Quiet : (s : S) (e : Event v) → R s (step v s e)
  unfolding step destroy
  step-Quiet s (called method params) = call-Quiet method params s
  step-Quiet s entered = login-Quiet s
  step-Quiet s (fired handle) = elim (Bool-cases (any (λ a. a == handle) s.active)) [
    | inl y ↦ simp y (on_timer-Quiet handle s)
    | inr n ↦ simp n (stay s)
  ]
  step-Quiet s left = logout-Quiet s
  step-Quiet s destroyed = shut-Quiet s
