-- ===== src/Ccu/Session/Renewal.antt =====
-- src/ccu/session.ts: the timers of the renewal. However logins and renewals meet, at most one timer is
-- there to fire, and it is the one that `renewTimer` holds.
use mathlib.Core.Path.{subst}
use ccu_mcp.Prelude.{
  ℕ, suc, ◌≤◌, ◌<◌, ◌≡◌, refl, sym, ap, ◌∙◌, ◌⊎◌, inl, inr, Bool, true, false, not, ◌&&◌, Option,
  none, some, List, [], ◌∷◌, ◌==◌, String, any, filter, arith, Bool-cases, usable, if◌then◌else◌,
}
use ccu_mcp.Action.{modify}
use ccu_mcp.Action.Respects.{if-Respects, try-Respects}
use ccu_mcp.Ccu.Session.{
  Text, Request, SessionFile, SessionManager, Services, create, same_number, session_renew,
  session_login, session_logout, tool_call,
}
use ccu_mcp.Ccu.Session.Calls.{
  request, rearm, forget, text_of, clear_timer, write_session, stop_renewal, start_renewal,
  persist_session, login, call, logout, destroy, renew_once, on_timer, Event, called, entered,
  fired, left, destroyed, step, run,
}
use ccu_mcp.Ccu.Session.Steps.{LoginSteps, login-Respects, call-Respects, renew_once-Respects}

eq_self : (n : ℕ) → (n == n) ≡ true
eq_self n = ground arith

eq_later : (k n : ℕ) → n < k → (k == n) ≡ false
eq_later k n l = ground arith

-- What the timers have to do with.
record Timers : Type 0 where
  is_closed : Bool
  held : Option ℕ
  armed : List ℕ
  next : ℕ

-- At most one timer will fire, and it is the one that is held.
abbrev pub Stoppable : Option ℕ → List ℕ → ℕ → Type 0
Stoppable none active next = active ≡ []
Stoppable (some h) active next = ((active ≡ h ∷ []) ⊎ (active ≡ [])) × (h < next)

abbrev CanStop : Timers → Type 0
CanStop t = Stoppable t.held t.armed t.next

abbrev armed_at : Bool → ℕ → Timers
armed_at c h = record { is_closed = c; held = some h; armed = h ∷ []; next = suc h }

-- The timers stay, or one is armed instead of what there was.
abbrev Moves : Timers → Timers → Type 0
Moves t t' = (t' ≡ t) ⊎ ((h : ℕ) × (t' ≡ armed_at t.is_closed h) × (t.next ≤ h))

CanStop-Moves : (t t' : Timers) → CanStop t → Moves t t' → CanStop t'
CanStop-Moves t t' c (inl p) = subst CanStop (sym p) c
CanStop-Moves t t' c (inr (h, p, l)) = subst CanStop (sym p) (inl refl, omega arith)

Moves-chain : (a b c : Timers) → Moves a b → Moves b c → Moves a c
Moves-chain a b c (inl p) m = subst (λ t. Moves t c) p m
Moves-chain a b c (inr (h, p, l)) (inl q) = inr (h, q ∙ p, l)
Moves-chain a b c (inr (h, p, l)) (inr (k, q, m)) = inr (
  k,
  q ∙ ap (λ (t : Timers). armed_at t.is_closed k) p,
  omega (arith, ap (λ (t : Timers). t.next) p),
)

module _ {W P : Type 0} (v : Services W P) where
  abbrev S : Type 0
  S = SessionManager W P

  abbrev timers : S → Timers
  timers s = record {
    is_closed = s.closed;
    held = s.renew_timer;
    armed = s.active;
    next = s.next_handle;
  }

  abbrev pub IsTimed : S → Type 0
  IsTimed s = Stoppable s.renew_timer s.active s.next_handle

  abbrev R : S → S → Type 0
  R s s' = CanStop (timers s) → Moves (timers s) (timers s')

  stay : (s : S) → R s s
  stay s c = inl refl

  chain : (a b c : S) → R a b → R b c → R a c
  chain a b c f g h =
      Moves-chain (timers a) (timers b) (timers c) (f h)
        (g (CanStop-Moves (timers a) (timers b) h (f h)))

  request-timers : (r : Request P) (s : S) → timers (request v r s).1 ≡ timers s
  unfolding request
  request-timers r s = refl

  write_session-timers : (o : Option Text) (s : S) → timers (write_session v o s) ≡ timers s
  write_session-timers none s = refl
  write_session-timers (some cred) s =
      elim (Bool-cases (usable s.session_id && v.writable s.world)) [
        | inl y ↦ simp y refl
        | inr n ↦ simp n refl
      ]

  persist-timers : (s : S) → timers (persist_session v s) ≡ timers s
  unfolding persist_session
  persist-timers s = write_session-timers _ s

  clear_timer-timers :
      (o : Option ℕ) (s : S)
      → Stoppable o s.active s.next_handle
      → s.renew_timer ≡ o
      → timers (clear_timer v o s)
        ≡ record { is_closed = s.closed; held = none; armed = []; next = s.next_handle }
  clear_timer-timers none s c e = rw (e, c) refl
  clear_timer-timers (some h) s (inl a, l) e = rw a (simp (eq_self h) refl)
  clear_timer-timers (some h) s (inr a, l) e = rw a refl

  restart-timers :
      (s : S) → CanStop (timers s) → timers (start_renewal v s) ≡ armed_at s.closed s.next_handle
  restart-timers s c =
      ap
        (λ (t : Timers). record {
          is_closed = t.is_closed;
          held = some t.next;
          armed = t.next ∷ t.armed;
          next = suc t.next;
        })
        (clear_timer-timers s.renew_timer s c refl)

  steps : LoginSteps v R stay chain
  steps = record {
    renews = λ sid s c. inl (request-timers (session_renew sid) s);
    asks = λ s c. inl (request-timers session_login s);
    begins = λ sid s c.
        inr (s.next_handle, restart-timers (record s { session_id = some sid }) c, omega arith);
    persists = λ s c. inl (persist-timers s);
    drops = λ s c. inl refl;
    waits = λ s c. inl refl;
  }

  login-Moves : (s : S) → R s (login v s).1
  login-Moves = login-Respects v R stay chain steps

  call-Moves : (method : String) (params : P) (s : S) → R s (call v method params s).1
  call-Moves =
      call-Respects v R stay chain login-Moves
        λ method params sid s c. inl (request-timers (tool_call method params sid) s)

  renew_once-Moves : (s : S) → R s (renew_once v s).1
  renew_once-Moves =
      renew_once-Respects v R stay chain login-Moves
        λ sid s c. inl (request-timers (session_renew sid) s)

  moved-IsTimed : (s t : S) → R s t → IsTimed s → IsTimed t
  moved-IsTimed s t r h = CanStop-Moves (timers s) (timers t) h (r h)

  stop-IsTimed : (s : S) → IsTimed s → IsTimed (stop_renewal v s)
  stop-IsTimed s h = subst CanStop (sym (clear_timer-timers s.renew_timer s h refl)) refl

  forget-timers : (s : S) → timers (forget v s) ≡ timers s
  forget-timers s = elim (Bool-cases (v.writable s.world)) [
    | inl y ↦ simp y refl
    | inr n ↦ simp n refl
  ]

  logout-IsTimed : (s : S) → IsTimed s → IsTimed (logout v s).1
  unfolding logout
  logout-IsTimed s h =
      let shut = stop_renewal v (record s { closed = true }) in
      let m = session_logout (text_of s.session_id) in
      moved-IsTimed shut (logout v s).1
        (if-Respects R stay chain (usable s.session_id) _ _
          (try-Respects R stay chain (request v m) (λ _. modify (forget v)) (λ _. modify (forget v))
            (λ s c. inl (request-timers m s)) (λ a s c. inl (forget-timers s))
            (λ e s c. inl (forget-timers s)))
          stay shut)
        (stop-IsTimed (record s { closed = true }) h)

  destroy-IsTimed : (s : S) → IsTimed s → IsTimed (destroy v s)
  unfolding destroy
  destroy-IsTimed s h = stop-IsTimed (record s { closed = true }) h

  -- What a renewal left, before the timer is armed again: the timer `handle` has fired.
  abbrev Rearmed : Timers → Timers → Type 0
  Rearmed t t' =
      CanStop t' × (t.is_closed ≡ false → (h : ℕ) × (t'.held ≡ some h) × (t'.armed ≡ h ∷ []))

  abbrev rearm_timers : ℕ → Timers → Timers
  rearm_timers handle t =
      if not t.is_closed && same_number t.held handle
      then record t { held = some t.next; armed = t.next ∷ t.armed; next = suc t.next }
      else t

  rearm-timers : (handle : ℕ) (s : S) → timers (rearm v handle s) ≡ rearm_timers handle (timers s)
  rearm-timers handle s = elim (Bool-cases (not s.closed && same_number s.renew_timer handle)) [
    | inl y ↦ simp y refl
    | inr n ↦ simp n refl
  ]

  abbrev gone : Bool → (handle next : ℕ) → Timers
  gone c handle next = record { is_closed = c; held = some handle; armed = []; next = next }

  rearmed :
      (c : Bool) (handle next : ℕ) (t : Timers)
      → handle < next
      → Moves (gone c handle next) t
      → Rearmed (gone c handle next) (rearm_timers handle t)
  rearmed true handle next t l (inl p) =
      subst (λ (t : Timers). Rearmed (gone true handle next) (rearm_timers handle t)) (sym p)
        ((inr refl, l), λ e. absurd cc)
  rearmed false handle next t l (inl p) =
      subst (λ (t : Timers). Rearmed (gone false handle next) (rearm_timers handle t)) (sym p)
        (simp (eq_self handle) ((inl refl, omega arith), λ e. (next, refl, refl)))
  rearmed true handle next t l (inr (k, p, m)) =
      subst (λ (t : Timers). Rearmed (gone true handle next) (rearm_timers handle t)) (sym p)
        ((inl refl, omega arith), λ e. absurd cc)
  rearmed false handle next t l (inr (k, p, m)) =
      subst (λ (t : Timers). Rearmed (gone false handle next) (rearm_timers handle t)) (sym p)
        (simp (eq_later k handle (omega arith)) ((inl refl, omega arith), λ e. (k, refl, refl)))

  fired-Rearmed :
      (handle : ℕ) (s : S)
      → s.renew_timer ≡ some handle
      → s.active ≡ handle ∷ []
      → handle < s.next_handle
      → Rearmed (timers s) (timers (on_timer v handle s))
  unfolding on_timer
  fired-Rearmed handle s er ea l =
      let s0 : S = record s { active = filter (λ a. not (a == handle)) s.active } in
      let e0 : timers s0 ≡ gone s.closed handle s.next_handle =
        rw (er, ea) (simp (eq_self handle) refl) in
      let c0 : CanStop (timers s0) = subst CanStop (sym e0) (inr refl, l) in
      subst (Rearmed (timers s)) (sym (rearm-timers handle (renew_once v s0).1)) (
        rearmed s.closed handle s.next_handle (timers (renew_once v s0).1) l (
          subst (λ (t : Timers). Moves t (timers (renew_once v s0).1)) e0 (renew_once-Moves s0 c0)))

-- The renewal goes on: when the timer that is held fires before the session manager is closed, one
-- timer is armed afterwards, and it is held; whether the renewal and the login that may follow succeed
-- or fail.
pub on_timer_rearms :
    {W P : Type 0} (v : Services W P) (handle : ℕ) (s : SessionManager W P)
    → s.renew_timer ≡ some handle
    → s.active ≡ handle ∷ []
    → handle < s.next_handle
    → s.closed ≡ false
    → (h : ℕ) × ((on_timer v handle s).renew_timer ≡ some h)
      × ((on_timer v handle s).active ≡ h ∷ [])
on_timer_rearms v handle s er ea l c = (fired-Rearmed v handle s er ea l).1 c

held :
    (o : Option ℕ) (l : List ℕ) (n handle : ℕ)
    → Stoppable o l n
    → any (λ a. a == handle) l ≡ true
    → (o ≡ some handle) × (l ≡ handle ∷ []) × (handle < n)
held none l n handle c f = let f' = rw c at f in absurd cc
held (some h) l n handle (inl e, b) f =
    let f' = rw e at f in
    let same : h ≡ handle = ground arith in
    (ap some same, e ∙ ap (λ (x : ℕ). x ∷ []) same, omega (arith, same))
held (some h) l n handle (inr e, b) f = let f' = rw e at f in absurd cc

module _ {W P : Type 0} (v : Services W P) where
  step-IsTimed : (s : SessionManager W P) (e : Event v) → IsTimed v s → IsTimed v (step v s e)
  unfolding step
  step-IsTimed s (called method params) h =
      moved-IsTimed v s (call v method params s).1 (call-Moves v method params s) h
  step-IsTimed s entered h = moved-IsTimed v s (login v s).1 (login-Moves v s) h
  step-IsTimed s (fired handle) h = elim (Bool-cases (any (λ a. a == handle) s.active)) [
    | inl y ↦
        let e = held s.renew_timer s.active s.next_handle handle h y in
        simp y (fired-Rearmed v handle s e.0 e.1 e.2).0
    | inr n ↦ simp n h
  ]
  step-IsTimed s left h = logout-IsTimed v s h
  step-IsTimed s destroyed h = destroy-IsTimed v s h

  run-keeps : (s : SessionManager W P) (es : List (Event v)) → IsTimed v s → IsTimed v (run v s es)
  unfolding run
  run-keeps s [] h = h
  run-keeps s (e ∷ es) h = run-keeps (step v s e) es (step-IsTimed s e h)

-- Whatever happens to a new session manager, at most one timer will fire, and it is the one that
-- `renewTimer` holds: no login and no renewal leaves a second one.
pub run-IsTimed :
    {W P : Type 0} (v : Services W P) (world : W) (file : Option SessionFile) (es : List (Event v))
    → IsTimed v (run v (create world file) es)
run-IsTimed v world file es = run-keeps v (create world file) es refl
