-- ===== src/Action/Ends.antt =====
-- How an action ends: a relation of the state before, the outcome and the state after, where the steps
-- before the decisive one respect a relation of states.
use mathlib.Core.Path.{subst}
use ccu_mcp.Prelude.{◌≡◌, refl, Bool, true, false, if◌then◌else◌}
use ccu_mcp.Errors.{Failure}
use ccu_mcp.Action.{Outcome, ok, thrown, Action, continue, settle, pure, ◌>>=◌}

module _ {ℓ} {S : Type 0} {A : Type ℓ} (R : S → S → Type 0) (B : S → Outcome A → S → Type 0)
    (fails : (a b : S) (e : Failure) → R a b → B a (thrown e) b)
    (before : (a b c : S) (o : Outcome A) → R a b → B b o c → B a o c) where
  abbrev pub Ends : Action S A → Type 0
  Ends m = (s : S) → B s (m s).0 (m s).1

  continue-Ends :
      {X : Type 0} (o : Outcome X) (f : X → Action S A) (a b : S)
      → R a b
      → ((x : X) → o ≡ ok x → B b (f x b).0 (f x b).1)
      → B a (continue o f b).0 (continue o f b).1
  continue-Ends (ok x) f a b r h = before a b _ _ r (h x refl)
  continue-Ends (thrown e) f a b r h = fails a b e r

  -- The rest may rely on what the first step gave, from the state at which it ran.
  pub bind_ok-Ends :
      {X : Type 0} (m : Action S X) (f : X → Action S A) (s : S)
      → R s (m s).1
      → ((x : X) → (m s).0 ≡ ok x → B (m s).1 (f x (m s).1).0 (f x (m s).1).1)
      → B s ((m >>= f) s).0 ((m >>= f) s).1
  bind_ok-Ends m f s r h = continue-Ends (m s).0 f s (m s).1 r h

  pub bind-Ends :
      {X : Type 0} (m : Action S X) (f : X → Action S A)
      → ((s : S) → R s (m s).1)
      → ((x : X) → Ends (f x))
      → Ends (m >>= f)
  bind-Ends m f r h s = bind_ok-Ends m f s (r s) λ x e. h x (m s).1

module _ {ℓ} {S : Type 0} {A : Type ℓ} (B : S → Outcome A → S → Type 0) where
  pub if-Ends :
      (b : Bool) (m n : Action S A)
      → ((s : S) → B s (m s).0 (m s).1)
      → ((s : S) → B s (n s).0 (n s).1)
      → (s : S) → B s ((if b then m else n) s).0 ((if b then m else n) s).1
  if-Ends true m n hm hn = hm
  if-Ends false m n hm hn = hn

-- What a run that succeeds guarantees of its result and of the state that it leaves.
abbrev pub IfOk {ℓ} : {S : Type 0} {A : Type ℓ} → (A → S → Type 0) → Outcome A → S → Type 0
IfOk P (ok a) s = P a s
IfOk P (thrown e) s = Unit

module _ {ℓ} {S : Type 0} {A : Type ℓ} (P : Outcome A → S → Type 0) where
  pub settle-Ends :
      {X : Type 0} (o : Outcome X) (f : X → Action S A) (g : Failure → Action S A) (s : S)
      → ((x : X) → o ≡ ok x → P (f x s).0 (f x s).1)
      → ((e : Failure) → o ≡ thrown e → P (g e s).0 (g e s).1)
      → P (settle o f g s).0 (settle o f g s).1
  settle-Ends (ok x) f g s hf hg = hf x refl
  settle-Ends (thrown e) f g s hf hg = hg e refl

module _ {ℓ} {S : Type 0} {A : Type ℓ} (P : A → S → Type 0) where
  -- Only the last step matters for a guarantee.
  pub bind-IfOk :
      {X : Type 0} (m : Action S X) (f : X → Action S A) (s : S)
      → ((x : X) → (m s).0 ≡ ok x → IfOk P (f x (m s).1).0 (f x (m s).1).1)
      → IfOk P ((m >>= f) s).0 ((m >>= f) s).1
  bind-IfOk m f s h =
      bind_ok-Ends (λ a b. Unit) (λ a o b. IfOk P o b) (λ a b e r. tt) (λ a b c o r h. h) m f s tt h

state-pure {ℓ κ} :
    {S : Type 0} {A : Type ℓ} {B : Type κ} (o : Outcome A) (f : A → B) (s : S)
    → (continue o (λ a. pure (f a)) s).1 ≡ s
state-pure (ok a) f s = refl
state-pure (thrown e) f s = refl

-- What only computes the result leaves the state.
pub state-result {ℓ κ} :
    {S : Type 0} {A : Type ℓ} {B : Type κ} (m : Action S A) (f : A → B) (s : S)
    → ((m >>= λ a. pure (f a)) s).1 ≡ (m s).1
state-result m f s = state-pure (m s).0 f (m s).1

pub IfOk-ok {ℓ} :
    {S : Type 0} {A : Type ℓ} (P : A → S → Type 0) (o : Outcome A) (s : S)
    → IfOk P o s
    → (a : A) → o ≡ ok a
    → P a s
IfOk-ok P o s h a e = subst (λ o. IfOk P o s) e h

pub IfOk-map {ℓ} :
    {S : Type 0} {A : Type ℓ} (Q G : S → Type 0) (o : Outcome A) (s : S)
    → IfOk (λ a s. Q s) o s
    → ((s : S) → Q s → G s)
    → IfOk (λ a s. G s) o s
IfOk-map Q G (ok a) s q g = g s q
IfOk-map Q G (thrown e) s q g = tt
