-- ===== src/Action/Respects.antt =====
-- Actions whose every run leads from a state to one that a relation allows.
use ccu_mcp.Prelude.{Bool, true, false, if◌then◌else◌}
use ccu_mcp.Errors.{Failure}
use ccu_mcp.Action.{Outcome, ok, thrown, Action, continue, settle, ◌>>=◌, try◌, pure, throw}

-- For a relation that is reflexive and transitive.
module _ {S : Type 0} (R : S → S → Type 0) (stay : (s : S) → R s s)
    (chain : (a b c : S) → R a b → R b c → R a c) where
  abbrev pub Respects {ℓ} : {A : Type ℓ} → Action S A → Type 0
  Respects m = (s : S) → R s (m s).1

  pub pure-Respects {ℓ} : {A : Type ℓ} (a : A) → Respects (pure a)
  pure-Respects a s = stay s

  pub throw-Respects {ℓ} : (A : Type ℓ) (e : Failure) → Respects {A = A} (throw e)
  throw-Respects A e s = stay s

  module _ {ℓ κ} {A : Type ℓ} {B : Type κ} where
    continue-Respects :
        (o : Outcome A) (f : A → Action S B) → ((a : A) → Respects (f a)) → Respects (continue o f)
    continue-Respects (ok a) f h s = h a s
    continue-Respects (thrown e) f h s = stay s

    settle-Respects :
        (o : Outcome A) (f : A → Action S B) (g : Failure → Action S B)
        → ((a : A) → Respects (f a))
        → ((e : Failure) → Respects (g e))
        → Respects (settle o f g)
    settle-Respects (ok a) f g h k s = h a s
    settle-Respects (thrown e) f g h k s = k e s

    pub bind-Respects :
        (m : Action S A) (f : A → Action S B)
        → Respects m
        → ((a : A) → Respects (f a))
        → Respects (m >>= f)
    bind-Respects m f hm hf s = chain s (m s).1 _ (hm s) (continue-Respects (m s).0 f hf (m s).1)

    pub try-Respects :
        (m : Action S A) (f : A → Action S B) (g : Failure → Action S B)
        → Respects m
        → ((a : A) → Respects (f a))
        → ((e : Failure) → Respects (g e))
        → Respects (try◌ m f g)
    try-Respects m f g hm hf hg s =
        chain s (m s).1 _ (hm s) (settle-Respects (m s).0 f g hf hg (m s).1)

  pub if-Respects {ℓ} :
      {A : Type ℓ} (b : Bool) (m n : Action S A)
      → Respects m
      → Respects n
      → Respects (if b then m else n)
  if-Respects true m n hm hn = hm
  if-Respects false m n hm hn = hn
