-- ===== src/Action.antt =====
-- Asynchronous code that changes a state and may throw, run by itself: it ends in a value or in the
-- failure that it throws, and what it changed before a throw stays changed.
pub mod Respects
pub mod Ends
use ccu_mcp.Prelude.{◌≡◌, refl, ◌⊎◌, inl, inr}
use ccu_mcp.Errors.{Failure}

pub data Outcome {ℓ} (A : Type ℓ) : Type ℓ where
  ok : A → Outcome A
  thrown : Failure → Outcome A

abbrev pub Action {ℓ κ} : Type ℓ → Type κ → Type (ℓ ⊔ κ)
Action S A = S → Outcome A × S

pub Outcome-cases {ℓ} :
    {A : Type ℓ} (o : Outcome A) → ((a : A) × (o ≡ ok a)) ⊎ ((e : Failure) × (o ≡ thrown e))
Outcome-cases (ok a) = inl (a, refl)
Outcome-cases (thrown e) = inr (e, refl)

module _ {ℓ κ} {S : Type ℓ} {A : Type κ} where
  abbrev pub pure : A → Action S A
  pure a s = (ok a, s)

  abbrev pub throw : Failure → Action S A
  throw e s = (thrown e, s)

  abbrev pub gets : (S → A) → Action S A
  gets f s = (ok (f s), s)

module _ {ℓ κ ι} {S : Type ℓ} {A : Type κ} {B : Type ι} where
  abbrev pub continue : Outcome A → (A → Action S B) → Action S B
  continue (ok a) f s = f a s
  continue (thrown e) f s = (thrown e, s)

  infixl 10 ◌>>=◌ ◌>>◌
  abbrev pub ◌>>=◌ : Action S A → (A → Action S B) → Action S B
  ◌>>=◌ m f s = continue (m s).0 f (m s).1

  abbrev pub ◌>>◌ : Action S A → Action S B → Action S B
  m >> n = m >>= λ _. n

  -- `try { m } catch (e) { handler(e) }` around the rest of a function.
  abbrev pub settle : Outcome A → (A → Action S B) → (Failure → Action S B) → Action S B
  settle (ok a) f h s = f a s
  settle (thrown e) f h s = h e s

  abbrev pub try◌ : Action S A → (A → Action S B) → (Failure → Action S B) → Action S B
  try◌ m f h s = settle (m s).0 f h (m s).1

module _ {ℓ} {S : Type ℓ} where
  abbrev pub modify : (S → S) → Action S (Unit {0})
  modify f s = (ok tt, f s)
