-- ===== src/Auth/Tokens/Verify.antt =====
-- When src/auth/token.ts accepts a token.
use ccu_mcp.Prelude.{
  ℕ, ◌≤◌, ◌≡◌, ◌≢◌, ◌↔◌, refl, Bool, true, false, ◌&&◌, ◌||◌, ◌⊎◌, Option, none, some, [], ◌∷◌,
  arith, any, text_eq, text_eq_iff,
}
use ccu_mcp.Auth.Tokens.{
  Text, Hash, TokenEntry, AuthTokens, is_live, live_until, verify_from, verify,
}

-- The entry accepts the token with this digest.
abbrev pub accepts : Text → ℕ → TokenEntry → Bool
accepts ph now e = text_eq ph e.hash && is_live now e

pub verify_from-any :
    (ph : Text) (now : ℕ) (found : Bool) (es : AuthTokens)
    → verify_from ph now found es ≡ (found || any (accepts ph now) es)
unfolding verify_from
verify_from-any ph now found [] = ground arith
verify_from-any ph now found (e ∷ es) =
    ground (arith, verify_from-any ph now (found || accepts ph now e) es)

pub verify-any :
    (sha256 : Hash) (es : AuthTokens) (c : ℕ) (t : Text) (now : ℕ)
    → verify sha256 es (c ∷ t) now ≡ any (accepts (sha256 (c ∷ t)) now) es
unfolding verify
verify-any sha256 es c t now = verify_from-any (sha256 (c ∷ t)) now false es

-- The time has not passed the end of the entry's life, if it has one.
abbrev pub LivesAt : ℕ → Option ℕ → Type 0
LivesAt now none = Unit
LivesAt now (some t) = now ≤ t

-- Some entry has this digest and is alive.
abbrev pub Accepted : Text → ℕ → AuthTokens → Type 0
Accepted ph now [] = ⊥
Accepted ph now (e ∷ es) = ((ph ≡ e.hash) × LivesAt now e.expires_at) ⊎ Accepted ph now es

live_iff : (now : ℕ) (life : Option ℕ) → (live_until life now ≡ true) ↔ LivesAt now life
live_iff now none = ground arith
live_iff now (some t) = ground arith

any-accepts_iff :
    (ph : Text) (now : ℕ) (es : AuthTokens) → (any (accepts ph now) es ≡ true) ↔ Accepted ph now es
any-accepts_iff ph now [] = (λ h. cc, λ h. absurd h)
any-accepts_iff ph now (e ∷ es) =
    ground (arith, any-accepts_iff ph now es, text_eq_iff ph e.hash, live_iff now e.expires_at)

-- A token is accepted exactly if it is not empty and some entry, wherever it stands in the set, has its
-- digest and has not passed the end of its life.
pub verify_iff :
    (sha256 : Hash) (es : AuthTokens) (presented : Text) (now : ℕ)
    → (verify sha256 es presented now ≡ true)
      ↔ ((presented ≢ []) × Accepted (sha256 presented) now es)
verify_iff sha256 es [] now = unfold verify in (λ h. cc, λ h. absurd (h.0 refl))
verify_iff sha256 es (c ∷ t) now = rw verify-any (
    let both = any-accepts_iff (sha256 (c ∷ t)) now es in
    (λ h. (λ e. cc, both.0 h), λ h. both.1 h.1))
