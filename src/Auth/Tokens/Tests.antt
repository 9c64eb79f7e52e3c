-- ===== src/Auth/Tokens/Tests.antt =====
-- `AuthTokens` of src/auth/token.ts at concrete sets; the digest of a token stands for itself.
use ccu_mcp.Prelude.{ℕ, ◌≡◌, ◌≢◌, ◌↔◌, refl, true, false, Option, none, some, [], ◌∷◌, codes}
use ccu_mcp.Auth.Tokens.{
  Text, Hash, TokenEntry, AuthTokens, is_graced, replace_with, adopt_with_grace, verify,
  verify_from, live_count,
}
use ccu_mcp.Auth.Tokens.Verify.{Accepted, verify_iff}

abbrev plain_hash : Hash
plain_hash t = t

abbrev entry : Text → Option ℕ → Text → TokenEntry
entry t life label = record { hash = t; expires_at = life; label = label }

abbrev a_token : Text
a_token = codes "a"

abbrev b_token : Text
b_token = codes "b"

-- A token that never expires, and the set that takes its place.
abbrev old : AuthTokens
old = entry a_token none (codes "generated") ∷ []

abbrev new : AuthTokens
new = entry b_token (some 900) (codes "generated") ∷ []

rotations :
    (verify plain_hash (adopt_with_grace old new 50 100) a_token 150 ≡ true)
    × (verify plain_hash (adopt_with_grace old new 50 100) a_token 151 ≡ false)
    × (verify plain_hash (replace_with (adopt_with_grace old new 50 100) new 120) a_token 150
        ≡ true)
    × (verify plain_hash (replace_with old new 100) a_token 100 ≡ false)
    × (verify plain_hash old [] 0 ≡ false)
    × (live_count (adopt_with_grace old new 50 100) 151 ≡ 1)
unfolding adopt_with_grace replace_with verify verify_from is_graced live_count
rotations = (refl, refl, refl, refl, refl, refl)

verify_iff_example :
    (verify plain_hash new b_token 900 ≡ true) ↔ ((b_token ≢ []) × Accepted b_token 900 new)
verify_iff_example = verify_iff plain_hash new b_token 900
