-- ===== src/Auth/Resolve/Ticks.antt =====
-- The tick of `startAutoRotation`, src/auth/token.ts.
use ccu_mcp.Prelude.{usable, ℕ, ◌+◌, ◌≤◌, ◌≡◌, refl, Bool, true, false, Option, none, some, ◌∷◌}
use ccu_mcp.Auth.Tokens.{Text, Hash, AuthTokens, verify}
use ccu_mcp.Auth.Tokens.Rotation.{verify-replace_with}
use ccu_mcp.Auth.File.{PersistedToken}
use ccu_mcp.Auth.Resolve.{
  ResolveAuthTokensOptions, quietly, has_persisted, file_state, draft, prune, finish, resolve_file,
  resolve, tick,
}
use ccu_mcp.Auth.Resolve.Lifetime.{verify-resolve}

-- A tick does not cut off the token of the file: with a lifetime of `ttl`, and no token in the
-- environment, the set after the tick accepts the token, issued at `issued`, up to `issued + ttl`,
-- whether the file can be written or not.
pub verify-tick :
    (other_number : Text → Option ℕ) (sha256 : Hash) (opts : ResolveAuthTokensOptions)
    (tokens : AuthTokens) (file : Option Text) (writable : Bool) (fresh : Text) (now interval c : ℕ)
    (p : Text) (ttl issued t : ℕ)
    → usable opts.env_token ≡ false
    → opts.ttl_ms ≡ some ttl
    → (file_state other_number file).token ≡ some (c ∷ p)
    → (file_state other_number file).issued ≡ some issued
    → t ≤ issued + ttl
    → verify sha256
        (tick other_number sha256 opts tokens file writable fresh now interval).tokens
        (c ∷ p)
        t
      ≡ true
unfolding tick
verify-tick other_number sha256 opts tokens file writable fresh now interval c p ttl issued t ev et
      ek ei le =
    simp ek (
      rw (verify-replace_with) (
        simp
          (verify-resolve other_number sha256 (quietly opts) file writable fresh now interval c p
            ttl issued t ev et ek ei le)
          refl))

generate-unsaved :
    (sha256 : Hash) (opts : ResolveAuthTokensOptions) (file : Option Text) (s : PersistedToken)
    (fresh : Text) (now lookahead : ℕ)
    → usable s.token ≡ false
    → ((resolve_file sha256 (quietly opts) file false s fresh now lookahead).file ≡ file)
      × ((resolve_file sha256 (quietly opts) file false s fresh now lookahead).announced ≡ none)
unfolding resolve_file draft prune finish
generate-unsaved sha256 opts file s fresh now lookahead h = simp h (refl, refl)

-- While the file holds no token and cannot be written, a tick changes nothing and announces nothing,
-- if the environment has no token.
pub tick-unsaved :
    (other_number : Text → Option ℕ) (sha256 : Hash) (opts : ResolveAuthTokensOptions)
    (tokens : AuthTokens) (file : Option Text) (fresh : Text) (now interval : ℕ)
    → usable opts.env_token ≡ false
    → has_persisted other_number file ≡ false
    → tick other_number sha256 opts tokens file false fresh now interval
      ≡ record { tokens = tokens; file = file; announced = none }
unfolding tick resolve
tick-unsaved other_number sha256 opts tokens file fresh now interval ev h =
    let g = generate-unsaved sha256 opts file (file_state other_number file) fresh now interval h in
    simp ev (simp (g.0, g.1) (simp h refl))
