-- ===== src/Auth/Resolve/Outcomes.antt =====
-- `resolveAuthTokens` of src/auth/token.ts, branch by branch, for a file that holds a token.
use ccu_mcp.Prelude.{
  usable, ℕ, ◌+◌, ◌≡◌, refl, ap, max, Bool, true, false, Option, none, some, arith,
}
use ccu_mcp.Auth.Tokens.{Text, Hash}
use ccu_mcp.Auth.File.{PersistedToken}
use ccu_mcp.Auth.Resolve.{
  ResolveAuthTokensOptions, untouched, rotate, is_due, is_over, draft, prune, finish, resolve_file,
}

-- The life that a rotation leaves to the old token is not over at once.
pub not-over :
    (previous : Option Text) (now grace_ms end : ℕ)
    → is_over previous (some (max (now + grace_ms) end)) now ≡ false
not-over none now grace_ms end = refl
not-over (some t) now grace_ms end = ground arith

prune-rotate :
    (s : PersistedToken) (issued ttl grace_ms : ℕ) (fresh : Text) (now : ℕ)
    → prune now (rotate s issued ttl grace_ms fresh now) ≡ rotate s issued ttl grace_ms fresh now
unfolding prune
prune-rotate s issued ttl grace_ms fresh now =
    simp (not-over s.token now grace_ms (issued + ttl)) refl

-- What is left to finish, for a token that is due and for one that is not.
module _ (sha256 : Hash) (opts : ResolveAuthTokensOptions) (file : Option Text) (fresh : Text)
    (now lookahead ttl : ℕ) where
  pub resolve_file-due :
      (writable : Bool) (s : PersistedToken) (issued : ℕ)
      → opts.ttl_ms ≡ some ttl
      → s.issued ≡ some issued
      → usable s.token ≡ true
      → is_due issued ttl now lookahead ≡ true
      → resolve_file sha256 opts file writable s fresh now lookahead
        ≡ finish sha256 opts file writable s (rotate s issued ttl opts.grace_ms fresh now)
  unfolding resolve_file draft
  resolve_file-due writable s issued e i u d =
      simp (u, e, i, d)
        (ap (finish sha256 opts file writable s)
          (prune-rotate s issued ttl opts.grace_ms fresh now))

  pub resolve_file-young :
      (writable : Bool) (s : PersistedToken) (issued : ℕ)
      → opts.ttl_ms ≡ some ttl
      → s.issued ≡ some issued
      → usable s.token ≡ true
      → is_due issued ttl now lookahead ≡ false
      → resolve_file sha256 opts file writable s fresh now lookahead
        ≡ finish sha256 opts file writable s (prune now (untouched s))
  unfolding resolve_file draft
  resolve_file-young writable s issued e i u d = simp (u, e, i, d) refl
