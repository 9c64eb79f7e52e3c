-- ===== src/Auth/Resolve/Lifetime.antt =====
-- `resolveAuthTokens` of src/auth/token.ts cuts no token off before the end it was given.
use ccu_mcp.Prelude.{
  usable, ℕ, ◌+◌, ◌≤◌, ◌≡◌, refl, ap, max, Bool, true, false, inl, inr, Option, none, some, ◌∷◌,
  text_eq_iff, arith, Bool-cases,
}
use ccu_mcp.Auth.Tokens.{Text, Hash, TokenEntry, AuthTokens, verify, live_until}
use ccu_mcp.Auth.Tokens.Verify.{accepts, verify-any}
use ccu_mcp.Auth.File.{PersistedToken}
use ccu_mcp.Auth.Resolve.{
  ResolveAuthTokensOptions, entry, rotate, untouched, is_due, is_over, prune, finish, file_entries,
  file_state, resolve_file, resolve,
}
use ccu_mcp.Auth.Resolve.Outcomes.{resolve_file-due, resolve_file-young}

module _ (sha256 : Hash) (c : ℕ) (p : Text) (t : ℕ) where
  accepts-entry :
      (life : Option ℕ) (label : Text)
      → live_until life t ≡ true
      → accepts (sha256 (c ∷ p)) t (entry (sha256 (c ∷ p)) life label) ≡ true
  accepts-entry life label h =
      ground (arith, (text_eq_iff (sha256 (c ∷ p)) (sha256 (c ∷ p))).1 refl)

  verify-first :
      (life : Option ℕ) (label : Text) (es : AuthTokens)
      → live_until life t ≡ true
      → verify sha256 (entry (sha256 (c ∷ p)) life label ∷ es) (c ∷ p) t ≡ true
  verify-first life label es h = rw verify-any (simp (accepts-entry life label h) refl)

  verify-second :
      (life : Option ℕ) (label : Text) (e : TokenEntry) (es : AuthTokens)
      → live_until life t ≡ true
      → verify sha256 (e ∷ entry (sha256 (c ∷ p)) life label ∷ es) (c ∷ p) t ≡ true
  verify-second life label e es h = rw verify-any (ground (arith, accepts-entry life label h))

  module _ (opts : ResolveAuthTokensOptions) (file : Option Text) (s : PersistedToken)
      (ttl issued now : ℕ) (et : opts.ttl_ms ≡ some ttl) (ei : s.issued ≡ some issued)
      (ek : s.token ≡ some (c ∷ p)) (le : t ≤ issued + ttl) where
    alive : live_until (some (issued + ttl)) t ≡ true
    alive = ground arith

    verify-young :
        (writable : Bool)
        → verify sha256
            (finish sha256 opts file writable s (prune now (untouched s))).tokens
            (c ∷ p)
            t
          ≡ true
    unfolding finish prune
    verify-young true = elim (Bool-cases (is_over s.previous s.previous_expires now)) [
      | inl over ↦ simp (over, et, ei, ek) (verify-first (some (issued + ttl)) _ _ alive)
      | inr kept ↦ simp (kept, et, ei, ek) (verify-first (some (issued + ttl)) _ _ alive)
    ]
    verify-young false = elim (Bool-cases (is_over s.previous s.previous_expires now)) [
      | inl over ↦ simp (over, et, ei, ek) (verify-first (some (issued + ttl)) _ _ alive)
      | inr kept ↦ simp (kept, et, ei, ek) (verify-first (some (issued + ttl)) _ _ alive)
    ]

    verify-due :
        (fresh : Text) (writable : Bool)
        → verify sha256
            (finish sha256 opts file writable s
              (rotate s issued ttl opts.grace_ms fresh now)).tokens
            (c ∷ p)
            t
          ≡ true
    unfolding finish
    verify-due fresh true =
        simp (et, ek)
          (verify-second (some (max (now + opts.grace_ms) (issued + ttl))) _ _ _ (ground arith))
    verify-due fresh false = simp (et, ei, ek) (verify-first (some (issued + ttl)) _ _ alive)

    verify-resolve_file :
        (fresh : Text) (lookahead : ℕ) (writable : Bool)
        → verify sha256
            (resolve_file sha256 opts file writable s fresh now lookahead).tokens
            (c ∷ p)
            t
          ≡ true
    verify-resolve_file fresh lookahead writable =
        elim (Bool-cases (is_due issued ttl now lookahead)) [
          | inl due ↦
              rw
                (resolve_file-due sha256 opts file fresh now lookahead ttl writable s issued et ei
                  (ap usable ek) due)
                (verify-due fresh writable)
          | inr young ↦
              rw
                (resolve_file-young sha256 opts file fresh now lookahead ttl writable s issued et ei
                  (ap usable ek) young)
                (verify-young writable)
        ]

-- With a lifetime of `ttl`, and no token in the environment, the token that the file holds, issued at
-- `issued`, is accepted up to `issued + ttl` by the set that `resolveAuthTokens` gives, whether it
-- rotates the token, fails to save the rotation, or leaves the token, and for any lookahead.
pub verify-resolve :
    (other_number : Text → Option ℕ) (sha256 : Hash) (opts : ResolveAuthTokensOptions)
    (file : Option Text) (writable : Bool) (fresh : Text) (now lookahead c : ℕ) (p : Text)
    (ttl issued t : ℕ)
    → usable opts.env_token ≡ false
    → opts.ttl_ms ≡ some ttl
    → (file_state other_number file).token ≡ some (c ∷ p)
    → (file_state other_number file).issued ≡ some issued
    → t ≤ issued + ttl
    → verify sha256
        (resolve other_number sha256 opts file writable fresh now lookahead).tokens
        (c ∷ p)
        t
      ≡ true
unfolding resolve
verify-resolve other_number sha256 opts file writable fresh now lookahead c p ttl issued t ev et ek
      ei le =
    simp ev (
      verify-resolve_file sha256 c p t opts file (file_state other_number file) ttl issued now et ei
        ek le fresh lookahead writable)

-- A rotation that cannot be saved has no effect: the set is that of the token of the file, the file
-- stays, and nothing is announced.
pub resolve-unsaved :
    (other_number : Text → Option ℕ) (sha256 : Hash) (opts : ResolveAuthTokensOptions)
    (file : Option Text) (fresh : Text) (now lookahead c : ℕ) (p : Text) (ttl issued : ℕ)
    → usable opts.env_token ≡ false
    → opts.ttl_ms ≡ some ttl
    → (file_state other_number file).token ≡ some (c ∷ p)
    → (file_state other_number file).issued ≡ some issued
    → issued + ttl ≤ now + lookahead
    → resolve other_number sha256 opts file false fresh now lookahead ≡ record {
      tokens = file_entries sha256 (some ttl) (file_state other_number file);
      file = file;
      announced = none;
    }
unfolding resolve finish
resolve-unsaved other_number sha256 opts file fresh now lookahead c p ttl issued ev et ek ei le =
    let s = file_state other_number file in
    simp ev (
      rw
        (resolve_file-due sha256 opts file fresh now lookahead ttl false s issued et ei
          (ap usable ek) (ground arith))
        (simp et refl))
