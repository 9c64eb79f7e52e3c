-- ===== src/Auth/Tokens/Rotation.antt =====
-- What happens to the accepted tokens of src/auth/token.ts when a rotation changes the set.
use mathlib.Core.List.{reverse, reverse-append}
use ccu_mcp.Prelude.{
  ℕ, suc, ◌+◌, ◌≤◌, ◌≡◌, refl, ap, sym, Bool, true, false, not, ◌&&◌, ◌||◌, inl, inr, [], ◌∷◌, ◌++◌,
  map, arith, any, any-append, filter, length, length-filter-le, length-append, text_eq,
  text_eq_iff, leb, Bool-cases, after_prefix-append, is_some, codes,
}
use ccu_mcp.Auth.Tokens.{
  Text, Hash, TokenEntry, AuthTokens, is_graced, is_live, has_hash, keeps_grace, replace_with,
  grace, is_new, adopt_with_grace, verify, live_count,
}
use ccu_mcp.Auth.Tokens.Verify.{accepts, verify-any}

-- A digest that the other set holds is accepted by no entry that the filter lets through.
known-digest :
    (ph h : Text) (other : AuthTokens) → text_eq ph h ≡ true → has_hash other h ≡ has_hash other ph
known-digest ph h other same = ap (λ (d : Text). has_hash other d) (sym ((text_eq_iff ph h).0 same))

-- The entries of the old set that outlive `replaceWith`: graced, still alive at the swap, and with a
-- digest that the new set does not hold.
abbrev pub graced_accepts : AuthTokens → Text → (now t : ℕ) → AuthTokens → Bool
graced_accepts other ph now t es = any (λ e. keeps_grace other now e && accepts ph t e) es

any-filter :
    (p q : TokenEntry → Bool) (es : AuthTokens) → any q (filter p es) ≡ any (λ e. p e && q e) es
any-filter p q [] = refl
any-filter p q (e ∷ es) = ground (arith, any-filter p q es)

-- After `replaceWith` a token is accepted exactly if the new set accepts it, or an entry of the old set
-- does that was graced, was alive at the swap, and has a digest that the new set does not hold. So a plain
-- entry of the old set is gone, and a promised grace is kept to its end.
pub verify-replace_with :
    (sha256 : Hash) (es other : AuthTokens) (c : ℕ) (p : Text) (now t : ℕ)
    → verify sha256 (replace_with es other now) (c ∷ p) t
      ≡ (verify sha256 other (c ∷ p) t || graced_accepts other (sha256 (c ∷ p)) now t es)
unfolding replace_with
verify-replace_with sha256 es other c p now t =
    rw (verify-any sha256 other c p t) (rw (verify-any, any-append, any-filter) refl)

any-grace :
    (other es : AuthTokens) (ph : Text) (grace_ms now t : ℕ)
    → any
        (accepts ph t)
        (map (grace (now + grace_ms)) (filter (is_new other) (filter (is_live now) es)))
      ≡ (leb t (now + grace_ms)
          && (not (has_hash other ph) && any (λ e. is_live now e && accepts ph t e) es))
any-grace other [] ph grace_ms now t = ground arith
any-grace other (e ∷ es) ph grace_ms now t =
    ground (arith, any-grace other es ph grace_ms now t, known-digest ph e.hash other)

-- After `adoptWithGrace` a token is accepted at the time `t` exactly if the new set accepts it, or `t` is
-- within the grace, the new set does not hold its digest, and an entry of the old set accepts it that was
-- alive at the swap. So until the grace ends nobody with a live token is cut off, no life is made longer,
-- and afterwards only the new set counts.
pub verify-adopt_with_grace :
    (sha256 : Hash) (es other : AuthTokens) (c : ℕ) (p : Text) (grace_ms now t : ℕ)
    → verify sha256 (adopt_with_grace es other grace_ms now) (c ∷ p) t ≡ (
        verify sha256 other (c ∷ p) t
        || (leb t (now + grace_ms)
            && (not (has_hash other (sha256 (c ∷ p)))
                && any (λ e. is_live now e && accepts (sha256 (c ∷ p)) t e) es)))
unfolding adopt_with_grace
verify-adopt_with_grace sha256 es other c p grace_ms now t =
    rw (verify-any sha256 other c p t)
      (rw (verify-any, any-append, any-grace other es (sha256 (c ∷ p)) grace_ms now t) refl)

length-map-grace : (cutoff : ℕ) (es : AuthTokens) → length (map (grace cutoff) es) ≡ length es
length-map-grace cutoff [] = refl
length-map-grace cutoff (e ∷ es) = ap suc (length-map-grace cutoff es)

-- A recovery after recovery cannot grow the set without bound: the entries afterwards are those of the new
-- set and at most the old ones that were alive.
pub length-adopt_with_grace :
    (es other : AuthTokens) (grace_ms now : ℕ)
    → length (adopt_with_grace es other grace_ms now) ≤ length other + live_count es now
unfolding adopt_with_grace live_count
length-adopt_with_grace es other grace_ms now = omega (
  arith,
  length-append other
      (map (grace (now + grace_ms)) (filter (is_new other) (filter (is_live now) es))),
  length-map-grace (now + grace_ms) (filter (is_new other) (filter (is_live now) es)),
  length-filter-le (is_new other) (filter (is_live now) es),
)

is_graced-mark : (label : Text) → is_graced (label ++ codes "-graced") ≡ true
unfolding is_graced
is_graced-mark label =
    rw (reverse-append label (codes "-graced"))
      (ap is_some (after_prefix-append (reverse (codes "-graced")) (reverse label)))

is_graced-grace : (cutoff : ℕ) (e : TokenEntry) → is_graced (grace cutoff e).label ≡ true
is_graced-grace cutoff e = elim (Bool-cases (is_graced e.label)) [
  | inl marked ↦ rw (marked) marked
  | inr plain ↦ rw plain (is_graced-mark e.label)
]

-- The entries that a grace was given to survive a later swap, as long as the grace lasts.
graced_accepts-grace :
    (later es : AuthTokens) (ph : Text) (cutoff now t : ℕ)
    → has_hash later ph ≡ false
    → now ≤ t
    → graced_accepts later ph now t (map (grace cutoff) es)
      ≡ any (accepts ph t) (map (grace cutoff) es)
graced_accepts-grace later [] ph cutoff now t absent order = refl
graced_accepts-grace later (e ∷ es) ph cutoff now t absent order = ground (
  arith,
  graced_accepts-grace later es ph cutoff now t absent order,
  is_graced-grace cutoff e,
  known-digest ph e.hash later,
)

-- A token of the old set that was alive when persistence recovered stays accepted until the grace ends
-- also if a rotation swaps the set again meanwhile, whatever the two new sets hold, unless one of them
-- holds the token's own digest and decides about it.
pub grace_survives :
    (sha256 : Hash) (es other later : AuthTokens) (c : ℕ) (p : Text) (grace_ms now swap t : ℕ)
    → has_hash other (sha256 (c ∷ p)) ≡ false
    → has_hash later (sha256 (c ∷ p)) ≡ false
    → swap ≤ t
    → t ≤ now + grace_ms
    → any (λ e. is_live now e && accepts (sha256 (c ∷ p)) t e) es ≡ true
    → verify sha256 (replace_with (adopt_with_grace es other grace_ms now) later swap) (c ∷ p) t
      ≡ true
unfolding adopt_with_grace
grace_survives sha256 es other later c p grace_ms now swap t absent absent_later order within
      alive =
    let ph = sha256 (c ∷ p) in
    let old = filter (is_new other) (filter (is_live now) es) in
    rw (verify-replace_with sha256 _ later c p swap t) (
      ground (
        arith,
        any-append (λ e. keeps_grace later swap e && accepts ph t e) other
            (map (grace (now + grace_ms)) old),
        graced_accepts-grace later old ph (now + grace_ms) swap t,
        any-grace other es ph grace_ms now t,
      ))
