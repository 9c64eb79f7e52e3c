-- ===== src/Utils/Header.antt =====
-- src/utils.ts: the token of an Authorization header and the address of a client.
use mathlib.Core.Path.{subst}
use ccu_mcp.Prelude.{
  ℕ, ◌≡◌, refl, true, false, some, [], ◌∷◌, ◌++◌, map, any, codes, arith, All, drop_while,
}
use ccu_mcp.Errors.{to_lower}
use ccu_mcp.Auth.File.{is_space, is_eol}
use ccu_mcp.Utils.{Text, after_word, extract_bearer_token}

after_word-append : (w x : Text) → after_word (map to_lower w) (w ++ x) ≡ some x
after_word-append [] x = refl
after_word-append (c ∷ w) x = ground (arith, after_word-append w x)

drop_spaces :
    (spaces t : Text) (c : ℕ)
    → All (λ s. is_space s ≡ true) spaces
    → is_space c ≡ false
    → drop_while is_space (spaces ++ c ∷ t) ≡ c ∷ t
drop_spaces [] t c h n = simp n refl
drop_spaces (s ∷ spaces) t c (y, h) n = simp y (drop_spaces spaces t c h n)

-- The token of a bearer header comes out whole: after the scheme, in any case, and white space, if the
-- token does not begin with white space and has no line end.
pub extract_bearer_token_lem :
    (scheme : Text) (space : ℕ) (spaces : Text) (c : ℕ) (t : Text)
    → map to_lower scheme ≡ codes "bearer"
    → is_space space ≡ true
    → All (λ s. is_space s ≡ true) spaces
    → is_space c ≡ false
    → any is_eol (c ∷ t) ≡ false
    → extract_bearer_token (scheme ++ space ∷ (spaces ++ c ∷ t)) ≡ c ∷ t
unfolding extract_bearer_token
extract_bearer_token_lem scheme space spaces c t e y h n o =
    let w : after_word (codes "bearer") (scheme ++ space ∷ (spaces ++ c ∷ t))
        ≡ some (space ∷ (spaces ++ c ∷ t)) =
      subst
        (λ (p : Text).
          after_word p (scheme ++ space ∷ (spaces ++ c ∷ t)) ≡ some (space ∷ (spaces ++ c ∷ t)))
        e (after_word-append scheme (space ∷ (spaces ++ c ∷ t))) in
    rw w (simp y (rw (drop_spaces spaces t c h n) (simp o refl)))
