-- ===== src/Auth/File/Lines.antt =====
-- Lines of the token file of src/auth/token.ts: how `parsePersisted` and `persist` split what was joined.
use mathlib.Core.List.{reverse, append_assoc, reverse-reverse}
use ccu_mcp.Prelude.{
  ◌≤◌, ◌≡◌, refl, ap, ◌∙◌, false, List, [], ◌∷◌, ◌++◌, drop_while, arith, All, All-reverse_aux,
}
use ccu_mcp.Auth.Tokens.{Text}
use ccu_mcp.Auth.File.{is_eol, is_space, trim, lines, unlines, rows}

-- No character of the text ends a line.
abbrev pub OneLine : Text → Type 0
OneLine = All (λ c. is_eol c ≡ false)

-- Every character is a visible one of ASCII, as those of a base64url token and of a number are.
abbrev pub IsPlain : Text → Type 0
IsPlain = All (λ c. (33 ≤ c) × (c ≤ 126))

pub IsPlain-OneLine : (t : Text) → IsPlain t → OneLine t
IsPlain-OneLine [] h = tt
IsPlain-OneLine (c ∷ t) (p, h) = (ground arith, IsPlain-OneLine t h)

-- A line that was joined is split off again, for the regular expressions and for `split`.
pub lines-line : (l t : Text) → OneLine l → lines (l ++ 10 ∷ t) ≡ l ∷ lines t
unfolding lines
lines-line [] t h = refl
lines-line (c ∷ l) t (p, h) = ground (arith, lines-line l t h)

pub rows-line : (l t : Text) → OneLine l → rows (l ++ 10 ∷ t) ≡ l ∷ rows t
unfolding rows
rows-line [] t h = refl
rows-line (c ∷ l) t (p, h) = ground (arith, rows-line l t h)

pub lines-unlines :
    (ls : List Text) (t : Text) → All OneLine ls → lines (unlines ls ++ t) ≡ ls ++ lines t
unfolding unlines
lines-unlines [] t h = refl
lines-unlines (l ∷ ls) t (p, h) =
    rw (append_assoc l (10 ∷ unlines ls) t)
      (lines-line l (unlines ls ++ t) p ∙ ap (λ (r : List Text). l ∷ r) (lines-unlines ls t h))

pub rows-unlines :
    (ls : List Text) (t : Text) → All OneLine ls → rows (unlines ls ++ t) ≡ ls ++ rows t
unfolding unlines
rows-unlines [] t h = refl
rows-unlines (l ∷ ls) t (p, h) =
    rw (append_assoc l (10 ∷ unlines ls) t)
      (rows-line l (unlines ls ++ t) p ∙ ap (λ (r : List Text). l ∷ r) (rows-unlines ls t h))

drop_while-plain : (t : Text) → IsPlain t → drop_while is_space t ≡ t
drop_while-plain [] h = refl
drop_while-plain (c ∷ t) (p, h) = ground arith

-- `trim` leaves a plain text as it is.
pub trim-plain : (t : Text) → IsPlain t → trim t ≡ t
unfolding trim
trim-plain t h =
    rw (drop_while-plain t h)
      (rw (drop_while-plain (reverse t) (All-reverse_aux _ t [] h tt)) (reverse-reverse t))
