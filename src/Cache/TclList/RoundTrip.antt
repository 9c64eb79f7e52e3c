-- ===== src/Cache/TclList/RoundTrip.antt =====
-- `parseTclList` of src/cache/device-type-cache.ts gives back the labels that the CCU joined.
use mathlib.Core.List.{append_assoc}
use ccu_mcp.Prelude.{
  ℕ, zero, suc, ◌≤◌, ◌<◌, ◌≡◌, ◌≢◌, refl, ap, ◌∙◌, false, inl, inr, some, List, [], ◌∷◌, ◌++◌, ◌==◌,
  any, length, length-append, arith, All, Bool-cases, if◌then◌else◌,
}
use ccu_mcp.Cache.TclList.{
  Text, push, braced, word, item, is_blank, skip_spaces, tcl_from, parse_tcl_list,
}

-- What `json_toString` makes of a label: braces around one that has a space.
abbrev pub quoted : Text → Text
quoted l = if any is_blank l then b'{' ∷ (l ++ b'}' ∷ []) else l

abbrev pub spaced : List Text → Text
spaced [] = []
spaced (l ∷ ls) = b' ' ∷ (quoted l ++ spaced ls)

-- The labels, joined by single spaces.
abbrev pub joined : List Text → Text
joined [] = []
joined (l ∷ ls) = quoted l ++ spaced ls

-- A label has a character, and no brace.
abbrev pub IsLabel : Text → Type 0
IsLabel l = (l ≢ []) × All (λ c. ((c == b'{') ≡ false) × ((c == b'}') ≡ false)) l

braced-label :
    (l tail : Text)
    → All (λ c. ((c == b'{') ≡ false) × ((c == b'}') ≡ false)) l
    → braced 1 (l ++ b'}' ∷ tail) ≡ (l, tail)
unfolding braced
braced-label [] tail h = refl
braced-label (c ∷ l) tail (p, h) = simp (p.0, p.1) (ap (push c) (braced-label l tail h))

word-spaced :
    (l : Text) (ls : List Text) → any is_blank l ≡ false → word (l ++ spaced ls) ≡ (l, spaced ls)
unfolding word
word-spaced [] [] h = refl
word-spaced [] (x ∷ ls) h = refl
word-spaced (c ∷ l) ls h = ground (arith, word-spaced l ls)

item-label :
    (l : Text) (ls : List Text)
    → IsLabel l
    → item (skip_spaces (quoted l ++ spaced ls)) ≡ some (l, spaced ls)
item-label [] ls h = absurd (h.0 refl)
item-label (c ∷ l) ls h = elim (Bool-cases (any is_blank (c ∷ l))) [
  | inl y ↦ simp y (
      ap some (
        ap (braced 1) (append_assoc (c ∷ l) (b'}' ∷ []) (spaced ls))
        ∙ braced-label (c ∷ l) (spaced ls) h.1))
  | inr n ↦
      let e : (c == b' ') ≡ false = ground arith in
      simp n (simp (e, h.1.0.0) (ap some (word-spaced (c ∷ l) ls n)))
]

tcl_from-spaced :
    (fuel : ℕ) (ls : List Text) → All IsLabel ls → length ls < fuel → tcl_from fuel (spaced ls) ≡ ls
unfolding tcl_from
tcl_from-spaced zero ls h f = absurd (omega arith)
tcl_from-spaced (suc fuel) [] h f = refl
tcl_from-spaced (suc fuel) (l ∷ ls) (p, h) f =
    rw (item-label l ls p) (ap (λ (r : List Text). l ∷ r) (tcl_from-spaced fuel ls h (omega arith)))

length-spaced : (ls : List Text) → length ls ≤ length (spaced ls)
length-spaced [] = omega arith
length-spaced (l ∷ ls) = omega (arith, length-spaced ls, length-append (quoted l) (spaced ls))

length-quoted : (l : Text) → IsLabel l → 1 ≤ length (quoted l)
length-quoted [] h = absurd (h.0 refl)
length-quoted (c ∷ l) h = elim (Bool-cases (any is_blank (c ∷ l))) [
  | inl y ↦ simp y (omega arith)
  | inr n ↦ simp n (omega arith)
]

-- Labels that the CCU joined by single spaces, with braces around those that have a space, come out as
-- they were, if each has a character and none has a brace.
pub parse_tcl_list-joined : (ls : List Text) → All IsLabel ls → parse_tcl_list (joined ls) ≡ ls
unfolding parse_tcl_list tcl_from
parse_tcl_list-joined [] h = refl
parse_tcl_list-joined (l ∷ ls) (p, h) = rw (item-label l ls p) (
    ap (λ (r : List Text). l ∷ r)
      (tcl_from-spaced (length (quoted l ++ spaced ls)) ls h
        (omega (arith, length-quoted l p, length-spaced ls, length-append (quoted l) (spaced ls)))))
