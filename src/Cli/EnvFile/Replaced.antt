-- ===== src/Cli/EnvFile/Replaced.antt =====
-- src/cli/env-writer.ts, `replaceEnvKey`: what a reader of the file finds afterwards.
use ccu_mcp.Prelude.{
  ◌&&◌, ◌≡◌, ◌≢◌, refl, ap, sym, ◌∙◌, true, false, none, some, List, [], ◌∷◌, ◌++◌, ◌==◌, arith,
  All, after_prefix, after_prefix-append, is_some, codes, text_eq, text_eq_iff, Bool-cases, inl,
  inr,
}
use mathlib.Core.List.{append-nil, append_assoc}
use ccu_mcp.Auth.File.{rows}
use ccu_mcp.Auth.File.Lines.{OneLine, rows-line}
use ccu_mcp.Cli.EnvFile.{
  Text, join_with, replace_first, no_lines, pop_empty, sets_key, replaced_lines, replace_env_key,
}

-- The values that the lines with the prefix give, in order.
abbrev pub values_at : Text → List Text → List Text
values_at prefix [] = []
values_at prefix (l ∷ ls) =
    let rest = values_at prefix ls in
    elim (after_prefix prefix l) [ none ↦ rest | some v ↦ v ∷ rest ]

-- All the values that a file gives a key, in order: a reader takes the first or the last of them.
abbrev pub values_of : Text → Text → List Text
values_of key content = values_at (key ++ codes "=") (rows content)

abbrev pub after_first : List Text → List Text
after_first [] = []
after_first (v ∷ vs) = vs

abbrev pub IsKey : Text → Type 0
IsKey = All (λ c. (c == b'=') ≡ false)

keys_agree :
    (k j l : Text)
    → IsKey k
    → IsKey j
    → is_some (after_prefix (k ++ codes "=") l) ≡ true
    → is_some (after_prefix (j ++ codes "=") l) ≡ true
    → k ≡ j
keys_agree [] [] l hk hj e f = refl
keys_agree [] (d ∷ j) [] hk hj e f = ground arith
keys_agree [] (d ∷ j) (c ∷ l) hk hj e f = ground (arith, hj.0)
keys_agree (d ∷ k) [] [] hk hj e f = ground arith
keys_agree (d ∷ k) [] (c ∷ l) hk hj e f = ground (arith, hk.0)
keys_agree (d ∷ k) (b ∷ j) [] hk hj e f = ground arith
keys_agree (d ∷ k) (b ∷ j) (c ∷ l) hk hj e f = ground (arith, keys_agree k j l hk.1 hj.1)

values_at-replace_first :
    (prefix v : Text) (ls : List Text)
    → sets_key prefix ls ≡ true
    → values_at prefix (replace_first prefix (prefix ++ v) ls)
      ≡ v ∷ after_first (values_at prefix ls)
values_at-replace_first prefix v [] h = ground arith
values_at-replace_first prefix v (l ∷ ls) h =
    ground (arith, after_prefix-append prefix v, values_at-replace_first prefix v ls)

-- No line has both prefixes.
abbrev Apart : Text → Text → Type 0
Apart p q = (l : Text) → is_some (after_prefix p l) ≡ true → is_some (after_prefix q l) ≡ true → ⊥

other-replace_first :
    (p q v : Text) (ls : List Text)
    → Apart p q
    → values_at q (replace_first p (p ++ v) ls) ≡ values_at q ls
other-replace_first p q v [] a = refl
other-replace_first p q v (l ∷ ls) a =
    ground (arith, after_prefix-append p v, a (p ++ v), a l, other-replace_first p q v ls a)

no_lines-nil : (ls : List Text) → no_lines ls ≡ true → ls ≡ []
no_lines-nil [] h = refl
no_lines-nil (l ∷ ls) h = ground (arith, h)

values_at-pop_empty :
    (q : Text) (ls ms : List Text)
    → after_prefix q [] ≡ none
    → values_at q (pop_empty ls ++ ms) ≡ values_at q ls ++ values_at q ms
values_at-pop_empty q [] ms e = refl
values_at-pop_empty q (l ∷ ls) ms e =
    ground (arith, values_at-pop_empty q ls ms e, no_lines-nil (pop_empty ls), text_eq_iff [] l)

prefix-nonempty : (k : Text) → after_prefix (k ++ codes "=") [] ≡ none
prefix-nonempty [] = refl
prefix-nonempty (c ∷ k) = refl

values_at_unset : (p : Text) (ls : List Text) → sets_key p ls ≡ false → values_at p ls ≡ []
values_at_unset p [] h = refl
values_at_unset p (l ∷ ls) h = ground (arith, values_at_unset p ls)

rows_one : (l : Text) → OneLine l → rows l ≡ l ∷ []
unfolding rows
rows_one [] h = refl
rows_one (c ∷ l) h = ground (arith, h.0, rows_one l h.1)

rows-join :
    (l : Text) (ls : List Text)
    → All OneLine (l ∷ ls)
    → rows (join_with (10 ∷ []) (l ∷ ls)) ≡ l ∷ ls
rows-join l [] h = rows_one l h.0
rows-join l (m ∷ ms) h =
    rows-line l (join_with (10 ∷ []) (m ∷ ms)) h.0
    ∙ ap (λ (r : List Text). l ∷ r) (rows-join m ms h.1)

replace_first-OneLine :
    (p line : Text) (ls : List Text)
    → OneLine line
    → All OneLine ls
    → All OneLine (replace_first p line ls)
replace_first-OneLine p line [] o h = tt
replace_first-OneLine p line (l ∷ ls) o h = elim (Bool-cases (is_some (after_prefix p l))) [
  | inl e ↦ rw e (o, h.1)
  | inr e ↦ rw e (h.0, replace_first-OneLine p line ls o h.1)
]

pop_empty-OneLine :
    (ls ms : List Text) → All OneLine ls → All OneLine ms → All OneLine (pop_empty ls ++ ms)
pop_empty-OneLine [] ms h k = k
pop_empty-OneLine (l ∷ ls) ms h k = elim (Bool-cases (no_lines (pop_empty ls) && text_eq [] l)) [
  | inl e ↦ rw e k
  | inr e ↦ rw e (h.0, pop_empty-OneLine ls ms h.1 k)
]

replaced_lines-OneLine :
    (p line : Text) (ls : List Text)
    → OneLine line
    → All OneLine ls
    → All OneLine (replaced_lines p line ls)
unfolding replaced_lines
replaced_lines-OneLine p line ls o h = elim (Bool-cases (sets_key p ls)) [
  | inl e ↦ rw e (replace_first-OneLine p line ls o h)
  | inr e ↦ rw e (pop_empty-OneLine ls (line ∷ [] ∷ []) h (o, (tt, tt)))
]

no_lines-append : (ls : List Text) (l : Text) (ms : List Text) → no_lines (ls ++ l ∷ ms) ≡ false
no_lines-append [] l ms = refl
no_lines-append (x ∷ ls) l ms = refl

-- A replacement leaves some line.
replaced_lines-some : (p line : Text) (ls : List Text) → no_lines (replaced_lines p line ls) ≡ false
unfolding replaced_lines
replaced_lines-some p line [] = refl
replaced_lines-some p line (l ∷ ls) =
    ground (arith, no_lines-append (pop_empty (l ∷ ls)) line ([] ∷ []))

values_at-replaced :
    (p v : Text) (ls : List Text)
    → after_prefix p [] ≡ none
    → values_at p (replaced_lines p (p ++ v) ls) ≡ v ∷ after_first (values_at p ls)
unfolding replaced_lines
values_at-replaced p v ls e = ground (
  arith,
  values_at-replace_first p v ls,
  values_at-pop_empty p ls ((p ++ v) ∷ [] ∷ []) e,
  values_at_unset p ls,
  after_prefix-append p v,
)

other-replaced :
    (p q v : Text) (ls : List Text)
    → Apart p q
    → after_prefix q [] ≡ none
    → after_prefix q (p ++ v) ≡ none
    → values_at q (replaced_lines p (p ++ v) ls) ≡ values_at q ls
unfolding replaced_lines
other-replaced p q v ls a e f = ground (
  arith,
  other-replace_first p q v ls a,
  values_at-pop_empty q ls ((p ++ v) ∷ [] ∷ []) e,
  append-nil (values_at q ls),
)

rows-join_lines :
    (ls : List Text) → no_lines ls ≡ false → All OneLine ls → rows (join_with (10 ∷ []) ls) ≡ ls
rows-join_lines [] e h = ground (arith, e)
rows-join_lines (l ∷ ls) e h = rows-join l ls h

rows-replace_env_key :
    (content key value : Text)
    → All OneLine (rows content)
    → OneLine (key ++ (codes "=" ++ value))
    → rows (replace_env_key content key value)
      ≡ replaced_lines (key ++ codes "=") ((key ++ codes "=") ++ value) (rows content)
unfolding replace_env_key
rows-replace_env_key content key value h o =
    let line = key ++ (codes "=" ++ value) in
    let p = key ++ codes "=" in
    rows-join_lines (replaced_lines p line (rows content))
      (replaced_lines-some p line (rows content)) (replaced_lines-OneLine p line (rows content) o h)
    ∙ ap (λ (l : Text). replaced_lines p l (rows content))
        (sym (append_assoc key (codes "=") value))

-- After `replaceEnvKey` the lines of a file give its key the new value, in the place of the first that they gave
-- before, and then those that followed that one; they give any other key the values that they gave before. Keys
-- hold no `=` and no line has a line end inside it.
pub values_of-replace_env_key :
    (content key value other : Text)
    → IsKey key
    → IsKey other
    → other ≢ key
    → All OneLine (rows content)
    → OneLine (key ++ (codes "=" ++ value))
    → (values_of key (replace_env_key content key value)
        ≡ value ∷ after_first (values_of key content))
      × (values_of other (replace_env_key content key value) ≡ values_of other content)
values_of-replace_env_key content key value other hk ho n h o =
    let p = key ++ codes "=" in
    let q = other ++ codes "=" in
    let e = rows-replace_env_key content key value h o in
    let a : Apart p q = λ l x y. n (sym (keys_agree key other l hk ho x y)) in
    (
      ap (values_at p) e ∙ values_at-replaced p value (rows content) (prefix-nonempty key),
      ap (values_at q) e
          ∙ other-replaced p q value (rows content) a (prefix-nonempty other)
              (ground (arith, a (p ++ value), after_prefix-append p value)),
    )
