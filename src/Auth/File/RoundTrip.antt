-- ===== src/Auth/File/RoundTrip.antt =====
-- The token file of src/auth/token.ts: what `persist` writes, `parsePersisted` reads back, and the lines
-- of the operator stay.
use mathlib.Core.List.{append_assoc, append-nil}
use ccu_mcp.Prelude.{
  ℕ, ◌≡◌, ◌≢◌, refl, ap, sym, ◌∙◌, true, false, ◌||◌, Option, none, some, List, [], ◌∷◌, ◌++◌,
  after_prefix, after_prefix-append, is_some, arith, All, All-append, All-filter,
}
use ccu_mcp.Prelude.Decimal.{show, read_digits, read_digits-show, show_digits, AllDigits}
use ccu_mcp.Auth.Tokens.{Text}
use ccu_mcp.Auth.File.{
  PersistedToken, lines, unlines, rows, trimmed, key_token, key_issued, key_previous, key_expires,
  line_value, find_value, read, read_num, raw_number, number, parse_persisted, token_text,
  issued_lines, previous_lines, state_lines, serialize, is_managed, is_foreign, foreign_lines,
  new_content,
}
use ccu_mcp.Auth.File.Lines.{OneLine, IsPlain, IsPlain-OneLine, lines-unlines, trim-plain}

digits-IsPlain : (t : Text) → AllDigits t → IsPlain t
digits-IsPlain [] h = tt
digits-IsPlain (c ∷ t) (p, h) = (omega arith, digits-IsPlain t h)

show-IsPlain : (n : ℕ) → IsPlain (show n)
show-IsPlain n = digits-IsPlain (show n) (show_digits n)

show-ne-nil : (n : ℕ) → show n ≢ []
unfolding read_digits
show-ne-nil n e = cc (ap read_digits e, read_digits-show n)

line_value-some : (t : Text) (rest : Option Text) → t ≢ [] → line_value (some t) rest ≡ some t
line_value-some [] rest h = absurd (h refl)
line_value-some (c ∷ t) rest h = refl

-- A text that can be a value in the file: visible characters, at least one.
abbrev pub IsValue : Option Text → Type 0
IsValue none = Unit
IsValue (some t) = (t ≢ []) × IsPlain t

-- The end of the grace is written only beside the token that it is for.
abbrev pub IsComplete : Option Text → Option ℕ → Type 0
IsComplete none none = Unit
IsComplete none (some n) = ⊥
IsComplete (some t) expires = Unit

pub record IsSound (s : PersistedToken) : Type 0 where
  pub has_token : s.token ≢ none
  pub token_value : IsValue s.token
  pub previous_value : IsValue s.previous
  pub complete : IsComplete s.previous s.previous_expires

-- No line of the rest is one of this module's.
abbrev pub Unmanaged : List Text → Type 0
Unmanaged = All (λ l. is_managed l ≡ false)

-- What `is_managed` tests, for four optional values in the place of the four keys' rests.
none-of :
    {A : Type 0} (a b c d : Option A)
    → (is_some a || is_some b || is_some c || is_some d) ≡ false
    → (a ≡ none) × (b ≡ none) × (c ≡ none) × (d ≡ none)
none-of none none none none h = (refl, refl, refl, refl)
none-of none none none (some x) h = ground arith
none-of none none (some x) d h = ground arith
none-of none (some x) c d h = ground arith
none-of (some x) b c d h = ground arith

unmanaged-none :
    (l : Text)
    → is_managed l ≡ false
    → (after_prefix key_token l ≡ none)
      × (after_prefix key_issued l ≡ none)
      × (after_prefix key_previous l ≡ none)
      × (after_prefix key_expires l ≡ none)
unfolding is_managed
unmanaged-none l h = none-of _ _ _ _ h

find_value-skip :
    (key l : Text) (ls : List Text)
    → after_prefix key l ≡ none
    → find_value key (l ∷ ls) ≡ find_value key ls
unfolding find_value
find_value-skip key l ls h = rw h refl

find-Unmanaged :
    (ls : List Text)
    → Unmanaged ls
    → (find_value key_token (ls ++ [] ∷ []) ≡ none)
      × (find_value key_issued (ls ++ [] ∷ []) ≡ none)
      × (find_value key_previous (ls ++ [] ∷ []) ≡ none)
      × (find_value key_expires (ls ++ [] ∷ []) ≡ none)
unfolding find_value
find-Unmanaged [] h = (refl, refl, refl, refl)
find-Unmanaged (l ∷ ls) (p, h) =
    let u = unmanaged-none l p in
    let r = find-Unmanaged ls h in
    (
      find_value-skip key_token l (ls ++ [] ∷ []) u.0 ∙ r.0,
      find_value-skip key_issued l (ls ++ [] ∷ []) u.1 ∙ r.1,
      find_value-skip key_previous l (ls ++ [] ∷ []) u.2 ∙ r.2,
      find_value-skip key_expires l (ls ++ [] ∷ []) u.3 ∙ r.3,
    )

module _ (t : Text) (rest : List Text) where
  find-token : t ≢ [] → find_value key_token ((key_token ++ t) ∷ rest) ≡ some t
  unfolding find_value
  find-token h = rw (after_prefix-append key_token t) (line_value-some t _ h)

  find-issued :
      (issued : Option ℕ) (previous : Option Text) (expires : Option ℕ)
      → find_value key_issued rest ≡ none
      → find_value key_issued
          ((key_token ++ t) ∷ (issued_lines issued ++ (previous_lines previous expires ++ rest)))
        ≡ elim issued [ none ↦ none | some n ↦ some (show n) ]
  unfolding find_value
  find-issued (some n) previous expires h =
      rw (after_prefix-append key_issued (show n)) (line_value-some (show n) _ (show-ne-nil n))
  find-issued none none expires h = h
  find-issued none (some p) none h = h
  find-issued none (some p) (some n) h = h

  find-previous :
      (issued : Option ℕ) (previous : Option Text) (expires : Option ℕ)
      → IsValue previous
      → find_value key_previous rest ≡ none
      → find_value key_previous
          ((key_token ++ t) ∷ (issued_lines issued ++ (previous_lines previous expires ++ rest)))
        ≡ previous
  unfolding find_value
  find-previous none none expires v h = h
  find-previous (some n) none expires v h = h
  find-previous none (some p) expires v h =
      rw (after_prefix-append key_previous p) (line_value-some p _ v.0)
  find-previous (some n) (some p) expires v h =
      rw (after_prefix-append key_previous p) (line_value-some p _ v.0)

  find-expires :
      (issued : Option ℕ) (previous : Option Text) (expires : Option ℕ)
      → IsComplete previous expires
      → find_value key_expires rest ≡ none
      → find_value key_expires
          ((key_token ++ t) ∷ (issued_lines issued ++ (previous_lines previous expires ++ rest)))
        ≡ elim expires [ none ↦ none | some n ↦ some (show n) ]
  unfolding find_value
  find-expires none none none c h = h
  find-expires (some n) none none c h = h
  find-expires none (some p) none c h = h
  find-expires (some n) (some p) none c h = h
  find-expires none (some p) (some e) c h =
      rw (after_prefix-append key_expires (show e)) (line_value-some (show e) _ (show-ne-nil e))
  find-expires (some n) (some p) (some e) c h =
      rw (after_prefix-append key_expires (show e)) (line_value-some (show e) _ (show-ne-nil e))
  find-expires issued none (some e) c h = absurd c

foreign-unmanaged : (l : Text) → is_foreign l ≡ true → is_managed l ≡ false
foreign-unmanaged l h = ground arith

foreign_lines-Unmanaged : (old : Option Text) → Unmanaged (foreign_lines old)
unfolding foreign_lines
foreign_lines-Unmanaged none = tt
foreign_lines-Unmanaged (some content) = All-filter _ is_foreign foreign-unmanaged (rows content)

IsValue-OneLine : (t : Text) → IsValue (some t) → OneLine t
IsValue-OneLine t h = IsPlain-OneLine t h.1

show-OneLine : (n : ℕ) → OneLine (show n)
show-OneLine n = IsPlain-OneLine (show n) (show-IsPlain n)

abbrev KeyLine : Text → Type 0
KeyLine key = (t : Text) → OneLine t → OneLine (key ++ t)

key-OneLine : (key : Text) → OneLine key → KeyLine key
key-OneLine key k t h = All-append _ key t k h

token_text-OneLine : (o : Option Text) → IsValue o → OneLine (token_text o)
token_text-OneLine none h = ground arith
token_text-OneLine (some t) h = IsValue-OneLine t h

issued_lines-OneLine : (issued : Option ℕ) → All OneLine (issued_lines issued)
issued_lines-OneLine none = tt
issued_lines-OneLine (some n) =
    (key-OneLine key_issued (ground arith) (show n) (show-OneLine n), tt)

previous_lines-OneLine :
    (previous : Option Text) (expires : Option ℕ)
    → IsValue previous
    → All OneLine (previous_lines previous expires)
previous_lines-OneLine none expires h = tt
previous_lines-OneLine (some p) none h =
    (key-OneLine key_previous (ground arith) p (IsValue-OneLine p h), tt)
previous_lines-OneLine (some p) (some n) h = (
  key-OneLine key_previous (ground arith) p (IsValue-OneLine p h),
  (key-OneLine key_expires (ground arith) (show n) (show-OneLine n), tt),
)

-- The lines of the file that `persist` writes.
lines-new_content :
    (s : PersistedToken) (old : Option Text)
    → All OneLine (state_lines s)
    → All OneLine (foreign_lines old)
    → lines (new_content s old) ≡ state_lines s ++ (foreign_lines old ++ [] ∷ [])
unfolding new_content serialize lines
lines-new_content s old h f =
    lines-unlines (state_lines s) (unlines (foreign_lines old)) h
    ∙ ap (λ (r : List Text). state_lines s ++ r)
        (ap lines (sym (append-nil (unlines (foreign_lines old))))
          ∙ lines-unlines (foreign_lines old) [] f)

pub state_lines-OneLine : (s : PersistedToken) → IsSound s → All OneLine (state_lines s)
state_lines-OneLine s h = (
  key-OneLine key_token (ground arith) (token_text s.token)
      (token_text-OneLine s.token h.token_value),
  All-append _ (issued_lines s.issued) (previous_lines s.previous s.previous_expires)
      (issued_lines-OneLine s.issued)
      (previous_lines-OneLine s.previous s.previous_expires h.previous_value),
)

trimmed-value : (o : Option Text) → IsValue o → trimmed o ≡ o
trimmed-value none h = refl
trimmed-value (some t) h = ap some (trim-plain t h.1)

-- A number that was written reads back.
number-written :
    (other : Text → Option ℕ) (o : Option ℕ)
    → raw_number other (trimmed (elim o [ none ↦ none | some n ↦ some (show n) ])) ≡ o
number-written other none = refl
number-written other (some n) =
    rw (trim-plain (show n) (show-IsPlain n)) (rw (read_digits-show n, number) refl)

persisted-ext :
    (a b : PersistedToken)
    → a.token ≡ b.token
    → a.issued ≡ b.issued
    → a.previous ≡ b.previous
    → a.previous_expires ≡ b.previous_expires
    → a ≡ b
persisted-ext a b p q r u =
    λ i. record { token = p i; issued = q i; previous = r i; previous_expires = u i }

token_text-value :
    (o : Option Text)
    → o ≢ none
    → IsValue o
    → (token_text o ≢ []) × (trimmed (some (token_text o)) ≡ o)
token_text-value none n h = absurd (n refl)
token_text-value (some t) n h = (h.0, trimmed-value (some t) h)

-- What `persist` writes, `parsePersisted` reads back whole, if the state is sound and no line of the
-- operator has a line end inside it.
pub parse_persisted-new_content :
    (other_number : Text → Option ℕ) (s : PersistedToken) (old : Option Text)
    → IsSound s
    → All OneLine (foreign_lines old)
    → parse_persisted other_number (new_content s old) ≡ s
unfolding parse_persisted read read_num
parse_persisted-new_content other_number s old h one =
    let u = find-Unmanaged (foreign_lines old) (foreign_lines-Unmanaged old) in
    let v = token_text-value s.token h.has_token h.token_value in
    let t = token_text s.token in
    let tail = foreign_lines old ++ [] ∷ [] in
    let rest = issued_lines s.issued ++ (previous_lines s.previous s.previous_expires ++ tail) in
    let split : lines (new_content s old) ≡ (key_token ++ t) ∷ rest =
      lines-new_content s old (state_lines-OneLine s h) one
      ∙ ap (λ (r : List Text). (key_token ++ t) ∷ r)
          (append_assoc (issued_lines s.issued) (previous_lines s.previous s.previous_expires)
            tail) in
    rw split (
      persisted-ext _ _ (rw (find-token t rest v.0) v.1)
        (rw (find-issued t tail s.issued s.previous s.previous_expires u.1)
          (number-written other_number s.issued))
        (rw (find-previous t tail s.issued s.previous s.previous_expires h.previous_value u.2)
          (trimmed-value s.previous h.previous_value))
        (rw (find-expires t tail s.issued s.previous s.previous_expires h.complete u.3)
          (number-written other_number s.previous_expires)))
