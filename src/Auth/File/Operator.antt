-- ===== src/Auth/File/Operator.antt =====
-- The token file of src/auth/token.ts: the lines of the operator stay when `persist` writes it again.
use mathlib.Core.List.{append-nil}
use ccu_mcp.Prelude.{
  ℕ, ◌≡◌, refl, ap, sym, ◌∙◌, true, false, Option, none, some, List, [], ◌∷◌, ◌++◌, filter, arith,
  All, All-append, All-filter,
}
use ccu_mcp.Prelude.Decimal.{show}
use ccu_mcp.Auth.Tokens.{Text}
use ccu_mcp.Auth.File.{
  PersistedToken, unlines, rows, key_token, key_issued, key_previous, trim, key_expires, token_text,
  issued_lines, previous_lines, state_lines, serialize, is_managed, is_foreign, foreign_lines,
  new_content,
}
use ccu_mcp.Auth.File.Lines.{OneLine, rows-unlines}
use ccu_mcp.Auth.File.RoundTrip.{IsSound, state_lines-OneLine}

abbrev Managed : List Text → Type 0
Managed = All (λ l. is_managed l ≡ true)

managed_token : (t : Text) → is_managed (key_token ++ t) ≡ true
unfolding is_managed
managed_token t = refl

managed_issued : (t : Text) → is_managed (key_issued ++ t) ≡ true
unfolding is_managed
managed_issued t = refl

managed_previous : (t : Text) → is_managed (key_previous ++ t) ≡ true
unfolding is_managed
managed_previous t = refl

managed_expires : (t : Text) → is_managed (key_expires ++ t) ≡ true
unfolding is_managed
managed_expires t = refl

issued_lines-Managed : (issued : Option ℕ) → Managed (issued_lines issued)
issued_lines-Managed none = tt
issued_lines-Managed (some n) = (managed_issued (show n), tt)

previous_lines-Managed :
    (previous : Option Text) (expires : Option ℕ) → Managed (previous_lines previous expires)
previous_lines-Managed none expires = tt
previous_lines-Managed (some p) none = (managed_previous p, tt)
previous_lines-Managed (some p) (some n) = (managed_previous p, (managed_expires (show n), tt))

state_lines-Managed : (s : PersistedToken) → Managed (state_lines s)
state_lines-Managed s = (
  managed_token (token_text s.token),
  All-append _ (issued_lines s.issued) (previous_lines s.previous s.previous_expires)
      (issued_lines-Managed s.issued) (previous_lines-Managed s.previous s.previous_expires),
)

filter-Managed :
    (ls rest : List Text) → Managed ls → filter is_foreign (ls ++ rest) ≡ filter is_foreign rest
filter-Managed [] rest h = refl
filter-Managed (l ∷ ls) rest (p, h) = ground (arith, filter-Managed ls rest h)

blank_last : is_foreign [] ≡ false
unfolding trim
blank_last = refl

filter-foreign :
    (ls : List Text) → All (λ l. is_foreign l ≡ true) ls → filter is_foreign (ls ++ [] ∷ []) ≡ ls
filter-foreign [] h = simp blank_last refl
filter-foreign (l ∷ ls) (p, h) = simp p (ap (λ (r : List Text). l ∷ r) (filter-foreign ls h))

foreign_lines-All : (old : Option Text) → All (λ l. is_foreign l ≡ true) (foreign_lines old)
unfolding foreign_lines
foreign_lines-All none = tt
foreign_lines-All (some content) = All-filter _ is_foreign (λ x e. e) (rows content)

rows-new_content :
    (s : PersistedToken) (old : Option Text)
    → All OneLine (state_lines s)
    → All OneLine (foreign_lines old)
    → rows (new_content s old) ≡ state_lines s ++ (foreign_lines old ++ [] ∷ [])
unfolding new_content serialize rows
rows-new_content s old h f =
    rows-unlines (state_lines s) (unlines (foreign_lines old)) h
    ∙ ap (λ (r : List Text). state_lines s ++ r)
        (ap rows (sym (append-nil (unlines (foreign_lines old))))
          ∙ rows-unlines (foreign_lines old) [] f)

-- The lines of the operator in the file that `persist` writes are those of the file that was there, in
-- the same order, if the state is sound and none of those lines has a line end inside it.
pub foreign_lines-new_content :
    (s : PersistedToken) (old : Option Text)
    → IsSound s
    → All OneLine (foreign_lines old)
    → foreign_lines (some (new_content s old)) ≡ foreign_lines old
unfolding foreign_lines
foreign_lines-new_content s old h one =
    ap (filter is_foreign) (rows-new_content s old (state_lines-OneLine s h) one)
    ∙ (filter-Managed (state_lines s) (foreign_lines old ++ [] ∷ []) (state_lines-Managed s)
        ∙ filter-foreign (foreign_lines old) (foreign_lines-All old))
