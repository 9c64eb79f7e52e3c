-- ===== src/Cli/EnvFile/Merged.antt =====
-- src/cli/env-writer.ts, `mergeEnvContent`: whose lines the new file has.
use mathlib.Core.List.{append-nil}
use ccu_mcp.Prelude.{
  Bool, ◌≡◌, refl, sym, ap, ◌∙◌, true, false, List, [], ◌∷◌, ◌++◌, filter, arith, All, All-filter,
  filter-append, filter-All, filter_none,
}
use ccu_mcp.Auth.File.{rows, unlines, trim}
use ccu_mcp.Auth.File.Lines.{OneLine, rows-unlines}
use ccu_mcp.Cli.EnvFile.{Text, is_managed, is_foreign, foreign_part, merge_env_content}

abbrev pub foreign_of : Text → List Text
foreign_of content = filter is_foreign (rows content)

abbrev pub managed_of : Text → List Text
managed_of content = filter is_managed (rows content)

empty_line : (is_foreign [] ≡ false) × (is_managed [] ≡ false)
unfolding is_managed trim
empty_line = (refl, refl)

unmanaged :
    (ls : List Text) → All (λ l. is_foreign l ≡ true) ls → All (λ l. is_managed l ≡ false) ls
unmanaged [] h = tt
unmanaged (l ∷ ls) h = (ground (arith, h.0), unmanaged ls h.1)

rows-lines : (ls : List Text) → All OneLine ls → rows (unlines ls) ≡ ls ++ [] ∷ []
unfolding rows
rows-lines ls h = ap rows (sym (append-nil (unlines ls))) ∙ rows-unlines ls [] h

-- What a filter that leaves out empty lines keeps of the lines behind the managed block.
filter-foreign_part :
    (p : Text → Bool) (ls : List Text)
    → p [] ≡ false
    → All OneLine ls
    → filter p (rows (foreign_part ls)) ≡ filter p ls
unfolding rows
filter-foreign_part p [] e h = ground (arith, e)
filter-foreign_part p (l ∷ ls) e h = simp e (
    ap (filter p) (rows-lines (l ∷ ls) h)
    ∙ (filter-append p (l ∷ ls) ([] ∷ [])
        ∙ (ap (λ (r : List Text). filter p (l ∷ ls) ++ r) (filter_none p ([] ∷ []) (e, tt))
            ∙ append-nil (filter p (l ∷ ls)))))

filter-merged :
    (p : Text → Bool) (ls fs : List Text)
    → p [] ≡ false
    → All OneLine ls
    → All OneLine fs
    → filter p (rows (unlines ls ++ foreign_part fs)) ≡ filter p ls ++ filter p fs
filter-merged p ls fs e h k =
    ap (filter p) (rows-unlines ls (foreign_part fs) h)
    ∙ (filter-append p ls (rows (foreign_part fs))
        ∙ ap (λ (r : List Text). filter p ls ++ r) (filter-foreign_part p fs e k))

-- Merging the lines of a managed block into a file, where none of the lines has a line end inside it: the new
-- file sets the managed keys that the block sets, by the same lines, and no other. All other lines are those of
-- the block, then those of the old file, in order. So the block's own comments pile up with each merge.
pub merge_env_content_lines :
    (existing : Text) (block : List Text)
    → All OneLine block
    → All OneLine (foreign_of existing)
    → (managed_of (merge_env_content existing (unlines block)).0 ≡ filter is_managed block)
      × (foreign_of (merge_env_content existing (unlines block)).0
          ≡ filter is_foreign block ++ foreign_of existing)
unfolding merge_env_content
merge_env_content_lines existing block h k =
    let f = foreign_of existing in
    let kept = All-filter (λ l. is_foreign l ≡ true) is_foreign (λ x e. e) (rows existing) in
    (
      filter-merged is_managed block f empty_line.1 h k
          ∙ (ap (λ (r : List Text). filter is_managed block ++ r)
                (filter_none is_managed f (unmanaged f kept))
              ∙ append-nil (filter is_managed block)),
      filter-merged is_foreign block f empty_line.0 h k
          ∙ ap (λ (r : List Text). filter is_foreign block ++ r) (filter-All is_foreign f kept),
    )
