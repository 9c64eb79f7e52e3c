-- ===== src/Prelude/Text.antt =====
-- Text: a list of UTF-16 code units where the program walks it, the native `String` where it only
-- compares or joins whole texts.
use Prim.Native.Char.{code}
use Prim.Native.Nat.{ℕ}
use Prim.Native.String
use Prim.Native.String.append
use Prim.Native.String.{String}
use mathlib.Core.Path.{◌≡◌, refl, ap, ◌∙◌}
use mathlib.Core.Logic.{◌↔◌}
use mathlib.Core.Bool.{Bool, true, false, ◌&&◌, ◌||◌}
use mathlib.Core.List.{List, [], ◌∷◌, ◌++◌}
use mathlib.Core.Option.{Option, none, some}
use native.Mathlib.Omega.{arith}
use text.Mathlib.Text.{◌==◌ as string_eq}
use ccu_mcp.Prelude.Tests.{◌==◌, if◌then◌else◌}

-- The code units of a literal (every literal of the sources is ASCII, one unit to a character).
abbrev pub codes : String → List ℕ
codes String.[] = []
codes (String.◌∷◌ c s) = code c ∷ codes s

infix 50 ◌===◌
abbrev pub ◌===◌ : String → String → Bool
a === b = string_eq a b

-- `+` and template literals on strings.
infixr 65 ◌<>◌
abbrev pub ◌<>◌ : String → String → String
a <> b = String.◌++◌ a b

-- `xs.join(", ")`
abbrev pub comma_list : List String → String
comma_list [] = ""
comma_list (x ∷ []) = x
comma_list (x ∷ xs) = x <> ", " <> comma_list xs

abbrev pub text_eq : List ℕ → List ℕ → Bool
text_eq [] [] = true
text_eq [] (y ∷ ys) = false
text_eq (x ∷ xs) [] = false
text_eq (x ∷ xs) (y ∷ ys) = (x == y) && text_eq xs ys

pub text_eq_iff : (a b : List ℕ) → (text_eq a b ≡ true) ↔ (a ≡ b)
text_eq_iff [] [] = ground arith
text_eq_iff [] (y ∷ ys) = ground arith
text_eq_iff (x ∷ xs) [] = ground arith
text_eq_iff (x ∷ xs) (y ∷ ys) = ground (arith, text_eq_iff xs ys)

-- What follows a prefix; `none` if the text does not start with it.
abbrev pub after_prefix : List ℕ → List ℕ → Option (List ℕ)
after_prefix [] t = some t
after_prefix (p ∷ ps) [] = none
after_prefix (p ∷ ps) (c ∷ t) = let rest = after_prefix ps t in if p == c then rest else none

pub after_prefix-append : (p x : List ℕ) → after_prefix p (p ++ x) ≡ some x
after_prefix-append [] x = refl
after_prefix-append (c ∷ p) x = ground (arith, after_prefix-append p x)

abbrev pub is_some {ℓ} : {A : Type ℓ} → Option A → Bool
is_some none = false
is_some (some a) = true

-- `t.includes(needle)`
abbrev pub includes : List ℕ → List ℕ → Bool
includes needle [] = is_some (after_prefix needle [])
includes needle (c ∷ t) = is_some (after_prefix needle (c ∷ t)) || includes needle t

-- A text that JavaScript takes for true.
abbrev pub usable : Option (List ℕ) → Bool
usable none = false
usable (some []) = false
usable (some (c ∷ t)) = true

-- The code units of a joined text.
pub codes-append : (a b : String) → codes (a <> b) ≡ codes a ++ codes b
codes-append String.[] b = ap codes (append.nil b)
codes-append (String.◌∷◌ c a) b =
    ap codes (append.cons c a b) ∙ ap (λ (r : List ℕ). code c ∷ r) (codes-append a b)
