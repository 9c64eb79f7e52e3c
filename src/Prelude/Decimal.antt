-- ===== src/Prelude/Decimal.antt =====
-- Natural numbers in decimal: `${n}`, and reading a text of digits back.
use mathlib.Core.List.{append_assoc, append-nil}
use ccu_mcp.Prelude.Tests.{ltb, leb, ltb→lt, Bool-cases, if◌then◌else◌}
use Prim.Native.Nat.{ℕ, zero, suc, ◌+◌, ◌-◌, ◌*◌, ◌/◌, ◌%◌, ◌≤◌, ◌<◌}
use mathlib.Core.Path.{◌≡◌, refl, sym, ap, ◌≡⟨◌⟩◌, ◌∎}
use mathlib.Core.Logic.{inl, inr}
use mathlib.Core.Bool.{Bool, ◌&&◌}
use mathlib.Core.Option.{Option, none, some}
use mathlib.Core.List.{List, [], ◌∷◌, ◌++◌}
use native.Mathlib.Omega.{arith}
use ccu_mcp.Prelude.Lists.{All, All-append}

-- On fuel, which `suc n` is for `n`.
unfoldable pub show_from : ℕ → ℕ → List ℕ
show_from zero n = []
show_from (suc f) n =
    let rest = show_from f (n / 10) in
    if ltb n 10 then (48 + n) ∷ [] else rest ++ (48 + n % 10) ∷ []

unfoldable pub show : ℕ → List ℕ
unfolding show_from
show n = show_from (suc n) n

abbrev pub is_digit : ℕ → Bool
is_digit c = leb 48 c && leb c 57

unfoldable pub read_from : ℕ → List ℕ → Option ℕ
read_from acc [] = some acc
read_from acc (c ∷ t) =
    let rest = read_from (acc * 10 + (c - 48)) t in if is_digit c then rest else none

-- A text of one digit or more, and nothing else.
unfoldable pub read_digits : List ℕ → Option ℕ
unfolding read_from
read_digits [] = none
read_digits (c ∷ t) = read_from 0 (c ∷ t)

read_from-show_from :
    (f n : ℕ) (t : List ℕ) → n < f → read_from 0 (show_from f n ++ t) ≡ read_from n t
unfolding show_from read_from
read_from-show_from zero n t h = absurd (omega arith)
read_from-show_from (suc f) n t h = ground (
  arith,
  append_assoc (show_from f (n / 10)) ((48 + n % 10) ∷ []) t,
  read_from-show_from f (n / 10) ((48 + n % 10) ∷ t),
)

abbrev pub AllDigits : List ℕ → Type 0
AllDigits = All (λ c. (48 ≤ c) × (c ≤ 57))

show_from_digits : (f n : ℕ) → AllDigits (show_from f n)
unfolding show_from
show_from_digits zero n = tt
show_from_digits (suc f) n = elim (Bool-cases (ltb n 10)) [
  | inl small ↦ rw small (omega (arith, ltb→lt n 10))
  | inr large ↦
      rw large (All-append _ (show_from f (n / 10)) _ (show_from_digits f (n / 10)) (omega arith))
]

pub show_digits : (n : ℕ) → AllDigits (show n)
unfolding show
show_digits n = show_from_digits (suc n) n

read_digits-snoc : (t : List ℕ) (c : ℕ) → read_digits (t ++ c ∷ []) ≡ read_from 0 (t ++ c ∷ [])
unfolding read_digits
read_digits-snoc [] c = refl
read_digits-snoc (d ∷ t) c = refl

read_from-nil : (n : ℕ) → read_from n [] ≡ some n
unfolding read_from
read_from-nil n = refl

read_digits-show_from :
    (f n : ℕ) → read_digits (show_from (suc f) n) ≡ read_from 0 (show_from (suc f) n)
unfolding show_from
read_digits-show_from f n = elim (Bool-cases (ltb n 10)) [
  | inl small ↦ rw small (read_digits-snoc [] (48 + n))
  | inr large ↦ rw large (read_digits-snoc (show_from f (n / 10)) (48 + n % 10))
]

-- What is printed reads back.
pub read_digits-show : (n : ℕ) → read_digits (show n) ≡ some n
unfolding show
read_digits-show n =
    read_digits (show_from (suc n) n)
    ≡⟨ read_digits-show_from n n ⟩ read_from 0 (show_from (suc n) n)
    ≡⟨ ap (read_from 0) (sym (append-nil (show_from (suc n) n))) ⟩
      read_from 0 (show_from (suc n) n ++ [])
    ≡⟨ read_from-show_from (suc n) n [] (omega arith) ⟩ read_from n []
    ≡⟨ read_from-nil n ⟩ some n ∎
