-- ===== src/Prelude/Dict.antt =====
-- A JavaScript `Map` with string keys as an association list in insertion order: `set` of a key that is
-- there keeps its place. A `Set` of strings is a list of its members.
use Prim.Native.String.{String}
use mathlib.Core.Path.{◌≡◌, refl}
use mathlib.Core.Bool.{Bool, false, ◌||◌}
use mathlib.Core.Option.{Option, none, some}
use mathlib.Core.List.{List, [], ◌∷◌, ◌++◌}
use native.Mathlib.Omega.{arith}
use text.Mathlib.TextEquality.{eq_iff}
use text.Mathlib.TextPositions.{eq_refl}
use Prim.Native.Nat.{suc, ◌≤◌}
use mathlib.Core.Logic.{inl, inr}
use ccu_mcp.Prelude.Tests.{if◌then◌else◌, Bool-cases}
use ccu_mcp.Prelude.Lists.{length}
use ccu_mcp.Prelude.Text.{◌===◌, is_some}

abbrev pub Dict {ℓ} : Type ℓ → Type ℓ
Dict V = List (String × V)

module _ {ℓ} {V : Type ℓ} where
  -- `m.get(k)`
  unfoldable pub get : Dict V → String → Option V
  get [] k = none
  get ((j, v) ∷ m) k = if j === k then some v else get m k

  -- `m.set(k, v)`
  unfoldable pub set : Dict V → String → V → Dict V
  set [] k v = (k, v) ∷ []
  set ((j, w) ∷ m) k v = let rest = set m k v in if j === k then (j, v) ∷ m else (j, w) ∷ rest

  -- `m.delete(k)`
  unfoldable pub remove : Dict V → String → Dict V
  remove [] k = []
  remove ((j, v) ∷ m) k = let rest = remove m k in if j === k then rest else (j, v) ∷ rest

  pub get-set :
      (m : Dict V) (k j : String) (v : V)
      → get (set m k v) j ≡ (if k === j then some v else get m j)
  unfolding get set
  get-set [] k j v = refl
  get-set ((i, w) ∷ m) k j v = ground (arith, eq_iff k j, eq_iff i k, eq_iff i j, get-set m k j v)

  pub get-remove :
      (m : Dict V) (k j : String) → get (remove m k) j ≡ (if k === j then none else get m j)
  unfolding get remove
  get-remove [] k j = ground arith
  get-remove ((i, v) ∷ m) k j = ground (arith, eq_iff k j, eq_iff i k, eq_iff i j, get-remove m k j)

-- No key has two entries, as in a `Map`.
abbrev pub Distinct {ℓ} : {V : Type ℓ} → Dict V → Type ℓ
Distinct [] = Unit
Distinct ((k, v) ∷ m) = (get m k ≡ none) × Distinct m

module _ {ℓ} {V : Type ℓ} where
  pub set-Distinct : (m : Dict V) (k : String) (v : V) → Distinct m → Distinct (set m k v)
  unfolding get set
  set-Distinct [] k v h = (refl, tt)
  set-Distinct ((j, w) ∷ m) k v h = elim (Bool-cases (j === k)) [
    | inl same ↦ rw same h
    | inr other ↦
        rw other
          (ground (arith, h.0, get-set m k j v, eq_iff j k, eq_iff k j), set-Distinct m k v h.1)
  ]

  pub remove-Distinct : (m : Dict V) (k : String) → Distinct m → Distinct (remove m k)
  unfolding get remove
  remove-Distinct [] k h = tt
  remove-Distinct ((j, w) ∷ m) k h = elim (Bool-cases (j === k)) [
    | inl same ↦ rw same (remove-Distinct m k h.1)
    | inr other ↦ rw other (ground (arith, h.0, get-remove m k j), remove-Distinct m k h.1)
  ]

  pub length-set :
      (m : Dict V) (k : String) (v : V)
      → length (set m k v) ≡ (if is_some (get m k) then length m else suc (length m))
  unfolding get set
  length-set [] k v = refl
  length-set ((j, w) ∷ m) k v = ground (arith, length-set m k v)

  pub length-remove-le : (m : Dict V) (k : String) → length (remove m k) ≤ length m
  unfolding remove
  length-remove-le [] k = omega arith
  length-remove-le ((j, w) ∷ m) k = ground (arith, length-remove-le m k)

-- `s.has(k)`
unfoldable pub member : List String → String → Bool
member [] k = false
member (j ∷ s) k = j === k || member s k

-- `s.add(k)`
unfoldable pub insert : List String → String → List String
insert s k = if member s k then s else s ++ k ∷ []

member-snoc : (s : List String) (k j : String) → member (s ++ k ∷ []) j ≡ (k === j || member s j)
unfolding member
member-snoc [] k j = refl
member-snoc (i ∷ s) k j = ground (arith, member-snoc s k j)

pub member-insert :
    (s : List String) (k j : String) → member (insert s k) j ≡ (k === j || member s j)
unfolding insert
member-insert s k j = ground (arith, eq_iff k j, member-snoc s k j)

pub ruleset dict_laws = (get-set, get-remove, member-insert, eq_refl)
