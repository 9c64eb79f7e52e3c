-- ===== src/Tools/Control/Labels.antt =====
-- src/tools/control.ts: the labels that `create_system_variable` joins are those that
-- `set_system_variable` reads, and the index that it writes is within them.
use ccu_mcp.Prelude.{
  ℕ, zero, suc, ◌<◌, String, Bool, true, false, ◌≡◌, ◌≢◌, refl, sym, ap, ◌∙◌, Option, none, some,
  Option-cases, Bool-cases, inl, inr, List, [], ◌∷◌, ◌++◌, map, any, ◌==◌, ◌===◌, codes, text_eq,
  text_eq_iff, length, ◌||◌, lt→ltb, arith,
}
use ccu_mcp.Action.{Outcome, ok, thrown}
use ccu_mcp.Tools.Values.{Js, Value, quoted, number}
use ccu_mcp.Tools.Control.Coerce.{
  Text, Setter, by_method, split_labels, index_of, enum_index, set_index, set_enum, no_list,
}
use ccu_mcp.Tools.Control.CreateVariable.{bad_label}
use ccu_mcp.Tools.Control.CreateScript.{join_labels}

-- `labels[i]`
unfoldable pub get_elem? : {A : Type 0} → List A → ℕ → Option A
get_elem? [] i = none
get_elem? (x ∷ xs) zero = some x
get_elem? (x ∷ xs) (suc i) = get_elem? xs i

semicolons : Text → Bool
semicolons t = any (λ c. c == b';') t

split-last : (t : Text) → semicolons t ≡ false → split_labels t ≡ t ∷ []
unfolding split_labels semicolons
split-last [] h = refl
split-last (c ∷ t) h = ground (arith, split-last t)

split-more :
    (t rest : Text) → semicolons t ≡ false → split_labels (t ++ b';' ∷ rest) ≡ t ∷ split_labels rest
unfolding split_labels semicolons
split-more [] rest h = refl
split-more (c ∷ t) rest h = ground (arith, split-more t rest)

-- A list of labels that `create_system_variable` accepts, joined for the CCU, is read back label by
-- label by `set_system_variable`.
pub split_labels-join_labels :
    (l : String) (ls : List String)
    → bad_label (l ∷ ls) ≡ none
    → split_labels (join_labels (l ∷ ls)) ≡ map codes (l ∷ ls)
unfolding bad_label semicolons
split_labels-join_labels l [] h = split-last (codes l) (ground arith)
split_labels-join_labels l (m ∷ ls) h =
    rw (split-more (codes l) (join_labels (m ∷ ls)) (ground arith))
      (ap (λ rest. codes l ∷ rest) (split_labels-join_labels m ls (ground arith)))

index_of-finds :
    (label : Text) (ls : List Text) (i : ℕ)
    → index_of label ls ≡ some i
    → (i < length ls) × (get_elem? ls i ≡ some label)
unfolding index_of get_elem?
index_of-finds label [] i h = ground arith
index_of-finds label (l ∷ ls) zero h =
    (omega arith, ap some ((text_eq_iff l label).0 (ground arith)))
index_of-finds label (l ∷ ls) (suc i) h =
    let below : index_of label ls ≡ some i = ground arith in
    let r = index_of-finds label ls i below in (omega (arith, r.0), r.1)

index_of-some :
    (label : Text) (ls : List Text)
    → any (λ l. text_eq l label) ls ≡ true
    → index_of label ls ≢ none
unfolding index_of
index_of-some label [] h e = ground arith
index_of-some label (l ∷ ls) h e = ground (arith, index_of-some label ls)

listed-codes :
    (label : Text) (ls : List String)
    → any (λ x. text_eq (codes x) label) ls ≡ any (λ t. text_eq t label) (map codes ls)
listed-codes label [] = refl
listed-codes label (l ∷ ls) = ap (λ b. text_eq (codes l) label || b) (listed-codes label ls)

abbrev pub chosen : {N : Type 0} → Js N → ℕ → Setter N
chosen js i = by_method "SysVar.setFloat" (number (js.of_index i))

module _ {N : Type 0} (js : Js N) (join : List Text → String) (name : String) where
  set_index-below :
      (value : Value N) (hint : String) (n : ℕ) (o : Option ℕ) (r : Setter N)
      → set_index js name value hint n o ≡ ok r
      → (i : ℕ) × ((i < n) × (o ≡ some i) × (r ≡ chosen js i))
  set_index-below value hint n none r h = ground arith
  set_index-below value hint n (some i) r h = ground arith

  abbrev indexed : Value N → String → Outcome (Setter N)
  indexed value list =
      let labels = split_labels (codes list) in
      set_index js name value (join labels) (length labels) (enum_index js labels value)

  enum-given :
      (value : Value N) (list : String)
      → (list === "") ≡ false
      → set_enum js join name value (some list) ≡ indexed value list
  enum-given value list h = rw h refl

  enum-empty :
      (value : Value N) (list : String)
      → (list === "") ≡ true
      → set_enum js join name value (some list) ≡ thrown (no_list js name)
  enum-empty value list h = rw h refl

  -- A variable with a list of labels is written by `SysVar.setFloat` with an index into the list, or not at
  -- all.
  pub set_enum-below :
      (value : Value N) (list : String) (r : Setter N)
      → set_enum js join name value (some list) ≡ ok r
      → (i : ℕ) × ((i < length (split_labels (codes list))) × (r ≡ chosen js i))
  set_enum-below value list r h =
      let labels = split_labels (codes list) in
      elim (Bool-cases (list === "")) [
        | inl y ↦
            let bad : thrown (no_list js name) ≡ ok r = sym (enum-empty value list y) ∙ h in
            ground (arith, bad)
        | inr y ↦
            let (i, b) =
              set_index-below value (join labels) (length labels) (enum_index js labels value) r
                (sym (enum-given value list y) ∙ h) in
            (i, (b.0, b.2))
      ]

  label-index :
      (label : String) (labels : List Text) (hint : String) (i : ℕ)
      → index_of (codes label) labels ≡ some i
      → set_index js name (quoted label) hint (length labels) (enum_index js labels (quoted label))
        ≡ ok (chosen js i)
  unfolding enum_index
  label-index label labels hint i h =
      rw h (rw (lt→ltb i (length labels) (index_of-finds (codes label) labels i h).0) refl)

  -- A label of the list that `create_system_variable` gave the variable selects, in
  -- `set_system_variable`, an index at which the list has that label.
  pub set_enum_label :
      (label l : String) (ls : List String) (list : String)
      → bad_label (l ∷ ls) ≡ none
      → codes list ≡ join_labels (l ∷ ls)
      → (list === "") ≡ false
      → any (λ x. text_eq (codes x) (codes label)) (l ∷ ls) ≡ true
      → (i : ℕ) × ((get_elem? (map codes (l ∷ ls)) i ≡ some (codes label))
          × (set_enum js join name (quoted label) (some list) ≡ ok (chosen js i)))
  set_enum_label label l ls list accepted joined given listed =
      let labels = split_labels (codes list) in
      let same : labels ≡ map codes (l ∷ ls) =
        ap split_labels joined ∙ split_labels-join_labels l ls accepted in
      let found : any (λ t. text_eq t (codes label)) labels ≡ true =
        ap (any (λ t. text_eq t (codes label))) same
        ∙ (sym (listed-codes (codes label) (l ∷ ls)) ∙ listed) in
      elim (Option-cases (index_of (codes label) labels)) [
        | inl y ↦ absurd (index_of-some (codes label) labels found y)
        | inr (i, y) ↦ (
          i,
          (
            sym (ap (λ x. get_elem? x i) same) ∙ (index_of-finds (codes label) labels i y).1,
            enum-given (quoted label) list given ∙ label-index label labels (join labels) i y,
          ),
        )
      ]
