-- ===== src/Utils/Values/Exact.antt =====
-- What src/utils.ts makes of the text of a whole number.
use Prim.Native.Nat.{zero}
use native.Mathlib.Numerals.{unary_clauses}
use ccu_mcp.Prelude.{
  ℕ, suc, ◌+◌, ◌*◌, ◌^◌, ◌≤◌, ◌<◌, ◌/◌, ◌%◌, ◌↔◌, true, false, not, ◌≡◌, refl, ◌∙◌, ◌⊎◌, inl, inr,
  Option, some, [], ◌∷◌, ◌++◌, arith, ltb, leb, ltb→lt, leb→le, le→leb, Bool-cases, any, filter,
  length, length-append, All-append, codes, text_eq,
}
use ccu_mcp.Prelude.Decimal.{show, show_from, AllDigits}
use ccu_mcp.Utils.{Text}
use ccu_mcp.Utils.Values.{
  amount, text, Numbers, after_digits, is_decimal, significant, is_mark, is_dot, parse_value,
  parse_decimal,
}

-- A text of digits that does not begin with 0.
data Leads : Text → Type 0 where
  leads : (c : ℕ) (t : Text) → 49 ≤ c → c ≤ 57 → AllDigits t → Leads (c ∷ t)

Leads-append : (s u : Text) → Leads s → AllDigits u → Leads (s ++ u)
Leads-append s u (leads c t low high h) d = leads c (t ++ u) low high (All-append _ t u h d)

show_from-Leads : (f n : ℕ) → n < f → 1 ≤ n → Leads (show_from f n)
unfolding show_from
show_from-Leads zero n h p = absurd (omega arith)
show_from-Leads (suc f) n h p = elim (Bool-cases (ltb n 10)) [
  | inl small ↦ rw small (leads (48 + n) [] (omega arith) (omega (arith, ltb→lt n 10)) tt)
  | inr large ↦ rw large (
      Leads-append (show_from f (n / 10)) _
        (show_from-Leads f (n / 10) (omega arith) (ground arith)) (omega arith))
]

pow_suc : (m k : ℕ) → m ^ suc k ≡ m ^ k * m
pow_suc m k = simp unary_clauses (omega arith)

div_pow : (n k : ℕ) → (n < 10 ^ suc k) ↔ (n / 10 < 10 ^ k)
div_pow n k = (λ h. omega (arith, pow_suc 10 k), λ h. omega (arith, pow_suc 10 k))

pow_pos : (k : ℕ) → 1 ≤ 10 ^ k
pow_pos zero = omega arith
pow_pos (suc k) = omega (arith, pow_suc 10 k, pow_pos k)

length_small : (f n : ℕ) → ltb n 10 ≡ true → length (show_from (suc f) n) ≡ 1
unfolding show_from
length_small f n small = rw small refl

length_large :
    (f n : ℕ) → ltb n 10 ≡ false → length (show_from (suc f) n) ≡ length (show_from f (n / 10)) + 1
unfolding show_from
length_large f n large = rw large (length-append (show_from f (n / 10)) ((48 + n % 10) ∷ []))

length_pos : (f n : ℕ) → n < f → 1 ≤ length (show_from f n)
length_pos zero n h = absurd (omega arith)
length_pos (suc f) n h = elim (Bool-cases (ltb n 10)) [
  | inl small ↦ omega (arith, length_small f n small)
  | inr large ↦ omega (arith, length_large f n large)
]

shorter : (f n : ℕ) → n < suc f → ltb n 10 ≡ false → n / 10 < f
shorter f n h large = ground arith

Counts : ℕ → ℕ → Type 0
Counts f n = (k : ℕ) → (length (show_from f n) ≤ suc k) ↔ (n < 10 ^ suc k)

longer : (f n : ℕ) → n < suc f → ltb n 10 ≡ false → Counts f (n / 10) → Counts (suc f) n
unfolding Counts
longer f n h large ih zero = (
  λ b. absurd (omega (arith, length_large f n large, length_pos f (n / 10) (shorter f n h large))),
  λ b. absurd (ground arith),
)
longer f n h large ih (suc k) = (
  λ b. (div_pow n (suc k)).1 ((ih k).0 (omega (arith, length_large f n large))),
  λ b. omega (arith, length_large f n large, (ih k).1 ((div_pow n (suc k)).0 b)),
)

-- A number has as many digits as it needs.
length-show_from : (f n : ℕ) → n < f → Counts f n
unfolding Counts
length-show_from zero n h k = absurd (omega arith)
length-show_from (suc f) n h k = elim (Bool-cases (ltb n 10)) [
  | inl small ↦ (
    λ b. omega (arith, ltb→lt n 10 small, pow_suc 10 k, pow_pos k),
    λ b. omega (arith, length_small f n small),
  )
  | inr large ↦ longer f n h large (length-show_from f (n / 10) (shorter f n h large)) k
]

after_digits_all : (t : Text) → AllDigits t → after_digits t ≡ true
after_digits_all [] h = refl
after_digits_all (c ∷ t) h = ground (arith, h.0, after_digits_all t h.1)

no_marks : (t : Text) → AllDigits t → filter (λ c. not (is_mark c)) t ≡ t
no_marks [] h = refl
no_marks (c ∷ t) h = ground (arith, h.0, no_marks t h.1)

no_dots : (t : Text) → AllDigits t → any is_dot t ≡ false
no_dots [] h = refl
no_dots (c ∷ t) h = ground (arith, h.0, no_dots t h.1)

Leads-is_decimal : (s : Text) → Leads s → is_decimal s ≡ true
unfolding is_decimal
Leads-is_decimal s (leads c t low high h) = ground (arith, after_digits_all t h)

Leads-significant : (s : Text) → Leads s → significant s ≡ s
unfolding significant
Leads-significant s (leads c t low high h) = ground (arith, no_marks t h)

Leads-no_dot : (s : Text) → Leads s → any is_dot s ≡ false
Leads-no_dot s (leads c t low high h) = ground (arith, no_dots t h)

Leads-no_word :
    (s : Text)
    → Leads s
    → (text_eq s (codes "true") ≡ false)
      × (text_eq s (codes "false") ≡ false)
      × (text_eq s [] ≡ false)
Leads-no_word s (leads c t low high h) = (ground arith, ground arith, refl)

show-Leads : (n : ℕ) → 1 ≤ n → Leads (show n)
unfolding show
show-Leads n p = show_from-Leads (suc n) n (omega arith) p

length-show : (n : ℕ) → (length (show n) ≤ 15) ↔ (n < 10 ^ 15)
unfolding show Counts
length-show n = length-show_from (suc n) n (omega arith) 14

module _ {N : Type 0} (js : Numbers N) where
  Leads-parse_value : (s : Text) → Leads s → parse_value js (text s) ≡ parse_decimal js s
  unfolding parse_value
  Leads-parse_value s h =
      let (no_true, no_false, given) = Leads-no_word s h in
      rw (given, no_true, no_false, Leads-is_decimal s h) refl

  -- The two ways in which the text of `n` may come out.
  abbrev IsKept : (N → Option ℕ) → ℕ → Type 0
  IsKept int n = (x : N) × (parse_value js (text (show n)) ≡ amount x) × (int x ≡ some n)

  abbrev IsText : ℕ → Type 0
  IsText n = (parse_value js (text (show n)) ≡ text (show n)) × (10 ^ 15 ≤ n)

  module _ (int : N → Option ℕ) (exact : (n : ℕ) → n < 2 ^ 53 → int (js.read (show n)) ≡ some n)
      (same : (n : ℕ) (x : N) → js.same_integer (show n) x ≡ true → int x ≡ some n) where
    read_small : (n : ℕ) → n < 10 ^ 15 → int (js.read (show n)) ≡ some n
    read_small n h = exact n (omega arith)

    long-show : (n : ℕ) → 10 ^ 15 ≤ n → leb (length (show n)) 15 ≡ false
    long-show n large = elim (Bool-cases (leb (length (show n)) 15)) [
      | inl short ↦ absurd (omega (arith, (length-show n).0 (leb→le (length (show n)) 15 short)))
      | inr long ↦ long
    ]

    parse_long : (n : ℕ) → Leads (show n) → 10 ^ 15 ≤ n → IsKept int n ⊎ IsText n
    parse_long n h large = elim (Bool-cases (js.same_integer (show n) (js.read (show n)))) [
      | inl eq ↦ inl (
        js.read (show n),
        Leads-parse_value (show n) h
            ∙ (rw (Leads-significant (show n) h, long-show n large, Leads-no_dot (show n) h, eq)
                refl),
        same n (js.read (show n)) eq,
      )
      | inr ne ↦ inr (
        Leads-parse_value (show n) h
            ∙ (rw (Leads-significant (show n) h, long-show n large, Leads-no_dot (show n) h, ne)
                refl),
        large,
      )
    ]

    parse_short : (n : ℕ) → Leads (show n) → n < 10 ^ 15 → IsKept int n
    parse_short n h small = (
      js.read (show n),
      Leads-parse_value (show n) h
          ∙ (rw
              (Leads-significant (show n) h, le→leb (length (show n)) 15 ((length-show n).1 small))
              refl),
      read_small n small,
    )

    parse_zero : IsKept int 0
    unfolding show show_from parse_value is_decimal significant
    parse_zero = (js.read (show 0), refl, exact 0 (omega arith))

    -- The text of a whole number comes out of `parseValue` as the number that is worth exactly that, or
    -- as the text itself, and the latter only from a quadrillion on. It is supposed that reading a whole
    -- number below 2 ^ 53 is exact, and that `BigInt(s) === BigInt(x)` says that `x` is worth `s`.
    pub parse_value-show :
        (n : ℕ)
        → ((x : N) × (parse_value js (text (show n)) ≡ amount x) × (int x ≡ some n))
          ⊎ ((parse_value js (text (show n)) ≡ text (show n)) × (10 ^ 15 ≤ n))
    parse_value-show zero = inl parse_zero
    parse_value-show (suc n) = elim (Bool-cases (ltb (suc n) (10 ^ 15))) [
      | inl small ↦
          inl (
            parse_short (suc n) (show-Leads (suc n) (omega arith)) (ltb→lt (suc n) (10 ^ 15) small))
      | inr large ↦ parse_long (suc n) (show-Leads (suc n) (omega arith)) (ground arith)
    ]
