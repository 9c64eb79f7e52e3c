-- ===== src/Utils/Values/Tests.antt =====
-- Runs of `parseValue` of src/utils.ts.
use ccu_mcp.Prelude.{
  ℕ, ◌^◌, ◌*◌, ◌/◌, ◌≡◌, ◌≤◌, ◌<◌, refl, ◌⊎◌, Bool, true, false, Option, none, some, [], codes, ltb,
  lt→ltb, ◌==◌, ==_iff, if◌then◌else◌,
}
use ccu_mcp.Prelude.Decimal.{show, read_digits, read_from, read_digits-show}
use ccu_mcp.Utils.{Text}
use ccu_mcp.Utils.Values.{
  Json, null, flag, amount, text, Numbers, parse_value, is_decimal, significant,
}
use ccu_mcp.Utils.Values.Exact.{parse_value-show}

-- Numbers that lose their last bit from 2 ^ 53 on.
abbrev rounded : ℕ → ℕ
rounded n = if ltb n (2 ^ 53) then n else 2 * (n / 2)

abbrev read_rounded : Option ℕ → ℕ
read_rounded none = 0
read_rounded (some n) = rounded n

abbrev is_worth : Option ℕ → ℕ → Bool
is_worth none x = false
is_worth (some n) x = n == x

abbrev doubles : Numbers ℕ
doubles = record {
  to_text = show;
  read = λ s. read_rounded (read_digits s);
  same_integer = λ s x. is_worth (read_digits s) x;
}

abbrev parsed : Text → Json ℕ
parsed s = parse_value doubles (text s)

abbrev sixteen_ones : Text
sixteen_ones = codes "1111111111111111"

-- A long number that reads exactly stays a number.
long_and_exact : parsed sixteen_ones ≡ amount 1111111111111111
unfolding parse_value is_decimal significant read_digits read_from
long_and_exact = refl

-- One that does not stays a text.
long_and_lossy : parsed (codes "9007199254740993") ≡ text (codes "9007199254740993")
unfolding parse_value is_decimal significant read_digits read_from
long_and_lossy = refl

leading_zero : parsed (codes "0123") ≡ text (codes "0123")
unfolding parse_value is_decimal significant
leading_zero = refl

empty_text : parsed [] ≡ null
unfolding parse_value
empty_text = refl

truth_text : parsed (codes "true") ≡ flag true
unfolding parse_value
truth_text = refl

rounded_small : (n : ℕ) → n < 2 ^ 53 → some (doubles.read (show n)) ≡ some n
rounded_small n h = rw (read_digits-show n, lt→ltb n (2 ^ 53) h) refl

worth : (n x : ℕ) → doubles.same_integer (show n) x ≡ true → some x ≡ some n
worth n x = rw (read_digits-show n) (λ h. rw ((==_iff n x).0 h) refl)

parse_value-show_example :
    ((x : ℕ) × (parse_value doubles (text (show 42)) ≡ amount x) × (some x ≡ some 42))
    ⊎ ((parse_value doubles (text (show 42)) ≡ text (show 42)) × (10 ^ 15 ≤ 42))
parse_value-show_example = parse_value-show doubles some rounded_small worth 42
