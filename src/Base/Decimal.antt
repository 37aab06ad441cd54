-- ===== src/Base/Decimal.antt =====
-- Decimal numbers in strings: a number in a template literal, and `parseInt`. Numbers are exact
-- here; a JavaScript number is exact below 2^53.
use Prim.Native.Nat.{ℕ, zero, suc, ◌+◌, ◌-◌, ◌*◌, ◌/◌, ◌%◌, ◌≤◌, ◌<◌}
use mathlib.Core.Bool.{Bool, true, false, ◌&&◌, ◌||◌}
use mathlib.Core.List.{[], ◌∷◌, ◌++◌}
use mathlib.Core.Option.{Option, none, some}
use mathlib.Core.Path.{◌≡◌, refl, ap, ◌∙◌}
use mathlib.Core.Logic.{inl, inr}
use native.Mathlib.Omega.{arith}
use orchestronic_be.Base.Tests.{Bool-cases, ◌==◌, leb, ltb, if◌then◌else◌}
use orchestronic_be.Base.Lists.{All, All-append}
use orchestronic_be.Base.Text.{Text, trim_start}

abbrev pub is_digit : ℕ → Bool
is_digit c = leb b'0' c && leb c b'9'

abbrev pub all_digits : Text → Bool
all_digits [] = true
all_digits (c ∷ s) = is_digit c && all_digits s

-- `${n}`, with fuel for the digits.
unfoldable pub to_digits : ℕ → ℕ → Text
to_digits zero n = []
to_digits (suc f) n =
    let shorter = to_digits f (n / 10) ++ (b'0' + n % 10) ∷ [] in
    if ltb n 10 then (b'0' + n) ∷ [] else shorter

unfoldable pub print : ℕ → Text
unfolding to_digits
print n = to_digits (suc n) n

-- The digits at the front, in a radix of ten or sixteen, after the number read so far.
digit_value : Bool → ℕ → Option ℕ
digit_value hex c =
    if is_digit c
    then some (c - b'0')
    else if hex && leb b'a' c && leb c b'f'
    then some (c - 87)
    else if hex && leb b'A' c && leb c b'F'
    then some (c - 55)
    else none

digits_from : Bool → ℕ → Text → ℕ
digits_from hex n [] = n
digits_from hex n (c ∷ s) = elim (digit_value hex c) [
  | none ↦ n
  | some d ↦ digits_from hex ((if hex then 16 else 10) * n + d) s
]

digits : Bool → Text → Option ℕ
digits hex [] = none
digits hex (c ∷ s) = elim (digit_value hex c) [ none ↦ none | some d ↦ some (digits_from hex d s) ]

after_prefix : Text → Option ℕ
after_prefix (z ∷ x ∷ s) =
    if z == b'0' && (x == b'x' || x == b'X') then digits true s else digits false (z ∷ x ∷ s)
after_prefix s = digits false s

after_sign : Text → Option ℕ
after_sign [] = none
after_sign (c ∷ s) = if c == b'+' then after_prefix s else after_prefix (c ∷ s)

-- `parseInt(s)` of a string with no minus sign; `none` is NaN.
unfoldable pub parse_int : Text → Option ℕ
unfolding trim_start after_sign after_prefix digits digits_from digit_value
parse_int s = after_sign (trim_start s)

skip_plus : Text → Text
skip_plus [] = []
skip_plus (c ∷ s) = if c == b'+' then s else c ∷ s

-- `parseInt(s, 10)` of a string with no minus sign, which reads no prefix 0x.
unfoldable pub parse_int_ten : Text → Option ℕ
unfolding trim_start skip_plus digits digits_from digit_value
parse_int_ten s = digits false (skip_plus (trim_start s))

abbrev pub IsDigit : ℕ → Type 0
IsDigit c = (b'0' ≤ c) × (c ≤ b'9')

pub IsDigit-all_digits : (s : Text) → All IsDigit s → all_digits s ≡ true
IsDigit-all_digits [] h = refl
IsDigit-all_digits (c ∷ s) h = ground (arith, IsDigit-all_digits s h.1)

pub all_digits-IsDigit : (s : Text) → all_digits s ≡ true → All IsDigit s
all_digits-IsDigit [] e = tt
all_digits-IsDigit (c ∷ s) e = elim (Bool-cases (is_digit c)) [
  | inl q ↦ ((ground arith, ground arith), all_digits-IsDigit s (ground arith))
  | inr q ↦ absurd (ground arith)
]

to_digits-IsDigit : (f n : ℕ) → All IsDigit (to_digits f n)
unfolding to_digits
to_digits-IsDigit zero n = tt
to_digits-IsDigit (suc f) n = elim (Bool-cases (ltb n 10)) [
  | inl small ↦ rw small (ground arith)
  | inr large ↦
      rw large
        (All-append IsDigit (to_digits f (n / 10)) _ (to_digits-IsDigit f (n / 10)) (omega arith))
]

pub print-IsDigit : (n : ℕ) → All IsDigit (print n)
unfolding print
print-IsDigit n = to_digits-IsDigit (suc n) n

digits_from-append :
    (n d : ℕ) (s : Text)
    → All IsDigit s
    → d < 10
    → digits_from false n (s ++ (b'0' + d) ∷ []) ≡ 10 * digits_from false n s + d
unfolding digits_from digit_value
digits_from-append n d [] h k = ground arith
digits_from-append n d (c ∷ s) h k =
    ground (arith, digits_from-append (10 * n + (c - b'0')) d s h.1 k)

digits_from-to_digits : (f n : ℕ) → n < f → digits_from false 0 (to_digits f n) ≡ n
unfolding to_digits digits_from digit_value
digits_from-to_digits zero n h = absurd (omega arith)
digits_from-to_digits (suc f) n h = elim (Bool-cases (ltb n 10)) [
  | inl small ↦ rw small (ground arith)
  | inr large ↦ rw large (
      rw
        (digits_from-append 0 (n % 10) (to_digits f (n / 10)) (to_digits-IsDigit f (n / 10))
          (omega arith))
        (rw (digits_from-to_digits f (n / 10) (ground arith)) (omega arith)))
]

abbrev pub IsNonempty : Text → Type 0
IsNonempty [] = ⊥
IsNonempty (_ ∷ _) = Unit

append-IsNonempty : (s : Text) (c : ℕ) → IsNonempty (s ++ c ∷ [])
append-IsNonempty [] c = tt
append-IsNonempty (x ∷ s) c = tt

pub print-IsNonempty : (n : ℕ) → IsNonempty (print n)
unfolding print
print-IsNonempty n = elim (Bool-cases (ltb n 10)) [
  | inl small ↦ rw small tt
  | inr large ↦ rw large (append-IsNonempty (to_digits n (n / 10)) _)
]

digits-eq-digits_from :
    (s : Text) → IsNonempty s → All IsDigit s → digits false s ≡ some (digits_from false 0 s)
unfolding digits digits_from digit_value
digits-eq-digits_from [] e h = elim e [ ]
digits-eq-digits_from (c ∷ s) e h = ground arith

parse_int-eq-digits : (s : Text) → IsNonempty s → All IsDigit s → parse_int s ≡ digits false s
unfolding parse_int
parse_int-eq-digits [] e h = elim e [ ]
parse_int-eq-digits (c ∷ []) e h = ground arith
parse_int-eq-digits (c ∷ d ∷ s) e h = ground arith

-- `parseInt` gives back the number that a template literal printed.
pub parse_int-print : (n : ℕ) → parse_int (print n) ≡ some n
parse_int-print n =
    parse_int-eq-digits (print n) (print-IsNonempty n) (print-IsDigit n)
    ∙ digits-eq-digits_from (print n) (print-IsNonempty n) (print-IsDigit n)
    ∙ ap some (unfold print in digits_from-to_digits (suc n) n (omega arith))
