-- ===== src/Prelude/Decimals.antt =====
-- Decimal numerals: what a natural number is printed as, and what a text of digits is read as.
use Prim.Native.Nat.{ℕ, zero, suc, ◌+◌, ◌-◌, ◌*◌, ◌/◌, ◌%◌, ◌<◌}
use mathlib.Core.Path.{◌≡◌, refl, sym, ◌∙◌}
use mathlib.Core.Bool.{Bool, true, false, ◌&&◌}
use mathlib.Core.List.{[], ◌∷◌}
use mathlib.Core.Option.{Option, none, some}
use mathlib.Core.Logic.{inl, inr}
use native.Mathlib.Omega.{arith}
use morcus_net.Prelude.Tests.{leb, ◌==◌, if◌then◌else◌, Bool-cases}
use morcus_net.Prelude.Lists.{all}
use morcus_net.Prelude.Texts.{Text, has_char}

abbrev pub is_digit : ℕ → Bool
is_digit c = leb b'0' c && leb c b'9'

-- The digits of `n` in front of `s`.
digits_before : ℕ → ℕ → Text → Text
digits_before zero n s = s
digits_before (suc fuel) n s =
    let longer = digits_before fuel (n / 10) ((n % 10 + b'0') ∷ s) in
    if n / 10 == 0 then (n % 10 + b'0') ∷ s else longer

-- `n.toString()`, for a number that is exact.
unfoldable pub to_decimal : ℕ → Text
unfolding digits_before
to_decimal n = digits_before (suc n) n []

-- The number of a text of digits behind those of `n`; `none` where another character stands.
pub value_from : ℕ → Text → Option ℕ
value_from n [] = some n
value_from n (c ∷ s) =
    let rest = value_from (n * 10 + (c - b'0')) s in if is_digit c then rest else none

-- The number of a text of digits, at least one.
unfoldable pub from_decimal : Text → Option ℕ
unfolding value_from
from_decimal [] = none
from_decimal (c ∷ s) = value_from 0 (c ∷ s)

value_from-digit :
    (d m : ℕ) (s : Text) → d < 10 → value_from m ((d + b'0') ∷ s) ≡ value_from (m * 10 + d) s
unfolding value_from
value_from-digit d m s h =
    let digit : is_digit (d + b'0') ≡ true = ground arith in
    let back : d + b'0' - b'0' ≡ d = omega arith in rw (digit, back)

value_from-digits_before :
    (fuel n : ℕ) (s : Text) → n < fuel → value_from 0 (digits_before fuel n s) ≡ value_from n s
unfolding digits_before
value_from-digits_before zero n s h = absurd (omega arith)
value_from-digits_before (suc fuel) n s h = elim (Bool-cases (n / 10 == 0)) [
  | inl small ↦
      let here = value_from-digit (n % 10) 0 s (omega arith) in
      let same : 0 * 10 + n % 10 ≡ n = ground arith in rw small (rw same at here)
  | inr large ↦
      let here = value_from-digit (n % 10) (n / 10) s (omega arith) in
      let same : n / 10 * 10 + n % 10 ≡ n = omega arith in
      let more = value_from-digits_before fuel (n / 10) ((n % 10 + b'0') ∷ s) (ground arith) in
      rw large (more ∙ (rw same at here))
]

-- The first character of the digits, which is no 0 unless the number is.
abbrev pub LeadsWithDigit : ℕ → Text → Type 0
LeadsWithDigit n [] = ⊥
LeadsWithDigit n (c ∷ s) = (is_digit c ≡ true) × (0 < n → (c == b'0') ≡ false)

LeadsWithDigit-tens :
    (n : ℕ) (s : Text) → 0 < n / 10 → LeadsWithDigit (n / 10) s → LeadsWithDigit n s
LeadsWithDigit-tens n [] pos h = h
LeadsWithDigit-tens n (c ∷ s) pos (digit, lead) = (digit, λ h. lead pos)

digits_before-LeadsWithDigit :
    (fuel n : ℕ) (s : Text) → n < fuel → LeadsWithDigit n (digits_before fuel n s)
unfolding digits_before
digits_before-LeadsWithDigit zero n s h = absurd (omega arith)
digits_before-LeadsWithDigit (suc fuel) n s h = elim (Bool-cases (n / 10 == 0)) [
  | inl small ↦ rw small (ground arith, λ pos. ground arith)
  | inr large ↦ rw large (
      LeadsWithDigit-tens n _ (ground arith)
        (digits_before-LeadsWithDigit fuel (n / 10) ((n % 10 + b'0') ∷ s) (ground arith)))
]

all-digits_before :
    (fuel n : ℕ) (s : Text) → all is_digit s ≡ true → all is_digit (digits_before fuel n s) ≡ true
unfolding digits_before
all-digits_before zero n s h = h
all-digits_before (suc fuel) n s h =
    let one : all is_digit ((n % 10 + b'0') ∷ s) ≡ true = ground arith in
    ground (arith, all-digits_before fuel (n / 10) ((n % 10 + b'0') ∷ s) one)

pub all-to_decimal : (n : ℕ) → all is_digit (to_decimal n) ≡ true
unfolding to_decimal
all-to_decimal n = all-digits_before (suc n) n [] refl

pub to_decimal-LeadsWithDigit : (n : ℕ) → LeadsWithDigit n (to_decimal n)
unfolding to_decimal
to_decimal-LeadsWithDigit n = digits_before-LeadsWithDigit (suc n) n [] (omega arith)

from_decimal-value_from : (n : ℕ) (s : Text) → LeadsWithDigit n s → from_decimal s ≡ value_from 0 s
unfolding from_decimal
from_decimal-value_from n [] h = elim h [ ]
from_decimal-value_from n (c ∷ s) h = refl

-- A number is read back from its digits.
pub from_decimal-to_decimal : (n : ℕ) → from_decimal (to_decimal n) ≡ some n
unfolding to_decimal
from_decimal-to_decimal n =
    let last : value_from n [] ≡ some n = unfold value_from in refl in
    from_decimal-value_from n _ (digits_before-LeadsWithDigit (suc n) n [] (omega arith))
    ∙ value_from-digits_before (suc n) n [] (omega arith)
    ∙ last

-- A 0 in front changes nothing.
pub from_decimal-zero_first : (n : ℕ) → from_decimal (b'0' ∷ to_decimal n) ≡ some n
from_decimal-zero_first n =
    let same = from_decimal-value_from n (to_decimal n) (to_decimal-LeadsWithDigit n) in
    let moved : from_decimal (b'0' ∷ to_decimal n) ≡ value_from 0 (to_decimal n) =
      unfold from_decimal value_from in refl in
    moved ∙ sym same ∙ from_decimal-to_decimal n

-- A character that is no digit does not stand in the digits of a number.
pub has_char-digits :
    (c : ℕ) (s : Text) → is_digit c ≡ false → all is_digit s ≡ true → has_char c s ≡ false
has_char-digits c [] other h = refl
has_char-digits c (d ∷ s) other h = ground (arith, has_char-digits c s other (ground arith))
