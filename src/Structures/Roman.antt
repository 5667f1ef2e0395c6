-- ===== src/Structures/Roman.antt =====
-- `parseRomanNumeral` of src/morceus/numerals/roman_numerals.ts. `String.toUpperCase` is a parameter.
pub mod Standard
use morcus_net.Prelude.{
  ℕ, ◌+◌, ◌-◌, ◌<◌, max, compare, Ordering, ltb, ◌==◌, if◌then◌else◌, Bool, true, false, Option,
  none, some, [], ◌∷◌, Text,
}

-- `valueOf`.
unfoldable pub value_of : ℕ → Option ℕ
value_of c =
    if c == b'M'
    then some 1000
    else if c == b'D'
    then some 500
    else if c == b'C'
    then some 100
    else if c == b'L'
    then some 50
    else if c == b'X'
    then some 10
    else if c == b'V'
    then some 5
    else if c == b'I'
    then some 1
    else none

-- `n > (lastAdded ?? Infinity)`.
abbrev pub exceeds : ℕ → Option ℕ → Bool
exceeds n none = false
exceeds n (some last) = ltb last n

-- The loop, over the characters from position `i` on, and the step behind it.
unfoldable pub parse_from : Text → Option ℕ → ℕ → Option ℕ
unfolding value_of
parse_from [] last_added total = some total
parse_from (c ∷ []) last_added total = elim (value_of c) [
  | none ↦ none
  | some n ↦ if exceeds n last_added then none else some (total + n)
]
parse_from (c ∷ d ∷ input) last_added total = elim (value_of c) [
  | none ↦ none
  | some n ↦ elim (value_of d) [
    | none ↦ none
    | some m ↦ elim (exceeds (max n m) last_added) [
      | true ↦ none
      | false ↦ elim (compare n m) [
        | Ordering.gt ↦ parse_from (d ∷ input) (some (max n m)) (total + n)
        | Ordering.eq ↦ parse_from input (some (max n m)) (total + (n + m))
        | Ordering.lt ↦ parse_from input (some (max n m)) (total + (m - n))
      ]
    ]
  ]
]

module _ (to_upper_case : Text → Text) where
  -- `parseRomanNumeral`.
  unfoldable pub parse_roman_numeral : Text → Option ℕ
  unfolding parse_from
  parse_roman_numeral raw_input = parse_from (to_upper_case raw_input) none 0
