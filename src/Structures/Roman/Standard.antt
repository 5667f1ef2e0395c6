-- ===== src/Structures/Roman/Standard.antt =====
-- The standard numerals, and what they are read as.
use morcus_net.Prelude.{
  ℕ, zero, suc, ◌+◌, ◌-◌, ◌/◌, ◌%◌, ◌<◌, ltb, ◌==◌, ==_iff, ◌≡◌, refl, arith, if◌then◌else◌, Bool,
  true, false, ◌&&◌, Option, none, some, [], ◌∷◌, ◌++◌, replicate, Text,
}
use morcus_net.Structures.Roman.{parse_from, parse_roman_numeral}

-- A decimal digit in the letters for one, five and ten.
abbrev digit : ℕ → ℕ → ℕ → ℕ → Text
digit one five ten d =
    if ltb d 4
    then replicate d one
    else if d == 4
    then one ∷ five ∷ []
    else if ltb d 9
    then five ∷ replicate (d - 5) one
    else one ∷ ten ∷ []

-- The standard numeral of a number below 4000.
unfoldable pub to_roman : ℕ → Text
to_roman n =
    replicate (n / 1000) b'M'
    ++ (digit b'C' b'D' b'M' (n / 100 % 10)
        ++ (digit b'X' b'L' b'C' (n / 10 % 10) ++ digit b'I' b'V' b'X' (n % 10)))

is_some_of : ℕ → Option ℕ → Bool
is_some_of n none = false
is_some_of n (some m) = m == n

is_some_of-eq : (n : ℕ) (o : Option ℕ) → is_some_of n o ≡ true → o ≡ some n
unfolding is_some_of
is_some_of-eq n none h = cc
is_some_of-eq n (some m) h = ground (arith, ==_iff m n)

-- Whether the numerals of the numbers from `n` on, `count` of them, are read as these numbers.
reads_back : ℕ → ℕ → Bool
reads_back zero n = true
reads_back (suc count) n = is_some_of n (parse_from (to_roman n) none 0) && reads_back count (n + 1)

all_read_back : reads_back 4000 0 ≡ true
unfolding reads_back parse_from to_roman is_some_of
all_read_back = refl

reads_back-at :
    (count n k : ℕ)
    → reads_back count n ≡ true
    → k < count
    → parse_from (to_roman (n + k)) none 0 ≡ some (n + k)
unfolding reads_back
reads_back-at zero n k h small = absurd (omega arith)
reads_back-at (suc count) n zero h small =
    let reads : is_some_of n (parse_from (to_roman n) none 0) ≡ true = ground arith in
    let here : n + 0 ≡ n = omega arith in
    rw here (is_some_of-eq n (parse_from (to_roman n) none 0) reads)
reads_back-at (suc count) n (suc k) h small =
    let later : reads_back count (n + 1) ≡ true = ground arith in
    let there : n + suc k ≡ n + 1 + k = omega arith in
    rw there (reads_back-at count (n + 1) k later (omega arith))

-- An input whose upper case form is the standard numeral of a number below 4000 is read as that
-- number, the empty text as 0.
pub parse_roman_numeral-standard :
    (to_upper_case : Text → Text) (raw_input : Text) (n : ℕ)
    → n < 4000
    → to_upper_case raw_input ≡ to_roman n
    → parse_roman_numeral to_upper_case raw_input ≡ some n
unfolding parse_roman_numeral
parse_roman_numeral-standard to_upper_case raw_input n small upper =
    rw upper
      (let e : 0 + n ≡ n = omega arith in rw e at (reads_back-at 4000 0 n all_read_back small))
