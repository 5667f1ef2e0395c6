-- ===== src/Routing/PageData/RoundTrip.antt =====
-- Page data that is written to a URL is read back.
use morcus_net.Prelude.{
  ℕ, ◌<◌, ◌^◌, ◌==◌, ◌≡◌, refl, arith, some, [], ◌∷◌, ◌++◌, true, false, Text, codes, text_eq,
  has_char, is_digit, from_decimal, to_decimal, all-to_decimal, to_decimal-LeadsWithDigit,
  LeadsWithDigit, from_decimal-to_decimal, has_char-digits, split-join,
}
use morcus_net.Routing.PageData.{
  Number, positive, negative, safe_parse_int, Page, undefined, null, page, parse_page_data,
  serialize_page_data,
}

-- A natural number that a double holds exactly.
abbrev pub IsSafe : Number → Type 0
IsSafe (positive n) = n < 2 ^ 53
IsSafe _ = ⊥

-- The numbers of a page are naturals that a double holds exactly.
abbrev pub IsSafePage : Page → Type 0
IsSafePage (page d) = IsSafe d.result_id × IsSafe d.result_index × IsSafe d.candidate_index
IsSafePage _ = Unit

safe_parse_int-digits :
    (n : ℕ) (s : Text)
    → LeadsWithDigit n s
    → from_decimal s ≡ some n
    → safe_parse_int (some s) ≡ some (positive n)
unfolding safe_parse_int
safe_parse_int-digits n [] lead e = elim lead [ ]
safe_parse_int-digits n (c ∷ s) lead e =
    let digit : is_digit c ≡ true = lead.0 in
    let plain : (c == b'-') ≡ false = ground arith in rw (plain, e)

read_number : (n : ℕ) → safe_parse_int (some (to_decimal n)) ≡ some (positive n)
read_number n =
    safe_parse_int-digits n (to_decimal n) (to_decimal-LeadsWithDigit n) (from_decimal-to_decimal n)

starts :
    (n : ℕ) (s t : Text)
    → LeadsWithDigit n s
    → (text_eq (s ++ t) [] ≡ false) × (text_eq (s ++ t) (codes "null") ≡ false)
starts n [] t lead = elim lead [ ]
starts n (c ∷ s) t lead = let digit : is_digit c ≡ true = lead.0 in (refl, ground arith)

no_minus : (n : ℕ) → has_char b'-' (to_decimal n) ≡ false
no_minus n = has_char-digits b'-' (to_decimal n) refl (all-to_decimal n)

three_numbers :
    (a b c : ℕ)
    → parse_page_data (
        some (
          serialize_page_data (
            page (record {
              result_id = positive a;
              result_index = positive b;
              candidate_index = positive c;
            }))))
      ≡ page (record {
        result_id = positive a;
        result_index = positive b;
        candidate_index = positive c;
      })
unfolding parse_page_data serialize_page_data
three_numbers a b c =
    let (some_text, other) =
      starts a (to_decimal a) (b'-' ∷ (to_decimal b ++ (b'-' ∷ to_decimal c)))
        (to_decimal-LeadsWithDigit a) in
    rw (some_text, other)
      (rw
        (split-join b'-' (to_decimal a) (to_decimal b ∷ to_decimal c ∷ [])
          (no_minus a, (no_minus b, (no_minus c, tt))))
        (rw (read_number a, read_number b, read_number c)))

page_numbers :
    (a b c : Number)
    → IsSafe a × IsSafe b × IsSafe c
    → parse_page_data (
        some (
          serialize_page_data
            (page (record { result_id = a; result_index = b; candidate_index = c }))))
      ≡ page (record { result_id = a; result_index = b; candidate_index = c })
page_numbers (positive a) (positive b) (positive c) safe = three_numbers a b c
page_numbers (negative a) b c safe = elim safe.0 [ ]
page_numbers (positive a) (negative b) c safe = elim safe.1 [ ]
page_numbers (positive a) (positive b) (negative c) safe = elim safe.2 [ ]

-- Page data, or its absence, is read back from what is written of it: `undefined`, `null`, and three
-- naturals that a double holds exactly.
pub parse_page_data-serialize :
    (p : Page) → IsSafePage p → parse_page_data (some (serialize_page_data p)) ≡ p
parse_page_data-serialize undefined safe = unfold parse_page_data serialize_page_data in refl
parse_page_data-serialize null safe = unfold parse_page_data serialize_page_data in refl
parse_page_data-serialize (page d) safe =
    page_numbers d.result_id d.result_index d.candidate_index safe
