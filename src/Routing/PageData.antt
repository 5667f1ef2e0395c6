-- ===== src/Routing/PageData.antt =====
-- `parsePageData` and `serializePageData` of src/web/client/pages/corpus/corpus_router.ts, and
-- `safeParseInt` of src/common/misc_utils.ts. Numbers are exact; a numeral with a minus sign never
-- reaches `safeParseInt` here, since the text is split at those signs.
pub mod RoundTrip
use morcus_net.Prelude.{
  ℕ, Option, none, some, List, [], ◌∷◌, Bool, true, false, ◌==◌, if◌then◌else◌, Text, codes,
  text_eq, is_digit, from_decimal, to_decimal, split, join,
}

-- An integer with its sign.
pub data Number : Type 0 where
  positive negative : ℕ → Number

abbrev as_number : (ℕ → Number) → Option ℕ → Option Number
as_number sign none = none
as_number sign (some n) = some (sign n)

-- `safeParseInt`: an optional minus sign and at least one digit.
unfoldable pub safe_parse_int : Option Text → Option Number
safe_parse_int none = none
safe_parse_int (some []) = none
safe_parse_int (some (c ∷ s)) =
    if c == b'-'
    then as_number negative (from_decimal s)
    else as_number positive (from_decimal (c ∷ s))

-- `n.toString()`; -0 is printed as 0.
unfoldable pub print_number : Number → Text
print_number (positive n) = to_decimal n
print_number (negative n) = if n == 0 then to_decimal 0 else b'-' ∷ to_decimal n

-- `PageData`.
pub record PageData : Type 0 where
  pub result_id : Number
  pub result_index : Number
  pub candidate_index : Number

-- `PageData | null | undefined`.
pub data Page : Type 0 where
  undefined null : Page
  page : PageData → Page

pub page_of : Option Number → Option Number → Option Number → Page
page_of (some a) (some b) (some c) =
    page (record { result_id = a; result_index = b; candidate_index = c })
page_of _ _ _ = undefined

abbrev parse_parts : List Text → Page
parse_parts (a ∷ b ∷ c ∷ []) =
    page_of (safe_parse_int (some a)) (safe_parse_int (some b)) (safe_parse_int (some c))
parse_parts _ = undefined

-- `parsePageData`.
unfoldable pub parse_page_data : Option Text → Page
unfolding page_of safe_parse_int
parse_page_data none = undefined
parse_page_data (some s) =
    if text_eq s []
    then undefined
    else if text_eq s (codes "null")
    then null
    else parse_parts (split b'-' s)

-- `serializePageData`.
unfoldable pub serialize_page_data : Page → Text
unfolding print_number
serialize_page_data undefined = []
serialize_page_data null = codes "null"
serialize_page_data (page d) =
    join b'-'
      (print_number d.result_id ∷ print_number d.result_index ∷ print_number d.candidate_index ∷ [])
