-- ===== src/Routing/Tests.antt =====
-- Runs of the path templates and of the page data on small inputs.
use morcus_net.Prelude.{
  text_eq, ◌≡◌, refl, arith, inl, inr, ap, Bool-cases, none, some, [], ◌∷◌, Text, codes,
}
use morcus_net.Routing.Records.{Record, get, delete, has_value}
use morcus_net.Routing.Paths.{is_valid, parse_params, read_chunk, to_url_path, fill_chunks}
use morcus_net.Routing.Paths.RoundTrip.{ValuesFit, parse_params-to_url_path}
use morcus_net.Routing.PageData.{
  page, positive, undefined, null, parse_page_data, serialize_page_data,
}
use morcus_net.Routing.PageData.RoundTrip.{parse_page_data-serialize}

abbrev template : Text
template = codes "/work/:id"

abbrev one_work : Record
one_work = (codes "id", some (codes "dbg")) ∷ []

one_work-ValuesFit : ValuesFit one_work
unfolding get
one_work-ValuesFit q value e = elim (Bool-cases (text_eq (codes "id") q)) [
  | inl here ↦
      let value_is : codes "dbg" ≡ value =
        ap (λ o. elim o [ none ↦ [] | some v ↦ v ]) (rw here at e) in
      rw (← value_is) refl
  | inr other ↦ let impossible = rw other at e in cc
]

parse_params-to_url_path_example :
    (parsed : Record) × (parse_params template (codes "/work/dbg") ≡ some parsed)
    × ((q : Text) → get q parsed ≡ get q one_work)
unfolding is_valid to_url_path fill_chunks read_chunk get delete has_value
parse_params-to_url_path_example =
    parse_params-to_url_path template (codes "/work/dbg") one_work refl one_work-ValuesFit refl

other_length : parse_params template (codes "/work") ≡ none
unfolding parse_params
other_length = refl

missing_value : to_url_path template [] ≡ none
unfolding to_url_path fill_chunks read_chunk get
missing_value = refl

parse_page_data-serialize_example :
    parse_page_data (
      some (
        serialize_page_data (
          page (record {
            result_id = positive 3;
            result_index = positive 0;
            candidate_index = positive 17;
          }))))
    ≡ page (record {
      result_id = positive 3;
      result_index = positive 0;
      candidate_index = positive 17;
    })
parse_page_data-serialize_example =
    parse_page_data-serialize
      (page (record {
        result_id = positive 3;
        result_index = positive 0;
        candidate_index = positive 17;
      }))
      (omega arith, omega arith, omega arith)

-- A minus sign is taken for the sign between two numbers.
negative_id : parse_page_data (some (codes "-3-0-17")) ≡ undefined
unfolding parse_page_data
negative_id = refl

null_page : parse_page_data (some (codes "null")) ≡ null
unfolding parse_page_data
null_page = refl
