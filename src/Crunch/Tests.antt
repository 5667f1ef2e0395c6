-- ===== src/Crunch/Tests.antt =====
-- Runs of the cruncher on small tables.
use morcus_net.Prelude.{
  false, Bool, collect, ◌+◌, ◌≡◌, ◌↔◌, inl, inr, refl, sym, ap, subst, leb, if◌then◌else◌, Option,
  none, some, List, [], ◌∷◌, map, Bool-cases, true, ◌&&◌, Text, text_eq, codes, ok, Memᴰ,
}
use mathlib.Core.List.Memᴰ.{head, tail, eq_of_singleton}
use morcus_net.Inflection.Types.{
  single, multiple, WordInflectionData, no_data, nominative, ablative, dative, future, first,
}
use morcus_net.Inflection.Tags.{InflectionContext}
use morcus_net.Crunch.Types.{
  wd_code, Stem, InflectionEnding, regular, irregular, StemMapValue, CruncherTables,
  CruncherOptions, CrunchResult,
}
use morcus_net.Crunch.Exact.{ends_with, crunch_exact_match, places_from, is_possible, look_up}
use morcus_net.Crunch.Exact.Parses.{IsConsistent, HasFitCode, HasTables, Parses}
use morcus_net.Crunch.Exact.Match.{crunch_exact_match-Parses}
use morcus_net.Crunch.Spellings.{
  find_ambiguous_i_and_u, is_ambiguous, vowel_at, is_vowel, is_at, alternates_with_i_or_u,
}
use morcus_net.Crunch.Spellings.Alternates.{Respells, alternates_with_i_or_u-Respells}
use morcus_net.Crunch.Clusters.{merge_subsets, consolidate_result_cluster}
use morcus_net.Crunch.Clusters.Rounds.{AreMerged, Covers}
use morcus_net.Crunch.Clusters.Categories.{consolidate_result_cluster-Covers}
use morcus_net.Crunch.Lengths.{have_compatible_length, marked, is_long, is_short, get_length}
use morcus_net.Crunch.Lengths.Letters.{letters_of}
use morcus_net.Crunch.Lengths.Readings.{IsReading, have_compatible_length-IsReading}
use morcus_net.Crunch.Decompose.{
  split_prodelision, split_extras, split_variants, enclitic_split, normalized, decompose_token,
}
use morcus_net.Crunch.Decompose.Joined.{flat, decompose_token-flat}
use morcus_net.Crunch.Words.Analyses.{Holds, convert-Holds}
use morcus_net.Crunch.Words.{
  LatinWordAnalysis, convert, Strings, combine_length_combiners, clean_word, crunch_word,
}
use morcus_net.Crunch.Words.Plain.{clean_word_plain}
use morcus_net.Crunch.Words.Keys.{HasPlainTexts, HasNoDollar, text_of}
use morcus_net.Crunch.Words.Consolidated.{Finds}
use morcus_net.Crunch.Words.Found.{crunch_word-Parses}

abbrev plain_context : WordInflectionData → InflectionContext
plain_context d = record { grammatical_data = d; tags = none; internal_tags = none }

abbrev am : Stem
am = record {
  context = plain_context no_data;
  code = none;
  stem = codes "am";
  inflection = codes "o1";
}

abbrev o_ending : InflectionEnding
o_ending = record {
  context = plain_context (record no_data { person = single first });
  ending = codes "o";
}

abbrev am_value : StemMapValue
am_value = record { candidate = regular am; lemma = codes "amo"; is_verb = true }

abbrev et_value : StemMapValue
et_value = record {
  candidate =
      irregular
        (record { context = plain_context no_data; code = some wd_code; form = codes "et" });
  lemma = codes "et";
  is_verb = false;
}

-- A stem with one ending, and a form that is not declined.
abbrev small_tables : CruncherTables
small_tables = record {
  ends_map = λ end. if text_eq end (codes "o") then some (codes "o1" ∷ []) else none;
  stem_map = λ start.
      if text_eq start (codes "am")
      then some (am_value ∷ [])
      else if text_eq start (codes "et")
      then some (et_value ∷ [])
      else none;
  inflection_lookup =
      λ table. some (λ end. if text_eq end (codes "o") then some (o_ending ∷ []) else none);
}

one_value {ℓ} :
    {A : Type ℓ} {v w : A} {vs : List A}
    → ◌≡◌ {A = Option (List A)} (some (w ∷ [])) (some vs)
    → Memᴰ v vs
    → v ≡ w
one_value {v = v} {w} {vs} e m =
    let vs_is : vs ≡ w ∷ [] = sym (ap (λ o. elim o [ none ↦ vs | some l ↦ l ]) e) in
    eq_of_singleton (subst (λ l. Memᴰ v l) vs_is m)

am_tables : HasTables small_tables (regular am)
unfolding is_possible look_up
am_tables end possible = elim (Bool-cases (text_eq end (codes "o"))) [
  | inl o ↦ (o_ending ∷ [], rw o refl)
  | inr other ↦ let impossible = rw other at possible in cc
]

small_tables-IsConsistent : IsConsistent small_tables
small_tables-IsConsistent start candidates v found m =
    elim (Bool-cases (text_eq start (codes "am"))) [
      | inl is_am ↦
          let same : v ≡ am_value = one_value (rw is_am at found) m in
          subst (λ w. HasFitCode w.candidate × HasTables small_tables w.candidate) (sym same)
            (refl, am_tables)
      | inr not_am ↦ elim (Bool-cases (text_eq start (codes "et"))) [
        | inl is_et ↦
            let same : v ≡ et_value = one_value (rw (not_am, is_et) at found) m in
            subst (λ w. HasFitCode w.candidate × HasTables small_tables w.candidate) (sym same)
              (refl, tt)
        | inr not_et ↦ let impossible = rw (not_am, not_et) at found in cc
      ]
    ]

crunch_exact_match-Parses_example :
    (rs : List CrunchResult) × (crunch_exact_match (codes "amone") small_tables true ≡ ok rs)
    × ((r : CrunchResult) → Memᴰ r rs ↔ Parses small_tables true (codes "amone") r)
crunch_exact_match-Parses_example =
    crunch_exact_match-Parses (codes "amone") small_tables true small_tables-IsConsistent

abbrev in_the_future : InflectionContext
in_the_future =
    plain_context
      (record no_data { tense = single future; case = multiple (nominative ∷ dative ∷ []) })

abbrev never_future : InflectionContext
never_future = record (plain_context (record no_data { case = single dative })) {
  internal_tags = some ("no_fut" ∷ []);
}

abbrev lower : Text → Text
lower s = map (λ c. if leb b'A' c && leb c b'Z' then c + 32 else c) s

alternates_with_i_or_u-Respells_example :
    (ws : List Text) × (alternates_with_i_or_u lower (codes "Iuuat") true true ≡ some ws)
    × ((w : Text)
        → Memᴰ w ws
          ↔ Respells (codes "Iuuat") (find_ambiguous_i_and_u lower (codes "Iuuat") true true) w)
alternates_with_i_or_u-Respells_example =
    alternates_with_i_or_u-Respells lower (codes "Iuuat") true true refl

one_place : find_ambiguous_i_and_u lower (codes "iaqua") true true ≡ 0 ∷ []
unfolding find_ambiguous_i_and_u places_from is_ambiguous vowel_at is_vowel is_at
one_place = refl

abbrev dative_result : CrunchResult
dative_result = record {
  context = plain_context (record no_data { case = single dative });
  lemma = codes "amor";
  form = codes "amori";
  stem = none;
  end = none;
  relaxed_case = false;
  enclitic = none;
  is_verb = false;
}

abbrev ablative_result : CrunchResult
ablative_result = record dative_result {
  context = plain_context (record no_data { case = single ablative });
}

abbrev two_results : List CrunchResult
two_results = dative_result ∷ ablative_result ∷ []

consolidate_result_cluster-Covers_example :
    (merged : List CrunchResult) × (merge_subsets 3 two_results ≡ some merged)
    × AreMerged two_results merged
    × ((rs : List CrunchResult) × (consolidate_result_cluster two_results ≡ some rs)
        × ((r : CrunchResult) → Memᴰ r two_results → Covers rs r))
consolidate_result_cluster-Covers_example = consolidate_result_cluster-Covers two_results

abbrev small_strings : Strings
small_strings = record {
  to_lower_case = lower;
  to_upper_case = λ s. s;
  normalize = λ s. s;
  clean_tag = codes;
  sort = λ ts. ts;
}

abbrev all_options : CruncherOptions
all_options = record {
  relax_case = true;
  relax_u_and_v = some true;
  relax_i_and_j = some true;
  handle_enclitics = true;
  skip_consolidation = false;
}

small_tables-HasPlainTexts : HasPlainTexts small_tables
unfolding look_up
small_tables-HasPlainTexts = record {
  of_values = λ start candidates v found m. elim (Bool-cases (text_eq start (codes "am"))) [
    | inl is_am ↦
        let same : v ≡ am_value = one_value (rw is_am at found) m in
        subst (λ w. HasNoDollar w.lemma × HasNoDollar (text_of w.candidate)) (sym same) (refl, refl)
    | inr not_am ↦ elim (Bool-cases (text_eq start (codes "et"))) [
      | inl is_et ↦
          let same : v ≡ et_value = one_value (rw (not_am, is_et) at found) m in
          subst (λ w. HasNoDollar w.lemma × HasNoDollar (text_of w.candidate)) (sym same)
            (refl, refl)
      | inr not_et ↦ let impossible = rw (not_am, not_et) at found in cc
    ]
  ];
  of_endings = λ inflection end ends e found m. elim (Bool-cases (text_eq end (codes "o"))) [
    | inl is_o ↦
        let same : e ≡ o_ending = one_value (rw is_o at found) m in
        subst (λ w. HasNoDollar w.ending) (sym same) refl
    | inr other ↦ let impossible = rw other at found in cc
  ];
}

crunch_word-Parses_example :
    (rs : List CrunchResult) × (crunch_word small_strings small_tables all_options (codes "amO")
      ≡ ok rs)
    × ((r : CrunchResult) → Parses small_tables true (codes "amo") r → Finds small_strings rs r)
unfolding clean_word combine_length_combiners
crunch_word-Parses_example =
    crunch_word-Parses small_strings small_tables all_options (codes "amO") b'a' (codes "mO")
      small_tables-IsConsistent small_tables-HasPlainTexts refl refl

-- An empty input is crunched as the text of `undefined`.
empty_input : clean_word small_strings [] ≡ codes "undefined"
unfolding clean_word combine_length_combiners
empty_input = refl

have_compatible_length-IsReading_example :
    (have_compatible_length (codes "a_mo") (codes "amo^") ≡ true) ↔ (
      (lengths : List Bool) × IsReading (letters_of (codes "a_mo")) lengths
      × IsReading (letters_of (codes "amo^")) lengths)
have_compatible_length-IsReading_example =
    have_compatible_length-IsReading (codes "a_mo") (codes "amo^")

-- A plain `Y` is in `BREVES`, so that it is not compatible with one that has a macron.
plain_y : have_compatible_length (codes "Y") (codes "Ȳ") ≡ false
unfolding have_compatible_length marked is_long is_short get_length
plain_y = refl

long_and_short : have_compatible_length (codes "a_mo") (codes "a^mo") ≡ false
unfolding have_compatible_length marked is_long is_short get_length
long_and_short = refl

abbrev two_ways : List (List Text)
two_ways = (codes "armaque" ∷ []) ∷ (codes "arma" ∷ codes "que" ∷ []) ∷ []

decompose_token-flat_example :
    (variants : List (List Text)) × (split_prodelision (normalized (codes "armaque "))
      ≡ ok variants)
    × ((d : List Text) → Memᴰ d two_ways → (v : List Text) × Memᴰ v variants × (flat d ≡ flat v))
    × ((v : List Text) → Memᴰ v variants → Memᴰ v two_ways)
unfolding decompose_token split_extras split_prodelision ends_with split_variants enclitic_split
    collect
decompose_token-flat_example = decompose_token-flat (codes "armaque ") two_ways refl

convert-Holds_example :
    (a : LatinWordAnalysis) × Memᴰ a (convert two_results) × Holds a ablative_result
convert-Holds_example = convert-Holds two_results ablative_result (tail (head refl))

clean_word_plain_example : clean_word small_strings (codes "amō") ≡ codes "amō"
clean_word_plain_example = clean_word_plain small_strings b'a' (codes "mō") refl
