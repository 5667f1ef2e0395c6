-- ===== src/Crunch/Words.antt =====
-- `crunchAndMaybeRelaxCase`, `consolidateCrunchResults`, `crunchWord` and `convert` of
-- src/morceus/crunch.ts, with the two functions on combining characters of
-- src/common/character_utils.ts. The string methods that need tables of Unicode and the sorting of
-- strings are parameters.
pub mod Keys
pub mod Consolidated
pub mod Found
pub mod Analyses
pub mod Plain
use morcus_net.Prelude.{
  ℕ, ◌==◌, if◌then◌else◌, Option, none, some, List, [], ◌∷◌, ◌++◌, map, filter, Bool, true, false,
  not, ◌&&◌, ◌||◌, length, drop, String, Text, text_eq, codes, join, has_char, Result, ok, err,
  ◌>>=◌, collect,
}
use morcus_net.Structures.ArrayMap.{text_keyed, array_map_by}
use morcus_net.Crunch.Types.{
  CruncherTables, CruncherOptions, CrunchResult, CrunchError, no_first, out_of_fuel,
}
use morcus_net.Crunch.Exact.{crunch_exact_match}
use morcus_net.Crunch.Spellings.{alternates_with_i_or_u, unmarked_vowels}
use morcus_net.Crunch.Clusters.{consolidate_result_cluster}

-- The methods of JavaScript strings: `toLowerCase`, `toUpperCase`, `normalize("NFC")`,
-- `tag.toLowerCase().trim()`, and `sort` on an array of strings.
pub record Strings : Type 0 where
  pub to_lower_case : Text → Text
  pub to_upper_case : Text → Text
  pub normalize : Text → Text
  pub clean_tag : String → Text
  pub sort : List Text → List Text

abbrev macron_combiner : ℕ
macron_combiner = 0x304

abbrev breve_combiner : ℕ
breve_combiner = 0x306

abbrev pub is_combiner : ℕ → Bool
is_combiner c = c == macron_combiner || c == breve_combiner

-- `word[0]`, joined to a text.
abbrev pub first_text : Text → Text
first_text [] = codes "undefined"
first_text (c ∷ s) = c ∷ []

-- `pendingVowel ?? ""`.
abbrev pub pending_text : Option ℕ → Text
pending_text none = []
pending_text (some c) = c ∷ []

-- `Vowels.isUnmarkedVowel`.
abbrev pub is_unmarked_vowel : ℕ → Bool
is_unmarked_vowel c = has_char c unmarked_vowels

abbrev pub flush_combined : (Text → Text) → Option ℕ → ℕ → Text
flush_combined normalize none c = []
flush_combined normalize (some v) c = normalize (v ∷ c ∷ [])

-- The loop of `combineLengthCombiners`, with the pending vowel and the result.
unfoldable pub combine_from : (Text → Text) → Option ℕ → Text → Text → Text
combine_from normalize pending result [] = result ++ pending_text pending
combine_from normalize pending result (c ∷ s) =
    let combined = combine_from normalize none (result ++ flush_combined normalize pending c) s in
    let vowel = combine_from normalize (some c) (result ++ pending_text pending) s in
    let other = combine_from normalize none ((result ++ pending_text pending) ++ (c ∷ [])) s in
    if is_combiner c then combined else if is_unmarked_vowel c then vowel else other

-- `combineLengthCombiners`. Without a first character, the result is the text of `undefined`.
unfoldable pub combine_length_combiners : (Text → Text) → Text → Text
unfolding combine_from
combine_length_combiners normalize [] = codes "undefined"
combine_length_combiners normalize (c ∷ s) =
    if is_unmarked_vowel c
    then combine_from normalize (some c) [] s
    else combine_from normalize none (c ∷ []) s

-- `stripCombiners`.
abbrev pub strip_combiners : Text → Text
strip_combiners s = filter (λ c. not (is_combiner c)) s

module _ (strings : Strings) where
  -- The input with precomposed lengths and without combining ones.
  unfoldable pub clean_word : Text → Text
  clean_word input = strip_combiners (combine_length_combiners strings.normalize input)

  -- The key of a cluster.
  unfoldable pub cluster_key : CrunchResult → Text
  cluster_key r = join b'$' (
      r.lemma
      ∷ r.form
      ∷ join b'@'
          (strings.sort (map strings.clean_tag (elim r.context.tags [ none ↦ [] | some ts ↦ ts ])))
      ∷ [])

  abbrev pub of_cluster : Text × List CrunchResult → Result CrunchError (List CrunchResult)
  of_cluster e = elim (consolidate_result_cluster e.1) [ none ↦ err out_of_fuel | some rs ↦ ok rs ]

  -- `consolidateCrunchResults`.
  unfoldable pub consolidate_crunch_results :
      List CrunchResult → Result CrunchError (List CrunchResult)
  consolidate_crunch_results raw_results = collect of_cluster (array_map_by raw_results cluster_key)

  abbrev pub relaxed : CrunchResult → CrunchResult
  relaxed r = record r { relaxed_case = true }

  module _ (tables : CruncherTables) (options : CruncherOptions) where
    abbrev pub exact_match : Text → Result CrunchError (List CrunchResult)
    exact_match word = crunch_exact_match word tables options.handle_enclitics

    -- An exact match of another spelling, where a condition holds.
    unfoldable pub relaxed_match : Bool → Text → Result CrunchError (List CrunchResult)
    relaxed_match false word = ok []
    relaxed_match true word = exact_match word >>= λ rs. ok (map relaxed rs)

    -- `relaxedFirst`.
    abbrev pub relaxed_first : ℕ → Text
    relaxed_first c =
        if text_eq (strings.to_upper_case (c ∷ [])) (c ∷ [])
        then strings.to_lower_case (c ∷ [])
        else strings.to_upper_case (c ∷ [])

    abbrev pub is_capital_v : Text → Bool
    is_capital_v [] = false
    is_capital_v (c ∷ s) = c == b'V'

    abbrev pub body_of : Text → Text
    body_of word = strings.to_lower_case (drop 1 word)

    -- The other first letter, for which there has to be a first letter.
    unfoldable pub other_case : Text → Result CrunchError (List CrunchResult)
    other_case [] = if options.relax_case then err no_first else ok []
    other_case (c ∷ s) = relaxed_match options.relax_case (relaxed_first c ++ body_of (c ∷ s))

    -- `crunchAndMaybeRelaxCase`.
    unfoldable pub crunch_and_maybe_relax_case : Text → Result CrunchError (List CrunchResult)
    crunch_and_maybe_relax_case word = do
      exact ← exact_match (first_text word ++ body_of word)
      capital_u ← relaxed_match (is_capital_v word) (b'U' ∷ body_of word)
      other ← other_case word
      small_u ← relaxed_match (options.relax_case && is_capital_v word) (b'u' ∷ body_of word)
      ok (exact ++ (capital_u ++ (other ++ small_u)))

    abbrev pub is_present : Option Bool → Bool
    is_present none = false
    is_present (some b) = true

    -- A parameter with `true` as its default.
    abbrev pub or_true : Option Bool → Bool
    or_true none = true
    or_true (some b) = b

    -- The results for the other spellings.
    unfoldable pub crunch_alternates : Text → Result CrunchError (List CrunchResult)
    crunch_alternates word =
        if is_present options.relax_i_and_j || is_present options.relax_u_and_v
        then elim (alternates_with_i_or_u strings.to_lower_case word (or_true options.relax_i_and_j)
            (or_true options.relax_u_and_v)) [
              | none ↦ err out_of_fuel
              | some words ↦ collect crunch_and_maybe_relax_case words
            ]
        else ok []

    abbrev pub consolidate_unless :
        Bool → List CrunchResult → Result CrunchError (List CrunchResult)
    consolidate_unless true rs = ok rs
    consolidate_unless false rs = consolidate_crunch_results rs

    -- `crunchWord`.
    unfoldable pub crunch_word : Text → Result CrunchError (List CrunchResult)
    crunch_word input = do
      plain ← crunch_and_maybe_relax_case (clean_word input)
      others ← crunch_alternates (clean_word input)
      consolidate_unless options.skip_consolidation (plain ++ others)

-- `cleanLemma`: `^` and `_` become combining characters, and hyphens are removed.
unfoldable pub clean_lemma : Text → Text
clean_lemma lemma =
    filter (λ c. not (c == b'-'))
      (map (λ c. if c == b'_' then macron_combiner else c)
        (map (λ c. if c == b'^' then breve_combiner else c) lemma))

-- `LatinWordAnalysis`.
pub record LatinWordAnalysis : Type 0 where
  pub lemma : Text
  pub inflected_forms : List (Text × List CrunchResult)

abbrev pub without_hyphens : Text × List CrunchResult → Text × List CrunchResult
without_hyphens (form, inflection_data) = (filter (λ c. not (c == b'-')) form, inflection_data)

unfoldable pub analysis_of : Text × List CrunchResult → LatinWordAnalysis
analysis_of (lemma, results) = record {
  lemma = clean_lemma lemma;
  inflected_forms = map without_hyphens (array_map_by results (λ r. r.form));
}

-- `convert`.
unfoldable pub convert : List CrunchResult → List LatinWordAnalysis
convert crunch_results = map analysis_of (array_map_by crunch_results (λ r. r.lemma))
