-- ===== src/Inflection/Words.antt =====
-- Writing tags: `wordInflectionDataToArray` and the functions `toMorpheus…` of
-- src/morceus/inflection_data_utils.ts.
pub mod OneField
pub mod RoundTrip
use Prim.Native.String
use morcus_net.Prelude.{
  ℕ, ◌+◌, ◌≡◌, refl, Option, none, some, List, [], ◌∷◌, ◌++◌, map, length, Bool, true, false, not,
  ltb, ◌==◌, ◌&&◌, ◌||◌, if◌then◌else◌, Result, ok, err, assert, ◌>>=◌, ◌>>◌, String, str_eq,
}
use morcus_net.Inflection.Types.{
  DataField, WordInflectionData, LatinCase, nominative, accusative, dative, genitive, ablative,
  vocative, locative, LatinNumber, singular, plural, LatinGender, masculine, feminine, neuter,
  adverbial, LatinPerson, first, second, third, LatinMood, indicative, imperative, subjunctive,
  participle, gerundive, infinitive, supine, LatinVoice, active, passive, LatinTense, present,
  imperfect, perfect, future_perfect, future, pluperfect, LatinDegree, positive, comparative,
  superlative,
}
use morcus_net.Inflection.Fields.{coerce_to_array}
use morcus_net.Inflection.Tags.{InflectionContext}

-- `toMorpheusGender`.
pub to_morpheus_gender : LatinGender → String
to_morpheus_gender adverbial = "adverbial"
to_morpheus_gender feminine = "fem"
to_morpheus_gender masculine = "masc"
to_morpheus_gender neuter = "neut"

-- `toMorpheusCase`.
pub to_morpheus_case : LatinCase → String
to_morpheus_case ablative = "abl"
to_morpheus_case accusative = "acc"
to_morpheus_case dative = "dat"
to_morpheus_case genitive = "gen"
to_morpheus_case locative = "loc"
to_morpheus_case nominative = "nom"
to_morpheus_case vocative = "voc"

-- `toMorpheusNumber`.
pub to_morpheus_number : LatinNumber → String
to_morpheus_number singular = "sg"
to_morpheus_number plural = "pl"

-- `toMorpheusPerson`.
pub to_morpheus_person : LatinPerson → String
to_morpheus_person first = "1st"
to_morpheus_person second = "2nd"
to_morpheus_person third = "3rd"

-- `toMorpheusVoice`.
pub to_morpheus_voice : LatinVoice → String
to_morpheus_voice active = "act"
to_morpheus_voice passive = "pass"

-- `toMorpheusDegree`.
pub to_morpheus_degree : LatinDegree → Option String
to_morpheus_degree comparative = some "comp"
to_morpheus_degree positive = none
to_morpheus_degree superlative = some "superl"

-- `toMorpheusTense`.
pub to_morpheus_tense : LatinTense → String
to_morpheus_tense future = "fut"
to_morpheus_tense future_perfect = "futperf"
to_morpheus_tense imperfect = "imperf"
to_morpheus_tense perfect = "perf"
to_morpheus_tense pluperfect = "plup"
to_morpheus_tense present = "pres"

-- `toMorpheusMood`.
pub to_morpheus_mood : LatinMood → String
to_morpheus_mood gerundive = "gerundive"
to_morpheus_mood imperative = "imperat"
to_morpheus_mood indicative = "ind"
to_morpheus_mood participle = "part"
to_morpheus_mood subjunctive = "subj"
to_morpheus_mood infinitive = "inf"
to_morpheus_mood supine = "supine"

-- `subArray.join("/")`.
pub join_slash : List String → String
join_slash [] = ""
join_slash (x ∷ []) = x
join_slash (x ∷ y ∷ ys) = String.◌++◌ x (String.◌++◌ "/" (join_slash (y ∷ ys)))

-- `.filter((attribute) => attribute.length > 0)`.
pub non_empty : List String → List String
non_empty [] = []
non_empty (x ∷ xs) = if str_eq x "" then non_empty xs else x ∷ non_empty xs

-- `arr.filter((x) => x !== undefined)`, and how many are `undefined`.
pub present_only : List (Option String) → List String
present_only [] = []
present_only (none ∷ xs) = present_only xs
present_only (some x ∷ xs) = x ∷ present_only xs

num_undefined : List (Option String) → ℕ
num_undefined [] = 0
num_undefined (none ∷ xs) = num_undefined xs + 1
num_undefined (some x ∷ xs) = num_undefined xs

pub data DegreeError : Type 0 where
  mixed_positive : DegreeError

-- The argument of `checkSatisfies`.
degrees_ok : List (Option String) → Bool
degrees_ok arr = num_undefined arr == 0 || (num_undefined arr == 1 && length arr == 1)

-- `wordInflectionDataToArray`.
pub word_inflection_data_to_array : WordInflectionData → Result DegreeError (List String)
unfolding non_empty join_slash present_only degrees_ok num_undefined to_morpheus_tense
    to_morpheus_mood to_morpheus_voice to_morpheus_person to_morpheus_gender to_morpheus_case
    to_morpheus_degree to_morpheus_number coerce_to_array
word_inflection_data_to_array d = do
  let degrees = map to_morpheus_degree (coerce_to_array d.degree)
  assert (degrees_ok degrees) mixed_positive
  ok (
      non_empty (
        map join_slash (
          map to_morpheus_tense (coerce_to_array d.tense)
          ∷ map to_morpheus_mood (coerce_to_array d.mood)
          ∷ map to_morpheus_voice (coerce_to_array d.voice)
          ∷ map to_morpheus_person (coerce_to_array d.person)
          ∷ map to_morpheus_gender (coerce_to_array d.gender)
          ∷ map to_morpheus_case (coerce_to_array d.case)
          ∷ present_only degrees
          ∷ map to_morpheus_number (coerce_to_array d.number)
          ∷ [])))

abbrev or_empty : Option (List String) → List String
or_empty none = []
or_empty (some ts) = ts

-- `InflectionContext.toStringArray`.
pub to_string_array : InflectionContext → Result DegreeError (List String)
unfolding word_inflection_data_to_array
to_string_array context = do
  words ← word_inflection_data_to_array context.grammatical_data
  ok ((or_empty context.internal_tags ++ words) ++ or_empty context.tags)

-- `isWordInflectionDataNonEmpty`.
pub is_word_inflection_data_non_empty : WordInflectionData → Bool
unfolding coerce_to_array
is_word_inflection_data_non_empty d =
    ltb 0 (length (coerce_to_array d.tense))
    || ltb 0 (length (coerce_to_array d.mood))
    || ltb 0 (length (coerce_to_array d.voice))
    || ltb 0 (length (coerce_to_array d.person))
    || ltb 0 (length (coerce_to_array d.gender))
    || ltb 0 (length (coerce_to_array d.case))
    || ltb 0 (length (coerce_to_array d.degree))
    || ltb 0 (length (coerce_to_array d.number))
