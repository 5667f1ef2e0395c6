-- ===== src/Inflection/Tags.antt =====
-- Reading tags: `toInflectionData` of src/morceus/inflection_data_utils.ts.
use Prim.Native.Char.{Char, code}
use morcus_net.Prelude.{
  Option, none, some, List, [], ◌∷◌, ◌++◌, Bool, true, false, leb, ◌==◌, ◌&&◌, ◌||◌, if◌then◌else◌,
  Result, ok, err, ◌>>=◌, String, str_eq,
}
use morcus_net.Inflection.Types.{
  DataField, undefined, single, multiple, WordInflectionData, no_data, LatinCase, nominative,
  accusative, dative, genitive, ablative, vocative, LatinNumber, singular, plural, LatinGender,
  masculine, feminine, neuter, adverbial, LatinPerson, first, second, third, LatinMood, indicative,
  imperative, subjunctive, participle, gerundive, infinitive, supine, LatinVoice, active, passive,
  LatinTense, present, imperfect, perfect, future_perfect, future, pluperfect, LatinDegree,
  comparative, superlative, case_enum, gender_enum,
}
use morcus_net.Inflection.Fields.{update_inflection_data}

-- `SEMANTIC_TAGS`.
abbrev semantic_tags : List String
semantic_tags =
    "abbrev" ∷ "adverb" ∷ "archaic" ∷ "conj" ∷ "contr" ∷ "dep" ∷ "early" ∷ "late" ∷ "old" ∷ "orth"
    ∷ "exclam" ∷ "poetic" ∷ "rare" ∷ "syncop" ∷ "prep" ∷ "pers_name" ∷ "is_ethnic" ∷ "ethnic"
    ∷ "geog_name" ∷ "is_group" ∷ "group_name" ∷ "is_month" ∷ "place_name" ∷ "town" ∷ "syncope"
    ∷ "group" ∷ "is_festival" ∷ "pname" ∷ "poet" ∷ "interrog" ∷ "locative" ∷ "variant" ∷ "greek"
    ∷ "disputed" ∷ "card" ∷ "ord" ∷ "distr" ∷ "advnum" ∷ "multipl" ∷ "proport" ∷ "tempnum"
    ∷ "partnum" ∷ "othernum" ∷ "enclitic" ∷ []

-- `INTERNAL_TAGS`.
abbrev internal_tags : List String
internal_tags =
    "are_vb" ∷ "comp_only" ∷ "conj1" ∷ "conj2" ∷ "conj3" ∷ "demonstr" ∷ "has_redupl" ∷ "indecl"
    ∷ "indef" ∷ "ire_vb" ∷ "irreg_adj2" ∷ "irreg_adj3" ∷ "irreg_decl3" ∷ "irreg_comp" ∷ "irreg_nom2"
    ∷ "irreg_nom3" ∷ "irreg_pp1" ∷ "irreg_pp2" ∷ "irreg_superl" ∷ "no_comp" ∷ "no_fut"
    ∷ "no_fut_part" ∷ "numeral" ∷ "perfstem" ∷ "pp4" ∷ "pron" ∷ "pron1" ∷ "pron2" ∷ "pron3"
    ∷ "relative" ∷ "rel_pron" ∷ []

-- `set.has(tag)`.
unfoldable pub is_member : List String → String → Bool
is_member [] tag = false
is_member (t ∷ ts) tag = str_eq t tag || is_member ts tag

is_digit : Char → Bool
is_digit c = leb b'0' (code c) && leb (code c) b'9'

all_digits : String → Bool
all_digits String.[] = true
all_digits (String.◌∷◌ c s) = is_digit c && all_digits s

-- What is left of a text behind a prefix.
strip_prefix : String → String → Option String
strip_prefix String.[] s = some s
strip_prefix (String.◌∷◌ c p) String.[] = none
strip_prefix (String.◌∷◌ c p) (String.◌∷◌ d s) = if code c == code d then strip_prefix p s else none

-- `/^arabic\d+$/`.
is_arabic : String → Bool
is_arabic tag = elim (strip_prefix "arabic" tag) [
  | none ↦ false
  | some String.[] ↦ false
  | some (String.◌∷◌ c s) ↦ all_digits (String.◌∷◌ c s)
]

-- `isSemanticTag`.
is_semantic_tag : String → Bool
unfolding is_member is_arabic strip_prefix all_digits is_digit
is_semantic_tag tag = is_member semantic_tags tag || is_arabic tag

-- `InflectionContext`; a list of tags that is absent is `none`.
pub record InflectionContext : Type 0 where
  pub grammatical_data : WordInflectionData
  pub tags : Option (List String)
  pub internal_tags : Option (List String)

pub data TagError : Type 0 where
  not_undefined unexpected : TagError

-- The variables of the loop of `toInflectionData`.
pub record Tagging : Type 0 where
  pub result : WordInflectionData
  pub tags : List String
  pub internal : List String

abbrev pub no_tags : Tagging
no_tags = record { result = no_data; tags = []; internal = [] }

abbrev is_undefined : {A : Type 0} → DataField A → Bool
is_undefined undefined = true
is_undefined (single a) = false
is_undefined (multiple as') = false

abbrev with_result : Tagging → WordInflectionData → Result TagError Tagging
with_result s d = ok (record s { result = d })

-- `assertEqual(result.f, undefined); result.f = v`, one for each field.
abbrev fresh : {A : Type 0} → DataField A → Result TagError Tagging → Result TagError Tagging
fresh f next = elim (is_undefined f) [ true ↦ next | false ↦ err not_undefined ]

module _ (s : Tagging) where
  abbrev set_case : DataField LatinCase → Result TagError Tagging
  set_case v = with_result s (record s.result { case = v })

  abbrev add_case : LatinCase → Result TagError Tagging
  add_case c = set_case (update_inflection_data s.result.case c)

  abbrev new_case : DataField LatinCase → Result TagError Tagging
  new_case v = fresh s.result.case (set_case v)

  abbrev new_person : LatinPerson → Result TagError Tagging
  new_person v = fresh s.result.person (with_result s (record s.result { person = single v }))

  abbrev new_number : LatinNumber → Result TagError Tagging
  new_number v = fresh s.result.number (with_result s (record s.result { number = single v }))

  abbrev new_voice : LatinVoice → Result TagError Tagging
  new_voice v = fresh s.result.voice (with_result s (record s.result { voice = single v }))

  abbrev set_gender : DataField LatinGender → Result TagError Tagging
  set_gender v = with_result s (record s.result { gender = v })

  abbrev add_gender : LatinGender → Result TagError Tagging
  add_gender g = set_gender (update_inflection_data s.result.gender g)

  abbrev new_gender : DataField LatinGender → Result TagError Tagging
  new_gender v = fresh s.result.gender (set_gender v)

  abbrev new_degree : LatinDegree → Result TagError Tagging
  new_degree v = fresh s.result.degree (with_result s (record s.result { degree = single v }))

  abbrev new_tense : LatinTense → Result TagError Tagging
  new_tense v = fresh s.result.tense (with_result s (record s.result { tense = single v }))

  abbrev new_mood : LatinMood → Result TagError Tagging
  new_mood v = fresh s.result.mood (with_result s (record s.result { mood = single v }))

-- The branches for the cases; the last argument is what follows them.
case_tag : Tagging → String → Result TagError Tagging → Result TagError Tagging
unfolding update_inflection_data
case_tag s tag next =
    if str_eq tag "nom"
    then add_case s nominative
    else if str_eq tag "acc"
    then add_case s accusative
    else if str_eq tag "abl"
    then add_case s ablative
    else if str_eq tag "gen"
    then new_case s (single genitive)
    else if str_eq tag "dat"
    then add_case s dative
    else if str_eq tag "voc"
    then add_case s vocative
    else if str_eq tag "abl/dat"
    then new_case s (multiple (ablative ∷ dative ∷ []))
    else if str_eq tag "dat/abl"
    then new_case s (multiple (dative ∷ ablative ∷ []))
    else if str_eq tag "nom/voc"
    then set_case s
        (update_inflection_data (update_inflection_data s.result.case nominative) vocative)
    else if str_eq tag "nom/acc"
    then new_case s (multiple (nominative ∷ accusative ∷ []))
    else if str_eq tag "nom/voc/acc"
    then new_case s (multiple (nominative ∷ vocative ∷ accusative ∷ []))
    else next

-- The branches for persons, numbers and voices.
person_tag : Tagging → String → Result TagError Tagging → Result TagError Tagging
person_tag s tag next =
    if str_eq tag "1st"
    then new_person s first
    else if str_eq tag "2nd"
    then new_person s second
    else if str_eq tag "3rd"
    then new_person s third
    else if str_eq tag "sg"
    then new_number s singular
    else if str_eq tag "pl"
    then new_number s plural
    else if str_eq tag "act"
    then new_voice s active
    else if str_eq tag "pass"
    then new_voice s passive
    else next

-- The branches for genders and degrees.
gender_tag : Tagging → String → Result TagError Tagging → Result TagError Tagging
unfolding update_inflection_data
gender_tag s tag next =
    if str_eq tag "masc"
    then add_gender s masculine
    else if str_eq tag "fem"
    then add_gender s feminine
    else if str_eq tag "neut"
    then add_gender s neuter
    else if str_eq tag "masc/neut"
    then new_gender s (multiple (masculine ∷ neuter ∷ []))
    else if str_eq tag "masc/fem"
    then new_gender s (multiple (masculine ∷ feminine ∷ []))
    else if str_eq tag "adverbial"
    then new_gender s (single adverbial)
    else if str_eq tag "masc/fem/neut"
    then new_gender s (multiple (masculine ∷ feminine ∷ neuter ∷ []))
    else if str_eq tag "superl"
    then new_degree s superlative
    else if str_eq tag "comp"
    then new_degree s comparative
    else next

-- The branches for tenses and moods.
verb_tag : Tagging → String → Result TagError Tagging → Result TagError Tagging
verb_tag s tag next =
    if str_eq tag "imperf"
    then new_tense s imperfect
    else if str_eq tag "fut"
    then new_tense s future
    else if str_eq tag "pres"
    then new_tense s present
    else if str_eq tag "perf"
    then new_tense s perfect
    else if str_eq tag "plup"
    then new_tense s pluperfect
    else if str_eq tag "futperf"
    then new_tense s future_perfect
    else if str_eq tag "ind" || str_eq tag "indic"
    then new_mood s indicative
    else if str_eq tag "subj"
    then new_mood s subjunctive
    else if str_eq tag "part"
    then new_mood s participle
    else if str_eq tag "gerundive"
    then new_mood s gerundive
    else if str_eq tag "imperat"
    then new_mood s imperative
    else if str_eq tag "inf"
    then new_mood s infinitive
    else if str_eq tag "supine"
    then new_mood s supine
    else next

-- The last branches.
other_tag : Tagging → String → Result TagError Tagging
unfolding is_semantic_tag is_member
other_tag s tag =
    if is_semantic_tag tag
    then ok (record s { tags = s.tags ++ tag ∷ [] })
    else if is_member internal_tags tag
    then ok (record s { internal = s.internal ++ tag ∷ [] })
    else err unexpected

-- One round of the loop.
unfoldable pub read_tag : Tagging → String → Result TagError Tagging
unfolding case_tag person_tag gender_tag verb_tag other_tag
read_tag s tag =
    case_tag s tag (person_tag s tag (gender_tag s tag (verb_tag s tag (other_tag s tag))))

unfoldable pub read_tags : Tagging → List String → Result TagError Tagging
unfolding read_tag
read_tags s [] = ok s
read_tags s (tag ∷ rest) = do t ← read_tag s tag; read_tags t rest

abbrev pub none_if_empty : List String → Option (List String)
none_if_empty [] = none
none_if_empty (t ∷ ts) = some (t ∷ ts)

-- `toInflectionData`.
unfoldable pub to_inflection_data : List String → Result TagError InflectionContext
unfolding read_tags
to_inflection_data tags = do
  s ← read_tags no_tags tags
  ok (record {
    grammatical_data = s.result;
    tags = none_if_empty s.tags;
    internal_tags = none_if_empty s.internal;
  })
