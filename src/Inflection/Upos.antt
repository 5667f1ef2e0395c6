-- ===== src/Inflection/Upos.antt =====
-- `convertUpos` of src/morceus/inflection_data_utils.ts.
pub mod Shape
mod Tests
use morcus_net.Prelude.{
  ℕ, ◌≡◌, ◌≢◌, refl, arith, Option, none, some, List, [], ◌∷◌, map, Bool, true, false, not, ◌==◌,
  ◌&&◌, ◌||◌, if◌then◌else◌, Result, ok, err, ◌>>=◌, String, Text, codes, text_eq, has_char, trim,
  split, any,
}
use morcus_net.Inflection.Types.{
  DataField, undefined, single, multiple, WordInflectionData, no_data, LatinCase, nominative,
  accusative, dative, genitive, ablative, vocative, locative, LatinNumber, singular, plural,
  LatinGender, masculine, feminine, neuter, adverbial, LatinPerson, first, second, third, LatinMood,
  indicative, imperative, subjunctive, participle, gerundive, infinitive, supine, LatinVoice,
  active, passive, LatinTense, present, imperfect, perfect, future_perfect, future, pluperfect,
  LatinDegree, positive, comparative, superlative,
}

pub data UposError : Type 0 where
  unrecognized_value unrecognized_key : UposError

is_text : Text → String → Bool
is_text s literal = text_eq s (codes literal)

-- The inner `switch` for `Case`.
case_of : Text → Option LatinCase
unfolding is_text
case_of value =
    if is_text value "Nom"
    then some nominative
    else if is_text value "Acc"
    then some accusative
    else if is_text value "Gen"
    then some genitive
    else if is_text value "Dat"
    then some dative
    else if is_text value "Abl"
    then some ablative
    else if is_text value "Voc"
    then some vocative
    else if is_text value "Loc"
    then some locative
    else none

-- For `Number`.
number_of : Text → Option LatinNumber
unfolding is_text
number_of value =
    if is_text value "Sing"
    then some singular
    else if is_text value "Plur" || is_text value "Plural"
    then some plural
    else none

-- For `Gender`.
gender_of : Text → Option LatinGender
unfolding is_text
gender_of value =
    if is_text value "Masc"
    then some masculine
    else if is_text value "Fem"
    then some feminine
    else if is_text value "Neut"
    then some neuter
    else none

-- For `Person`.
person_of : Text → Option LatinPerson
unfolding is_text
person_of value =
    if is_text value "1"
    then some first
    else if is_text value "2"
    then some second
    else if is_text value "3"
    then some third
    else none

-- For `Voice`.
voice_of : Text → Option LatinVoice
unfolding is_text
voice_of value =
    if is_text value "Act" then some active else if is_text value "Pass" then some passive else none

-- What a value does to a field that it may leave alone.
data Change (A : Type 0) : Type 0 where
  set_to : A → Change A
  keep bad : Change A

-- For `VerbForm`.
verb_form_of : Text → Change LatinMood
unfolding is_text
verb_form_of value =
    if is_text value "Part"
    then set_to participle
    else if is_text value "Gdv"
    then set_to gerundive
    else if is_text value "Inf"
    then set_to infinitive
    else if is_text value "Sup"
    then set_to supine
    else if is_text value "Fin"
    then keep
    else bad

-- For `Mood`.
mood_of : Text → Option LatinMood
unfolding is_text
mood_of value =
    if is_text value "Ind"
    then some indicative
    else if is_text value "Imp"
    then some imperative
    else if is_text value "Sub"
    then some subjunctive
    else if is_text value "Gdv"
    then some gerundive
    else none

-- For `Tense`.
tense_of : Text → Change LatinTense
unfolding is_text
tense_of value =
    if is_text value "Pres"
    then set_to present
    else if is_text value "Imp"
    then keep
    else if is_text value "Perf"
    then keep
    else if is_text value "Fut"
    then set_to future
    else if is_text value "Pqp"
    then set_to pluperfect
    else if is_text value "Ftp"
    then keep
    else if is_text value "Past"
    then keep
    else bad

-- For `Degree`.
degree_of : Text → Change LatinDegree
unfolding is_text
degree_of value =
    if is_text value "Pos"
    then set_to positive
    else if is_text value "Cmp"
    then set_to comparative
    else if is_text value "Sup"
    then set_to superlative
    else if is_text value "Abs"
    then keep
    else bad

-- The variables of the loop: `aspect` and `tense` are the texts that were seen last.
pub record Upos : Type 0 where
  pub result : WordInflectionData
  pub aspect : Option Text
  pub tense : Option Text

abbrev set_result : Upos → WordInflectionData → Result UposError Upos
set_result s d = ok (record s { result = d })

abbrev set_or_throw : {A : Type 0} → Option A → (A → Result UposError Upos) → Result UposError Upos
set_or_throw none k = err unrecognized_value
set_or_throw (some a) k = k a

abbrev change_or_throw :
    {A : Type 0} → Upos → Change A → (A → Result UposError Upos) → Result UposError Upos
change_or_throw s (set_to a) k = k a
change_or_throw s keep k = ok s
change_or_throw s bad k = err unrecognized_value

-- The keys that are passed over.
abbrev ignored_keys : List String
ignored_keys =
    "InflClass" ∷ "PronType" ∷ "Aspect" ∷ "NumType" ∷ "NumValue" ∷ "Form" ∷ "Polarity" ∷ "AdvType"
    ∷ "Variant" ∷ "NameType" ∷ "Poss" ∷ "NumForm" ∷ "Reflex" ∷ []

is_ignored : Text → Bool
unfolding is_text
is_ignored key = any (is_text key) ignored_keys

-- The outer `switch`.
switch_key : Upos → Text → Text → Result UposError Upos
unfolding is_text is_ignored case_of number_of gender_of person_of voice_of verb_form_of mood_of
    tense_of degree_of
switch_key s key value =
    let d = s.result in
    if is_ignored key
    then ok s
    else if is_text key "Case"
    then set_or_throw (case_of value) (λ x. set_result s (record d { case = single x }))
    else if is_text key "Number"
    then set_or_throw (number_of value) (λ x. set_result s (record d { number = single x }))
    else if is_text key "Gender"
    then set_or_throw (gender_of value) (λ x. set_result s (record d { gender = single x }))
    else if is_text key "Person"
    then set_or_throw (person_of value) (λ x. set_result s (record d { person = single x }))
    else if is_text key "Voice"
    then set_or_throw (voice_of value) (λ x. set_result s (record d { voice = single x }))
    else if is_text key "VerbForm"
    then change_or_throw s (verb_form_of value) (λ x. set_result s (record d { mood = single x }))
    else if is_text key "Mood"
    then set_or_throw (mood_of value) (λ x. set_result s (record d { mood = single x }))
    else if is_text key "Tense"
    then change_or_throw s (tense_of value) (λ x. set_result s (record d { tense = single x }))
    else if is_text key "Degree"
    then change_or_throw s (degree_of value) (λ x. set_result s (record d { degree = single x }))
    else err unrecognized_key

-- The two tests in front of it that record a text.
abbrev note_texts : Upos → Text → Text → Upos
note_texts s key value = record {
  result = s.result;
  aspect = if is_text key "Aspect" then some value else s.aspect;
  tense = if is_text key "Tense" then some value else s.tense;
}

abbrev is_empty : Text → Bool
is_empty [] = true
is_empty (c ∷ s) = false

-- A pair `key=value`, as it was split and trimmed; a text that is absent is `none`.
read_pair : Upos → Text → Option Text → Result UposError Upos
unfolding switch_key
read_pair s key none = ok s
read_pair s key (some value) =
    if is_empty key || is_empty value
    then ok s
    else if has_char b'[' key && has_char b']' key
    then ok s
    else switch_key (note_texts s key value) key value

-- `const [key, value] = part.split("=").map((x) => x.trim())`.
abbrev split_pair : Text → Text × Option Text
split_pair part = elim (split b'=' part) [
  | [] ↦ ([], none)
  | k ∷ rest ↦ elim rest [ [] ↦ (trim k, none) | v ∷ more ↦ (trim k, some (trim v)) ]
]

-- The loop.
read_parts : Upos → List Text → Result UposError Upos
unfolding read_pair
read_parts s [] = ok s
read_parts s (part ∷ parts) =
    if is_empty part
    then read_parts s parts
    else (read_pair s (split_pair part).0 (split_pair part).1 >>= λ t. read_parts t parts)

abbrev both_are : Option Text → Option Text → String → String → Bool
both_are (some t) (some a) tense aspect = is_text t tense && is_text a aspect
both_are _ _ tense aspect = false

abbrev set_tense : Bool → LatinTense → WordInflectionData → WordInflectionData
set_tense b t d = if b then record d { tense = single t } else d

-- The statements behind the loop.
settle : Upos → WordInflectionData
unfolding is_text
settle s = set_tense (both_are s.tense s.aspect "Past" "Imp") imperfect (
    set_tense (both_are s.tense s.aspect "Past" "Perf") pluperfect
      (set_tense (both_are s.tense s.aspect "Future" "Perf") future_perfect s.result))

abbrev no_upos : Upos
no_upos = record { result = no_data; aspect = none; tense = none }

-- `convertUpos`.
pub convert_upos : Text → Result UposError WordInflectionData
unfolding read_parts settle
convert_upos upos = do s ← read_parts no_upos (split b'|' (trim upos)); ok (settle s)
