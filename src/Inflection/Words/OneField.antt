-- ===== src/Inflection/Words/OneField.antt =====
-- The tags of one field: what is written, and what it is read as.
use morcus_net.Prelude.{◌≡◌, ◌≢◌, refl, List, [], ◌∷◌, ◌++◌, map, ok, String}
use morcus_net.Inflection.Types.{
  DataField, undefined, single, multiple, LatinCase, nominative, accusative, dative, genitive,
  ablative, vocative, locative, LatinNumber, singular, plural, LatinGender, masculine, feminine,
  neuter, adverbial, LatinPerson, first, second, third, LatinMood, indicative, imperative,
  subjunctive, participle, gerundive, infinitive, supine, LatinVoice, active, passive, LatinTense,
  present, imperfect, perfect, future_perfect, future, pluperfect, LatinDegree, positive,
  comparative, superlative,
}
use morcus_net.Inflection.Fields.{coerce_to_array}
use morcus_net.Inflection.Tags.{Tagging, read_tag, read_tags}
use morcus_net.Inflection.Words.{
  to_morpheus_tense, to_morpheus_mood, to_morpheus_voice, to_morpheus_person, to_morpheus_gender,
  to_morpheus_case, to_morpheus_degree, to_morpheus_number, join_slash, non_empty, present_only,
}

-- At most one value.
abbrev pub IsSingle : {A : Type 0} → DataField A → Type 0
IsSingle undefined = Unit
IsSingle (single a) = Unit
IsSingle (multiple as') = ⊥

-- The state of the reader when no other tags have come.
module _ (c : DataField LatinCase) (n : DataField LatinNumber) (g : DataField LatinGender)
    (p : DataField LatinPerson) (v : DataField LatinVoice) (m : DataField LatinMood)
    (t : DataField LatinTense) (d : DataField LatinDegree) where
  abbrev pub state : Tagging
  state = record {
    result = record {
      case = c;
      number = n;
      gender = g;
      person = p;
      voice = v;
      mood = m;
      tense = t;
      degree = d;
    };
    tags = [];
    internal = [];
  }

abbrev pub tense_words : DataField LatinTense → List String
tense_words f = map to_morpheus_tense (coerce_to_array f)

pub write-tense :
    (f : DataField LatinTense) (rest : List String)
    → IsSingle f
    → non_empty (join_slash (tense_words f) ∷ rest) ≡ tense_words f ++ non_empty rest
unfolding non_empty join_slash coerce_to_array to_morpheus_tense
write-tense undefined rest h = refl
write-tense (single present) rest h = refl
write-tense (single imperfect) rest h = refl
write-tense (single perfect) rest h = refl
write-tense (single future_perfect) rest h = refl
write-tense (single future) rest h = refl
write-tense (single pluperfect) rest h = refl
write-tense (multiple as') rest h = elim h [ ]

pub read-tense :
    (f : DataField LatinTense) (c : DataField LatinCase) (n : DataField LatinNumber)
    (g : DataField LatinGender) (p : DataField LatinPerson) (v : DataField LatinVoice)
    (m : DataField LatinMood) (d : DataField LatinDegree)
    → IsSingle f
    → read_tags (state c n g p v m undefined d) (tense_words f) ≡ ok (state c n g p v m f d)
unfolding read_tags read_tag coerce_to_array to_morpheus_tense
read-tense undefined c n g p v m d h = refl
read-tense (single present) c n g p v m d h = refl
read-tense (single imperfect) c n g p v m d h = refl
read-tense (single perfect) c n g p v m d h = refl
read-tense (single future_perfect) c n g p v m d h = refl
read-tense (single future) c n g p v m d h = refl
read-tense (single pluperfect) c n g p v m d h = refl
read-tense (multiple as') c n g p v m d h = elim h [ ]

abbrev pub mood_words : DataField LatinMood → List String
mood_words f = map to_morpheus_mood (coerce_to_array f)

pub write-mood :
    (f : DataField LatinMood) (rest : List String)
    → IsSingle f
    → non_empty (join_slash (mood_words f) ∷ rest) ≡ mood_words f ++ non_empty rest
unfolding non_empty join_slash coerce_to_array to_morpheus_mood
write-mood undefined rest h = refl
write-mood (single indicative) rest h = refl
write-mood (single imperative) rest h = refl
write-mood (single subjunctive) rest h = refl
write-mood (single participle) rest h = refl
write-mood (single gerundive) rest h = refl
write-mood (single infinitive) rest h = refl
write-mood (single supine) rest h = refl
write-mood (multiple as') rest h = elim h [ ]

pub read-mood :
    (f : DataField LatinMood) (c : DataField LatinCase) (n : DataField LatinNumber)
    (g : DataField LatinGender) (p : DataField LatinPerson) (v : DataField LatinVoice)
    (t : DataField LatinTense) (d : DataField LatinDegree)
    → IsSingle f
    → read_tags (state c n g p v undefined t d) (mood_words f) ≡ ok (state c n g p v f t d)
unfolding read_tags read_tag coerce_to_array to_morpheus_mood
read-mood undefined c n g p v t d h = refl
read-mood (single indicative) c n g p v t d h = refl
read-mood (single imperative) c n g p v t d h = refl
read-mood (single subjunctive) c n g p v t d h = refl
read-mood (single participle) c n g p v t d h = refl
read-mood (single gerundive) c n g p v t d h = refl
read-mood (single infinitive) c n g p v t d h = refl
read-mood (single supine) c n g p v t d h = refl
read-mood (multiple as') c n g p v t d h = elim h [ ]

abbrev pub voice_words : DataField LatinVoice → List String
voice_words f = map to_morpheus_voice (coerce_to_array f)

pub write-voice :
    (f : DataField LatinVoice) (rest : List String)
    → IsSingle f
    → non_empty (join_slash (voice_words f) ∷ rest) ≡ voice_words f ++ non_empty rest
unfolding non_empty join_slash coerce_to_array to_morpheus_voice
write-voice undefined rest h = refl
write-voice (single active) rest h = refl
write-voice (single passive) rest h = refl
write-voice (multiple as') rest h = elim h [ ]

pub read-voice :
    (f : DataField LatinVoice) (c : DataField LatinCase) (n : DataField LatinNumber)
    (g : DataField LatinGender) (p : DataField LatinPerson) (m : DataField LatinMood)
    (t : DataField LatinTense) (d : DataField LatinDegree)
    → IsSingle f
    → read_tags (state c n g p undefined m t d) (voice_words f) ≡ ok (state c n g p f m t d)
unfolding read_tags read_tag coerce_to_array to_morpheus_voice
read-voice undefined c n g p m t d h = refl
read-voice (single active) c n g p m t d h = refl
read-voice (single passive) c n g p m t d h = refl
read-voice (multiple as') c n g p m t d h = elim h [ ]

abbrev pub person_words : DataField LatinPerson → List String
person_words f = map to_morpheus_person (coerce_to_array f)

pub write-person :
    (f : DataField LatinPerson) (rest : List String)
    → IsSingle f
    → non_empty (join_slash (person_words f) ∷ rest) ≡ person_words f ++ non_empty rest
unfolding non_empty join_slash coerce_to_array to_morpheus_person
write-person undefined rest h = refl
write-person (single first) rest h = refl
write-person (single second) rest h = refl
write-person (single third) rest h = refl
write-person (multiple as') rest h = elim h [ ]

pub read-person :
    (f : DataField LatinPerson) (c : DataField LatinCase) (n : DataField LatinNumber)
    (g : DataField LatinGender) (v : DataField LatinVoice) (m : DataField LatinMood)
    (t : DataField LatinTense) (d : DataField LatinDegree)
    → IsSingle f
    → read_tags (state c n g undefined v m t d) (person_words f) ≡ ok (state c n g f v m t d)
unfolding read_tags read_tag coerce_to_array to_morpheus_person
read-person undefined c n g v m t d h = refl
read-person (single first) c n g v m t d h = refl
read-person (single second) c n g v m t d h = refl
read-person (single third) c n g v m t d h = refl
read-person (multiple as') c n g v m t d h = elim h [ ]

abbrev pub gender_words : DataField LatinGender → List String
gender_words f = map to_morpheus_gender (coerce_to_array f)

pub write-gender :
    (f : DataField LatinGender) (rest : List String)
    → IsSingle f
    → non_empty (join_slash (gender_words f) ∷ rest) ≡ gender_words f ++ non_empty rest
unfolding non_empty join_slash coerce_to_array to_morpheus_gender
write-gender undefined rest h = refl
write-gender (single masculine) rest h = refl
write-gender (single feminine) rest h = refl
write-gender (single neuter) rest h = refl
write-gender (single adverbial) rest h = refl
write-gender (multiple as') rest h = elim h [ ]

pub read-gender :
    (f : DataField LatinGender) (c : DataField LatinCase) (n : DataField LatinNumber)
    (p : DataField LatinPerson) (v : DataField LatinVoice) (m : DataField LatinMood)
    (t : DataField LatinTense) (d : DataField LatinDegree)
    → IsSingle f
    → read_tags (state c n undefined p v m t d) (gender_words f) ≡ ok (state c n f p v m t d)
unfolding read_tags read_tag coerce_to_array to_morpheus_gender
read-gender undefined c n p v m t d h = refl
read-gender (single masculine) c n p v m t d h = refl
read-gender (single feminine) c n p v m t d h = refl
read-gender (single neuter) c n p v m t d h = refl
read-gender (single adverbial) c n p v m t d h = refl
read-gender (multiple as') c n p v m t d h = elim h [ ]

abbrev pub case_words : DataField LatinCase → List String
case_words f = map to_morpheus_case (coerce_to_array f)

pub write-case :
    (f : DataField LatinCase) (rest : List String)
    → IsSingle f × (f ≢ single locative)
    → non_empty (join_slash (case_words f) ∷ rest) ≡ case_words f ++ non_empty rest
unfolding non_empty join_slash coerce_to_array to_morpheus_case
write-case undefined rest h = refl
write-case (single nominative) rest h = refl
write-case (single accusative) rest h = refl
write-case (single dative) rest h = refl
write-case (single genitive) rest h = refl
write-case (single ablative) rest h = refl
write-case (single vocative) rest h = refl
write-case (single locative) rest h = absurd (h.1 refl)
write-case (multiple as') rest h = elim h.0 [ ]

pub read-case :
    (f : DataField LatinCase) (n : DataField LatinNumber) (g : DataField LatinGender)
    (p : DataField LatinPerson) (v : DataField LatinVoice) (m : DataField LatinMood)
    (t : DataField LatinTense) (d : DataField LatinDegree)
    → IsSingle f × (f ≢ single locative)
    → read_tags (state undefined n g p v m t d) (case_words f) ≡ ok (state f n g p v m t d)
unfolding read_tags read_tag coerce_to_array to_morpheus_case
read-case undefined n g p v m t d h = refl
read-case (single nominative) n g p v m t d h = refl
read-case (single accusative) n g p v m t d h = refl
read-case (single dative) n g p v m t d h = refl
read-case (single genitive) n g p v m t d h = refl
read-case (single ablative) n g p v m t d h = refl
read-case (single vocative) n g p v m t d h = refl
read-case (single locative) n g p v m t d h = absurd (h.1 refl)
read-case (multiple as') n g p v m t d h = elim h.0 [ ]

abbrev pub degree_words : DataField LatinDegree → List String
degree_words f = present_only (map to_morpheus_degree (coerce_to_array f))

pub write-degree :
    (f : DataField LatinDegree) (rest : List String)
    → IsSingle f × (f ≢ single positive)
    → non_empty (join_slash (degree_words f) ∷ rest) ≡ degree_words f ++ non_empty rest
unfolding non_empty join_slash coerce_to_array to_morpheus_degree present_only
write-degree undefined rest h = refl
write-degree (single comparative) rest h = refl
write-degree (single superlative) rest h = refl
write-degree (single positive) rest h = absurd (h.1 refl)
write-degree (multiple as') rest h = elim h.0 [ ]

pub read-degree :
    (f : DataField LatinDegree) (c : DataField LatinCase) (n : DataField LatinNumber)
    (g : DataField LatinGender) (p : DataField LatinPerson) (v : DataField LatinVoice)
    (m : DataField LatinMood) (t : DataField LatinTense)
    → IsSingle f × (f ≢ single positive)
    → read_tags (state c n g p v m t undefined) (degree_words f) ≡ ok (state c n g p v m t f)
unfolding read_tags read_tag coerce_to_array to_morpheus_degree present_only
read-degree undefined c n g p v m t h = refl
read-degree (single comparative) c n g p v m t h = refl
read-degree (single superlative) c n g p v m t h = refl
read-degree (single positive) c n g p v m t h = absurd (h.1 refl)
read-degree (multiple as') c n g p v m t h = elim h.0 [ ]

abbrev pub number_words : DataField LatinNumber → List String
number_words f = map to_morpheus_number (coerce_to_array f)

pub write-number :
    (f : DataField LatinNumber) (rest : List String)
    → IsSingle f
    → non_empty (join_slash (number_words f) ∷ rest) ≡ number_words f ++ non_empty rest
unfolding non_empty join_slash coerce_to_array to_morpheus_number
write-number undefined rest h = refl
write-number (single singular) rest h = refl
write-number (single plural) rest h = refl
write-number (multiple as') rest h = elim h [ ]

pub read-number :
    (f : DataField LatinNumber) (c : DataField LatinCase) (g : DataField LatinGender)
    (p : DataField LatinPerson) (v : DataField LatinVoice) (m : DataField LatinMood)
    (t : DataField LatinTense) (d : DataField LatinDegree)
    → IsSingle f
    → read_tags (state c undefined g p v m t d) (number_words f) ≡ ok (state c f g p v m t d)
unfolding read_tags read_tag coerce_to_array to_morpheus_number
read-number undefined c g p v m t d h = refl
read-number (single singular) c g p v m t d h = refl
read-number (single plural) c g p v m t d h = refl
read-number (multiple as') c g p v m t d h = elim h [ ]
