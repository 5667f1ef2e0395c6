-- ===== src/Inflection/Words/RoundTrip.antt =====
-- What is written as tags is read back.
use morcus_net.Prelude.{
  ◌≡◌, ◌≢◌, refl, none, List, [], ◌∷◌, ◌++◌, map, true, Result, ok, err, ◌>>=◌, String,
}
use morcus_net.Inflection.Types.{
  DataField, undefined, single, multiple, WordInflectionData, locative, LatinDegree, positive,
  comparative, superlative,
}
use morcus_net.Inflection.Fields.{coerce_to_array}
use morcus_net.Inflection.Tags.{Tagging, no_tags, TagError, read_tag, read_tags, to_inflection_data}
use morcus_net.Inflection.Words.{
  to_morpheus_degree, non_empty, num_undefined, degrees_ok, word_inflection_data_to_array,
}
use morcus_net.Inflection.Words.OneField.{
  IsSingle, tense_words, mood_words, voice_words, person_words, gender_words, case_words,
  degree_words, number_words, write-tense, write-mood, write-voice, write-person, write-gender,
  write-case, write-degree, write-number, read-tense, read-mood, read-voice, read-person,
  read-gender, read-case, read-degree, read-number,
}

-- Data that the tags can express: one value for a field, no locative, and no explicit positive.
pub record IsPlain (d : WordInflectionData) : Type 0 where
  pub case : IsSingle d.case × (d.case ≢ single locative)
  pub number : IsSingle d.number
  pub gender : IsSingle d.gender
  pub person : IsSingle d.person
  pub voice : IsSingle d.voice
  pub mood : IsSingle d.mood
  pub tense : IsSingle d.tense
  pub degree : IsSingle d.degree × (d.degree ≢ single positive)

read_tags-append :
    (s : Tagging) (xs ys : List String)
    → read_tags s (xs ++ ys) ≡ (read_tags s xs >>= λ t. read_tags t ys)
unfolding read_tags
read_tags-append s [] ys = refl
read_tags-append s (x ∷ xs) ys = after (read_tag s x) (λ t. read_tags-append t xs ys)
  where
    after :
        (r : Result TagError Tagging)
        → ((t : Tagging) → read_tags t (xs ++ ys) ≡ (read_tags t xs >>= λ u. read_tags u ys))
        → (r >>= λ t. read_tags t (xs ++ ys))
          ≡ ((r >>= λ t. read_tags t xs) >>= λ u. read_tags u ys)
    after (ok t) ih = ih t
    after (err e) ih = refl

degrees-ok :
    (f : DataField LatinDegree)
    → IsSingle f × (f ≢ single positive)
    → degrees_ok (map to_morpheus_degree (coerce_to_array f)) ≡ true
unfolding degrees_ok num_undefined coerce_to_array to_morpheus_degree
degrees-ok undefined h = refl
degrees-ok (single comparative) h = refl
degrees-ok (single superlative) h = refl
degrees-ok (single positive) h = absurd (h.1 refl)
degrees-ok (multiple as') h = elim h.0 [ ]

-- The words of plain data, field after field.
all_words : WordInflectionData → List String
all_words d =
    tense_words d.tense
    ++ (mood_words d.mood
        ++ (voice_words d.voice
            ++ (person_words d.person
                ++ (gender_words d.gender
                    ++ (case_words d.case
                        ++ (degree_words d.degree ++ (number_words d.number ++ [])))))))

words-all_words :
    (d : WordInflectionData) → IsPlain d → word_inflection_data_to_array d ≡ ok (all_words d)
unfolding word_inflection_data_to_array all_words
words-all_words d h =
    rw
      (
        degrees-ok d.degree h.degree,
        write-tense d.tense _ h.tense,
        write-mood d.mood _ h.mood,
        write-voice d.voice _ h.voice,
        write-person d.person _ h.person,
        write-gender d.gender _ h.gender,
        write-case d.case _ h.case,
        write-degree d.degree _ h.degree,
        write-number d.number _ h.number,
      )
      (unfold non_empty in refl)

-- The words of one field, and then those of the fields behind it.
read_next :
    (s t : Tagging) (xs ys : List String) {r : Result TagError Tagging}
    → read_tags s xs ≡ ok t
    → read_tags t ys ≡ r
    → read_tags s (xs ++ ys) ≡ r
read_next s t xs ys e f = rw (read_tags-append s xs ys, e) f

read-all_words :
    (d : WordInflectionData)
    → IsPlain d
    → read_tags no_tags (all_words d) ≡ ok (record { result = d; tags = []; internal = [] })
unfolding all_words
read-all_words d h =
    read_next _ _ (tense_words d.tense) _
      (read-tense d.tense undefined undefined undefined undefined undefined undefined undefined
        h.tense)
      (read_next _ _ (mood_words d.mood) _
        (read-mood d.mood undefined undefined undefined undefined undefined d.tense undefined
          h.mood)
        (read_next _ _ (voice_words d.voice) _
          (read-voice d.voice undefined undefined undefined undefined d.mood d.tense undefined
            h.voice)
          (read_next _ _ (person_words d.person) _
            (read-person d.person undefined undefined undefined d.voice d.mood d.tense undefined
              h.person)
            (read_next _ _ (gender_words d.gender) _
              (read-gender d.gender undefined undefined d.person d.voice d.mood d.tense undefined
                h.gender)
              (read_next _ _ (case_words d.case) _
                (read-case d.case undefined d.gender d.person d.voice d.mood d.tense undefined
                  h.case)
                (read_next _ _ (degree_words d.degree) _
                  (read-degree d.degree d.case undefined d.gender d.person d.voice d.mood d.tense
                    h.degree)
                  (read_next _ _ (number_words d.number) []
                    (read-number d.number d.case d.gender d.person d.voice d.mood d.tense d.degree
                      h.number)
                    (unfold read_tags in refl))))))))

-- Data with at most one value in each field, no locative and no explicit positive degree is written
-- as tags without an error, and `toInflectionData` reads those tags as the same data, with no other tags.
pub to_inflection_data-words :
    (d : WordInflectionData)
    → IsPlain d
    → (words : List String) × (word_inflection_data_to_array d ≡ ok words)
      × (to_inflection_data words
          ≡ ok (record { grammatical_data = d; tags = none; internal_tags = none }))
unfolding to_inflection_data
to_inflection_data-words d h = (all_words d, words-all_words d h, rw (read-all_words d h))
