-- ===== src/Inflection/Tests.antt =====
-- Runs of the functions of src/morceus/inflection_data_utils.ts on small inputs.
use morcus_net.Prelude.{ℕ, ◌<◌, ◌≡◌, List, [], ◌∷◌, ok, none, some, String}
use morcus_net.Inflection.Types.{
  single, multiple, WordInflectionData, no_data, nominative, accusative, feminine, singular, plural,
  comparative, third, indicative, active, present,
}
use morcus_net.Inflection.Compare.{compare_grammatical_data, Says, compare_grammatical_data-Says}
use morcus_net.Inflection.Merge.{merge_inflection_data, DataMerge, merge_inflection_data-DataMerge}
use morcus_net.Inflection.Tags.{to_inflection_data}
use morcus_net.Inflection.Words.{word_inflection_data_to_array}
use morcus_net.Inflection.Words.RoundTrip.{IsPlain, to_inflection_data-words}
use morcus_net.Inflection.Packed.{pack_word_inflection_data, unpack_word_inflection_data}
use morcus_net.Inflection.Packed.RoundTrip.{
  IsPackable, normal_form, unpack_word_inflection_data-pack,
}

abbrev noun : WordInflectionData
noun = record no_data {
  case = multiple (accusative ∷ nominative ∷ []);
  gender = single feminine;
  number = single singular;
}

abbrev verb : WordInflectionData
verb = record no_data {
  person = single third;
  number = single plural;
  mood = single indicative;
  voice = single active;
  tense = single present;
  degree = single comparative;
}

noun-IsPackable : IsPackable noun
noun-IsPackable = record {
  number = tt;
  person = tt;
  voice = tt;
  degree = tt;
  tense = tt;
  mood = tt;
}

verb-IsPlain : IsPlain verb
verb-IsPlain = record {
  case = (tt, λ p. cc);
  number = tt;
  gender = tt;
  person = tt;
  voice = tt;
  mood = tt;
  tense = tt;
  degree = (tt, λ p. cc);
}

unpack_word_inflection_data-pack_example :
    (packed : ℕ) × (pack_word_inflection_data noun ≡ ok packed)
    × (packed < 4294967296)
    × (unpack_word_inflection_data packed ≡ some (normal_form noun))
unpack_word_inflection_data-pack_example = unpack_word_inflection_data-pack noun noun-IsPackable

to_inflection_data-words_example :
    (words : List String) × (word_inflection_data_to_array verb ≡ ok words)
    × (to_inflection_data words
        ≡ ok (record { grammatical_data = verb; tags = none; internal_tags = none }))
to_inflection_data-words_example = to_inflection_data-words verb verb-IsPlain

compare_grammatical_data-Says_example : Says noun no_data (compare_grammatical_data noun no_data)
compare_grammatical_data-Says_example = compare_grammatical_data-Says noun no_data

merge_inflection_data-DataMerge_example : DataMerge noun verb (merge_inflection_data noun verb)
merge_inflection_data-DataMerge_example = merge_inflection_data-DataMerge noun verb
