-- ===== src/Crunch/Endings.antt =====
-- Whether a stem and an ending fit: `mergeIfCompatible` of src/morceus/crunch.ts, and `expandSingleEnding`
-- of src/morceus/tables/template_utils_no_fs.ts.
pub mod Fits
use morcus_net.Prelude.{
  Option, none, some, List, [], ◌∷◌, ◌++◌, Bool, true, false, not, ◌&&◌, ◌||◌, if◌then◌else◌,
  String, str_eq, Text,
}
use morcus_net.Crunch.Types.{InflectionEnding}
use morcus_net.Inflection.Types.{
  DataField, undefined, single, multiple, WordInflectionData, feminine, masculine, neuter,
  all_genders, LatinGender, LatinDegree, positive, LatinTense, future, LatinMood, participle, Enum,
  same, case_enum, number_enum, gender_enum, person_enum, voice_enum, mood_enum, tense_enum,
  degree_enum,
}
use morcus_net.Inflection.Fields.{subset_of}
use morcus_net.Inflection.Tags.{InflectionContext, is_member, none_if_empty}
use morcus_net.Inflection.Merge.{merge_inflection_data}

-- `tags || []`.
abbrev pub or_empty : Option (List String) → List String
or_empty none = []
or_empty (some ts) = ts

-- `[...new Set(tags)]`, behind the tags that are there: each tag where it first stands.
pub add_to_set : List String → List String → List String
add_to_set seen [] = seen
add_to_set seen (t ∷ ts) = add_to_set (if is_member seen t then seen else seen ++ (t ∷ [])) ts

pub to_set : List String → List String
unfolding add_to_set
to_set ts = add_to_set [] ts

-- `a ?? b`.
abbrev pub or_field : {A : Type 0} → DataField A → DataField A → DataField A
or_field undefined g = g
or_field (single a) g = single a
or_field (multiple as') g = multiple as'

-- `field === value`.
abbrev pub is_value : {A : Type 0} ⦃e : Enum A⦄ → DataField A → A → Bool
is_value undefined a = false
is_value (single b) a = same b a
is_value (multiple bs) a = false

abbrev pub any_gender : DataField LatinGender
any_gender = multiple (feminine ∷ masculine ∷ neuter ∷ [])

-- The conditions on the fields of a stem and an ending.
unfoldable pub fields_fit : WordInflectionData → WordInflectionData → Bool
fields_fit stem end =
    subset_of stem.case end.case
    && subset_of stem.degree (or_field end.degree (single positive))
    && subset_of stem.gender (or_field end.gender any_gender)
    && subset_of stem.mood end.mood
    && subset_of stem.number end.number
    && subset_of stem.person end.person
    && subset_of stem.tense end.tense
    && subset_of stem.voice end.voice

-- `resultData`: the ending's data, with the case and the gender of the stem where it has them.
abbrev pub result_data : WordInflectionData → WordInflectionData → WordInflectionData
result_data stem end = record end {
  case = or_field stem.case end.case;
  gender = or_field stem.gender end.gender;
}

-- The conditions on the internal tags.
unfoldable pub is_barred : List String → WordInflectionData → Bool
is_barred internal data_of =
    (is_member internal "no_fut" && is_value data_of.tense future)
    || (is_member internal "no_fut_part"
        && is_value data_of.tense future
        && is_value data_of.mood participle)

abbrev merged_tags : Option (List String) → Option (List String) → Option (List String)
merged_tags none none = none
merged_tags s e = some (to_set (or_empty s ++ or_empty e))

abbrev pub both_internal : InflectionContext → InflectionContext → List String
both_internal stem ending = to_set (or_empty stem.internal_tags ++ or_empty ending.internal_tags)

abbrev merged_context : InflectionContext → InflectionContext → InflectionContext
merged_context stem ending = record {
  grammatical_data = result_data stem.grammatical_data ending.grammatical_data;
  tags = merged_tags stem.tags ending.tags;
  internal_tags = none_if_empty (both_internal stem ending);
}

-- `mergeIfCompatible`.
unfoldable pub merge_if_compatible :
    InflectionContext → InflectionContext → Option InflectionContext
merge_if_compatible stem ending =
    if is_member (both_internal stem ending) "comp_only"
    then none
    else if not (fields_fit stem.grammatical_data ending.grammatical_data)
    then none
    else if is_barred (both_internal stem ending)
        (result_data stem.grammatical_data ending.grammatical_data)
    then none
    else some (merged_context stem ending)

-- `mergeLists`.
abbrev pub merge_lists : Option (List String) → Option (List String) → Option (List String)
merge_lists first second = none_if_empty (to_set (or_empty first ++ or_empty second))

-- `expandSingleEnding`.
unfoldable pub expand_single_ending :
    Text → InflectionContext → InflectionEnding → Option InflectionEnding
expand_single_ending stem context ending =
    elim (merge_inflection_data ending.context.grammatical_data context.grammatical_data) [
      | none ↦ none
      | some merged ↦ some (record {
        ending = stem ++ ending.ending;
        context = record {
          grammatical_data = merged;
          tags = merge_lists ending.context.tags context.tags;
          internal_tags = merge_lists ending.context.internal_tags context.internal_tags;
        };
      })
    ]
