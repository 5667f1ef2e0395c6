-- ===== src/Crunch/Endings/Fits.antt =====
-- When a stem and an ending fit, and what they give.
use morcus_net.Prelude.{◌≡◌, ◌≢◌, ◌⊎◌, Option, none, some, true, ◌||◌, String}
use morcus_net.Inflection.Types.{
  undefined, single, WordInflectionData, future, participle, positive, case_enum, number_enum,
  gender_enum, person_enum, voice_enum, mood_enum, tense_enum, degree_enum,
}
use morcus_net.Inflection.Compare.{Within}
use morcus_net.Inflection.Tags.{InflectionContext, is_member}
use morcus_net.Crunch.Endings.{or_empty, or_field, any_gender}

-- Each field of the stem allows only what the ending allows: an ending without a degree is positive,
-- and one without a gender has any.
pub record FieldsFit (stem end : WordInflectionData) : Type 0 where
  pub case : Within stem.case end.case
  pub degree : Within stem.degree (or_field end.degree (single positive))
  pub gender : Within stem.gender (or_field end.gender any_gender)
  pub mood : Within stem.mood end.mood
  pub number : Within stem.number end.number
  pub person : Within stem.person end.person
  pub tense : Within stem.tense end.tense
  pub voice : Within stem.voice end.voice

-- A tag of the stem or of the ending.
abbrev pub IsTagged : InflectionContext → InflectionContext → String → Type 0
IsTagged s e t =
    (is_member (or_empty s.internal_tags) t ≡ true)
    ⊎ (is_member (or_empty e.internal_tags) t ≡ true)

-- Why a stem and an ending are refused.
pub data Refused (s e : InflectionContext) : Type 0 where
  compound_only : IsTagged s e "comp_only" → Refused s e
  unfit : ¬ FieldsFit s.grammatical_data e.grammatical_data → Refused s e
  no_future : IsTagged s e "no_fut" → e.grammatical_data.tense ≡ single future → Refused s e
  no_future_participle :
      IsTagged s e "no_fut_part"
      → e.grammatical_data.tense ≡ single future
      → e.grammatical_data.mood ≡ single participle
      → Refused s e

-- What a merge has: the fields of the ending, with the case and the gender narrowed to those of the
-- stem, and the tags of both.
pub record Merges (s e r : InflectionContext) : Type 0 where
  pub accepted : ¬ Refused s e
  pub case_of_end : Within r.grammatical_data.case e.grammatical_data.case
  pub case_of_stem :
      s.grammatical_data.case ≢ undefined → r.grammatical_data.case ≡ s.grammatical_data.case
  pub gender_of_end :
      Within r.grammatical_data.gender (or_field e.grammatical_data.gender any_gender)
  pub gender_of_stem :
      s.grammatical_data.gender ≢ undefined → r.grammatical_data.gender ≡ s.grammatical_data.gender
  pub others : r.grammatical_data ≡ record e.grammatical_data {
    case = r.grammatical_data.case;
    gender = r.grammatical_data.gender;
  }
  pub tags_of_both :
      (t : String)
      → is_member (or_empty r.tags) t
        ≡ (is_member (or_empty s.tags) t || is_member (or_empty e.tags) t)
  pub internal_of_both :
      (t : String)
      → is_member (or_empty r.internal_tags) t
        ≡ (is_member (or_empty s.internal_tags) t || is_member (or_empty e.internal_tags) t)

abbrev pub MergeSays : InflectionContext → InflectionContext → Option InflectionContext → Type 0
MergeSays s e none = Refused s e
MergeSays s e (some r) = Merges s e r
