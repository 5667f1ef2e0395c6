-- ===== src/Inflection/Types.antt =====
-- The enums of src/morceus/types.ts, with their numbers, and the record of a word's data.
use morcus_net.Prelude.{
  ℕ, ◌≡◌, ◌↔◌, refl, sym, ap, ◌∙◌, Option, none, some, List, [], ◌∷◌, Bool, true, ◌==◌, ==_iff,
  if◌then◌else◌,
}

-- A TypeScript enum: each member has a number.
pub record Enum (A : Type 0) : Type 0 where
  pub value : A → ℕ
  pub of_value : ℕ → Option A
  pub of_value-value : (a : A) → of_value (value a) ≡ some a

pub data LatinCase : Type 0 where
  nominative accusative dative genitive ablative vocative locative : LatinCase

pub data LatinNumber : Type 0 where
  singular plural : LatinNumber

pub data LatinGender : Type 0 where
  masculine feminine neuter adverbial : LatinGender

pub data LatinPerson : Type 0 where
  first second third : LatinPerson

pub data LatinMood : Type 0 where
  indicative imperative subjunctive participle gerundive infinitive supine : LatinMood

pub data LatinVoice : Type 0 where
  active passive : LatinVoice

pub data LatinTense : Type 0 where
  present imperfect perfect future_perfect future pluperfect : LatinTense

pub data LatinDegree : Type 0 where
  positive comparative superlative : LatinDegree

-- A number is the number of at most one member: the first in the list that has it.
abbrev find_value : {A : Type 0} → (A → ℕ) → List A → ℕ → Option A
find_value value [] n = none
find_value value (a ∷ as') n = if value a == n then some a else find_value value as' n

abbrev case_value : LatinCase → ℕ
case_value nominative = 1
case_value accusative = 2
case_value dative = 3
case_value genitive = 4
case_value ablative = 5
case_value vocative = 6
case_value locative = 7

abbrev pub all_cases : List LatinCase
all_cases = nominative ∷ accusative ∷ dative ∷ genitive ∷ ablative ∷ vocative ∷ locative ∷ []

pub of_value-case : (c : LatinCase) → find_value case_value all_cases (case_value c) ≡ some c
of_value-case nominative = refl
of_value-case accusative = refl
of_value-case dative = refl
of_value-case genitive = refl
of_value-case ablative = refl
of_value-case vocative = refl
of_value-case locative = refl

instance abbrev pub case_enum : Enum LatinCase
case_enum = record {
  value = case_value;
  of_value = find_value case_value all_cases;
  of_value-value = of_value-case;
}

abbrev number_value : LatinNumber → ℕ
number_value singular = 1
number_value plural = 2

pub of_value-number :
    (n : LatinNumber) → find_value number_value (singular ∷ plural ∷ []) (number_value n) ≡ some n
of_value-number singular = refl
of_value-number plural = refl

instance abbrev pub number_enum : Enum LatinNumber
number_enum = record {
  value = number_value;
  of_value = find_value number_value (singular ∷ plural ∷ []);
  of_value-value = of_value-number;
}

abbrev gender_value : LatinGender → ℕ
gender_value masculine = 1
gender_value feminine = 2
gender_value neuter = 3
gender_value adverbial = 4

abbrev pub all_genders : List LatinGender
all_genders = masculine ∷ feminine ∷ neuter ∷ adverbial ∷ []

pub of_value-gender :
    (g : LatinGender) → find_value gender_value all_genders (gender_value g) ≡ some g
of_value-gender masculine = refl
of_value-gender feminine = refl
of_value-gender neuter = refl
of_value-gender adverbial = refl

instance abbrev pub gender_enum : Enum LatinGender
gender_enum = record {
  value = gender_value;
  of_value = find_value gender_value all_genders;
  of_value-value = of_value-gender;
}

abbrev person_value : LatinPerson → ℕ
person_value first = 1
person_value second = 2
person_value third = 3

pub of_value-person :
    (p : LatinPerson)
    → find_value person_value (first ∷ second ∷ third ∷ []) (person_value p) ≡ some p
of_value-person first = refl
of_value-person second = refl
of_value-person third = refl

instance abbrev pub person_enum : Enum LatinPerson
person_enum = record {
  value = person_value;
  of_value = find_value person_value (first ∷ second ∷ third ∷ []);
  of_value-value = of_value-person;
}

abbrev mood_value : LatinMood → ℕ
mood_value indicative = 1
mood_value imperative = 2
mood_value subjunctive = 3
mood_value participle = 4
mood_value gerundive = 5
mood_value infinitive = 6
mood_value supine = 7

abbrev all_moods : List LatinMood
all_moods =
    indicative ∷ imperative ∷ subjunctive ∷ participle ∷ gerundive ∷ infinitive ∷ supine ∷ []

pub of_value-mood : (m : LatinMood) → find_value mood_value all_moods (mood_value m) ≡ some m
of_value-mood indicative = refl
of_value-mood imperative = refl
of_value-mood subjunctive = refl
of_value-mood participle = refl
of_value-mood gerundive = refl
of_value-mood infinitive = refl
of_value-mood supine = refl

instance abbrev pub mood_enum : Enum LatinMood
mood_enum = record {
  value = mood_value;
  of_value = find_value mood_value all_moods;
  of_value-value = of_value-mood;
}

abbrev voice_value : LatinVoice → ℕ
voice_value active = 1
voice_value passive = 2

pub of_value-voice :
    (v : LatinVoice) → find_value voice_value (active ∷ passive ∷ []) (voice_value v) ≡ some v
of_value-voice active = refl
of_value-voice passive = refl

instance abbrev pub voice_enum : Enum LatinVoice
voice_enum = record {
  value = voice_value;
  of_value = find_value voice_value (active ∷ passive ∷ []);
  of_value-value = of_value-voice;
}

abbrev tense_value : LatinTense → ℕ
tense_value present = 1
tense_value imperfect = 2
tense_value perfect = 3
tense_value future_perfect = 4
tense_value future = 5
tense_value pluperfect = 6

abbrev all_tenses : List LatinTense
all_tenses = present ∷ imperfect ∷ perfect ∷ future_perfect ∷ future ∷ pluperfect ∷ []

pub of_value-tense : (t : LatinTense) → find_value tense_value all_tenses (tense_value t) ≡ some t
of_value-tense present = refl
of_value-tense imperfect = refl
of_value-tense perfect = refl
of_value-tense future_perfect = refl
of_value-tense future = refl
of_value-tense pluperfect = refl

instance abbrev pub tense_enum : Enum LatinTense
tense_enum = record {
  value = tense_value;
  of_value = find_value tense_value all_tenses;
  of_value-value = of_value-tense;
}

abbrev degree_value : LatinDegree → ℕ
degree_value positive = 1
degree_value comparative = 2
degree_value superlative = 3

pub of_value-degree :
    (d : LatinDegree)
    → find_value degree_value (positive ∷ comparative ∷ superlative ∷ []) (degree_value d) ≡ some d
of_value-degree positive = refl
of_value-degree comparative = refl
of_value-degree superlative = refl

instance abbrev pub degree_enum : Enum LatinDegree
degree_enum = record {
  value = degree_value;
  of_value = find_value degree_value (positive ∷ comparative ∷ superlative ∷ []);
  of_value-value = of_value-degree;
}

-- `DataField<T>`: `T | T[] | undefined`.
pub data DataField (A : Type 0) : Type 0 where
  undefined : DataField A
  single : A → DataField A
  multiple : List A → DataField A

pub record WordInflectionData : Type 0 where
  pub case : DataField LatinCase
  pub number : DataField LatinNumber
  pub gender : DataField LatinGender
  pub person : DataField LatinPerson
  pub voice : DataField LatinVoice
  pub mood : DataField LatinMood
  pub tense : DataField LatinTense
  pub degree : DataField LatinDegree

-- `{}`.
abbrev pub no_data : WordInflectionData
no_data = record {
  case = undefined;
  number = undefined;
  gender = undefined;
  person = undefined;
  voice = undefined;
  mood = undefined;
  tense = undefined;
  degree = undefined;
}

module _ {A : Type 0} ⦃e : Enum A⦄ where
  -- `===` on members.
  abbrev pub same : A → A → Bool
  same a b = e.value a == e.value b

  some-eq : {a b : A} → ◌≡◌ {A = Option A} (some a) (some b) → a ≡ b
  some-eq p = cc

  pub same_iff : (a b : A) → (same a b ≡ true) ↔ (a ≡ b)
  same_iff a b = (
    (λ h.
        some-eq (sym (e.of_value-value a) ∙ ap e.of_value ((==_iff _ _).0 h) ∙ e.of_value-value b)),
    (λ p. (==_iff _ _).1 (ap e.value p)),
  )
