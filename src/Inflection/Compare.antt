-- ===== src/Inflection/Compare.antt =====
-- `compareGrammaticalData` of src/morceus/inflection_data_utils.ts, as an order by inclusion.
use morcus_net.Prelude.{
  ℕ, ◌+◌, ◌≡◌, ◌↔◌, ◌⊎◌, inl, inr, refl, arith, Option, none, some, List, [], ◌∷◌, map, Bool, true,
  false, not, ◌==◌, ◌&&◌, ◌||◌, if◌then◌else◌, Bool-cases, all,
}
use morcus_net.Inflection.Types.{
  Enum, same, same_iff, DataField, WordInflectionData, case_enum, degree_enum, gender_enum,
  mood_enum, number_enum, person_enum, tense_enum, voice_enum,
}
use morcus_net.Inflection.Fields.{
  coerce_to_array, includes, subset_list, subset_of, Comparison, less, equal, more, by_inclusion,
  compare_field,
}

abbrev is_comparison : Option Comparison → Option Comparison → Bool
is_comparison none none = true
is_comparison (some less) (some less) = true
is_comparison (some equal) (some equal) = true
is_comparison (some more) (some more) = true
is_comparison _ _ = false

-- `comparisons.has(c)`, for the set of the values in the list.
has : List (Option Comparison) → Option Comparison → Bool
has [] c = false
has (d ∷ ds) c = is_comparison d c || has ds c

abbrev one_if : Bool → ℕ
one_if b = if b then 1 else 0

-- `comparisons.size`: a set can hold four different values.
set_size : List (Option Comparison) → ℕ
set_size cs =
    one_if (has cs none)
    + one_if (has cs (some less))
    + one_if (has cs (some equal))
    + one_if (has cs (some more))

-- The statements behind the construction of the set.
combine : List (Option Comparison) → Option Comparison
combine cs =
    if has cs none
    then none
    else if has cs (some more) && has cs (some less)
    then none
    else if has cs (some equal) && set_size cs == 1
    then some equal
    else if has cs (some less)
    then some less
    else some more

comparisons : WordInflectionData → WordInflectionData → List (Option Comparison)
comparisons a b =
    compare_field a.case b.case
    ∷ compare_field a.degree b.degree
    ∷ compare_field a.gender b.gender
    ∷ compare_field a.mood b.mood
    ∷ compare_field a.number b.number
    ∷ compare_field a.person b.person
    ∷ compare_field a.tense b.tense
    ∷ compare_field a.voice b.voice
    ∷ []

-- `compareGrammaticalData`.
pub compare_grammatical_data : WordInflectionData → WordInflectionData → Option Comparison
compare_grammatical_data a b = combine (comparisons a b)

-- Every value of the first field is a value of the second.
abbrev pub Within : {A : Type 0} ⦃e : Enum A⦄ → DataField A → DataField A → Type 0
Within {A} f g =
    (a : A) → includes (coerce_to_array f) a ≡ true → includes (coerce_to_array g) a ≡ true

pub record IsPart (a b : WordInflectionData) : Type 0 where
  pub case : Within a.case b.case
  pub degree : Within a.degree b.degree
  pub gender : Within a.gender b.gender
  pub mood : Within a.mood b.mood
  pub number : Within a.number b.number
  pub person : Within a.person b.person
  pub tense : Within a.tense b.tense
  pub voice : Within a.voice b.voice

module _ {A : Type 0} ⦃e : Enum A⦄ where
  subset_list_sound :
      (xs ys : List A)
      → subset_list xs ys ≡ true
      → (a : A) → includes xs a ≡ true
      → includes ys a ≡ true
  unfolding subset_list includes
  subset_list_sound [] ys h a m = cc
  subset_list_sound (x ∷ xs) ys h a m = elim (Bool-cases (same x a)) [
    | inl here ↦ let x_is_a : x ≡ a = (same_iff x a).0 here in rw (← x_is_a) (ground arith)
    | inr other ↦ subset_list_sound xs ys (ground arith) a (ground arith)
  ]

  subset_list_complete :
      (xs ys : List A)
      → ((a : A) → includes xs a ≡ true → includes ys a ≡ true)
      → subset_list xs ys ≡ true
  unfolding subset_list includes
  subset_list_complete [] ys h = refl
  subset_list_complete (x ∷ xs) ys h =
      let here : includes ys x ≡ true = h x (rw ((same_iff x x).1 refl)) in
      rw here (subset_list_complete xs ys (λ a m. h a (ground arith)))

  -- `subsetOf` decides the inclusion.
  pub subset_of_iff : (f g : DataField A) → (subset_of f g ≡ true) ↔ Within f g
  unfolding subset_of
  subset_of_iff f g = (subset_list_sound _ _, subset_list_complete _ _)

-- Whether the inclusions hold on every field, in the order of the comparisons.
subset_data : WordInflectionData → WordInflectionData → Bool
subset_data a b =
    subset_of a.case b.case
    && (subset_of a.degree b.degree
        && (subset_of a.gender b.gender
            && (subset_of a.mood b.mood
                && (subset_of a.number b.number
                    && (subset_of a.person b.person
                        && (subset_of a.tense b.tense && (subset_of a.voice b.voice && true)))))))

subset_data_iff : (a b : WordInflectionData) → (subset_data a b ≡ true) ↔ IsPart a b
unfolding subset_data
subset_data_iff a b = (
  λ h. record {
    case = (subset_of_iff a.case b.case).0 (ground arith);
    degree = (subset_of_iff a.degree b.degree).0 (ground arith);
    gender = (subset_of_iff a.gender b.gender).0 (ground arith);
    mood = (subset_of_iff a.mood b.mood).0 (ground arith);
    number = (subset_of_iff a.number b.number).0 (ground arith);
    person = (subset_of_iff a.person b.person).0 (ground arith);
    tense = (subset_of_iff a.tense b.tense).0 (ground arith);
    voice = (subset_of_iff a.voice b.voice).0 (ground arith);
  },
  λ p. rw (
    (subset_of_iff a.case b.case).1 p.case,
    (subset_of_iff a.degree b.degree).1 p.degree,
    (subset_of_iff a.gender b.gender).1 p.gender,
    (subset_of_iff a.mood b.mood).1 p.mood,
    (subset_of_iff a.number b.number).1 p.number,
    (subset_of_iff a.person b.person).1 p.person,
    (subset_of_iff a.tense b.tense).1 p.tense,
    (subset_of_iff a.voice b.voice).1 p.voice,
  ),
)

-- The set of the comparisons of a list of inclusions in both directions.
abbrev of_inclusions : List (Bool × Bool) → List (Option Comparison)
of_inclusions = map (λ p. by_inclusion p.0 p.1)

all_subsets :
    (ps : List (Bool × Bool))
    → all (λ p. p.0) ps ≡ not (has (of_inclusions ps) none || has (of_inclusions ps) (some more))
unfolding has
all_subsets [] = refl
all_subsets ((s, t) ∷ ps) = ground (arith, all_subsets ps)

all_supersets :
    (ps : List (Bool × Bool))
    → all (λ p. p.1) ps ≡ not (has (of_inclusions ps) none || has (of_inclusions ps) (some less))
unfolding has
all_supersets [] = refl
all_supersets ((s, t) ∷ ps) = ground (arith, all_supersets ps)

some_comparison :
    (p : Bool × Bool) (ps : List (Bool × Bool))
    → let cs = of_inclusions (p ∷ ps) in
      (has cs none || has cs (some less) || has cs (some equal) || has cs (some more)) ≡ true
unfolding has
some_comparison p ps = ground arith

combine-of_inclusions :
    (p : Bool × Bool) (ps : List (Bool × Bool))
    → combine (of_inclusions (p ∷ ps))
      ≡ by_inclusion (all (λ q. q.0) (p ∷ ps)) (all (λ q. q.1) (p ∷ ps))
unfolding combine set_size
combine-of_inclusions p ps =
    rw (all_subsets (p ∷ ps), all_supersets (p ∷ ps)) (ground (arith, some_comparison p ps))

-- The inclusions for the fields behind the first.
abbrev inclusions : WordInflectionData → WordInflectionData → List (Bool × Bool)
inclusions a b =
    (subset_of a.degree b.degree, subset_of b.degree a.degree)
    ∷ (subset_of a.gender b.gender, subset_of b.gender a.gender)
    ∷ (subset_of a.mood b.mood, subset_of b.mood a.mood)
    ∷ (subset_of a.number b.number, subset_of b.number a.number)
    ∷ (subset_of a.person b.person, subset_of b.person a.person)
    ∷ (subset_of a.tense b.tense, subset_of b.tense a.tense)
    ∷ (subset_of a.voice b.voice, subset_of b.voice a.voice)
    ∷ []

compare-by_inclusion :
    (a b : WordInflectionData)
    → compare_grammatical_data a b ≡ by_inclusion (subset_data a b) (subset_data b a)
unfolding compare_grammatical_data comparisons compare_field subset_data
compare-by_inclusion a b =
    combine-of_inclusions (subset_of a.case b.case, subset_of b.case a.case) (inclusions a b)

-- What the result of a comparison says.
abbrev pub Says : WordInflectionData → WordInflectionData → Option Comparison → Type 0
Says a b (some equal) = IsPart a b × IsPart b a
Says a b (some less) = IsPart a b × ¬ IsPart b a
Says a b (some more) = ¬ IsPart a b × IsPart b a
Says a b none = ¬ IsPart a b × ¬ IsPart b a

decided : {P : Type 0} (b : Bool) → (b ≡ true) ↔ P → ((b ≡ true) × P) ⊎ ((b ≡ false) × ¬ P)
decided true e = inl (refl, e.0 refl)
decided false e = inr (refl, λ p. cc (e.1 p))

-- The comparison is 0 exactly when the two hold the same values in all eight fields, -1 when the
-- values of the first are part of those of the second and not the other way round, 1 when it is the
-- other way round, and `undefined` when neither holds a part of the other.
pub compare_grammatical_data-Says :
    (a b : WordInflectionData) → Says a b (compare_grammatical_data a b)
compare_grammatical_data-Says a b =
    rw (compare-by_inclusion a b) (elim (decided (subset_data a b) (subset_data_iff a b)) [
      | inl (e, p) ↦ elim (decided (subset_data b a) (subset_data_iff b a)) [
        | inl (f, q) ↦ rw (e, f) (p, q)
        | inr (f, q) ↦ rw (e, f) (p, q)
      ]
      | inr (e, p) ↦ elim (decided (subset_data b a) (subset_data_iff b a)) [
        | inl (f, q) ↦ rw (e, f) (p, q)
        | inr (f, q) ↦ rw (e, f) (p, q)
      ]
    ])
