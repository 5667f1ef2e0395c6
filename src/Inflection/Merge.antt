-- ===== src/Inflection/Merge.antt =====
-- `mergeInflectionData` of src/morceus/inflection_data_utils.ts.
use morcus_net.Prelude.{
  ◌≡◌, ◌≢◌, ◌↔◌, ◌⊎◌, inl, inr, refl, subst, arith, Option, none, some, List, [], ◌∷◌, true, ◌&&◌,
  Bool-cases,
}
use morcus_net.Inflection.Types.{
  Enum, same, same_iff, DataField, undefined, single, multiple, WordInflectionData, case_enum,
  gender_enum, mood_enum, number_enum, person_enum, tense_enum, voice_enum, degree_enum,
}
use morcus_net.Inflection.Fields.{
  coerce_to_array, includes, intersection, Merged, null, merged, of_intersection, merge_compatible,
  merge_compatible_degree,
}

-- `if (x === null) return null`.
infixl 5 ◌>>=◌
abbrev ◌>>=◌ : {A B : Type 0} → Merged A → (DataField A → Option B) → Option B
null >>= f = none
merged x >>= f = f x

-- `mergeInflectionData`. `mergeCompatibleDegree` does not return `null`, so its test never fires.
pub merge_inflection_data : WordInflectionData → WordInflectionData → Option WordInflectionData
merge_inflection_data template modifier = do
  mood ← merge_compatible template.mood modifier.mood
  voice ← merge_compatible template.voice modifier.voice
  tense ← merge_compatible template.tense modifier.tense
  gender ← merge_compatible template.gender modifier.gender
  case ← merge_compatible template.case modifier.case
  person ← merge_compatible template.person modifier.person
  number ← merge_compatible template.number modifier.number
  some (record {
    case = case;
    number = number;
    gender = gender;
    person = person;
    voice = voice;
    mood = mood;
    tense = tense;
    degree = merge_compatible_degree template.degree modifier.degree;
  })

module _ {A : Type 0} ⦃e : Enum A⦄ where
  abbrev pub Holds : DataField A → A → Type 0
  Holds f a = includes (coerce_to_array f) a ≡ true

  -- `h` is what both fields allow: an absent field allows everything.
  abbrev pub Meet : DataField A → DataField A → DataField A → Type 0
  Meet undefined g h = h ≡ g
  Meet (single x) undefined h = h ≡ single x
  Meet (multiple xs) undefined h = h ≡ multiple xs
  Meet (single x) (single y) h =
      ((a : A) → Holds h a ↔ (Holds (single x) a × Holds (single y) a)) × ((a : A) × Holds h a)
  Meet (single x) (multiple ys) h =
      ((a : A) → Holds h a ↔ (Holds (single x) a × Holds (multiple ys) a)) × ((a : A) × Holds h a)
  Meet (multiple xs) (single y) h =
      ((a : A) → Holds h a ↔ (Holds (multiple xs) a × Holds (single y) a)) × ((a : A) × Holds h a)
  Meet (multiple xs) (multiple ys) h =
      ((a : A) → Holds h a ↔ (Holds (multiple xs) a × Holds (multiple ys) a))
      × ((a : A) × Holds h a)

  -- Both fields are present and have no value in common.
  abbrev pub Conflict : DataField A → DataField A → Type 0
  Conflict f g = (f ≢ undefined) × (g ≢ undefined) × ((a : A) → ¬ (Holds f a × Holds g a))

  includes-intersection :
      (xs ys : List A) (a : A) → includes (intersection xs ys) a ≡ (includes xs a && includes ys a)
  unfolding includes intersection
  includes-intersection [] ys a = refl
  includes-intersection (x ∷ xs) ys a = elim (Bool-cases (same x a)) [
    | inl here ↦
        let x_is_a : x ≡ a = (same_iff x a).0 here in
        rw (← x_is_a) (ground (arith, includes-intersection xs ys x, (same_iff x x).1 refl))
    | inr other ↦ ground (arith, includes-intersection xs ys a)
  ]

  abbrev MergeOf : List A → List A → Merged A → Type 0
  MergeOf xs ys null = (a : A) → ¬ ((includes xs a ≡ true) × (includes ys a ≡ true))
  MergeOf xs ys (merged h) =
      ((a : A) → Holds h a ↔ ((includes xs a ≡ true) × (includes ys a ≡ true)))
      × ((a : A) × Holds h a)

  includes_head : (x : A) (xs : List A) → includes (x ∷ xs) x ≡ true
  unfolding includes
  includes_head x xs = rw ((same_iff x x).1 refl)

  of_intersection-MergeOf :
      (xs ys zs : List A)
      → ((a : A) → includes zs a ≡ (includes xs a && includes ys a))
      → MergeOf xs ys (of_intersection zs)
  unfolding coerce_to_array
  of_intersection-MergeOf xs ys [] h = λ a (m, n). unfold includes in cc (h a, m, n)
  of_intersection-MergeOf xs ys (z ∷ []) h = ((λ a. ground (arith, h a)), (z, includes_head z []))
  of_intersection-MergeOf xs ys (z ∷ w ∷ zs) h =
      ((λ a. ground (arith, h a)), (z, includes_head z (w ∷ zs)))

-- What the merge of two fields is, and when there is none.
abbrev pub FieldMerge : {A : Type 0} ⦃e : Enum A⦄ → DataField A → DataField A → Merged A → Type 0
FieldMerge f g null = Conflict f g
FieldMerge f g (merged h) = Meet f g h

module _ {A : Type 0} ⦃e : Enum A⦄ where
  present_fields :
      (f g : DataField A) (r : Merged A)
      → f ≢ undefined
      → g ≢ undefined
      → MergeOf (coerce_to_array f) (coerce_to_array g) r
      → FieldMerge f g r
  present_fields f g null nf ng h = (nf, ng, h)
  present_fields undefined g (merged k) nf ng h = absurd (nf refl)
  present_fields (single x) undefined (merged k) nf ng h = absurd (ng refl)
  present_fields (multiple xs) undefined (merged k) nf ng h = absurd (ng refl)
  present_fields (single x) (single y) (merged k) nf ng h = h
  present_fields (single x) (multiple ys) (merged k) nf ng h = h
  present_fields (multiple xs) (single y) (merged k) nf ng h = h
  present_fields (multiple xs) (multiple ys) (merged k) nf ng h = h

  intersect :
      (f g : DataField A)
      → f ≢ undefined
      → g ≢ undefined
      → FieldMerge f g (of_intersection (intersection (coerce_to_array f) (coerce_to_array g)))
  intersect f g nf ng = present_fields f g _ nf ng (
      of_intersection-MergeOf _ _ _ (includes-intersection (coerce_to_array f) (coerce_to_array g)))

  merge_compatible-FieldMerge : (f g : DataField A) → FieldMerge f g (merge_compatible f g)
  unfolding merge_compatible
  merge_compatible-FieldMerge undefined g = refl
  merge_compatible-FieldMerge (single x) undefined = refl
  merge_compatible-FieldMerge (multiple xs) undefined = refl
  merge_compatible-FieldMerge (single x) (single y) =
      intersect (single x) (single y) (λ p. cc) (λ p. cc)
  merge_compatible-FieldMerge (single x) (multiple ys) =
      intersect (single x) (multiple ys) (λ p. cc) (λ p. cc)
  merge_compatible-FieldMerge (multiple xs) (single y) =
      intersect (multiple xs) (single y) (λ p. cc) (λ p. cc)
  merge_compatible-FieldMerge (multiple xs) (multiple ys) =
      intersect (multiple xs) (multiple ys) (λ p. cc) (λ p. cc)

  Merged-cases : (r : Merged A) → (r ≡ null) ⊎ ((h : DataField A) × (r ≡ merged h))
  Merged-cases null = inl refl
  Merged-cases (merged h) = inr (h, refl)

  merge_cases :
      (f g : DataField A)
      → ((merge_compatible f g ≡ null) × Conflict f g)
        ⊎ ((h : DataField A) × (merge_compatible f g ≡ merged h) × Meet f g h)
  merge_cases f g = elim (Merged-cases (merge_compatible f g)) [
    | inl p ↦ inl (p, subst (FieldMerge f g) p (merge_compatible-FieldMerge f g))
    | inr (h, p) ↦ inr (h, p, subst (FieldMerge f g) p (merge_compatible-FieldMerge f g))
  ]

-- Some field other than the degree has no value that both sides allow.
pub data HasConflict (a b : WordInflectionData) : Type 0 where
  in_mood : Conflict a.mood b.mood → HasConflict a b
  in_voice : Conflict a.voice b.voice → HasConflict a b
  in_tense : Conflict a.tense b.tense → HasConflict a b
  in_gender : Conflict a.gender b.gender → HasConflict a b
  in_case : Conflict a.case b.case → HasConflict a b
  in_person : Conflict a.person b.person → HasConflict a b
  in_number : Conflict a.number b.number → HasConflict a b

pub record IsMeet (a b r : WordInflectionData) : Type 0 where
  pub mood : Meet a.mood b.mood r.mood
  pub voice : Meet a.voice b.voice r.voice
  pub tense : Meet a.tense b.tense r.tense
  pub gender : Meet a.gender b.gender r.gender
  pub case : Meet a.case b.case r.case
  pub person : Meet a.person b.person r.person
  pub number : Meet a.number b.number r.number
  pub degree : r.degree ≡ merge_compatible_degree a.degree b.degree

abbrev pub DataMerge : WordInflectionData → WordInflectionData → Option WordInflectionData → Type 0
DataMerge a b none = HasConflict a b
DataMerge a b (some r) = IsMeet a b r

-- A merge is `null` only if one of the seven fields other than the degree is present on both sides
-- with no value in common. Otherwise each of these fields of the result is the one that is present,
-- or where both are it holds exactly the values that both hold, at least one.
pub merge_inflection_data-DataMerge :
    (template modifier : WordInflectionData)
    → DataMerge template modifier (merge_inflection_data template modifier)
unfolding merge_inflection_data
merge_inflection_data-DataMerge a b = elim (merge_cases a.mood b.mood) [
  | inl (e, c) ↦ rw e (in_mood c)
  | inr (h1, e1, m1) ↦ rw e1 (elim (merge_cases a.voice b.voice) [
    | inl (e, c) ↦ rw e (in_voice c)
    | inr (h2, e2, m2) ↦ rw e2 (elim (merge_cases a.tense b.tense) [
      | inl (e, c) ↦ rw e (in_tense c)
      | inr (h3, e3, m3) ↦ rw e3 (elim (merge_cases a.gender b.gender) [
        | inl (e, c) ↦ rw e (in_gender c)
        | inr (h4, e4, m4) ↦ rw e4 (elim (merge_cases a.case b.case) [
          | inl (e, c) ↦ rw e (in_case c)
          | inr (h5, e5, m5) ↦ rw e5 (elim (merge_cases a.person b.person) [
            | inl (e, c) ↦ rw e (in_person c)
            | inr (h6, e6, m6) ↦ rw e6 (elim (merge_cases a.number b.number) [
              | inl (e, c) ↦ rw e (in_number c)
              | inr (h7, e7, m7) ↦ rw e7 (record {
                mood = m1;
                voice = m2;
                tense = m3;
                gender = m4;
                case = m5;
                person = m6;
                number = m7;
                degree = refl;
              })
            ])
          ])
        ])
      ])
    ])
  ])
]
