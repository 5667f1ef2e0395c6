-- ===== src/Inflection/Packed/RoundTrip.antt =====
-- Unpacking gives packed data back, in a normal form.
use native.Mathlib.Nat.{zero-div}
use morcus_net.Prelude.{
  ℕ, ◌/◌, ◌%◌, ◌^◌, ◌≤◌, ◌<◌, ◌≡◌, refl, sym, ap, ◌∙◌, arith, some, List, [], ◌∷◌, ◌++◌, map, Bool,
  Bool-cases, inl, inr, false, ltb, ◌==◌, ◌||◌, if◌then◌else◌, ok, All,
}
use morcus_net.Inflection.Types.{
  Enum, DataField, undefined, single, multiple, WordInflectionData, LatinCase, LatinGender,
  nominative, accusative, dative, genitive, ablative, vocative, locative, masculine, feminine,
  neuter, adverbial, LatinNumber, singular, plural, LatinPerson, first, second, third, LatinMood,
  indicative, imperative, subjunctive, participle, gerundive, infinitive, supine, LatinVoice,
  active, passive, LatinTense, present, imperfect, perfect, future_perfect, future, pluperfect,
  LatinDegree, positive, comparative, superlative, case_enum, gender_enum, number_enum, person_enum,
  voice_enum, degree_enum, tense_enum, mood_enum, all_cases, all_genders,
}
use morcus_net.Inflection.Fields.{coerce_to_array, includes}
use morcus_net.Packing.Numbers.{bit, set_bit}
use morcus_net.Packing.Numbers.Bits.{bit-set_bit}
use morcus_net.Inflection.Packed.{
  validate_range, encode, byte_from, decode, cast_all, of_members, pick, positions, decode_set,
  low_bits, compose, pack_word_inflection_data, unpack_word_inflection_data,
}

-- At most one value.
abbrev pub HasOne : {A : Type 0} → DataField A → Type 0
HasOne undefined = Unit
HasOne (single a) = Unit
HasOne (multiple []) = Unit
HasOne (multiple (a ∷ [])) = Unit
HasOne (multiple (a ∷ b ∷ as')) = ⊥

-- The value, or no value, of such a field.
abbrev pub one_value : {A : Type 0} → DataField A → DataField A
one_value (multiple []) = undefined
one_value (multiple (a ∷ [])) = single a
one_value f = f

abbrev InRange : (A : Type 0) ⦃e : Enum A⦄ → ℕ → Type 0
InRange A ⦃e⦄ most = (a : A) → (0 < e.value a) × (e.value a ≤ most)

bit-zero : (j : ℕ) → bit 0 j ≡ 0
unfolding bit
bit-zero j = rw zero-div

pick-zero : (ks : List ℕ) → pick 0 ks ≡ []
unfolding pick
pick-zero [] = refl
pick-zero (k ∷ ks) = rw (bit-zero k) (pick-zero ks)

module _ {A : Type 0} ⦃e : Enum A⦄ where
  -- The members of `all` that the field holds, in the order of `all`.
  abbrev pub held : DataField A → List A → List A
  held f [] = []
  held f (a ∷ as') = if includes (coerce_to_array f) a then a ∷ held f as' else held f as'

  abbrev pub set_value : List A → DataField A → DataField A
  set_value all f = of_members (held f all)

  encode_some :
      (most : ℕ) (a : A)
      → InRange A most
      → (validate_range most (some a) ≡ ok (e.value a)) × (decode (e.value a) ≡ some (single a))
  unfolding validate_range decode
  encode_some most a range = ground (arith, range a, e.of_value-value a)

  -- A field with one value is encoded and decoded.
  encode-decode :
      (most : ℕ) (f : DataField A)
      → InRange A most
      → HasOne f
      → (v : ℕ) × (encode most f ≡ ok v) × (v ≤ most) × (decode v ≡ some (one_value f))
  unfolding encode
  encode-decode most undefined range one = (0, refl, omega arith, unfold decode in refl)
  encode-decode most (single a) range one =
      (e.value a, (encode_some most a range).0, (range a).1, (encode_some most a range).1)
  encode-decode most (multiple []) range one = (0, refl, omega arith, unfold decode in refl)
  encode-decode most (multiple (a ∷ [])) range one =
      (e.value a, (encode_some most a range).0, (range a).1, (encode_some most a range).1)
  encode-decode most (multiple (a ∷ b ∷ as')) range one = elim one [ ]

  abbrev has_value : ℕ → List A → Bool
  has_value j [] = false
  has_value j (a ∷ as') = e.value a == j || has_value j as'

  bit-byte_from :
      (byte : ℕ) (as' : List A) (j : ℕ)
      → InRange A 7
      → byte < 256
      → j < 8
      → (byte_from byte as' < 256)
        × (bit (byte_from byte as') j ≡ (if has_value j as' then 1 else bit byte j))
  unfolding byte_from
  bit-byte_from byte [] j range small lt = (small, refl)
  bit-byte_from byte (a ∷ as') j range small lt =
      let (small', set) = bit-set_bit byte (e.value a) j small (omega (arith, (range a).1)) lt in
      let (fits, bits) = bit-byte_from (set_bit byte (e.value a)) as' j range small' lt in
      (fits, bits ∙ ground (arith, set))

  includes-has_value : (as' : List A) (a : A) → includes as' a ≡ has_value (e.value a) as'
  unfolding includes
  includes-has_value [] a = refl
  includes-has_value (b ∷ as') a = rw (includes-has_value as' a)

  -- The bits of the byte, at the values of some members and then at positions that none has.
  pick-held :
      (f : DataField A) (cs : List A) (rest : List ℕ)
      → InRange A 7
      → All (λ j. (j < 8) × (has_value j (coerce_to_array f) ≡ false)) rest
      → pick (byte_from 0 (coerce_to_array f)) (map e.value cs ++ rest) ≡ map e.value (held f cs)
  unfolding pick
  pick-held f [] [] range h = refl
  pick-held f [] (j ∷ js) range h =
      let (fits, bits) = bit-byte_from 0 (coerce_to_array f) j range (omega arith) h.0.0 in
      ground (arith, bits, bit-zero j, h.0.1, pick-held f [] js range h.1)
  pick-held f (c ∷ cs) rest range h =
      let (fits, bits) =
        bit-byte_from 0 (coerce_to_array f) (e.value c) range (omega arith)
          (omega (arith, (range c).1)) in
      ground (
        arith,
        bits,
        bit-zero (e.value c),
        includes-has_value (coerce_to_array f) c,
        pick-held f cs rest range h,
      )

  cast_all-value : (as' : List A) → cast_all (map e.value as') ≡ some as'
  unfolding cast_all
  cast_all-value [] = refl
  cast_all-value (a ∷ as') = rw (e.of_value-value a, cast_all-value as')

  has_value-zero : (as' : List A) → InRange A 7 → has_value 0 as' ≡ false
  has_value-zero [] range = refl
  has_value-zero (a ∷ as') range = ground (arith, range a, has_value-zero as' range)

  map-nil : (as' : List A) → map e.value as' ≡ [] → as' ≡ []
  map-nil [] h = refl
  map-nil (a ∷ as') h = cc

  pick-All :
      (f : DataField A) (all : List A) (rest : List ℕ)
      → InRange A 7
      → All (λ j. (j < 8) × (has_value j (coerce_to_array f) ≡ false)) rest
      → pick (byte_from 0 (coerce_to_array f)) (0 ∷ (map e.value all ++ rest))
        ≡ map e.value (held f all)
  unfolding pick
  pick-All f all rest range h =
      let (fits, bits) = bit-byte_from 0 (coerce_to_array f) 0 range (omega arith) (omega arith) in
      ground (
        arith,
        bits,
        has_value-zero (coerce_to_array f) range,
        bit-zero 0,
        pick-held f all rest range h,
      )

  -- A bit set is decoded to the members that were put in.
  decode_set-byte :
      (f : DataField A) (all : List A) (rest : List ℕ)
      → InRange A 7
      → All (λ j. (j < 8) × (has_value j (coerce_to_array f) ≡ false)) rest
      → positions ≡ 0 ∷ (map e.value all ++ rest)
      → decode_set (byte_from 0 (coerce_to_array f)) ≡ some (set_value all f)
  unfolding decode_set
  decode_set-byte f all rest range h whole =
      let byte = byte_from 0 (coerce_to_array f) in
      let picked : pick byte positions ≡ map e.value (held f all) =
        ap (pick byte) whole ∙ pick-All f all rest range h in
      elim (Bool-cases (ltb 0 byte)) [
        | inl some_bit ↦ rw (some_bit, picked, cast_all-value (held f all))
        | inr no_bit ↦
            let no_byte : byte ≡ 0 = ground arith in
            let none_held : held f all ≡ [] =
              map-nil (held f all)
                (sym picked ∙ ap (λ b. pick b positions) no_byte ∙ pick-zero positions) in
            rw (no_bit, none_held) (unfold of_members in refl)
      ]

cases-InRange : InRange LatinCase 7
cases-InRange nominative = omega arith
cases-InRange accusative = omega arith
cases-InRange dative = omega arith
cases-InRange genitive = omega arith
cases-InRange ablative = omega arith
cases-InRange vocative = omega arith
cases-InRange locative = omega arith

genders-InRange : InRange LatinGender 7
genders-InRange masculine = omega arith
genders-InRange feminine = omega arith
genders-InRange neuter = omega arith
genders-InRange adverbial = omega arith

numbers-InRange : InRange LatinNumber 2
numbers-InRange singular = omega arith
numbers-InRange plural = omega arith

persons-InRange : InRange LatinPerson 3
persons-InRange first = omega arith
persons-InRange second = omega arith
persons-InRange third = omega arith

voices-InRange : InRange LatinVoice 2
voices-InRange active = omega arith
voices-InRange passive = omega arith

degrees-InRange : InRange LatinDegree 3
degrees-InRange positive = omega arith
degrees-InRange comparative = omega arith
degrees-InRange superlative = omega arith

tenses-InRange : InRange LatinTense 6
tenses-InRange present = omega arith
tenses-InRange imperfect = omega arith
tenses-InRange perfect = omega arith
tenses-InRange future_perfect = omega arith
tenses-InRange future = omega arith
tenses-InRange pluperfect = omega arith

moods-InRange : InRange LatinMood 7
moods-InRange indicative = omega arith
moods-InRange imperative = omega arith
moods-InRange subjunctive = omega arith
moods-InRange participle = omega arith
moods-InRange gerundive = omega arith
moods-InRange infinitive = omega arith
moods-InRange supine = omega arith

-- No gender has a number above 4.
no_such_gender : (gs : List LatinGender) (j : ℕ) → 4 < j → has_value j gs ≡ false
no_such_gender [] j lt = refl
no_such_gender (masculine ∷ gs) j lt = ground (arith, no_such_gender gs j lt)
no_such_gender (feminine ∷ gs) j lt = ground (arith, no_such_gender gs j lt)
no_such_gender (neuter ∷ gs) j lt = ground (arith, no_such_gender gs j lt)
no_such_gender (adverbial ∷ gs) j lt = ground (arith, no_such_gender gs j lt)

decode-cases :
    (f : DataField LatinCase)
    → decode_set (byte_from 0 (coerce_to_array f)) ≡ some (set_value all_cases f)
decode-cases f = decode_set-byte f all_cases [] cases-InRange tt refl

decode-genders :
    (f : DataField LatinGender)
    → decode_set (byte_from 0 (coerce_to_array f)) ≡ some (set_value all_genders f)
decode-genders f =
    let absent = no_such_gender (coerce_to_array f) in
    decode_set-byte f all_genders (5 ∷ 6 ∷ 7 ∷ []) genders-InRange
      (
        (omega arith, absent 5 (omega arith)),
        ((omega arith, absent 6 (omega arith)), ((omega arith, absent 7 (omega arith)), tt)),
      )
      refl

-- Data that the packed form can hold: the cases and the genders are sets, the rest single values.
pub record IsPackable (d : WordInflectionData) : Type 0 where
  pub number : HasOne d.number
  pub person : HasOne d.person
  pub voice : HasOne d.voice
  pub degree : HasOne d.degree
  pub tense : HasOne d.tense
  pub mood : HasOne d.mood

-- The same data, with the cases and genders once each in the order of their numbers.
abbrev pub normal_form : WordInflectionData → WordInflectionData
normal_form d = record {
  case = set_value all_cases d.case;
  number = one_value d.number;
  gender = set_value all_genders d.gender;
  person = one_value d.person;
  voice = one_value d.voice;
  mood = one_value d.mood;
  tense = one_value d.tense;
  degree = one_value d.degree;
}

low_fields :
    (n p v d t m : ℕ)
    → n ≤ 2
    → p ≤ 3
    → v ≤ 2
    → d ≤ 3
    → t ≤ 6
    → m ≤ 7
    → let low = low_bits n p v d t m in
      (low % 4 ≡ n)
      × (low / 2 ^ 2 % 4 ≡ p)
      × (low / 2 ^ 4 % 4 ≡ v)
      × (low / 2 ^ 6 % 4 ≡ d)
      × (low / 2 ^ 8 % 8 ≡ t)
      × (low / 2 ^ 11 % 8 ≡ m)
      × (low < 2 ^ 16)
low_fields n p v d t m hn hp hv hd ht hm =
    (omega arith, omega arith, omega arith, omega arith, omega arith, omega arith, omega arith)

composed_fields :
    (low c g : ℕ)
    → low < 2 ^ 16
    → c < 256
    → g < 256
    → let packed = compose low c g in
      (packed % 2 ^ 16 ≡ low)
      × (packed / 2 ^ 16 % 256 ≡ c)
      × (packed / 2 ^ 24 % 256 ≡ g)
      × (packed < 2 ^ 32)
composed_fields low c g hl hc hg = (omega arith, omega arith, omega arith, omega arith)

-- Packing succeeds on data with at most one value in each field but case and gender, with a number
-- below 2 ^ 32, and unpacking that number gives the same data, in which the cases and the genders
-- stand once each in the order of their numbers, a lone value or none in the plainest form.
pub unpack_word_inflection_data-pack :
    (d : WordInflectionData)
    → IsPackable d
    → (packed : ℕ) × (pack_word_inflection_data d ≡ ok packed)
      × (packed < 2 ^ 32)
      × (unpack_word_inflection_data packed ≡ some (normal_form d))
unfolding pack_word_inflection_data unpack_word_inflection_data
unpack_word_inflection_data-pack d h =
    let (n, en, hn, dn) = encode-decode 2 d.number numbers-InRange h.number in
    let (p, ep, hp, dp) = encode-decode 3 d.person persons-InRange h.person in
    let (v, ev, hv, dv) = encode-decode 2 d.voice voices-InRange h.voice in
    let (g, eg, hg, dg) = encode-decode 3 d.degree degrees-InRange h.degree in
    let (t, et, ht, dt) = encode-decode 6 d.tense tenses-InRange h.tense in
    let (m, em, hm, dm) = encode-decode 7 d.mood moods-InRange h.mood in
    let (f1, f2, f3, f4, f5, f6, small) = low_fields n p v g t m hn hp hv hg ht hm in
    let low = low_bits n p v g t m in
    let cs = byte_from 0 (coerce_to_array d.case) in
    let gs = byte_from 0 (coerce_to_array d.gender) in
    let small_cs =
      (bit-byte_from 0 (coerce_to_array d.case) 0 cases-InRange (omega arith) (omega arith)).0 in
    let small_gs =
      (bit-byte_from 0 (coerce_to_array d.gender) 0 genders-InRange (omega arith)
        (omega arith)).0 in
    let (c1, c2, c3, c4) = composed_fields low cs gs small small_cs small_gs in
    (
      compose low cs gs,
      rw (en, ep, ev, eg, et, em),
      c4,
      rw (c1, c2, c3)
          (rw (f1, f2, f3, f4, f5, f6)
            (rw (dn, dp, dv, dg, dt, dm, decode-cases d.case, decode-genders d.gender))),
    )
