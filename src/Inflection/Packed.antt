-- ===== src/Inflection/Packed.antt =====
-- `packWordInflectionData` and `unpackWordInflectionData` of src/morceus/inflection_data_utils.ts.
-- Fields of bits that do not overlap are joined by `+` where the source has `|`.
pub mod RoundTrip
use mathlib.Core.Option
use morcus_net.Prelude.{
  ℕ, ◌+◌, ◌*◌, ◌/◌, ◌%◌, ◌^◌, ◌≡◌, refl, Option, none, some, List, [], ◌∷◌, Bool, true, false, ltb,
  ◌==◌, ◌&&◌, ◌||◌, if◌then◌else◌, Result, ok, err, ◌>>=◌,
}
use morcus_net.Inflection.Types.{
  Enum, DataField, undefined, single, multiple, WordInflectionData, LatinCase, case_enum,
  gender_enum, number_enum, person_enum, voice_enum, degree_enum, tense_enum, mood_enum,
}
use morcus_net.Inflection.Fields.{coerce_to_array}
use morcus_net.Packing.Numbers.{bit, set_bit}

pub data PackedError : Type 0 where
  not_single out_of_range : PackedError

module _ {A : Type 0} ⦃e : Enum A⦄ where
  -- `singleValue`.
  single_value : DataField A → Result PackedError (Option A)
  single_value undefined = ok none
  single_value (multiple []) = ok none
  single_value (multiple (a ∷ [])) = ok (some a)
  single_value (multiple (a ∷ b ∷ as')) = err not_single
  single_value (single a) = ok (some a)

  -- `validateRange`, from 1 to `most`.
  validate_range : ℕ → Option A → Result PackedError ℕ
  validate_range most none = ok 0
  validate_range most (some a) =
      if ltb (e.value a) 1 || ltb most (e.value a) then err out_of_range else ok (e.value a)

  -- A field with one value, as a small number.
  encode : ℕ → DataField A → Result PackedError ℕ
  unfolding single_value validate_range
  encode most f = do v ← single_value f; validate_range most v

  -- `for (const a of fields) byte |= 1 << a`.
  byte_from : ℕ → List A → ℕ
  byte_from byte [] = byte
  byte_from byte (a ∷ as') = byte_from (set_bit byte (e.value a)) as'

  -- A number cast to the enum; `none` stands for a number that is no member.
  decode : ℕ → Option (DataField A)
  decode v = if ltb 0 v then Option.map single (e.of_value v) else some undefined

  cast_all : List ℕ → Option (List A)
  cast_all [] = some []
  cast_all (v ∷ vs) = elim (e.of_value v) [
    | none ↦ none
    | some a ↦ Option.map (λ as'. a ∷ as') (cast_all vs)
  ]

  unfoldable pub of_members : List A → DataField A
  of_members [] = undefined
  of_members (a ∷ []) = single a
  of_members (a ∷ b ∷ as') = multiple (a ∷ b ∷ as')

-- The loop over the bits of a byte: the positions that are set.
pick : ℕ → List ℕ → List ℕ
pick byte [] = []
pick byte (i ∷ is) = if bit byte i == 1 then i ∷ pick byte is else pick byte is

abbrev positions : List ℕ
positions = 0 ∷ 1 ∷ 2 ∷ 3 ∷ 4 ∷ 5 ∷ 6 ∷ 7 ∷ []

-- The members of a bit set.
decode_set : {A : Type 0} ⦃e : Enum A⦄ → ℕ → Option (DataField A)
unfolding pick cast_all of_members
decode_set byte =
    if ltb 0 byte then Option.map of_members (cast_all (pick byte positions)) else some undefined

-- Bits 0 to 15.
abbrev low_bits : ℕ → ℕ → ℕ → ℕ → ℕ → ℕ → ℕ
low_bits number person voice degree tense mood =
    number % 4
    + person % 4 * 2 ^ 2
    + voice % 4 * 2 ^ 4
    + degree % 4 * 2 ^ 6
    + tense % 8 * 2 ^ 8
    + mood % 8 * 2 ^ 11

abbrev compose : ℕ → ℕ → ℕ → ℕ
compose low case_byte gender_byte =
    (low % 2 ^ 16 + case_byte % 256 * 2 ^ 16 + gender_byte % 256 * 2 ^ 24) % 2 ^ 32

-- `packWordInflectionData`.
pub pack_word_inflection_data : WordInflectionData → Result PackedError ℕ
unfolding encode byte_from coerce_to_array
pack_word_inflection_data d = do
  number ← encode 2 d.number
  person ← encode 3 d.person
  voice ← encode 2 d.voice
  degree ← encode 3 d.degree
  tense ← encode 6 d.tense
  mood ← encode 7 d.mood
  let low = low_bits number person voice degree tense mood
  ok (compose low (byte_from 0 (coerce_to_array d.case)) (byte_from 0 (coerce_to_array d.gender)))

infixl 5 ◌>>=?◌
abbrev ◌>>=?◌ : {A B : Type 0} → Option A → (A → Option B) → Option B
none >>=? f = none
some a >>=? f = f a

-- `unpackWordInflectionData`; `none` where it casts a number that is no member.
pub unpack_word_inflection_data : ℕ → Option WordInflectionData
unfolding decode decode_set
unpack_word_inflection_data packed =
    let low = packed % 2 ^ 16 in
    let case_byte = packed / 2 ^ 16 % 256 in
    let gender_byte = packed / 2 ^ 24 % 256 in
    decode (low % 4) >>=? λ number. decode (low / 2 ^ 2 % 4) >>=? λ person.
    decode (low / 2 ^ 4 % 4) >>=? λ voice. decode (low / 2 ^ 6 % 4) >>=? λ degree.
    decode (low / 2 ^ 8 % 8) >>=? λ tense. decode (low / 2 ^ 11 % 8) >>=? λ mood.
    decode_set case_byte >>=? λ case. decode_set gender_byte >>=? λ gender. some (record {
      case = case;
      number = number;
      gender = gender;
      person = person;
      voice = voice;
      mood = mood;
      tense = tense;
      degree = degree;
    })
