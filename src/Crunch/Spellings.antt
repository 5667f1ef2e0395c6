-- ===== src/Crunch/Spellings.antt =====
-- `findAmbiguousIandU` and `alternatesWithIorU` of src/morceus/crunch.ts, with `Vowels.isVowel` of
-- src/common/character_utils.ts. `String.toLowerCase` is a parameter.
pub mod Masks
pub mod Respelled
pub mod Alternates
use morcus_net.Prelude.{
  ℕ, zero, suc, ◌+◌, ◌-◌, ◌^◌, leb, ltb, ◌==◌, if◌then◌else◌, Option, none, some, List, [], ◌∷◌,
  ◌++◌, replicate, filter, Bool, true, false, not, ◌&&◌, ◌||◌, length, get_elem?, take, drop, Text,
  codes, has_char,
}
use morcus_net.Crunch.Exact.{places_from}

-- `MACRONS`, `BREVES` and `UNMARKED_VOWELS`.
abbrev pub macrons : Text
macrons = codes "āēīōūȳĀĒĪŌŪȲÃÕ"

abbrev pub breves : Text
breves = codes "ăĕĭŏŭўĂĬĔŎŬY̆"

abbrev pub unmarked_vowels : Text
unmarked_vowels = codes "aeiouyAEIOUY"

-- `Vowels.isVowel` for one code unit.
unfoldable pub is_vowel : ℕ → Bool
is_vowel c = has_char c unmarked_vowels || has_char c macrons || has_char c breves

-- `table[i]`, for the table of the vowels of a text.
unfoldable pub vowel_at : Text → ℕ → Bool
vowel_at clean i = elim (get_elem? clean i) [ none ↦ false | some c ↦ is_vowel c ]

-- `s[i] === c`.
unfoldable pub is_at : Text → ℕ → ℕ → Bool
is_at s i c = elim (get_elem? s i) [ none ↦ false | some d ↦ d == c ]

abbrev pub before : ℕ → Option ℕ
before zero = none
before (suc i) = some i

-- `i >= 1 && isVowelTable[i - 1]`, and whether the character in front is a `q`.
abbrev pub after_vowel : Text → ℕ → Bool
after_vowel clean i = elim (before i) [ none ↦ false | some h ↦ vowel_at clean h ]

abbrev pub after_q : Text → ℕ → Bool
after_q clean i = elim (before i) [ none ↦ false | some h ↦ is_at clean h b'q' ]

-- The tests of a round of the second loop.
unfoldable pub is_ambiguous : Bool → Bool → Text → ℕ → Bool
is_ambiguous mark_i mark_u clean i =
    (after_vowel clean i || (ltb i (length clean - 1) && vowel_at clean (suc i)))
    && ((mark_i && is_at clean i b'i') || (mark_u && is_at clean i b'u' && not (after_q clean i)))

module _ (to_lower_case : Text → Text) where
  -- `markI` and `markU` behind the first loop, which looks at as many places of the word as its form in
  -- lower case has.
  abbrev pub marks_i : Text → Bool → Bool
  marks_i word try_i = try_i && not (has_char b'j' (to_lower_case word))

  abbrev pub marks_u : Text → Bool → Bool
  marks_u word try_u = try_u && not (has_char b'v' (take (length (to_lower_case word)) word))

  -- `findAmbiguousIandU`.
  unfoldable pub find_ambiguous_i_and_u : Text → Bool → Bool → List ℕ
  find_ambiguous_i_and_u word try_i try_u =
      if not (marks_i word try_i) && not (marks_u word try_u)
      then []
      else filter (is_ambiguous (marks_i word try_i) (marks_u word try_u) (to_lower_case word))
          (places_from 0 (length (to_lower_case word)))

-- The consonant for a character.
unfoldable pub consonant_of : ℕ → ℕ
consonant_of c =
    if c == b'i' then b'j' else if c == b'I' then b'J' else if c == b'u' then b'v' else b'V'

-- `modifiedCurrent`, joined to a text: a place behind the end of the word is `undefined`.
abbrev pub modified_current : Option ℕ → Bool → Text
modified_current none true = codes "V"
modified_current none false = codes "undefined"
modified_current (some c) p = (if p then consonant_of c else c) ∷ []

-- `word.substring(from, ambigs[0])`, up to the end of the word if there is no such place. The places
-- are in order, so that `from` is not behind it.
abbrev pub up_to_next : Text → ℕ → List ℕ → Text
up_to_next word from [] = drop from word
up_to_next word from (a ∷ ambigs) = drop from (take a word)

-- `modifiedChunks`, joined.
unfoldable pub modified_chunks : Text → List ℕ → List Bool → Text
modified_chunks word (a ∷ ambigs) (p ∷ perm) =
    modified_current (get_elem? word a) p
    ++ (up_to_next word (suc a) ambigs ++ modified_chunks word ambigs perm)
modified_chunks word _ _ = []

unfoldable pub modified_word : Text → List ℕ → List Bool → Text
unfolding modified_chunks
modified_word word ambigs perm = up_to_next word 0 ambigs ++ modified_chunks word ambigs perm

-- The loop over `perm` with its carry.
unfoldable pub increment : List Bool → Bool × List Bool
increment [] = (true, [])
increment (false ∷ perm) = (false, true ∷ perm)
increment (true ∷ perm) = let (carry, rest) = increment perm in (carry, false ∷ rest)

-- What is behind the yield of a round.
abbrev pub or_end : Bool → Text → Option (List Text) → Option (List Text)
or_end true w rest = some (w ∷ [])
or_end false w none = none
or_end false w (some ws) = some (w ∷ ws)

-- `while (true)`: the words that it yields, on fuel.
unfoldable pub yield_all : ℕ → Text → List ℕ → List Bool → Option (List Text)
unfolding increment
yield_all zero word ambigs perm = none
yield_all (suc fuel) word ambigs perm =
    or_end (increment perm).0 (modified_word word ambigs perm)
      (yield_all fuel word ambigs (increment perm).1)

-- `alternatesWithIorU` for the places that are found; there are fewer rounds than sets of places.
unfoldable pub alternates_at : Text → List ℕ → Option (List Text)
unfolding yield_all
alternates_at word [] = some []
alternates_at word (a ∷ ambigs) =
    yield_all (2 ^ length (a ∷ ambigs)) word (a ∷ ambigs) (true ∷ replicate (length ambigs) false)

-- `alternatesWithIorU`.
unfoldable pub alternates_with_i_or_u : (Text → Text) → Text → Bool → Bool → Option (List Text)
unfolding alternates_at
alternates_with_i_or_u to_lower_case word try_i try_u =
    alternates_at word (find_ambiguous_i_and_u to_lower_case word try_i try_u)
