-- ===== src/Crunch/Spellings/Respelled.antt =====
-- The chunks of `alternatesWithIorU` put together are the word with some of its characters replaced.
use morcus_net.Prelude.{
  ℕ, zero, suc, ◌+◌, ◌<◌, ◌≤◌, ◌==◌, ==_iff, eq_self, ◌≡◌, inl, inr, refl, ap, arith, if◌then◌else◌,
  some, List, [], ◌∷◌, ◌++◌, append-nil, filter, Bool, Bool-cases, false, length, get_elem?, take,
  drop, Text,
}
use morcus_net.Crunch.Exact.{places_from}
use morcus_net.Crunch.Spellings.{consonant_of, up_to_next, modified_chunks, modified_word}

-- The word from a place on, with the consonants for the characters at the places of the set.
unfoldable pub respelled : ℕ → Text → List ℕ → List Bool → Text
respelled pos [] ambigs perm = []
respelled pos (c ∷ s) [] perm = c ∷ s
respelled pos (c ∷ s) (a ∷ ambigs) [] = c ∷ s
respelled pos (c ∷ s) (a ∷ ambigs) (p ∷ perm) =
    let here = (if p then consonant_of c else c) ∷ respelled (suc pos) s ambigs perm in
    let later = c ∷ respelled (suc pos) s (a ∷ ambigs) (p ∷ perm) in
    if pos == a then here else later

-- Places in order, from the first number on and below the second.
abbrev pub AreInOrder : ℕ → ℕ → List ℕ → Type 0
AreInOrder bound from [] = Unit
AreInOrder bound from (a ∷ as') = (from ≤ a) × (a < bound) × AreInOrder bound (suc a) as'

weaken-AreInOrder :
    (bound from : ℕ) (as' : List ℕ) → AreInOrder bound (suc from) as' → AreInOrder bound from as'
weaken-AreInOrder bound from [] h = tt
weaken-AreInOrder bound from (a ∷ as') (low, high, below) = (omega arith, high, below)

pub places-AreInOrder :
    (p : ℕ → Bool) (n from bound : ℕ)
    → from + n ≡ bound
    → AreInOrder bound from (filter p (places_from from n))
unfolding places_from
places-AreInOrder p zero from bound e = tt
places-AreInOrder p (suc n) from bound e = elim (Bool-cases (p from)) [
  | inl kept ↦
      rw kept (omega arith, omega arith, places-AreInOrder p n (suc from) bound (omega arith))
  | inr dropped ↦ rw dropped (
      weaken-AreInOrder bound from (filter p (places_from (suc from) n))
        (places-AreInOrder p n (suc from) bound (omega arith)))
]

-- A place in a text that is cut behind it.
read_place :
    (pos stop : ℕ) (s : Text)
    → pos < stop
    → stop ≤ length s
    → (c : ℕ) × (get_elem? s pos ≡ some c)
      × (drop pos s ≡ c ∷ drop (suc pos) s)
      × (drop pos (take stop s) ≡ c ∷ drop (suc pos) (take stop s))
read_place pos zero s h k = absurd (omega arith)
read_place pos (suc stop) [] h k = absurd (omega arith)
read_place zero (suc stop) (c ∷ s) h k = (c, refl, refl, refl)
read_place (suc pos) (suc stop) (c ∷ s) h k = read_place pos stop s (omega arith) (omega arith)

drop-take : (n : ℕ) (s : Text) → drop n (take n s) ≡ []
drop-take zero s = refl
drop-take (suc n) [] = refl
drop-take (suc n) (c ∷ s) = drop-take n s

drop_all : (s : Text) → drop (length s) s ≡ []
drop_all [] = refl
drop_all (c ∷ s) = drop_all s

respelled-none : (pos : ℕ) (s : Text) (perm : List Bool) → respelled pos s [] perm ≡ s
unfolding respelled
respelled-none pos [] perm = refl
respelled-none pos (c ∷ s) perm = refl

-- A place in front of the next of the set.
respelled-later :
    (pos c a : ℕ) (s : Text) (p : Bool) (ambigs : List ℕ) (perm : List Bool)
    → pos < a
    → respelled pos (c ∷ s) (a ∷ ambigs) (p ∷ perm)
      ≡ c ∷ respelled (suc pos) s (a ∷ ambigs) (p ∷ perm)
unfolding respelled
respelled-later pos c a s p ambigs perm h =
    let other : (pos == a) ≡ false = ground arith in rw other refl

module _ (word : Text) where
  chunks-respelled :
      (k pos : ℕ) (ambigs : List ℕ) (perm : List Bool)
      → pos + k ≡ length word
      → AreInOrder (length word) pos ambigs
      → length perm ≡ length ambigs
      → up_to_next word pos ambigs ++ modified_chunks word ambigs perm
        ≡ respelled pos (drop pos word) ambigs perm
  unfolding modified_chunks respelled
  chunks-respelled k pos [] perm at_end order same =
      rw (respelled-none pos (drop pos word) perm) (append-nil _)
  chunks-respelled k pos (a ∷ ambigs) [] at_end order same = absurd (omega arith)
  chunks-respelled zero pos (a ∷ ambigs) (p ∷ perm) at_end (low, high, below) same =
      absurd (omega arith)
  chunks-respelled (suc k) pos (a ∷ ambigs) (p ∷ perm) at_end (low, high, below) same =
      elim (Bool-cases (pos == a)) [
        | inl here ↦
            let pos_is : pos ≡ a = (==_iff pos a).0 here in
            let (c, at_pos, rest, _) = read_place a (length word) word high (omega arith) in
            rw (pos_is, drop-take a word, at_pos, rest, eq_self a)
              (ap (λ t. (if p then consonant_of c else c) ∷ t)
                (chunks-respelled k (suc a) ambigs perm (omega arith) below (omega arith)))
        | inr other ↦
            let later : pos < a = ground arith in
            let (c, at_pos, rest, cut) = read_place pos a word later (omega arith) in
            rw (rest, cut, respelled-later pos c a (drop (suc pos) word) p ambigs perm later)
              (ap (λ t. c ∷ t)
                (chunks-respelled k (suc pos) (a ∷ ambigs) (p ∷ perm) (omega arith)
                  (later, high, below) same))
      ]

  -- The chunks are the word with the consonants at the places of the set.
  pub modified_word-respelled :
      (ambigs : List ℕ) (perm : List Bool)
      → AreInOrder (length word) 0 ambigs
      → length perm ≡ length ambigs
      → modified_word word ambigs perm ≡ respelled 0 word ambigs perm
  unfolding modified_word
  modified_word-respelled ambigs perm order same =
      chunks-respelled (length word) 0 ambigs perm (omega arith) order same
