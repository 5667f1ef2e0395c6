-- ===== src/Crunch/Spellings/Alternates.antt =====
-- Which words `alternatesWithIorU` yields.
use morcus_net.Prelude.{
  ℕ, ◌≡◌, ◌↔◌, inl, inr, refl, sym, ◌∙◌, subst, arith, some, List, [], ◌∷◌, map, drop, Bool,
  Bool-cases, true, not, ◌&&◌, length, Text, Memᴰ,
}
use mathlib.Core.List.Memᴰ.{map as map_mem, of_map}
use morcus_net.Crunch.Spellings.{
  find_ambiguous_i_and_u, is_ambiguous, marks_i, marks_u, modified_word, alternates_at,
  alternates_with_i_or_u,
}
use morcus_net.Crunch.Spellings.Masks.{masks, is_some, yield_all-masks, drop-masks_iff}
use morcus_net.Crunch.Spellings.Respelled.{
  respelled, AreInOrder, places-AreInOrder, modified_word-respelled,
}

-- A word with consonants at some of the places, at least one.
pub data Respells (word : Text) (ambigs : List ℕ) (w : Text) : Type 0 where
  respells :
      (set : List Bool)
      → length set ≡ length ambigs
      → is_some set ≡ true
      → w ≡ respelled 0 word ambigs set
      → Respells word ambigs w

alternates_at-masks :
    (word : Text) (ambigs : List ℕ)
    → alternates_at word ambigs
      ≡ some (map (modified_word word ambigs) (drop 1 (masks (length ambigs))))
unfolding alternates_at masks
alternates_at-masks word [] = refl
alternates_at-masks word (a ∷ ambigs) = yield_all-masks word (a ∷ ambigs) (length ambigs)

find_ambiguous-AreInOrder :
    (to_lower_case : Text → Text) (word : Text) (try_i try_u : Bool)
    → length (to_lower_case word) ≡ length word
    → AreInOrder (length word) 0 (find_ambiguous_i_and_u to_lower_case word try_i try_u)
unfolding find_ambiguous_i_and_u
find_ambiguous-AreInOrder to_lower_case word try_i try_u same =
    elim (Bool-cases
      (not (marks_i to_lower_case word try_i) && not (marks_u to_lower_case word try_u))) [
        | inl neither ↦ rw neither tt
        | inr some_kind ↦ rw some_kind (
            places-AreInOrder
              (is_ambiguous (marks_i to_lower_case word try_i) (marks_u to_lower_case word try_u)
                (to_lower_case word))
              (length (to_lower_case word)) 0 (length word) (omega arith))
      ]

-- The loop ends, and the words that it yields are those with a consonant at some of the ambiguous
-- places, at least one of them, and the same characters everywhere else. The lower case of the word is
-- as long as the word.
pub alternates_with_i_or_u-Respells :
    (to_lower_case : Text → Text) (word : Text) (try_i try_u : Bool)
    → length (to_lower_case word) ≡ length word
    → (ws : List Text) × (alternates_with_i_or_u to_lower_case word try_i try_u ≡ some ws)
      × ((w : Text)
          → Memᴰ w ws ↔ Respells word (find_ambiguous_i_and_u to_lower_case word try_i try_u) w)
unfolding alternates_with_i_or_u
alternates_with_i_or_u-Respells to_lower_case word try_i try_u same =
    let ambigs = find_ambiguous_i_and_u to_lower_case word try_i try_u in
    let order = find_ambiguous-AreInOrder to_lower_case word try_i try_u same in
    let sets = drop 1 (masks (length ambigs)) in
    (
      map (modified_word word ambigs) sets,
      alternates_at-masks word ambigs,
      λ w. (
        λ found.
            let (set, in_sets, w_is) = of_map (modified_word word ambigs) sets found in
            let (size, some_place) = (drop-masks_iff (length ambigs) set).0 in_sets in
            respells set size some_place
              (sym w_is ∙ modified_word-respelled word ambigs set order size),
        λ r. yielded word ambigs order r,
      ),
    )
  where
    yielded :
        (word : Text) (ambigs : List ℕ) {w : Text}
        → AreInOrder (length word) 0 ambigs
        → Respells word ambigs w
        → Memᴰ w (map (modified_word word ambigs) (drop 1 (masks (length ambigs))))
    yielded word ambigs {w} order (respells set size some_place w_is) =
        subst (λ u. Memᴰ u (map (modified_word word ambigs) (drop 1 (masks (length ambigs)))))
          (modified_word-respelled word ambigs set order size ∙ sym w_is)
          (map_mem (modified_word word ambigs)
            ((drop-masks_iff (length ambigs) set).1 (size, some_place)))
