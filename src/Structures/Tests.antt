-- ===== src/Structures/Tests.antt =====
-- Runs of the Roman numeral parser and of the trie on small inputs.
use morcus_net.Prelude.{
  ℕ, ◌-◌, ◌&&◌, leb, if◌then◌else◌, ◌++◌, ◌≡◌, refl, arith, none, some, [], ◌∷◌, map, take, filter,
  Text, text_eq, codes,
}
use morcus_net.Structures.Roman.{parse_roman_numeral}
use morcus_net.Structures.Roman.Standard.{to_roman, parse_roman_numeral-standard}
use morcus_net.Structures.ArrayMap.{text_keyed, array_map_by, get_collected}
use morcus_net.Structures.ArrayMap.Groups.{AreDistinct, group_of, array_map_by-group_of}
use morcus_net.Structures.Trie.{TrieNode, node, absent, add, find, or_none}
use morcus_net.Structures.Trie.Lookup.{find-add}

-- The upper case of the letters of English.
abbrev upper : Text → Text
upper s = map (λ c. if leb b'a' c && leb c b'z' then c - 32 else c) s

parse_roman_numeral-standard_example : parse_roman_numeral upper (codes "mcmXciv") ≡ some 1994
unfolding to_roman
parse_roman_numeral-standard_example =
    parse_roman_numeral-standard upper (codes "mcmXciv") 1994 (omega arith) refl

four_ones : parse_roman_numeral upper (codes "IIII") ≡ some 4
unfolding parse_roman_numeral
four_ones = refl

no_letters : parse_roman_numeral upper [] ≡ some 0
unfolding parse_roman_numeral
no_letters = refl

ascending : parse_roman_numeral upper (codes "IVX") ≡ none
unfolding parse_roman_numeral
ascending = refl

abbrev one_key : TrieNode ℕ
one_key = node absent (some (7 ∷ []))

find-add_example : find (add one_key (codes "ab") (5 ∷ [])) (codes "ab") 2 ≡ (
    if text_eq (codes "ab") (codes "ab")
    then some (or_none (find one_key (codes "ab") 2) ++ (5 ∷ []))
    else find one_key (codes "ab") 2)
find-add_example = find-add one_key (codes "ab") (codes "ab") (5 ∷ []) (refl, (refl, tt))

-- A character beyond the basic plane is one step for `add` and two for `find`.
beyond_the_plane :
    find (add one_key (0xd83d ∷ 0xde00 ∷ []) (5 ∷ [])) (0xd83d ∷ 0xde00 ∷ []) 2 ≡ none
unfolding find add
beyond_the_plane = refl

-- Grouped by the first character.
array_map_by-group_of_example :
    AreDistinct (array_map_by (codes "ab" ∷ codes "c" ∷ codes "ad" ∷ []) (take 1))
    × ((k : Text)
        → get_collected k (array_map_by (codes "ab" ∷ codes "c" ∷ codes "ad" ∷ []) (take 1))
          ≡ group_of
              (filter (λ v. text_eq (take 1 v) k) (codes "ab" ∷ codes "c" ∷ codes "ad" ∷ [])))
array_map_by-group_of_example =
    array_map_by-group_of (codes "ab" ∷ codes "c" ∷ codes "ad" ∷ []) (take 1)

two_groups :
    array_map_by (codes "ab" ∷ codes "c" ∷ codes "ad" ∷ []) (take 1)
    ≡ (codes "a", codes "ab" ∷ codes "ad" ∷ []) ∷ (codes "c", codes "c" ∷ []) ∷ []
unfolding array_map_by
two_groups = refl
