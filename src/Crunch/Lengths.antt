-- ===== src/Crunch/Lengths.antt =====
-- `Vowels.getLength`, `stripCombiners` and `Vowels.haveCompatibleLength` of src/common/character_utils.ts.
pub mod Letters
pub mod Readings
pub mod Stripped
use morcus_net.Prelude.{
  ℕ, suc, ◌==◌, if◌then◌else◌, List, [], ◌∷◌, ◌++◌, Bool, true, false, not, ◌&&◌, ◌||◌, length,
  Text, has_char,
}
use morcus_net.Crunch.Spellings.{macrons, breves}

-- `Vowels.Length`.
pub data Length : Type 0 where
  long short ambiguous : Length

-- `Vowels.getLength` for one code unit.
unfoldable pub get_length : ℕ → Length
get_length c = if has_char c macrons then long else if has_char c breves then short else ambiguous

-- What `stripCombiners` gives: the text, and the places that are marked. A place is kept as the length
-- of the text up to it, which is 0 for a mark in front of the text, where the source has -1.
pub record Marked : Type 0 where
  pub word : Text
  pub longs : List ℕ
  pub shorts : List ℕ

-- The loop of `stripCombiners`.
unfoldable pub strip_marks : Marked → Text → Marked
strip_marks m [] = m
strip_marks m (c ∷ s) =
    let skipped = strip_marks m s in
    let as_long = strip_marks (record m { longs = m.longs ++ (length m.word ∷ []) }) s in
    let as_short = strip_marks (record m { shorts = m.shorts ++ (length m.word ∷ []) }) s in
    let kept = strip_marks (record m { word = m.word ++ (c ∷ []) }) s in
    if c == b'+'
    then skipped
    else if c == 0x304 || c == b'_'
    then as_long
    else if c == 0x306 || c == b'^'
    then as_short
    else kept

unfoldable pub marked : Text → Marked
unfolding strip_marks
marked s = strip_marks (record { word = []; longs = []; shorts = [] }) s

abbrev is_long_length : Length → Bool
is_long_length long = true
is_long_length _ = false

abbrev is_short_length : Length → Bool
is_short_length short = true
is_short_length _ = false

-- `firstLong` and `firstShort`, and the same of the second word.
unfoldable pub is_long : Marked → ℕ → ℕ → Bool
is_long m k c = is_long_length (get_length c) || has_char (suc k) m.longs

unfoldable pub is_short : Marked → ℕ → ℕ → Bool
is_short m k c = is_short_length (get_length c) || has_char (suc k) m.shorts

-- The tests of a round.
abbrev pub fits_length : Bool → Bool → Bool → Bool → Bool
fits_length first_long first_short second_long second_short =
    ((first_long && first_short) || (second_long && second_short))
    || not ((first_long || second_long) && (first_short || second_short))

-- The loop over two texts of the same length.
unfoldable pub compatible_from : Marked → Marked → ℕ → Text → Text → Bool
compatible_from m n k [] t = true
compatible_from m n k (c ∷ s) [] = true
compatible_from m n k (c ∷ s) (d ∷ t) =
    fits_length (is_long m k c) (is_short m k c) (is_long n k d) (is_short n k d)
    && compatible_from m n (suc k) s t

-- `Vowels.haveCompatibleLength`.
unfoldable pub have_compatible_length : Text → Text → Bool
unfolding compatible_from
have_compatible_length first second =
    (length (marked first).word == length (marked second).word)
    && compatible_from (marked first) (marked second) 0 (marked first).word (marked second).word
