-- ===== src/Crunch/Lengths/Letters.antt =====
-- The letters of a word with the lengths that they are marked with, read from the end of the word, for
-- `stripCombiners` of src/common/character_utils.ts.
use morcus_net.Prelude.{
  ℕ, suc, ◌+◌, ◌≤◌, ◌==◌, if◌then◌else◌, ◌≡◌, refl, ap, ap₂, ◌∙◌, arith, List, [], ◌∷◌, ◌++◌, All,
  Bool, true, false, not, ◌&&◌, ◌||◌, length, Text, has_char,
}
use morcus_net.Crunch.Spellings.{macrons, breves}
use morcus_net.Crunch.Lengths.{
  long, short, ambiguous, get_length, Marked, is_long_length, is_short_length, is_long, is_short,
}

-- Whether a letter is marked as long, and whether as short.
abbrev pub Marks : Type 0
Marks = Bool × Bool

-- The letter itself: one with a macron is long, one with a breve short.
abbrev pub own_marks : ℕ → Marks
own_marks c = (has_char c macrons, not (has_char c macrons) && has_char c breves)

abbrev pub add_marks : Marks → Marks → Marks
add_marks m n = (m.0 || n.0, m.1 || n.1)

-- What the next character adds to the letters behind it, and to the marks that stand in front of those.
abbrev read_character : ℕ → Marks × List Marks → Marks × List Marks
read_character c (pending, letters) =
    if c == b'+'
    then (pending, letters)
    else if c == 0x304 || c == b'_'
    then ((true, pending.1), letters)
    else if c == 0x306 || c == b'^'
    then ((pending.0, true), letters)
    else ((false, false), add_marks (own_marks c) pending ∷ letters)

unfoldable pub read_letters : Text → Marks × List Marks
read_letters [] = ((false, false), [])
read_letters (c ∷ s) = read_character c (read_letters s)

-- The marks of each letter; marks in front of the first letter belong to none.
abbrev pub letters_of : Text → List Marks
letters_of s = (read_letters s).1

-- The same, as the source has them: the marks at each place from `k` on.
unfoldable pub letters_from : Marked → ℕ → Text → List Marks
letters_from m k [] = []
letters_from m k (c ∷ s) = (is_long m k c, is_short m k c) ∷ letters_from m (suc k) s

-- The last letter gets further marks.
unfoldable pub mark_last : List Marks → Marks → List Marks
mark_last [] n = []
mark_last (m ∷ []) n = add_marks m n ∷ []
mark_last (m ∷ p ∷ ms) n = m ∷ mark_last (p ∷ ms) n

or_false : (a : Bool) → (a || false) ≡ a
or_false true = refl
or_false false = refl

pub mark_last-none : (ms : List Marks) → mark_last ms (false, false) ≡ ms
unfolding mark_last
mark_last-none [] = refl
mark_last-none ((a, b) ∷ []) = ap (λ m. m ∷ []) (ap₂ (λ x y. (x, y)) (or_false a) (or_false b))
mark_last-none (m ∷ p ∷ ms) = ap (λ l. m ∷ l) (mark_last-none (p ∷ ms))

add_marks_assoc : (m n p : Marks) → add_marks (add_marks m n) p ≡ add_marks m (add_marks n p)
add_marks_assoc (a, b) (c, d) (e, f) = ap₂ (λ x y. (x, y)) (or_assoc a c e) (or_assoc b d f)
  where
    or_assoc : (a b c : Bool) → ((a || b) || c) ≡ (a || (b || c))
    or_assoc a b c = ground arith

pub mark_last-twice :
    (ms : List Marks) (n p : Marks) → mark_last (mark_last ms n) p ≡ mark_last ms (add_marks n p)
unfolding mark_last
mark_last-twice [] n p = refl
mark_last-twice (m ∷ []) n p = ap (λ q. q ∷ []) (add_marks_assoc m n p)
mark_last-twice (m ∷ q ∷ []) n p = ap (λ l. m ∷ l) (mark_last-twice (q ∷ []) n p)
mark_last-twice (m ∷ q ∷ r ∷ ms) n p = ap (λ l. m ∷ l) (mark_last-twice (q ∷ r ∷ ms) n p)

pub mark_last-append :
    (ms : List Marks) (m n : Marks) → mark_last (ms ++ (m ∷ [])) n ≡ ms ++ (add_marks m n ∷ [])
unfolding mark_last
mark_last-append [] m n = refl
mark_last-append (p ∷ []) m n = refl
mark_last-append (p ∷ q ∷ ms) m n = ap (λ l. p ∷ l) (mark_last-append (q ∷ ms) m n)

has_char-append : (c : ℕ) (s t : Text) → has_char c (s ++ t) ≡ (has_char c s || has_char c t)
has_char-append c [] t = refl
has_char-append c (d ∷ s) t = ground (arith, has_char-append c s t)

-- A mark behind what is read so far belongs to the last letter.
pub mark_long :
    (m : Marked) (k : ℕ) (s : Text) (n : ℕ)
    → k + length s ≡ n
    → letters_from (record m { longs = m.longs ++ (n ∷ []) }) k s
      ≡ mark_last (letters_from m k s) (true, false)
unfolding letters_from mark_last is_long is_short
mark_long m k [] n e = refl
mark_long m k (c ∷ []) n e =
    ap₂ (λ x y. (x, y) ∷ []) (rw (has_char-append (suc k) m.longs (n ∷ [])) (ground arith))
      (ground arith)
mark_long m k (c ∷ d ∷ s) n e =
    ap₂ (λ x l. (x, is_short m k c) ∷ l)
      (rw (has_char-append (suc k) m.longs (n ∷ [])) (ground arith))
      (mark_long m (suc k) (d ∷ s) n (omega (arith, e)))

pub mark_short :
    (m : Marked) (k : ℕ) (s : Text) (n : ℕ)
    → k + length s ≡ n
    → letters_from (record m { shorts = m.shorts ++ (n ∷ []) }) k s
      ≡ mark_last (letters_from m k s) (false, true)
unfolding letters_from mark_last is_long is_short
mark_short m k [] n e = refl
mark_short m k (c ∷ []) n e =
    ap₂ (λ x y. (x, y) ∷ []) (ground arith)
      (rw (has_char-append (suc k) m.shorts (n ∷ [])) (ground arith))
mark_short m k (c ∷ d ∷ s) n e =
    ap₂ (λ x l. (is_long m k c, x) ∷ l)
      (rw (has_char-append (suc k) m.shorts (n ∷ [])) (ground arith))
      (mark_short m (suc k) (d ∷ s) n (omega (arith, e)))

-- No place is behind what is read so far.
absent : (l : List ℕ) (n : ℕ) → All (λ p. p ≤ n) l → has_char (suc n) l ≡ false
absent [] n h = refl
absent (p ∷ l) n (le, h) = ground (arith, absent l n h, le)

pub later : (l : List ℕ) (n : ℕ) → All (λ p. p ≤ n) l → All (λ p. p ≤ suc n) l
later [] n h = h
later (p ∷ l) n (le, h) = (omega (arith, le), later l n h)

abbrev pub AreReached : Marked → Type 0
AreReached m = All (λ p. p ≤ length m.word) m.longs × All (λ p. p ≤ length m.word) m.shorts

-- The marks do not depend on the text that is kept beside them.
letters_from_word :
    (m : Marked) (w : Text) (k : ℕ) (s : Text)
    → letters_from (record m { word = w }) k s ≡ letters_from m k s
unfolding letters_from is_long is_short
letters_from_word m w k [] = refl
letters_from_word m w k (c ∷ s) =
    ap (λ l. (is_long m k c, is_short m k c) ∷ l) (letters_from_word m w (suc k) s)

letters_from-append :
    (m : Marked) (k : ℕ) (s : Text) (c n : ℕ)
    → k + length s ≡ n
    → letters_from m k (s ++ (c ∷ []))
      ≡ letters_from m k s ++ ((is_long m n c, is_short m n c) ∷ [])
unfolding letters_from
letters_from-append m k [] c n e =
    let here : k ≡ n = omega (arith, e) in ap (λ i. (is_long m i c, is_short m i c) ∷ []) here
letters_from-append m k (d ∷ s) c n e =
    ap (λ l. (is_long m k d, is_short m k d) ∷ l)
      (letters_from-append m (suc k) s c n (omega (arith, e)))

long_of : (a b : Bool) → is_long_length (if a then long else if b then short else ambiguous) ≡ a
long_of true b = refl
long_of false true = refl
long_of false false = refl

short_of :
    (a b : Bool)
    → is_short_length (if a then long else if b then short else ambiguous) ≡ (not a && b)
short_of true b = refl
short_of false true = refl
short_of false false = refl

is_long-own : (c : ℕ) → is_long_length (get_length c) ≡ has_char c macrons
unfolding get_length
is_long-own c = long_of (has_char c macrons) (has_char c breves)

is_short-own : (c : ℕ) → is_short_length (get_length c) ≡ (own_marks c).1
unfolding get_length
is_short-own c = short_of (has_char c macrons) (has_char c breves)

-- A letter that is read last has its own marks only.
pub letters_of_letter :
    (m : Marked) (c : ℕ)
    → AreReached m
    → letters_from (record m { word = m.word ++ (c ∷ []) }) 0 (m.word ++ (c ∷ []))
      ≡ letters_from m 0 m.word ++ (own_marks c ∷ [])
unfolding is_long is_short
letters_of_letter m c (longs, shorts) =
    letters_from_word m (m.word ++ (c ∷ [])) 0 (m.word ++ (c ∷ []))
    ∙ letters_from-append m 0 m.word c (length m.word) (omega arith)
    ∙ ap₂ (λ x y. letters_from m 0 m.word ++ ((x, y) ∷ []))
        (rw (is_long-own c, absent m.longs (length m.word) longs) (or_false (has_char c macrons)))
        (rw (is_short-own c, absent m.shorts (length m.word) shorts) (or_false ((own_marks c).1)))
