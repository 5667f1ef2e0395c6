-- ===== src/Crunch/Lengths/Readings.antt =====
-- `Vowels.haveCompatibleLength` of src/common/character_utils.ts, and the vowel lengths that two words
-- can both be said with.
use morcus_net.Prelude.{
  ℕ, suc, ◌==◌, ◌≡◌, ◌↔◌, inl, inr, refl, sym, subst, arith, List, [], ◌∷◌, Bool, Bool-cases, true,
  false, not, ◌&&◌, ◌||◌, length, Text,
}
use morcus_net.Crunch.Lengths.{
  Marked, marked, is_long, is_short, fits_length, compatible_from, have_compatible_length,
}
use morcus_net.Crunch.Lengths.Letters.{Marks, letters_of, letters_from}
use morcus_net.Crunch.Lengths.Stripped.{letters_from-marked}

-- Whether a letter with these marks can be said long, for `true`, and short, for `false`: each is ruled
-- out by the other mark alone.
abbrev pub allows : Marks → Bool → Bool
allows (as_long, as_short) true = as_long || not as_short
allows (as_long, as_short) false = as_short || not as_long

-- A length for each letter that its marks allow.
abbrev pub IsReading : List Marks → List Bool → Type 0
IsReading [] [] = Unit
IsReading [] (v ∷ vs) = ⊥
IsReading (m ∷ ms) [] = ⊥
IsReading (m ∷ ms) (v ∷ vs) = (allows m v ≡ true) × IsReading ms vs

fits_length-allows :
    (m n : Marks)
    → fits_length m.0 m.1 n.0 n.1
      ≡ ((allows m true && allows n true) || (allows m false && allows n false))
fits_length-allows (a, b) (c, d) = ground arith

-- Two letters fit if some length is allowed for both.
shared :
    (m n : Marks)
    → fits_length m.0 m.1 n.0 n.1 ≡ true
    → (v : Bool) × (allows m v ≡ true) × (allows n v ≡ true)
shared m n fits = elim (Bool-cases (allows m true && allows n true)) [
  | inl both ↦ (true, ground arith, ground arith)
  | inr not_both ↦
      let other : (allows m false && allows n false) ≡ true =
        rw (fits_length-allows m n, not_both) at fits in
      (false, ground (arith, other), ground (arith, other))
]

fits :
    (m n : Marks) (v : Bool)
    → allows m v ≡ true
    → allows n v ≡ true
    → fits_length m.0 m.1 n.0 n.1 ≡ true
fits m n true at_m at_n = rw (fits_length-allows m n, at_m, at_n) refl
fits m n false at_m at_n = rw (fits_length-allows m n, at_m, at_n) (ground arith)

both_true : (a b : Bool) → (a && b) ≡ true → (a ≡ true) × (b ≡ true)
both_true a b h = (ground (arith, h), ground (arith, h))

compatible_from-IsReading :
    (m n : Marked) (k : ℕ) (s t : Text)
    → length s ≡ length t
    → compatible_from m n k s t ≡ true
    → (vs : List Bool) × IsReading (letters_from m k s) vs × IsReading (letters_from n k t) vs
unfolding compatible_from letters_from
compatible_from-IsReading m n k [] [] same h = ([], tt, tt)
compatible_from-IsReading m n k [] (d ∷ t) same h = ground (arith, same)
compatible_from-IsReading m n k (c ∷ s) [] same h = ground (arith, same)
compatible_from-IsReading m n k (c ∷ s) (d ∷ t) same h =
    let (here, rest) =
      both_true (fits_length (is_long m k c) (is_short m k c) (is_long n k d) (is_short n k d))
        (compatible_from m n (suc k) s t) h in
    let (vs, at_m, at_n) = compatible_from-IsReading m n (suc k) s t (omega (arith, same)) rest in
    let (v, m_v, n_v) =
      shared (is_long m k c, is_short m k c) (is_long n k d, is_short n k d) here in
    (v ∷ vs, (m_v, at_m), (n_v, at_n))

IsReading-compatible_from :
    (m n : Marked) (k : ℕ) (s t : Text) (vs : List Bool)
    → IsReading (letters_from m k s) vs
    → IsReading (letters_from n k t) vs
    → (length s ≡ length t) × (compatible_from m n k s t ≡ true)
unfolding compatible_from letters_from
IsReading-compatible_from m n k [] [] vs hm hn = (refl, refl)
IsReading-compatible_from m n k [] (d ∷ t) [] hm hn = elim hn [ ]
IsReading-compatible_from m n k [] (d ∷ t) (v ∷ vs) hm hn = elim hm [ ]
IsReading-compatible_from m n k (c ∷ s) [] [] hm hn = elim hm [ ]
IsReading-compatible_from m n k (c ∷ s) [] (v ∷ vs) hm hn = elim hn [ ]
IsReading-compatible_from m n k (c ∷ s) (d ∷ t) [] hm hn = elim hm [ ]
IsReading-compatible_from m n k (c ∷ s) (d ∷ t) (v ∷ vs) (m_v, hm) (n_v, hn) =
    let (same, rest) = IsReading-compatible_from m n (suc k) s t vs hm hn in
    (
      omega (arith, same),
      rw (fits (is_long m k c, is_short m k c) (is_long n k d, is_short n k d) v m_v n_v) rest,
    )

-- Two words have compatible lengths exactly if there is a length for each letter, the same for both, that
-- the marks in both words allow. A letter is marked as long if it is in `MACRONS`, and by a combining
-- macron or `_` behind it, and as short if it is in `BREVES`, and by a combining breve or `^` behind it;
-- marks in front of the first letter and `+` do not count. A letter that is marked as long only cannot be short,
-- one that is marked as short only cannot be long, and every other can be either.
pub have_compatible_length-IsReading :
    (first second : Text)
    → (have_compatible_length first second ≡ true) ↔ (
        (lengths : List Bool) × IsReading (letters_of first) lengths
        × IsReading (letters_of second) lengths)
unfolding have_compatible_length
have_compatible_length-IsReading first second = (
  λ h.
      let m = marked first in
      let n = marked second in
      let (same, rest) =
        both_true (length m.word == length n.word) (compatible_from m n 0 m.word n.word) h in
      let (vs, hm, hn) =
        compatible_from-IsReading m n 0 m.word n.word (ground (arith, same)) rest in
      (
        vs,
        subst (λ l. IsReading l vs) (letters_from-marked first) hm,
        subst (λ l. IsReading l vs) (letters_from-marked second) hn,
      ),
  λ (vs, hm, hn).
      let m = marked first in
      let n = marked second in
      let (same, rest) =
        IsReading-compatible_from m n 0 m.word n.word vs
          (subst (λ l. IsReading l vs) (sym (letters_from-marked first)) hm)
          (subst (λ l. IsReading l vs) (sym (letters_from-marked second)) hn) in
      let same_size : (length m.word == length n.word) ≡ true = ground (arith, same) in
      rw same_size rest,
)
