-- ===== src/Crunch/Lengths/Stripped.antt =====
-- `stripCombiners` of src/common/character_utils.ts: the letters that the marks it keeps belong to.
use morcus_net.Prelude.{
  ℕ, suc, ◌≤◌, ◌==◌, ◌≡◌, inl, inr, sym, ap, ◌∙◌, arith, List, [], ◌∷◌, ◌++◌, append_assoc,
  append-nil, All, All-append, Bool-cases, true, false, ◌||◌, length, length-append, subst, Text,
}
use morcus_net.Crunch.Lengths.{Marked, strip_marks, marked}
use morcus_net.Crunch.Lengths.Letters.{
  Marks, own_marks, add_marks, read_letters, letters_of, letters_from, mark_last, mark_last-none,
  mark_last-twice, mark_last-append, mark_long, mark_short, letters_of_letter, AreReached, later,
}

-- What the letters of `m` become by reading on up to `n`.
abbrev ReadsOn : Marked → Marked → Marks × List Marks → Type 0
ReadsOn m n (pending, letters) =
    letters_from n 0 n.word ≡ mark_last (letters_from m 0 m.word) pending ++ letters

ReadsOn-long :
    (m n : Marked) (p : Marks) (l : List Marks)
    → ReadsOn (record m { longs = m.longs ++ (length m.word ∷ []) }) n (p, l)
    → ReadsOn m n ((true, p.1), l)
ReadsOn-long m n p l h =
    h
    ∙ ap (λ x. mark_last x p ++ l) (mark_long m 0 m.word (length m.word) (omega arith))
    ∙ ap (λ x. x ++ l) (mark_last-twice (letters_from m 0 m.word) (true, false) p)

ReadsOn-short :
    (m n : Marked) (p : Marks) (l : List Marks)
    → ReadsOn (record m { shorts = m.shorts ++ (length m.word ∷ []) }) n (p, l)
    → ReadsOn m n ((p.0, true), l)
ReadsOn-short m n p l h =
    h
    ∙ ap (λ x. mark_last x p ++ l) (mark_short m 0 m.word (length m.word) (omega arith))
    ∙ ap (λ x. x ++ l) (mark_last-twice (letters_from m 0 m.word) (false, true) p)

ReadsOn-letter :
    (m n : Marked) (c : ℕ) (p : Marks) (l : List Marks)
    → AreReached m
    → ReadsOn (record m { word = m.word ++ (c ∷ []) }) n (p, l)
    → ReadsOn m n ((false, false), add_marks (own_marks c) p ∷ l)
ReadsOn-letter m n c p l reached h =
    h
    ∙ ap (λ x. mark_last x p ++ l) (letters_of_letter m c reached)
    ∙ ap (λ x. x ++ l) (mark_last-append (letters_from m 0 m.word) (own_marks c) p)
    ∙ append_assoc (letters_from m 0 m.word) (add_marks (own_marks c) p ∷ []) l
    ∙ ap (λ x. x ++ (add_marks (own_marks c) p ∷ l))
        (sym (mark_last-none (letters_from m 0 m.word)))

abbrev with_long : Marked → Marked
with_long m = record m { longs = m.longs ++ (length m.word ∷ []) }

abbrev with_short : Marked → Marked
with_short m = record m { shorts = m.shorts ++ (length m.word ∷ []) }

abbrev with_letter : Marked → ℕ → Marked
with_letter m c = record m { word = m.word ++ (c ∷ []) }

All-append_last : (l : List ℕ) (n : ℕ) → All (λ p. p ≤ n) l → All (λ p. p ≤ n) (l ++ (n ∷ []))
All-append_last l n h = All-append (λ p. p ≤ n) l (n ∷ []) h (omega arith, tt)

with_letter-AreReached : (m : Marked) (c : ℕ) → AreReached m → AreReached (with_letter m c)
with_letter-AreReached m c (longs, shorts) =
    let longer : suc (length m.word) ≡ length (m.word ++ (c ∷ [])) =
      omega (arith, length-append m.word (c ∷ [])) in
    subst (λ n. All (λ p. p ≤ n) m.longs × All (λ p. p ≤ n) m.shorts) longer
      (later m.longs (length m.word) longs, later m.shorts (length m.word) shorts)

-- Reading on from what is read so far: marks in front of the next letter go to the last one.
strip_marks-ReadsOn :
    (m : Marked) (s : Text) → AreReached m → ReadsOn m (strip_marks m s) (read_letters s)
unfolding strip_marks read_letters
strip_marks-ReadsOn m [] reached =
    sym (mark_last-none (letters_from m 0 m.word))
    ∙ sym (append-nil (mark_last (letters_from m 0 m.word) (false, false)))
strip_marks-ReadsOn m (c ∷ s) (longs, shorts) =
    let (p, l) = read_letters s in
    elim (Bool-cases (c == b'+')) [
      | inl plus ↦ rw plus (strip_marks-ReadsOn m s (longs, shorts))
      | inr no_plus ↦ elim (Bool-cases (c == 0x304 || c == b'_')) [
        | inl macron ↦
            rw (no_plus, macron)
              (ReadsOn-long m (strip_marks (with_long m) s) p l (
                strip_marks-ReadsOn (with_long m) s
                  (All-append_last m.longs (length m.word) longs, shorts)))
        | inr no_macron ↦ elim (Bool-cases (c == 0x306 || c == b'^')) [
          | inl breve ↦
              rw (no_plus, no_macron, breve)
                (ReadsOn-short m (strip_marks (with_short m) s) p l (
                  strip_marks-ReadsOn (with_short m) s
                    (longs, All-append_last m.shorts (length m.word) shorts)))
          | inr letter ↦
              rw (no_plus, no_macron, letter)
                (ReadsOn-letter m (strip_marks (with_letter m c) s) c p l (longs, shorts)
                  (strip_marks-ReadsOn (with_letter m c) s
                    (with_letter-AreReached m c (longs, shorts))))
        ]
      ]
    ]

-- The places that the source keeps give the letters with their marks.
pub letters_from-marked : (s : Text) → letters_from (marked s) 0 (marked s).word ≡ letters_of s
unfolding marked letters_from mark_last
letters_from-marked s =
    strip_marks-ReadsOn (record { word = []; longs = []; shorts = [] }) s (tt, tt)
