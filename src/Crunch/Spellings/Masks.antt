-- ===== src/Crunch/Spellings/Masks.antt =====
-- The sets of places that the loop of `alternatesWithIorU` goes through.
use morcus_net.Prelude.{
  ℕ, zero, suc, ◌+◌, ◌*◌, ◌^◌, ◌<◌, ◌≡◌, ◌↔◌, inl, inr, refl, sym, ap, ◌∙◌, subst, arith, some,
  List, [], ◌∷◌, map, replicate, any, All, Bool, true, false, length, drop, Text, Memᴰ,
}
use mathlib.Core.List.Memᴰ.{head, tail, cases_cons}
use morcus_net.Crunch.Spellings.{increment, yield_all, modified_word}

-- Each set with the first place out of it and in it.
abbrev both : List (List Bool) → List (List Bool)
both [] = []
both (m ∷ ms) = (false ∷ m) ∷ (true ∷ m) ∷ both ms

-- All sets of n places.
unfoldable pub masks : ℕ → List (List Bool)
masks zero = [] ∷ []
masks (suc n) = both (masks n)

abbrev pub is_some : List Bool → Bool
is_some m = any (λ b. b) m

length-both : (ms : List (List Bool)) → length (both ms) ≡ 2 * length ms
length-both [] = refl
length-both (m ∷ ms) = omega (arith, length-both ms)

pub length-masks : (n : ℕ) → length (masks n) ≡ 2 ^ n
unfolding masks
length-masks zero = refl
length-masks (suc n) = omega (arith, length-both (masks n), length-masks n)

-- The sets are in the order of the loop: each is what the one in front is incremented to, and the last
-- one overflows.
data Counts : List (List Bool) → Type 0 where
  last : {p : List Bool} → (increment p).0 ≡ true → Counts (p ∷ [])
  next :
      {p q : List Bool} {ms : List (List Bool)}
      → (increment p).0 ≡ false
      → (increment p).1 ≡ q
      → Counts (q ∷ ms)
      → Counts (p ∷ q ∷ ms)

both-Counts : {ms : List (List Bool)} → Counts ms → Counts (both ms)
unfolding increment
both-Counts (last overflow) = next refl refl (last overflow)
both-Counts (next carry to_q below) =
    next refl refl (next carry (ap (λ q. false ∷ q) to_q) (both-Counts below))

masks-Counts : (n : ℕ) → Counts (masks n)
unfolding masks increment
masks-Counts zero = last refl
masks-Counts (suc n) = both-Counts (masks-Counts n)

-- The sets but the first, which is empty.
masks-first :
    (n : ℕ)
    → (rest : List (List Bool)) × (masks n ≡ replicate n false ∷ rest)
      × All (λ m. is_some m ≡ true) rest
unfolding masks
masks-first zero = ([], refl, tt)
masks-first (suc n) =
    let (rest, e, h) = masks-first n in
    ((true ∷ replicate n false) ∷ both rest, ap both e, (refl, both-All rest h))
  where
    both-All :
        (ms : List (List Bool))
        → All (λ m. is_some m ≡ true) ms
        → All (λ m. is_some m ≡ true) (both ms)
    both-All [] h = tt
    both-All (m ∷ ms) (here, below) = (here, (refl, both-All ms below))

module _ (word : Text) (ambigs : List ℕ) where
  -- The loop yields a word for each set from the one that it starts with, and then ends.
  yield_all-Counts :
      (fuel : ℕ) (p : List Bool) (ms : List (List Bool))
      → Counts (p ∷ ms)
      → length ms < fuel
      → yield_all fuel word ambigs p ≡ some (map (modified_word word ambigs) (p ∷ ms))
  unfolding yield_all
  yield_all-Counts zero p ms c h = absurd (omega arith)
  yield_all-Counts (suc fuel) p [] (last overflow) h = rw overflow refl
  yield_all-Counts (suc fuel) p (q ∷ ms) (next carry to_q below) h =
      rw (carry, to_q, yield_all-Counts fuel q ms below (omega arith)) refl

  -- From the first set with a place in it on.
  pub yield_all-masks :
      (n : ℕ)
      → yield_all (2 ^ suc n) word ambigs (true ∷ replicate n false)
        ≡ some (map (modified_word word ambigs) (drop 1 (masks (suc n))))
  unfolding masks
  yield_all-masks n =
      let (rest, e, h) = masks-first n in
      let counts : Counts ((false ∷ replicate n false) ∷ (true ∷ replicate n false) ∷ both rest) =
        subst Counts (ap both e) (masks-Counts (suc n)) in
      let size : length (both (masks n)) ≡ 2 + length (both rest) = rw e (omega arith) in
      rw e (
        yield_all-Counts (2 ^ suc n) (true ∷ replicate n false) (both rest) (rest_of counts)
          (omega (arith, size, length-masks (suc n))))
    where
      rest_of :
          {p : List Bool} {ms : List (List Bool)} {q : List Bool}
          → Counts (p ∷ q ∷ ms)
          → Counts (q ∷ ms)
      rest_of (next carry to_q below) = below

both-mem : (m : List Bool) (b : Bool) (ms : List (List Bool)) → Memᴰ m ms → Memᴰ (b ∷ m) (both ms)
both-mem m b [] h = elim h [ ]
both-mem m true (x ∷ ms) (head e) = tail (head (ap (λ q. true ∷ q) e))
both-mem m false (x ∷ ms) (head e) = head (ap (λ q. false ∷ q) e)
both-mem m b (x ∷ ms) (tail h) = tail (tail (both-mem m b ms h))

-- Each set is in the list.
masks-mem : (m : List Bool) → Memᴰ m (masks (length m))
unfolding masks
masks-mem [] = head refl
masks-mem (b ∷ m) = both-mem m b (masks (length m)) (masks-mem m)

both-length :
    (n : ℕ) (m : List Bool) (ms : List (List Bool))
    → All (λ q. length q ≡ n) ms
    → Memᴰ m (both ms)
    → length m ≡ suc n
both-length n m [] h found = elim found [ ]
both-length n m (x ∷ ms) (here, below) (head e) = ap length e ∙ ap suc here
both-length n m (x ∷ ms) (here, below) (tail (head e)) = ap length e ∙ ap suc here
both-length n m (x ∷ ms) (here, below) (tail (tail h)) = both-length n m ms below h

both-All-length :
    (n : ℕ) (ms : List (List Bool))
    → All (λ q. length q ≡ n) ms
    → All (λ q. length q ≡ suc n) (both ms)
both-All-length n [] h = tt
both-All-length n (m ∷ ms) (here, below) = (ap suc here, (ap suc here, both-All-length n ms below))

masks-All-length : (n : ℕ) → All (λ q. length q ≡ n) (masks n)
unfolding masks
masks-All-length zero = (refl, tt)
masks-All-length (suc n) = both-All-length n (masks n) (masks-All-length n)

All-mem : {A : Type 0} (P : A → Type 0) {a : A} (xs : List A) → All P xs → Memᴰ a xs → P a
All-mem P [] h found = elim found [ ]
All-mem P (x ∷ xs) (here, below) (head e) = subst P (sym e) here
All-mem P (x ∷ xs) (here, below) (tail m) = All-mem P xs below m

none_in_first : (n : ℕ) → is_some (replicate n false) ≡ false
none_in_first zero = refl
none_in_first (suc n) = none_in_first n

-- The sets behind the first are those of n places with at least one place in them.
pub drop-masks_iff :
    (n : ℕ) (m : List Bool) → Memᴰ m (drop 1 (masks n)) ↔ ((length m ≡ n) × (is_some m ≡ true))
drop-masks_iff n m =
    let (rest, e, h) = masks-first n in
    rw e (
      λ found.
          let in_all : Memᴰ m (masks n) = rw e (tail found) in
          (
            All-mem (λ q. length q ≡ n) (masks n) (masks-All-length n) in_all,
            All-mem (λ q. is_some q ≡ true) rest h found,
          ),
      λ (size, some_place).
          let in_all : Memᴰ m (masks n) = subst (λ k. Memᴰ m (masks k)) size (masks-mem m) in
          elim (cases_cons (subst (λ l. Memᴰ m l) e in_all)) [
            | inl is_first ↦
                let clash : true ≡ false = sym some_place ∙ ap is_some is_first ∙ none_in_first n in
                cc
            | inr found ↦ found
          ],
    )
