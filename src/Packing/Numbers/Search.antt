-- ===== src/Packing/Numbers/Search.antt =====
-- `PackedNumbers.hasValueInRange`: the binary search answers as a scan of the numbers would.
use morcus_net.Prelude.{
  ℕ, zero, suc, ◌+◌, ◌-◌, ◌/◌, ◌^◌, ◌≤◌, ◌<◌, ◌≡◌, refl, sym, ◌∙◌, arith, inl, inr, Bool-cases,
  some, List, [], ◌∷◌, ltb, leb, lt→ltb, ltb→lt, if◌then◌else◌, Bool, true, false, ◌&&◌, length,
  get_elem?, any, All, Result, ok, err, assert, ◌>>◌,
}
use native.Mathlib.Decide.{dec_lt}
use morcus_net.Packing.Buffers.{Bytes}
use morcus_net.Packing.Numbers.{
  search_range, has_value_in_range, ValueRange, low_target, high_target, bad_range,
  pack_sorted_nats,
}
use morcus_net.Packing.Numbers.RoundTrip.{From, IsSorted, Reads, pack_sorted_nats-Reads}

abbrev pub in_range : ℕ → ℕ → ℕ → Bool
in_range lo hi x = leb lo x && leb x hi

From-get_elem? : (x : ℕ) (xs : List ℕ) (i : ℕ) {y : ℕ} → From x xs → get_elem? xs i ≡ some y → x ≤ y
From-get_elem? x [] i h e = cc
From-get_elem? x (z ∷ xs) zero h e = ground arith
From-get_elem? x (z ∷ xs) (suc i) {y} h e =
    let later : z ≤ y = From-get_elem? z xs i h.1 e in omega arith

-- In a sorted list a later element is at least as large.
IsSorted-get_elem? :
    (xs : List ℕ) (i j : ℕ) {x y : ℕ}
    → IsSorted xs
    → i ≤ j
    → get_elem? xs i ≡ some x
    → get_elem? xs j ≡ some y
    → x ≤ y
IsSorted-get_elem? [] i j h le e f = cc
IsSorted-get_elem? (z ∷ xs) zero zero h le e f = ground arith
IsSorted-get_elem? (z ∷ xs) zero (suc j) {x} {y} h le e f =
    let later : z ≤ y = From-get_elem? z xs j h f in ground arith
IsSorted-get_elem? (z ∷ xs) (suc i) zero h le e f = absurd (omega arith)
IsSorted-get_elem? (z ∷ []) (suc i) (suc j) h le e f = cc
IsSorted-get_elem? (z ∷ w ∷ xs) (suc i) (suc j) h le e f =
    IsSorted-get_elem? (w ∷ xs) i j h.1 (omega arith) e f

get_elem?-some :
    {A : Type 0} (xs : List A) (i : ℕ) → i < length xs → (x : A) × (get_elem? xs i ≡ some x)
get_elem?-some [] i h = absurd (omega arith)
get_elem?-some (x ∷ xs) zero h = (x, refl)
get_elem?-some (x ∷ xs) (suc i) h = get_elem?-some xs i (omega arith)

any_of_get_elem? :
    (p : ℕ → Bool) (xs : List ℕ) (i : ℕ) {x : ℕ}
    → get_elem? xs i ≡ some x
    → p x ≡ true
    → any p xs ≡ true
any_of_get_elem? p [] i e h = cc
any_of_get_elem? p (y ∷ xs) zero e h = ground arith
any_of_get_elem? p (y ∷ xs) (suc i) e h = ground (arith, any_of_get_elem? p xs i e h)

get_elem?_of_any :
    (p : ℕ → Bool) (xs : List ℕ)
    → any p xs ≡ true
    → (i : ℕ) × (x : ℕ) × (get_elem? xs i ≡ some x) × (p x ≡ true) × (i < length xs)
get_elem?_of_any p [] h = cc
get_elem?_of_any p (y ∷ xs) h = elim (Bool-cases (p y)) [
  | inl here ↦ (0, y, refl, here, omega arith)
  | inr later ↦
      let (i, x, e, t, lt) = get_elem?_of_any p xs (ground arith) in (suc i, x, e, t, omega arith)
]

module _ (xs : List ℕ) (packed : Bytes) (lo hi : ℕ) (reads : Reads xs packed)
    (sorted : IsSorted xs) where
  search_sound :
      (fuel low end : ℕ)
      → end ≤ length xs
      → search_range fuel packed lo hi low end ≡ true
      → any (in_range lo hi) xs ≡ true
  unfolding search_range
  search_sound zero low end le h = cc
  search_sound (suc fuel) low end le h = elim (Bool-cases (ltb low end)) [
    | inr done ↦ cc (rw done at h)
    | inl more ↦
        let mid = (low + (end - 1)) / 2 in
        let lt = ltb→lt low end more in
        let (x, e) = get_elem?-some xs mid (omega arith) in
        let value = reads.element mid e in
        ground (
          arith,
          value,
          search_sound fuel (mid + 1) end le,
          search_sound fuel low mid (omega arith),
          any_of_get_elem? (in_range lo hi) xs mid e,
        )
  ]

  index_after :
      (i j : ℕ) {x y : ℕ} → get_elem? xs i ≡ some x → get_elem? xs j ≡ some y → y < x → j < i
  index_after i j {x} {y} e f lt = elim (dec_lt j i) [
    | yes after ↦ after
    | no before ↦ absurd (omega (arith, IsSorted-get_elem? xs i j sorted (omega arith) e f))
  ]

  search_complete :
      (fuel low end i : ℕ) {x : ℕ}
      → end ≤ length xs
      → end < low + fuel
      → low ≤ i
      → i < end
      → get_elem? xs i ≡ some x
      → lo ≤ x
      → x ≤ hi
      → search_range fuel packed lo hi low end ≡ true
  unfolding search_range
  search_complete zero low end i le enough from to e above below = absurd (omega arith)
  search_complete (suc fuel) low end i {x} le enough from to e above below =
      let mid = (low + (end - 1)) / 2 in
      let more : ltb low end ≡ true = lt→ltb low end (omega arith) in
      let (y, f) = get_elem?-some xs mid (omega arith) in
      rw (more, reads.element mid f)
        (elim (Bool-cases (ltb y lo)) [
          | inl small ↦
              let after = index_after i mid e f (omega (arith, ltb→lt y lo small)) in
              rw small (
                search_complete fuel (mid + 1) end i le (omega arith) (omega arith) to e above
                  below)
          | inr other ↦ rw other (elim (Bool-cases (ltb hi y)) [
            | inl large ↦
                let before = index_after mid i f e (omega (arith, ltb→lt hi y large)) in
                rw large (
                  search_complete fuel low mid i (omega arith) (omega arith) from before e above
                    below)
            | inr found ↦ rw found
          ])
        ])

  search_range-any :
      search_range (suc (length xs)) packed lo hi 0 (length xs) ≡ any (in_range lo hi) xs
  search_range-any = elim (Bool-cases (search_range (suc (length xs)) packed lo hi 0 (length xs))) [
    | inl found ↦ found ∙ sym (search_sound (suc (length xs)) 0 (length xs) (omega arith) found)
    | inr missed ↦ elim (Bool-cases (any (in_range lo hi) xs)) [
      | inr no_one ↦ missed ∙ sym no_one
      | inl one ↦
          let (i, x, e, inside, lt) = get_elem?_of_any (in_range lo hi) xs one in
          cc (
            search_complete (suc (length xs)) 0 (length xs) i (omega arith) (omega arith)
              (omega arith) lt e (ground arith) (ground arith))
    ]
  ]

assert-if :
    {E A : Type 0} (b : Bool) (e : E) (a : A)
    → ◌≡◌ {A = Result E A} (assert b e >> ok a) (if b then ok a else err e)
assert-if true e a = refl
assert-if false e a = refl

-- For the packed form of sorted numbers, `hasValueInRange` throws if the range is empty, and
-- otherwise says whether some number lies in the range.
pub has_value_in_range-any :
    (xs : List ℕ) (packed : Bytes) (range : ValueRange)
    → IsSorted xs
    → All (λ x. x < 2 ^ 31) xs
    → pack_sorted_nats xs ≡ ok packed
    → has_value_in_range packed range ≡ (
        if leb (low_target range) (high_target range)
        then ok (any (in_range (low_target range) (high_target range)) xs)
        else err bad_range)
unfolding has_value_in_range
has_value_in_range-any xs packed range sorted small e =
    let (packed', e', reads') = pack_sorted_nats-Reads xs sorted small in
    let same : packed' ≡ packed = ground arith in
    let reads : Reads xs packed = rw same at reads' in
    rw
      (
        reads.counted,
        search_range-any xs packed (low_target range) (high_target range) reads sorted,
      )
      (assert-if (leb (low_target range) (high_target range)) _ _)
