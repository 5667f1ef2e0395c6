-- ===== src/Packing/Numbers/RoundTrip.antt =====
-- Packed numbers are read back.
use native.Mathlib.Nat.{mul-div_cancel, zero-div}
use morcus_net.Prelude.{
  pos, difference, leb, ltb, ◌==◌, ap, ℕ, zero, suc, ◌+◌, ◌-◌, ◌*◌, ◌/◌, ◌^◌, ◌≤◌, ◌<◌, ◌≡◌, refl,
  ap, ◌∙◌, arith, inl, inr, Option, none, some, List, [], ◌∷◌, ltb, leb, lt→ltb, le→leb, true,
  false, length, get_elem?, replicate, All, ok,
}
use morcus_net.Packing.Buffers.{Bytes}
use morcus_net.Packing.Numbers.{
  bit, byte_at, read_bit, write_numbers, below_last, last_of, read_numbers, data_size, header_of,
  unused_bits, bits_in_header, pack_sorted_nats, unpack_integers, num_elements, get,
  bits_per_number,
}
use morcus_net.Packing.Numbers.Bits.{IsByte}
use morcus_net.Packing.Numbers.Fields.{
  write_data, write_number-data, length-write_data, write_data-IsByte, read_bit-write_data, Field,
  Clear, write_data-Field, Field-agree, read_number_lem,
}
use morcus_net.Packing.Numbers.Width.{
  le-two_pow-bits_per_number, bits_per_number-le, bits_per_number-pos,
}

-- Each number is at least the one before it.
abbrev pub From : ℕ → List ℕ → Type 0
From x [] = Unit
From x (y ∷ ys) = (x ≤ y) × From y ys

abbrev pub IsSorted : List ℕ → Type 0
IsSorted [] = Unit
IsSorted (x ∷ xs) = From x xs

pub From-last_of : (x : ℕ) (xs : List ℕ) → From x xs → x ≤ last_of x xs
From-last_of x [] h = omega arith
From-last_of x (y ∷ ys) h = omega (arith, From-last_of y ys h.1)

-- The data behind the header after the loop over the numbers.
write_all : ℕ → List ℕ → Bytes → ℕ → Bytes
write_all width [] d offset = d
write_all width (x ∷ xs) d offset =
    write_all width xs (write_data width x d offset) (offset + width)

abbrev IsNext : Option ℕ → List ℕ → Type 0
IsNext none xs = IsSorted xs
IsNext (some x) xs = From x xs

abbrev EndsBelow : ℕ → List ℕ → Type 0
EndsBelow n [] = Unit
EndsBelow n (x ∷ xs) = last_of x xs < n

EndsBelow-tail : (n x : ℕ) (xs : List ℕ) → EndsBelow n (x ∷ xs) → EndsBelow n xs
EndsBelow-tail n x [] h = tt
EndsBelow-tail n x (y ∷ ys) h = h

IsNext-head :
    (last : Option ℕ) (x : ℕ) (xs : List ℕ)
    → IsNext last (x ∷ xs)
    → (below_last last x ≡ false) × From x xs
IsNext-head none x xs h = (refl, h)
IsNext-head (some y) x xs h = ground arith

write_numbers-write_all :
    (width n : ℕ) (last : Option ℕ) (xs : List ℕ) (header : ℕ) (d : Bytes) (offset : ℕ)
    → IsNext last xs
    → EndsBelow n xs
    → write_numbers width n last xs (header ∷ d) offset ≡ ok (header ∷ write_all width xs d offset)
unfolding write_numbers write_all
write_numbers-write_all width n last [] header d offset sorted small = refl
write_numbers-write_all width n last (x ∷ xs) header d offset sorted small =
    let (ordered, rest) = IsNext-head last x xs sorted in
    let below : ltb x n ≡ true = lt→ltb _ _ (omega (arith, From-last_of x xs rest)) in
    rw (ordered, below, write_number-data width x header d offset)
      (write_numbers-write_all width n (some x) xs header (write_data width x d offset)
        (offset + width) rest (EndsBelow-tail n x xs small))

-- The numbers stand one behind the other.
abbrev Fields : ℕ → List ℕ → Bytes → ℕ → Type 0
Fields width [] d offset = Unit
Fields width (x ∷ xs) d offset = Field width x d offset × Fields width xs d (offset + width)

length-write_all :
    (width : ℕ) (xs : List ℕ) (d : Bytes) (offset : ℕ)
    → length (write_all width xs d offset) ≡ length d
unfolding write_all
length-write_all width [] d offset = refl
length-write_all width (x ∷ xs) d offset =
    length-write_all width xs (write_data width x d offset) (offset + width)
    ∙ length-write_data width x d offset

read_bit-write_all :
    (width : ℕ) (xs : List ℕ) (d : Bytes) (offset i : ℕ)
    → All IsByte d
    → offset + length xs * width ≤ length d * 8
    → i < offset
    → read_bit (write_all width xs d offset) i ≡ read_bit d i
unfolding write_all
read_bit-write_all width [] d offset i h room lt = refl
read_bit-write_all width (x ∷ xs) d offset i h room lt =
    read_bit-write_all width xs (write_data width x d offset) (offset + width) i
      (write_data-IsByte width x d offset h) (omega (arith, length-write_data width x d offset))
      (omega arith)
    ∙ read_bit-write_data width x d offset i h (omega arith) (inl lt)

write_all-Fields :
    (width : ℕ) (xs : List ℕ) (d : Bytes) (offset : ℕ)
    → All IsByte d
    → offset + length xs * width ≤ length d * 8
    → Clear d offset
    → Fields width xs (write_all width xs d offset) offset
unfolding write_all
write_all-Fields width [] d offset h room clear = tt
write_all-Fields width (x ∷ xs) d offset h room clear =
    let d' = write_data width x d offset in
    let bytes = write_data-IsByte width x d offset h in
    let room' : offset + width + length xs * width ≤ length d' * 8 =
      omega (arith, length-write_data width x d offset) in
    let clear' : Clear d' (offset + width) = λ i le.
      read_bit-write_data width x d offset i h (omega arith) (inr le) ∙ clear i (omega arith) in
    (
      Field-agree width x d' (write_all width xs d' (offset + width)) offset
          (λ i lt. read_bit-write_all width xs d' (offset + width) i bytes room' lt)
          (write_data-Field width x d offset h (omega arith) clear),
      write_all-Fields width xs d' (offset + width) bytes room' clear',
    )

-- The loop of `unpackIntegers` reads as many numbers as the valid bits hold.
read_numbers-Fields :
    (fuel width valid : ℕ) (xs : List ℕ) (d : Bytes) (offset : ℕ)
    → 0 < width
    → length xs < fuel
    → offset + length xs * width ≡ valid
    → All (λ x. x < 2 ^ width) xs
    → Fields width xs d offset
    → read_numbers fuel width valid d offset ≡ xs
unfolding read_numbers
read_numbers-Fields zero width valid xs d offset positive enough whole small fields =
    absurd (omega arith)
read_numbers-Fields (suc fuel) width valid [] d offset positive enough whole small fields =
    ground arith
read_numbers-Fields (suc fuel) width valid (x ∷ xs) d offset positive enough whole small fields =
    let more : leb (offset + width) valid ≡ true = le→leb _ _ (omega arith) in
    rw (more, read_number_lem width x d offset small.0 fields.0)
      (ap (λ (t : List ℕ). x ∷ t)
        (read_numbers-Fields fuel width valid xs d (offset + width) positive (omega arith)
          (omega arith) small.1 fields.1))

-- The parts of the packed form of `x ∷ xs`.
abbrev width_of : ℕ → List ℕ → ℕ
width_of x xs = bits_per_number (last_of x xs + 1)

abbrev total_of : ℕ → List ℕ → ℕ
total_of x xs = suc (length xs) * width_of x xs

abbrev unused_of : ℕ → List ℕ → ℕ
unused_of x xs = data_size (total_of x xs) * 8 - total_of x xs

data_of : ℕ → List ℕ → Bytes
data_of x xs = write_all (width_of x xs) (x ∷ xs) (replicate (data_size (total_of x xs)) 0) 0

zeros-IsByte : (n : ℕ) → All IsByte (replicate n 0)
zeros-IsByte zero = tt
zeros-IsByte (suc n) = (omega arith, zeros-IsByte n)

byte_at-zeros : (n i : ℕ) → byte_at (replicate n 0) i ≡ 0
unfolding byte_at
byte_at-zeros zero i = refl
byte_at-zeros (suc n) zero = refl
byte_at-zeros (suc n) (suc i) = byte_at-zeros n i

zeros-Clear : (n m : ℕ) → Clear (replicate n 0) m
unfolding read_bit bit
zeros-Clear n m i le = rw (byte_at-zeros n (i / 8), zero-div)

length-zeros : (n : ℕ) → length (replicate {A = ℕ} n 0) ≡ n
length-zeros zero = refl
length-zeros (suc n) = ap suc (length-zeros n)

All-small : (n x : ℕ) (xs : List ℕ) → From x xs → last_of x xs < n → All (λ y. y < n) (x ∷ xs)
All-small n x [] h lt = (lt, tt)
All-small n x (y ∷ ys) h lt = (omega (arith, From-last_of y ys h.1), All-small n y ys h.1 lt)

le-mul_pos : (n w : ℕ) → 0 < w → n ≤ n * w
le-mul_pos n w h = grind arith

module _ (x : ℕ) (xs : List ℕ) (sorted : From x xs) where
  data_of-Fields : Fields (width_of x xs) (x ∷ xs) (data_of x xs) 0
  unfolding data_of
  data_of-Fields =
      let size = data_size (total_of x xs) in
      write_all-Fields (width_of x xs) (x ∷ xs) (replicate size 0) 0 (zeros-IsByte size)
        (omega (arith, length-zeros size)) (zeros-Clear size 0)

  length-data_of : length (data_of x xs) ≡ data_size (total_of x xs)
  unfolding data_of
  length-data_of =
      length-write_all (width_of x xs) (x ∷ xs) (replicate (data_size (total_of x xs)) 0) 0
      ∙ length-zeros (data_size (total_of x xs))

  fits_width : All (λ y. y < 2 ^ width_of x xs) (x ∷ xs)
  fits_width =
      All-small (2 ^ width_of x xs) x xs sorted
        (omega (arith, le-two_pow-bits_per_number (last_of x xs + 1)))

  pack-data_of :
      last_of x xs < 2 ^ 31
      → pack_sorted_nats (x ∷ xs) ≡ ok (header_of (unused_of x xs) (width_of x xs) ∷ data_of x xs)
  unfolding pack_sorted_nats data_of
  pack-data_of small =
      let narrow : leb (width_of x xs) 31 ≡ true =
        le→leb _ _ (bits_per_number-le (last_of x xs + 1) 31 (omega arith) (omega arith)) in
      let rest : ltb (unused_of x xs) 8 ≡ true = lt→ltb _ _ (omega arith) in
      rw (narrow, rest)
        (write_numbers-write_all (width_of x xs) (last_of x xs + 1) none (x ∷ xs) _ _ 0 sorted
          (omega arith))

  -- What the header says.
  header-fields :
      last_of x xs < 2 ^ 31
      → let header = header_of (unused_of x xs) (width_of x xs) in
        (bits_in_header header ≡ width_of x xs)
        × (data_size (total_of x xs) * 8 - unused_bits header ≡ total_of x xs)
        × (0 < width_of x xs)
        × (0 < data_size (total_of x xs))
  header-fields small =
      let positive = bits_per_number-pos (last_of x xs + 1) (omega arith) in
      let narrow = bits_per_number-le (last_of x xs + 1) 31 (omega arith) (omega arith) in
      let some_bits : 0 < total_of x xs = grind arith in
      (omega arith, omega arith, positive, omega arith)

  unpack-data_of :
      last_of x xs < 2 ^ 31
      → unpack_integers (header_of (unused_of x xs) (width_of x xs) ∷ data_of x xs) ≡ ok (x ∷ xs)
  unfolding unpack_integers
  unpack-data_of small =
      let (width, valid, positive, some_data) = header-fields small in
      let wide : ltb 0 (width_of x xs) ≡ true = lt→ltb _ _ positive in
      let reads =
        read_numbers-Fields (suc (total_of x xs)) (width_of x xs) (total_of x xs) (x ∷ xs)
          (data_of x xs) 0 positive
          (omega (arith, le-mul_pos (suc (length xs)) (width_of x xs) positive)) (omega arith)
          fits_width data_of-Fields in
      rw (width, length-data_of, valid, wide, reads) (ground arith)

Fields-get :
    (width : ℕ) (xs : List ℕ) (d : Bytes) (offset i : ℕ) {x : ℕ}
    → Fields width xs d offset
    → All (λ y. y < 2 ^ width) xs
    → get_elem? xs i ≡ some x
    → Field width x d (offset + i * width) × (x < 2 ^ width)
Fields-get width [] d offset i fields small e = cc
Fields-get width (y ∷ xs) d offset zero {x} fields small e =
    let same : y ≡ x = ground arith in
    let here : offset + 0 * width ≡ offset = omega arith in rw (← same, here) (fields.0, small.0)
Fields-get width (y ∷ xs) d offset (suc i) fields small e =
    let further : offset + suc i * width ≡ offset + width + i * width = omega arith in
    rw further (Fields-get width xs d (offset + width) i fields.1 small.1 e)

pub last_of-lt : (n x : ℕ) (xs : List ℕ) → All (λ y. y < n) (x ∷ xs) → last_of x xs < n
last_of-lt n x [] h = h.0
last_of-lt n x (y ∷ ys) h = last_of-lt n y ys h.1

-- What the readers of a packed array give.
pub record Reads (xs : List ℕ) (packed : Bytes) : Type 0 where
  pub unpacked : unpack_integers packed ≡ ok xs
  pub counted : num_elements packed ≡ pos (length xs)
  pub element : (i : ℕ) {x : ℕ} → get_elem? xs i ≡ some x → get packed i ≡ x

difference-pos : (a b c : ℕ) → a - b ≡ c → 0 < c → difference a b ≡ pos c
difference-pos a b c e h = let fits : leb b a ≡ true = ground arith in rw (fits, e) refl

module _ (x : ℕ) (xs : List ℕ) (sorted : From x xs) (small : last_of x xs < 2 ^ 31) where
  num_elements-data_of :
      num_elements (header_of (unused_of x xs) (width_of x xs) ∷ data_of x xs)
      ≡ pos (suc (length xs))
  unfolding num_elements byte_at
  num_elements-data_of =
      let (width, valid, positive, some_data) = header-fields x xs sorted small in
      let size : length (header_of (unused_of x xs) (width_of x xs) ∷ data_of x xs) - 1
          ≡ data_size (total_of x xs) =
        omega (arith, length-data_of x xs sorted) in
      let some_total : 0 < total_of x xs =
        omega (arith, le-mul_pos (suc (length xs)) (width_of x xs) positive) in
      let total = difference-pos _ _ (total_of x xs) valid some_total in
      let wide : (width_of x xs == 0) ≡ false = ground arith in
      rw (size, width, total, wide) (ap pos (mul-div_cancel (suc (length xs)) positive))

  get-data_of :
      (i : ℕ) {y : ℕ}
      → get_elem? (x ∷ xs) i ≡ some y
      → get (header_of (unused_of x xs) (width_of x xs) ∷ data_of x xs) i ≡ y
  unfolding get byte_at
  get-data_of i {y} e =
      let (width, valid, positive, some_data) = header-fields x xs sorted small in
      let (field, fits) =
        Fields-get (width_of x xs) (x ∷ xs) (data_of x xs) 0 i (data_of-Fields x xs sorted)
          (fits_width x xs sorted) e in
      let start : 0 + i * width_of x xs ≡ i * width_of x xs = omega arith in
      rw width (
        read_number_lem (width_of x xs) y (data_of x xs) (i * width_of x xs) fits
          (rw start at field))

-- Sorted naturals below 2 ^ 31 are packed without an error, and then: unpacking gives the same
-- numbers, their count is read from the array, and so is the number at each index.
pub pack_sorted_nats-Reads :
    (xs : List ℕ)
    → IsSorted xs
    → All (λ x. x < 2 ^ 31) xs
    → (packed : Bytes) × (pack_sorted_nats xs ≡ ok packed) × Reads xs packed
pack_sorted_nats-Reads [] sorted small = (
  0 ∷ [],
  unfold pack_sorted_nats in refl,
  record {
    unpacked = unfold unpack_integers in refl;
    counted = unfold num_elements byte_at in refl;
    element = λ i e. cc;
  },
)
pack_sorted_nats-Reads (x ∷ xs) sorted small =
    let below = last_of-lt (2 ^ 31) x xs small in
    (
      header_of (unused_of x xs) (width_of x xs) ∷ data_of x xs,
      pack-data_of x xs sorted below,
      record {
        unpacked = unpack-data_of x xs sorted below;
        counted = num_elements-data_of x xs sorted below;
        element = λ i e. get-data_of x xs sorted below i e;
      },
    )
