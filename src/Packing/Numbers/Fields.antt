-- ===== src/Packing/Numbers/Fields.antt =====
-- A number as a field of bits: what the writing loops leave in the data, and what the reading loop
-- makes of it.
use native.Mathlib.Nat.{div-div-eq-div-mul, pow-suc, one-le-pow, mul-div_cancel, div-eq_of_lt}
use morcus_net.Prelude.{
  ℕ, zero, suc, ◌+◌, ◌-◌, ◌*◌, ◌/◌, ◌%◌, ◌^◌, ◌≤◌, ◌<◌, ◌≡◌, refl, sym, ap, ◌∙◌, arith, ◌⊎◌, inl,
  ◌∷◌, ◌==◌, if◌then◌else◌, ◌&&◌, length, All,
}
use morcus_net.Packing.Buffers.{Bytes}
use morcus_net.Packing.Numbers.{bit, set_bit, or_at, read_bit, write_number, read_number}
use morcus_net.Packing.Numbers.Bits.{IsByte, length-or_at, or_at-IsByte, read_bit-or_at}

-- One bit of the data, behind the header.
put : Bytes → ℕ → ℕ → Bytes
put data_buffer offset b =
    if b == 1 then or_at data_buffer (offset / 8) (7 - offset % 8) else data_buffer

-- The writing loop on the data alone.
pub write_data : ℕ → ℕ → Bytes → ℕ → Bytes
write_data zero num data_buffer offset = data_buffer
write_data (suc j) num data_buffer offset =
    write_data j num (put data_buffer offset (bit num j)) (offset + 1)

pub write_number-data :
    (j num header : ℕ) (data_buffer : Bytes) (offset : ℕ)
    → write_number j num (header ∷ data_buffer) offset
      ≡ header ∷ write_data j num data_buffer offset
unfolding write_number write_data put or_at
write_number-data zero num header data_buffer offset = refl
write_number-data (suc j) num header data_buffer offset =
    let behind : 1 + offset / 8 ≡ suc (offset / 8) = omega arith in
    rw behind (
      ground (
        arith,
        write_number-data j num header (or_at data_buffer (offset / 8) (7 - offset % 8))
            (offset + 1),
        write_number-data j num header data_buffer (offset + 1),
      ))

module _ (data_buffer : Bytes) (offset b : ℕ) where
  length-put : length (put data_buffer offset b) ≡ length data_buffer
  unfolding put
  length-put = ground (arith, length-or_at data_buffer (offset / 8) (7 - offset % 8))

  put-IsByte : All IsByte data_buffer → All IsByte (put data_buffer offset b)
  unfolding put
  put-IsByte h = ground (arith, or_at-IsByte data_buffer (offset / 8) (7 - offset % 8))

  read_bit-put :
      (i : ℕ)
      → All IsByte data_buffer
      → offset < length data_buffer * 8
      → read_bit (put data_buffer offset b) i
        ≡ (if (b == 1) && (offset == i) then 1 else read_bit data_buffer i)
  unfolding put
  read_bit-put i h lt = ground (arith, read_bit-or_at data_buffer offset i h lt)

pub length-write_data :
    (j num : ℕ) (data_buffer : Bytes) (offset : ℕ)
    → length (write_data j num data_buffer offset) ≡ length data_buffer
unfolding write_data
length-write_data zero num data_buffer offset = refl
length-write_data (suc j) num data_buffer offset =
    length-write_data j num (put data_buffer offset (bit num j)) (offset + 1)
    ∙ length-put data_buffer offset (bit num j)

pub write_data-IsByte :
    (j num : ℕ) (data_buffer : Bytes) (offset : ℕ)
    → All IsByte data_buffer
    → All IsByte (write_data j num data_buffer offset)
unfolding write_data
write_data-IsByte zero num data_buffer offset h = h
write_data-IsByte (suc j) num data_buffer offset h =
    write_data-IsByte j num (put data_buffer offset (bit num j)) (offset + 1)
      (put-IsByte data_buffer offset (bit num j) h)

-- The loop leaves the bits in front of the field and behind it.
pub read_bit-write_data :
    (j num : ℕ) (data_buffer : Bytes) (offset i : ℕ)
    → All IsByte data_buffer
    → offset + j ≤ length data_buffer * 8
    → (i < offset) ⊎ (offset + j ≤ i)
    → read_bit (write_data j num data_buffer offset) i ≡ read_bit data_buffer i
unfolding write_data
read_bit-write_data zero num data_buffer offset i h room out = refl
read_bit-write_data (suc j) num data_buffer offset i h room out =
    let b = bit num j in
    let later =
      read_bit-write_data j num (put data_buffer offset b) (offset + 1) i
        (put-IsByte data_buffer offset b h) (omega (arith, length-put data_buffer offset b))
        (ground arith) in
    later ∙ ground (arith, read_bit-put data_buffer offset b i h (omega arith))

-- The bits `j - 1` down to 0 of `num` stand at `offset`.
abbrev pub Field : ℕ → ℕ → Bytes → ℕ → Type 0
Field zero num data_buffer offset = Unit
Field (suc j) num data_buffer offset =
    (read_bit data_buffer offset ≡ bit num j) × Field j num data_buffer (offset + 1)

abbrev pub Clear : Bytes → ℕ → Type 0
Clear data_buffer n = (i : ℕ) → n ≤ i → read_bit data_buffer i ≡ 0

bit-lt : (x k : ℕ) → bit x k < 2
unfolding bit
bit-lt x k = omega arith

-- The loop writes the field into zeros.
pub write_data-Field :
    (j num : ℕ) (data_buffer : Bytes) (offset : ℕ)
    → All IsByte data_buffer
    → offset + j ≤ length data_buffer * 8
    → Clear data_buffer offset
    → Field j num (write_data j num data_buffer offset) offset
unfolding write_data
write_data-Field zero num data_buffer offset h room clear = tt
write_data-Field (suc j) num data_buffer offset h room clear =
    let b = bit num j in
    let bytes = put-IsByte data_buffer offset b h in
    let room' : offset + 1 + j ≤ length (put data_buffer offset b) * 8 =
      omega (arith, length-put data_buffer offset b) in
    let first : read_bit (put data_buffer offset b) offset ≡ b = ground (
      arith,
      read_bit-put data_buffer offset b offset h (omega arith),
      clear offset (omega arith),
      bit-lt num j,
    ) in
    let clear' : Clear (put data_buffer offset b) (offset + 1) = λ i le.
      ground (arith, read_bit-put data_buffer offset b i h (omega arith), clear i (omega arith)) in
    (
      read_bit-write_data j num (put data_buffer offset b) (offset + 1) offset bytes room'
            (inl (omega arith))
          ∙ first,
      write_data-Field j num (put data_buffer offset b) (offset + 1) bytes room' clear',
    )

-- A field stands where the bits agree.
pub Field-agree :
    (j num : ℕ) (d d' : Bytes) (offset : ℕ)
    → ((i : ℕ) → i < offset + j → read_bit d' i ≡ read_bit d i)
    → Field j num d offset
    → Field j num d' offset
Field-agree zero num d d' offset same field = tt
Field-agree (suc j) num d d' offset same (here, later) = (
  same offset (omega arith) ∙ here,
  Field-agree j num d d' (offset + 1) (λ i lt. same i (omega arith)) later,
)

-- The top part of `num`, above its `j` lowest bits.
abbrev top : ℕ → ℕ → ℕ
top num j = num / 2 ^ j * 2 ^ j

pub pos_pow : (j : ℕ) → 0 < 2 ^ j
pos_pow j = one-le-pow j 2 (omega arith)

pow-suc_two : (num j : ℕ) → num / 2 ^ suc j ≡ num / 2 ^ j / 2
pow-suc_two num j = rw pow-suc (sym (div-div-eq-div-mul num (2 ^ j) 2))

halves : (a p : ℕ) → a * p ≡ a / 2 * (p * 2) + a % 2 * p
halves a p = let e : a ≡ a / 2 * 2 + a % 2 = omega arith in omega (arith, ap (λ (t : ℕ). t * p) e)

top-suc : (num j : ℕ) → top num j ≡ top num (suc j) + bit num j * 2 ^ j
unfolding bit
top-suc num j = rw (pow-suc_two num j, pow-suc 2 j) (halves (num / 2 ^ j) (2 ^ j))

even_multiple : (a p : ℕ) → 0 < p → a * (p * 2) / p % 2 ≡ 0
even_multiple a p h =
    let e : a * (p * 2) ≡ a * 2 * p = omega arith in rw (e, mul-div_cancel (a * 2) h) (omega arith)

bit-top : (num j : ℕ) → bit (top num (suc j)) j ≡ 0
unfolding bit
bit-top num j = rw (pow-suc 2 j) (even_multiple _ (2 ^ j) (pos_pow j))

-- One round of the reading loop.
set_bit-top :
    (num j b : ℕ)
    → b ≡ bit num j
    → (if b == 1 then set_bit (top num (suc j)) j else top num (suc j)) ≡ top num j
unfolding set_bit
set_bit-top num j b e = ground (arith, bit-top num j, bit-lt num j, top-suc num j)

-- Reading a field gives the number.
pub read_number-Field :
    (j num : ℕ) (d : Bytes) (offset : ℕ)
    → Field j num d offset
    → read_number j d offset (top num j) ≡ num
unfolding read_number
read_number-Field zero num d offset field = omega arith
read_number-Field (suc j) num d offset (here, later) =
    rw (set_bit-top num j (read_bit d offset) here) (read_number-Field j num d (offset + 1) later)

pub read_number_lem :
    (j num : ℕ) (d : Bytes) (offset : ℕ)
    → num < 2 ^ j
    → Field j num d offset
    → read_number j d offset 0 ≡ num
read_number_lem j num d offset small field =
    let none_above : top num j ≡ 0 = rw (div-eq_of_lt small) (omega arith) in
    rw none_above at (read_number-Field j num d offset field)
