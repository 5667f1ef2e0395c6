-- ===== src/Packing/Numbers.antt =====
-- Sorted natural numbers in a bit array: `packSortedNats`, `unpackIntegers` and `PackedNumbers` of
-- src/common/bytedata/packing.ts. The numbers are naturals, as the comment there asks.
pub mod Bits
pub mod Fields
pub mod Width
pub mod RoundTrip
pub mod Search
mod Tests
use morcus_net.Prelude.{
  ℤ, pos, negsuc, difference, pos_part, ℕ, zero, suc, ◌+◌, ◌-◌, ◌*◌, ◌/◌, ◌%◌, ◌^◌, Option, none,
  some, List, [], ◌∷◌, ltb, leb, ◌==◌, if◌then◌else◌, Bool, true, false, not, ◌&&◌, ◌||◌, length,
  replicate, Result, ok, err, assert, ◌>>=◌, ◌>>◌,
}
use morcus_net.Packing.Buffers.{Bytes}

-- `(x >> k) & 1`.
unfoldable pub bit : ℕ → ℕ → ℕ
bit x k = x / 2 ^ k % 2

-- `x | (1 << k)`.
unfoldable pub set_bit : ℕ → ℕ → ℕ
unfolding bit
set_bit x k = if bit x k == 1 then x else x + 2 ^ k

-- `buffer[i]`; behind the end it is `undefined`, which the bit operations read as 0.
unfoldable pub byte_at : Bytes → ℕ → ℕ
byte_at [] i = 0
byte_at (b ∷ bs) zero = b
byte_at (b ∷ bs) (suc i) = byte_at bs i

-- `buffer[i] |= 1 << k`; a write behind the end changes nothing.
unfoldable pub or_at : Bytes → ℕ → ℕ → Bytes
or_at [] i k = []
or_at (b ∷ bs) zero k = set_bit b k ∷ bs
or_at (b ∷ bs) (suc i) k = b ∷ or_at bs i k

abbrev pub header_size : ℕ
header_size = 1

-- The header byte: three bits for the unused bits, five for the bits of a number.
abbrev pub unused_bits : ℕ → ℕ
unused_bits header = header / 2 ^ 5 % 8

abbrev pub bits_in_header : ℕ → ℕ
bits_in_header header = header % 2 ^ 5

pub data NumbersError : Type 0 where
  upper_bound_too_large too_many_unused not_sorted : NumbersError
  out_of_range : ℕ → ℕ → NumbersError
  no_header zero_width bad_range : NumbersError

-- `Math.ceil(Math.log2(n))`: the least `k` with `n ≤ 2 ^ k`.
pub log2_from : ℕ → ℕ → ℕ → ℕ
log2_from zero k n = k
log2_from (suc fuel) k n = let next = log2_from fuel (k + 1) n in if leb n (2 ^ k) then k else next

pub ceil_log2 : ℕ → ℕ
unfolding log2_from
ceil_log2 n = log2_from n 0 n

-- `PackedNumbers.bitsPerNumber`.
unfoldable pub bits_per_number : ℕ → ℕ
unfolding ceil_log2
bits_per_number upper_bound = if upper_bound == 1 then 1 else ceil_log2 upper_bound

-- The loop over the bits of `num`, from bit `j - 1` down.
pub write_number : ℕ → ℕ → Bytes → ℕ → Bytes
write_number zero num buffer offset = buffer
write_number (suc j) num buffer offset =
    write_number j num
      (if bit num j == 1 then or_at buffer (header_size + offset / 8) (7 - offset % 8) else buffer)
      (offset + 1)

-- `i > 0 && num < numbers[i - 1]`.
abbrev pub below_last : Option ℕ → ℕ → Bool
below_last none num = false
below_last (some last) num = ltb num last

-- The loop over the numbers; `last` is `numbers[i - 1]`.
pub write_numbers : ℕ → ℕ → Option ℕ → List ℕ → Bytes → ℕ → Result NumbersError Bytes
write_numbers width upper_bound last [] buffer offset = ok buffer
write_numbers width upper_bound last (num ∷ numbers) buffer offset = do
  assert (not (below_last last num)) not_sorted
  assert (ltb num upper_bound) (out_of_range num upper_bound)
  write_numbers width upper_bound (some num) numbers (write_number width num buffer offset)
      (offset + width)

abbrev pub last_of : ℕ → List ℕ → ℕ
last_of x [] = x
last_of x (y ∷ ys) = last_of y ys

-- The size of the data in bytes, `Math.ceil(totalBits / 8)`.
abbrev pub data_size : ℕ → ℕ
data_size total_bits = (total_bits + 7) / 8

abbrev pub header_of : ℕ → ℕ → ℕ
header_of unused width = (unused * 2 ^ 5 + width) % 256

-- `packSortedNats`.
pub pack_sorted_nats : List ℕ → Result NumbersError Bytes
unfolding write_numbers write_number bits_per_number set_bit or_at
pack_sorted_nats [] = ok (header_of 0 0 ∷ [])
pack_sorted_nats (x ∷ xs) = do
  let upper_bound = last_of x xs + 1
  let width = bits_per_number upper_bound
  assert (leb width 31) upper_bound_too_large
  let total_bits = length (x ∷ xs) * width
  let unused = data_size total_bits * 8 - total_bits
  assert (ltb unused 8) too_many_unused
  write_numbers width upper_bound none (x ∷ xs)
      (header_of unused width ∷ replicate (data_size total_bits) 0) 0

-- The bit at `offset` of the data, `(dataBuffer[byteIndex] >> (7 - bitInByte)) & 1`.
unfoldable pub read_bit : Bytes → ℕ → ℕ
unfolding byte_at bit
read_bit data_buffer offset = bit (byte_at data_buffer (offset / 8)) (7 - offset % 8)

-- The inner loop of a read: `j` bits are left, and `current` has those before.
pub read_number : ℕ → Bytes → ℕ → ℕ → ℕ
unfolding read_bit set_bit
read_number zero data_buffer offset current = current
read_number (suc j) data_buffer offset current =
    read_number j data_buffer (offset + 1)
      (if read_bit data_buffer offset == 1 then set_bit current j else current)

-- The outer loop of `unpackIntegers`.
pub read_numbers : ℕ → ℕ → ℕ → Bytes → ℕ → List ℕ
unfolding read_number
read_numbers zero width valid_bits data_buffer offset = []
read_numbers (suc fuel) width valid_bits data_buffer offset =
    let more =
      read_number width data_buffer offset 0
      ∷ read_numbers fuel width valid_bits data_buffer (offset + width) in
    if leb (offset + width) valid_bits then more else []

-- `unpackIntegers`. Every round reads a bit at least, so that the number of bits is enough fuel.
pub unpack_integers : Bytes → Result NumbersError (List ℕ)
unfolding read_numbers
unpack_integers [] = err no_header
unpack_integers (header ∷ data_buffer) = do
  let width = bits_in_header header
  let valid_bits = length data_buffer * 8 - unused_bits header
  assert (ltb 0 width || length (header ∷ data_buffer) == header_size) zero_width
  if width == 0 || length data_buffer == 0
      then ok []
      else ok (read_numbers (suc valid_bits) width valid_bits data_buffer 0)

-- `Math.floor(a / b)` for a positive `b`.
abbrev pub floor_div : ℤ → ℕ → ℤ
floor_div (pos a) b = pos (a / b)
floor_div (negsuc a) b = negsuc (a / b)

-- `PackedNumbers.numElements`. A header that marks more bits as unused than there are gives a
-- negative number.
pub num_elements : Bytes → ℤ
unfolding byte_at
num_elements packed =
    let header = byte_at packed 0 in
    let total_bits = difference ((length packed - header_size) * 8) (unused_bits header) in
    if bits_in_header header == 0 then pos 0 else floor_div total_bits (bits_in_header header)

abbrev pub subarray_from_1 : Bytes → Bytes
subarray_from_1 [] = []
subarray_from_1 (b ∷ bs) = bs

-- `PackedNumbers.get`: its loop makes the same reads as the inner loop of `unpackIntegers`.
pub get : Bytes → ℕ → ℕ
unfolding byte_at read_number
get packed index =
    let width = bits_in_header (byte_at packed 0) in
    read_number width (subarray_from_1 packed) (index * width) 0

-- `valueRange`.
pub data ValueRange : Type 0 where
  exactly : ℕ → ValueRange
  between : ℕ → ℕ → ValueRange

abbrev pub low_target : ValueRange → ℕ
low_target (exactly v) = v
low_target (between lo hi) = lo

abbrev pub high_target : ValueRange → ℕ
high_target (exactly v) = v
high_target (between lo hi) = hi

-- The loop of the binary search; `end` is `high + 1`, since `high` can be -1.
pub search_range : ℕ → Bytes → ℕ → ℕ → ℕ → ℕ → Bool
unfolding get
search_range zero packed lo hi low end = false
search_range (suc fuel) packed lo hi low end =
    let mid = (low + (end - 1)) / 2 in
    let value = get packed mid in
    let right = search_range fuel packed lo hi (mid + 1) end in
    let left = search_range fuel packed lo hi low mid in
    if ltb low end
    then (if ltb value lo then right else if ltb hi value then left else true)
    else false

-- `PackedNumbers.hasValueInRange`. Where the number of elements is negative, the loop has no round, as
-- with none.
pub has_value_in_range : Bytes → ValueRange → Result NumbersError Bool
unfolding search_range num_elements
has_value_in_range packed range = do
  assert (leb (low_target range) (high_target range)) bad_range
  ok (
      search_range (suc (pos_part (num_elements packed))) packed (low_target range)
        (high_target range) 0 (pos_part (num_elements packed)))
