-- ===== src/Packing/Numbers/Bits.antt =====
-- What a write of one bit changes.
use morcus_net.Prelude.{
  ℕ, zero, suc, ◌-◌, ◌*◌, ◌/◌, ◌%◌, ◌<◌, ◌≡◌, refl, ap, arith, [], ◌∷◌, ltb, ◌==◌, if◌then◌else◌,
  Bool, true, ◌&&◌, length, All,
}
use morcus_net.Packing.Buffers.{Bytes}
use morcus_net.Packing.Numbers.{bit, set_bit, byte_at, or_at, read_bit}

abbrev pub IsByte : ℕ → Type 0
IsByte b = b < 256

-- A test on the values from 0 up to a bound.
passes : (test : ℕ → Bool) (bound : ℕ) → Bool
passes test zero = true
passes test (suc top) = passes test top && test top

passes-at :
    (test : ℕ → Bool) (bound value : ℕ)
    → value < bound
    → passes test bound ≡ true
    → test value ≡ true
unfolding passes
passes-at test zero value small passed = absurd (omega arith)
passes-at test (suc top) value small passed = ground (arith, passes-at test top value)

abbrev set_bit_test : ℕ → ℕ → ℕ → Bool
set_bit_test x k j = ltb (set_bit x k) 256 && bit (set_bit x k) j == (if k == j then 1 else bit x j)

set_bit_table : passes (λ x. passes (λ k. passes (λ j. set_bit_test x k j) 8) 8) 256 ≡ true
unfolding passes set_bit bit
set_bit_table = refl

-- In a byte, setting one bit leaves the others.
pub bit-set_bit :
    (x k j : ℕ)
    → x < 256
    → k < 8
    → j < 8
    → (set_bit x k < 256) × (bit (set_bit x k) j ≡ (if k == j then 1 else bit x j))
bit-set_bit x k j hx hk hj =
    let row = passes-at _ 256 x hx set_bit_table in
    let column = passes-at _ 8 k hk row in
    let entry : set_bit_test x k j ≡ true = passes-at _ 8 j hj column in ground arith

pub byte_at-lt :
    (data_buffer : Bytes) (i : ℕ) → All IsByte data_buffer → byte_at data_buffer i < 256
unfolding byte_at
byte_at-lt [] i h = omega arith
byte_at-lt (b ∷ bs) zero h = h.0
byte_at-lt (b ∷ bs) (suc i) h = byte_at-lt bs i h.1

byte_at-or_at :
    (data_buffer : Bytes) (i k j : ℕ)
    → i < length data_buffer
    → byte_at (or_at data_buffer i k) j
      ≡ (if i == j then set_bit (byte_at data_buffer j) k else byte_at data_buffer j)
unfolding byte_at or_at
byte_at-or_at [] i k j h = absurd (omega arith)
byte_at-or_at (b ∷ bs) zero k zero h = refl
byte_at-or_at (b ∷ bs) zero k (suc j) h = ground arith
byte_at-or_at (b ∷ bs) (suc i) k zero h = ground arith
byte_at-or_at (b ∷ bs) (suc i) k (suc j) h = ground (arith, byte_at-or_at bs i k j)

pub length-or_at :
    (data_buffer : Bytes) (i k : ℕ) → length (or_at data_buffer i k) ≡ length data_buffer
unfolding or_at
length-or_at [] i k = refl
length-or_at (b ∷ bs) zero k = refl
length-or_at (b ∷ bs) (suc i) k = ap suc (length-or_at bs i k)

pub or_at-IsByte :
    (data_buffer : Bytes) (i k : ℕ)
    → k < 8
    → All IsByte data_buffer
    → All IsByte (or_at data_buffer i k)
unfolding or_at
or_at-IsByte [] i k hk h = tt
or_at-IsByte (b ∷ bs) zero k hk h = ((bit-set_bit b k 0 h.0 hk (omega arith)).0, h.1)
or_at-IsByte (b ∷ bs) (suc i) k hk h = (h.0, or_at-IsByte bs i k hk h.1)

-- A write of the bit at one offset is seen there, and nowhere else.
pub read_bit-or_at :
    (data_buffer : Bytes) (i j : ℕ)
    → All IsByte data_buffer
    → i < length data_buffer * 8
    → read_bit (or_at data_buffer (i / 8) (7 - i % 8)) j
      ≡ (if i == j then 1 else read_bit data_buffer j)
unfolding read_bit
read_bit-or_at data_buffer i j h lt =
    let written = byte_at-or_at data_buffer (i / 8) (7 - i % 8) (j / 8) (omega arith) in
    let bits =
      bit-set_bit (byte_at data_buffer (j / 8)) (7 - i % 8) (7 - j % 8)
        (byte_at-lt data_buffer (j / 8) h) (omega arith) (omega arith) in
    rw written (ground (arith, bits))
