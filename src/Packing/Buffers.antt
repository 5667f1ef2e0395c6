-- ===== src/Packing/Buffers.antt =====
-- Byte arrays, and the length-delimited format: `pack` of src/common/bytedata/packing.ts.
use morcus_net.Prelude.{
  take_at, ℕ, zero, suc, ◌+◌, ◌*◌, ◌/◌, ◌%◌, ◌^◌, ◌<◌, Option, none, some, List, [], ◌∷◌, ◌++◌, ltb,
  lt→ltb, ◌≡◌, refl, arith, append_assoc, length, take, drop, replicate, length-append, All, Result,
  ok, assert, ◌>>=◌, ◌>>◌, sym, ap,
}

-- The contents of an `ArrayBuffer` or a `Uint8Array`: numbers below 256.
abbrev pub Bytes : Type 0
Bytes = List ℕ

abbrev pub delimiter_size : ℕ
delimiter_size = 4

abbrev pub metadata_size : ℕ
metadata_size = 4

abbrev pub max_int : ℕ
max_int = 2 ^ (delimiter_size * 8)

pub data PackError : Type 0 where
  too_many_buffers buffer_too_large : PackError

-- `view.set(src, offset)`: what stands from `offset` on is overwritten.
unfoldable pub set_at : Bytes → ℕ → Bytes → Bytes
set_at buffer offset src = take offset buffer ++ (src ++ drop (offset + length src) buffer)

-- The four bytes that `DataView.setUint32` writes, the highest first.
unfoldable pub u32_bytes : ℕ → Bytes
u32_bytes n = (n / 2 ^ 24 % 256) ∷ (n / 2 ^ 16 % 256) ∷ (n / 2 ^ 8 % 256) ∷ (n % 256) ∷ []

-- `DataView.getUint32(0)`; a view of fewer than four bytes throws.
unfoldable pub get_u32 : Bytes → Option ℕ
get_u32 (a ∷ b ∷ c ∷ d ∷ rest) = some (a * 2 ^ 24 + b * 2 ^ 16 + c * 2 ^ 8 + d)
get_u32 _ = none

-- The first loop of `pack`: the size, and the assertion on each buffer.
pack_size : List Bytes → ℕ → Result PackError ℕ
pack_size [] size = ok size
pack_size (buf ∷ bufs) size = do
  assert (ltb (length buf) max_int) buffer_too_large
  pack_size bufs (size + (delimiter_size + length buf))

-- The second loop of `pack`: it fills the array of that size.
pack_fill : List Bytes → Bytes → ℕ → Bytes
pack_fill [] packed offset = packed
pack_fill (buf ∷ bufs) packed offset =
    pack_fill bufs
      (set_at (set_at packed offset (u32_bytes (length buf))) (offset + delimiter_size) buf)
      (offset + (delimiter_size + length buf))

-- `pack`.
unfoldable pub pack : List Bytes → Result PackError Bytes
unfolding pack_size pack_fill
pack buffers = do
  assert (ltb (length buffers) max_int) too_many_buffers
  size ← pack_size buffers delimiter_size
  ok (pack_fill buffers (set_at (replicate size 0) 0 (u32_bytes (length buffers))) delimiter_size)

-- The format: each buffer behind its length.
unfoldable pub frames : List Bytes → Bytes
frames [] = []
frames (buf ∷ bufs) = u32_bytes (length buf) ++ (buf ++ frames bufs)

abbrev pub Fits : List Bytes → Type 0
Fits = All (λ buf. length buf < max_int)

pub length-frames :
    (buf : Bytes) (bufs : List Bytes)
    → length (frames (buf ∷ bufs)) ≡ 4 + length buf + length (frames bufs)
unfolding frames u32_bytes
length-frames buf bufs = omega (arith, length-append {0} buf (frames bufs))

pub get_u32-u32_bytes :
    (n : ℕ) (rest : Bytes) → n < max_int → get_u32 (u32_bytes n ++ rest) ≡ some n
unfolding get_u32 u32_bytes
get_u32-u32_bytes n rest h = ap some (omega arith)

drop-replicate : (n m : ℕ) → drop n (replicate (n + m) (zero)) ≡ replicate m 0
drop-replicate zero m = ap (λ t. replicate t 0) (omega arith)
drop-replicate (suc n) m =
    let e : suc n + m ≡ suc (n + m) = omega arith in rw e (drop-replicate n m)

drop-append_at : (p q : Bytes) (k : ℕ) → drop (length p + k) (p ++ q) ≡ drop k q
drop-append_at [] q k = ap (λ t. drop t q) (omega arith)
drop-append_at (x ∷ p) q k =
    let e : suc (length p) + k ≡ suc (length p + k) = omega arith in rw e (drop-append_at p q k)

-- Writing behind a filled prefix, into zeros.
pub set_at_zeros :
    (p src : Bytes) (m : ℕ)
    → set_at (p ++ replicate (length src + m) 0) (length p) src ≡ (p ++ src) ++ replicate m 0
unfolding set_at
set_at_zeros p src m =
    rw (take_at p _, drop-append_at p _ (length src), drop-replicate (length src) m)
      (sym (append_assoc p src _))

pack_size-frames :
    (bufs : List Bytes) (size : ℕ)
    → Fits bufs
    → pack_size bufs size ≡ ok (size + length (frames bufs))
unfolding pack_size
pack_size-frames [] size h = ap ok (unfold frames in omega arith)
pack_size-frames (buf ∷ bufs) size (small, h) =
    ground (arith, pack_size-frames bufs (size + (4 + length buf)) h, length-frames buf bufs)

length-u32_bytes : (n : ℕ) → length (u32_bytes n) ≡ 4
unfolding u32_bytes
length-u32_bytes n = refl

-- One round of the second loop writes one frame.
pack_fill_round :
    (buf p : Bytes) (m : ℕ)
    → set_at
        (set_at (p ++ replicate (4 + length buf + m) 0) (length p) (u32_bytes (length buf)))
        (length p + 4)
        buf
      ≡ ((p ++ u32_bytes (length buf)) ++ buf) ++ replicate m 0
pack_fill_round buf p m =
    let header = u32_bytes (length buf) in
    let size : 4 + length buf + m ≡ length header + (length buf + m) =
      omega (arith, length-u32_bytes (length buf)) in
    let offset : length p + 4 ≡ length (p ++ header) =
      omega (arith, length-append p header, length-u32_bytes (length buf)) in
    rw (size, set_at_zeros p header (length buf + m), offset) (set_at_zeros (p ++ header) buf m)

pack_fill-frames :
    (bufs : List Bytes) (p : Bytes)
    → pack_fill bufs (p ++ replicate (length (frames bufs)) 0) (length p) ≡ p ++ frames bufs
unfolding pack_fill
pack_fill-frames [] p = unfold frames in refl
pack_fill-frames (buf ∷ bufs) p =
    let header = u32_bytes (length buf) in
    let offset : length p + (4 + length buf) ≡ length ((p ++ header) ++ buf) = omega (
      arith,
      length-append (p ++ header) buf,
      length-append p header,
      length-u32_bytes (length buf),
    ) in
    rw
      (
        length-frames buf bufs,
        pack_fill_round buf p (length (frames bufs)),
        offset,
        pack_fill-frames bufs ((p ++ header) ++ buf),
      )
      (unfold frames in simp append_assoc)

pack_filled :
    (n : ℕ) (bufs : List Bytes)
    → pack_fill bufs (set_at (replicate (4 + length (frames bufs)) 0) 0 (u32_bytes n)) 4
      ≡ u32_bytes n ++ frames bufs
pack_filled n bufs =
    let size : 4 + length (frames bufs) ≡ length (u32_bytes n) + length (frames bufs) =
      omega (arith, length-u32_bytes n) in
    rw (size, set_at_zeros [] (u32_bytes n) (length (frames bufs)), ← length-u32_bytes n)
      (pack_fill-frames bufs (u32_bytes n))

-- A pack of fewer than 2 ^ 32 buffers, each of fewer than 2 ^ 32 bytes, succeeds: it holds the number
-- of buffers and then each buffer behind its length, all lengths as four bytes, the highest first.
pub pack-frames :
    (bufs : List Bytes)
    → length bufs < max_int
    → Fits bufs
    → pack bufs ≡ ok (u32_bytes (length bufs) ++ frames bufs)
unfolding pack
pack-frames bufs few fits =
    rw (lt→ltb _ _ few, pack_size-frames bufs 4 fits) (ap ok (pack_filled (length bufs) bufs))
