-- ===== src/Packing/Stream.antt =====
-- `unpackStreamed` and `readMetadata` of src/common/bytedata/packing.ts. The generator is a run over
-- the chunks of its input; what it yields is a list, and how it ends is a value.
pub mod Total
pub mod RoundTrip
use morcus_net.Prelude.{
  ℕ, zero, suc, ◌+◌, ◌-◌, ◌*◌, Option, none, some, List, [], ◌∷◌, ltb, leb, ◌==◌, if◌then◌else◌,
  Bool, true, false, ◌&&◌, length, take, drop, replicate,
}
use morcus_net.Packing.Buffers.{Bytes, delimiter_size, metadata_size, set_at, get_u32}

-- What the next complete piece is: data is yielded, a delimiter is the length of the next data.
pub data Expecting : Type 0 where
  payload delimiter : Expecting

-- The variables of the loop; `expected` is `expectedBytes`.
pub record Unpacker : Type 0 where
  pub expected : ℕ
  pub expecting : Expecting
  pub buffer : Bytes
  pub offset : ℕ

abbrev pub start : Unpacker
start = record {
  expected = metadata_size;
  expecting = payload;
  buffer = replicate metadata_size 0;
  offset = 0;
}

-- How a run ends: the generator is done, its last assertion fails, reading a length throws, or the
-- fuel of the model is used up.
pub data Ending : Type 0 where
  finished not_reset bad_length out_of_fuel : Ending

pub record Unpacked : Type 0 where
  pub yielded : List Bytes
  pub ending : Ending

abbrev is_delimiter : Expecting → Bool
is_delimiter payload = false
is_delimiter delimiter = true

-- How much of `next` the buffer takes.
abbrev pub taken : Unpacker → Bytes → ℕ
taken u next =
    let needed = u.expected - u.offset in if leb (length next) needed then length next else needed

-- The first half of a round: the buffer takes what it needs of `next`.
pub fill : Unpacker → Bytes → Unpacker
fill u next = record u {
  buffer = set_at u.buffer u.offset (take (taken u next) next);
  offset = u.offset + taken u next;
}

-- `next` and the chunks behind it after that half.
pub remaining : Unpacker → Bytes → List Bytes → List Bytes
remaining u next rest =
    let needed = u.expected - u.offset in
    if leb (length next) needed then rest else drop needed next ∷ rest

abbrev pub expect : Expecting → ℕ → Unpacker
expect kind n = record { expected = n; expecting = kind; buffer = replicate n 0; offset = 0 }

abbrev yield_first : Bytes → Unpacked → Unpacked
yield_first b r = record r { yielded = b ∷ r.yielded }

-- The second half, once the buffer is full: `after` is the rest of the loop.
settle : Unpacker → (Unpacker → Unpacked) → Unpacked
settle u after = elim u.expecting [
  | payload ↦ yield_first u.buffer (after (expect delimiter delimiter_size))
  | delimiter ↦ elim (get_u32 u.buffer) [
    | none ↦ record { yielded = []; ending = bad_length }
    | some n ↦ after (expect payload n)
  ]
]

-- The assertion behind the loop.
finish : Unpacker → Unpacked
finish u = record {
  yielded = [];
  ending = if u.offset == 0 && is_delimiter u.expecting then finished else not_reset;
}

-- The loop, over the chunks that are not yet consumed: `next` is the first of them.
pub run : ℕ → Unpacker → List Bytes → Unpacked
run zero u input = record { yielded = []; ending = out_of_fuel }
run (suc fuel) u [] = finish u
run (suc fuel) u (next ∷ rest) =
    let u' = fill u next in
    let more = run fuel u' (remaining u next rest) in
    let full = settle u' (λ v. run fuel v (remaining u next rest)) in
    if ltb u'.offset u'.expected then more else full

abbrev pub total_size : List Bytes → ℕ
total_size [] = 0
total_size (c ∷ cs) = length c + total_size cs

-- Each round takes a byte, a chunk, or turns from data to a delimiter.
abbrev pub rounds : List Bytes → ℕ
rounds chunks = 2 * total_size chunks + length chunks + 3

-- `unpackStreamed`.
pub unpack_streamed : List Bytes → Unpacked
unfolding run fill remaining settle finish
unpack_streamed chunks = run (rounds chunks) start chunks

-- `readMetadata`, on what the generator yields: `none` is the rejection, or a view that is too short.
pub read_metadata : List Bytes → Option ℕ
read_metadata [] = none
read_metadata (metadata ∷ rest) = get_u32 metadata
