-- ===== src/Packing/Tests.antt =====
-- Runs of `pack` and `unpackStreamed` of src/common/bytedata/packing.ts on small inputs.
use mathlib.Core.List.{flatten}
use morcus_net.Prelude.{◌≡◌, ◌≢◌, refl, arith, List, [], ◌∷◌, ◌++◌, ok, some}
use morcus_net.Packing.Buffers.{Bytes, pack, set_at, frames, u32_bytes, Fits, pack-frames}
use morcus_net.Packing.Stream.{unpack_streamed, read_metadata, finished, out_of_fuel}
use morcus_net.Packing.Stream.Total.{unpack_streamed-ends}
use morcus_net.Packing.Stream.RoundTrip.{LastFull, unpack_streamed-pack}

abbrev two_buffers : List Bytes
two_buffers = (1 ∷ 2 ∷ []) ∷ (3 ∷ []) ∷ []

abbrev three_chunks : List Bytes
three_chunks = (0 ∷ 0 ∷ 0 ∷ 2 ∷ 0 ∷ []) ∷ [] ∷ (0 ∷ 0 ∷ 2 ∷ 1 ∷ 2 ∷ 0 ∷ 0 ∷ 0 ∷ 1 ∷ 3 ∷ []) ∷ []

two_buffers-Fits : Fits two_buffers
two_buffers-Fits = (omega arith, (omega arith, tt))

two_buffers-LastFull : LastFull two_buffers
two_buffers-LastFull = λ p. cc

two_buffers_packed : pack two_buffers ≡ ok (flatten three_chunks)
unfolding pack set_at u32_bytes flatten
two_buffers_packed = refl

pack-frames_example : pack two_buffers ≡ ok (u32_bytes 2 ++ frames two_buffers)
pack-frames_example = pack-frames two_buffers (omega arith) two_buffers-Fits

unpack_streamed-pack_example :
    (unpack_streamed three_chunks
      ≡ record { yielded = u32_bytes 2 ∷ two_buffers; ending = finished })
    × (read_metadata (unpack_streamed three_chunks).yielded ≡ some 2)
unpack_streamed-pack_example =
    unpack_streamed-pack two_buffers three_chunks (omega arith) two_buffers-Fits
      two_buffers-LastFull two_buffers_packed

unpack_streamed-ends_example : (unpack_streamed ((0 ∷ 1 ∷ []) ∷ [])).ending ≢ out_of_fuel
unpack_streamed-ends_example = unpack_streamed-ends ((0 ∷ 1 ∷ []) ∷ [])
