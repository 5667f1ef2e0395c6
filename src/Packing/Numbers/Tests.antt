-- ===== src/Packing/Numbers/Tests.antt =====
-- Runs of the packed number arrays of src/common/bytedata/packing.ts on small inputs.
use morcus_net.Prelude.{
  ℕ, ◌<◌, ◌≡◌, refl, arith, List, [], ◌∷◌, All, ok, err, leb, if◌then◌else◌, any,
}
use morcus_net.Packing.Buffers.{Bytes}
use morcus_net.Packing.Numbers.{
  pack_sorted_nats, has_value_in_range, between, bad_range, not_sorted,
}
use morcus_net.Packing.Numbers.RoundTrip.{IsSorted, Reads, pack_sorted_nats-Reads}
use morcus_net.Packing.Numbers.Search.{in_range, has_value_in_range-any}

abbrev three : List ℕ
three = 1 ∷ 3 ∷ 4 ∷ []

three-IsSorted : IsSorted three
three-IsSorted = (omega arith, (omega arith, tt))

three-small : All (λ x. x < 2147483648) three
three-small = (omega arith, (omega arith, (omega arith, tt)))

three_packed : pack_sorted_nats three ≡ ok (227 ∷ 46 ∷ 0 ∷ [])
unfolding pack_sorted_nats
three_packed = refl

unsorted_refused : pack_sorted_nats (3 ∷ 1 ∷ 4 ∷ []) ≡ err not_sorted
unfolding pack_sorted_nats
unsorted_refused = refl

pack_sorted_nats-Reads_example :
    (packed : Bytes) × (pack_sorted_nats three ≡ ok packed) × Reads three packed
pack_sorted_nats-Reads_example = pack_sorted_nats-Reads three three-IsSorted three-small

has_value_in_range-any_example :
    has_value_in_range (227 ∷ 46 ∷ 0 ∷ []) (between 2 3)
    ≡ (if leb 2 3 then ok (any (in_range 2 3) three) else err bad_range)
has_value_in_range-any_example =
    has_value_in_range-any three (227 ∷ 46 ∷ 0 ∷ []) (between 2 3) three-IsSorted three-small
      three_packed
