-- ===== src/Packing/Numbers/Width.antt =====
-- `bitsPerNumber`: enough bits for every number below the bound, and no more than a bound needs.
use native.Mathlib.Nat.{pow-suc}
use morcus_net.Prelude.{
  ℕ, zero, suc, ◌+◌, ◌^◌, ◌≤◌, ◌<◌, ◌≡◌, refl, arith, leb, leb→le, le→leb, Bool-cases, inl, inr,
  true, false,
}
use native.Mathlib.Decide.{dec_lt}
use morcus_net.Packing.Numbers.{log2_from, bits_per_number}

lt-two_pow : (n : ℕ) → n < 2 ^ n
lt-two_pow zero = omega arith
lt-two_pow (suc n) = rw pow-suc (omega (arith, lt-two_pow n))

log2_from_enough : (fuel k n : ℕ) → n ≤ 2 ^ (k + fuel) → n ≤ 2 ^ log2_from fuel k n
unfolding log2_from
log2_from_enough zero k n h = let e : k + 0 ≡ k = omega arith in rw e at h
log2_from_enough (suc fuel) k n h = elim (Bool-cases (leb n (2 ^ k))) [
  | inl fits ↦ rw fits (leb→le _ _ fits)
  | inr above ↦ rw above (
      log2_from_enough fuel (k + 1) n (let e : k + 1 + fuel ≡ k + suc fuel = omega arith in rw e h))
]

log2_from_least : (fuel k m n : ℕ) → k ≤ m → n ≤ 2 ^ m → log2_from fuel k n ≤ m
unfolding log2_from
log2_from_least zero k m n le h = le
log2_from_least (suc fuel) k m n le h = elim (Bool-cases (leb n (2 ^ k))) [
  | inl fits ↦ rw fits le
  | inr above ↦ rw above (log2_from_least fuel (k + 1) m n (not_yet above) h)
]
  where
    not_yet : leb n (2 ^ k) ≡ false → k + 1 ≤ m
    not_yet above = elim (dec_lt k m) [
      | yes lt ↦ omega arith
      | no ge ↦
          let same : m ≡ k = omega arith in
          let fits : leb n (2 ^ k) ≡ true = le→leb _ _ (rw same at h) in cc
    ]

pub le-two_pow-bits_per_number : (n : ℕ) → n ≤ 2 ^ bits_per_number n
unfolding bits_per_number
le-two_pow-bits_per_number n = ground (
  arith,
  log2_from_enough n 0 n (let e : 0 + n ≡ n = omega arith in rw e (omega (arith, lt-two_pow n))),
)

pub bits_per_number-le : (n m : ℕ) → 0 < m → n ≤ 2 ^ m → bits_per_number n ≤ m
unfolding bits_per_number
bits_per_number-le n m pos h = ground (arith, log2_from_least n 0 m n (omega arith) h)

pub bits_per_number-pos : (n : ℕ) → 0 < n → 0 < bits_per_number n
bits_per_number-pos n pos = elim (dec_lt 0 (bits_per_number n)) [
  | yes lt ↦ lt
  | no ge ↦
      let zero_bits : bits_per_number n ≡ 0 = omega arith in
      let small : n ≤ 1 = rw zero_bits at (le-two_pow-bits_per_number n) in
      let one : n ≡ 1 = omega arith in
      let bits : bits_per_number n ≡ 1 = rw one (unfold bits_per_number in refl) in omega arith
]
