-- ===== src/Packing/Stream/Total.antt =====
-- The loop ends on every input: the fuel of the model is enough.
use morcus_net.Prelude.{
  ℕ, zero, suc, ◌+◌, ◌-◌, ◌*◌, ◌≤◌, ◌<◌, List, [], ◌∷◌, ltb, ◌≡◌, ◌≢◌, refl, arith, ◌⊎◌, Bool-cases,
  Option-cases, lt→ltb, ltb→lt, inl, inr, length, length-drop,
}
use morcus_net.Packing.Buffers.{Bytes, get_u32}
use morcus_net.Packing.Stream.{
  Expecting, payload, delimiter, Unpacker, start, out_of_fuel, Unpacked, fill, remaining, settle,
  finish, run, total_size, rounds, unpack_streamed, taken, expect,
}

-- A delimiter always wants bytes.
abbrev pub IsReady : Unpacker → Type 0
IsReady u = elim u.expecting [ payload ↦ u.offset ≤ u.expected | delimiter ↦ u.offset < u.expected ]

abbrev pub flag : Expecting → ℕ
flag payload = 1
flag delimiter = 0

abbrev pub measure : Unpacker → List Bytes → ℕ
measure u input = 2 * total_size input + length input + flag u.expecting

-- A round takes bytes off the input, or a whole chunk.
remaining-size :
    (u : Unpacker) (next : Bytes) (rest : List Bytes)
    → (total_size (remaining u next rest) + taken u next ≡ length next + total_size rest)
      × (length (remaining u next rest) ≤ length rest + 1)
unfolding remaining
remaining-size u next rest = ground (arith, length-drop {0} (u.expected - u.offset) next)

pub more-measure :
    (u : Unpacker) (next : Bytes) (rest : List Bytes)
    → IsReady u
    → (fill u next).offset < (fill u next).expected
    → IsReady (fill u next)
      × (measure (fill u next) (remaining u next rest) < measure u (next ∷ rest))
unfolding fill remaining
more-measure u next rest ready short = ground (arith, length-drop {0} (u.expected - u.offset) next)

pub full-measure :
    (u : Unpacker) (next : Bytes) (rest : List Bytes)
    → IsReady u
    → ¬ ((fill u next).offset < (fill u next).expected)
    → 2 * total_size (remaining u next rest)
        + length (remaining u next rest)
        + (1 - flag u.expecting)
      < measure u (next ∷ rest)
unfolding fill remaining
full-measure u next rest ready full = ground (arith, length-drop {0} (u.expected - u.offset) next)

Expecting-cases : (e : Expecting) → (e ≡ payload) ⊎ (e ≡ delimiter)
Expecting-cases payload = inl refl
Expecting-cases delimiter = inr refl

settle-total :
    (u : Unpacker) (after : Unpacker → Unpacked)
    → (u.expecting ≡ payload → (after (expect delimiter 4)).ending ≢ out_of_fuel)
    → ((n : ℕ) → u.expecting ≡ delimiter → (after (expect payload n)).ending ≢ out_of_fuel)
    → (settle u after).ending ≢ out_of_fuel
unfolding settle
settle-total u after as_delimiter as_payload = elim (Expecting-cases u.expecting) [
  | inl data_next ↦ ground (arith, as_delimiter data_next)
  | inr size ↦ elim (Option-cases (get_u32 u.buffer)) [
    | inl short ↦ ground arith
    | inr (n, whole) ↦ ground (arith, as_payload n size)
  ]
]

fill-expecting : (u : Unpacker) (next : Bytes) → (fill u next).expecting ≡ u.expecting
unfolding fill
fill-expecting u next = refl

run_total :
    (fuel : ℕ) (u : Unpacker) (input : List Bytes)
    → IsReady u
    → measure u input < fuel
    → (run fuel u input).ending ≢ out_of_fuel
unfolding run
run_total zero u input ready h = absurd (omega arith)
run_total (suc fuel) u [] ready h = unfold finish in ground arith
run_total (suc fuel) u (next ∷ rest) ready h =
    elim (Bool-cases (ltb (fill u next).offset (fill u next).expected)) [
      | inl short ↦
          let (ready', less) = more-measure u next rest ready (ltb→lt _ _ short) in
          rw short (run_total fuel (fill u next) (remaining u next rest) ready' (omega arith))
      | inr full ↦
          let less = full-measure u next rest ready (λ lt. cc (lt→ltb _ _ lt)) in
          rw full (
            settle-total (fill u next) _
              (λ e.
                run_total fuel (expect delimiter 4) (remaining u next rest) (omega arith)
                  (ground (arith, fill-expecting u next)))
              (λ n e.
                run_total fuel (expect payload n) (remaining u next rest) (omega arith)
                  (ground (arith, fill-expecting u next))))
    ]

-- The generator ends on every stream of chunks, whatever bytes they hold.
pub unpack_streamed-ends : (chunks : List Bytes) → (unpack_streamed chunks).ending ≢ out_of_fuel
unfolding unpack_streamed
unpack_streamed-ends chunks = run_total (rounds chunks) start chunks (omega arith) (omega arith)
