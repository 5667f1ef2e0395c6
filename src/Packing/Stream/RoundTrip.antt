-- ===== src/Packing/Stream/RoundTrip.antt =====
-- A packed buffer is unpacked, however it is cut into chunks on the way.
use mathlib.Core.List.{flatten}
use morcus_net.Prelude.{
  take_at, drop_at, ℕ, zero, suc, ◌+◌, ◌-◌, ◌*◌, ◌<◌, some, List, [], ◌∷◌, ◌++◌, append_assoc,
  append-nil, ltb, leb, ◌≡◌, ◌≢◌, refl, sym, ◌∙◌, arith, ◌⊎◌, lt→ltb, le→leb, inl, inr, length,
  length-append, take, replicate, ap, ok, true, false,
}
use morcus_net.Packing.Buffers.{
  Bytes, get_u32, u32_bytes, set_at, set_at_zeros, frames, Fits, pack, pack-frames, max_int,
  get_u32-u32_bytes,
}
use morcus_net.Packing.Stream.Total.{IsReady, flag, measure, full-measure}
use morcus_net.Packing.Stream.{
  Expecting, payload, delimiter, Unpacker, start, finished, Unpacked, fill, remaining, settle,
  finish, run, total_size, rounds, unpack_streamed, taken, expect, read_metadata, yield_first,
}

-- The state when the bytes `p` of a piece `p ++ q` have come in.
abbrev partial : Expecting → Bytes → Bytes → Unpacker
partial kind p q = record {
  expected = length (p ++ q);
  expecting = kind;
  buffer = p ++ replicate (length q) 0;
  offset = length p;
}

fill-partial :
    (kind : Expecting) (p q₁ q₂ next : Bytes)
    → taken (partial kind p (q₁ ++ q₂)) next ≡ length q₁
    → take (length q₁) next ≡ q₁
    → fill (partial kind p (q₁ ++ q₂)) next ≡ partial kind (p ++ q₁) q₂
unfolding fill
fill-partial kind p q₁ q₂ next n e = rw (
  n,
  e,
  length-append q₁ q₂,
  set_at_zeros p q₁ (length q₂),
  append_assoc p q₁ q₂,
  length-append p q₁,
)

append_split {ℓ} :
    {A : Type ℓ} (a b c d : List A)
    → a ++ b ≡ c ++ d
    → ((m : List A) × (a ≡ c ++ m) × (d ≡ m ++ b))
      ⊎ ((x : A) × (m : List A) × (c ≡ a ++ x ∷ m) × (b ≡ (x ∷ m) ++ d))
append_split a b [] d e = inl (a, refl, sym e)
append_split [] b (x ∷ c) d e = inr (x, c, refl, e)
append_split (y ∷ a) b (x ∷ c) d e = ground (arith, append_split a b c d)

take_all : (xs : Bytes) → take (length xs) xs ≡ xs
take_all [] = refl
take_all (x ∷ xs) = ap (λ (t : Bytes). x ∷ t) (take_all xs)

-- A chunk that ends inside the piece is taken whole.
round_more :
    (fuel : ℕ) (kind : Expecting) (p next m : Bytes) (x : ℕ) (rest : List Bytes)
    → run (suc fuel) (partial kind p (next ++ x ∷ m)) (next ∷ rest)
      ≡ run fuel (partial kind (p ++ next) (x ∷ m)) rest
unfolding run
round_more fuel kind p next m x rest =
    let sizes : length (p ++ (next ++ x ∷ m)) ≡ length p + (length next + suc (length m)) =
      omega (arith, length-append p (next ++ x ∷ m), length-append next (x ∷ m)) in
    let all_used : leb (length next) (length (p ++ (next ++ x ∷ m)) - length p) ≡ true =
      le→leb _ _ (omega arith) in
    let state = fill-partial kind p next (x ∷ m) next (rw all_used) (take_all next) in
    let less : ltb (length (p ++ next)) (length ((p ++ next) ++ x ∷ m)) ≡ true =
      lt→ltb _ _ (omega (arith, length-append (p ++ next) (x ∷ m))) in
    let input : remaining (partial kind p (next ++ x ∷ m)) next rest ≡ rest =
      unfold remaining in rw all_used in
    rw (state, less, input)

fill_whole :
    (kind : Expecting) (p q next : Bytes)
    → taken (partial kind p q) next ≡ length q
    → take (length q) next ≡ q
    → fill (partial kind p q) next ≡ partial kind (p ++ q) []
fill_whole kind p q next n e =
    let whole = fill-partial kind p q [] next (rw (append-nil q) n) e in rw (append-nil q) at whole

remaining-flatten :
    (kind : Expecting) (p q m : Bytes) (rest : List Bytes)
    → flatten (remaining (partial kind p q) (q ++ m) rest) ≡ m ++ flatten rest
unfolding remaining flatten
remaining-flatten kind p q [] rest =
    let fits : leb (length (q ++ [])) (length (p ++ q) - length p) ≡ true =
      le→leb _ _ (omega (arith, length-append p q, length-append q [])) in
    rw fits
remaining-flatten kind p q (x ∷ m) rest =
    let needed : length (p ++ q) - length p ≡ length q = omega (arith, length-append p q) in
    let long : leb (length (q ++ x ∷ m)) (length q) ≡ false =
      ground (arith, length-append q (x ∷ m)) in
    rw (needed, long, drop_at q (x ∷ m))

-- A chunk that covers what is left of the piece completes it.
round_full :
    (fuel : ℕ) (kind : Expecting) (p q m : Bytes) (rest : List Bytes)
    → run (suc fuel) (partial kind p q) ((q ++ m) ∷ rest)
      ≡ settle
          (partial kind (p ++ q) [])
          (λ v. run fuel v (remaining (partial kind p q) (q ++ m) rest))
unfolding run
round_full fuel kind p q m rest =
    let enough : taken (partial kind p q) (q ++ m) ≡ length q =
      ground (arith, length-append p q, length-append q m) in
    let state : fill (partial kind p q) (q ++ m) ≡ partial kind (p ++ q) [] =
      fill_whole kind p q (q ++ m) enough (take_at q m) in
    let full : ltb (length (p ++ q)) (length ((p ++ q) ++ [])) ≡ false =
      rw append-nil (ground arith) in
    rw (state, full)

-- The last buffer of a list is not empty.
abbrev pub LastFull : List Bytes → Type 0
LastFull [] = Unit
LastFull (b ∷ []) = b ≢ []
LastFull (b ∷ c ∷ bs) = LastFull (c ∷ bs)

-- Behind the last piece only empty chunks can come.
run_at_end :
    (fuel : ℕ) (input : List Bytes)
    → flatten input ≡ []
    → length input < fuel
    → run fuel (expect delimiter 4) input ≡ record { yielded = []; ending = finished }
unfolding run flatten finish fill remaining set_at
run_at_end zero input e h = absurd (omega arith)
run_at_end (suc fuel) [] e h = refl
run_at_end (suc fuel) ([] ∷ rest) e h = run_at_end fuel rest e (omega arith)
run_at_end (suc fuel) ((x ∷ next) ∷ rest) e h = cc

fill_full :
    (kind : Expecting) (p q m next : Bytes)
    → next ≡ q ++ m
    → fill (partial kind p q) next ≡ partial kind (p ++ q) []
fill_full kind p q m next whole =
    fill_whole kind p q next (rw whole (ground (arith, length-append p q, length-append q m)))
      (rw whole (take_at q m))

full-le :
    (kind : Expecting) (p q m next : Bytes) (rest : List Bytes)
    → next ≡ q ++ m
    → IsReady (partial kind p q)
    → 2 * total_size (remaining (partial kind p q) next rest)
        + length (remaining (partial kind p q) next rest)
        + (1 - flag kind)
      < measure (partial kind p q) (next ∷ rest)
full-le kind p q m next rest whole ready =
    full-measure (partial kind p q) next rest ready
      (rw (fill_full kind p q m next whole, append-nil) (λ h. absurd (omega arith)))

payload_full :
    (fuel : ℕ) (p q m next : Bytes) (rest : List Bytes)
    → next ≡ q ++ m
    → run (suc fuel) (partial payload p q) (next ∷ rest)
      ≡ yield_first
          (p ++ q)
          (run fuel (expect delimiter 4) (remaining (partial payload p q) next rest))
unfolding settle
payload_full fuel p q m next rest whole =
    rw (whole, round_full fuel payload p q m rest) (rw append-nil)

settle_delimiter :
    (w : Bytes) (n : ℕ) (after : Unpacker → Unpacked)
    → get_u32 (w ++ []) ≡ some n
    → settle (partial delimiter w []) after ≡ after (expect payload n)
unfolding settle
settle_delimiter w n after e = rw (e, settle)

delimiter_full :
    (fuel n : ℕ) (p q m next : Bytes) (rest : List Bytes)
    → next ≡ q ++ m
    → p ++ q ≡ u32_bytes n
    → n < max_int
    → run (suc fuel) (partial delimiter p q) (next ∷ rest)
      ≡ run fuel (expect payload n) (remaining (partial delimiter p q) next rest)
delimiter_full fuel n p q m next rest whole header small =
    rw (whole, round_full fuel delimiter p q m rest)
      (settle_delimiter (p ++ q) n _ (rw header (get_u32-u32_bytes n [] small)))

left_over :
    (kind : Expecting) (p q m next : Bytes) (rest : List Bytes) (after : Bytes)
    → next ≡ q ++ m
    → after ≡ m ++ flatten rest
    → flatten (remaining (partial kind p q) next rest) ≡ after
left_over kind p q m next rest after whole e = rw whole (remaining-flatten kind p q m rest ∙ sym e)

part_more :
    (fuel : ℕ) (kind : Expecting) (p q m next : Bytes) (x : ℕ) (rest : List Bytes)
    → q ≡ next ++ x ∷ m
    → run (suc fuel) (partial kind p q) (next ∷ rest)
      ≡ run fuel (partial kind (p ++ next) (x ∷ m)) rest
part_more fuel kind p q m next x rest part = rw part (round_more fuel kind p next m x rest)

LastFull-some : (b : Bytes) (bs : List Bytes) → LastFull (b ∷ bs) → 0 < length b + length bs
LastFull-some [] [] last = absurd (last refl)
LastFull-some (x ∷ b) bs last = omega arith
LastFull-some [] (c ∷ bs) last = omega arith

LastFull-tail : (b : Bytes) (bs : List Bytes) → LastFull (b ∷ bs) → LastFull bs
LastFull-tail b [] last = tt
LastFull-tail b (c ∷ bs) last = last

-- What a run yields when it starts on a piece, and when it starts on the length of a buffer.
mutual
  unfolding flatten frames u32_bytes

  run_payload :
      (fuel : ℕ) (p q : Bytes) (bufs input : List Bytes)
      → flatten input ≡ q ++ frames bufs
      → 0 < length q + length bufs
      → Fits bufs
      → LastFull bufs
      → measure (partial payload p q) input < fuel
      → run fuel (partial payload p q) input
        ≡ record { yielded = (p ++ q) ∷ bufs; ending = finished }
  run_payload zero p q bufs input e some_left fits last h = absurd (omega arith)
  run_payload (suc fuel) p [] [] [] e some_left fits last h = absurd (omega arith)
  run_payload (suc fuel) p (x ∷ q) bufs [] e some_left fits last h = cc
  run_payload (suc fuel) p [] (b ∷ bs) [] e some_left fits last h = cc
  run_payload (suc fuel) p q [] (next ∷ rest) e some_left fits last h =
      elim (append_split next (flatten rest) q [] e) [
        | inl (m, whole, after) ↦
            let less = full-le payload p q m next rest whole (omega (arith, length-append p q)) in
            rw (payload_full fuel p q m next rest whole) (
              ap (yield_first (p ++ q)) (
                run_at_end fuel _ (left_over payload p q m next rest [] whole after) (omega arith)))
        | inr (x, m, part, after) ↦ rw (
          part_more fuel payload p q m next x rest part,
          run_payload fuel (p ++ next) (x ∷ m) [] rest after (omega arith) fits last (omega arith),
          part,
          append_assoc,
        )
      ]
  run_payload (suc fuel) p q (b ∷ bs) (next ∷ rest) e some_left fits last h =
      elim (append_split next (flatten rest) q (frames (b ∷ bs)) e) [
        | inl (m, whole, after) ↦
            let less = full-le payload p q m next rest whole (omega (arith, length-append p q)) in
            rw (payload_full fuel p q m next rest whole) (
              ap (yield_first (p ++ q)) (
                run_delimiter fuel [] (u32_bytes (length b)) b bs _ refl
                  (left_over payload p q m next rest (frames (b ∷ bs)) whole after) (omega arith)
                  fits last (omega arith)))
        | inr (x, m, part, after) ↦ rw (
          part_more fuel payload p q m next x rest part,
          run_payload fuel (p ++ next) (x ∷ m) (b ∷ bs) rest after (omega arith) fits last
              (omega arith),
          part,
          append_assoc,
        )
      ]

  run_delimiter :
      (fuel : ℕ) (p q b : Bytes) (bs input : List Bytes)
      → p ++ q ≡ u32_bytes (length b)
      → flatten input ≡ q ++ (b ++ frames bs)
      → 0 < length q
      → Fits (b ∷ bs)
      → LastFull (b ∷ bs)
      → measure (partial delimiter p q) input < fuel
      → run fuel (partial delimiter p q) input ≡ record { yielded = b ∷ bs; ending = finished }
  run_delimiter zero p q b bs input header e some_left fits last h = absurd (omega arith)
  run_delimiter (suc fuel) p (x ∷ q) b bs [] header e some_left fits last h = cc
  run_delimiter (suc fuel) p [] b bs [] header e some_left fits last h = absurd (omega arith)
  run_delimiter (suc fuel) p q b bs (next ∷ rest) header e some_left fits last h =
      elim (append_split next (flatten rest) q (b ++ frames bs) e) [
        | inl (m, whole, after) ↦
            let less = full-le delimiter p q m next rest whole (omega (arith, length-append p q)) in
            rw (delimiter_full fuel (length b) p q m next rest whole header fits.0) (
              run_payload fuel [] b bs _
                (left_over delimiter p q m next rest (b ++ frames bs) whole after)
                (LastFull-some b bs last) fits.1 (LastFull-tail b bs last) (omega arith))
        | inr (x, m, part, after) ↦ rw (part_more fuel delimiter p q m next x rest part) (
            run_delimiter fuel (p ++ next) (x ∷ m) b bs rest
              (append_assoc p next (x ∷ m) ∙ rw part at header) after (omega arith) fits last
              (omega arith))
      ]

total_size-flatten : (chunks : List Bytes) → total_size chunks ≡ length (flatten chunks)
unfolding flatten
total_size-flatten [] = refl
total_size-flatten (c ∷ cs) = omega (arith, total_size-flatten cs, length-append c (flatten cs))

-- Whatever the boundaries of the chunks, a stream of packed buffers, of which the last is not empty,
-- gives the number of buffers and then the buffers, and the generator is done without an error.
-- `readMetadata` reads that number.
pub unpack_streamed-pack :
    (bufs chunks : List Bytes)
    → length bufs < max_int
    → Fits bufs
    → LastFull bufs
    → pack bufs ≡ ok (flatten chunks)
    → (unpack_streamed chunks
        ≡ record { yielded = u32_bytes (length bufs) ∷ bufs; ending = finished })
      × (read_metadata (unpack_streamed chunks).yielded ≡ some (length bufs))
unfolding unpack_streamed read_metadata
unpack_streamed-pack bufs chunks few fits last packed =
    let bytes : flatten chunks ≡ u32_bytes (length bufs) ++ frames bufs =
      cc (pack-frames bufs few fits) in
    let result : run (rounds chunks) start chunks
        ≡ record { yielded = u32_bytes (length bufs) ∷ bufs; ending = finished } =
      unfold u32_bytes in
      run_payload (rounds chunks) [] (u32_bytes (length bufs)) bufs chunks bytes (omega arith) fits
        last (omega arith) in
    (
      result,
      rw result
          (rw (← append-nil (u32_bytes (length bufs))) (get_u32-u32_bytes (length bufs) [] few)),
    )
