-- ===== src/Crunch/Exact/Rounds.antt =====
-- The rounds of an exact match, for the candidates of an end and for an enclitic.
use morcus_net.Prelude.{
  ℕ, zero, suc, ◌+◌, ◌-◌, ◌<◌, ◌≡◌, inl, inr, refl, sym, ap, ◌∙◌, subst, arith, some, List, [],
  ◌++◌, map, Bool-cases, true, length, length-append, take_at, drop_at, take-append-drop, Text,
  text_eq_sound, text_eq_self, ok, ok-injective, bind-eq-ok, Memᴰ, collect-from, collect-to,
  collect_ok,
}
use mathlib.Core.List.Memᴰ.{head, tail, map as map_mem, of_map}
use morcus_net.Crunch.Types.{StemMapValue, CruncherTables, CrunchResult}
use morcus_net.Crunch.Exact.{
  for_candidate, crunch_options_for_end, slice_off, slice_end, ends_with, with_enclitic,
  for_enclitic, places_from,
}
use morcus_net.Crunch.Exact.Parses.{Reads, IsConsistent, kind-from, kind_to, kind_ok}

pub ends_with-split :
    (s t : Text)
    → ends_with s t ≡ true
    → (s ≡ slice_off (length t) s ++ t) × (slice_end (length t) s ≡ t)
unfolding ends_with
ends_with-split s t h =
    let same : slice_end (length t) s ≡ t =
      text_eq_sound (slice_end (length t) s) t (ground arith) in
    (
      sym (take-append-drop (length s - length t) s) ∙ ap (λ u. slice_off (length t) s ++ u) same,
      same,
    )

end_at : (e t : Text) → length (e ++ t) - length t ≡ length e
end_at e t = omega (arith, length-append e t)

ends_with-append : (e t : Text) → ends_with (e ++ t) t ≡ true
unfolding ends_with
ends_with-append e t =
    rw (end_at e t, drop_at e t, text_eq_self t) (ground (arith, length-append e t))

slice_off-append : (e t : Text) → slice_off (length t) (e ++ t) ≡ e
slice_off-append e t = rw (end_at e t) (take_at e t)

slice_end-append : (e t : Text) → slice_end (length t) (e ++ t) ≡ t
slice_end-append e t = rw (end_at e t) (drop_at e t)

pub places_from-mem : (a n i : ℕ) → i < n → Memᴰ (a + i) (places_from a n)
unfolding places_from
places_from-mem a zero i h = absurd (omega arith)
places_from-mem a (suc n) zero h = head (omega arith)
places_from-mem a (suc n) (suc i) h =
    let next : suc a + i ≡ a + suc i = omega arith in
    tail
      (subst (λ k. Memᴰ k (places_from (suc a) n)) next (places_from-mem (suc a) n i (omega arith)))

module _ (tables : CruncherTables) where
  pub options-from :
      (raw_end : Text) (candidates : List StemMapValue) {ys : List CrunchResult} {r : CrunchResult}
      → crunch_options_for_end raw_end tables candidates ≡ ok ys
      → Memᴰ r ys
      → (v : StemMapValue) × Memᴰ v candidates × Reads tables raw_end v r
  unfolding crunch_options_for_end
  options-from raw_end candidates e m =
      let (v, mv, (zs, at_v, mz)) = collect-from (for_candidate tables raw_end) candidates e m in
      (v, mv, kind-from tables raw_end v v.candidate refl at_v mz)

  pub options_ok :
      (start raw_end : Text) (candidates : List StemMapValue)
      → IsConsistent tables
      → tables.stem_map start ≡ some candidates
      → (ys : List CrunchResult) × (crunch_options_for_end raw_end tables candidates ≡ ok ys)
  unfolding crunch_options_for_end
  options_ok start raw_end candidates fit e =
      collect_ok (for_candidate tables raw_end) candidates (λ v m.
        let (code, has) = fit start candidates v e m in
        kind_ok tables raw_end v v.candidate code has)

  pub options-to :
      (start raw_end : Text) (candidates : List StemMapValue) (v : StemMapValue)
      {ys : List CrunchResult} {r : CrunchResult}
      → IsConsistent tables
      → tables.stem_map start ≡ some candidates
      → crunch_options_for_end raw_end tables candidates ≡ ok ys
      → Memᴰ v candidates
      → Reads tables raw_end v r
      → Memᴰ r ys
  unfolding crunch_options_for_end
  options-to start raw_end candidates v fit found e m reads =
      let (code, has) = fit start candidates v found m in
      let (zs, at_v) = kind_ok tables raw_end v v.candidate code has in
      collect-to (for_candidate tables raw_end) candidates e m at_v
        (kind_to tables raw_end v v.candidate refl at_v reads)

  -- A result of the round for an enclitic.
  pub enclitic-from :
      (candidates : List StemMapValue) (full_end p : Text) {ys : List CrunchResult}
      {r : CrunchResult}
      → for_enclitic tables candidates full_end p ≡ ok ys
      → Memᴰ r ys
      → (v : StemMapValue) × (host : CrunchResult) × (full_end ≡ slice_off (length p) full_end ++ p)
        × Memᴰ v candidates
        × Reads tables (slice_off (length p) full_end) v host
        × (r ≡ with_enclitic p host)
  unfolding for_enclitic
  enclitic-from candidates full_end p {ys} {r} e m = elim (Bool-cases (ends_with full_end p)) [
    | inr other ↦
        elim (subst (λ l. Memᴰ r l) (sym (ok-injective (rw (for_enclitic, other) at e))) m) [ ]
    | inl ends ↦
        let (splits, same) = ends_with-split full_end p ends in
        let (rs, hosts, done) =
          bind-eq-ok (crunch_options_for_end (slice_off (length p) full_end) tables candidates) _
            (rw (for_enclitic, ends) at e) in
        let (host, mh, r_is) =
          of_map (with_enclitic (slice_end (length p) full_end)) rs
            (subst (λ l. Memᴰ r l) (sym (ok-injective done)) m) in
        let (v, mv, reads) = options-from (slice_off (length p) full_end) candidates hosts mh in
        (v, host, splits, mv, reads, sym r_is ∙ ap (λ q. with_enclitic q host) same)
  ]

  pub enclitic_ok :
      (start : Text) (candidates : List StemMapValue) (full_end p : Text)
      → IsConsistent tables
      → tables.stem_map start ≡ some candidates
      → (ys : List CrunchResult) × (for_enclitic tables candidates full_end p ≡ ok ys)
  unfolding for_enclitic
  enclitic_ok start candidates full_end p fit found = elim (Bool-cases (ends_with full_end p)) [
    | inr other ↦ ([], rw (for_enclitic, other) refl)
    | inl ends ↦
        let (rs, hosts) = options_ok start (slice_off (length p) full_end) candidates fit found in
        (
          map (with_enclitic (slice_end (length p) full_end)) rs,
          rw (for_enclitic, ends, hosts) refl,
        )
  ]

  pub enclitic-to :
      (start end p : Text) (candidates : List StemMapValue) (v : StemMapValue) (host : CrunchResult)
      {ys : List CrunchResult}
      → IsConsistent tables
      → tables.stem_map start ≡ some candidates
      → for_enclitic tables candidates (end ++ p) p ≡ ok ys
      → Memᴰ v candidates
      → Reads tables end v host
      → Memᴰ (with_enclitic p host) ys
  unfolding for_enclitic
  enclitic-to start end p candidates v host fit found e m reads =
      let opened =
        rw (for_enclitic, ends_with-append end p, slice_off-append end p, slice_end-append end p) at
          e in
      let (rs, hosts, done) = bind-eq-ok (crunch_options_for_end end tables candidates) _ opened in
      subst (λ l. Memᴰ (with_enclitic p host) l) (ok-injective done)
        (map_mem (with_enclitic p) (options-to start end candidates v fit found hosts m reads))
