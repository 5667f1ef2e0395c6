-- ===== src/Crunch/Exact/Match.antt =====
-- The results of an exact match are the readings of the word in the tables.
use morcus_net.Prelude.{
  ℕ, suc, ◌+◌, ◌≡◌, ◌↔◌, inl, inr, refl, sym, ap, ◌∙◌, subst, arith, if◌then◌else◌, Option-cases,
  some, List, [], ◌++◌, Bool, true, false, length, length-append, take, drop, take_at, drop_at,
  take-append-drop, Text, Result, ok, ok-injective, bind-eq-ok, Memᴰ, collect, collect-from,
  collect-to, collect_ok,
}
use mathlib.Core.List.Memᴰ.{append_left, append_right, append_cases}
use morcus_net.Crunch.Types.{StemMapValue, CruncherTables, CrunchResult, CrunchError}
use morcus_net.Crunch.Exact.{
  enclitics, crunch_options_for_end, slice_off, with_enclitic, for_enclitic, for_split, for_place,
  places_from, crunch_exact_match,
}
use morcus_net.Crunch.Exact.Parses.{Reads, Parses, plain, enclitic, IsConsistent}
use morcus_net.Crunch.Exact.Rounds.{
  places_from-mem, options-from, options_ok, options-to, enclitic-from, enclitic_ok, enclitic-to,
}

module _ (tables : CruncherTables) where
  -- The rounds for all enclitics, where they are handled.
  abbrev for_enclitics : Bool → List StemMapValue → Text → Result CrunchError (List CrunchResult)
  for_enclitics handle candidates full_end =
      if handle then collect (for_enclitic tables candidates full_end) enclitics else ok []

  enclitics_ok :
      (start : Text) (handle : Bool) (candidates : List StemMapValue) (full_end : Text)
      → IsConsistent tables
      → tables.stem_map start ≡ some candidates
      → (ys : List CrunchResult) × (for_enclitics handle candidates full_end ≡ ok ys)
  enclitics_ok start false candidates full_end fit found = ([], refl)
  enclitics_ok start true candidates full_end fit found =
      collect_ok (for_enclitic tables candidates full_end) enclitics
        (λ p m. enclitic_ok tables start candidates full_end p fit found)

  split_ok :
      (start : Text) (handle : Bool) (candidates : List StemMapValue) (full_end : Text)
      → IsConsistent tables
      → tables.stem_map start ≡ some candidates
      → (ys : List CrunchResult) × (for_split tables handle candidates full_end ≡ ok ys)
  unfolding for_split
  split_ok start handle candidates full_end fit found =
      let (plain_results, first) = options_ok tables start full_end candidates fit found in
      let (others, second) = enclitics_ok start handle candidates full_end fit found in
      (plain_results ++ others, rw (for_split, first, second) refl)

  place_ok :
      (word : Text) (handle : Bool) (i : ℕ)
      → IsConsistent tables
      → (ys : List CrunchResult) × (for_place word tables handle i ≡ ok ys)
  unfolding for_place
  place_ok word handle i fit = elim (Option-cases (tables.stem_map (take i word))) [
    | inl missing ↦ ([], rw (for_place, missing) refl)
    | inr (candidates, found) ↦
        let (ys, done) = split_ok (take i word) handle candidates (drop i word) fit found in
        (ys, rw (for_place, found) done)
  ]

  enclitics-from :
      (word start full_end : Text) (handle : Bool) (candidates : List StemMapValue)
      {ys : List CrunchResult} {r : CrunchResult}
      → word ≡ start ++ full_end
      → tables.stem_map start ≡ some candidates
      → for_enclitics handle candidates full_end ≡ ok ys
      → Memᴰ r ys
      → Parses tables handle word r
  enclitics-from word start full_end false candidates {ys} {r} cut found e m =
      elim (subst (λ l. Memᴰ r l) (sym (ok-injective e)) m) [ ]
  enclitics-from word start full_end true candidates {ys} {r} cut found e m =
      let (p, mp, (zs, at_p, mz)) =
        collect-from (for_enclitic tables candidates full_end) enclitics e m in
      let (v, host, splits, mv, reads, r_is) = enclitic-from tables candidates full_end p at_p mz in
      enclitic start (slice_off (length p) full_end) p candidates v host refl
        (cut ∙ ap (λ u. start ++ u) splits) mp found mv reads r_is

  split-from :
      (word start full_end : Text) (handle : Bool) (candidates : List StemMapValue)
      {ys : List CrunchResult} {r : CrunchResult}
      → word ≡ start ++ full_end
      → tables.stem_map start ≡ some candidates
      → for_split tables handle candidates full_end ≡ ok ys
      → Memᴰ r ys
      → Parses tables handle word r
  unfolding for_split
  split-from word start full_end handle candidates {ys} {r} cut found e m =
      let (plain_results, first, more) =
        bind-eq-ok (crunch_options_for_end full_end tables candidates) _ e in
      let (others, second, done) = bind-eq-ok (for_enclitics handle candidates full_end) _ more in
      elim (append_cases plain_results (subst (λ l. Memᴰ r l) (sym (ok-injective done)) m)) [
        | inl in_plain ↦
            let (v, mv, reads) = options-from tables full_end candidates first in_plain in
            plain start full_end candidates v cut found mv reads
        | inr in_others ↦
            enclitics-from word start full_end handle candidates cut found second in_others
      ]

  place-from :
      (word : Text) (handle : Bool) (i : ℕ) {ys : List CrunchResult} {r : CrunchResult}
      → for_place word tables handle i ≡ ok ys
      → Memᴰ r ys
      → Parses tables handle word r
  unfolding for_place
  place-from word handle i {ys} {r} e m = elim (Option-cases (tables.stem_map (take i word))) [
    | inl missing ↦
        elim (subst (λ l. Memᴰ r l) (sym (ok-injective (rw (for_place, missing) at e))) m) [ ]
    | inr (candidates, found) ↦
        split-from word (take i word) (drop i word) handle candidates
          (sym (take-append-drop i word)) found (rw (for_place, found) at e) m
  ]

  split-plain :
      (start full_end : Text) (handle : Bool) (candidates : List StemMapValue) (v : StemMapValue)
      {ys : List CrunchResult} {r : CrunchResult}
      → IsConsistent tables
      → tables.stem_map start ≡ some candidates
      → for_split tables handle candidates full_end ≡ ok ys
      → Memᴰ v candidates
      → Reads tables full_end v r
      → Memᴰ r ys
  unfolding for_split
  split-plain start full_end handle candidates v {ys} {r} fit found e m reads =
      let (plain_results, first, more) =
        bind-eq-ok (crunch_options_for_end full_end tables candidates) _ e in
      let (others, second, done) = bind-eq-ok (for_enclitics handle candidates full_end) _ more in
      subst (λ l. Memᴰ r l) (ok-injective done)
        (append_left others (options-to tables start full_end candidates v fit found first m reads))

  split-enclitic :
      (start end p : Text) (candidates : List StemMapValue) (v : StemMapValue) (host : CrunchResult)
      {ys : List CrunchResult}
      → IsConsistent tables
      → tables.stem_map start ≡ some candidates
      → for_split tables true candidates (end ++ p) ≡ ok ys
      → Memᴰ p enclitics
      → Memᴰ v candidates
      → Reads tables end v host
      → Memᴰ (with_enclitic p host) ys
  unfolding for_split
  split-enclitic start end p candidates v host fit found e mp m reads =
      let (plain_results, first, more) =
        bind-eq-ok (crunch_options_for_end (end ++ p) tables candidates) _ e in
      let (others, second, done) = bind-eq-ok (for_enclitics true candidates (end ++ p)) _ more in
      let (zs, at_p) = enclitic_ok tables start candidates (end ++ p) p fit found in
      subst (λ l. Memᴰ (with_enclitic p host) l) (ok-injective done)
        (append_right plain_results (
          collect-to (for_enclitic tables candidates (end ++ p)) enclitics second mp at_p
            (enclitic-to tables start end p candidates v host fit found at_p m reads)))

  -- A result for the first part of a word is one of the word's.
  place-to :
      (start full_end : Text) (handle : Bool) (candidates : List StemMapValue)
      {ys : List CrunchResult} {r : CrunchResult}
      → IsConsistent tables
      → tables.stem_map start ≡ some candidates
      → crunch_exact_match (start ++ full_end) tables handle ≡ ok ys
      → ((zs : List CrunchResult) → for_split tables handle candidates full_end ≡ ok zs → Memᴰ r zs)
      → Memᴰ r ys
  unfolding crunch_exact_match for_place
  place-to start full_end handle candidates {ys} {r} fit found e listed =
      let word = start ++ full_end in
      let zero_first : 0 + length start ≡ length start = omega arith in
      let inside : Memᴰ (length start) (places_from 0 (suc (length word))) =
        subst (λ k. Memᴰ k (places_from 0 (suc (length word)))) zero_first
          (places_from-mem 0 (suc (length word)) (length start)
            (omega (arith, length-append start full_end))) in
      let (zs, done) = split_ok start handle candidates full_end fit found in
      let at_start : for_place word tables handle (length start) ≡ ok zs =
        rw (for_place, take_at start full_end, found, drop_at start full_end) done in
      collect-to (for_place word tables handle) (places_from 0 (suc (length word))) e inside
        at_start (listed zs done)

  parses_listed :
      (word : Text) (handle : Bool) {ys : List CrunchResult} {r : CrunchResult}
      → IsConsistent tables
      → crunch_exact_match word tables handle ≡ ok ys
      → Parses tables handle word r
      → Memᴰ r ys
  parses_listed word handle fit e (plain start end candidates v cut found m reads) =
      place-to start end handle candidates fit found (rw cut at e)
        (λ zs done. split-plain start end handle candidates v fit found done m reads)
  parses_listed word handle {ys} fit e
        (enclitic start end p candidates v host handles cut mp found m reads r_is) =
      subst (λ q. Memᴰ q ys) (sym r_is)
        (place-to start (end ++ p) true candidates fit found (rw (cut, handles) at e)
          (λ zs done. split-enclitic start end p candidates v host fit found done mp m reads))

-- With tables as the assertions ask, an exact match does not throw, and its results are the readings of
-- the word: a stem or form at its beginning with an end that it can have, and where enclitics are
-- handled, one of them behind that.
pub crunch_exact_match-Parses :
    (word : Text) (tables : CruncherTables) (handle_enclitics : Bool)
    → IsConsistent tables
    → (rs : List CrunchResult) × (crunch_exact_match word tables handle_enclitics ≡ ok rs)
      × ((r : CrunchResult) → Memᴰ r rs ↔ Parses tables handle_enclitics word r)
unfolding crunch_exact_match
crunch_exact_match-Parses word tables handle fit =
    let places = places_from 0 (suc (length word)) in
    let (rs, done) =
      collect_ok (for_place word tables handle) places (λ i m. place_ok tables word handle i fit) in
    (
      rs,
      done,
      λ r. (
        λ m.
            let (i, mi, (zs, at_i, mz)) =
              collect-from (for_place word tables handle) places done m in
            place-from tables word handle i at_i mz,
        λ parse. parses_listed tables word handle fit done parse,
      ),
    )
