-- ===== src/Crunch/Words/Found.antt =====
-- `crunchWord` of src/morceus/crunch.ts as a whole: its spellings, their readings and the consolidation.
use morcus_net.Prelude.{
  sym, subst, ok-injective, collect-from, ℕ, suc, ◌≡◌, inl, inr, refl, ap, ◌∙◌, List, [], ◌∷◌, ◌++◌,
  map, Bool, Bool-cases, true, false, if◌then◌else◌, ◌&&◌, ◌||◌, length, ◌==◌, Text, ok, Memᴰ,
  collect_ok,
}
use mathlib.Core.List.Memᴰ.{append_left, of_map}
use morcus_net.Structures.ArrayMap.{text_keyed}
use morcus_net.Crunch.Types.{CruncherTables, CruncherOptions, CrunchResult}
use morcus_net.Crunch.Exact.Parses.{IsConsistent, Parses}
use morcus_net.Crunch.Exact.Match.{crunch_exact_match-Parses}
use morcus_net.Crunch.Spellings.{consonant_of, find_ambiguous_i_and_u}
use morcus_net.Crunch.Spellings.Respelled.{respelled}
use morcus_net.Crunch.Spellings.Alternates.{Respells, respells, alternates_with_i_or_u-Respells}
use morcus_net.Crunch.Exact.{crunch_exact_match}
use morcus_net.Crunch.Clusters.{data_of}
use morcus_net.Crunch.Clusters.Rounds.{IsPart-self}
use morcus_net.Crunch.Words.Keys.{HasPlainKey, HasPlainTexts, Parses-HasPlainKey}
use morcus_net.Crunch.Words.{
  Strings, relaxed, relaxed_match, relaxed_first, other_case, crunch_and_maybe_relax_case,
  is_present, or_true, crunch_alternates, consolidate_unless, clean_word, crunch_word,
}
use morcus_net.Crunch.Words.Consolidated.{
  Finds, HasPlainKeys, HasPlainKeys-append, no_results-HasPlainKeys, consolidate_ok,
}

respelled-cons :
    (pos c : ℕ) (s : Text) (ambigs : List ℕ) (set : List Bool)
    → (d : ℕ) × (t : Text) × (respelled pos (c ∷ s) ambigs set ≡ d ∷ t)
unfolding respelled
respelled-cons pos c s [] set = (c, s, refl)
respelled-cons pos c s (a ∷ ambigs) [] = (c, s, refl)
respelled-cons pos c s (a ∷ ambigs) (p ∷ set) = elim (Bool-cases (pos == a)) [
  | inl here ↦ (if p then consonant_of c else c, respelled (suc pos) s ambigs set, rw here refl)
  | inr other ↦ (c, respelled (suc pos) s (a ∷ ambigs) (p ∷ set), rw other refl)
]

-- Of a text that is not empty, every other spelling is not empty.
Respells-cons :
    (c : ℕ) (s : Text) (ambigs : List ℕ) (w : Text)
    → Respells (c ∷ s) ambigs w
    → (d : ℕ) × (t : Text) × (w ≡ d ∷ t)
Respells-cons c s ambigs w (respells set size some_place w_is) =
    let (d, t, e) = respelled-cons 0 c s ambigs set in (d, t, w_is ∙ e)

module _ (strings : Strings) (tables : CruncherTables) (options : CruncherOptions)
    (fit : IsConsistent tables) (texts : HasPlainTexts tables) where
  exact_ok :
      (word : Text)
      → (rs : List CrunchResult) × (crunch_exact_match word tables options.handle_enclitics ≡ ok rs)
        × ((r : CrunchResult) → Parses tables options.handle_enclitics word r → Memᴰ r rs)
        × HasPlainKeys rs
  exact_ok word =
      let (rs, done, parses) = crunch_exact_match-Parses word tables options.handle_enclitics fit in
      (
        rs,
        done,
        λ r. (parses r).1,
        λ r m. Parses-HasPlainKey tables options.handle_enclitics word r texts ((parses r).0 m),
      )

  relaxed_match_ok :
      (b : Bool) (word : Text)
      → (rs : List CrunchResult) × (relaxed_match strings tables options b word ≡ ok rs)
        × HasPlainKeys rs
  unfolding relaxed_match
  relaxed_match_ok false word = ([], refl, no_results-HasPlainKeys)
  relaxed_match_ok true word =
      let (rs, done, _, keys) = exact_ok word in
      (
        map (relaxed strings) rs,
        rw done refl,
        λ r m.
            let (q, mq, same) = of_map (relaxed strings) rs m in
            let plain_key : HasPlainKey (relaxed strings q) = keys q mq in
            subst HasPlainKey same plain_key,
      )

  -- Crunching a text that is not empty gives its readings first.
  crunch_ok :
      (c : ℕ) (s : Text)
      → (rs : List CrunchResult) × (crunch_and_maybe_relax_case strings tables options (c ∷ s)
          ≡ ok rs)
        × ((r : CrunchResult)
            → Parses tables options.handle_enclitics (c ∷ strings.to_lower_case s) r
            → Memᴰ r rs)
        × HasPlainKeys rs
  unfolding crunch_and_maybe_relax_case other_case
  crunch_ok c s =
      let (exact, done, parses, keys) = exact_ok (c ∷ strings.to_lower_case s) in
      let (capital_u, done_2, keys_2) =
        relaxed_match_ok (c == b'V') (b'U' ∷ strings.to_lower_case s) in
      let (other, done_3, keys_3) =
        relaxed_match_ok options.relax_case
          (relaxed_first strings tables options c ++ strings.to_lower_case s) in
      let (small_u, done_4, keys_4) =
        relaxed_match_ok (options.relax_case && c == b'V') (b'u' ∷ strings.to_lower_case s) in
      (
        exact ++ (capital_u ++ (other ++ small_u)),
        rw (done, done_2, done_3, done_4) refl,
        λ r parse. append_left (capital_u ++ (other ++ small_u)) (parses r parse),
        HasPlainKeys-append exact _ keys (
            HasPlainKeys-append capital_u _ keys_2
              (HasPlainKeys-append other small_u keys_3 keys_4)),
      )

  -- The other spellings of a text that is not empty.
  spelling_ok :
      (c : ℕ) (s : Text) (ambigs : List ℕ) (w : Text)
      → Respells (c ∷ s) ambigs w
      → (ys : List CrunchResult) × (crunch_and_maybe_relax_case strings tables options w ≡ ok ys)
        × HasPlainKeys ys
  spelling_ok c s ambigs w r =
      let (d, t, w_is) = Respells-cons c s ambigs w r in
      let (ys, at_w, _, keys) = crunch_ok d t in
      (ys, ap (crunch_and_maybe_relax_case strings tables options) w_is ∙ at_w, keys)

  alternates_ok :
      (c : ℕ) (s : Text)
      → length (strings.to_lower_case (c ∷ s)) ≡ length (c ∷ s)
      → (rs : List CrunchResult) × (crunch_alternates strings tables options (c ∷ s) ≡ ok rs)
        × HasPlainKeys rs
  unfolding crunch_alternates
  alternates_ok c s same =
      elim (Bool-cases (
        is_present strings tables options options.relax_i_and_j
        || is_present strings tables options options.relax_u_and_v)) [
          | inr neither ↦ ([], rw neither refl, no_results-HasPlainKeys)
          | inl relaxes ↦
              let try_i = or_true strings tables options options.relax_i_and_j in
              let try_u = or_true strings tables options options.relax_u_and_v in
              let ambigs = find_ambiguous_i_and_u strings.to_lower_case (c ∷ s) try_i try_u in
              let crunch = crunch_and_maybe_relax_case strings tables options in
              let (words, found, yielded) =
                alternates_with_i_or_u-Respells strings.to_lower_case (c ∷ s) try_i try_u same in
              let (rs, done) = collect_ok crunch words (λ w m.
                let (ys, at_w, _) = spelling_ok c s ambigs w ((yielded w).0 m) in (ys, at_w)) in
              (
                rs,
                rw (relaxes, found) done,
                λ r m.
                    let (w, mw, (zs, at_zs, mz)) = collect-from crunch words done m in
                    let (ys, at_ys, keys) = spelling_ok c s ambigs w ((yielded w).0 mw) in
                    let zs_are : zs ≡ ys = ok-injective (sym at_zs ∙ at_ys) in
                    keys r (subst (λ l. Memᴰ r l) zs_are mz),
              )
        ]

  consolidate_unless_ok :
      (b : Bool) (raw : List CrunchResult)
      → HasPlainKeys raw
      → (rs : List CrunchResult) × (consolidate_unless strings tables options b raw ≡ ok rs)
        × ((r : CrunchResult) → Memᴰ r raw → Finds strings rs r)
  consolidate_unless_ok true raw keys = (
    raw,
    refl,
    λ r m. record {
      result = r;
      in_results = m;
      same_word = record { same_lemma = refl; same_form = refl; same_tags = refl };
      all_values = IsPart-self (data_of r);
    },
  )
  consolidate_unless_ok false raw keys = consolidate_ok strings raw keys

-- The tables are as the assertions ask, and hold no `$` in a lemma, stem, form or ending; behind the
-- cleaning of the input a character is left, and its lower case is as long as it is. Then crunching the
-- input ends without an error, and for every reading of the word, with its letters behind the first in
-- lower case, some result has the same lemma, the same form and the same tags as they are compared, and
-- all values of the reading's grammatical data.
pub crunch_word-Parses :
    (strings : Strings) (tables : CruncherTables) (options : CruncherOptions) (input : Text) (c : ℕ)
    (s : Text)
    → IsConsistent tables
    → HasPlainTexts tables
    → clean_word strings input ≡ c ∷ s
    → length (strings.to_lower_case (c ∷ s)) ≡ length (c ∷ s)
    → (rs : List CrunchResult) × (crunch_word strings tables options input ≡ ok rs)
      × ((r : CrunchResult)
          → Parses tables options.handle_enclitics (c ∷ strings.to_lower_case s) r
          → Finds strings rs r)
unfolding crunch_word
crunch_word-Parses strings tables options input c s fit texts cleaned same =
    let (plain, done, parses, keys) = crunch_ok strings tables options fit texts c s in
    let (others, done_2, keys_2) = alternates_ok strings tables options fit texts c s same in
    let (rs, done_3, finds) =
      consolidate_unless_ok strings tables options fit texts options.skip_consolidation
        (plain ++ others) (HasPlainKeys-append plain others keys keys_2) in
    (
      rs,
      rw (crunch_word, cleaned, done, done_2) done_3,
      λ r parse. finds r (append_left others (parses r parse)),
    )
