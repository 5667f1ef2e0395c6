-- ===== src/Crunch/Exact/Parses.antt =====
-- What the results of an exact match are: the readings of the word in the tables.
use morcus_net.Prelude.{
  ◌≡◌, inl, inr, refl, sym, ap, ◌∙◌, subst, if◌then◌else◌, Option-cases, some, List, [], ◌∷◌, ◌++◌,
  Bool, Bool-cases, true, not, ◌||◌, Text, text_eq, text_eq_sound, codes, ok, assert, ok-injective,
  bind-eq-ok, Memᴰ, collect-from, collect-to, collect_ok,
}
use mathlib.Core.List.Memᴰ.{head, eq_of_singleton}
use morcus_net.Inflection.Tags.{InflectionContext}
use morcus_net.Crunch.Types.{
  Stem, IrregularForm, InflectionEnding, Candidate, regular, irregular, StemMapValue,
  CruncherTables, CrunchResult,
}
use morcus_net.Crunch.Exact.{
  enclitics, has_indeclinable_code, has_no_code, observed, is_possible, look_up, combined,
  irregular_result, regular_result, for_ending, for_kind, with_enclitic,
}

-- A candidate reads an end: an irregular form only the empty one (or `*`, which stands for it), a stem
-- those of its table that fit.
pub data Reads (tables : CruncherTables) (raw_end : Text) (v : StemMapValue) (r : CrunchResult)
    : Type 0 where
  as_form :
      (f : IrregularForm)
      → v.candidate ≡ irregular f
      → observed raw_end ≡ codes "*"
      → r ≡ irregular_result v f
      → Reads tables raw_end v r
  as_stem :
      (s : Stem) (ends : List InflectionEnding) (end : InflectionEnding)
      (context : InflectionContext)
      → v.candidate ≡ regular s
      → is_possible (tables.ends_map (observed raw_end)) s.inflection ≡ true
      → look_up tables s.inflection (observed raw_end) ≡ some ends
      → Memᴰ end ends
      → combined s end ≡ some context
      → r ≡ regular_result v s end context
      → Reads tables raw_end v r

-- A reading of a word: it is a stem or form of the tables, an end, and perhaps an enclitic.
pub data Parses (tables : CruncherTables) (handle_enclitics : Bool) (word : Text) (r : CrunchResult)
    : Type 0 where
  plain :
      (start end : Text) (candidates : List StemMapValue) (v : StemMapValue)
      → word ≡ start ++ end
      → tables.stem_map start ≡ some candidates
      → Memᴰ v candidates
      → Reads tables end v r
      → Parses tables handle_enclitics word r
  enclitic :
      (start end particle : Text) (candidates : List StemMapValue) (v : StemMapValue)
      (host : CrunchResult)
      → handle_enclitics ≡ true
      → word ≡ start ++ (end ++ particle)
      → Memᴰ particle enclitics
      → tables.stem_map start ≡ some candidates
      → Memᴰ v candidates
      → Reads tables end v host
      → r ≡ with_enclitic particle host
      → Parses tables handle_enclitics word r

-- The code of a candidate is one for its kind, as the assertions ask.
abbrev pub HasFitCode : Candidate → Type 0
HasFitCode (irregular f) = (has_indeclinable_code f.code || has_no_code f.code) ≡ true
HasFitCode (regular s) = (not (has_indeclinable_code s.code) || has_no_code s.code) ≡ true

-- Every end that a table may have is in that table.
abbrev pub HasTables : CruncherTables → Candidate → Type 0
HasTables tables (irregular f) = Unit
HasTables tables (regular s) =
    (end : Text)
    → is_possible (tables.ends_map end) s.inflection ≡ true
    → (ends : List InflectionEnding) × (look_up tables s.inflection end ≡ some ends)

-- The tables satisfy what the assertions ask of them.
abbrev pub IsConsistent : CruncherTables → Type 0
IsConsistent tables =
    (start : Text) (candidates : List StemMapValue) (v : StemMapValue)
    → tables.stem_map start ≡ some candidates
    → Memᴰ v candidates
    → HasFitCode v.candidate × HasTables tables v.candidate

module _ (tables : CruncherTables) where
  ending-from :
      (v : StemMapValue) (s : Stem) (end : InflectionEnding) {ys : List CrunchResult}
      {r : CrunchResult}
      → for_ending v s end ≡ ok ys
      → Memᴰ r ys
      → (context : InflectionContext) × (combined s end ≡ some context)
        × (r ≡ regular_result v s end context)
  ending-from v s end {ys} {r} e m = elim (Option-cases (combined s end)) [
    | inl none_fits ↦
        elim (subst (λ l. Memᴰ r l) (sym (ok-injective (rw (for_ending, none_fits) at e))) m) [ ]
    | inr (context, fits) ↦ (
      context,
      fits,
      eq_of_singleton (subst (λ l. Memᴰ r l) (sym (ok-injective (rw (for_ending, fits) at e))) m),
    )
  ]

  ending_ok :
      (v : StemMapValue) (s : Stem) (end : InflectionEnding)
      → (ys : List CrunchResult) × (for_ending v s end ≡ ok ys)
  ending_ok v s end = elim (Option-cases (combined s end)) [
    | inl none_fits ↦ ([], rw (for_ending, none_fits) refl)
    | inr (context, fits) ↦ (regular_result v s end context ∷ [], rw (for_ending, fits) refl)
  ]

  -- The rounds for candidates of either kind, with the kind as an argument.
  pub kind-from :
      (raw_end : Text) (v : StemMapValue) (c : Candidate) {ys : List CrunchResult}
      {r : CrunchResult}
      → v.candidate ≡ c
      → for_kind tables raw_end v c ≡ ok ys
      → Memᴰ r ys
      → Reads tables raw_end v r
  unfolding for_kind
  kind-from raw_end v (irregular f) {ys} {r} is e m =
      let (u, checked, done) =
        bind-eq-ok (assert (has_indeclinable_code f.code || has_no_code f.code) _) _ e in
      elim (Bool-cases (text_eq (observed raw_end) (codes "*"))) [
        | inl empty ↦
            as_form f is (text_eq_sound _ _ empty)
              (eq_of_singleton (subst (λ l. Memᴰ r l) (sym (ok-injective (rw empty at done))) m))
        | inr other ↦ elim (subst (λ l. Memᴰ r l) (sym (ok-injective (rw other at done))) m) [ ]
      ]
  kind-from raw_end v (regular s) {ys} {r} is e m =
      let (u, checked, done) =
        bind-eq-ok (assert (not (has_indeclinable_code s.code) || has_no_code s.code) _) _ e in
      elim (Bool-cases (is_possible (tables.ends_map (observed raw_end)) s.inflection)) [
        | inr other ↦ elim (subst (λ l. Memᴰ r l) (sym (ok-injective (rw other at done))) m) [ ]
        | inl possible ↦ elim (Option-cases (look_up tables s.inflection (observed raw_end))) [
          | inl missing ↦ let impossible = rw (possible, missing) at done in cc
          | inr (ends, found) ↦
              let (end, in_ends, (zs, at_end, in_zs)) =
                collect-from (for_ending v s) ends (rw (possible, found) at done) m in
              let (context, fits, r_is) = ending-from v s end at_end in_zs in
              as_stem s ends end context is possible found in_ends fits r_is
        ]
      ]

  pub kind_to :
      (raw_end : Text) (v : StemMapValue) (c : Candidate) {ys : List CrunchResult}
      {r : CrunchResult}
      → v.candidate ≡ c
      → for_kind tables raw_end v c ≡ ok ys
      → Reads tables raw_end v r
      → Memᴰ r ys
  unfolding for_kind
  kind_to raw_end v (irregular f) {ys} {r} is e (as_form f' is' empty r_is) =
      let (u, checked, done) =
        bind-eq-ok (assert (has_indeclinable_code f.code || has_no_code f.code) _) _ e in
      let star : text_eq (observed raw_end) (codes "*") ≡ true = rw empty refl in
      let same : f' ≡ f = ap (λ c. elim c [ irregular g ↦ g | regular s ↦ f ]) (sym is' ∙ is) in
      subst (λ l. Memᴰ r l) (ok-injective (rw star at done))
        (head (r_is ∙ ap (irregular_result v) same))
  kind_to raw_end v (regular s) is e (as_form f' is' empty r_is) = cc (is, is')
  kind_to raw_end v (irregular f) is e
        (as_stem s ends end context is' possible found in_ends fits r_is) =
      cc (is, is')
  kind_to raw_end v (regular s) {ys} {r} is e
        (as_stem s' ends end context is' possible found in_ends fits r_is) =
      let (u, checked, done) =
        bind-eq-ok (assert (not (has_indeclinable_code s.code) || has_no_code s.code) _) _ e in
      let same : s' ≡ s = ap (λ c. elim c [ irregular g ↦ s | regular t ↦ t ]) (sym is' ∙ is) in
      let possible' : is_possible (tables.ends_map (observed raw_end)) s.inflection ≡ true =
        rw (← same) possible in
      let found' : look_up tables s.inflection (observed raw_end) ≡ some ends = rw (← same) found in
      let fits' : combined s end ≡ some context = rw (← same) fits in
      let at_end : for_ending v s end ≡ ok (regular_result v s end context ∷ []) =
        rw (for_ending, fits') refl in
      collect-to (for_ending v s) ends (rw (possible', found') at done) in_ends at_end
        (head (r_is ∙ ap (λ t. regular_result v t end context) same))

  pub kind_ok :
      (raw_end : Text) (v : StemMapValue) (c : Candidate)
      → HasFitCode c
      → HasTables tables c
      → (ys : List CrunchResult) × (for_kind tables raw_end v c ≡ ok ys)
  unfolding for_kind
  kind_ok raw_end v (irregular f) code has = (
    if text_eq (observed raw_end) (codes "*") then irregular_result v f ∷ [] else [],
    rw code refl,
  )
  kind_ok raw_end v (regular s) code has =
      elim (Bool-cases (is_possible (tables.ends_map (observed raw_end)) s.inflection)) [
        | inr other ↦ ([], rw (code, other) refl)
        | inl possible ↦
            let (ends, found) = has (observed raw_end) possible in
            let (ys, done) = collect_ok (for_ending v s) ends (λ end m. ending_ok v s end) in
            (ys, rw (code, possible, found) done)
      ]
