-- ===== src/Crunch/Words/Analyses.antt =====
-- `convert` of src/morceus/crunch.ts: the results grouped by lemma and by form.
use morcus_net.Prelude.{◌≡◌, refl, List, filter, not, ◌==◌, Text, Memᴰ}
use mathlib.Core.List.Memᴰ.{map as map_mem}
use morcus_net.Structures.ArrayMap.{text_keyed}
use morcus_net.Structures.ArrayMap.Groups.{array_map_by-mem}
use morcus_net.Crunch.Types.{CrunchResult}
use morcus_net.Crunch.Words.{clean_lemma, LatinWordAnalysis, without_hyphens, analysis_of, convert}

abbrev pub no_hyphens : Text → Text
no_hyphens s = filter (λ c. not (c == b'-')) s

-- The analysis holds the result under a form.
pub record Holds (a : LatinWordAnalysis) (r : CrunchResult) : Type 0 where
  pub same_lemma : a.lemma ≡ clean_lemma r.lemma
  pub results : List CrunchResult
  pub under_form : Memᴰ (no_hyphens r.form, results) a.inflected_forms
  pub in_results : Memᴰ r results

-- Every result is held by one of the analyses, with the cleaned lemma of the result and under its form
-- without hyphens.
pub convert-Holds :
    (crunch_results : List CrunchResult) (r : CrunchResult)
    → Memᴰ r crunch_results
    → (a : LatinWordAnalysis) × Memᴰ a (convert crunch_results) × Holds a r
unfolding convert analysis_of
convert-Holds crunch_results r m =
    let (of_lemma, in_lemmas, in_lemma, _) = array_map_by-mem crunch_results (λ q. q.lemma) r m in
    let (of_form, in_forms, in_form, _) = array_map_by-mem of_lemma (λ q. q.form) r in_lemma in
    (
      analysis_of (r.lemma, of_lemma),
      map_mem analysis_of in_lemmas,
      record {
        same_lemma = refl;
        results = of_form;
        under_form = map_mem without_hyphens in_forms;
        in_results = in_form;
      },
    )
