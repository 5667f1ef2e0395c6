-- ===== src/Crunch/Words/Consolidated.antt =====
-- `consolidateCrunchResults` of src/morceus/crunch.ts: the results by their clusters.
use morcus_net.Prelude.{
  some, ◌≡◌, inl, inr, refl, List, [], ◌++◌, Text, ok, Memᴰ, collect_ok, collect-to,
}
use mathlib.Core.List.Memᴰ.{append_cases}
use morcus_net.Structures.ArrayMap.{text_keyed, array_map_by}
use morcus_net.Structures.ArrayMap.Groups.{array_map_by-mem}
use morcus_net.Crunch.Types.{CrunchResult}
use morcus_net.Inflection.Compare.{IsPart}
use morcus_net.Crunch.Clusters.{data_of, consolidate_result_cluster}
use morcus_net.Crunch.Clusters.Kept.{consolidate-kept}
use morcus_net.Crunch.Words.Keys.{HasPlainKey, IsSameWord, cluster_key-IsSameWord}
use morcus_net.Crunch.Clusters.Categories.{consolidate_result_cluster-Covers}
use morcus_net.Crunch.Words.{Strings, cluster_key, of_cluster, consolidate_crunch_results}

-- Some result of the list is of the same word as the first, and has all its values.
pub record Finds (strings : Strings) (rs : List CrunchResult) (r : CrunchResult) : Type 0 where
  pub result : CrunchResult
  pub in_results : Memᴰ result rs
  pub same_word : IsSameWord strings r result
  pub all_values : IsPart (data_of r) (data_of result)

-- What a list of raw results has: all of their keys are unambiguous.
abbrev pub HasPlainKeys : List CrunchResult → Type 0
HasPlainKeys rs = (r : CrunchResult) → Memᴰ r rs → HasPlainKey r

pub HasPlainKeys-append :
    (rs qs : List CrunchResult) → HasPlainKeys rs → HasPlainKeys qs → HasPlainKeys (rs ++ qs)
HasPlainKeys-append rs qs hr hq r m = elim (append_cases rs m) [
  | inl in_rs ↦ hr r in_rs
  | inr in_qs ↦ hq r in_qs
]

pub no_results-HasPlainKeys : HasPlainKeys []
no_results-HasPlainKeys r m = elim m [ ]

module _ (strings : Strings) where
  -- The consolidation of a cluster, whose results are of the same word.
  cluster-Finds :
      (r : CrunchResult) (vs : List CrunchResult)
      → Memᴰ r vs
      → ((w : CrunchResult) → Memᴰ w vs → IsSameWord strings r w)
      → (rs : List CrunchResult) × (consolidate_result_cluster vs ≡ some rs) × Finds strings rs r
  cluster-Finds r vs m same =
      let (merged, _, _, (rs, done, covers)) = consolidate_result_cluster-Covers vs in
      let (k, mk, part) = covers r m in
      let kept =
        consolidate-kept (λ q. IsSameWord strings r q)
          (λ d q h. record {
            same_lemma = h.same_lemma;
            same_form = h.same_form;
            same_tags = h.same_tags;
          })
          vs rs same done k mk in
      (rs, done, record { result = k; in_results = mk; same_word = kept; all_values = part })

  of_cluster_ok :
      (e : Text × List CrunchResult) → (rs : List CrunchResult) × (of_cluster strings e ≡ ok rs)
  of_cluster_ok e =
      let (merged, _, _, (rs, done, covers)) = consolidate_result_cluster-Covers e.1 in
      (rs, rw (of_cluster, done) refl)

  -- Consolidation ends, and finds every result.
  pub consolidate_ok :
      (raw : List CrunchResult)
      → HasPlainKeys raw
      → (rs : List CrunchResult) × (consolidate_crunch_results strings raw ≡ ok rs)
        × ((r : CrunchResult) → Memᴰ r raw → Finds strings rs r)
  unfolding consolidate_crunch_results
  consolidate_ok raw keys =
      let entries = array_map_by raw (cluster_key strings) in
      let (rs, done) = collect_ok (of_cluster strings) entries (λ e m. of_cluster_ok e) in
      (
        rs,
        done,
        λ r m.
            let (vs, in_entries, in_vs, group) = array_map_by-mem raw (cluster_key strings) r m in
            let (zs, at_e, found) = cluster-Finds r vs in_vs (λ w mw.
              let (in_raw, same_key) = group w mw in
              cluster_key-IsSameWord strings r w (keys r m) (keys w in_raw) same_key) in
            let at_entry : of_cluster strings (cluster_key strings r, vs) ≡ ok zs =
              rw (of_cluster, at_e) refl in
            record {
              result = found.result;
              in_results =
                  collect-to (of_cluster strings) entries done in_entries at_entry found.in_results;
              same_word = found.same_word;
              all_values = found.all_values;
            },
      )
