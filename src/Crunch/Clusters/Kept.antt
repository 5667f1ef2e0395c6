-- ===== src/Crunch/Clusters/Kept.antt =====
-- `consolidateResultCluster` of src/morceus/crunch.ts, and what all results of a cluster have in common.
use morcus_net.Prelude.{
  ◌≡◌, inl, inr, refl, sym, subst, Option, none, some, List, [], ◌∷◌, ◌++◌, All, All-append, Bool,
  Bool-cases, true, false, length, suc, arith, Memᴰ,
}
use mathlib.Core.List.Memᴰ.{head, tail}
use morcus_net.Inflection.Types.{
  Enum, WordInflectionData, ablative, dative, feminine, masculine, neuter, case_enum, gender_enum,
}
use morcus_net.Inflection.Compare.{compare_grammatical_data}
use morcus_net.Crunch.Types.{CrunchResult}
use morcus_net.Crunch.Clusters.{
  with_data, Category, without, joined, is_equal, join_at, join_leader, is_candidate, or_push,
  group_items, consolidate_by_category, case_category, gender_category, by_category,
  consolidate_result_cluster,
}
use morcus_net.Crunch.Clusters.Rounds.{merge_subsets-AreMerged}

module _ (P : CrunchResult → Type 0) where
  All-of : (rs : List CrunchResult) → ((r : CrunchResult) → Memᴰ r rs → P r) → All P rs
  All-of [] h = tt
  All-of (r ∷ rs) h = (h r (head refl), All-of rs (λ q m. h q (tail m)))

  All-at : (rs : List CrunchResult) (r : CrunchResult) → All P rs → Memᴰ r rs → P r
  All-at [] r h m = elim m [ ]
  All-at (q ∷ rs) r (here, below) (head e) = subst P (sym e) here
  All-at (q ∷ rs) r (here, below) (tail m) = All-at rs r below m

  module _
      (whatever_data : (d : WordInflectionData) (r : CrunchResult) → P r → P (with_data d r)) where
    module _ {A : Type 0} ⦃e : Enum A⦄ (category : Category A) where
      All-join_at :
          (item leader : CrunchResult) (leaders : List CrunchResult) (b : Bool)
          (later : Option (List CrunchResult)) (changed : List CrunchResult)
          → All P (leader ∷ leaders)
          → ((rest : List CrunchResult) → later ≡ some rest → All P rest)
          → join_at category item leader leaders b later ≡ some changed
          → All P changed
      unfolding joined
      All-join_at item leader leaders true later changed (here, below) h e =
          let same : joined category leader item ∷ leaders ≡ changed = cc e in
          subst (All P) same (whatever_data _ leader here, below)
      All-join_at item leader leaders false none changed (here, below) h e = cc e
      All-join_at item leader leaders false (some rest) changed (here, below) h e =
          let same : leader ∷ rest ≡ changed = cc e in subst (All P) same (here, h rest refl)

      All-join_leader :
          (item : CrunchResult) (leaders changed : List CrunchResult)
          → All P leaders
          → join_leader category item leaders ≡ some changed
          → All P changed
      unfolding join_leader
      All-join_leader item [] changed h e = cc
      All-join_leader item (leader ∷ leaders) changed h e =
          All-join_at item leader leaders
            (is_equal category
              (compare_grammatical_data (without category item) (without category leader)))
            (join_leader category item leaders) changed h
            (λ rest below. All-join_leader item leaders rest h.1 below) e

      All-or_push :
          (item : CrunchResult) (leaders : List CrunchResult) (found : Option (List CrunchResult))
          → P item
          → All P leaders
          → ((changed : List CrunchResult) → found ≡ some changed → All P changed)
          → All P (or_push category item leaders found)
      All-or_push item leaders none p h below = All-append P leaders (item ∷ []) h (p, tt)
      All-or_push item leaders (some changed) p h below = below changed refl

      All-group_items :
          (consolidable : List A) (unmerged leaders items : List CrunchResult)
          → All P unmerged
          → All P leaders
          → All P items
          → All P (group_items category consolidable unmerged leaders items)
      unfolding group_items
      All-group_items consolidable unmerged leaders [] hu hl h = All-append P unmerged leaders hu hl
      All-group_items consolidable unmerged leaders (item ∷ items) hu hl (here, below) =
          elim (Bool-cases (is_candidate category consolidable item)) [
            | inl candidate ↦ rw candidate (
                All-group_items consolidable unmerged
                  (or_push category item leaders (join_leader category item leaders)) items hu
                  (All-or_push item leaders (join_leader category item leaders) here hl
                    (λ changed found. All-join_leader item leaders changed hl found))
                  below)
            | inr kept ↦ rw kept (
                All-group_items consolidable (unmerged ++ (item ∷ [])) leaders items
                  (All-append P unmerged (item ∷ []) hu (here, tt)) hl below)
          ]

      All-consolidate :
          (consolidable : List A) (cluster : List CrunchResult)
          → All P cluster
          → All P (consolidate_by_category category consolidable cluster)
      unfolding consolidate_by_category
      All-consolidate consolidable cluster h = All-group_items consolidable [] [] cluster tt tt h

    -- Whatever holds of each result of a cluster, with any data in the place of its own, holds of each
    -- that is given in the end.
    pub consolidate-kept :
        (cluster rs : List CrunchResult)
        → ((r : CrunchResult) → Memᴰ r cluster → P r)
        → consolidate_result_cluster cluster ≡ some rs
        → (k : CrunchResult) → Memᴰ k rs
        → P k
    unfolding consolidate_result_cluster
    consolidate-kept cluster rs h e k m =
        let (merged, done, known) =
          merge_subsets-AreMerged (suc (length cluster)) cluster (omega arith) in
        let by_case = consolidate_by_category case_category (ablative ∷ dative ∷ []) merged in
        let all_merged : All P merged = All-of merged (λ r mr. h r (known.known r mr)) in
        let all_of : All P (by_category merged) =
          All-consolidate gender_category (feminine ∷ masculine ∷ neuter ∷ []) by_case
            (All-consolidate case_category (ablative ∷ dative ∷ []) merged all_merged) in
        let same : by_category merged ≡ rs =
          some_injective (rw (consolidate_result_cluster, done) at e) in
        All-at rs k (subst (All P) same all_of) m
      where
        some_injective :
            {x y : List CrunchResult}
            → ◌≡◌ {A = Option (List CrunchResult)} (some x) (some y)
            → x ≡ y
        some_injective p = cc
