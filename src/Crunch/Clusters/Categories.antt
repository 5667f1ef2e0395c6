-- ===== src/Crunch/Clusters/Categories.antt =====
-- `consolidateByCategory` loses nothing, and so does `consolidateResultCluster`.
use morcus_net.Prelude.{
  suc, ◌≡◌, ◌⊎◌, inl, inr, refl, sym, subst, arith, Option, none, some, List, [], ◌∷◌, ◌++◌, Bool,
  Bool-cases, true, false, ◌||◌, length, Memᴰ,
}
use mathlib.Core.List.Memᴰ.{head, tail, append_left, append_right}
use morcus_net.Inflection.Types.{
  Enum, same, DataField, undefined, multiple, WordInflectionData, ablative, dative, feminine,
  masculine, neuter, case_enum, gender_enum,
}
use morcus_net.Inflection.Fields.{coerce_to_array, includes, Comparison, less, equal, more}
use morcus_net.Inflection.Compare.{
  compare_grammatical_data, compare_grammatical_data-Says, Says, IsPart, Within,
}
use morcus_net.Crunch.Types.{CrunchResult}
use morcus_net.Crunch.Clusters.{
  data_of, merge_subsets, Category, without, joined, is_equal, join_at, join_leader, is_candidate,
  or_push, group_items, consolidate_by_category, case_category, gender_category, by_category,
  consolidate_result_cluster,
}
use morcus_net.Crunch.Clusters.Rounds.{
  IsPart-self, Covers, Covers-mem, Covers-trans, AreMerged, merge_subsets-AreMerged,
}

-- Data is a part of other data with new values in the category, if it is but for the category, and
-- has its values there among the new ones.
abbrev IsCategory : {A : Type 0} ⦃e : Enum A⦄ → Category A → Type 0
IsCategory {A} c =
    (item leader : WordInflectionData) (f : DataField A)
    → IsPart (c.with_field undefined item) (c.with_field undefined leader)
    → Within (c.field item) f
    → IsPart item (c.with_field f leader)

case-IsCategory : IsCategory case_category
case-IsCategory item leader f p w = record {
  case = w;
  degree = p.degree;
  gender = p.gender;
  mood = p.mood;
  number = p.number;
  person = p.person;
  tense = p.tense;
  voice = p.voice;
}

gender-IsCategory : IsCategory gender_category
gender-IsCategory item leader f p w = record {
  case = p.case;
  degree = p.degree;
  gender = w;
  mood = p.mood;
  number = p.number;
  person = p.person;
  tense = p.tense;
  voice = p.voice;
}

is_equal-IsPart :
    (a b : WordInflectionData) (c : Option Comparison)
    → Says a b c
    → is_equal case_category c ≡ true
    → IsPart a b
is_equal-IsPart a b none says h = cc
is_equal-IsPart a b (some less) says h = cc
is_equal-IsPart a b (some equal) says h = says.0
is_equal-IsPart a b (some more) says h = cc

module _ {A : Type 0} ⦃e : Enum A⦄ where
  includes-append :
      (xs ys : List A) (a : A) → includes (xs ++ ys) a ≡ (includes xs a || includes ys a)
  unfolding includes
  includes-append [] ys a = refl
  includes-append (x ∷ xs) ys a = ground (arith, includes-append xs ys a)

  Within-first : (f g : DataField A) → Within f (multiple (coerce_to_array f ++ coerce_to_array g))
  unfolding coerce_to_array
  Within-first f g a m = ground (arith, includes-append (coerce_to_array f) (coerce_to_array g) a)

  Within-second : (f g : DataField A) → Within g (multiple (coerce_to_array f ++ coerce_to_array g))
  unfolding coerce_to_array
  Within-second f g a m = ground (arith, includes-append (coerce_to_array f) (coerce_to_array g) a)

module _ {A : Type 0} ⦃e : Enum A⦄ (category : Category A) (lens : IsCategory category) where
  joined-first :
      (leader item : CrunchResult) → IsPart (data_of leader) (data_of (joined category leader item))
  unfolding joined
  joined-first leader item =
      lens (data_of leader) (data_of leader) _ (IsPart-self _)
        (Within-first (category.field (data_of leader)) (category.field (data_of item)))

  joined-second :
      (leader item : CrunchResult)
      → IsPart (without category item) (without category leader)
      → IsPart (data_of item) (data_of (joined category leader item))
  unfolding joined without
  joined-second leader item p =
      lens (data_of item) (data_of leader) _ p
        (Within-second (category.field (data_of leader)) (category.field (data_of item)))

  -- Changed leaders cover an item and the leaders before.
  abbrev Joins : CrunchResult → List CrunchResult → List CrunchResult → Type 0
  Joins item leaders changed =
      Covers changed item × ((k : CrunchResult) → Memᴰ k leaders → Covers changed k)

  Covers-behind :
      (leader : CrunchResult) (rest : List CrunchResult) (k : CrunchResult)
      → Covers rest k
      → Covers (leader ∷ rest) k
  Covers-behind leader rest k (l, ml, part) = (l, tail ml, part)

  Covers-head :
      (new k : CrunchResult) (leader : CrunchResult) (rest : List CrunchResult)
      → IsPart (data_of leader) (data_of new)
      → k ≡ leader
      → Covers (new ∷ rest) k
  Covers-head new k leader rest part same =
      (new, head refl, subst (λ r. IsPart (data_of r) (data_of new)) (sym same) part)

  join_here :
      (item leader : CrunchResult) (leaders : List CrunchResult)
      → IsPart (without category item) (without category leader)
      → Joins item (leader ∷ leaders) (joined category leader item ∷ leaders)
  join_here item leader leaders p =
      let new = joined category leader item in
      (
        (new, head refl, joined-second leader item p),
        λ k m. elim m [
          | head q ↦ Covers-head new k leader leaders (joined-first leader item) q
          | tail m' ↦ (k, tail m', IsPart-self (data_of k))
        ],
      )

  join_later :
      (item leader : CrunchResult) (leaders changed : List CrunchResult)
      → Joins item leaders changed
      → Joins item (leader ∷ leaders) (leader ∷ changed)
  join_later item leader leaders changed (c, cs) = (
    Covers-behind leader changed item c,
    λ k m. elim m [
      | head q ↦ Covers-head leader k leader changed (IsPart-self (data_of leader)) q
      | tail m' ↦ Covers-behind leader changed k (cs k m')
    ],
  )

  join_at-Joins :
      (item leader : CrunchResult) (leaders : List CrunchResult) (b : Bool)
      (later : Option (List CrunchResult)) (changed : List CrunchResult)
      → (b ≡ true → IsPart (without category item) (without category leader))
      → ((rest : List CrunchResult) → later ≡ some rest → Joins item leaders rest)
      → join_at category item leader leaders b later ≡ some changed
      → Joins item (leader ∷ leaders) changed
  join_at-Joins item leader leaders true later changed part below e =
      subst (Joins item (leader ∷ leaders)) (cc e) (join_here item leader leaders (part refl))
  join_at-Joins item leader leaders false none changed part below e = cc e
  join_at-Joins item leader leaders false (some rest) changed part below e =
      subst (Joins item (leader ∷ leaders)) (cc e)
        (join_later item leader leaders rest (below rest refl))

  join_leader-Joins :
      (item : CrunchResult) (leaders changed : List CrunchResult)
      → join_leader category item leaders ≡ some changed
      → Joins item leaders changed
  unfolding join_leader
  join_leader-Joins item [] changed e = cc
  join_leader-Joins item (leader ∷ leaders) changed e =
      join_at-Joins item leader leaders
        (is_equal category
          (compare_grammatical_data (without category item) (without category leader)))
        (join_leader category item leaders) changed
        (is_equal-IsPart (without category item) (without category leader) _
          (compare_grammatical_data-Says (without category item) (without category leader)))
        (λ rest below. join_leader-Joins item leaders rest below) e

  or_push-Joins :
      (item : CrunchResult) (leaders : List CrunchResult) (found : Option (List CrunchResult))
      → ((changed : List CrunchResult) → found ≡ some changed → Joins item leaders changed)
      → Joins item leaders (or_push category item leaders found)
  or_push-Joins item leaders none h = (
    Covers-mem (leaders ++ (item ∷ [])) item (append_right leaders (head refl)),
    λ k m. Covers-mem (leaders ++ (item ∷ [])) k (append_left (item ∷ []) m),
  )
  or_push-Joins item leaders (some changed) h = h changed refl

  group_items-Covers :
      (consolidable : List A) (unmerged leaders items : List CrunchResult) (k : CrunchResult)
      → Memᴰ k unmerged ⊎ (Memᴰ k leaders ⊎ Memᴰ k items)
      → Covers (group_items category consolidable unmerged leaders items) k
  unfolding group_items
  group_items-Covers consolidable unmerged leaders [] k m = elim m [
    | inl in_unmerged ↦ Covers-mem (unmerged ++ leaders) k (append_left leaders in_unmerged)
    | inr others ↦ elim others [
      | inl in_leaders ↦ Covers-mem (unmerged ++ leaders) k (append_right unmerged in_leaders)
      | inr none_left ↦ elim none_left [ ]
    ]
  ]
  group_items-Covers consolidable unmerged leaders (item ∷ items) k m =
      let changed = or_push category item leaders (join_leader category item leaders) in
      let (c, cs) =
        or_push-Joins item leaders (join_leader category item leaders)
          (λ l. join_leader-Joins item leaders l) in
      let all_merged = group_items category consolidable unmerged changed items in
      elim (Bool-cases (is_candidate category consolidable item)) [
        | inl candidate ↦ rw candidate (
            let later : (q : CrunchResult) → Memᴰ q changed → Covers all_merged q =
              λ q mq. group_items-Covers consolidable unmerged changed items q (inr (inl mq)) in
            elim m [
              | inl in_unmerged ↦
                  group_items-Covers consolidable unmerged changed items k (inl in_unmerged)
              | inr others ↦ elim others [
                | inl in_leaders ↦ Covers-trans changed all_merged k later (cs k in_leaders)
                | inr in_items ↦ elim in_items [
                  | head q ↦
                      Covers-trans changed all_merged k later
                        (subst (λ r. Covers changed r) (sym q) c)
                  | tail m' ↦
                      group_items-Covers consolidable unmerged changed items k (inr (inr m'))
                ]
              ]
            ])
        | inr kept ↦ rw kept (elim m [
          | inl in_unmerged ↦
              group_items-Covers consolidable (unmerged ++ (item ∷ [])) leaders items k
                (inl (append_left (item ∷ []) in_unmerged))
          | inr others ↦ elim others [
            | inl in_leaders ↦
                group_items-Covers consolidable (unmerged ++ (item ∷ [])) leaders items k
                  (inr (inl in_leaders))
            | inr in_items ↦ elim in_items [
              | head q ↦
                  group_items-Covers consolidable (unmerged ++ (item ∷ [])) leaders items k
                    (inl (append_right unmerged (head q)))
              | tail m' ↦
                  group_items-Covers consolidable (unmerged ++ (item ∷ [])) leaders items k
                    (inr (inr m'))
            ]
          ]
        ])
      ]

  consolidate-Covers :
      (consolidable : List A) (cluster : List CrunchResult) (k : CrunchResult)
      → Memᴰ k cluster
      → Covers (consolidate_by_category category consolidable cluster) k
  unfolding consolidate_by_category
  consolidate-Covers consolidable cluster k m =
      group_items-Covers consolidable [] [] cluster k (inr (inr m))

by_category-Covers :
    (original : List CrunchResult) (k : CrunchResult)
    → Memᴰ k original
    → Covers (by_category original) k
by_category-Covers original k m =
    let by_case = consolidate_by_category case_category (ablative ∷ dative ∷ []) original in
    Covers-trans by_case (by_category original) k
      (consolidate-Covers gender_category gender-IsCategory (feminine ∷ masculine ∷ neuter ∷ [])
        by_case)
      (consolidate-Covers case_category case-IsCategory (ablative ∷ dative ∷ []) original k m)

-- Consolidating a cluster ends. The loop for subsets leaves results of the cluster of which none has
-- all values of another, and every result of the cluster has its values in one of these; and every
-- result of the cluster has all its values in one of those that are given in the end.
pub consolidate_result_cluster-Covers :
    (cluster : List CrunchResult)
    → (merged : List CrunchResult) × (merge_subsets (suc (length cluster)) cluster ≡ some merged)
      × AreMerged cluster merged
      × ((rs : List CrunchResult) × (consolidate_result_cluster cluster ≡ some rs)
          × ((r : CrunchResult) → Memᴰ r cluster → Covers rs r))
unfolding consolidate_result_cluster
consolidate_result_cluster-Covers cluster =
    let (merged, e, h) = merge_subsets-AreMerged (suc (length cluster)) cluster (omega arith) in
    (
      merged,
      e,
      h,
      (
        by_category merged,
        rw (consolidate_result_cluster, e) refl,
        λ r m.
            Covers-trans merged (by_category merged) r (by_category-Covers merged) (h.covered r m),
      ),
    )
