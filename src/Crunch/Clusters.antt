-- ===== src/Crunch/Clusters.antt =====
-- `consolidateResultCluster` of src/morceus/crunch.ts, with `consolidateByCategory`. The source changes
-- the data of a result in place; only the lists that it returns are read behind that.
pub mod Rounds
pub mod Categories
pub mod Kept
use morcus_net.Prelude.{
  ℕ, zero, suc, ◌==◌, if◌then◌else◌, Option, none, some, List, [], ◌∷◌, ◌++◌, Bool, true, false,
  length,
}
use morcus_net.Inflection.Types.{
  Enum, DataField, undefined, multiple, WordInflectionData, LatinCase, ablative, dative,
  LatinGender, feminine, masculine, neuter, case_enum, gender_enum,
}
use morcus_net.Inflection.Fields.{coerce_to_array, Comparison, less, equal, more, compare_field}
use morcus_net.Inflection.Tags.{InflectionContext}
use morcus_net.Inflection.Compare.{compare_grammatical_data}
use morcus_net.Crunch.Types.{CrunchResult}

abbrev pub data_of : CrunchResult → WordInflectionData
data_of r = r.context.grammatical_data

-- What a round for one of the consolidated results does, and whether the new result is consumed.
abbrev pub absorb_one :
    CrunchResult
    → CrunchResult
    → Option Comparison
    → Bool × List CrunchResult
    → Bool × List CrunchResult
absorb_one r k none (consumed, ks) = (consumed, k ∷ ks)
absorb_one r k (some more) (consumed, ks) = (true, r ∷ ks)
absorb_one r k (some equal) (consumed, ks) = (true, k ∷ ks)
absorb_one r k (some less) (consumed, ks) = (true, k ∷ ks)

-- The loop over the consolidated results.
unfoldable pub absorb : CrunchResult → List CrunchResult → Bool × List CrunchResult
absorb r [] = (false, [])
absorb r (k ∷ ks) = absorb_one r k (compare_grammatical_data (data_of r) (data_of k)) (absorb r ks)

abbrev pub push_unless : Bool → CrunchResult → List CrunchResult → List CrunchResult
push_unless true r ks = ks
push_unless false r ks = ks ++ (r ∷ [])

-- The loop over the results.
unfoldable pub one_round : List CrunchResult → List CrunchResult → List CrunchResult
unfolding absorb
one_round consolidated [] = consolidated
one_round consolidated (r ∷ rs) =
    one_round (push_unless (absorb r consolidated).0 r (absorb r consolidated).1) rs

-- `while (true)`, on fuel.
unfoldable pub merge_subsets : ℕ → List CrunchResult → Option (List CrunchResult)
unfolding one_round
merge_subsets zero original = none
merge_subsets (suc fuel) original =
    let rest = merge_subsets fuel (one_round [] original) in
    if length original == length (one_round [] original) then some (one_round [] original) else rest

-- A category: how it is read and written.
pub record Category (A : Type 0) : Type 0 where
  pub field : WordInflectionData → DataField A
  pub with_field : DataField A → WordInflectionData → WordInflectionData

abbrev pub with_data : WordInflectionData → CrunchResult → CrunchResult
with_data d r = record r { context = record r.context { grammatical_data = d } }

module _ {A : Type 0} ⦃e : Enum A⦄ (category : Category A) where
  -- `item.grammaticalData` without the category.
  unfoldable pub without : CrunchResult → WordInflectionData
  without r = category.with_field undefined (data_of r)

  -- The data of a leader with the values of an item behind its own.
  unfoldable pub joined : CrunchResult → CrunchResult → CrunchResult
  joined leader item =
      with_data
        (category.with_field
          (multiple (
            coerce_to_array (category.field (data_of leader))
            ++ coerce_to_array (category.field (data_of item))))
          (data_of leader))
        leader

  abbrev pub is_equal : Option Comparison → Bool
  is_equal (some equal) = true
  is_equal _ = false

  -- What a round for a leader does, where the item is joined to it or not.
  abbrev pub join_at :
      CrunchResult
      → CrunchResult
      → List CrunchResult
      → Bool
      → Option (List CrunchResult)
      → Option (List CrunchResult)
  join_at item leader leaders true later = some (joined leader item ∷ leaders)
  join_at item leader leaders false none = none
  join_at item leader leaders false (some changed) = some (leader ∷ changed)

  -- The loop over the leaders: the item is joined to the first that differs in nothing else.
  unfoldable pub join_leader : CrunchResult → List CrunchResult → Option (List CrunchResult)
  join_leader item [] = none
  join_leader item (leader ∷ leaders) =
      join_at item leader leaders
        (is_equal (compare_grammatical_data (without item) (without leader)))
        (join_leader item leaders)

  abbrev pub or_push :
      CrunchResult → List CrunchResult → Option (List CrunchResult) → List CrunchResult
  or_push item leaders none = leaders ++ (item ∷ [])
  or_push item leaders (some changed) = changed

  -- `k === -1 || k === 0`.
  abbrev pub is_subset : Option Comparison → Bool
  is_subset (some less) = true
  is_subset (some equal) = true
  is_subset _ = false

  unfoldable pub is_candidate : List A → CrunchResult → Bool
  is_candidate consolidable item =
      is_subset (compare_field (category.field (data_of item)) (multiple consolidable))

  -- The loop of `consolidateByCategory`, and its result.
  unfoldable pub group_items :
      List A → List CrunchResult → List CrunchResult → List CrunchResult → List CrunchResult
  group_items consolidable unmerged leaders [] = unmerged ++ leaders
  group_items consolidable unmerged leaders (item ∷ items) =
      let merged_item =
        group_items consolidable unmerged (or_push item leaders (join_leader item leaders)) items in
      let unmerged_item = group_items consolidable (unmerged ++ (item ∷ [])) leaders items in
      if is_candidate consolidable item then merged_item else unmerged_item

  -- `consolidateByCategory`.
  unfoldable pub consolidate_by_category : List A → List CrunchResult → List CrunchResult
  unfolding group_items
  consolidate_by_category consolidable cluster = group_items consolidable [] [] cluster

abbrev pub case_category : Category LatinCase
case_category = record { field = λ d. d.case; with_field = λ f d. record d { case = f } }

abbrev pub gender_category : Category LatinGender
gender_category = record { field = λ d. d.gender; with_field = λ f d. record d { gender = f } }

abbrev pub by_category : List CrunchResult → List CrunchResult
by_category original =
    consolidate_by_category gender_category (feminine ∷ masculine ∷ neuter ∷ [])
      (consolidate_by_category case_category (ablative ∷ dative ∷ []) original)

-- `consolidateResultCluster`.
unfoldable pub consolidate_result_cluster : List CrunchResult → Option (List CrunchResult)
unfolding merge_subsets
consolidate_result_cluster cluster = elim (merge_subsets (suc (length cluster)) cluster) [
  | none ↦ none
  | some original ↦ some (by_category original)
]
