-- ===== src/Inflection/Fields.antt =====
-- Fields with no value, one or several: the helpers of src/morceus/inflection_data_utils.ts.
use morcus_net.Prelude.{
  Option, none, some, List, [], ◌∷◌, ◌++◌, Bool, true, false, ◌&&◌, ◌||◌, if◌then◌else◌,
}
use morcus_net.Inflection.Types.{
  Enum, same, DataField, undefined, single, multiple, LatinDegree, degree_enum,
}

-- What a field holds, as `coerceToArray` (and the same test in other places) makes a list of it.
unfoldable pub coerce_to_array : {A : Type 0} → DataField A → List A
coerce_to_array undefined = []
coerce_to_array (single a) = a ∷ []
coerce_to_array (multiple as') = as'

-- `mergeCompatible` has three results: `null`, or a field.
pub data Merged (A : Type 0) : Type 0 where
  null : Merged A
  merged : DataField A → Merged A

module _ {A : Type 0} ⦃e : Enum A⦄ where
  -- `xs.includes(a)`.
  unfoldable pub includes : List A → A → Bool
  includes [] a = false
  includes (x ∷ xs) a = same x a || includes xs a

  -- `xs.filter((x) => ys.includes(x))`.
  unfoldable pub intersection : List A → List A → List A
  intersection [] ys = []
  intersection (x ∷ xs) ys = if includes ys x then x ∷ intersection xs ys else intersection xs ys

  -- The last two statements of `mergeCompatible`.
  abbrev pub of_intersection : List A → Merged A
  of_intersection [] = null
  of_intersection (x ∷ []) = merged (single x)
  of_intersection (x ∷ y ∷ zs) = merged (multiple (x ∷ y ∷ zs))

  -- `mergeCompatible`.
  unfoldable pub merge_compatible : DataField A → DataField A → Merged A
  unfolding intersection coerce_to_array
  merge_compatible undefined g = merged g
  merge_compatible f undefined = merged f
  merge_compatible f g = of_intersection (intersection (coerce_to_array f) (coerce_to_array g))

  -- `updateInflectionData`.
  unfoldable pub update_inflection_data : DataField A → A → DataField A
  update_inflection_data undefined a = single a
  update_inflection_data (multiple xs) a = multiple (xs ++ a ∷ [])
  update_inflection_data (single x) a = multiple (x ∷ a ∷ [])

  unfoldable pub subset_list : List A → List A → Bool
  subset_list [] ys = true
  subset_list (x ∷ xs) ys = includes ys x && subset_list xs ys

  -- `subsetOf`.
  unfoldable pub subset_of : DataField A → DataField A → Bool
  unfolding coerce_to_array subset_list
  subset_of f g = subset_list (coerce_to_array f) (coerce_to_array g)

-- `mergeCompatibleDegree`.
unfoldable pub merge_compatible_degree :
    DataField LatinDegree → DataField LatinDegree → DataField LatinDegree
merge_compatible_degree (multiple xs) g = undefined
merge_compatible_degree undefined (multiple ys) = undefined
merge_compatible_degree undefined g = g
merge_compatible_degree (single x) (multiple ys) = undefined
merge_compatible_degree (single x) undefined = single x
merge_compatible_degree (single x) (single y) = if same x y then single x else undefined

-- The result of a comparison that is not `undefined`: -1, 0 or 1.
pub data Comparison : Type 0 where
  less equal more : Comparison

-- `isSubset ? (isSuperset ? 0 : -1) : isSuperset ? 1 : undefined`.
abbrev pub by_inclusion : Bool → Bool → Option Comparison
by_inclusion true true = some equal
by_inclusion true false = some less
by_inclusion false true = some more
by_inclusion false false = none

-- `compareField`.
unfoldable pub compare_field :
    {A : Type 0} ⦃e : Enum A⦄ → DataField A → DataField A → Option Comparison
compare_field f g = by_inclusion (subset_of f g) (subset_of g f)
