-- ===== src/Structures/ArrayMap.antt =====
-- `arrayMap`, `arrayMapBy` and `setMap` of src/common/data_structures/collect_map.ts. A `Map` is the list
-- of its entries in the order of their insertion.
pub mod Groups
use morcus_net.Prelude.{
  ◌≡◌, ◌↔◌, Option, none, some, List, [], ◌∷◌, ◌++◌, Bool, true, false, ◌||◌, if◌then◌else◌, Text,
  text_eq, text_eq_sound, text_eq_self, refl,
}

-- Keys that a `Map` or a `Set` tells apart.
pub record Keyed (K : Type 0) : Type 0 where
  pub same : K → K → Bool
  pub same_sound : (k l : K) → same k l ≡ true → k ≡ l
  pub same_self : (k : K) → same k k ≡ true

instance abbrev pub text_keyed : Keyed Text
text_keyed = record { same = text_eq; same_sound = text_eq_sound; same_self = text_eq_self }

-- `Collectable`.
pub record Collectable (V C : Type 0) : Type 0 where
  pub make : C
  pub add : C → V → C

module _ {K V C : Type 0} ⦃key : Keyed K⦄ (q : Collectable V C) where
  -- `add` of `collectMap`: a key that is missing is set first.
  unfoldable pub add_to : K → V → List (K × C) → List (K × C)
  add_to k v [] = (k, q.add q.make v) ∷ []
  add_to k v ((l, c) ∷ m) = if key.same l k then (l, q.add c v) ∷ m else (l, c) ∷ add_to k v m

  -- `add` for each value in turn.
  unfoldable pub add_all : (V → K) → List (K × C) → List V → List (K × C)
  unfolding add_to
  add_all sorter m [] = m
  add_all sorter m (v ∷ vs) = add_all sorter (add_to (sorter v) v m) vs

module _ {K C : Type 0} ⦃key : Keyed K⦄ where
  -- `get`.
  unfoldable pub get_collected : K → List (K × C) → Option C
  get_collected k [] = none
  get_collected k ((l, c) ∷ m) = if key.same l k then some c else get_collected k m

abbrev pub arrays : {V : Type 0} → Collectable V (List V)
arrays = record { make = []; add = λ c v. c ++ (v ∷ []) }

module _ {V : Type 0} ⦃key : Keyed V⦄ where
  abbrev has_item : List V → V → Bool
  has_item [] v = false
  has_item (w ∷ c) v = key.same w v || has_item c v

  -- The sets of `setMap`.
  abbrev pub sets : Collectable V (List V)
  sets = record { make = []; add = λ c v. if has_item c v then c else c ++ (v ∷ []) }

-- `arrayMapBy`.
unfoldable pub array_map_by : {K V : Type 0} ⦃key : Keyed K⦄ → List V → (V → K) → List (K × List V)
unfolding add_all
array_map_by list sorter = add_all arrays sorter [] list
