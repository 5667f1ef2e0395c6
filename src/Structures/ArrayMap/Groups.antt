-- ===== src/Structures/ArrayMap/Groups.antt =====
-- The groups of `arrayMapBy` are what a filter by the key gives.
use morcus_net.Prelude.{
  ◌≡◌, inl, inr, refl, sym, ap, ◌∙◌, subst, Option, none, some, List, [], ◌∷◌, ◌++◌, append_assoc,
  append-nil, filter, All, Bool, Bool-cases, true, false, if◌then◌else◌, Memᴰ,
}
use mathlib.Core.List.Memᴰ.{head, tail, cases_cons}
use morcus_net.Structures.ArrayMap.{Keyed, add_to, add_all, get_collected, arrays, array_map_by}

-- A list of which there is at least one element, as the value of a key.
abbrev pub group_of : {V : Type 0} → List V → Option (List V)
group_of [] = none
group_of (v ∷ vs) = some (v ∷ vs)

abbrev extended : {V : Type 0} → Option (List V) → List V → Option (List V)
extended none vs = group_of vs
extended (some c) vs = some (c ++ vs)

abbrev pushed : {V : Type 0} → Option (List V) → V → Option (List V)
pushed none v = some (v ∷ [])
pushed (some c) v = some (c ++ (v ∷ []))

extended-pushed :
    {V : Type 0} (o : Option (List V)) (v : V) (vs : List V)
    → extended (pushed o v) vs ≡ extended o (v ∷ vs)
extended-pushed none v vs = refl
extended-pushed (some c) v vs = ap some (append_assoc c (v ∷ []) vs)

extended_none : {V : Type 0} (o : Option (List V)) → extended o [] ≡ o
extended_none none = refl
extended_none (some c) = ap some (append-nil c)

module _ {K : Type 0} ⦃key : Keyed K⦄ where
  flipped : (j k : K) → key.same j k ≡ false → key.same k j ≡ false
  flipped j k e = elim (Bool-cases (key.same k j)) [
    | inl same ↦
        let k_is : k ≡ j = key.same_sound k j same in
        let clash : true ≡ false = sym (key.same_self j) ∙ (rw k_is at e) in cc
    | inr other ↦ other
  ]

module _ {K V : Type 0} ⦃key : Keyed K⦄ where
  get_collected-add_to :
      (k l : K) (v : V) (m : List (K × List V))
      → get_collected k (add_to arrays l v m)
        ≡ (if key.same l k then pushed (get_collected k m) v else get_collected k m)
  unfolding get_collected add_to
  get_collected-add_to k l v [] = refl
  get_collected-add_to k l v ((j, c) ∷ m) = elim (Bool-cases (key.same j l)) [
    | inl here ↦
        let j_is : j ≡ l = key.same_sound j l here in
        rw here
          (rw j_is (elim (Bool-cases (key.same l k)) [ inl e ↦ rw e refl | inr e ↦ rw e refl ]))
    | inr other ↦ rw other (elim (Bool-cases (key.same j k)) [
      | inr there ↦ rw there (get_collected-add_to k l v m)
      | inl there ↦ elim (Bool-cases (key.same l k)) [
        | inr e ↦ rw (there, e) refl
        | inl e ↦
            let j_is : j ≡ l = key.same_sound j k there ∙ sym (key.same_sound l k e) in
            let clash : true ≡ false = sym (key.same_self l) ∙ (rw j_is at other) in cc
      ]
    ])
  ]

  get_collected-add_all :
      (sorter : V → K) (k : K) (m : List (K × List V)) (vs : List V)
      → get_collected k (add_all arrays sorter m vs)
        ≡ extended (get_collected k m) (filter (λ v. key.same (sorter v) k) vs)
  unfolding add_all
  get_collected-add_all sorter k m [] = sym (extended_none (get_collected k m))
  get_collected-add_all sorter k m (v ∷ vs) =
      get_collected-add_all sorter k (add_to arrays (sorter v) v m) vs
      ∙ ap (λ o. extended o (filter (λ v. key.same (sorter v) k) vs))
          (get_collected-add_to k (sorter v) v m)
      ∙ elim (Bool-cases (key.same (sorter v) k)) [
        | inl same ↦ rw same (extended-pushed (get_collected k m) v _)
        | inr other ↦ rw other refl
      ]

  -- No two entries have the same key.
  abbrev pub AreDistinct : List (K × List V) → Type 0
  AreDistinct [] = Unit
  AreDistinct ((k, c) ∷ m) = All (λ e. key.same e.0 k ≡ false) m × AreDistinct m

  add_to-All :
      (j k : K) (v : V) (m : List (K × List V))
      → key.same k j ≡ false
      → All (λ e. key.same e.0 j ≡ false) m
      → All (λ e. key.same e.0 j ≡ false) (add_to arrays k v m)
  unfolding add_to
  add_to-All j k v [] other h = (other, tt)
  add_to-All j k v ((l, c) ∷ m) other (here, below) = elim (Bool-cases (key.same l k)) [
    | inl e ↦ rw e (here, below)
    | inr e ↦ rw e (here, add_to-All j k v m other below)
  ]

  add_to-AreDistinct :
      (k : K) (v : V) (m : List (K × List V)) → AreDistinct m → AreDistinct (add_to arrays k v m)
  unfolding add_to
  add_to-AreDistinct k v [] h = (tt, tt)
  add_to-AreDistinct k v ((l, c) ∷ m) (here, below) = elim (Bool-cases (key.same l k)) [
    | inl e ↦ rw e (here, below)
    | inr e ↦ rw e (add_to-All l k v m (flipped l k e) here, add_to-AreDistinct k v m below)
  ]

  add_all-AreDistinct :
      (sorter : V → K) (m : List (K × List V)) (vs : List V)
      → AreDistinct m
      → AreDistinct (add_all arrays sorter m vs)
  unfolding add_all
  add_all-AreDistinct sorter m [] h = h
  add_all-AreDistinct sorter m (v ∷ vs) h =
      add_all-AreDistinct sorter (add_to arrays (sorter v) v m) vs
        (add_to-AreDistinct (sorter v) v m h)

  -- The map has each key once, and its value for a key is the list of the values with that key, in
  -- their order; a key that no value has is missing.
  pub array_map_by-group_of :
      (list : List V) (sorter : V → K)
      → AreDistinct (array_map_by list sorter)
        × ((k : K)
            → get_collected k (array_map_by list sorter)
              ≡ group_of (filter (λ v. key.same (sorter v) k) list))
  unfolding array_map_by get_collected
  array_map_by-group_of list sorter =
      (add_all-AreDistinct sorter [] list tt, λ k. get_collected-add_all sorter k [] list)

  get_collected-mem :
      (k : K) (m : List (K × List V)) {vs : List V}
      → get_collected k m ≡ some vs
      → (j : K) × Memᴰ (j, vs) m × (j ≡ k)
  unfolding get_collected
  get_collected-mem k [] e = cc
  get_collected-mem k ((l, c) ∷ m) {vs} e = elim (Bool-cases (key.same l k)) [
    | inl here ↦
        let c_is : vs ≡ c = sym (ap (λ o. elim o [ none ↦ vs | some d ↦ d ]) (rw here at e)) in
        (l, head (ap (λ d. (l, d)) c_is), key.same_sound l k here)
    | inr other ↦ let (j, mj, same) = get_collected-mem k m (rw other at e) in (j, tail mj, same)
  ]

mem-filter :
    {V : Type 0} (p : V → Bool) (v : V) (vs : List V)
    → Memᴰ v vs
    → p v ≡ true
    → Memᴰ v (filter p vs)
mem-filter p v [] m h = elim m [ ]
mem-filter p v (w ∷ vs) (head e) h = let kept : p w ≡ true = sym (ap p e) ∙ h in rw kept (head e)
mem-filter p v (w ∷ vs) (tail m) h = elim (Bool-cases (p w)) [
  | inl kept ↦ rw kept (tail (mem-filter p v vs m h))
  | inr dropped ↦ rw dropped (mem-filter p v vs m h)
]

group_of-mem : {V : Type 0} (v : V) (vs : List V) → Memᴰ v vs → group_of vs ≡ some vs
group_of-mem v [] m = elim m [ ]
group_of-mem v (w ∷ vs) m = refl

filter-mem :
    {V : Type 0} (p : V → Bool) (v : V) (vs : List V)
    → Memᴰ v (filter p vs)
    → Memᴰ v vs × (p v ≡ true)
filter-mem p v [] m = elim m [ ]
filter-mem p v (w ∷ vs) m = elim (Bool-cases (p w)) [
  | inl kept ↦ elim (cases_cons (rw kept at m)) [
    | inl e ↦ (head e, ap p e ∙ kept)
    | inr m' ↦ let (mv, pv) = filter-mem p v vs m' in (tail mv, pv)
  ]
  | inr dropped ↦ let (mv, pv) = filter-mem p v vs (rw dropped at m) in (tail mv, pv)
]

-- Each value is in the group of its key, whose values are those of the list with this key.
pub array_map_by-mem :
    {K V : Type 0} ⦃key : Keyed K⦄ (list : List V) (sorter : V → K) (v : V)
    → Memᴰ v list
    → (vs : List V) × Memᴰ (sorter v, vs) (array_map_by list sorter)
      × Memᴰ v vs
      × ((w : V) → Memᴰ w vs → Memᴰ w list × (sorter w ≡ sorter v))
array_map_by-mem {V = V} ⦃key⦄ list sorter v m =
    let same_key : V → Bool = λ w. key.same (sorter w) (sorter v) in
    let vs = filter same_key list in
    let in_vs : Memᴰ v vs = mem-filter same_key v list m (key.same_self (sorter v)) in
    let found = (array_map_by-group_of list sorter).1 (sorter v) ∙ group_of-mem v vs in_vs in
    let (j, mj, same) = get_collected-mem (sorter v) (array_map_by list sorter) found in
    (
      vs,
      subst (λ k. Memᴰ (k, vs) (array_map_by list sorter)) same mj,
      in_vs,
      λ w mw.
          let (in_list, equal_keys) = filter-mem same_key w list mw in
          (in_list, key.same_sound (sorter w) (sorter v) equal_keys),
    )
