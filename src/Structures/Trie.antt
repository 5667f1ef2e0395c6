-- ===== src/Structures/Trie.antt =====
-- The trie of src/common/data_structures/trie.ts. A key is what `for (const char of key)` and `key[i]`
-- give: characters (`char_texts`) for `add`, code units (`units`) for `find`.
pub mod Lookup
use morcus_net.Prelude.{
  ℕ, zero, suc, ◌+◌, leb, ltb, ◌&&◌, if◌then◌else◌, Bool, true, false, Option, none, some, List, [],
  ◌∷◌, ◌++◌, Text, text_eq,
}

-- `TrieNode`: `children` is absent or a `Map`, whose entries stand in the order of their insertion.
mutual
  pub data TrieNode (T : Type 0) : Type 0 where
    node : Children T → Option (List T) → TrieNode T

  pub data Children (T : Type 0) : Type 0 where
    absent : Children T
    present : Entries T → Children T

  pub data Entries (T : Type 0) : Type 0 where
    empty : Entries T
    entry : Text → TrieNode T → Entries T → Entries T

-- The two code units of a character beyond the basic plane.
abbrev is_high : ℕ → Bool
is_high c = leb 0xd800 c && leb c 0xdbff

abbrev is_low : ℕ → Bool
is_low c = leb 0xdc00 c && leb c 0xdfff

-- The characters of a text.
pub char_texts : Text → List Text
char_texts [] = []
char_texts (c ∷ []) = (c ∷ []) ∷ []
char_texts (c ∷ d ∷ s) =
    let one = (c ∷ []) ∷ char_texts (d ∷ s) in
    let two = (c ∷ d ∷ []) ∷ char_texts s in if is_high c && is_low d then two else one

module _ {T : Type 0} where
  -- `new Map()` where there is none.
  abbrev pub entries_of : Children T → Entries T
  entries_of absent = empty
  entries_of (present es) = es

  -- `children.get(key)`.
  unfoldable pub get_child : Text → Entries T → Option (TrieNode T)
  get_child key empty = none
  get_child key (entry k n es) = if text_eq k key then some n else get_child key es

  -- The child for `key` is changed in place, or stands behind the others.
  unfoldable pub set_child : Text → TrieNode T → Entries T → Entries T
  set_child key m empty = entry key m empty
  set_child key m (entry k n es) =
      if text_eq k key then entry k m es else entry k n (set_child key m es)

  abbrev pub new_node : TrieNode T
  new_node = node absent none

  -- The child for `key`, which is made where it is missing.
  abbrev pub or_new : Option (TrieNode T) → TrieNode T
  or_new none = new_node
  or_new (some n) = n

  abbrev pub or_none : Option (List T) → List T
  or_none none = []
  or_none (some vs) = vs

  -- The walk of `add` along the characters of the key.
  unfoldable pub add_along : TrieNode T → List Text → List T → TrieNode T
  unfolding get_child set_child
  add_along (node ch vs) [] values = node ch (some (or_none vs ++ values))
  add_along (node ch vs) (c ∷ cs) values =
      node
        (present (
          set_child c (add_along (or_new (get_child c (entries_of ch))) cs values) (entries_of ch)))
        vs

  -- `add`.
  unfoldable pub add : TrieNode T → Text → List T → TrieNode T
  unfolding add_along char_texts
  add root key values = add_along root (char_texts key) values

  -- `fromMap`, on the entries of the map.
  unfoldable pub from_map : TrieNode T → List (Text × List T) → TrieNode T
  unfolding add
  from_map root [] = root
  from_map root ((key, values) ∷ es) = from_map (add root key values) es

  -- `find`, over `end` places; a place behind the end of the key has no child.
  unfoldable pub find : TrieNode T → Text → ℕ → Option (List T)
  unfolding get_child
  find (node ch vs) key zero = vs
  find (node ch vs) [] (suc end) = none
  find (node ch vs) (c ∷ key) (suc end) = elim (get_child (c ∷ []) (entries_of ch)) [
    | none ↦ none
    | some n ↦ find n key end
  ]
