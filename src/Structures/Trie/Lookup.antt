-- ===== src/Structures/Trie/Lookup.antt =====
-- What `find` gives behind an `add`.
use morcus_net.Prelude.{
  ℕ, ◌==◌, ==_iff, ◌≡◌, refl, sym, ap, ◌∙◌, inl, inr, if◌then◌else◌, Bool-cases, true, false, ◌&&◌,
  Option, none, some, List, [], ◌∷◌, ◌++◌, map, length, All, Text, text_eq, text_eq_sound,
  text_eq_self,
}
use morcus_net.Structures.Trie.{
  TrieNode, node, Entries, empty, entry, get_child, set_child, entries_of, or_new, or_none,
  add_along, add, find, char_texts, is_high,
}

-- The text has no character beyond the basic plane.
abbrev pub IsBasic : Text → Type 0
IsBasic key = All (λ c. is_high c ≡ false) key

abbrev singles : Text → List Text
singles key = map (λ c. c ∷ []) key

char_texts-singles : (key : Text) → IsBasic key → char_texts key ≡ singles key
unfolding char_texts
char_texts-singles [] h = refl
char_texts-singles (c ∷ []) h = refl
char_texts-singles (c ∷ d ∷ key) (hc, h) = rw (hc, char_texts-singles (d ∷ key) h)

module _ {T : Type 0} where
  get_child-set_child :
      (key key' : Text) (m : TrieNode T) (es : Entries T)
      → get_child key' (set_child key m es)
        ≡ (if text_eq key key' then some m else get_child key' es)
  unfolding get_child set_child
  get_child-set_child key key' m empty = refl
  get_child-set_child key key' m (entry k n es) = elim (Bool-cases (text_eq k key)) [
    | inl found ↦
        let k_is : k ≡ key = text_eq_sound k key found in
        rw found (rw k_is (elim (Bool-cases (text_eq key key')) [ inl e ↦ rw e | inr e ↦ rw e ]))
    | inr other ↦
        rw (other, get_child-set_child key key' m es)
          (elim (Bool-cases (text_eq k key')) [
            | inl here ↦
                let k_is : k ≡ key' = text_eq_sound k key' here in
                elim (Bool-cases (text_eq key key')) [
                  | inl e ↦
                      let same : k ≡ key = k_is ∙ sym (text_eq_sound key key' e) in
                      let impossible : true ≡ false = sym (text_eq_self key) ∙ (rw same at other) in
                      cc
                  | inr e ↦ rw (here, e)
                ]
            | inr there ↦ rw there
          ])
  ]

  -- What a missing or present child holds.
  abbrev found_in : Option (TrieNode T) → Text → ℕ → Option (List T)
  found_in o key end = elim o [ none ↦ none | some n ↦ find n key end ]

  find-or_new :
      (o : Option (TrieNode T)) (key : Text)
      → find (or_new o) key (length key) ≡ found_in o key (length key)
  unfolding find get_child
  find-or_new none [] = refl
  find-or_new none (c ∷ key) = refl
  find-or_new (some n) key = refl

  -- The child for `d`, where the one for `c` is `below`.
  found_in-set_child :
      (c d : ℕ) (es : Entries T) (below : TrieNode T) (key key' : Text) (values : List T)
      → (find below key' (length key') ≡ (
          if text_eq key key'
          then some (or_none (find (or_new (get_child (c ∷ []) es)) key (length key)) ++ values)
          else find (or_new (get_child (c ∷ []) es)) key' (length key')))
      → found_in (if c == d && true then some below else get_child (d ∷ []) es) key' (length key')
        ≡ (if c == d && text_eq key key'
            then some (or_none (found_in (get_child (c ∷ []) es) key (length key)) ++ values)
            else found_in (get_child (d ∷ []) es) key' (length key'))
  found_in-set_child c d es below key key' values ih = elim (Bool-cases (c == d)) [
    | inl same ↦
        let c_is : c ≡ d = (==_iff c d).0 same in
        let child = get_child (c ∷ []) es in
        let ih' = rw (find-or_new child key, find-or_new child key') at ih in
        rw same (rw (← c_is) ih')
    | inr other ↦ rw other
  ]

  find-add_along :
      (n : TrieNode T) (key key' : Text) (values : List T)
      → find (add_along n (singles key) values) key' (length key') ≡ (
          if text_eq key key'
          then some (or_none (find n key (length key)) ++ values)
          else find n key' (length key'))
  unfolding find add_along
  find-add_along (node ch vs) [] [] values = refl
  find-add_along (node ch vs) [] (d ∷ key') values = refl
  find-add_along (node ch vs) (c ∷ key) [] values = refl
  find-add_along (node ch vs) (c ∷ key) (d ∷ key') values =
      let child = get_child (c ∷ []) (entries_of ch) in
      let below = add_along (or_new child) (singles key) values in
      ap (λ o. found_in o key' (length key'))
        (get_child-set_child (c ∷ []) (d ∷ []) below (entries_of ch))
      ∙ found_in-set_child c d (entries_of ch) below key key' values
          (find-add_along (or_new child) key key' values)

  -- Behind an `add` of values for a key, `find` gives for that key what it gave before with the values
  -- behind it, and for any other key what it gave before. The keys have no character beyond the basic
  -- plane, and `find` is called with the length of its key.
  pub find-add :
      (root : TrieNode T) (key key' : Text) (values : List T)
      → IsBasic key
      → find (add root key values) key' (length key') ≡ (
          if text_eq key key'
          then some (or_none (find root key (length key)) ++ values)
          else find root key' (length key'))
  unfolding add
  find-add root key key' values basic =
      rw (char_texts-singles key basic) (find-add_along root key key' values)
