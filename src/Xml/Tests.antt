-- ===== src/Xml/Tests.antt =====
-- Runs of the search and of the serialization on a small tree.
use morcus_net.Prelude.{◌≡◌, refl, arith, [], ◌∷◌, filter, Text, text_eq, codes, ok}
use morcus_net.Xml.Nodes.{XmlNode, node, end, text, element, name_of, find_descendants, deepcopy}
use morcus_net.Xml.Nodes.Search.{below, find_descendants-below}
use morcus_net.Xml.Serialization.{serialize, deserialize}
use morcus_net.Xml.Serialization.RoundTrip.{IsClean, deserialize-serialize}

-- `<p n="1">a&lt;<q>b</q></p>`, in which the first text holds a `<`.
abbrev inner : XmlNode
inner = node (codes "q") [] (text (codes "b") end)

abbrev tree : XmlNode
tree = node (codes "p") ((codes "n", codes "1") ∷ []) (text (codes "a<") (element inner end))

find_descendants-below_example :
    (find_descendants tree (codes "q") ≡ filter (λ d. text_eq (name_of d) (codes "q")) (below tree))
    × (deepcopy tree ≡ tree)
    × (find_descendants (deepcopy tree) (codes "q")
        ≡ filter (λ d. text_eq (name_of d) (codes "q")) (below tree))
find_descendants-below_example = find_descendants-below tree (codes "q")

tree-IsClean : IsClean tree
unfolding IsClean
tree-IsClean = (refl, ((refl, refl), tt), omega arith, ((refl, tt, omega arith, tt), tt))

deserialize-serialize_example : (s : Text) × (serialize tree ≡ ok s) × (deserialize s ≡ ok tree)
deserialize-serialize_example = deserialize-serialize tree tree-IsClean

-- A name with a `<` is read without what is behind it.
written : serialize (node (codes "a<b") [] end) ≡ ok (codes "0a<b")
unfolding serialize
written = refl

misread : deserialize (codes "0a<b") ≡ ok (node (codes "a") [] end)
unfolding deserialize
misread = refl
