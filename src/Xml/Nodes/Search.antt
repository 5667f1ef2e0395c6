-- ===== src/Xml/Nodes/Search.antt =====
-- What the searches of a tree find.
use morcus_net.Prelude.{
  ◌≡◌, refl, ap, inl, inr, Bool-cases, List, [], ◌∷◌, ◌++◌, filter, filter-append, Text, text_eq,
}
use morcus_net.Xml.Nodes.{
  XmlNode, node, Children, end, text, element, name_of, find_descendants, descendants_among,
  deepcopy, deepcopy_children,
}

-- All nodes below a node: each in front of those below it.
mutual
  pub below : XmlNode → List XmlNode
  below (node name attrs children) = below_among children

  below_among : Children → List XmlNode
  below_among end = []
  below_among (text t rest) = below_among rest
  below_among (element n rest) = n ∷ (below n ++ below_among rest)

mutual
  unfolding find_descendants below

  find_descendants-filter :
      (n : XmlNode) (name : Text)
      → find_descendants n name ≡ filter (λ d. text_eq (name_of d) name) (below n)
  find_descendants-filter (node n attrs children) name = descendants_among-filter children name

  descendants_among-filter :
      (children : Children) (name : Text)
      → descendants_among children name
        ≡ filter (λ d. text_eq (name_of d) name) (below_among children)
  descendants_among-filter end name = refl
  descendants_among-filter (text t rest) name = descendants_among-filter rest name
  descendants_among-filter (element n rest) name =
      rw
        (
          find_descendants-filter n name,
          descendants_among-filter rest name,
          filter-append (λ d. text_eq (name_of d) name) (below n) (below_among rest),
        )
        (elim (Bool-cases (text_eq (name_of n) name)) [ inl e ↦ rw e | inr e ↦ rw e ])

mutual
  unfolding deepcopy

  deepcopy-same : (n : XmlNode) → deepcopy n ≡ n
  deepcopy-same (node name attrs children) =
      ap (λ c. node name attrs c) (deepcopy_children-same children)

  deepcopy_children-same : (children : Children) → deepcopy_children children ≡ children
  deepcopy_children-same end = refl
  deepcopy_children-same (text t rest) = ap (λ c. text t c) (deepcopy_children-same rest)
  deepcopy_children-same (element n rest) = rw (deepcopy-same n, deepcopy_children-same rest)

-- `findDescendants` gives the nodes of that name among all nodes below the root, in the order of the
-- document; so it does in a deep copy, which is equal to the tree.
pub find_descendants-below :
    (n : XmlNode) (name : Text)
    → (find_descendants n name ≡ filter (λ d. text_eq (name_of d) name) (below n))
      × (deepcopy n ≡ n)
      × (find_descendants (deepcopy n) name ≡ filter (λ d. text_eq (name_of d) name) (below n))
find_descendants-below n name = (
  find_descendants-filter n name,
  deepcopy-same n,
  rw (deepcopy-same n) (find_descendants-filter n name),
)
