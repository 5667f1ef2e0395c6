-- ===== src/Xml/Nodes.antt =====
-- `XmlNode` of src/common/xml/xml_node.ts.
pub mod Search
use morcus_net.Prelude.{
  ℕ, zero, suc, ◌+◌, ◌==◌, if◌then◌else◌, Bool, true, false, not, ◌&&◌, Option, none, some, List,
  [], ◌∷◌, ◌++◌, Text, codes, text_eq, Result, ok, err, assert, ◌>>=◌, ◌>>◌,
}

abbrev pub Attrs : Type 0
Attrs = List (Text × Text)

-- `XmlNode`, and the list of its `XmlChild`ren: texts and nodes.
mutual
  pub data XmlNode : Type 0 where
    node : Text → Attrs → Children → XmlNode

  pub data Children : Type 0 where
    end : Children
    text : Text → Children → Children
    element : XmlNode → Children → Children

abbrev pub name_of : XmlNode → Text
name_of (node name attrs children) = name

abbrev pub attrs_of : XmlNode → Attrs
attrs_of (node name attrs children) = attrs

abbrev pub children_of : XmlNode → Children
children_of (node name attrs children) = children

abbrev pub comment_node : Text
comment_node = codes "#comment"

abbrev indent_text : Text
indent_text = codes "-   "

-- `INDENT.repeat(level)`.
repeat : ℕ → Text
repeat zero = []
repeat (suc level) = indent_text ++ repeat level

format_attrs : Attrs → Text
format_attrs [] = []
format_attrs ((k, v) ∷ attrs) = b' ' ∷ (k ++ codes "=\"" ++ v ++ codes "\"" ++ format_attrs attrs)

abbrev has_no_children : Children → Bool
has_no_children end = true
has_no_children _ = false

abbrev joiner : Bool → Text
joiner indent = if indent then b'\n' ∷ [] else []

abbrev padding_of : Bool → ℕ → Text
padding_of indent level = if indent then repeat level else []

abbrev close_tag : Text → Text → Text
close_tag padding name =
    if text_eq name comment_node
    then padding ++ codes "-->"
    else padding ++ codes "</" ++ name ++ codes ">"

abbrev open_tag : Text → Text → Attrs → Text
open_tag padding name attrs =
    if text_eq name comment_node
    then padding ++ codes "<!--"
    else padding ++ codes "<" ++ name ++ format_attrs attrs ++ codes ">"

-- `formatAsString`; the lines are joined as they are made.
mutual
  unfolding repeat format_attrs

  pub format_as_string : XmlNode → Bool → ℕ → Text
  format_as_string (node name attrs children) indent level =
      if has_no_children children && text_eq name (codes "cb")
      then padding_of indent level ++ codes "<" ++ name ++ format_attrs attrs ++ codes "/>"
      else open_tag (padding_of indent level) name attrs
        ++ (format_children children indent level
            ++ (joiner indent ++ close_tag (padding_of indent level) name))

  format_children : Children → Bool → ℕ → Text
  format_children end indent level = []
  format_children (text t rest) indent level =
      joiner indent
      ++ padding_of indent level
      ++ (if indent then indent_text else [])
      ++ t
      ++ format_children rest indent level
  format_children (element n rest) indent level =
      joiner indent ++ format_as_string n indent (suc level) ++ format_children rest indent level

-- `toString`.
pub to_string : XmlNode → Text
unfolding format_as_string
to_string n = format_as_string n false 0

-- The loop of `findChildren`.
unfoldable pub find_among : Text → Children → List XmlNode
find_among name end = []
find_among name (text t rest) = find_among name rest
find_among name (element n rest) =
    let found = find_among name rest in if text_eq (name_of n) name then n ∷ found else found

-- `findChildren`.
unfoldable pub find_children : XmlNode → Text → List XmlNode
unfolding find_among
find_children n name = find_among name (children_of n)

-- `findDescendants`, and its loop.
unfoldable mutual
  pub find_descendants : XmlNode → Text → List XmlNode
  find_descendants (node n attrs children) name = descendants_among children name

  pub descendants_among : Children → Text → List XmlNode
  descendants_among end name = []
  descendants_among (text t rest) name = descendants_among rest name
  descendants_among (element n rest) name =
      (if text_eq (name_of n) name then n ∷ [] else [])
      ++ (find_descendants n name ++ descendants_among rest name)

-- `getAttr`.
unfoldable pub get_attr : Attrs → Text → Option Text
get_attr [] name = none
get_attr ((k, v) ∷ attrs) name = if text_eq name k then some v else get_attr attrs name

-- `deepcopy`, and its loop.
unfoldable mutual
  pub deepcopy : XmlNode → XmlNode
  deepcopy (node name attrs children) = node name attrs (deepcopy_children children)

  pub deepcopy_children : Children → Children
  deepcopy_children end = end
  deepcopy_children (text t rest) = text t (deepcopy_children rest)
  deepcopy_children (element n rest) = element (deepcopy n) (deepcopy_children rest)

pub data XmlError : Type 0 where
  not_one_child not_a_text not_a_node wrong_name too_many_attrs missing_attrs foreign_text
        out_of_fuel :
      XmlError

-- `XmlNode.getSoleText`, with `XmlNode.assertIsString`.
pub get_sole_text : XmlNode → Result XmlError Text
get_sole_text (node name attrs (text t end)) = ok t
get_sole_text (node name attrs (element n end)) = err not_a_text
get_sole_text (node name attrs _) = err not_one_child
