-- ===== src/Xml/Serialization.antt =====
-- `serialize` and `deserialize` of src/common/xml/xml_node_serialization.ts.
pub mod RoundTrip
use morcus_net.Prelude.{
  ℕ, zero, suc, ◌+◌, ◌-◌, ltb, ◌==◌, if◌then◌else◌, Bool, true, false, not, ◌&&◌, Option, none,
  some, List, [], ◌∷◌, ◌++◌, length, take, drop, Text, is_digit, to_decimal, from_decimal, Result,
  ok, err, assert, ◌>>=◌, ◌>>◌,
}
use morcus_net.Xml.Nodes.{
  Attrs, XmlNode, node, Children, end, text, element, XmlError, too_many_attrs, missing_attrs,
  foreign_text, out_of_fuel,
}

-- `<key<value` for each attribute.
unfoldable pub attrs_text : Attrs → Text
attrs_text [] = []
attrs_text ((k, v) ∷ attrs) = b'<' ∷ (k ++ (b'<' ∷ (v ++ attrs_text attrs)))

abbrev pub header_text : Text → Attrs → Text
header_text name attrs = (length attrs + b'0') ∷ (name ++ attrs_text attrs)

-- A child behind its length, a text with a 0 in front of that.
abbrev pub text_child : Text → Text
text_child t = b'0' ∷ (to_decimal (length t) ++ (b'<' ∷ t))

abbrev pub node_child : Text → Text
node_child s = to_decimal (length s) ++ (b'<' ∷ s)

abbrev pub with_children : Text → Children → Text → Text
with_children header end children_text = header
with_children header _ children_text = header ++ (b'<' ∷ children_text)

-- `serialize`, and the text of the children.
unfoldable mutual
  unfolding attrs_text

  pub serialize : XmlNode → Result XmlError Text
  serialize (node name attrs children) = do
    assert (ltb (length attrs) 10) too_many_attrs
    s ← serialize_children children
    ok (with_children (header_text name attrs) children s)

  pub serialize_children : Children → Result XmlError Text
  serialize_children end = ok []
  serialize_children (text t rest) = do s ← serialize_children rest; ok (text_child t ++ s)
  serialize_children (element n rest) = do
    raw ← serialize n
    s ← serialize_children rest
    ok (node_child raw ++ s)

-- The text in front of the first `<`, and what is behind it, if there is one.
unfoldable pub break_at : Text → Text × Option Text
break_at [] = ([], none)
break_at (c ∷ s) =
    let (before, behind) = break_at s in if c == b'<' then ([], some s) else (c ∷ before, behind)

abbrev pub cons_attr : Text → Text → Attrs × Option Text → Attrs × Option Text
cons_attr key value (attrs, rest) = ((key, value) ∷ attrs, rest)

-- The loop over the attributes, of which `k` are to come; there is no text behind them if the data
-- ends with the last.
unfoldable pub read_attrs : ℕ → Text → Result XmlError (Attrs × Option Text)
unfolding break_at
read_attrs zero data_left = ok ([], some data_left)
read_attrs (suc k) data_left = elim (break_at data_left).1 [
  | none ↦ err foreign_text
  | some behind ↦ elim (break_at behind).1 [
    | none ↦ if k == 0 then ok (((break_at data_left).0, behind) ∷ [], none) else err missing_attrs
    | some next ↦
        read_attrs k next >>= λ r. ok (cons_attr (break_at data_left).0 (break_at behind).0 r)
  ]
]

abbrev pub starts_with_zero : Text → Bool
starts_with_zero [] = false
starts_with_zero (c ∷ s) = c == b'0'

-- `deserialize`, and the loop over the children. `foreign_text` stands for data that `serialize` does
-- not write: where it has other numerals than digits, or ends within a name.
unfoldable mutual
  unfolding read_attrs

  pub deserialize_from : ℕ → Text → Result XmlError XmlNode
  deserialize_from zero s = err out_of_fuel
  deserialize_from (suc fuel) [] = err foreign_text
  deserialize_from (suc fuel) (c ∷ s) =
      if not (is_digit c) then err foreign_text else elim (break_at s).1 [
        | none ↦ if c == b'0' then ok (node s [] end) else err foreign_text
        | some behind ↦ read_attrs (c - b'0') behind >>= λ r. elim r.1 [
          | none ↦ ok (node (break_at s).0 r.0 end)
          | some next ↦
              deserialize_children fuel next >>= λ children. ok (node (break_at s).0 r.0 children)
        ]
      ]

  pub deserialize_children : ℕ → Text → Result XmlError Children
  deserialize_children zero s = err out_of_fuel
  deserialize_children (suc fuel) s = elim (break_at s).1 [
    | none ↦ ok end
    | some behind ↦ elim (from_decimal (break_at s).0) [
      | none ↦ err foreign_text
      | some n ↦
          if starts_with_zero s
          then (deserialize_children fuel (drop n behind) >>= λ rest.
              ok (text (take n behind) rest))
          else (deserialize_from fuel (take n behind) >>= λ child.
              deserialize_children fuel (drop n behind) >>= λ rest. ok (element child rest))
    ]
  ]

-- `deserialize`. Each call is for a text that is shorter than its caller's.
unfoldable pub deserialize : Text → Result XmlError XmlNode
unfolding deserialize_from
deserialize s = deserialize_from (suc (length s)) s
