-- ===== src/Xml/Serialization/RoundTrip.antt =====
-- What is serialized is read back.
use morcus_net.Prelude.{
  ℕ, zero, suc, ◌+◌, ◌-◌, ◌<◌, lt→ltb, ◌==◌, ◌≡◌, refl, ap, ◌∙◌, arith, if◌then◌else◌, true, false,
  Option, none, some, [], ◌∷◌, ◌++◌, append_assoc, append-nil, length, length-append, take, drop,
  take_at, drop_at, All, Text, has_char, is_digit, to_decimal, from_decimal, all-to_decimal,
  to_decimal-LeadsWithDigit, LeadsWithDigit, from_decimal-to_decimal, from_decimal-zero_first,
  has_char-digits, Result, ok, err, ◌>>=◌,
}
use morcus_net.Xml.Nodes.{
  Attrs, XmlNode, node, Children, end, text, element, XmlError, foreign_text,
}
use morcus_net.Xml.Serialization.{
  attrs_text, header_text, text_child, node_child, with_children, serialize, serialize_children,
  break_at, cons_attr, read_attrs, starts_with_zero, deserialize_from, deserialize_children,
  deserialize,
}

abbrev pub NoBracket : Text → Type 0
NoBracket t = has_char b'<' t ≡ false

abbrev pub AreClean : Attrs → Type 0
AreClean attrs = All (λ a. NoBracket a.0 × NoBracket a.1) attrs

-- Names and attributes hold no `<`, and each node has fewer than ten attributes.
unfoldable mutual
  pub IsClean : XmlNode → Type 0
  IsClean (node name attrs children) =
      NoBracket name × AreClean attrs × (length attrs < 10) × HasClean children

  pub HasClean : Children → Type 0
  HasClean end = Unit
  HasClean (text t rest) = HasClean rest
  HasClean (element n rest) = IsClean n × HasClean rest

break_at-behind : (t s : Text) → NoBracket t → break_at (t ++ (b'<' ∷ s)) ≡ (t, some s)
unfolding break_at
break_at-behind [] s h = refl
break_at-behind (c ∷ t) s h =
    let other : (c == b'<') ≡ false = ground arith in rw (other, break_at-behind t s (ground arith))

break_at-last : (t : Text) → NoBracket t → break_at t ≡ (t, none)
unfolding break_at
break_at-last [] h = refl
break_at-last (c ∷ t) h =
    let other : (c == b'<') ≡ false = ground arith in rw (other, break_at-last t (ground arith))

-- What can stand behind the attributes: nothing, or `<` and the children.
abbrev tail_text : Option Text → Text
tail_text none = []
tail_text (some s) = b'<' ∷ s

read_attrs-last :
    (s key value : Text)
    → break_at s ≡ (key, some value)
    → break_at value ≡ (value, none)
    → read_attrs 1 s ≡ ok ((key, value) ∷ [], none)
unfolding read_attrs
read_attrs-last s key value first last = rw (read_attrs, first, last) (rw first)

read_attrs-next :
    (k : ℕ) (s key behind value next : Text)
    → break_at s ≡ (key, some behind)
    → break_at behind ≡ (value, some next)
    → read_attrs (suc k) s ≡ (read_attrs k next >>= λ r. ok (cons_attr key value r))
unfolding read_attrs
read_attrs-next k s key behind value next first second =
    rw (read_attrs, first, second) (rw (first, second))

read_attrs-text :
    (key value : Text) (attrs : Attrs) (tail : Option Text)
    → NoBracket key
    → NoBracket value
    → AreClean attrs
    → read_attrs
        (suc (length attrs))
        (key ++ (b'<' ∷ (value ++ (attrs_text attrs ++ tail_text tail))))
      ≡ ok ((key, value) ∷ attrs, tail)
unfolding read_attrs attrs_text
read_attrs-text key value [] none hk hv h =
    let bare : value ++ ([] ++ []) ≡ value = append-nil value in
    rw bare (
      read_attrs-last (key ++ (b'<' ∷ value)) key value (break_at-behind key value hk)
        (break_at-last value hv))
read_attrs-text key value [] (some s) hk hv h =
    let here =
      read_attrs-next 0 (key ++ (b'<' ∷ (value ++ (b'<' ∷ s)))) key (value ++ (b'<' ∷ s)) value s
        (break_at-behind key _ hk) (break_at-behind value s hv) in
    here ∙ (unfold read_attrs in refl)
read_attrs-text key value ((k, v) ∷ attrs) tail hk hv (h, hs) =
    let more = (k ++ (b'<' ∷ (v ++ attrs_text attrs))) ++ tail_text tail in
    let apart : more ≡ k ++ (b'<' ∷ (v ++ (attrs_text attrs ++ tail_text tail))) =
      append_assoc k (b'<' ∷ (v ++ attrs_text attrs)) (tail_text tail)
      ∙ ap (λ r. k ++ (b'<' ∷ r)) (append_assoc v (attrs_text attrs) (tail_text tail)) in
    read_attrs-next (suc (length attrs)) (key ++ (b'<' ∷ (value ++ (b'<' ∷ more)))) key
      (value ++ (b'<' ∷ more)) value more (break_at-behind key _ hk) (break_at-behind value more hv)
    ∙ rw (apart, read_attrs-text k v attrs tail h.0 h.1 hs)

-- The head of a node is read, whatever the children are.
abbrev read_rest : ℕ → Text → Attrs → Option Text → Result XmlError XmlNode
read_rest fuel name attrs none = ok (node name attrs end)
read_rest fuel name attrs (some s) =
    deserialize_children fuel s >>= λ children. ok (node name attrs children)

count_digit : (n : ℕ) → n < 10 → (is_digit (n + b'0') ≡ true) × (n + b'0' - b'0' ≡ n)
count_digit n h = (ground arith, omega arith)

-- The steps of `deserialize_from` behind its search for the end of the name.
abbrev read_attrs_of : ℕ → Text → Result XmlError (Attrs × Option Text) → Result XmlError XmlNode
read_attrs_of fuel name r = r >>= λ a. read_rest fuel name a.0 a.1

abbrev read_head : ℕ → ℕ → Text → Text × Option Text → Result XmlError XmlNode
read_head fuel c s p = elim p.1 [
  | none ↦ if c == b'0' then ok (node s [] end) else err foreign_text
  | some behind ↦ read_attrs_of fuel p.0 (read_attrs (c - b'0') behind)
]

deserialize_from-head :
    (fuel c : ℕ) (s : Text)
    → is_digit c ≡ true
    → deserialize_from (suc fuel) (c ∷ s) ≡ read_head fuel c s (break_at s)
unfolding deserialize_from
deserialize_from-head fuel c s digit = rw digit

-- The head is read where the search for the end of the name has found it.
read_head-header :
    (fuel : ℕ) (name : Text) (attrs : Attrs) (tail : Option Text)
    → NoBracket name
    → AreClean attrs
    → length attrs + b'0' - b'0' ≡ length attrs
    → read_head fuel
        (length attrs + b'0')
        (name ++ (attrs_text attrs ++ tail_text tail))
        (break_at (name ++ (attrs_text attrs ++ tail_text tail)))
      ≡ read_rest fuel name attrs tail
unfolding attrs_text
read_head-header fuel name [] none hn h count = rw append-nil (rw (break_at-last name hn))
read_head-header fuel name [] (some s) hn h count =
    rw (break_at-behind name s hn) (unfold read_attrs in refl)
read_head-header fuel name ((k, v) ∷ attrs) tail hn (h, hs) count =
    let more = (k ++ (b'<' ∷ (v ++ attrs_text attrs))) ++ tail_text tail in
    let apart : more ≡ k ++ (b'<' ∷ (v ++ (attrs_text attrs ++ tail_text tail))) =
      append_assoc k (b'<' ∷ (v ++ attrs_text attrs)) (tail_text tail)
      ∙ ap (λ r. k ++ (b'<' ∷ r)) (append_assoc v (attrs_text attrs) (tail_text tail)) in
    rw (break_at-behind name more hn)
      (rw (count, apart) (rw (read_attrs-text k v attrs tail h.0 h.1 hs)))

deserialize_from-header :
    (fuel : ℕ) (name : Text) (attrs : Attrs) (tail : Option Text)
    → NoBracket name
    → AreClean attrs
    → length attrs < 10
    → deserialize_from (suc fuel) (header_text name attrs ++ tail_text tail)
      ≡ read_rest fuel name attrs tail
deserialize_from-header fuel name attrs tail hn h few =
    let (digit, count) = count_digit (length attrs) few in
    let apart = append_assoc name (attrs_text attrs) (tail_text tail) in
    deserialize_from-head fuel _ _ digit
    ∙ rw apart (read_head-header fuel name attrs tail hn h count)

-- A round of the loop over the children, with the length that it has read.
abbrev read_child : ℕ → Text → Text → Option ℕ → Result XmlError Children
read_child fuel s behind none = err foreign_text
read_child fuel s behind (some n) =
    if starts_with_zero s
    then (deserialize_children fuel (drop n behind) >>= λ rest. ok (text (take n behind) rest))
    else (deserialize_from fuel (take n behind) >>= λ child.
        deserialize_children fuel (drop n behind) >>= λ rest. ok (element child rest))

abbrev read_children : ℕ → Text → Text × Option Text → Result XmlError Children
read_children fuel s p = elim p.1 [
  | none ↦ ok end
  | some behind ↦ read_child fuel s behind (from_decimal p.0)
]

deserialize_children-read :
    (fuel : ℕ) (s : Text) → deserialize_children (suc fuel) s ≡ read_children fuel s (break_at s)
unfolding deserialize_from
deserialize_children-read fuel s = refl

deserialize_children-step :
    (fuel : ℕ) (s digits behind : Text) (n : ℕ)
    → break_at s ≡ (digits, some behind)
    → from_decimal digits ≡ some n
    → deserialize_children (suc fuel) s ≡ read_child fuel s behind (some n)
deserialize_children-step fuel s digits behind n broken number =
    deserialize_children-read fuel s
    ∙ ap (read_children fuel s) broken
    ∙ ap (read_child fuel s behind) number

NoBracket-digits : (n : ℕ) → NoBracket (to_decimal n)
NoBracket-digits n = has_char-digits b'<' (to_decimal n) refl (all-to_decimal n)

starts_with_zero-digits :
    (n : ℕ) (s t : Text) → 0 < n → LeadsWithDigit n s → starts_with_zero (s ++ t) ≡ false
starts_with_zero-digits n [] t pos h = elim h [ ]
starts_with_zero-digits n (c ∷ s) t pos h = h.1 pos

text_child-read :
    (fuel : ℕ) (t s : Text) (rest : Children)
    → deserialize_children fuel s ≡ ok rest
    → deserialize_children (suc fuel) (text_child t ++ s) ≡ ok (text t rest)
text_child-read fuel t s rest read =
    let apart : text_child t ++ s ≡ (b'0' ∷ to_decimal (length t)) ++ (b'<' ∷ (t ++ s)) =
      ap (λ r. b'0' ∷ r) (append_assoc (to_decimal (length t)) (b'<' ∷ t) s) in
    let broken =
      break_at-behind (b'0' ∷ to_decimal (length t)) (t ++ s) (NoBracket-digits (length t)) in
    rw apart (
      deserialize_children-step fuel _ (b'0' ∷ to_decimal (length t)) (t ++ s) (length t) broken
        (from_decimal-zero_first (length t))
      ∙ rw (drop_at t s, take_at t s, read))

node_child-read :
    (fuel : ℕ) (raw s : Text) (child : XmlNode) (rest : Children)
    → 0 < length raw
    → deserialize_from fuel raw ≡ ok child
    → deserialize_children fuel s ≡ ok rest
    → deserialize_children (suc fuel) (node_child raw ++ s) ≡ ok (element child rest)
node_child-read fuel raw s child rest pos read_child read =
    let digits = to_decimal (length raw) in
    let apart : node_child raw ++ s ≡ digits ++ (b'<' ∷ (raw ++ s)) =
      append_assoc digits (b'<' ∷ raw) s in
    let broken = break_at-behind digits (raw ++ s) (NoBracket-digits (length raw)) in
    let is_node =
      starts_with_zero-digits (length raw) digits (b'<' ∷ (raw ++ s)) pos
        (to_decimal-LeadsWithDigit (length raw)) in
    rw apart (
      deserialize_children-step fuel _ digits (raw ++ s) (length raw) broken
        (from_decimal-to_decimal (length raw))
      ∙ rw is_node (rw (take_at raw s, read_child) (rw (drop_at raw s, read))))

with_room :
    (name : Text) (attrs : Attrs) (s : Text) (fuel : ℕ)
    → length (header_text name attrs ++ (b'<' ∷ s)) < suc fuel
    → length s < fuel
with_room name attrs s fuel enough =
    omega (arith, length-append (name ++ attrs_text attrs) (b'<' ∷ s))

with_children-pos :
    (name : Text) (attrs : Attrs) (children : Children) (s : Text)
    → 0 < length (with_children (header_text name attrs) children s)
with_children-pos name attrs end s = omega arith
with_children-pos name attrs (text t rest) s = omega arith
with_children-pos name attrs (element n rest) s = omega arith

end-read : (fuel : ℕ) → 0 < fuel → deserialize_children fuel [] ≡ ok end
end-read zero h = absurd (omega arith)
end-read (suc fuel) h = deserialize_children-read fuel [] ∙ (unfold break_at in refl)

text-read :
    (t s : Text) (rest : Children)
    → ((fuel : ℕ) → length s < fuel → deserialize_children fuel s ≡ ok rest)
    → (fuel : ℕ) → length (text_child t ++ s) < fuel
    → deserialize_children fuel (text_child t ++ s) ≡ ok (text t rest)
text-read t s rest read zero enough = absurd (omega arith)
text-read t s rest read (suc fuel) enough =
    text_child-read fuel t s rest
      (read fuel (omega (arith, length-append (to_decimal (length t) ++ (b'<' ∷ t)) s)))

element-read :
    (raw s : Text) (child : XmlNode) (rest : Children)
    → 0 < length raw
    → ((fuel : ℕ) → length raw < fuel → deserialize_from fuel raw ≡ ok child)
    → ((fuel : ℕ) → length s < fuel → deserialize_children fuel s ≡ ok rest)
    → (fuel : ℕ) → length (node_child raw ++ s) < fuel
    → deserialize_children fuel (node_child raw ++ s) ≡ ok (element child rest)
element-read raw s child rest pos read_node read zero enough = absurd (omega arith)
element-read raw s child rest pos read_node read (suc fuel) enough =
    let whole = length-append (node_child raw) s in
    let part = length-append (to_decimal (length raw)) (b'<' ∷ raw) in
    node_child-read fuel raw s child rest pos (read_node fuel (omega (arith, whole, part)))
      (read fuel (omega (arith, whole, part)))

-- A node is read where its children are.
node-read :
    (name : Text) (attrs : Attrs) (children : Children) (s : Text)
    → NoBracket name
    → AreClean attrs
    → length attrs < 10
    → ((fuel : ℕ) → length s < fuel → deserialize_children fuel s ≡ ok children)
    → (fuel : ℕ) → length (with_children (header_text name attrs) children s) < fuel
    → deserialize_from fuel (with_children (header_text name attrs) children s)
      ≡ ok (node name attrs children)
node-read name attrs children s hn h few read zero enough = absurd (omega arith)
node-read name attrs end s hn h few read (suc fuel) enough =
    rw append-nil at (deserialize_from-header fuel name attrs none hn h few)
node-read name attrs (text t rest) s hn h few read (suc fuel) enough =
    deserialize_from-header fuel name attrs (some s) hn h few
    ∙ rw (read fuel (with_room name attrs s fuel enough))
node-read name attrs (element n rest) s hn h few read (suc fuel) enough =
    deserialize_from-header fuel name attrs (some s) hn h few
    ∙ rw (read fuel (with_room name attrs s fuel enough))

mutual
  unfolding serialize IsClean

  node-serialize :
      (n : XmlNode)
      → IsClean n
      → (s : Text) × (serialize n ≡ ok s)
        × (0 < length s)
        × ((fuel : ℕ) → length s < fuel → deserialize_from fuel s ≡ ok n)
  node-serialize (node name attrs children) (hn, ha, few, hc) =
      let (s, written, read) = children-serialize children hc in
      (
        with_children (header_text name attrs) children s,
        rw (lt→ltb _ _ few, written),
        with_children-pos name attrs children s,
        node-read name attrs children s hn ha few read,
      )

  children-serialize :
      (children : Children)
      → HasClean children
      → (s : Text) × (serialize_children children ≡ ok s)
        × ((fuel : ℕ) → length s < fuel → deserialize_children fuel s ≡ ok children)
  children-serialize end h = ([], refl, λ fuel enough. end-read fuel enough)
  children-serialize (text t rest) h =
      let (s, written, read) = children-serialize rest h in
      (text_child t ++ s, rw written, text-read t s rest read)
  children-serialize (element n rest) (hn, h) =
      let (raw, node_written, pos, node_read) = node-serialize n hn in
      let (s, written, read) = children-serialize rest h in
      (
        node_child raw ++ s,
        rw (node_written, written),
        element-read raw s n rest pos node_read read,
      )

-- A tree in which no name or attribute holds a `<` and each node has fewer than ten attributes is
-- serialized without an error, and what is written is read back as the same tree, whatever its texts.
pub deserialize-serialize :
    (n : XmlNode) → IsClean n → (s : Text) × (serialize n ≡ ok s) × (deserialize s ≡ ok n)
unfolding deserialize
deserialize-serialize n h =
    let (s, written, pos, read) = node-serialize n h in
    (s, written, read (suc (length s)) (omega arith))
