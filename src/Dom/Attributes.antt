-- ===== src/Dom/Attributes.antt =====
-- The attributes of an element: crates/xenolith/src/dom/document.rs, from `set_attribute` to
-- `set_id_attribute`. An attribute is a node of the arena that the element lists by its index.
use xenolith.Common.{
  ℕ, Bool, true, false, not, ◌&&◌, List, [], ◌∷◌, ◌++◌, Option, none, some, ◌==◌, if◌then◌else◌,
  contains,
}
use xenolith.Text.{Text}
use xenolith.Name
use xenolith.Name.{NameId, NamePool}
use xenolith.Chars.{split_qname}
use xenolith.Dom.{
  Document, NodeId, NodeData, QName, AttrData, ElementData, Result, ok, err, refuse_if, require_own,
  element, attribute, set_data, not_supported_err, inuse_attribute_err, not_found_err, unreachable,
}
use xenolith.Dom.Action.{
  Action, ◌>>=◌, ◌>>◌, pure, check, gets, change, push, intern_option, parse_qname,
}
use xenolith.Dom.Create.{check_qname_namespace}

unfoldable pub eq_name : NameId → NameId → Bool
eq_name a b = a.pool == b.pool && a.index == b.index

unfoldable pub eq_option_name : Option NameId → Option NameId → Bool
eq_option_name none none = true
eq_option_name (some a) (some b) = eq_name a b
eq_option_name _ _ = false

-- `==` on expanded names
unfoldable pub eq_expanded : QName → QName → Bool
eq_expanded a b = eq_option_name a.namespace b.namespace && eq_name a.local b.local

abbrev pub element_data : Document → ℕ → Option ElementData
element_data doc id = elim (doc.slot id).node_data [ element e ↦ some e | _ ↦ none ]

abbrev pub attr_data : Document → ℕ → Option AttrData
attr_data doc id = elim (doc.slot id).node_data [ attribute a ↦ some a | _ ↦ none ]

abbrev pub is_element : NodeData → Bool
is_element (element _) = true
is_element _ = false

unfoldable pub require_element : Document → ℕ → Result (Unit {0})
require_element doc id = refuse_if (not (is_element (doc.slot id).node_data)) not_supported_err

-- `element_data_mut(id).attributes = …`, for a node that is an element
abbrev pub with_attributes : (List ℕ → List ℕ) → NodeData → NodeData
with_attributes f (element e) = element (record e { attributes = f e.attributes })
with_attributes f payload = payload

abbrev pub update_attributes : ℕ → (List ℕ → List ℕ) → Document → Document
update_attributes id f doc = set_data id (with_attributes f (doc.slot id).node_data) doc

-- `attr_data_mut(id)`, for a node that is an attribute
abbrev pub with_attr : (AttrData → AttrData) → NodeData → NodeData
with_attr f (attribute a) = attribute (f a)
with_attr f payload = payload

abbrev pub update_attr : ℕ → (AttrData → AttrData) → Document → Document
update_attr id f doc = set_data id (with_attr f (doc.slot id).node_data) doc

abbrev pub satisfies : (AttrData → Bool) → Option AttrData → Bool
satisfies p none = false
satisfies p (some a) = p a

abbrev pub find_in : (AttrData → Bool) → Document → List ℕ → Option ℕ
find_in p doc [] = none
find_in p doc (x ∷ xs) = if satisfies p (attr_data doc x) then some x else find_in p doc xs

unfoldable pub find_attribute : Document → ℕ → (AttrData → Bool) → Option ℕ
find_attribute doc id p = elim (element_data doc id) [
  | none ↦ none
  | some e ↦ find_in p doc e.attributes
]

-- The loop body of `put_attribute` when no attribute has the name.
abbrev pub add_attribute : ℕ → QName → Text → Action (Unit {0})
add_attribute id name value = do
  attr ← push (attribute (record { name = name; value = value; owner = some id; is_id = false }))
  change (update_attributes id (λ xs. xs ++ attr.index ∷ []))

abbrev pub put_found : ℕ → QName → Text → Option ℕ → Action (Unit {0})
put_found id name value none doc = add_attribute id name value doc
put_found id name value (some attr) doc =
    (ok tt, update_attr attr (λ a. record a { value = value }) doc)

unfoldable pub put_attribute : ℕ → QName → Text → Action (Unit {0})
put_attribute id name value = do
  found ← gets (λ doc. find_attribute doc id (λ a. eq_expanded a.name name))
  put_found id name value found

unfoldable pub set_attribute : NodeId → Text → Text → Action (Unit {0})
set_attribute target qualified_name value = do
  check (λ doc. require_own doc target)
  check (λ doc. require_element doc target.index)
  name ← parse_qname qualified_name none
  put_attribute target.index name value

unfoldable pub set_attribute_ns : NodeId → Option Text → Text → Text → Action (Unit {0})
set_attribute_ns target namespace qualified_name value = do
  check (λ doc. require_own doc target)
  check (λ doc. require_element doc target.index)
  check (λ _. check_qname_namespace namespace qualified_name true)
  namespace_id ← intern_option namespace
  name ← parse_qname qualified_name namespace_id
  put_attribute target.index name value

-- `Some(p) => Some(self.pool.get(p)?)`: the outer option is the failure of `?`.
abbrev pub get_option : Option Text → NamePool → Option (Option NameId)
get_option none pool = some none
get_option (some name) pool = elim (Name.get name pool) [ none ↦ none | some id ↦ some (some id) ]

unfoldable pub get_attribute_node : Document → ℕ → Text → Option ℕ
get_attribute_node doc id qualified_name = elim (split_qname qualified_name) [
  | none ↦ none
  | some (prefix, local) ↦ elim (get_option prefix doc.pool) [
    | none ↦ none
    | some prefix_id ↦ elim (Name.get local doc.pool) [
      | none ↦ none
      | some local_id ↦
          find_attribute doc id
            (λ a. eq_option_name a.name.prefix prefix_id && eq_name a.name.local local_id)
    ]
  ]
]

unfoldable pub get_attribute_node_ns : Document → ℕ → Option Text → Text → Option ℕ
get_attribute_node_ns doc id namespace local = elim (get_option namespace doc.pool) [
  | none ↦ none
  | some namespace_id ↦ elim (Name.get local doc.pool) [
    | none ↦ none
    | some local_id ↦
        find_attribute doc id
          (λ a. eq_option_name a.name.namespace namespace_id && eq_name a.name.local local_id)
  ]
]

abbrev pub value_of : Option AttrData → Option Text
value_of none = none
value_of (some a) = some a.value

-- `and_then(|attr| self.node_value(attr))`
unfoldable pub get_attribute : Document → ℕ → Text → Option Text
get_attribute doc id qualified_name = elim (get_attribute_node doc id qualified_name) [
  | none ↦ none
  | some attr ↦ value_of (attr_data doc attr)
]

unfoldable pub get_attribute_ns : Document → ℕ → Option Text → Text → Option Text
get_attribute_ns doc id namespace local = elim (get_attribute_node_ns doc id namespace local) [
  | none ↦ none
  | some attr ↦ value_of (attr_data doc attr)
]

abbrev pub attributes_of : Option ElementData → List ℕ
attributes_of none = []
attributes_of (some e) = e.attributes

-- `attributes.remove(position)`, for the first that is `attr`
abbrev pub remove_first : ℕ → List ℕ → List ℕ
remove_first attr [] = []
remove_first attr (x ∷ xs) = if x == attr then xs else x ∷ remove_first attr xs

-- The panic of `element_data_mut`.
abbrev pub require_element_data : Document → ℕ → Result (Unit {0})
require_element_data doc id = refuse_if (not (is_element (doc.slot id).node_data)) unreachable

unfoldable pub remove_attribute_node : NodeId → NodeId → Action NodeId
remove_attribute_node target attr = do
  check (λ doc. require_own doc target)
  check (λ doc. require_own doc attr)
  check (λ doc. require_element_data doc target.index)
  check (λ doc.
      refuse_if (not (contains (attributes_of (element_data doc target.index)) attr.index))
        not_found_err)
  change (update_attributes target.index (remove_first attr.index))
  change (update_attr attr.index (λ a. record a { owner = none }))
  pure attr

abbrev pub remove_found : NodeId → Option ℕ → Action (Unit {0})
remove_found target none = pure tt
remove_found target (some attr) = do
  id ← gets (λ doc. record { document = doc.id; index = attr })
  remove_attribute_node target id
  pure tt

unfoldable pub remove_attribute : NodeId → Text → Action (Unit {0})
remove_attribute target qualified_name = do
  check (λ doc. require_own doc target)
  check (λ doc. require_element doc target.index)
  found ← gets (λ doc. get_attribute_node doc target.index qualified_name)
  remove_found target found

abbrev pub attr_or_err : Option AttrData → Result AttrData
attr_or_err none = err not_supported_err
attr_or_err (some a) = ok a

-- `Some(owner) if owner != element`
abbrev pub in_use : Option ℕ → ℕ → Bool
in_use none id = false
in_use (some owner) id = not (owner == id)

-- `set_attribute_node` once the attribute is read.
unfoldable pub attach_node : NodeId → NodeId → AttrData → Action (Unit {0})
attach_node target attr a = do
  check (λ _. refuse_if (in_use a.owner target.index) inuse_attribute_err)
  existing ← gets (λ doc. find_attribute doc target.index (λ b. eq_expanded b.name a.name))
  remove_found target existing
  change (update_attr attr.index (λ b. record b { owner = some target.index }))
  change (update_attributes target.index (λ xs. xs ++ attr.index ∷ []))

unfoldable pub set_attribute_node : NodeId → NodeId → Action (Unit {0})
set_attribute_node target attr = do
  check (λ doc. require_own doc target)
  check (λ doc. require_own doc attr)
  check (λ doc. require_element doc target.index)
  a ← check (λ doc. attr_or_err (attr_data doc attr.index))
  attach_node target attr a

abbrev pub mark_found : Bool → Option ℕ → Action (Unit {0})
mark_found is_id none doc = (err not_found_err, doc)
mark_found is_id (some attr) doc = (ok tt, update_attr attr (λ a. record a { is_id = is_id }) doc)

unfoldable pub set_id_attribute : NodeId → Text → Bool → Action (Unit {0})
set_id_attribute target qualified_name is_id = do
  check (λ doc. require_own doc target)
  found ← gets (λ doc. get_attribute_node doc target.index qualified_name)
  mark_found is_id found
