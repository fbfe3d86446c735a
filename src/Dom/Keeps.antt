-- ===== src/Dom/Keeps.antt =====
-- Calls that keep the tree well formed, the constructors of crates/xenolith/src/dom/document.rs first:
-- a chain of such calls is one.
pub mod Attributes
pub mod Texts
use xenolith.Common.{
  ℕ, ◌+◌, ◌≤◌, ◌<◌, ◌≡◌, ◌≢◌, refl, sym, ◌∙◌, subst, Bool, true, false, ◌++◌, List, Option, none,
  some, arith, ◌==◌, if◌then◌else◌, ==_iff, Bool-cases, Option-cases, inl, inr,
}
use xenolith.Text.{Text}
use xenolith.Name
use xenolith.Name.{NameId}
use xenolith.Chars.{split_qname}
use xenolith.Dom.{
  is_container, can_be_child, Document, NodeId, NodeData, Result, ok, err, QName, AttrData,
  ElementData, element, attribute, text, set_data, require_own,
}
use xenolith.Dom.Siblings.{is_some_of}
use xenolith.Dom.Insert.{
  children, is_fragment, index_of, insert_before, append_child, replace_child, remove_child,
}
use xenolith.Dom.Tree.{Tree, IsWellFormed, Tree-IsWellFormed}
use xenolith.Dom.Forest.{Forest}
use xenolith.Dom.Tree.Calls.{
  Leaves, IsIssued, insert_before-Leaves, append_child-Leaves, replace_child-Leaves,
  remove_child-Leaves,
}
use xenolith.Dom.Tree.Grow.{
  SameLinks, SameKind, Tree-same, add_slot-Tree, new_document-IsWellFormed,
}
use xenolith.Dom.Action.{
  Action, continue, push_at, interned, intern_parts, ◌>>=◌, ◌>>◌, pure, check, gets, change,
  new_document, next_node_index, add_slot, push, intern, intern_option, parse_qname,
}
use xenolith.Dom.Create.{
  create_element, create_element_ns, create_text_node, create_comment, create_cdata_section,
  create_processing_instruction, create_document_fragment, create_document_type, create_attribute,
  create_attribute_ns, append_text, last_text, text_of, extend_text,
}
use xenolith.Dom.Attributes.{
  set_attribute, set_attribute_ns, remove_attribute, remove_attribute_node, set_attribute_node,
  set_id_attribute, attach_node, put_attribute, update_attributes, with_attributes, with_attr,
  update_attr, find_attribute, element_data, attr_data, add_attribute, put_found, mark_found,
  remove_found, get_attribute_node,
}

-- A call that keeps the tree well formed.
abbrev pub Keeps {ℓ} : {A : Type ℓ} → Action A → Type 0
Keeps m = (doc : Document) → IsWellFormed doc → IsWellFormed (m doc).1

pub after_result {ℓ κ} :
    {A : Type ℓ} {B : Type κ} (f : A → Action B)
    → ((a : A) → Keeps (f a))
    → (r : Result A) (doc : Document) → IsWellFormed doc
    → IsWellFormed (continue f r doc).1
after_result f k (ok a) doc good = k a doc good
after_result f k (err e) doc good = good

pub >>=-Keeps {ℓ κ} :
    {A : Type ℓ} {B : Type κ} (m : Action A) (f : A → Action B)
    → Keeps m
    → ((a : A) → Keeps (f a))
    → Keeps (m >>= f)
>>=-Keeps m f k h doc good = after_result f h (m doc).0 (m doc).1 (k doc good)

pub check-Keeps {ℓ} : {A : Type ℓ} (f : Document → Result A) → Keeps (check f)
check-Keeps f doc good = good

pub gets-Keeps {ℓ} : {A : Type ℓ} (f : Document → A) → Keeps (gets f)
gets-Keeps f doc good = good

pub pure-Keeps {ℓ} : {A : Type ℓ} (a : A) → Keeps (pure a)
pure-Keeps a doc good = good

pub push_at-Keeps : (payload : NodeData) (i : Option ℕ) → Keeps (push_at payload i)
push_at-Keeps payload none doc good = good
push_at-Keeps payload (some i) doc good =
    Tree-IsWellFormed (add_slot payload doc) (children doc)
      (add_slot-Tree doc (children doc) good payload)

pub push-Keeps : (payload : NodeData) → Keeps (push payload)
unfolding push
push-Keeps payload doc good = push_at-Keeps payload (next_node_index doc.held) doc good

pub interned-Keeps : (id : Option NameId) → Keeps (interned id)
interned-Keeps none doc good = good
interned-Keeps (some id) doc good = good

pub pool-IsWellFormed :
    (pool : Name.NamePool) (doc : Document)
    → IsWellFormed doc
    → IsWellFormed (record doc { pool = pool })
pool-IsWellFormed pool doc good =
    Tree-IsWellFormed (record doc { pool = pool }) (children doc)
      (Tree-same doc (record doc { pool = pool }) (λ x. (refl, refl, refl, refl, refl))
        (children doc) (omega arith) (λ x b. (refl, refl, refl)) good)

pub intern-Keeps : (name : Text) → Keeps (intern name)
unfolding intern
intern-Keeps name doc good =
    let (id, pool) = Name.intern name doc.pool in
    interned-Keeps id (record doc { pool = pool }) (pool-IsWellFormed pool doc good)

pub intern_option-Keeps : (name : Option Text) → Keeps (intern_option name)
intern_option-Keeps none doc good = good
intern_option-Keeps (some name) doc good =
    >>=-Keeps (intern name) (λ id. pure (some id)) (intern-Keeps name) (λ id. pure-Keeps (some id))
      doc good

pub intern_parts-Keeps :
    (namespace : Option NameId) (parts : Option (Option Text × Text))
    → Keeps (intern_parts namespace parts)
intern_parts-Keeps namespace none doc good = good
intern_parts-Keeps namespace (some (prefix, local)) doc good =
    >>=-Keeps (intern_option prefix) _ (intern_option-Keeps prefix)
      (λ p. >>=-Keeps (intern local) _ (intern-Keeps local) (λ l doc' h. h)) doc good

pub parse_qname-Keeps :
    (name : Text) (namespace : Option NameId) → Keeps (parse_qname name namespace)
unfolding parse_qname
parse_qname-Keeps name namespace = intern_parts-Keeps namespace (split_qname name)

pub create_element-Keeps : (name : Text) → Keeps (create_element name)
unfolding create_element
create_element-Keeps name = search (>>=-Keeps, parse_qname-Keeps, push-Keeps)

pub create_element_ns-Keeps :
    (namespace : Option Text) (name : Text) → Keeps (create_element_ns namespace name)
unfolding create_element_ns
create_element_ns-Keeps namespace name =
    search (>>=-Keeps, check-Keeps, intern_option-Keeps, parse_qname-Keeps, push-Keeps)

pub create_processing_instruction-Keeps :
    (target s : Text) → Keeps (create_processing_instruction target s)
unfolding create_processing_instruction
create_processing_instruction-Keeps target s =
    search (>>=-Keeps, check-Keeps, intern-Keeps, push-Keeps)

pub create_document_type-Keeps :
    (name : Text) (public_id system_id : Option Text)
    → Keeps (create_document_type name public_id system_id)
unfolding create_document_type
create_document_type-Keeps name public_id system_id =
    search (>>=-Keeps, check-Keeps, intern-Keeps, push-Keeps)

pub create_attribute-Keeps : (name : Text) → Keeps (create_attribute name)
unfolding create_attribute
create_attribute-Keeps name = search (>>=-Keeps, parse_qname-Keeps, push-Keeps)

pub create_attribute_ns-Keeps :
    (namespace : Option Text) (name : Text) → Keeps (create_attribute_ns namespace name)
unfolding create_attribute_ns
create_attribute_ns-Keeps namespace name =
    search (>>=-Keeps, check-Keeps, intern_option-Keeps, parse_qname-Keeps, push-Keeps)

-- A change of the data of one node that leaves its kind.
pub set_data-IsWellFormed :
    (i : ℕ) (payload : NodeData) (doc : Document)
    → SameKind (doc.slot i).node_data payload
    → IsWellFormed doc
    → IsWellFormed (set_data i payload doc)
set_data-IsWellFormed i payload doc kind good =
    Tree-IsWellFormed (set_data i payload doc) (children doc) (
      Tree-same doc (set_data i payload doc) (λ x. (refl, refl, refl, refl, refl)) (children doc)
        (omega arith)
        (λ x b. elim (Bool-cases (i == x)) [
          | inl e ↦
              rw e (subst (λ y. SameKind (doc.slot y).node_data payload) ((==_iff i x).0 e) kind)
          | inr e ↦ rw e (refl, refl, refl)
        ])
        good)

pub with_attributes-SameKind :
    (f : List ℕ → List ℕ) (payload : NodeData) → SameKind payload (with_attributes f payload)
unfolding is_container can_be_child
with_attributes-SameKind f payload = ground arith

pub update_attributes-Keeps : (i : ℕ) (f : List ℕ → List ℕ) → Keeps (change (update_attributes i f))
update_attributes-Keeps i f doc good =
    set_data-IsWellFormed i (with_attributes f (doc.slot i).node_data) doc
      (with_attributes-SameKind f (doc.slot i).node_data) good

pub with_attr-SameKind :
    (f : AttrData → AttrData) (payload : NodeData) → SameKind payload (with_attr f payload)
unfolding is_container can_be_child
with_attr-SameKind f payload = ground arith

pub update_attr-Keeps : (i : ℕ) (f : AttrData → AttrData) → Keeps (change (update_attr i f))
update_attr-Keeps i f doc good =
    set_data-IsWellFormed i (with_attr f (doc.slot i).node_data) doc
      (with_attr-SameKind f (doc.slot i).node_data) good
