-- ===== src/Dom.antt =====
-- The document tree: crates/xenolith/src/dom, node.rs and document.rs. The arena `nodes: Vec<NodeSlot>`
-- is the number of slots in use and the slot at each index. Every link of a slot is a handle of its
-- own document, so a link is the index alone; a handle that comes from outside carries its document.
pub mod Siblings
pub mod Links
pub mod Forest
pub mod Insert
pub mod Rooted
pub mod Tree
pub mod Action
pub mod Create
pub mod Attributes
pub mod Walk
pub mod Keeps
pub mod Reach
mod Tests
use xenolith.Common.{
  ℕ, zero, suc, ◌+◌, ◌^◌, Bool, true, false, ◌&&◌, ◌||◌, not, List, [], ◌∷◌, Option, none, some,
  ◌==◌, ltb, if◌then◌else◌,
}
use xenolith.Text.{Text}
use xenolith.Name.{NameId, NamePool}

pub record NodeId : Type 0 where
  pub document : ℕ
  pub index : ℕ

pub data NodeType : Type 0 where
  element_node attribute_node text_node cdata_section_node processing_instruction_node : NodeType
  comment_node document_node document_type_node document_fragment_node : NodeType

pub record QName : Type 0 where
  pub prefix : Option NameId
  pub namespace : Option NameId
  pub local : NameId

pub record AttrData : Type 0 where
  pub name : QName
  pub value : Text
  pub owner : Option ℕ
  pub is_id : Bool

pub record ElementData : Type 0 where
  pub name : QName
  pub attributes : List ℕ
  pub base : Option NameId

pub data NodeData : Type 0 where
  document document_fragment : NodeData
  document_type : NameId → Option Text → Option Text → NodeData
  element : ElementData → NodeData
  attribute : AttrData → NodeData
  text cdata_section comment : Text → NodeData
  processing_instruction : NameId → Text → NodeData

abbrev pub node_type : NodeData → NodeType
node_type document = document_node
node_type (document_type _ _ _) = document_type_node
node_type document_fragment = document_fragment_node
node_type (element _) = element_node
node_type (attribute _) = attribute_node
node_type (text _) = text_node
node_type (cdata_section _) = cdata_section_node
node_type (comment _) = comment_node
node_type (processing_instruction _ _) = processing_instruction_node

unfoldable pub is_container : NodeData → Bool
is_container document = true
is_container document_fragment = true
is_container (element _) = true
is_container _ = false

unfoldable pub can_be_child : NodeData → Bool
can_be_child document = false
can_be_child (attribute _) = false
can_be_child _ = true

pub record NodeSlot : Type 0 where
  pub parent : Option ℕ
  pub first_child : Option ℕ
  pub last_child : Option ℕ
  pub previous_sibling : Option ℕ
  pub next_sibling : Option ℕ
  pub node_data : NodeData

-- `NodeSlot::new`
abbrev pub new_slot : NodeData → NodeSlot
new_slot payload = record {
  parent = none;
  first_child = none;
  last_child = none;
  previous_sibling = none;
  next_sibling = none;
  node_data = payload;
}

pub record Document : Type 0 where
  pub id : ℕ
  pub held : ℕ
  pub slot : ℕ → NodeSlot
  pub pool : NamePool
  pub base : Option NameId

-- The codes that the methods give; `unreachable` stands for a panic.
pub data ExceptionCode : Type 0 where
  hierarchy_request_err wrong_document_err invalid_character_err not_found_err : ExceptionCode
  not_supported_err inuse_attribute_err namespace_err unreachable : ExceptionCode

pub data Result {ℓ} (A : Type ℓ) : Type ℓ where
  ok : A → Result A
  err : ExceptionCode → Result A

infixl 5 ◌>>=◌ ◌>>◌
abbrev pub ◌>>=◌ {ℓ κ} : {A : Type ℓ} {B : Type κ} → Result A → (A → Result B) → Result B
ok a >>= f = f a
err e >>= f = err e

abbrev pub ◌>>◌ {ℓ κ} : {A : Type ℓ} {B : Type κ} → Result A → Result B → Result B
r >> s = r >>= λ _. s

-- `if c { return Err(e) }`
abbrev pub refuse_if : Bool → ExceptionCode → Result (Unit {0})
refuse_if c e = if c then err e else ok tt

unfoldable pub owns : Document → NodeId → Bool
owns doc id = id.document == doc.id

unfoldable pub require_own : Document → NodeId → Result (Unit {0})
unfolding owns
require_own doc id = refuse_if (not (owns doc id)) wrong_document_err

-- One assignment to a field of a slot, `self.nodes[i].field = value`.
abbrev pub set_parent : ℕ → Option ℕ → Document → Document
set_parent i v doc = record doc {
  slot = λ j. record (doc.slot j) { parent = if i == j then v else (doc.slot j).parent };
}

abbrev pub set_first_child : ℕ → Option ℕ → Document → Document
set_first_child i v doc = record doc {
  slot = λ j. record (doc.slot j) { first_child = if i == j then v else (doc.slot j).first_child };
}

abbrev pub set_last_child : ℕ → Option ℕ → Document → Document
set_last_child i v doc = record doc {
  slot = λ j. record (doc.slot j) { last_child = if i == j then v else (doc.slot j).last_child };
}

abbrev pub set_previous_sibling : ℕ → Option ℕ → Document → Document
set_previous_sibling i v doc = record doc {
  slot = λ j. record (doc.slot j) {
    previous_sibling = if i == j then v else (doc.slot j).previous_sibling;
  };
}

abbrev pub set_next_sibling : ℕ → Option ℕ → Document → Document
set_next_sibling i v doc = record doc {
  slot =
      λ j. record (doc.slot j) { next_sibling = if i == j then v else (doc.slot j).next_sibling };
}

abbrev pub set_data : ℕ → NodeData → Document → Document
set_data i v doc = record doc {
  slot = λ j. record (doc.slot j) { node_data = if i == j then v else (doc.slot j).node_data };
}
