-- ===== src/Dom/Reach.antt =====
-- Every document that the public methods of crates/xenolith/src/dom/document.rs can build from a new
-- one, short of inserting a node before itself or replacing a node by itself.
use xenolith.Common.{ℕ, ◌≡◌, Bool, false, Option, ◌==◌}
use xenolith.Text.{Text}
use xenolith.Dom.{Document, NodeId, NodeData}
use xenolith.Dom.Siblings.{is_some_of}
use xenolith.Dom.Insert.{index_of, insert_before, replace_child, remove_child}
use xenolith.Dom.Tree.{IsWellFormed}
use xenolith.Dom.Tree.Calls.{
  IsIssued, insert_before-Leaves, replace_child-Leaves, remove_child-Leaves,
}
use xenolith.Dom.Tree.Grow.{new_document-IsWellFormed}
use xenolith.Dom.Action.{new_document, push}
use xenolith.Dom.Create.{
  create_element, create_element_ns, create_processing_instruction, create_document_type,
  create_attribute, create_attribute_ns, append_text,
}
use xenolith.Dom.Attributes.{
  set_attribute, set_attribute_ns, remove_attribute, remove_attribute_node, set_attribute_node,
  set_id_attribute,
}
use xenolith.Dom.Keeps.{
  create_attribute-Keeps, create_attribute_ns-Keeps, create_document_type-Keeps,
  create_element-Keeps, create_element_ns-Keeps, create_processing_instruction-Keeps, push-Keeps,
}
use xenolith.Dom.Keeps.Attributes.{
  set_attribute-Keeps, set_attribute_ns-Keeps, remove_attribute_node-Keeps, remove_attribute-Keeps,
  set_attribute_node-Keeps, set_id_attribute-Keeps,
}
use xenolith.Dom.Keeps.Texts.{Leaves-IsWellFormed, append_text-IsWellFormed}

-- The calls on a document, with handles that it gave out.
pub data Step (doc : Document) : Document → Type 0 where
  element_made : (name : Text) → Step doc (create_element name doc).1
  element_ns_made :
      (namespace : Option Text) (name : Text) → Step doc (create_element_ns namespace name doc).1
  node_made : (payload : NodeData) → Step doc (push payload doc).1
  instruction_made : (target s : Text) → Step doc (create_processing_instruction target s doc).1
  doctype_made :
      (name : Text) (public_id system_id : Option Text)
      → Step doc (create_document_type name public_id system_id doc).1
  attribute_made : (name : Text) → Step doc (create_attribute name doc).1
  attribute_ns_made :
      (namespace : Option Text) (name : Text) → Step doc (create_attribute_ns namespace name doc).1
  attribute_set :
      (target : NodeId) (name value : Text) → Step doc (set_attribute target name value doc).1
  attribute_ns_set :
      (target : NodeId) (namespace : Option Text) (name value : Text)
      → Step doc (set_attribute_ns target namespace name value doc).1
  attribute_removed :
      (target : NodeId) (name : Text) → Step doc (remove_attribute target name doc).1
  attribute_node_removed :
      (target attr : NodeId) → Step doc (remove_attribute_node target attr doc).1
  attribute_node_set : (target attr : NodeId) → Step doc (set_attribute_node target attr doc).1
  id_marked :
      (target : NodeId) (name : Text) (is_id : Bool)
      → Step doc (set_id_attribute target name is_id doc).1
  inserted :
      (parent child : NodeId) (reference : Option NodeId)
      → IsIssued doc parent
      → IsIssued doc child
      → is_some_of (index_of reference) child.index ≡ false
      → Step doc (insert_before parent child reference doc).1
  replaced :
      (parent new_child old_child : NodeId)
      → IsIssued doc parent
      → IsIssued doc new_child
      → (old_child.index == new_child.index) ≡ false
      → Step doc (replace_child parent new_child old_child doc).1
  removed : (parent child : NodeId) → Step doc (remove_child parent child doc).1
  text_appended :
      (parent : NodeId) (s : Text) → IsIssued doc parent → Step doc (append_text parent s doc).1

pub data Reach : Document → Type 0 where
  made : (id pool_id : ℕ) → Reach (new_document id pool_id)
  then_step : {doc doc' : Document} → Reach doc → Step doc doc' → Reach doc'

Step-IsWellFormed : {doc doc' : Document} → Step doc doc' → IsWellFormed doc → IsWellFormed doc'
Step-IsWellFormed {doc} (element_made name) good = create_element-Keeps name doc good
Step-IsWellFormed {doc} (element_ns_made namespace name) good =
    create_element_ns-Keeps namespace name doc good
Step-IsWellFormed {doc} (node_made payload) good = push-Keeps payload doc good
Step-IsWellFormed {doc} (instruction_made target s) good =
    create_processing_instruction-Keeps target s doc good
Step-IsWellFormed {doc} (doctype_made name public_id system_id) good =
    create_document_type-Keeps name public_id system_id doc good
Step-IsWellFormed {doc} (attribute_made name) good = create_attribute-Keeps name doc good
Step-IsWellFormed {doc} (attribute_ns_made namespace name) good =
    create_attribute_ns-Keeps namespace name doc good
Step-IsWellFormed {doc} (attribute_set target name value) good =
    set_attribute-Keeps target name value doc good
Step-IsWellFormed {doc} (attribute_ns_set target namespace name value) good =
    set_attribute_ns-Keeps target namespace name value doc good
Step-IsWellFormed {doc} (attribute_removed target name) good =
    remove_attribute-Keeps target name doc good
Step-IsWellFormed {doc} (attribute_node_removed target attr) good =
    remove_attribute_node-Keeps target attr doc good
Step-IsWellFormed {doc} (attribute_node_set target attr) good =
    set_attribute_node-Keeps target attr doc good
Step-IsWellFormed {doc} (id_marked target name is_id) good =
    set_id_attribute-Keeps target name is_id doc good
Step-IsWellFormed {doc} (inserted parent child reference p c apart) good =
    Leaves-IsWellFormed doc child _ (insert_before parent child reference doc) good
      (insert_before-Leaves doc parent child reference good p c apart)
Step-IsWellFormed {doc} (replaced parent new_child old_child p c apart) good =
    Leaves-IsWellFormed doc old_child _ (replace_child parent new_child old_child doc) good
      (replace_child-Leaves doc parent new_child old_child good p c apart)
Step-IsWellFormed {doc} (removed parent child) good =
    Leaves-IsWellFormed doc child _ (remove_child parent child doc) good
      (remove_child-Leaves doc parent child good)
Step-IsWellFormed {doc} (text_appended parent s p) good =
    append_text-IsWellFormed parent s doc good p

-- Whatever calls lead to a document from a new one, its links are consistent: following them gives
-- the children of each node once and in order, no node is below itself, and only elements, fragments
-- and documents have children. Handles are the document's own, no node is inserted before itself or
-- replaced by itself, and calls that fail count too.
pub Reach-IsWellFormed : {doc : Document} → Reach doc → IsWellFormed doc
Reach-IsWellFormed (made id pool_id) = new_document-IsWellFormed id pool_id
Reach-IsWellFormed (then_step r st) = Step-IsWellFormed st (Reach-IsWellFormed r)
