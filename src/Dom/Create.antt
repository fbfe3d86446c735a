-- ===== src/Dom/Create.antt =====
-- The constructors of nodes: crates/xenolith/src/dom/document.rs, the `create_*` methods and
-- `append_text`.
use xenolith.Common.{ℕ, Bool, true, false, not, ◌&&◌, ◌||◌, [], ◌++◌, Option, none, some}
use xenolith.Text.{Text, codes, eq_text, eq_option}
use xenolith.Chars.{is_name, split_qname}
use xenolith.Dom.{
  Document, NodeId, NodeData, QName, Result, ok, err, refuse_if, require_own, element, attribute,
  text, comment, cdata_section, processing_instruction, document_fragment, document_type, set_data,
  invalid_character_err, namespace_err,
}
use xenolith.Dom.Insert.{append_child}
use xenolith.Dom.Action.{Action, ◌>>=◌, ◌>>◌, check, gets, push, intern, intern_option, parse_qname}

abbrev pub xml_ns : Text
xml_ns = codes "http://www.w3.org/XML/1998/namespace"

abbrev pub xmlns_ns : Text
xmlns_ns = codes "http://www.w3.org/2000/xmlns/"

abbrev pub xml_prefix : Text
xml_prefix = codes "xml"

abbrev pub xmlns_prefix : Text
xmlns_prefix = codes "xmlns"

abbrev pub is_none : Option Text → Bool
is_none none = true
is_none (some _) = false

-- The tests of `check_qname_namespace` after the name is split.
abbrev pub namespace_fault : Option Text → Text → Option Text → Bool → Bool
namespace_fault namespace qualified_name prefix is_attribute =
    let is_xmlns = eq_text qualified_name xmlns_prefix || eq_option prefix (some xmlns_prefix) in
    (not (is_none prefix) && is_none namespace)
    || ((eq_option prefix (some xml_prefix) && not (eq_option namespace (some xml_ns)))
        || (is_attribute
            && ((is_xmlns && not (eq_option namespace (some xmlns_ns)))
                || (eq_option namespace (some xmlns_ns) && not is_xmlns))))

unfoldable pub check_qname_namespace : Option Text → Text → Bool → Result (Unit {0})
check_qname_namespace namespace qualified_name is_attribute = elim (split_qname qualified_name) [
  | none ↦ err invalid_character_err
  | some (prefix, _) ↦
      refuse_if (namespace_fault namespace qualified_name prefix is_attribute) namespace_err
]

abbrev pub new_element : QName → NodeData
new_element name = element (record { name = name; attributes = []; base = none })

abbrev pub new_attribute : QName → NodeData
new_attribute name = attribute (record { name = name; value = []; owner = none; is_id = false })

unfoldable pub create_element : Text → Action NodeId
create_element qualified_name = do name ← parse_qname qualified_name none; push (new_element name)

unfoldable pub create_element_ns : Option Text → Text → Action NodeId
create_element_ns namespace qualified_name = do
  check (λ _. check_qname_namespace namespace qualified_name false)
  namespace_id ← intern_option namespace
  name ← parse_qname qualified_name namespace_id
  push (new_element name)

unfoldable pub create_text_node : Text → Action NodeId
create_text_node s = push (text s)

unfoldable pub create_comment : Text → Action NodeId
create_comment s = push (comment s)

unfoldable pub create_cdata_section : Text → Action NodeId
create_cdata_section s = push (cdata_section s)

unfoldable pub create_processing_instruction : Text → Text → Action NodeId
create_processing_instruction target s = do
  check (λ _. refuse_if (not (is_name target)) invalid_character_err)
  id ← intern target
  push (processing_instruction id s)

unfoldable pub create_document_fragment : Action NodeId
create_document_fragment = push document_fragment

unfoldable pub create_document_type : Text → Option Text → Option Text → Action NodeId
create_document_type name public_id system_id = do
  check (λ _. refuse_if (not (is_name name)) invalid_character_err)
  id ← intern name
  push (document_type id public_id system_id)

unfoldable pub create_attribute : Text → Action NodeId
create_attribute qualified_name = do
  name ← parse_qname qualified_name none
  push (new_attribute name)

unfoldable pub create_attribute_ns : Option Text → Text → Action NodeId
create_attribute_ns namespace qualified_name = do
  check (λ _. check_qname_namespace namespace qualified_name true)
  namespace_id ← intern_option namespace
  name ← parse_qname qualified_name namespace_id
  push (new_attribute name)

abbrev pub text_of : NodeData → Option Text
text_of (text s) = some s
text_of _ = none

-- The last child, when it is a text node, with its text.
abbrev pub last_text : Document → Option ℕ → Option (ℕ × Text)
last_text doc none = none
last_text doc (some last) = elim (text_of (doc.slot last).node_data) [
  | none ↦ none
  | some s ↦ some (last, s)
]

abbrev pub extend_text : NodeId → Text → Option (ℕ × Text) → Action NodeId
extend_text parent s none doc = (do node ← create_text_node s; append_child parent node) doc
extend_text parent s (some (last, existing)) doc =
    (ok (record { document = doc.id; index = last }), set_data last (text (existing ++ s)) doc)

unfoldable pub append_text : NodeId → Text → Action NodeId
append_text parent s = do
  check (λ doc. require_own doc parent)
  found ← gets (λ doc. last_text doc (doc.slot parent.index).last_child)
  extend_text parent s found
