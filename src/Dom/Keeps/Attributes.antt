-- ===== src/Dom/Keeps/Attributes.antt =====
-- The attribute methods of crates/xenolith/src/dom/document.rs keep the tree well formed.
use xenolith.Common.{ℕ, Bool, Option, none, some}
use xenolith.Text.{Text}
use xenolith.Dom.{NodeId, QName, AttrData}
use xenolith.Dom.Attributes.{
  set_attribute, set_attribute_ns, remove_attribute, remove_attribute_node, set_attribute_node,
  set_id_attribute, attach_node, put_attribute, add_attribute, put_found, mark_found, remove_found,
}
use xenolith.Dom.Keeps.{
  Keeps, >>=-Keeps, check-Keeps, gets-Keeps, intern_option-Keeps, parse_qname-Keeps, pure-Keeps,
  push-Keeps, update_attr-Keeps, update_attributes-Keeps,
}

pub add_attribute-Keeps : (i : ℕ) (name : QName) (value : Text) → Keeps (add_attribute i name value)
add_attribute-Keeps i name value = search (>>=-Keeps, push-Keeps, update_attributes-Keeps)

pub put_found-Keeps :
    (i : ℕ) (name : QName) (value : Text) (found : Option ℕ) → Keeps (put_found i name value found)
put_found-Keeps i name value none = add_attribute-Keeps i name value
put_found-Keeps i name value (some attr) = update_attr-Keeps attr (λ a. record a { value = value })

pub put_attribute-Keeps : (i : ℕ) (name : QName) (value : Text) → Keeps (put_attribute i name value)
unfolding put_attribute
put_attribute-Keeps i name value = search (>>=-Keeps, gets-Keeps, put_found-Keeps)

pub set_attribute-Keeps :
    (target : NodeId) (name value : Text) → Keeps (set_attribute target name value)
unfolding set_attribute
set_attribute-Keeps target name value =
    search (>>=-Keeps, check-Keeps, parse_qname-Keeps, put_attribute-Keeps)

pub set_attribute_ns-Keeps :
    (target : NodeId) (namespace : Option Text) (name value : Text)
    → Keeps (set_attribute_ns target namespace name value)
unfolding set_attribute_ns
set_attribute_ns-Keeps target namespace name value =
    search (>>=-Keeps, check-Keeps, intern_option-Keeps, parse_qname-Keeps, put_attribute-Keeps)
      depth 9

pub remove_attribute_node-Keeps : (target attr : NodeId) → Keeps (remove_attribute_node target attr)
unfolding remove_attribute_node
remove_attribute_node-Keeps target attr =
    search (>>=-Keeps, check-Keeps, update_attributes-Keeps, update_attr-Keeps, pure-Keeps) depth 9

pub remove_found-Keeps : (target : NodeId) (found : Option ℕ) → Keeps (remove_found target found)
remove_found-Keeps target none doc good = good
remove_found-Keeps target (some attr) doc good =
    search (>>=-Keeps, gets-Keeps, remove_attribute_node-Keeps, pure-Keeps, good)

pub remove_attribute-Keeps : (target : NodeId) (name : Text) → Keeps (remove_attribute target name)
unfolding remove_attribute
remove_attribute-Keeps target name = search (>>=-Keeps, check-Keeps, remove_found-Keeps)

pub attach_node-Keeps : (target attr : NodeId) (a : AttrData) → Keeps (attach_node target attr a)
unfolding attach_node
attach_node-Keeps target attr a =
    search (>>=-Keeps, check-Keeps, remove_found-Keeps, update_attributes-Keeps, update_attr-Keeps)
      depth 9

pub set_attribute_node-Keeps : (target attr : NodeId) → Keeps (set_attribute_node target attr)
unfolding set_attribute_node
set_attribute_node-Keeps target attr = search (>>=-Keeps, check-Keeps, attach_node-Keeps) depth 9

pub mark_found-Keeps : (is_id : Bool) (found : Option ℕ) → Keeps (mark_found is_id found)
mark_found-Keeps is_id none doc good = good
mark_found-Keeps is_id (some attr) doc good =
    update_attr-Keeps attr (λ a. record a { is_id = is_id }) doc good

pub set_id_attribute-Keeps :
    (target : NodeId) (name : Text) (is_id : Bool) → Keeps (set_id_attribute target name is_id)
unfolding set_id_attribute
set_id_attribute-Keeps target name is_id = search (>>=-Keeps, check-Keeps, mark_found-Keeps)
