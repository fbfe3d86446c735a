-- ===== src/Dom/Insert.antt =====
-- The checks and the mutations of the tree: crates/xenolith/src/dom/document.rs, from `children` to
-- `remove_child`. A mutation gives back its result and the document; a loop over the links of the
-- arena runs on fuel, the number of the slots.
use xenolith.Common.{
  ℕ, zero, suc, Bool, true, false, ◌&&◌, ◌||◌, not, List, [], ◌∷◌, Option, none, some, ◌==◌,
  if◌then◌else◌,
}
use xenolith.Dom.{
  Document, NodeId, NodeType, NodeData, Result, ok, err, ◌>>◌, refuse_if, require_own, node_type,
  is_container, can_be_child, text_node, cdata_section_node, element_node, document_type_node,
  document, document_fragment, hierarchy_request_err, not_found_err,
}
use xenolith.Dom.Siblings.{is_some_of}
use xenolith.Dom.Links.{detach, place}

-- The nodes that `next_sibling` leads to.
abbrev pub siblings : ℕ → Option ℕ → Document → List ℕ
siblings zero current doc = []
siblings (suc fuel) none doc = []
siblings (suc fuel) (some current) doc = current ∷ siblings fuel (doc.slot current).next_sibling doc

unfoldable pub children : Document → ℕ → List ℕ
children doc id = siblings doc.held (doc.slot id).first_child doc

abbrev pub is_element_type : NodeType → Bool
is_element_type element_node = true
is_element_type _ = false

abbrev pub is_document_type : NodeType → Bool
is_document_type document_type_node = true
is_document_type _ = false

abbrev pub find_node : (NodeType → Bool) → Document → List ℕ → Option ℕ
find_node test doc [] = none
find_node test doc (x ∷ xs) =
    if test (node_type (doc.slot x).node_data) then some x else find_node test doc xs

unfoldable pub document_element : Document → Option ℕ
document_element doc = find_node is_element_type doc (children doc 0)

unfoldable pub doctype : Document → Option ℕ
doctype doc = find_node is_document_type doc (children doc 0)

-- The loop of `is_ancestor`, which climbs by the parents.
abbrev pub climb : ℕ → ℕ → Option ℕ → Document → Bool
climb zero ancestor current doc = false
climb (suc fuel) ancestor none doc = false
climb (suc fuel) ancestor (some id) doc =
    id == ancestor || climb fuel ancestor (doc.slot id).parent doc

unfoldable pub is_ancestor : Document → ℕ → ℕ → Bool
is_ancestor doc ancestor node = climb doc.held ancestor (some node) doc

unfoldable pub document_child_error : NodeType → Bool → Bool → Result (Unit {0})
document_child_error text_node has_element has_doctype = err hierarchy_request_err
document_child_error cdata_section_node has_element has_doctype = err hierarchy_request_err
document_child_error element_node has_element has_doctype =
    refuse_if has_element hierarchy_request_err
document_child_error document_type_node has_element has_doctype =
    refuse_if has_doctype hierarchy_request_err
document_child_error _ has_element has_doctype = ok tt

abbrev pub is_document : NodeData → Bool
is_document document = true
is_document _ = false

abbrev pub is_fragment : NodeData → Bool
is_fragment document_fragment = true
is_fragment _ = false

-- `is_some_and(|e| e != child)`
abbrev pub is_other : ℕ → Option ℕ → Bool
is_other child none = false
is_other child (some e) = not (e == child)

abbrev pub is_some : Option ℕ → Bool
is_some none = false
is_some (some _) = true

unfoldable pub check_child_of_document : Document → ℕ → ℕ → Result (Unit {0})
unfolding document_element doctype document_child_error
check_child_of_document doc parent child =
    if is_document (doc.slot parent).node_data
    then document_child_error (node_type (doc.slot child).node_data)
        (is_other child (document_element doc)) (is_other child (doctype doc))
    else ok tt

abbrev pub check_each : Document → List ℕ → Bool → Bool → Result (Unit {0})
check_each doc [] has_element has_doctype = ok tt
check_each doc (grandchild ∷ rest) has_element has_doctype =
    let type = node_type (doc.slot grandchild).node_data in
    document_child_error type has_element has_doctype
    >> check_each doc rest (has_element || is_element_type type)
        (has_doctype || is_document_type type)

unfoldable pub check_fragment_into_document : Document → ℕ → ℕ → Result (Unit {0})
check_fragment_into_document doc parent fragment =
    if is_document (doc.slot parent).node_data
    then check_each doc (children doc fragment) (is_some (document_element doc))
        (is_some (doctype doc))
    else ok tt

abbrev pub require_own_reference : Document → Option NodeId → Result (Unit {0})
require_own_reference doc none = ok tt
require_own_reference doc (some reference) = require_own doc reference

abbrev pub check_reference : Document → ℕ → Option NodeId → Result (Unit {0})
check_reference doc parent none = ok tt
check_reference doc parent (some reference) =
    refuse_if (not (is_some_of (doc.slot reference.index).parent parent)) not_found_err

-- `child == parent`, for handles that the document owns, or an ancestor of the parent
unfoldable pub would_cycle : Document → ℕ → ℕ → Bool
would_cycle doc parent child =
    child == parent || (is_some (doc.slot child).first_child && is_ancestor doc child parent)

abbrev pub check_document_rule : Document → ℕ → ℕ → Result (Unit {0})
check_document_rule doc parent child =
    if is_fragment (doc.slot child).node_data
    then check_fragment_into_document doc parent child
    else check_child_of_document doc parent child

unfoldable pub check_insertion : Document → NodeId → NodeId → Option NodeId → Result (Unit {0})
check_insertion doc parent child reference = do
  require_own doc parent
  require_own doc child
  require_own_reference doc reference
  refuse_if (not (is_container (doc.slot parent.index).node_data)) hierarchy_request_err
  refuse_if (not (can_be_child (doc.slot child.index).node_data)) hierarchy_request_err
  refuse_if (would_cycle doc parent.index child.index) hierarchy_request_err
  check_reference doc parent.index reference
  check_document_rule doc parent.index child.index

-- The loop of `insert_before` over the children of a fragment.
abbrev pub move_each : ℕ → Option ℕ → List ℕ → Document → Document
move_each parent reference [] doc = doc
move_each parent reference (grandchild ∷ rest) doc =
    move_each parent reference rest (place parent grandchild reference (detach grandchild doc))

unfoldable pub move_in : ℕ → ℕ → Option ℕ → Document → Document
move_in parent child reference doc =
    if is_fragment (doc.slot child).node_data
    then move_each parent reference (children doc child) doc
    else place parent child reference (detach child doc)

abbrev pub index_of : Option NodeId → Option ℕ
index_of none = none
index_of (some id) = some id.index

unfoldable pub insert_before : NodeId → NodeId → Option NodeId → Document → Result NodeId × Document
insert_before parent child reference doc = elim (check_insertion doc parent child reference) [
  | err e ↦ (err e, doc)
  | ok _ ↦ (ok child, move_in parent.index child.index (index_of reference) doc)
]

unfoldable pub append_child : NodeId → NodeId → Document → Result NodeId × Document
append_child parent child doc = insert_before parent child none doc

-- The checks of `replace_child` and of `remove_child` before they change anything.
abbrev pub require_parent : Document → NodeId → NodeId → Result (Unit {0})
require_parent doc parent child =
    refuse_if (not (is_some_of (doc.slot child.index).parent parent.index)) not_found_err

unfoldable pub replace_child : NodeId → NodeId → NodeId → Document → Result NodeId × Document
replace_child parent new_child old_child doc =
    elim (do
      require_own doc parent
      require_own doc new_child
      require_own doc old_child
      require_parent doc parent old_child) [
        | err e ↦ (err e, doc)
        | ok _ ↦
            let (inserted, doc') = insert_before parent new_child (some old_child) doc in
            elim inserted [
              | err e ↦ (err e, doc')
              | ok _ ↦ (ok old_child, detach old_child.index doc')
            ]
      ]

unfoldable pub remove_child : NodeId → NodeId → Document → Result NodeId × Document
remove_child parent child doc =
    elim (do require_own doc parent; require_own doc child; require_parent doc parent child) [
      | err e ↦ (err e, doc)
      | ok _ ↦ (ok child, detach child.index doc)
    ]
