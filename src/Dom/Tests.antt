-- ===== src/Dom/Tests.antt =====
-- Runs of the tree on small documents: crates/xenolith/src/dom/document.rs.
use xenolith.Common.{◌+◌, length, ℕ, ◌≡◌, refl, false, [], ◌∷◌, none, some, arith}
use xenolith.Text.{codes}
use xenolith.Name.{reserved}
use xenolith.Dom.{
  Document, NodeId, NodeData, document_fragment, text, ok, err, require_own, is_container,
  can_be_child, hierarchy_request_err,
}
use xenolith.Dom.Insert.{
  children, would_cycle, check_child_of_document, document_child_error, document_element, move_in,
  is_fragment, insert_before, append_child, replace_child, remove_child, check_insertion,
}
use xenolith.Dom.Links.{detach, place, link_last}
use xenolith.Dom.Forest.{take_out}
use xenolith.Dom.Tree.{IsWellFormed}
use xenolith.Dom.Tree.Loop.{moved_lists}
use xenolith.Dom.Tree.Mutations.{moved}
use xenolith.Dom.Tree.Calls.{
  Leaves, insert_before-Leaves, remove_child-Leaves, replace_child-Leaves, insert_before-itself,
}
use xenolith.Dom.Action.{new_document, push, next_node_index}
use xenolith.Dom.Create.{new_element}
use xenolith.Dom.Walk.{walk, next_visit, text_content}
use xenolith.Dom.Walk.Preorder.{visits, walk-visits}
use xenolith.Dom.Reach.{Reach, made, then_step, node_made, inserted, Reach-IsWellFormed}

abbrev handle : ℕ → NodeId
handle i = record { document = 7; index = i }

abbrev named : NodeData
named = new_element (record { prefix = none; namespace = none; local = reserved 1 })

abbrev start : Document
start = new_document 7 2

-- Node 1 is an element, 2 a text, 3 and 4 elements, 5 a fragment.
abbrev made_nodes : Document
made_nodes =
    (push document_fragment
      (push named (push named (push (text (codes "t")) (push named start).1).1).1).1).1

made_nodes-Reach : Reach made_nodes
made_nodes-Reach =
    then_step
      (then_step
        (then_step
          (then_step (then_step (made 7 2) (node_made named)) (node_made (text (codes "t"))))
          (node_made named))
        (node_made named))
      (node_made document_fragment)

made_nodes-IsWellFormed : IsWellFormed made_nodes
made_nodes-IsWellFormed = Reach-IsWellFormed made_nodes-Reach

made_nodes_held : made_nodes.held ≡ 6
unfolding push next_node_index new_document
made_nodes_held = refl

-- The text under element 1, and element 3 after it.
abbrev with_text : Document
with_text = (insert_before (handle 1) (handle 2) none made_nodes).1

abbrev joined : Document
joined = (insert_before (handle 1) (handle 3) none with_text).1

with_text-Reach : Reach with_text
unfolding push next_node_index new_document
with_text-Reach =
    then_step made_nodes-Reach
      (inserted (handle 1) (handle 2) none (omega arith) (omega arith) refl)

with_text_held : with_text.held ≡ 6
unfolding append_child push next_node_index new_document children insert_before check_insertion
    require_own is_container can_be_child would_cycle check_child_of_document move_in place
    link_last detach
with_text_held = refl

with_text-IsWellFormed : IsWellFormed with_text
with_text-IsWellFormed = Reach-IsWellFormed with_text-Reach

children-joined : children joined 1 ≡ 2 ∷ 3 ∷ []
unfolding append_child push next_node_index new_document children insert_before check_insertion
    require_own is_container can_be_child would_cycle check_child_of_document move_in place
    link_last detach
children-joined = refl

-- A root element cannot get another beside it, and a text is refused under the document.
abbrev rooted : Document
rooted = (insert_before (handle 0) (handle 1) none made_nodes).1

second_root : (insert_before (handle 0) (handle 3) none rooted).0 ≡ err hierarchy_request_err
unfolding append_child push next_node_index new_document children insert_before check_insertion
    require_own is_container can_be_child would_cycle check_child_of_document move_in place
    link_last detach document_child_error document_element
second_root = refl

insert_before-Leaves_example :
    Leaves made_nodes
      (handle 2)
      (moved_lists 1 none (moved made_nodes 2) (children made_nodes))
      (insert_before (handle 1) (handle 2) none made_nodes)
unfolding push next_node_index new_document
insert_before-Leaves_example =
    insert_before-Leaves made_nodes (handle 1) (handle 2) none made_nodes-IsWellFormed (omega arith)
      (omega arith) refl

replace_child-Leaves_example :
    Leaves with_text
      (handle 2)
      (take_out 2 (moved_lists 1 (some 2) (moved with_text 3) (children with_text)))
      (replace_child (handle 1) (handle 3) (handle 2) with_text)
replace_child-Leaves_example =
    replace_child-Leaves with_text (handle 1) (handle 3) (handle 2) with_text-IsWellFormed
      (omega (arith, with_text_held)) (omega (arith, with_text_held)) refl

remove_child-Leaves_example :
    Leaves with_text
      (handle 2)
      (take_out 2 (children with_text))
      (remove_child (handle 1) (handle 2) with_text)
remove_child-Leaves_example =
    remove_child-Leaves with_text (handle 1) (handle 2) with_text-IsWellFormed

with_text_accepts : check_insertion with_text (handle 1) (handle 2) (some (handle 2)) ≡ ok tt
unfolding append_child push next_node_index new_document children insert_before check_insertion
    require_own is_container can_be_child would_cycle check_child_of_document move_in place
    link_last detach
with_text_accepts = refl

with_text_text : is_fragment (with_text.slot 2).node_data ≡ false
unfolding append_child push next_node_index new_document children insert_before check_insertion
    require_own is_container can_be_child would_cycle check_child_of_document move_in place
    link_last detach
with_text_text = refl

insert_before-itself_example :
    (((insert_before (handle 1) (handle 2) (some (handle 2)) with_text).1.slot 2).next_sibling
      ≡ some 2)
    × (¬ IsWellFormed (insert_before (handle 1) (handle 2) (some (handle 2)) with_text).1)
insert_before-itself_example =
    insert_before-itself with_text (handle 1) (handle 2) with_text_accepts with_text_text

Reach-IsWellFormed_example : IsWellFormed with_text
Reach-IsWellFormed_example = Reach-IsWellFormed with_text-Reach

walk-visits_example :
    walk (length (visits with_text with_text.held 1) + 0) with_text 1
    ≡ visits with_text with_text.held 1
walk-visits_example =
    walk-visits with_text 1 0 with_text-IsWellFormed (omega (arith, with_text_held))

text_under : text_content 6 with_text 1 ≡ codes "t"
unfolding append_child push next_node_index new_document children insert_before check_insertion
    require_own is_container can_be_child would_cycle check_child_of_document move_in place
    link_last detach text_content walk next_visit
text_under = refl
