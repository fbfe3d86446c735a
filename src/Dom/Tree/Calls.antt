-- ===== src/Dom/Tree/Calls.antt =====
-- What the public mutations of the tree do: `insert_before`, `append_child`, `replace_child` and
-- `remove_child` of crates/xenolith/src/dom/document.rs.
use xenolith.Common.{
  ℕ, ◌<◌, ◌≡◌, refl, ap, ◌∙◌, subst, false, ◌++◌, Option, none, some, arith, ◌==◌, if◌then◌else◌,
}
use mathlib.Core.Path.{fun_ext}
use xenolith.Dom.{Document, NodeId, Result, ok, err, ◌>>◌, require_own}
use xenolith.Dom.Siblings.{is_some_of, after_in_self}
use xenolith.Dom.Siblings.Splice.{without_all}
use xenolith.Dom.Links.{detach, place, link_before}
use xenolith.Dom.Links.Fields.{next-link_before, parent-link_before, previous-detach}
use xenolith.Dom.Forest.{Forest, take_out}
use xenolith.Dom.Insert.{
  children, is_fragment, require_parent, check_insertion, move_in, index_of, insert_before,
  append_child, replace_child, remove_child,
}
use xenolith.Dom.Tree.{Tree, IsWellFormed, children-Tree, Tree-IsWellFormed}
use xenolith.Dom.Tree.Moves.{detach-Tree}
use xenolith.Dom.Tree.Loop.{moved_lists}
use xenolith.Dom.Tree.Accepted.{check_insertion-Accepted}
use xenolith.Dom.Tree.Mutations.{moved, move_in-Tree}

-- What a call did that began at `doc`, by how it ended: it failed and changed nothing, or gave `id`
-- back, kept the invariant, and left the children of every node as `lists` says.
abbrev pub Leaves : Document → NodeId → Forest → Result NodeId × Document → Type 0
Leaves doc id lists (err e, doc') = doc' ≡ doc
Leaves doc id lists (ok id', doc') =
    (id' ≡ id) × IsWellFormed doc' × ((q : ℕ) → children doc' q ≡ lists q)

-- A handle that the document gave out.
abbrev pub IsIssued : Document → NodeId → Type 0
IsIssued doc id = id.index < doc.held

-- The checks come first, and a refusal changes nothing.
checked :
    (doc : Document) (id : NodeId) (lists : Forest) (r : Result (Unit {0}))
    (y : Result NodeId × Document)
    → (r ≡ ok tt → Leaves doc id lists y)
    → Leaves doc id lists (elim r [ err e ↦ (err e, doc) | ok _ ↦ y ])
checked doc id lists (ok tt) y h = h refl
checked doc id lists (err e) y h = refl

-- Insertion of a node, or of all children of a fragment, before a reference or at the end, is refused
-- with the tree unchanged, or moves exactly these nodes: they leave the lists they stood in and stand
-- together, in order, before the reference or at the end of the new parent's list. The links stay
-- consistent and free of cycles. The document is well formed, both nodes are its own, and the
-- reference is not the node that is inserted.
pub insert_before-Leaves :
    (doc : Document) (parent child : NodeId) (reference : Option NodeId)
    → IsWellFormed doc
    → IsIssued doc parent
    → IsIssued doc child
    → is_some_of (index_of reference) child.index ≡ false
    → Leaves doc child
        (moved_lists parent.index (index_of reference) (moved doc child.index) (children doc))
        (insert_before parent child reference doc)
unfolding insert_before
insert_before-Leaves doc parent child reference good pb cb other =
    checked doc child _ (check_insertion doc parent child reference) _ λ e.
      let doc' = move_in parent.index child.index (index_of reference) doc in
      let tree =
        move_in-Tree doc good parent.index child.index (index_of reference)
          (check_insertion-Accepted doc parent child reference e) pb cb other in
      (refl, Tree-IsWellFormed doc' _ tree, children-Tree doc' _ tree)

-- Appending is refused with the tree unchanged, or puts the nodes after the children that the parent
-- has left. The document is well formed, and both nodes are its own.
pub append_child-Leaves :
    (doc : Document) (parent child : NodeId)
    → IsWellFormed doc
    → IsIssued doc parent
    → IsIssued doc child
    → Leaves doc child
        (λ q.
          let left = without_all (moved doc child.index) (children doc q) in
          if parent.index == q then left ++ moved doc child.index else left)
        (append_child parent child doc)
unfolding append_child
append_child-Leaves doc parent child good pb cb =
    insert_before-Leaves doc parent child none good pb cb refl

-- Removing a child is refused with the tree unchanged, or takes the node out of the children of its
-- parent and out of no other list. The document is well formed.
pub remove_child-Leaves :
    (doc : Document) (parent child : NodeId)
    → IsWellFormed doc
    → Leaves doc child (take_out child.index (children doc)) (remove_child parent child doc)
unfolding remove_child
remove_child-Leaves doc parent child good =
    checked doc child _
      (require_own doc parent >> (require_own doc child >> require_parent doc parent child)) _
      λ e.
        let doc' = detach child.index doc in
        let tree = detach-Tree child.index doc (children doc) good in
        (refl, Tree-IsWellFormed doc' _ tree, children-Tree doc' _ tree)

-- What is left to do when the insertion before the old child has ended.
replaced_after :
    (doc : Document) (new_child old_child : NodeId) (lists : Forest) (r : Result NodeId × Document)
    → Leaves doc new_child lists r
    → Leaves doc old_child
        (take_out old_child.index lists)
        (elim (r.0) [ err e ↦ (err e, r.1) | ok _ ↦ (ok old_child, detach old_child.index r.1) ])
replaced_after doc new_child old_child lists (err e, doc') h = h
replaced_after doc new_child old_child lists (ok id, doc') (same, good, h) =
    let tree = detach-Tree old_child.index doc' lists (subst (Tree doc') (fun_ext h) good) in
    let doc'' = detach old_child.index doc' in
    (refl, Tree-IsWellFormed doc'' _ tree, children-Tree doc'' _ tree)

-- Replacement is refused with the tree unchanged, or puts the new nodes before the old one and then
-- takes that one out. The document is well formed, the parent and the new node are its own, and the
-- new node is not the old one.
pub replace_child-Leaves :
    (doc : Document) (parent new_child old_child : NodeId)
    → IsWellFormed doc
    → IsIssued doc parent
    → IsIssued doc new_child
    → (old_child.index == new_child.index) ≡ false
    → Leaves doc old_child
        (take_out old_child.index (
          moved_lists parent.index
            (some old_child.index)
            (moved doc new_child.index)
            (children doc)))
        (replace_child parent new_child old_child doc)
unfolding replace_child
replace_child-Leaves doc parent new_child old_child good pb cb other =
    checked doc old_child _
      (require_own doc parent
        >> (require_own doc new_child
            >> (require_own doc old_child >> require_parent doc parent old_child)))
      _
      λ e.
        replaced_after doc new_child old_child _
          (insert_before parent new_child (some old_child) doc)
          (insert_before-Leaves doc parent new_child (some old_child) good pb cb other)

-- A child that is its own next sibling.
self-linked :
    (doc : Document) (p c : ℕ)
    → (doc.slot c).next_sibling ≡ some c
    → (doc.slot c).parent ≡ some p
    → ¬ IsWellFormed doc
self-linked doc p c next below good =
    let listed = good.rep.listed p c below in
    ground (
      arith,
      next,
      (good.rep.stands p c listed).2,
      after_in_self c (children doc p) (good.rep.distinct p),
    )

-- Inserting a node before itself, which the checks let pass, links it to itself: it is its own next
-- sibling then, so the document is well formed no longer. The node is no fragment.
pub insert_before-itself :
    (doc : Document) (parent child : NodeId)
    → check_insertion doc parent child (some child) ≡ ok tt
    → is_fragment (doc.slot child.index).node_data ≡ false
    → (((insert_before parent child (some child) doc).1.slot child.index).next_sibling
        ≡ some child.index)
      × (¬ IsWellFormed (insert_before parent child (some child) doc).1)
unfolding insert_before move_in place
insert_before-itself doc parent child h whole =
    let p = parent.index in
    let c = child.index in
    let doc' = link_before p c c (detach c doc) in
    let outcome : insert_before parent child (some child) doc ≡ (ok child, doc') =
      rw (h, insert_before, whole, move_in) refl in
    let free : ((detach c doc).slot c).previous_sibling ≡ none =
      ground (arith, previous-detach c doc c) in
    let next : (doc'.slot c).next_sibling ≡ some c =
      rw (next-link_before p c c (detach c doc) c, free) (ground arith) in
    let below : (doc'.slot c).parent ≡ some p =
      rw (parent-link_before p c c (detach c doc) c) (ground arith) in
    (
      ap (λ (r : Result NodeId × Document). (r.1.slot c).next_sibling) outcome ∙ next,
      λ good. self-linked doc' p c next below (subst (λ r. IsWellFormed (r.1)) outcome good),
    )
