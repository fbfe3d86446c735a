-- ===== src/Dom/Links.antt =====
-- Linking and unlinking a node, crates/xenolith/src/dom/document.rs: `detach`, `link_last`,
-- `link_before` and `place`.
pub mod Fields
use xenolith.Common.{ℕ, Option, none, some}
use xenolith.Dom.{
  Document, set_parent, set_first_child, set_last_child, set_previous_sibling, set_next_sibling,
}

-- `match previous` of `detach`, under its parent.
abbrev pub relink_next : Option ℕ → Option ℕ → Option ℕ → Document → Document
relink_next (some previous) parent next doc = set_next_sibling previous next doc
relink_next none (some parent) next doc = set_first_child parent next doc
relink_next none none next doc = doc

-- `match next` of `detach`, under its parent.
abbrev pub relink_previous : Option ℕ → Option ℕ → Option ℕ → Document → Document
relink_previous (some next) parent previous doc = set_previous_sibling next previous doc
relink_previous none (some parent) previous doc = set_last_child parent previous doc
relink_previous none none previous doc = doc

unfoldable pub detach : ℕ → Document → Document
detach id doc =
    let slot = doc.slot id in
    let joined =
      relink_previous slot.next_sibling slot.parent slot.previous_sibling
        (relink_next slot.previous_sibling slot.parent slot.next_sibling doc) in
    set_next_sibling id none (set_previous_sibling id none (set_parent id none joined))

-- `match previous` of `link_last` and of `link_before`.
abbrev pub link_after : Option ℕ → ℕ → ℕ → Document → Document
link_after (some previous) parent child doc = set_next_sibling previous (some child) doc
link_after none parent child doc = set_first_child parent (some child) doc

unfoldable pub link_last : ℕ → ℕ → Document → Document
link_last parent child doc =
    let previous = (doc.slot parent).last_child in
    let linked =
      set_next_sibling child none
        (set_previous_sibling child previous (set_parent child (some parent) doc)) in
    set_last_child parent (some child) (link_after previous parent child linked)

unfoldable pub link_before : ℕ → ℕ → ℕ → Document → Document
link_before parent child reference doc =
    let previous = (doc.slot reference).previous_sibling in
    let linked =
      set_next_sibling child (some reference)
        (set_previous_sibling child previous (set_parent child (some parent) doc)) in
    link_after previous parent child (set_previous_sibling reference (some child) linked)

unfoldable pub place : ℕ → ℕ → Option ℕ → Document → Document
place parent child (some reference) doc = link_before parent child reference doc
place parent child none doc = link_last parent child doc
