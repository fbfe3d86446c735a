-- ===== src/Dom/Walk.antt =====
-- Walking a subtree: crates/xenolith/src/dom/walk.rs, and the searches on it in document.rs and
-- collection.rs. The walk runs on fuel, as many visits as it may report.
pub mod Preorder
use xenolith.Common.{
  ℕ, zero, suc, ◌+◌, ◌*◌, Bool, true, false, not, ◌&&◌, ◌||◌, List, [], ◌∷◌, ◌++◌, Option, none,
  some, ◌==◌, if◌then◌else◌, any, keep,
}
use xenolith.Text.{Text, eq_text, eq_option}
use xenolith.Dom.{Document, NodeData, text, cdata_section}
use xenolith.Dom.Insert.{children}
use xenolith.Dom.Attributes.{element_data, attr_data, attributes_of, is_element, satisfies}

pub data Visit : Type 0 where
  enter leave : Visit

-- Where the walk is after leaving a node below the start.
abbrev pub after_leave : Option ℕ → Option ℕ → Option (Visit × ℕ)
after_leave (some sibling) parent = some (enter, sibling)
after_leave none (some parent) = some (leave, parent)
after_leave none none = none

abbrev pub after_enter : ℕ → Option ℕ → Option (Visit × ℕ)
after_enter node (some child) = some (enter, child)
after_enter node none = some (leave, node)

-- The match of `next`.
unfoldable pub next_visit : Document → ℕ → Visit × ℕ → Option (Visit × ℕ)
next_visit doc start (enter, node) = after_enter node (doc.slot node).first_child
next_visit doc start (leave, node) =
    if node == start then none else after_leave (doc.slot node).next_sibling (doc.slot node).parent

abbrev pub walk_from : ℕ → Document → ℕ → Option (Visit × ℕ) → List (Visit × ℕ)
walk_from zero doc start current = []
walk_from (suc fuel) doc start none = []
walk_from (suc fuel) doc start (some visit) =
    visit ∷ walk_from fuel doc start (next_visit doc start visit)

unfoldable pub walk : ℕ → Document → ℕ → List (Visit × ℕ)
walk fuel doc id = walk_from fuel doc id (some (enter, id))

-- The nodes that are entered, but the start.
abbrev pub entered : ℕ → List (Visit × ℕ) → List ℕ
entered id [] = []
entered id ((enter, node) ∷ rest) = if node == id then entered id rest else node ∷ entered id rest
entered id ((leave, node) ∷ rest) = entered id rest

unfoldable pub descendants : ℕ → Document → ℕ → List ℕ
descendants fuel doc id = entered id (walk fuel doc id)

abbrev pub character_data : NodeData → Text
character_data (text s) = s
character_data (cdata_section s) = s
character_data _ = []

abbrev pub texts : Document → List (Visit × ℕ) → Text
texts doc [] = []
texts doc ((enter, node) ∷ rest) = character_data (doc.slot node).node_data ++ texts doc rest
texts doc ((leave, node) ∷ rest) = texts doc rest

unfoldable pub text_content : ℕ → Document → ℕ → Text
text_content fuel doc id = texts doc (walk fuel doc id)

abbrev pub has_id : Document → Text → ℕ → Bool
has_id doc id node =
    any (λ attr. satisfies (λ a. a.is_id && eq_text a.value id) (attr_data doc attr))
      (attributes_of (element_data doc node))

abbrev pub find_first : (ℕ → Bool) → List ℕ → Option ℕ
find_first test [] = none
find_first test (x ∷ xs) = if test x then some x else find_first test xs

unfoldable pub get_element_by_id : ℕ → Document → Text → Option ℕ
get_element_by_id fuel doc id =
    find_first (λ node. is_element (doc.slot node).node_data && has_id doc id node)
      (descendants fuel doc 0)
