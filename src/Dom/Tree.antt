-- ===== src/Dom/Tree.antt =====
-- The invariant of a document: its links stand for lists of children, every node is below one with no
-- parent, and only nodes that may stand in a tree do. crates/xenolith/src/dom/document.rs.
pub mod Moves
pub mod Loop
pub mod Accepted
pub mod Mutations
pub mod Calls
pub mod Grow
use xenolith.Common.{
  ℕ, zero, suc, ◌+◌, ◌≤◌, ◌<◌, ◌≡◌, refl, sym, subst, Bool, true, false, List, [], ◌∷◌, Option,
  none, some, arith, ◌==◌, if◌then◌else◌, contains, length,
}
use mathlib.Core.Path.{fun_ext}
use xenolith.Dom.{Document, is_container, can_be_child}
use xenolith.Dom.Siblings.{first_of, after_in, Distinct}
use xenolith.Dom.Siblings.Bound.{Distinct-length}
use xenolith.Dom.Forest.{Forest, Represents}
use xenolith.Dom.Insert.{siblings, children, is_fragment, is_ancestor}
use xenolith.Dom.Rooted.{Rooted, Avoids, climb-Avoids, height-held}

pub record Tree (doc : Document) (f : Forest) : Type 0 where
  pub rep : Represents doc f
  pub rooted : (x : ℕ) → Rooted doc x
  pub bounded : (x p : ℕ) → (doc.slot x).parent ≡ some p → (x < doc.held) × (p < doc.held)
  pub placed :
      (x p : ℕ)
      → (doc.slot x).parent ≡ some p
      → (is_container (doc.slot p).node_data ≡ true)
        × (can_be_child (doc.slot x).node_data ≡ true)
        × (is_fragment (doc.slot x).node_data ≡ false)

-- A document in which following the links gives such lists.
abbrev pub IsWellFormed : Document → Type 0
IsWellFormed doc = Tree doc (children doc)

siblings-list :
    (doc : Document) (fuel : ℕ) (xs : List ℕ)
    → Distinct xs
    → length xs ≤ fuel
    → ((x : ℕ) → contains xs x ≡ true → (doc.slot x).next_sibling ≡ after_in x xs)
    → siblings fuel (first_of xs) doc ≡ xs
siblings-list doc zero [] d b h = refl
siblings-list doc (suc fuel) [] d b h = refl
siblings-list doc zero (x ∷ xs) d b h = absurd (omega arith)
siblings-list doc (suc fuel) (x ∷ xs) d b h =
    let next : (doc.slot x).next_sibling ≡ first_of xs = ground (arith, h x) in
    let rest = siblings-list doc fuel xs d.1 (omega arith) (λ y k. ground (arith, h y)) in
    rw (next, rest) refl

module _ (doc : Document) (f : Forest) (tree : Tree doc f) where
  pub contains-held : (p x : ℕ) → contains (f p) x ≡ true → x < doc.held
  contains-held p x h = (tree.bounded x p (tree.rep.stands p x h).0).0

  pub children-Tree : (p : ℕ) → children doc p ≡ f p
  unfolding children
  children-Tree p = rw (tree.rep.first p) (
      siblings-list doc doc.held (f p) (tree.rep.distinct p)
        (Distinct-length doc.held (f p) (tree.rep.distinct p) (contains-held p))
        (λ x h. (tree.rep.stands p x h).2))

  pub Tree-IsWellFormed : IsWellFormed doc
  Tree-IsWellFormed = subst (Tree doc) (sym (fun_ext children-Tree)) tree

  pub is_ancestor-Avoids : (c x : ℕ) → x < doc.held → is_ancestor doc c x ≡ false → Avoids doc c x
  unfolding is_ancestor
  is_ancestor-Avoids c x b h =
      let r = tree.rooted x in climb-Avoids doc r doc.held c (height-held doc tree.bounded r b) h
