-- ===== src/Dom/Tree/Moves.antt =====
-- Unlinking and linking keep the invariant: crates/xenolith/src/dom/document.rs, `detach` and `place`.
use xenolith.Common.{
  ℕ, ◌<◌, ◌≡◌, sym, true, false, Option, none, some, arith, ◌==◌, if◌then◌else◌, ==_iff, Bool-cases,
  inl, inr,
}
use xenolith.Dom.{Document, is_container, can_be_child}
use xenolith.Dom.Links.{detach, place}
use xenolith.Dom.Links.Fields.{
  parent-detach, parent-link_last, parent-link_before, held-detach, held-place, node_data-detach,
  node_data-place,
}
use xenolith.Dom.Forest.{Forest, Represents, take_out, put_last, put_at}
use xenolith.Dom.Forest.Detach.{detach-Represents}
use xenolith.Dom.Forest.Attach.{link_last-Represents, link_before-Represents}
use xenolith.Dom.Insert.{is_fragment}
use xenolith.Dom.Rooted.{Avoids}
use xenolith.Dom.Rooted.Kept.{Rooted-detached, Rooted-linked}
use xenolith.Dom.Tree.{Tree}

pub detach-Tree :
    (c : ℕ) (doc : Document) (f : Forest) → Tree doc f → Tree (detach c doc) (take_out c f)
detach-Tree c doc f tree = record {
  rep = detach-Represents c doc f tree.rep;
  rooted = λ x. Rooted-detached doc (detach c doc) c (parent-detach c doc) (tree.rooted x);
  bounded =
      λ x p h. rw (held-detach c doc) (tree.bounded x p (ground (arith, parent-detach c doc x)));
  placed = λ x p h.
      rw (node_data-detach c doc x, node_data-detach c doc p)
        (tree.placed x p (ground (arith, parent-detach c doc x)));
}

-- What the lists are after `place`.
abbrev pub put : ℕ → ℕ → Option ℕ → Forest → Forest
put p c none f = put_last p c f
put p c (some r) f = put_at p c r f

abbrev pub IsChildOf : Document → ℕ → Option ℕ → Type 0
IsChildOf doc p none = Unit
IsChildOf doc p (some r) = (doc.slot r).parent ≡ some p

pub parent-place :
    (p c : ℕ) (reference : Option ℕ) (doc : Document) (x : ℕ)
    → ((place p c reference doc).slot x).parent ≡ (if c == x then some p else (doc.slot x).parent)
unfolding place
parent-place p c none doc x = parent-link_last p c doc x
parent-place p c (some r) doc x = parent-link_before p c r doc x

place-Represents :
    (p c : ℕ) (reference : Option ℕ) (doc : Document) (f : Forest)
    → Represents doc f
    → (doc.slot c).parent ≡ none
    → IsChildOf doc p reference
    → Represents (place p c reference doc) (put p c reference f)
unfolding place
place-Represents p c none doc f rep free there = link_last-Represents p c doc f rep free
place-Represents p c (some r) doc f rep free there =
    link_before-Represents p c r doc f rep free there

-- A node that may be linked under `p`.
pub record MayStand (doc : Document) (p c : ℕ) : Type 0 where
  pub below : (c < doc.held) × (p < doc.held)
  pub container : is_container (doc.slot p).node_data ≡ true
  pub child : can_be_child (doc.slot c).node_data ≡ true
  pub whole : is_fragment (doc.slot c).node_data ≡ false
  pub avoids : Avoids doc c p

linked_placed :
    (doc : Document) (p c : ℕ)
    → MayStand doc p c
    → (x q : ℕ) → (if c == x then some p else (doc.slot x).parent) ≡ some q
    → ((doc.slot x).parent ≡ some q
        → (is_container (doc.slot q).node_data ≡ true)
          × (can_be_child (doc.slot x).node_data ≡ true)
          × (is_fragment (doc.slot x).node_data ≡ false))
    → (is_container (doc.slot q).node_data ≡ true)
      × (can_be_child (doc.slot x).node_data ≡ true)
      × (is_fragment (doc.slot x).node_data ≡ false)
linked_placed doc p c may x q h old = elim (Bool-cases (c == x)) [
  | inl e ↦
      let same = (==_iff c x).0 e in
      let parent : p ≡ q = ground arith in
      (rw (sym parent) may.container, rw (sym same) may.child, rw (sym same) may.whole)
  | inr e ↦ old (rw e at h)
]

pub place-Tree :
    (p c : ℕ) (reference : Option ℕ) (doc : Document) (f : Forest)
    → Tree doc f
    → (doc.slot c).parent ≡ none
    → IsChildOf doc p reference
    → MayStand doc p c
    → Tree (place p c reference doc) (put p c reference f)
place-Tree p c reference doc f tree free there may =
    let links = parent-place p c reference doc in
    record {
      rep = place-Represents p c reference doc f tree.rep free there;
      rooted =
          λ x. Rooted-linked doc (place p c reference doc) c p links may.avoids (tree.rooted x);
      bounded = λ x q h.
          rw (held-place p c reference doc)
            (ground (arith, links x, tree.bounded x q, may.below, ==_iff c x));
      placed = λ x q h.
          rw (node_data-place p c reference doc x, node_data-place p c reference doc q)
            (linked_placed doc p c may x q (rw (links x) at h) (tree.placed x q));
    }
