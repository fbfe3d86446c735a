-- ===== src/Dom/Tree/Loop.antt =====
-- Moving several nodes under a parent one after another, the loop of `insert_before` in
-- crates/xenolith/src/dom/document.rs, moves them together and keeps the invariant.
use xenolith.Common.{
  ℕ, ◌≡◌, refl, sym, ◌∙◌, subst, true, false, List, [], ◌∷◌, Option, none, some, arith, ◌==◌,
  if◌then◌else◌, contains, Bool-cases, inl, inr,
}
use mathlib.Core.Path.{fun_ext}
use xenolith.Dom.{Document}
use xenolith.Dom.Siblings.{is_some_of, Distinct, without}
use xenolith.Dom.Siblings.Splice.{
  without_all, splice, put_one, IsApart, without_all-put_one, splice-put_one, splice-nil,
}
use xenolith.Dom.Links.{detach, place}
use xenolith.Dom.Links.Fields.{
  parent-detach, held-detach, held-place, node_data-detach, node_data-place,
}
use xenolith.Dom.Forest.{Forest, take_out}
use xenolith.Dom.Insert.{move_each}
use xenolith.Dom.Rooted.Kept.{Avoids-detached}
use xenolith.Dom.Rooted.Avoiding.{Avoids-moved}
use xenolith.Dom.Tree.{Tree}
use xenolith.Dom.Tree.Moves.{put, IsChildOf, MayStand, detach-Tree, place-Tree, parent-place}

-- The lists after `gs` have moved under `p`.
abbrev pub moved_lists : ℕ → Option ℕ → List ℕ → Forest → Forest
moved_lists p reference gs f q =
    if p == q then splice reference gs (without_all gs (f q)) else without_all gs (f q)

put_at_parent :
    (p g : ℕ) (reference : Option ℕ) (f : Forest) (q : ℕ)
    → put p g reference f q ≡ (if p == q then put_one reference g (f q) else f q)
put_at_parent p g none f q = refl
put_at_parent p g (some r) f q = refl

moved_lists-step :
    (p g : ℕ) (reference : Option ℕ) (gs : List ℕ) (f : Forest) (q : ℕ)
    → contains gs g ≡ false
    → IsApart reference (g ∷ gs)
    → moved_lists p reference gs (put p g reference (take_out g f)) q
      ≡ moved_lists p reference (g ∷ gs) f q
moved_lists-step p g reference gs f q n a =
    rw (put_at_parent p g reference (take_out g f) q) (elim (Bool-cases (p == q)) [
      | inl e ↦
          rw
            (
              e,
              without_all-put_one gs g reference (without g (f q)) n a.1,
              splice-put_one gs g reference (without_all gs (without g (f q))) a.0,
            )
            refl
      | inr e ↦ rw e refl
    ])

moved_lists-nil :
    (p : ℕ) (reference : Option ℕ) (f : Forest) (q : ℕ) → moved_lists p reference [] f q ≡ f q
moved_lists-nil p reference f q = ground (arith, splice-nil reference (f q))

-- A reference that keeps its parent is a child of it still.
pub IsChildOf-kept :
    (doc doc' : Document) (p g : ℕ) (reference : Option ℕ)
    → ((x : ℕ) → (x == g) ≡ false → (doc'.slot x).parent ≡ (doc.slot x).parent)
    → is_some_of reference g ≡ false
    → IsChildOf doc p reference
    → IsChildOf doc' p reference
IsChildOf-kept doc doc' p g none h n there = tt
IsChildOf-kept doc doc' p g (some r) h n there = h r n ∙ there

-- Every node of the list may be linked under `p`.
abbrev pub AllMayStand : Document → ℕ → List ℕ → Type 0
AllMayStand doc p gs = (g : ℕ) → contains gs g ≡ true → MayStand doc p g

module _ (p g : ℕ) (reference : Option ℕ) (doc : Document) where
  abbrev moved_one : Document
  moved_one = place p g reference (detach g doc)

  parent_moved : (x : ℕ) → (x == g) ≡ false → (moved_one.slot x).parent ≡ (doc.slot x).parent
  parent_moved x n =
      ground (arith, parent-place p g reference (detach g doc) x, parent-detach g doc x)

  held_moved : moved_one.held ≡ doc.held
  held_moved = held-place p g reference (detach g doc) ∙ held-detach g doc

  node_data_moved : (x : ℕ) → (moved_one.slot x).node_data ≡ (doc.slot x).node_data
  node_data_moved x = node_data-place p g reference (detach g doc) x ∙ node_data-detach g doc x

  child_moved :
      is_some_of reference g ≡ false → IsChildOf doc p reference → IsChildOf moved_one p reference
  child_moved n h = IsChildOf-kept doc moved_one p g reference parent_moved n h

  one-Tree :
      (f : Forest)
      → Tree doc f
      → MayStand doc p g
      → is_some_of reference g ≡ false
      → IsChildOf doc p reference
      → Tree moved_one (put p g reference (take_out g f))
  one-Tree f tree may n there =
      place-Tree p g reference (detach g doc) (take_out g f) (detach-Tree g doc f tree)
        (ground (arith, parent-detach g doc g))
        (IsChildOf-kept doc (detach g doc) p g reference
          (λ x k. ground (arith, parent-detach g doc x)) n there)
        (record {
          below = rw (held-detach g doc) may.below;
          container = rw (node_data-detach g doc p) may.container;
          child = rw (node_data-detach g doc g) may.child;
          whole = rw (node_data-detach g doc g) may.whole;
          avoids = Avoids-detached doc (detach g doc) g (parent-detach g doc) may.avoids;
        })

  MayStand-moved : (h : ℕ) → MayStand doc p g → MayStand doc p h → MayStand moved_one p h
  MayStand-moved h may also = record {
    below = rw held_moved also.below;
    container = rw (node_data_moved p) also.container;
    child = rw (node_data_moved h) also.child;
    whole = rw (node_data_moved h) also.whole;
    avoids = Avoids-moved doc moved_one parent_moved refl may.avoids also.avoids;
  }

pub move_each-Tree :
    (p : ℕ) (reference : Option ℕ) (gs : List ℕ) (doc : Document) (f : Forest)
    → Tree doc f
    → Distinct gs
    → AllMayStand doc p gs
    → IsApart reference gs
    → IsChildOf doc p reference
    → Tree (move_each p reference gs doc) (moved_lists p reference gs f)
move_each-Tree p reference [] doc f tree d all a there =
    subst (Tree doc) (fun_ext λ q. sym (moved_lists-nil p reference f q)) tree
move_each-Tree p reference (g ∷ gs) doc f tree d all a there =
    let may = all g (ground arith) in
    let rest =
      move_each-Tree p reference gs (moved_one p g reference doc) (put p g reference (take_out g f))
        (one-Tree p g reference doc f tree may a.0 there) d.1
        (λ h k. MayStand-moved p g reference doc h may (all h (ground arith))) a.1
        (child_moved p g reference doc a.0 there) in
    subst (Tree (move_each p reference (g ∷ gs) doc))
      (fun_ext λ q. moved_lists-step p g reference gs f q d.0 a) rest
