-- ===== src/Dom/Tree/Mutations.antt =====
-- An accepted insertion moves the nodes that it says, and keeps the invariant: `insert_before` of
-- crates/xenolith/src/dom/document.rs.
use xenolith.Common.{
  ℕ, ◌<◌, ◌≡◌, ◌≢◌, refl, subst, true, false, List, [], ◌∷◌, Option, none, some, arith, ◌==◌,
  if◌then◌else◌, contains, ==_iff, Bool-cases, Option-cases, inl, inr,
}
use xenolith.Dom.{Document}
use xenolith.Dom.Siblings.{is_some_of, first_of, Distinct}
use xenolith.Dom.Siblings.Splice.{IsApart}
use xenolith.Dom.Insert.{children, is_fragment, would_cycle, move_in, move_each}
use xenolith.Dom.Rooted.{Avoids}
use xenolith.Dom.Rooted.Avoiding.{Avoids-ne, Avoids-leaf, Avoids-child}
use xenolith.Dom.Tree.{Tree, IsWellFormed, is_ancestor-Avoids}
use xenolith.Dom.Tree.Moves.{IsChildOf, MayStand}
use xenolith.Dom.Tree.Loop.{moved_lists, AllMayStand, move_each-Tree}
use xenolith.Dom.Tree.Accepted.{Accepted}

-- The nodes that an insertion moves: the children of a fragment, or the node itself.
abbrev pub moved : Document → ℕ → List ℕ
moved doc child = if is_fragment (doc.slot child).node_data then children doc child else child ∷ []

move_in-each :
    (p c : ℕ) (reference : Option ℕ) (doc : Document)
    → move_in p c reference doc ≡ move_each p reference (moved doc c) doc
unfolding move_in
move_in-each p c reference doc = elim (Bool-cases (is_fragment (doc.slot c).node_data)) [
  | inl e ↦ rw e refl
  | inr e ↦ rw e refl
]

first_of-none : (y : ℕ) (xs : List ℕ) → first_of xs ≡ none → contains xs y ≡ false
first_of-none y [] h = refl
first_of-none y (x ∷ xs) h = cc

IsApart-all :
    (reference : Option ℕ) (gs : List ℕ)
    → ((g : ℕ) → contains gs g ≡ true → is_some_of reference g ≡ false)
    → IsApart reference gs
IsApart-all reference [] h = tt
IsApart-all reference (g ∷ gs) h =
    (h g (ground arith), IsApart-all reference gs (λ x k. h x (ground arith)))

module _ (doc : Document) (good : IsWellFormed doc) (p c : ℕ) (reference : Option ℕ)
    (accepted : Accepted doc p c reference) (p_held : p < doc.held) (c_held : c < doc.held)
    (other : is_some_of reference c ≡ false) where
  childless : (doc.slot c).first_child ≡ none → (y : ℕ) → (doc.slot y).parent ≢ some c
  childless e y h =
      ground (arith, first_of-none y (children doc c), good.rep.first c, good.rep.listed c y h)

  accepted-Avoids : Avoids doc c p
  unfolding would_cycle
  accepted-Avoids =
      let apart : (p == c) ≡ false = ground (arith, accepted.acyclic, ==_iff p c) in
      elim (Option-cases (doc.slot c).first_child) [
        | inl e ↦ Avoids-leaf doc (childless e) apart (good.rooted p)
        | inr (y, e) ↦
            is_ancestor-Avoids doc (children doc) good c p p_held (ground (arith, accepted.acyclic))
      ]

  moved-Distinct : Distinct (moved doc c)
  moved-Distinct = ground (arith, good.rep.distinct c)

  moved_MayStand : AllMayStand doc p (moved doc c)
  moved_MayStand g h = elim (Bool-cases (is_fragment (doc.slot c).node_data)) [
    | inl e ↦
        let under : (doc.slot g).parent ≡ some c = (good.rep.stands c g (rw e at h)).0 in
        let (container, child, whole) = good.placed g c under in
        record {
          below = ((good.bounded g c under).0, p_held);
          container = accepted.container;
          child = child;
          whole = whole;
          avoids = Avoids-child doc under accepted-Avoids;
        }
    | inr e ↦ subst (MayStand doc p) ((==_iff c g).0 (ground arith)) (record {
      below = (c_held, p_held);
      container = accepted.container;
      child = accepted.child;
      whole = e;
      avoids = accepted-Avoids;
    })
  ]

  moved_apart :
      (reference' : Option ℕ)
      → IsChildOf doc p reference'
      → is_some_of reference' c ≡ false
      → (g : ℕ) → contains (moved doc c) g ≡ true
      → is_some_of reference' g ≡ false
  moved_apart none there n g h = refl
  moved_apart (some r) there n g h = elim (Bool-cases (is_fragment (doc.slot c).node_data)) [
    | inl e ↦
        let under : (doc.slot g).parent ≡ some c = (good.rep.stands c g (rw e at h)).0 in
        ground (arith, ==_iff r g, Avoids-ne doc accepted-Avoids)
    | inr e ↦ ground (arith, ==_iff r g, ==_iff c g)
  ]

  moved-IsApart : IsApart reference (moved doc c)
  moved-IsApart =
      IsApart-all reference (moved doc c) (λ g h. moved_apart reference accepted.there other g h)

  pub move_in-Tree :
      Tree (move_in p c reference doc) (moved_lists p reference (moved doc c) (children doc))
  move_in-Tree = rw (move_in-each p c reference doc) (
      move_each-Tree p reference (moved doc c) doc (children doc) good moved-Distinct moved_MayStand
        moved-IsApart accepted.there)
