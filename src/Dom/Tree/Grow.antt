-- ===== src/Dom/Tree/Grow.antt =====
-- A new node, and a change that leaves the links alone, keep the tree: the constructors and the
-- attribute methods of crates/xenolith/src/dom/document.rs.
use xenolith.Common.{
  ℕ, ◌≤◌, ◌<◌, ◌≡◌, refl, sym, ◌∙◌, ap, subst, false, List, [], ◌∷◌, none, arith, ◌==◌, ==_iff,
  Bool-cases, Option-cases, inl, inr,
}
use xenolith.Dom.{Document, NodeData, is_container, can_be_child}
use xenolith.Dom.Siblings.{first_of, last_of}
use xenolith.Dom.Forest.{Forest, Represents}
use xenolith.Dom.Insert.{is_fragment}
use xenolith.Dom.Rooted.{Rooted, top, under}
use xenolith.Dom.Tree.{Tree, IsWellFormed, Tree-IsWellFormed}
use xenolith.Dom.Action.{add_slot, new_document}

-- The same five links at every index.
abbrev pub SameLinks : Document → Document → Type 0
SameLinks doc doc' =
    (x : ℕ)
    → ((doc'.slot x).parent ≡ (doc.slot x).parent)
      × ((doc'.slot x).first_child ≡ (doc.slot x).first_child)
      × ((doc'.slot x).last_child ≡ (doc.slot x).last_child)
      × ((doc'.slot x).previous_sibling ≡ (doc.slot x).previous_sibling)
      × ((doc'.slot x).next_sibling ≡ (doc.slot x).next_sibling)

-- What decides where a node may stand.
abbrev pub SameKind : NodeData → NodeData → Type 0
SameKind d e =
    (is_container e ≡ is_container d)
    × (can_be_child e ≡ can_be_child d)
    × (is_fragment e ≡ is_fragment d)

module _ (doc doc' : Document) (same : SameLinks doc doc') where
  Represents-same : (f : Forest) → Represents doc f → Represents doc' f
  Represents-same f rep = record {
    distinct = rep.distinct;
    first = λ p. (same p).1 ∙ rep.first p;
    last = λ p. (same p).2 ∙ rep.last p;
    stands =
        λ p x h. let s = rep.stands p x h in ((same x).0 ∙ s.0, (same x).3 ∙ s.1, (same x).4 ∙ s.2);
    listed = λ p x h. rep.listed p x (sym (same x).0 ∙ h);
    alone = λ x h. let a = rep.alone x (sym (same x).0 ∙ h) in ((same x).3 ∙ a.0, (same x).4 ∙ a.1);
  }

  Rooted-same : {x : ℕ} → Rooted doc x → Rooted doc' x
  Rooted-same {x} (top e) = top ((same x).0 ∙ e)
  Rooted-same {x} (under e r) = under ((same x).0 ∙ e) (Rooted-same r)

  pub Tree-same :
      (f : Forest)
      → doc.held ≤ doc'.held
      → ((x : ℕ) → x < doc.held → SameKind (doc.slot x).node_data (doc'.slot x).node_data)
      → Tree doc f
      → Tree doc' f
  Tree-same f more kind tree = record {
    rep = Represents-same f tree.rep;
    rooted = λ x. Rooted-same (tree.rooted x);
    bounded = λ x p h. let b = tree.bounded x p (sym (same x).0 ∙ h) in (omega arith, omega arith);
    placed = λ x p h.
        let e = sym (same x).0 ∙ h in
        let (bx, bp) = tree.bounded x p e in
        let (container, child, whole) = tree.placed x p e in
        ((kind p bp).0 ∙ container, (kind x bx).1 ∙ child, (kind x bx).2 ∙ whole);
  }

module _ (doc : Document) (f : Forest) (tree : Tree doc f) where
  fresh_parent : (doc.slot doc.held).parent ≡ none
  fresh_parent = elim (Option-cases (doc.slot doc.held).parent) [
    | inl e ↦ e
    | inr (p, e) ↦ absurd (omega (arith, (tree.bounded doc.held p e).0))
  ]

  fresh_list : (xs : List ℕ) → f doc.held ≡ xs → xs ≡ []
  fresh_list [] e = refl
  fresh_list (x ∷ xs) e = absurd (
      omega
        (arith, (tree.bounded x doc.held (tree.rep.stands doc.held x (rw e (ground arith))).0).1))

  abbrev NoLinks : ℕ → Type 0
  NoLinks x =
      ((doc.slot x).parent ≡ none)
      × ((doc.slot x).first_child ≡ none)
      × ((doc.slot x).last_child ≡ none)
      × ((doc.slot x).previous_sibling ≡ none)
      × ((doc.slot x).next_sibling ≡ none)

  fresh-NoLinks : NoLinks doc.held
  fresh-NoLinks =
      let nothing = fresh_list (f doc.held) refl in
      let alone = tree.rep.alone doc.held fresh_parent in
      (
        fresh_parent,
        tree.rep.first doc.held ∙ ap first_of nothing,
        tree.rep.last doc.held ∙ ap last_of nothing,
        alone.0,
        alone.1,
      )

  add_slot-SameLinks : (payload : NodeData) → SameLinks doc (add_slot payload doc)
  add_slot-SameLinks payload x = elim (Bool-cases (doc.held == x)) [
    | inl e ↦
        let (a, b, c, d, n) = subst NoLinks ((==_iff doc.held x).0 e) fresh-NoLinks in
        rw e (sym a, sym b, sym c, sym d, sym n)
    | inr e ↦ rw e (refl, refl, refl, refl, refl)
  ]

  pub add_slot-Tree : (payload : NodeData) → Tree (add_slot payload doc) f
  add_slot-Tree payload =
      Tree-same doc (add_slot payload doc) (add_slot-SameLinks payload) f (omega arith)
        (λ x b. let ne : (doc.held == x) ≡ false = ground arith in rw ne (refl, refl, refl)) tree

-- The document that a program starts with is well formed.
new_document-Tree : (id pool_id : ℕ) → Tree (new_document id pool_id) (λ _. [])
unfolding new_document
new_document-Tree id pool_id = record {
  rep = record {
    distinct = λ p. tt;
    first = λ p. refl;
    last = λ p. refl;
    stands = λ p x h. cc;
    listed = λ p x h. cc;
    alone = λ x h. (refl, refl);
  };
  rooted = λ x. top refl;
  bounded = λ x p h. cc;
  placed = λ x p h. cc;
}

pub new_document-IsWellFormed : (id pool_id : ℕ) → IsWellFormed (new_document id pool_id)
new_document-IsWellFormed id pool_id =
    Tree-IsWellFormed (new_document id pool_id) (λ _. []) (new_document-Tree id pool_id)
