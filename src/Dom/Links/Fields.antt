-- ===== src/Dom/Links/Fields.antt =====
-- What `detach`, `link_last` and `link_before` of crates/xenolith/src/dom/document.rs leave in the links
-- of any slot.
use xenolith.Common.{ℕ, ◌≡◌, Option, none, some, arith, ◌==◌, if◌then◌else◌}
use xenolith.Dom.{Document}
use xenolith.Dom.Siblings.{is_some_of}
use xenolith.Dom.Links.{detach, place, link_last, link_before}

module _ (c : ℕ) (doc : Document) where
  pub parent-detach :
      (x : ℕ) → ((detach c doc).slot x).parent ≡ (if c == x then none else (doc.slot x).parent)
  unfolding detach
  parent-detach x = ground arith

  pub next-detach :
      (x : ℕ)
      → ((detach c doc).slot x).next_sibling ≡ (
          if c == x
          then none
          else if is_some_of (doc.slot c).previous_sibling x
          then (doc.slot c).next_sibling
          else (doc.slot x).next_sibling)
  unfolding detach
  next-detach x = ground arith

  pub previous-detach :
      (x : ℕ)
      → ((detach c doc).slot x).previous_sibling ≡ (
          if c == x
          then none
          else if is_some_of (doc.slot c).next_sibling x
          then (doc.slot c).previous_sibling
          else (doc.slot x).previous_sibling)
  unfolding detach
  previous-detach x = ground arith

  pub first-detach :
      (p : ℕ)
      → ((detach c doc).slot p).first_child ≡ elim (doc.slot c).previous_sibling [
        | none ↦
            if is_some_of (doc.slot c).parent p
            then (doc.slot c).next_sibling
            else (doc.slot p).first_child
        | some _ ↦ (doc.slot p).first_child
      ]
  unfolding detach
  first-detach p = ground arith

  pub last-detach :
      (p : ℕ)
      → ((detach c doc).slot p).last_child ≡ elim (doc.slot c).next_sibling [
        | none ↦
            if is_some_of (doc.slot c).parent p
            then (doc.slot c).previous_sibling
            else (doc.slot p).last_child
        | some _ ↦ (doc.slot p).last_child
      ]
  unfolding detach
  last-detach p = ground arith

module _ (p c : ℕ) (doc : Document) where
  pub parent-link_last :
      (x : ℕ)
      → ((link_last p c doc).slot x).parent ≡ (if c == x then some p else (doc.slot x).parent)
  unfolding link_last
  parent-link_last x = ground arith

  pub next-link_last :
      (x : ℕ)
      → ((link_last p c doc).slot x).next_sibling ≡ (
          if is_some_of (doc.slot p).last_child x
          then some c
          else if c == x
          then none
          else (doc.slot x).next_sibling)
  unfolding link_last
  next-link_last x = ground arith

  pub previous-link_last :
      (x : ℕ)
      → ((link_last p c doc).slot x).previous_sibling
        ≡ (if c == x then (doc.slot p).last_child else (doc.slot x).previous_sibling)
  unfolding link_last
  previous-link_last x = ground arith

  pub first-link_last :
      (q : ℕ)
      → ((link_last p c doc).slot q).first_child ≡ elim (doc.slot p).last_child [
        | none ↦ if p == q then some c else (doc.slot q).first_child
        | some _ ↦ (doc.slot q).first_child
      ]
  unfolding link_last
  first-link_last q = ground arith

  pub last-link_last :
      (q : ℕ)
      → ((link_last p c doc).slot q).last_child
        ≡ (if p == q then some c else (doc.slot q).last_child)
  unfolding link_last
  last-link_last q = ground arith

module _ (p c r : ℕ) (doc : Document) where
  pub parent-link_before :
      (x : ℕ)
      → ((link_before p c r doc).slot x).parent ≡ (if c == x then some p else (doc.slot x).parent)
  unfolding link_before
  parent-link_before x = ground arith

  pub next-link_before :
      (x : ℕ)
      → ((link_before p c r doc).slot x).next_sibling ≡ (
          if is_some_of (doc.slot r).previous_sibling x
          then some c
          else if c == x
          then some r
          else (doc.slot x).next_sibling)
  unfolding link_before
  next-link_before x = ground arith

  pub previous-link_before :
      (x : ℕ)
      → ((link_before p c r doc).slot x).previous_sibling ≡ (
          if r == x
          then some c
          else if c == x
          then (doc.slot r).previous_sibling
          else (doc.slot x).previous_sibling)
  unfolding link_before
  previous-link_before x = ground arith

  pub first-link_before :
      (q : ℕ)
      → ((link_before p c r doc).slot q).first_child ≡ elim (doc.slot r).previous_sibling [
        | none ↦ if p == q then some c else (doc.slot q).first_child
        | some _ ↦ (doc.slot q).first_child
      ]
  unfolding link_before
  first-link_before q = ground arith

  pub last-link_before :
      (q : ℕ) → ((link_before p c r doc).slot q).last_child ≡ (doc.slot q).last_child
  unfolding link_before
  last-link_before q = ground arith

pub held-detach : (c : ℕ) (doc : Document) → (detach c doc).held ≡ doc.held
unfolding detach
held-detach c doc = ground arith

pub node_data-detach :
    (c : ℕ) (doc : Document) (x : ℕ) → ((detach c doc).slot x).node_data ≡ (doc.slot x).node_data
unfolding detach
node_data-detach c doc x = ground arith

pub held-place :
    (p c : ℕ) (reference : Option ℕ) (doc : Document) → (place p c reference doc).held ≡ doc.held
unfolding place link_last link_before
held-place p c none doc = ground arith
held-place p c (some r) doc = ground arith

pub node_data-place :
    (p c : ℕ) (reference : Option ℕ) (doc : Document) (x : ℕ)
    → ((place p c reference doc).slot x).node_data ≡ (doc.slot x).node_data
unfolding place link_last link_before
node_data-place p c none doc x = ground arith
node_data-place p c (some r) doc x = ground arith
