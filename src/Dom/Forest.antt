-- ===== src/Dom/Forest.antt =====
-- The tree that the links of a document stand for: the list of the children of every node. It is
-- the abstract view of the arena of crates/xenolith/src/dom/document.rs.
pub mod Neighbours
pub mod Detach
pub mod Attach
use xenolith.Common.{
  ℕ, ◌≤◌, ◌≡◌, Bool, true, false, List, [], ◌∷◌, ◌++◌, Option, none, some, ◌==◌, if◌then◌else◌,
  contains,
}
use xenolith.Dom.{Document}
use xenolith.Dom.Siblings.{first_of, last_of, after_in, before_in, Distinct, without, put_before}

abbrev pub Forest : Type 0
Forest = ℕ → List ℕ

-- The three links of a node among the children of `p`.
abbrev pub Stands : Document → ℕ → ℕ → List ℕ → Type 0
Stands doc p x xs =
    ((doc.slot x).parent ≡ some p)
    × ((doc.slot x).previous_sibling ≡ before_in x xs)
    × ((doc.slot x).next_sibling ≡ after_in x xs)

pub record Represents (doc : Document) (f : Forest) : Type 0 where
  pub distinct : (p : ℕ) → Distinct (f p)
  pub first : (p : ℕ) → (doc.slot p).first_child ≡ first_of (f p)
  pub last : (p : ℕ) → (doc.slot p).last_child ≡ last_of (f p)
  pub stands : (p x : ℕ) → contains (f p) x ≡ true → Stands doc p x (f p)
  pub listed : (p x : ℕ) → (doc.slot x).parent ≡ some p → contains (f p) x ≡ true
  pub alone :
      (x : ℕ)
      → (doc.slot x).parent ≡ none
      → ((doc.slot x).previous_sibling ≡ none) × ((doc.slot x).next_sibling ≡ none)

-- The same changes on the lists.
abbrev pub take_out : ℕ → Forest → Forest
take_out c f p = without c (f p)

abbrev pub put_last : ℕ → ℕ → Forest → Forest
put_last p c f q = if p == q then f q ++ c ∷ [] else f q

abbrev pub put_at : ℕ → ℕ → ℕ → Forest → Forest
put_at p c r f q = if p == q then put_before c r (f q) else f q
