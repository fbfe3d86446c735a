-- ===== src/Dom/Forest/Neighbours.antt =====
-- Neighbours among siblings have the same parent.
use xenolith.Common.{
  ℕ, ◌≡◌, refl, true, none, some, arith, contains, Bool-cases, Option-cases, inl, inr,
}
use xenolith.Dom.{Document}
use xenolith.Dom.Siblings.{is_some_of, is_some_of-after_in, is_some_of-before_from}
use xenolith.Dom.Forest.{Forest, Represents}

module _ (doc : Document) (f : Forest) (rep : Represents doc f) (c x : ℕ) where
  abbrev SameParent : Type 0
  SameParent = (q : ℕ) × ((doc.slot c).parent ≡ some q) × ((doc.slot x).parent ≡ some q)

  sibling-SameParent : (q : ℕ) → (doc.slot c).parent ≡ some q → contains (f q) x ≡ true → SameParent
  sibling-SameParent q e h = (q, e, (rep.stands q x h).0)

  pub previous-SameParent : is_some_of (doc.slot c).previous_sibling x ≡ true → SameParent
  previous-SameParent h = elim (Option-cases (doc.slot c).parent) [
    | inl e ↦ absurd (ground (arith, rep.alone c e))
    | inr (q, e) ↦ elim (Bool-cases (contains (f q) x)) [
      | inl k ↦ sibling-SameParent q e k
      | inr k ↦ absurd (
          ground (
            arith,
            (rep.stands q c (rep.listed q c e)).1,
            is_some_of-before_from none c x (f q) k refl,
          ))
    ]
  ]

  pub next-SameParent : is_some_of (doc.slot c).next_sibling x ≡ true → SameParent
  next-SameParent h = elim (Option-cases (doc.slot c).parent) [
    | inl e ↦ absurd (ground (arith, rep.alone c e))
    | inr (q, e) ↦ elim (Bool-cases (contains (f q) x)) [
      | inl k ↦ sibling-SameParent q e k
      | inr k ↦
          absurd
            (ground (arith, (rep.stands q c (rep.listed q c e)).2, is_some_of-after_in c x (f q) k))
    ]
  ]
