-- ===== src/Dom/Forest/Attach.antt =====
-- Linking a detached node puts it into the children of its new parent, at the end or before a node
-- there, and into no other list.
use xenolith.Common.{
  subst, ==_iff, ℕ, ◌≡◌, refl, true, false, [], ◌∷◌, ◌++◌, none, some, arith, ◌==◌, contains,
  contains-append, Bool-cases, inl, inr,
}
use xenolith.Dom.{Document}
use xenolith.Dom.Siblings.{before_in, after_in-absent, put_before, is_some_of-before_from}
use xenolith.Dom.Siblings.Put.{
  contains-put_before, put_before-Distinct, append-Distinct, is_some_of-last_from, after_in-append,
  before_from-append, first_of-append, last_from-append, after_in-put_before,
  before_from-put_before, first_of-put_before_in, last_from-put_before,
}
use xenolith.Dom.Links.{link_last, link_before}
use xenolith.Dom.Links.Fields.{
  parent-link_last, next-link_last, previous-link_last, first-link_last, last-link_last,
  parent-link_before, next-link_before, previous-link_before, first-link_before, last-link_before,
}
use xenolith.Dom.Forest.{Forest, Represents, Stands, put_last, put_at}

-- A node with no parent is in no list.
unlisted :
    (doc : Document) (f : Forest) (rep : Represents doc f) (x : ℕ)
    → (doc.slot x).parent ≡ none
    → (q : ℕ) → contains (f q) x ≡ false
unlisted doc f rep x h q = elim (Bool-cases (contains (f q) x)) [
  | inl k ↦ absurd (ground (arith, (rep.stands q x k).0))
  | inr k ↦ k
]

-- No node is in the lists of two parents.
elsewhere :
    (doc : Document) (f : Forest) (rep : Represents doc f) (p q x : ℕ)
    → (p == q) ≡ false
    → contains (f q) x ≡ true
    → contains (f p) x ≡ false
elsewhere doc f rep p q x n h = elim (Bool-cases (contains (f p) x)) [
  | inl k ↦ absurd (ground (arith, (rep.stands p x k).0, (rep.stands q x h).0))
  | inr k ↦ k
]

module _ (p c : ℕ) (doc : Document) (f : Forest) (rep : Represents doc f)
    (free : (doc.slot c).parent ≡ none) where
  last_stands :
      (x : ℕ) → contains (f p ++ c ∷ []) x ≡ true → Stands (link_last p c doc) p x (f p ++ c ∷ [])
  last_stands x h =
      let out = unlisted doc f rep c free p in
      let sx : (c == x) ≡ false → Stands doc p x (f p) =
        λ n. rep.stands p x (ground (arith, contains-append (f p) (c ∷ []) x)) in
      (
        rw (parent-link_last p c doc x) (ground (arith, sx)),
        rw (previous-link_last p c doc x, before_from-append none c x (f p) out)
            (ground (arith, sx, rep.last p)),
        rw
            (
              next-link_last p c doc x,
              after_in-append none c x (f p) (rep.distinct p) out refl,
              rep.last p,
            )
            (ground
              (arith, sx, after_in-absent c (f p) out, is_some_of-last_from none c (f p) out refl)),
      )

  last_kept :
      (q x : ℕ) → (p == q) ≡ false → contains (f q) x ≡ true → Stands (link_last p c doc) q x (f q)
  last_kept q x n h =
      let sx = rep.stands q x h in
      let away = is_some_of-last_from none x (f p) (elsewhere doc f rep p q x n h) refl in
      (
        rw (parent-link_last p c doc x) (ground (arith, sx.0)),
        rw (previous-link_last p c doc x) (ground (arith, sx.1, unlisted doc f rep c free q)),
        rw (next-link_last p c doc x, rep.last p, away)
            (ground (arith, sx.2, unlisted doc f rep c free q)),
      )

  last_alone :
      (x : ℕ)
      → ((link_last p c doc).slot x).parent ≡ none
      → (((link_last p c doc).slot x).previous_sibling ≡ none)
        × (((link_last p c doc).slot x).next_sibling ≡ none)
  last_alone x h =
      let (n, e) : ((c == x) ≡ false) × ((doc.slot x).parent ≡ none) =
        ground (arith, parent-link_last p c doc x) in
      let away = is_some_of-last_from none x (f p) (unlisted doc f rep x e p) refl in
      (
        rw (previous-link_last p c doc x, n) (rep.alone x e).0,
        rw (next-link_last p c doc x, rep.last p, away, n) (rep.alone x e).1,
      )

  last_listed :
      (q x : ℕ)
      → contains (put_last p c f q) x ≡ true
      → Stands (link_last p c doc) q x (put_last p c f q)
  last_listed q x h = elim (Bool-cases (p == q)) [
    | inl e ↦ rw e (
        subst
          (λ t. contains (f t ++ c ∷ []) x ≡ true → Stands (link_last p c doc) t x (f t ++ c ∷ []))
          ((==_iff p q).0 e) (last_stands x) (rw e at h))
    | inr e ↦ rw e (last_kept q x e (rw e at h))
  ]

  pub link_last-Represents : Represents (link_last p c doc) (put_last p c f)
  link_last-Represents = record {
    distinct =
        λ q. ground (arith, rep.distinct q, append-Distinct c (f q), unlisted doc f rep c free q);
    first = λ q.
        rw (first-link_last p c doc q, rep.last p)
          (ground (arith, rep.first q, first_of-append c (f q)));
    last = λ q.
        rw (last-link_last p c doc q) (ground (arith, rep.last q, last_from-append none c (f q)));
    stands = last_listed;
    listed = λ q x h.
        ground
          (arith, parent-link_last p c doc x, rep.listed q x, contains-append (f q) (c ∷ []) x);
    alone = last_alone;
  }

module _ (p c r : ℕ) (doc : Document) (f : Forest) (rep : Represents doc f)
    (free : (doc.slot c).parent ≡ none) (there : (doc.slot r).parent ≡ some p) where
  before_reference : (doc.slot r).previous_sibling ≡ before_in r (f p)
  before_reference = (rep.stands p r (rep.listed p r there)).1

  before_stands :
      (x : ℕ)
      → contains (put_before c r (f p)) x ≡ true
      → Stands (link_before p c r doc) p x (put_before c r (f p))
  before_stands x h =
      let out = unlisted doc f rep c free p in
      let here = rep.listed p r there in
      let sx : (c == x) ≡ false → Stands doc p x (f p) =
        λ n. rep.stands p x (ground (arith, contains-put_before c r x (f p) here)) in
      (
        rw (parent-link_before p c r doc x) (ground (arith, sx)),
        rw
            (
              previous-link_before p c r doc x,
              before_from-put_before none c r x (f p) (rep.distinct p) out here,
            )
            (ground (arith, sx, before_reference)),
        rw
            (
              next-link_before p c r doc x,
              after_in-put_before none c r x (f p) (rep.distinct p) out here refl,
              before_reference,
            )
            (ground (arith, sx, is_some_of-before_from none r c (f p) out refl)),
      )

  before_kept :
      (q x : ℕ)
      → (p == q) ≡ false
      → contains (f q) x ≡ true
      → Stands (link_before p c r doc) q x (f q)
  before_kept q x n h =
      let sx = rep.stands q x h in
      let absent = elsewhere doc f rep p q x n h in
      let away = is_some_of-before_from none r x (f p) absent refl in
      let out = unlisted doc f rep c free q in
      let here = rep.listed p r there in
      (
        rw (parent-link_before p c r doc x) (ground (arith, sx.0)),
        rw (previous-link_before p c r doc x) (ground (arith, sx.1)),
        rw (next-link_before p c r doc x, before_reference, away) (ground (arith, sx.2)),
      )

  before_alone :
      (x : ℕ)
      → ((link_before p c r doc).slot x).parent ≡ none
      → (((link_before p c r doc).slot x).previous_sibling ≡ none)
        × (((link_before p c r doc).slot x).next_sibling ≡ none)
  before_alone x h =
      let (n, e) : ((c == x) ≡ false) × ((doc.slot x).parent ≡ none) =
        ground (arith, parent-link_before p c r doc x) in
      let away = is_some_of-before_from none r x (f p) (unlisted doc f rep x e p) refl in
      (
        rw (previous-link_before p c r doc x, n) (ground (arith, (rep.alone x e).0)),
        rw (next-link_before p c r doc x, before_reference, away, n) (rep.alone x e).1,
      )

  before_listed :
      (q x : ℕ)
      → contains (put_at p c r f q) x ≡ true
      → Stands (link_before p c r doc) q x (put_at p c r f q)
  before_listed q x h = elim (Bool-cases (p == q)) [
    | inl e ↦ rw e (
        subst
          (λ t.
            contains (put_before c r (f t)) x ≡ true
            → Stands (link_before p c r doc) t x (put_before c r (f t)))
          ((==_iff p q).0 e) (before_stands x) (rw e at h))
    | inr e ↦ rw e (before_kept q x e (rw e at h))
  ]

  pub link_before-Represents : Represents (link_before p c r doc) (put_at p c r f)
  link_before-Represents =
      let here = rep.listed p r there in
      record {
        distinct = λ q. ground (
          arith,
          rep.distinct q,
          put_before-Distinct c r (f q),
          unlisted doc f rep c free q,
          here,
        );
        first = λ q.
            rw (first-link_before p c r doc q, before_reference)
              (ground (arith, rep.first q, first_of-put_before_in c r (f q), here));
        last = λ q.
            rw (last-link_before p c r doc q)
              (ground (arith, rep.last q, last_from-put_before none c r (f q), here));
        stands = before_listed;
        listed = λ q x h. ground (
          arith,
          parent-link_before p c r doc x,
          rep.listed q x,
          contains-put_before c r x (f q),
          here,
        );
        alone = before_alone;
      }
