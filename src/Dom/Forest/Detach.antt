-- ===== src/Dom/Forest/Detach.antt =====
-- Unlinking a node takes it out of the children of its parent, and out of no other list.
use xenolith.Common.{
  ℕ, ◌≡◌, ◌≢◌, refl, true, false, none, some, arith, ◌==◌, contains, Bool-cases, inl, inr,
}
use xenolith.Dom.{Document}
use xenolith.Dom.Siblings.{
  is_some_of, first_of, last_of, without, without-Distinct, contains-without, without-absent,
  first_of-without_in, after_in-without, before_in-without, last_of-without,
}
use xenolith.Dom.Links.{detach}
use xenolith.Dom.Links.Fields.{
  parent-detach, next-detach, previous-detach, first-detach, last-detach,
}
use xenolith.Dom.Forest.Neighbours.{previous-SameParent, next-SameParent}
use xenolith.Dom.Forest.{Forest, Represents, Stands, take_out}

module _ (c : ℕ) (doc : Document) (f : Forest) (rep : Represents doc f) where
  detach-first : (p : ℕ) → ((detach c doc).slot p).first_child ≡ first_of (without c (f p))
  detach-first p = elim (Bool-cases (contains (f p) c)) [
    | inl h ↦
        let (par, pv, nx) = rep.stands p c h in
        rw (first-detach c doc p, first_of-without_in c (f p) (rep.distinct p) h)
          (ground (arith, par, pv, nx, rep.first p))
    | inr h ↦
        rw (first-detach c doc p, without-absent c (f p) h)
          (ground (arith, rep.first p, rep.listed p c))
  ]

  detach-last : (p : ℕ) → ((detach c doc).slot p).last_child ≡ last_of (without c (f p))
  detach-last p = elim (Bool-cases (contains (f p) c)) [
    | inl h ↦
        let (par, pv, nx) = rep.stands p c h in
        rw (last-detach c doc p, last_of-without c (f p) (rep.distinct p) h)
          (ground (arith, par, pv, nx, rep.last p))
    | inr h ↦
        rw (last-detach c doc p, without-absent c (f p) h)
          (ground (arith, rep.last p, rep.listed p c))
  ]

  -- A node that is no sibling of `c`, nor `c`, keeps its links.
  not_neighbour :
      (x : ℕ)
      → ((q : ℕ) → (doc.slot c).parent ≡ some q → (doc.slot x).parent ≢ some q)
      → (is_some_of (doc.slot c).previous_sibling x ≡ false)
        × (is_some_of (doc.slot c).next_sibling x ≡ false)
  not_neighbour x apart =
      let no_previous : is_some_of (doc.slot c).previous_sibling x ≢ true =
        λ h. let (q, e, k) = previous-SameParent doc f rep c x h in apart q e k in
      let no_next : is_some_of (doc.slot c).next_sibling x ≢ true =
        λ h. let (q, e, k) = next-SameParent doc f rep c x h in apart q e k in
      (ground (arith, no_previous), ground (arith, no_next))

  kept :
      (p x : ℕ)
      → contains (f p) x ≡ true
      → contains (f p) c ≡ false
      → Stands (detach c doc) p x (f p)
  kept p x h k =
      let sx = rep.stands p x h in
      let (a, b) = not_neighbour x (λ q e d. ground (arith, rep.listed p c, sx.0)) in
      (
        ground (arith, parent-detach c doc x, sx.0),
        rw (previous-detach c doc x) (ground (arith, sx.1)),
        rw (next-detach c doc x) (ground (arith, sx.2)),
      )

  detach-stands :
      (p x : ℕ) → contains (without c (f p)) x ≡ true → Stands (detach c doc) p x (without c (f p))
  detach-stands p x h = elim (Bool-cases (contains (f p) c)) [
    | inl k ↦
        let sc = rep.stands p c k in
        let (n, hx) : ((x == c) ≡ false) × (contains (f p) x ≡ true) =
          ground (arith, contains-without c x (f p)) in
        let sx = rep.stands p x hx in
        (
          ground (arith, parent-detach c doc x, sx.0),
          rw (previous-detach c doc x, before_in-without c x (f p) (rep.distinct p) n)
              (ground (arith, sc.1, sc.2, sx.1)),
          rw (next-detach c doc x, after_in-without c x (f p) (rep.distinct p) n)
              (ground (arith, sc.1, sc.2, sx.2)),
        )
    | inr k ↦ rw (without-absent c (f p) k) (kept p x (rw (without-absent c (f p) k) at h) k)
  ]

  detach-alone :
      (x : ℕ)
      → ((detach c doc).slot x).parent ≡ none
      → (((detach c doc).slot x).previous_sibling ≡ none)
        × (((detach c doc).slot x).next_sibling ≡ none)
  detach-alone x h = elim (Bool-cases (c == x)) [
    | inl e ↦ (rw (previous-detach c doc x, e) refl, rw (next-detach c doc x, e) refl)
    | inr e ↦
        let free : (doc.slot x).parent ≡ none = ground (arith, parent-detach c doc x) in
        let (a, b) = not_neighbour x (λ q e d. cc) in
        (
          rw (previous-detach c doc x) (ground (arith, rep.alone x free)),
          rw (next-detach c doc x) (ground (arith, rep.alone x free)),
        )
  ]

  pub detach-Represents : Represents (detach c doc) (take_out c f)
  detach-Represents = record {
    distinct = λ p. without-Distinct c (f p) (rep.distinct p);
    first = detach-first;
    last = detach-last;
    stands = detach-stands;
    listed = λ p x h.
        rw (contains-without c x (f p)) (ground (arith, parent-detach c doc x, rep.listed p x));
    alone = detach-alone;
  }
