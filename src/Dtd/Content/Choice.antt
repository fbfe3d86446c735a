-- ===== src/Dtd/Content/Choice.antt =====
-- One round of the loop of `ContentModel::choice`: the merged fragment accepts the words of either.
use native.Mathlib.Decide.{dec_lt}
use xenolith.Common.{
  ℕ, ◌≤◌, ◌<◌, ◌≡◌, sym, ◌∙◌, ◌⊎◌, inl, inr, ◌||◌, List, [], ◌∷◌, arith, or-cases, or-left,
  or-right, contains,
}
use xenolith.Dtd.Content.{ContentModel, Fragment, choice_fragment}
use xenolith.Dtd.Content.Language.{Words}
use xenolith.Dtd.Content.Paths.{Tail, Accepts, Denotes, Inside, Alive, contains-extend_unique}

contains-first :
    (before part : Fragment) (q : ℕ)
    → contains (choice_fragment before part).first q
      ≡ (contains before.first q || contains part.first q)
unfolding choice_fragment
contains-first before part q = contains-extend_unique part.first before.first q

contains-last :
    (before part : Fragment) (q : ℕ)
    → contains (choice_fragment before part).last q
      ≡ (contains before.last q || contains part.last q)
unfolding choice_fragment
contains-last before part q = contains-extend_unique part.last before.last q

module _ (lo mid hi : ℕ) (m : ContentModel) (before part : Fragment) (low : lo ≤ mid)
    (high : mid ≤ hi) (left : Inside lo mid m before) (right : Inside mid hi m part) where
  from_left :
      (w : List ℕ) (p : ℕ)
      → lo ≤ p
      → p < mid
      → Tail m (choice_fragment before part).last w p
      → Tail m before.last w p
  from_left [] p l h t = elim (or-cases _ _ (sym (contains-last before part p) ∙ t)) [
    | inl e ↦ e
    | inr e ↦ absurd (let (b, _) = right.last_in p e in omega arith)
  ]
  from_left (c ∷ w) p l h (q, e, s, t) =
      let (l', h') = left.edge_in p q l h e in (q, e, s, from_left w q l' h' t)

  from_right :
      (w : List ℕ) (p : ℕ)
      → mid ≤ p
      → p < hi
      → Tail m (choice_fragment before part).last w p
      → Tail m part.last w p
  from_right [] p l h t = elim (or-cases _ _ (sym (contains-last before part p) ∙ t)) [
    | inl e ↦ absurd (let (_, b) = left.last_in p e in omega arith)
    | inr e ↦ e
  ]
  from_right (c ∷ w) p l h (q, e, s, t) =
      let (l', h') = right.edge_in p q l h e in (q, e, s, from_right w q l' h' t)

  to_left :
      (w : List ℕ) (p : ℕ) → Tail m before.last w p → Tail m (choice_fragment before part).last w p
  to_left [] p t = contains-last before part p ∙ or-left _ _ t
  to_left (c ∷ w) p (q, e, s, t) = (q, e, s, to_left w q t)

  to_right :
      (w : List ℕ) (p : ℕ) → Tail m part.last w p → Tail m (choice_fragment before part).last w p
  to_right [] p t = contains-last before part p ∙ or-right _ _ t
  to_right (c ∷ w) p (q, e, s, t) = (q, e, s, to_right w q t)

  choice_sound :
      (w : List ℕ)
      → Accepts m (choice_fragment before part) w
      → Accepts m before w ⊎ Accepts m part w
  unfolding choice_fragment
  choice_sound [] a = or-cases _ _ a
  choice_sound (c ∷ w) (q, e, s, t) = elim (or-cases _ _ (sym (contains-first before part q) ∙ e)) [
    | inl a ↦ let (l, h) = left.first_in q a in inl (q, a, s, from_left w q l h t)
    | inr a ↦ let (l, h) = right.first_in q a in inr (q, a, s, from_right w q l h t)
  ]

  accepts_left : (w : List ℕ) → Accepts m before w → Accepts m (choice_fragment before part) w
  unfolding choice_fragment
  accepts_left [] a = or-left _ _ a
  accepts_left (c ∷ w) (q, e, s, t) =
      (q, contains-first before part q ∙ or-left _ _ e, s, to_left w q t)

  accepts_right : (w : List ℕ) → Accepts m part w → Accepts m (choice_fragment before part) w
  unfolding choice_fragment
  accepts_right [] a = or-right _ _ a
  accepts_right (c ∷ w) (q, e, s, t) =
      (q, contains-first before part q ∙ or-right _ _ e, s, to_right w q t)

  pub Denotes-choice :
      {K L : Words}
      → Denotes m before K
      → Denotes m part L
      → Denotes m (choice_fragment before part) (λ w. K w ⊎ L w)
  Denotes-choice k l = record {
    sound =
        λ w a. elim (choice_sound w a) [ inl b ↦ inl (k.sound w b) | inr b ↦ inr (l.sound w b) ];
    complete = λ w a. elim a [
      | inl b ↦ accepts_left w (k.complete w b)
      | inr b ↦ accepts_right w (l.complete w b)
    ];
  }

  pub Inside-choice : Inside lo hi m (choice_fragment before part)
  Inside-choice = record {
    first_in = λ q e. elim (or-cases _ _ (sym (contains-first before part q) ∙ e)) [
      | inl a ↦ let (l, h) = left.first_in q a in (l, omega arith)
      | inr a ↦ let (l, h) = right.first_in q a in (omega arith, h)
    ];
    last_in = λ q e. elim (or-cases _ _ (sym (contains-last before part q) ∙ e)) [
      | inl a ↦ let (l, h) = left.last_in q a in (l, omega arith)
      | inr a ↦ let (l, h) = right.last_in q a in (omega arith, h)
    ];
    edge_in = λ p q l h e. elim (dec_lt p mid) [
      | yes near ↦ let (l', h') = left.edge_in p q l near e in (l', omega arith)
      | no far ↦ let (l', h') = right.edge_in p q (omega arith) h e in (omega arith, h')
    ];
  }

  pub Alive-choice :
      Alive lo mid m before → Alive mid hi m part → Alive lo hi m (choice_fragment before part)
  Alive-choice a b p l h = elim (dec_lt p mid) [
    | yes near ↦ let (w, t) = a p l near in (w, to_left w p t)
    | no far ↦ let (w, t) = b p (omega arith) h in (w, to_right w p t)
  ]
