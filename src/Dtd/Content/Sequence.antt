-- ===== src/Dtd/Content/Sequence.antt =====
-- One round of the loop of `ContentModel::sequence`: the fragment of what came before, joined to
-- that of the next part, accepts the words of the one followed by the words of the other.
use xenolith.Common.{
  ℕ, ◌≤◌, ◌<◌, ◌≡◌, refl, sym, ap, ◌∙◌, inl, inr, ◌&&◌, ◌||◌, List, [], ◌∷◌, ◌++◌, arith,
  Bool-cases, or-cases, or-left, and-both, length, contains,
}
use native.Mathlib.Decide.{dec_lt}
use xenolith.Dtd.Content.{ContentModel, Fragment, seq_fragment, link_model}
use xenolith.Dtd.Content.Run.{follows}
use xenolith.Dtd.Content.Language.{Words, Concat}
use xenolith.Dtd.Content.Paths.{
  Tail, Accepts, Denotes, Inside, Alive, contains-extend_unique, follows-link_model,
}

contains-first :
    (before part : Fragment) (q : ℕ)
    → contains (seq_fragment before part).first q
      ≡ (contains before.first q || (before.nullable && contains part.first q))
unfolding seq_fragment
contains-first before part q = elim (Bool-cases before.nullable) [
  | inl e ↦ rw (e, contains-extend_unique) refl
  | inr e ↦ rw e (ground arith)
]

contains-last :
    (before part : Fragment) (q : ℕ)
    → contains (seq_fragment before part).last q
      ≡ (contains part.last q || (part.nullable && contains before.last q))
unfolding seq_fragment
contains-last before part q = elim (Bool-cases part.nullable) [
  | inl e ↦ rw (e, contains-extend_unique) (ground arith)
  | inr e ↦ rw e (ground arith)
]

module _ (lo mid hi : ℕ) (m : ContentModel) (before part : Fragment) (low : lo ≤ mid)
    (high : mid ≤ hi) (room : hi ≤ length m.follow) (left : Inside lo mid m before)
    (right : Inside mid hi m part) where
  edge :
      (p q : ℕ)
      → contains (follows (link_model before part m) p) q
        ≡ (contains (follows m p) q || (contains before.last p && contains part.first q))
  edge p q =
      follows-link_model before part m p q (λ l e. let (_, h) = left.last_in l e in omega arith)

  -- Where a path from a position of the left fragment leaves it.
  record Cut (w : List ℕ) (p : ℕ) : Type 0 where
    front : List ℕ
    back : List ℕ
    splits : w ≡ front ++ back
    in_front : Tail m before.last front p
    in_back : Accepts m part back

  from_right :
      (w : List ℕ) (p : ℕ)
      → mid ≤ p
      → p < hi
      → Tail (link_model before part m) (seq_fragment before part).last w p
      → Tail m part.last w p
  from_right [] p l h t = elim (or-cases _ _ (sym (contains-last before part p) ∙ t)) [
    | inl e ↦ e
    | inr e ↦ absurd (let (_, b) = left.last_in p (and-both _ _ e).1 in omega arith)
  ]
  from_right (c ∷ w) p l h (q, e, s, t) = elim (or-cases _ _ (sym (edge p q) ∙ e)) [
    | inl inner ↦
        let (l', h') = right.edge_in p q l h inner in (q, inner, s, from_right w q l' h' t)
    | inr outer ↦ absurd (let (_, b) = left.last_in p (and-both _ _ outer).0 in omega arith)
  ]

  from_left :
      (w : List ℕ) (p : ℕ)
      → lo ≤ p
      → p < mid
      → Tail (link_model before part m) (seq_fragment before part).last w p
      → Cut w p
  from_left [] p l h t = elim (or-cases _ _ (sym (contains-last before part p) ∙ t)) [
    | inl e ↦ absurd (let (b, _) = right.last_in p e in omega arith)
    | inr e ↦
        let (n, b) = and-both _ _ e in
        record { front = []; back = []; splits = refl; in_front = b; in_back = n }
  ]
  from_left (c ∷ w) p l h (q, e, s, t) = elim (or-cases _ _ (sym (edge p q) ∙ e)) [
    | inl inner ↦
        let (l', h') = left.edge_in p q l h inner in
        let rest = from_left w q l' h' t in
        record {
          front = c ∷ rest.front;
          back = rest.back;
          splits = ap (◌∷◌ c) rest.splits;
          in_front = (q, inner, s, rest.in_front);
          in_back = rest.in_back;
        }
    | inr outer ↦
        let (a, b) = and-both _ _ outer in
        let (l', h') = right.first_in q b in
        record {
          front = [];
          back = c ∷ w;
          splits = refl;
          in_front = a;
          in_back = (q, b, s, from_right w q l' h' t);
        }
  ]

  to_right :
      (w : List ℕ) (p : ℕ)
      → Tail m part.last w p
      → Tail (link_model before part m) (seq_fragment before part).last w p
  to_right [] p t = contains-last before part p ∙ or-left _ _ t
  to_right (c ∷ w) p (q, e, s, t) = (q, edge p q ∙ or-left _ _ e, s, to_right w q t)

  to_left :
      (u v : List ℕ) (p : ℕ)
      → Tail m before.last u p
      → Accepts m part v
      → Tail (link_model before part m) (seq_fragment before part).last (u ++ v) p
  to_left [] [] p t a = contains-last before part p ∙ ground arith
  to_left [] (c ∷ v) p t (q, e, s, t') = (q, edge p q ∙ ground arith, s, to_right v q t')
  to_left (c ∷ u) v p (q, e, s, t) a = (q, edge p q ∙ or-left _ _ e, s, to_left u v q t a)

  module _ {K L : Words} (is_left : Denotes m before K) (is_right : Denotes m part L) where
    seq_sound :
        (w : List ℕ)
        → Accepts (link_model before part m) (seq_fragment before part) w
        → Concat K L w
    unfolding seq_fragment
    seq_sound [] a =
        let (n, n') = and-both _ _ a in
        record {
          front = [];
          back = [];
          splits = refl;
          in_front = is_left.sound [] n;
          in_back = is_right.sound [] n';
        }
    seq_sound (c ∷ w) (q, e, s, t) = elim (or-cases _ _ (sym (contains-first before part q) ∙ e)) [
      | inl inner ↦
          let (l, h) = left.first_in q inner in
          let cut = from_left w q l h t in
          record {
            front = c ∷ cut.front;
            back = cut.back;
            splits = ap (◌∷◌ c) cut.splits;
            in_front = is_left.sound (c ∷ cut.front) (q, inner, s, cut.in_front);
            in_back = is_right.sound cut.back cut.in_back;
          }
      | inr outer ↦
          let (n, b) = and-both _ _ outer in
          let (l, h) = right.first_in q b in
          record {
            front = [];
            back = c ∷ w;
            splits = refl;
            in_front = is_left.sound [] n;
            in_back = is_right.sound (c ∷ w) (q, b, s, from_right w q l h t);
          }
    ]

    seq_accepts :
        (u v : List ℕ)
        → Accepts m before u
        → Accepts m part v
        → Accepts (link_model before part m) (seq_fragment before part) (u ++ v)
    seq_accepts [] [] a b = unfold seq_fragment in ground arith
    seq_accepts [] (c ∷ v) a (q, e, s, t) =
        (q, contains-first before part q ∙ ground arith, s, to_right v q t)
    seq_accepts (c ∷ u) v (q, e, s, t) b =
        (q, contains-first before part q ∙ or-left _ _ e, s, to_left u v q t b)

    pub Denotes-sequence :
        Denotes (link_model before part m) (seq_fragment before part) (Concat K L)
    Denotes-sequence = record {
      sound = seq_sound;
      complete = λ w h. rw h.splits (
          seq_accepts h.front h.back (is_left.complete h.front h.in_front)
            (is_right.complete h.back h.in_back));
    }

  -- The joined fragment lies in the two ranges together.
  pub Inside-sequence : Inside lo hi (link_model before part m) (seq_fragment before part)
  Inside-sequence = record {
    first_in = λ q e. elim (or-cases _ _ (sym (contains-first before part q) ∙ e)) [
      | inl a ↦ let (l, h) = left.first_in q a in (l, omega arith)
      | inr a ↦ let (l, h) = right.first_in q (and-both _ _ a).1 in (omega arith, h)
    ];
    last_in = λ q e. elim (or-cases _ _ (sym (contains-last before part q) ∙ e)) [
      | inl a ↦ let (l, h) = right.last_in q a in (omega arith, h)
      | inr a ↦ let (l, h) = left.last_in q (and-both _ _ a).1 in (l, omega arith)
    ];
    edge_in = λ p q l h e. elim (or-cases _ _ (sym (edge p q) ∙ e)) [
      | inl a ↦ elim (dec_lt p mid) [
        | yes near ↦ let (l', h') = left.edge_in p q l near a in (l', omega arith)
        | no far ↦ let (l', h') = right.edge_in p q (omega arith) h a in (omega arith, h')
      ]
      | inr a ↦ let (l', h') = right.first_in q (and-both _ _ a).1 in (omega arith, h')
    ];
  }

  pub Alive-sequence :
      Alive lo mid m before
      → Alive mid hi m part
      → (v : List ℕ) × Accepts m part v
      → Alive lo hi (link_model before part m) (seq_fragment before part)
  Alive-sequence a b (v, accepted) p l h = elim (dec_lt p mid) [
    | yes near ↦ let (u, t) = a p l near in (u ++ v, to_left u v p t accepted)
    | no far ↦ let (w, t) = b p (omega arith) h in (w, to_right w p t)
  ]
