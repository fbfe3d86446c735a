-- ===== src/Dtd/Content/Repeat.antt =====
-- `ContentModel::apply`: linking the ends of a fragment back to its starts repeats its words.
use xenolith.Common.{
  ℕ, ◌≤◌, ◌≡◌, refl, sym, ap, ◌∙◌, inl, inr, ◌&&◌, ◌||◌, List, [], ◌∷◌, ◌++◌, arith, or-cases,
  or-left, or-right, and-both, length, contains,
}
use xenolith.Dtd.Content.{
  Occurs, once, optional, zero_or_more, one_or_more, ContentModel, Fragment, link_model, apply,
}
use xenolith.Dtd.Content.Run.{follows}
use xenolith.Dtd.Content.Language.{Words, Concat, Star, done, more, Repeated}
use xenolith.Dtd.Content.Paths.{Tail, Accepts, Denotes, Inside, Alive, follows-link_model}

module _ (lo hi : ℕ) (m : ContentModel) (f : Fragment) (room : hi ≤ length m.follow)
    (inside : Inside lo hi m f) where
  edge :
      (p q : ℕ)
      → contains (follows (link_model f f m) p) q
        ≡ (contains (follows m p) q || (contains f.last p && contains f.first q))
  edge p q = follows-link_model f f m p q (λ l e. let (_, h) = inside.last_in l e in omega arith)

  pub Inside-link : Inside lo hi (link_model f f m) f
  Inside-link = record {
    first_in = inside.first_in;
    last_in = inside.last_in;
    edge_in = λ p q l h e. elim (or-cases _ _ (sym (edge p q) ∙ e)) [
      | inl a ↦ inside.edge_in p q l h a
      | inr a ↦ inside.first_in q (and-both _ _ a).1
    ];
  }

  keeps : (w : List ℕ) (p : ℕ) → Tail m f.last w p → Tail (link_model f f m) f.last w p
  keeps [] p t = t
  keeps (c ∷ w) p (q, e, s, t) = (q, edge p q ∙ or-left _ _ e, s, keeps w q t)

  module _ {L : Words} (is_f : Denotes m f L) where
    -- Where a path goes back from an end to a start for the first time.
    record Round (w : List ℕ) (p : ℕ) : Type 0 where
      front : List ℕ
      back : List ℕ
      splits : w ≡ front ++ back
      in_front : Tail m f.last front p
      in_back : Star L back

    first-Round : (w : List ℕ) (p : ℕ) → Tail (link_model f f m) f.last w p → Round w p
    first-Round [] p t = record {
      front = [];
      back = [];
      splits = refl;
      in_front = t;
      in_back = done;
    }
    first-Round (c ∷ w) p (q, e, s, t) =
        let rest = first-Round w q t in
        elim (or-cases _ _ (sym (edge p q) ∙ e)) [
          | inl inner ↦ record {
            front = c ∷ rest.front;
            back = rest.back;
            splits = ap (◌∷◌ c) rest.splits;
            in_front = (q, inner, s, rest.in_front);
            in_back = rest.in_back;
          }
          | inr outer ↦
              let (a, b) = and-both _ _ outer in
              record {
                front = [];
                back = c ∷ w;
                splits = refl;
                in_front = a;
                in_back =
                    more (ap (◌∷◌ c) rest.splits)
                      (is_f.sound (c ∷ rest.front) (q, b, s, rest.in_front)) rest.in_back;
              }
        ]

    -- A word of the repeated fragment, or none.
    abbrev Rest : List ℕ → Type 0
    Rest [] = Unit {0}
    Rest (c ∷ w) = Accepts (link_model f f m) f (c ∷ w)

    goes_on :
        (u v : List ℕ) (p : ℕ)
        → Tail m f.last u p
        → Rest v
        → Tail (link_model f f m) f.last (u ++ v) p
    goes_on [] [] p t r = t
    goes_on [] (c ∷ v) p t (q, e, s, t') = (q, edge p q ∙ ground arith, s, t')
    goes_on (c ∷ u) v p (q, e, s, t) r = (q, edge p q ∙ or-left _ _ e, s, goes_on u v q t r)

    one_more : (u v w : List ℕ) → w ≡ u ++ v → Accepts m f u → Rest v → Rest w
    one_more [] v w e a r = rw e r
    one_more (c ∷ u) v w e (q, e', s, t) r = rw e (q, e', s, goes_on u v q t r)

    Star-Rest : {w : List ℕ} → Star L w → Rest w
    Star-Rest done = tt
    Star-Rest (more {u} {v} {w} e x y) = one_more u v w e (is_f.complete u x) (Star-Rest y)

    -- The nonempty words.
    Accepts-Concat :
        (c : ℕ) (w : List ℕ) → Accepts (link_model f f m) f (c ∷ w) → Concat L (Star L) (c ∷ w)
    Accepts-Concat c w (q, e, s, t) =
        let round = first-Round w q t in
        record {
          front = c ∷ round.front;
          back = round.back;
          splits = ap (◌∷◌ c) round.splits;
          in_front = is_f.sound (c ∷ round.front) (q, e, s, round.in_front);
          in_back = round.in_back;
        }

    apply_sound :
        (occurs : Occurs) (w : List ℕ)
        → Accepts (apply f occurs m).1 (apply f occurs m).0 w
        → Repeated L occurs w
    unfolding apply
    apply_sound once [] a = is_f.sound [] (ground arith)
    apply_sound once (c ∷ w) a = is_f.sound (c ∷ w) a
    apply_sound optional [] a = inl refl
    apply_sound optional (c ∷ w) a = inr (is_f.sound (c ∷ w) a)
    apply_sound zero_or_more [] a = done
    apply_sound zero_or_more (c ∷ w) a =
        let r = Accepts-Concat c w a in more r.splits r.in_front r.in_back
    apply_sound one_or_more [] a = record {
      front = [];
      back = [];
      splits = refl;
      in_front = is_f.sound [] (ground arith);
      in_back = done;
    }
    apply_sound one_or_more (c ∷ w) a = Accepts-Concat c w a

    Rest-Accepts :
        (w : List ℕ) → Rest w → Accepts (apply f zero_or_more m).1 (apply f zero_or_more m).0 w
    unfolding apply
    Rest-Accepts [] r = or-right _ _ refl
    Rest-Accepts (c ∷ w) r = r

    Concat-Accepts :
        (u v w : List ℕ)
        → w ≡ u ++ v
        → Accepts m f u
        → Rest v
        → Accepts (apply f one_or_more m).1 (apply f one_or_more m).0 w
    unfolding apply
    Concat-Accepts [] [] w e a r = rw e (or-left _ _ a)
    Concat-Accepts [] (c ∷ v) w e a r = rw e r
    Concat-Accepts (c ∷ u) v w e (q, e', s, t) r = rw e (q, e', s, goes_on u v q t r)

    accepts_once : (w : List ℕ) → Accepts m f w → Accepts m (apply f once m).0 w
    unfolding apply
    accepts_once [] a = or-left _ _ a
    accepts_once (c ∷ w) a = a

    accepts_optional : (w : List ℕ) → Accepts m f w → Accepts m (apply f optional m).0 w
    unfolding apply
    accepts_optional [] a = or-right _ _ refl
    accepts_optional (c ∷ w) a = a

    apply_complete :
        (occurs : Occurs) (w : List ℕ)
        → Repeated L occurs w
        → Accepts (apply f occurs m).1 (apply f occurs m).0 w
    apply_complete once w a = unfold apply in accepts_once w (is_f.complete w a)
    apply_complete optional w (inl e) = unfold apply in rw e (or-right _ _ refl)
    apply_complete optional w (inr a) = unfold apply in accepts_optional w (is_f.complete w a)
    apply_complete zero_or_more w a = Rest-Accepts w (Star-Rest a)
    apply_complete one_or_more w a =
        Concat-Accepts a.front a.back w a.splits (is_f.complete a.front a.in_front)
          (Star-Rest a.in_back)

    -- `apply` gives a fragment the meaning of its suffix.
    pub Denotes-apply :
        (occurs : Occurs) → Denotes (apply f occurs m).1 (apply f occurs m).0 (Repeated L occurs)
    Denotes-apply occurs = record { sound = apply_sound occurs; complete = apply_complete occurs }

  pub Inside-apply : (occurs : Occurs) → Inside lo hi (apply f occurs m).1 (apply f occurs m).0
  unfolding apply
  Inside-apply once = record {
    first_in = inside.first_in;
    last_in = inside.last_in;
    edge_in = inside.edge_in;
  }
  Inside-apply optional = record {
    first_in = inside.first_in;
    last_in = inside.last_in;
    edge_in = inside.edge_in;
  }
  Inside-apply zero_or_more = record {
    first_in = Inside-link.first_in;
    last_in = Inside-link.last_in;
    edge_in = Inside-link.edge_in;
  }
  Inside-apply one_or_more = record {
    first_in = Inside-link.first_in;
    last_in = Inside-link.last_in;
    edge_in = Inside-link.edge_in;
  }

  pub Alive-apply :
      (occurs : Occurs) → Alive lo hi m f → Alive lo hi (apply f occurs m).1 (apply f occurs m).0
  unfolding apply
  Alive-apply once a p l h = a p l h
  Alive-apply optional a p l h = a p l h
  Alive-apply zero_or_more a p l h = let (w, t) = a p l h in (w, keeps w p t)
  Alive-apply one_or_more a p l h = let (w, t) = a p l h in (w, keeps w p t)
