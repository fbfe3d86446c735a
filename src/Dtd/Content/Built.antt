-- ===== src/Dtd/Content/Built.antt =====
-- What a part of a content model is built as, and the parts of one position or one suffix:
-- `ContentModel::build` and `apply` of crates/xenolith/src/dtd/validate/content.rs.
use mathlib.Core.List.{append_assoc}
use xenolith.Common.{
  ℕ, ◌≤◌, ◌≡◌, refl, sym, ap, ◌∙◌, ◌↔◌, inl, inr, Bool-cases, append-nil, List, [], ◌∷◌, ◌++◌,
  arith, length, length-append, get_or-append_left, get_or-append_last, contains,
}
use xenolith.Dtd.Content.{
  Occurs, once, optional, zero_or_more, one_or_more, ContentModel, Fragment, link_model, apply,
  name_fragment, push_position,
}
use xenolith.Dtd.Content.Run.{symbol, follows}
use xenolith.Dtd.Content.Language.{Words, Concat, Repeated}
use xenolith.Dtd.Content.Paths.{
  length-link, Accepts, Denotes, positions, Inside, Agrees, follows-link_model,
}
use xenolith.Dtd.Content.Repeat.{Denotes-apply, Inside-apply}

abbrev pub IsSized : ContentModel → Type 0
IsSized m = length m.follow ≡ positions m

-- What has been built from position `lo` on, in a model that was `m` before.
pub record Built (lo : ℕ) (m : ContentModel) (r : Fragment × ContentModel) (L : Words)
    : Type 0 where
  pub sized : IsSized r.1
  pub starts : lo ≤ positions m
  pub grows : positions m ≤ positions r.1
  pub kept : Agrees 0 lo m r.1
  pub inside : Inside lo (positions r.1) r.1 r.0
  pub denotes : Denotes r.1 r.0 L

pub Denotes-map :
    {m : ContentModel} {f : Fragment} {K L : Words}
    → ((w : List ℕ) → K w ↔ L w)
    → Denotes m f K
    → Denotes m f L
Denotes-map h d = record {
  sound = λ w a. (h w).0 (d.sound w a);
  complete = λ w a. d.complete w ((h w).1 a);
}

pub Built-map :
    {lo : ℕ} {m : ContentModel} {r : Fragment × ContentModel} {K L : Words}
    → ((w : List ℕ) → K w ↔ L w)
    → Built lo m r K
    → Built lo m r L
Built-map h b = record {
  sized = b.sized;
  starts = b.starts;
  grows = b.grows;
  kept = b.kept;
  inside = b.inside;
  denotes = Denotes-map h b.denotes;
}

pub Concat-assoc : (J K L : Words) (w : List ℕ) → Concat (Concat J K) L w ↔ Concat J (Concat K L) w
Concat-assoc J K L w = (
  λ h. record {
    front = h.in_front.front;
    back = h.in_front.back ++ h.back;
    splits =
        h.splits
        ∙ ap (λ u. u ++ h.back) h.in_front.splits
        ∙ append_assoc h.in_front.front h.in_front.back h.back;
    in_front = h.in_front.in_front;
    in_back = record {
      front = h.in_front.back;
      back = h.back;
      splits = refl;
      in_front = h.in_front.in_back;
      in_back = h.in_back;
    };
  },
  λ h. record {
    front = h.front ++ h.in_back.front;
    back = h.in_back.back;
    splits =
        h.splits
        ∙ ap (λ u. h.front ++ u) h.in_back.splits
        ∙ sym (append_assoc h.front h.in_back.front h.in_back.back);
    in_front = record {
      front = h.front;
      back = h.in_back.front;
      splits = refl;
      in_front = h.in_front;
      in_back = h.in_back.in_front;
    };
    in_back = h.in_back.in_back;
  },
)

pub Concat-nil : (K : Words) (w : List ℕ) → K w ↔ Concat K (λ v. v ≡ []) w
Concat-nil K w = (
  λ h. record { front = w; back = []; splits = sym (append-nil w); in_front = h; in_back = refl },
  λ h.
      let e : w ≡ h.front = h.splits ∙ ap (λ v. h.front ++ v) h.in_back ∙ append-nil h.front in
      rw e h.in_front,
)

nil-Concat : (L : Words) (w : List ℕ) → Concat (λ v. v ≡ []) L w ↔ L w
nil-Concat L w = (
  λ h. let e : w ≡ h.back = h.splits ∙ ap (λ v. v ++ h.back) h.in_front in rw e h.in_back,
  λ h. record { front = []; back = w; splits = refl; in_front = refl; in_back = h },
)

module _ {lo : ℕ} {m m' m'' : ContentModel} where
  pub Agrees-trans : Agrees 0 lo m m' → Agrees 0 lo m' m'' → Agrees 0 lo m m''
  Agrees-trans a b = record {
    same_symbol = λ p l h. a.same_symbol p l h ∙ b.same_symbol p l h;
    same_follow = λ p q l h. a.same_follow p q l h ∙ b.same_follow p q l h;
  }

pub Agrees-weaken :
    {lo lo' hi hi' : ℕ} {m m' : ContentModel}
    → lo ≤ lo'
    → hi' ≤ hi
    → Agrees lo hi m m'
    → Agrees lo' hi' m m'
Agrees-weaken l h a = record {
  same_symbol = λ p l' h'. a.same_symbol p (omega arith) (omega arith);
  same_follow = λ p q l' h'. a.same_follow p q (omega arith) (omega arith);
}

pub Agrees-refl : {lo hi : ℕ} (m : ContentModel) → Agrees lo hi m m
Agrees-refl m = record { same_symbol = λ p l h. refl; same_follow = λ p q l h. refl }

-- Edges are added only at the ends of the fragment before.
pub Agrees-link :
    {lo hi : ℕ} {m : ContentModel} (before part : Fragment)
    → hi ≤ length m.follow
    → Inside lo hi m before
    → Agrees 0 lo m (link_model before part m)
Agrees-link {m} before part room inside = record {
  same_symbol = λ p l h. refl;
  same_follow = λ p q l h.
      let edge =
        follows-link_model before part m p q
          (λ k e. let (_, b) = inside.last_in k e in omega arith) in
      elim (Bool-cases (contains before.last p)) [
        | inl e ↦ absurd (let (b, _) = inside.last_in p e in omega arith)
        | inr e ↦ ground (arith, edge)
      ];
}

module _ (n : ℕ) (m : ContentModel) (sized : IsSized m) where
  new_symbol : symbol (push_position n m) (positions m) ≡ n
  new_symbol = get_or-append_last m.symbols n 0

  new_follow : follows (push_position n m) (positions m) ≡ []
  new_follow = rw (← sized) (get_or-append_last m.follow [] [])

  name_sound :
      (w : List ℕ) → Accepts (push_position n m) (name_fragment (positions m)) w → w ≡ n ∷ []
  name_sound [] a = cc
  name_sound (c ∷ []) (q, e, s, t) = let at : q ≡ positions m = ground arith in cc (s, new_symbol)
  name_sound (c ∷ d ∷ w) (q, e, s, (q', e', s', t)) =
      let at : q ≡ positions m = ground arith in cc (rw (at, new_follow) at e')

  name_complete :
      (w : List ℕ) → w ≡ n ∷ [] → Accepts (push_position n m) (name_fragment (positions m)) w
  name_complete [] e = cc
  name_complete (c ∷ []) e = (positions m, ground arith, new_symbol ∙ cc, ground arith)
  name_complete (c ∷ d ∷ w) e = cc

  name-Inside :
      Inside
        (positions m)
        (positions (push_position n m))
        (push_position n m)
        (name_fragment (positions m))
  name-Inside =
      let size = length-append m.symbols (n ∷ []) in
      record {
        first_in = λ q e. ground (arith, size);
        last_in = λ q e. ground (arith, size);
        edge_in = λ p q l h e.
            let at : p ≡ positions m = omega (arith, size) in cc (rw (at, new_follow) at e);
      }

  pub name-Built :
      Built (positions m) m (name_fragment (positions m), push_position n m) (λ w. w ≡ n ∷ [])
  name-Built = record {
    sized = omega (arith, length-append m.symbols (n ∷ []), length-append m.follow ([] ∷ []));
    starts = omega arith;
    grows = omega (arith, length-append m.symbols (n ∷ []));
    kept = record {
      same_symbol = λ p l h. sym (get_or-append_left m.symbols (n ∷ []) p 0 h);
      same_follow = λ p q l h. rw (get_or-append_left m.follow ([] ∷ []) p [] (omega arith)) refl;
    };
    inside = name-Inside;
    denotes = record { sound = name_sound; complete = name_complete };
  }

apply-sizes :
    (occurs : Occurs) (f : Fragment) (m : ContentModel)
    → (length (apply f occurs m).1.follow ≡ length m.follow)
      × (positions (apply f occurs m).1 ≡ positions m)
unfolding apply
apply-sizes once f m = (refl, refl)
apply-sizes optional f m = (refl, refl)
apply-sizes zero_or_more f m = (length-link f.last f.first m.follow, refl)
apply-sizes one_or_more f m = (length-link f.last f.first m.follow, refl)

apply-Agrees :
    {lo hi : ℕ} {m : ContentModel} (occurs : Occurs) (f : Fragment)
    → hi ≤ length m.follow
    → Inside lo hi m f
    → Agrees 0 lo m (apply f occurs m).1
unfolding apply
apply-Agrees {m} once f room inside = Agrees-refl m
apply-Agrees {m} optional f room inside = Agrees-refl m
apply-Agrees zero_or_more f room inside = Agrees-link f f room inside
apply-Agrees one_or_more f room inside = Agrees-link f f room inside

-- The suffix of a particle.
pub apply-Built :
    {lo : ℕ} {m : ContentModel} (occurs : Occurs) (f : Fragment) (m' : ContentModel) {L : Words}
    → Built lo m (f, m') L
    → Built lo m (apply f occurs m') (Repeated L occurs)
apply-Built {lo} {m} occurs f m' b =
    let room : positions m' ≤ length m'.follow = omega (arith, b.sized) in
    let same = apply-sizes occurs f m' in
    record {
      sized = same.0 ∙ b.sized ∙ sym same.1;
      starts = b.starts;
      grows = omega (arith, same.1, b.grows);
      kept = Agrees-trans b.kept (apply-Agrees occurs f room b.inside);
      inside = rw same.1 (Inside-apply lo (positions m') m' f room b.inside occurs);
      denotes = Denotes-apply lo (positions m') m' f room b.inside b.denotes occurs;
    }
