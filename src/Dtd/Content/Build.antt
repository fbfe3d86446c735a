-- ===== src/Dtd/Content/Build.antt =====
-- `ContentModel::build`, by induction on the particle: what it leaves in the model accepts what the
-- particle allows, and what was in the model before stays as it was.
use xenolith.Common.{
  ℕ, ◌≤◌, ◌≡◌, refl, ap, ◌∙◌, ◌↔◌, ◌⊎◌, inl, inr, Bool, true, false, List, [], ◌∷◌, ◌++◌, arith,
  length,
}
use xenolith.Dtd.Content.{
  ContentParticle, name, choice, seq, Particles, nil, cons, ContentModel, Fragment, link_model,
  seq_fragment, choice_fragment, build, sequence, choices,
}
use xenolith.Dtd.Content.Language.{Words, Concat, Allows, AllowsOne, AllowsAll}
use xenolith.Dtd.Content.Paths.{
  length-link, Accepts, Denotes, positions, Inside, Inside-Agrees, Denotes-Agrees,
}
use xenolith.Dtd.Content.Sequence.{Denotes-sequence, Inside-sequence}
use xenolith.Dtd.Content.Choice.{Denotes-choice, Inside-choice}
use xenolith.Dtd.Content.Built.{
  IsSized, Built, Denotes-map, Built-map, Concat-assoc, Concat-nil, Agrees-trans, Agrees-weaken,
  Agrees-refl, Agrees-link, name-Built, apply-Built,
}

-- One round of `sequence`, then the rest of the loop.
pub sequence-step :
    {lo : ℕ} {m : ContentModel} (before : Fragment) (part : Fragment) (m' : ContentModel)
    {K L : Words}
    → IsSized m
    → Inside lo (positions m) m before
    → Denotes m before K
    → lo ≤ positions m
    → Built (positions m) m (part, m') L
    → Built lo m (seq_fragment before part, link_model before part m') (Concat K L)
sequence-step {lo} {m} before part m' sized left k starts b =
    let room : positions m' ≤ length m'.follow = omega (arith, b.sized) in
    let here = Agrees-weaken {lo = 0} {lo' = lo} (omega arith) (omega arith) b.kept in
    let left' = Inside-Agrees left here in
    record {
      sized = length-link before.last part.first m'.follow ∙ b.sized;
      starts = starts;
      grows = b.grows;
      kept =
          Agrees-trans (Agrees-weaken {lo = 0} {lo' = 0} (omega arith) starts b.kept)
            (Agrees-link before part (omega (arith, b.sized, b.grows)) left');
      inside =
          Inside-sequence lo (positions m) (positions m') m' before part starts b.grows room left'
            b.inside;
      denotes =
          Denotes-sequence lo (positions m) (positions m') m' before part starts b.grows room left'
            b.inside (Denotes-Agrees left here k) b.denotes;
    }

pub choice-step :
    {lo : ℕ} {m : ContentModel} (before : Fragment) (part : Fragment) (m' : ContentModel)
    {K L : Words}
    → Inside lo (positions m) m before
    → Denotes m before K
    → lo ≤ positions m
    → Built (positions m) m (part, m') L
    → Built lo m (choice_fragment before part, m') (λ w. K w ⊎ L w)
choice-step {lo} {m} before part m' left k starts b =
    let here = Agrees-weaken {lo = 0} {lo' = lo} (omega arith) (omega arith) b.kept in
    let left' = Inside-Agrees left here in
    record {
      sized = b.sized;
      starts = starts;
      grows = b.grows;
      kept = Agrees-weaken {lo = 0} {lo' = 0} (omega arith) starts b.kept;
      inside =
          Inside-choice lo (positions m) (positions m') m' before part starts b.grows left'
            b.inside;
      denotes =
          Denotes-choice lo (positions m) (positions m') m' before part starts b.grows left'
            b.inside (Denotes-Agrees left here k) b.denotes;
    }

-- What a step leaves, and what the rest of the loop makes of it.
Built-trans :
    {lo : ℕ} {m m' : ContentModel} {f : Fragment} {r : Fragment × ContentModel} {K L : Words}
    → Built lo m (f, m') K
    → Built lo m' r L
    → Built lo m r L
Built-trans a b = record {
  sized = b.sized;
  starts = a.starts;
  grows = omega (arith, a.grows, b.grows);
  kept = Agrees-trans a.kept b.kept;
  inside = b.inside;
  denotes = b.denotes;
}

-- The words of the rest of the loop, put back behind those of the step.
rest-sequence :
    {m : ContentModel} {f : Fragment} {J K : Words} (L : Words)
    → Denotes m f (Concat J K)
    → (w : List ℕ) → Concat (Accepts m f) L w ↔ Concat J (Concat K L) w
rest-sequence {J} {K} L d w = (
  λ h. (Concat-assoc J K L w).0 (record {
    front = h.front;
    back = h.back;
    splits = h.splits;
    in_front = d.sound h.front h.in_front;
    in_back = h.in_back;
  }),
  λ h.
      let h' = (Concat-assoc J K L w).1 h in
      record {
        front = h'.front;
        back = h'.back;
        splits = h'.splits;
        in_front = d.complete h'.front h'.in_front;
        in_back = h'.in_back;
      },
)

rest-choice :
    {m : ContentModel} {f : Fragment} {J K : Words} (L : Words)
    → Denotes m f (λ w. J w ⊎ K w)
    → (w : List ℕ) → (Accepts m f w ⊎ L w) ↔ (J w ⊎ (K w ⊎ L w))
rest-choice L d w = (
  λ h. elim h [
    | inl a ↦ elim (d.sound w a) [ inl j ↦ inl j | inr k ↦ inr (inl k) ]
    | inr l ↦ inr (inr l)
  ],
  λ h. elim h [
    | inl j ↦ inl (d.complete w (inl j))
    | inr r ↦ elim r [ inl k ↦ inl (d.complete w (inr k)) | inr l ↦ inr l ]
  ],
)

pub Denotes-self : (m : ContentModel) (f : Fragment) → Denotes m f (Accepts m f)
Denotes-self m f = record { sound = λ w a. a; complete = λ w a. a }

pub Inside-empty :
    (n : Bool) (m : ContentModel)
    → Inside (positions m) (positions m) m (record { nullable = n; first = []; last = [] })
Inside-empty n m = record {
  first_in = λ q e. cc;
  last_in = λ q e. cc;
  edge_in = λ p q l h e. absurd (omega arith);
}

-- Before the first part: the empty word alone, or no word.
nothing-Accepts :
    (m : ContentModel) (L : Words) (w : List ℕ)
    → Concat (Accepts m (record { nullable = true; first = []; last = [] })) L w ↔ L w
nothing-Accepts m L w = (
  λ h.
      let e : w ≡ h.back = h.splits ∙ ap (λ v. v ++ h.back) (empty h.front h.in_front) in
      rw e h.in_back,
  λ h. record { front = []; back = w; splits = refl; in_front = refl; in_back = h },
)
  where
    empty : (u : List ℕ) → Accepts m (record { nullable = true; first = []; last = [] }) u → u ≡ []
    empty [] a = refl
    empty (c ∷ u) (q, e, s, t) = cc

never-Accepts :
    (m : ContentModel) (L : Words) (w : List ℕ)
    → (Accepts m (record { nullable = false; first = []; last = [] }) w ⊎ L w) ↔ L w
never-Accepts m L w = (λ h. elim h [ inl a ↦ absurd (never w a) | inr l ↦ l ], λ h. inr h)
  where
    never : (u : List ℕ) → Accepts m (record { nullable = false; first = []; last = [] }) u → ⊥
    never [] a = cc
    never (c ∷ u) (q, e, s, t) = cc

mutual
  unfolding build sequence choices

  build-Built :
      (p : ContentParticle) (m : ContentModel)
      → IsSized m
      → Built (positions m) m (build p m) (Allows p)
  build-Built (name n occurs) m sized = apply-Built occurs _ _ (name-Built n m sized)
  build-Built (choice parts occurs) m sized = apply-Built occurs _ _ (
      Built-map (never-Accepts m (AllowsOne parts))
        (choices-Built parts _ m (positions m) sized (Inside-empty false m) (omega arith)))
  build-Built (seq parts occurs) m sized = apply-Built occurs _ _ (
      Built-map (nothing-Accepts m (AllowsAll parts))
        (sequence-Built parts _ m (positions m) sized (Inside-empty true m) (omega arith)))

  sequence-Built :
      (parts : Particles) (before : Fragment) (m : ContentModel) (lo : ℕ)
      → IsSized m
      → Inside lo (positions m) m before
      → lo ≤ positions m
      → Built lo m (sequence parts before m) (Concat (Accepts m before) (AllowsAll parts))
  sequence-Built nil before m lo sized left starts = record {
    sized = sized;
    starts = starts;
    grows = omega arith;
    kept = Agrees-refl m;
    inside = left;
    denotes = Denotes-map (Concat-nil (Accepts m before)) (Denotes-self m before);
  }
  sequence-Built (cons part parts) before m lo sized left starts =
      let (f, m') = build part m in
      let step =
        sequence-step before f m' sized left (Denotes-self m before) starts
          (build-Built part m sized) in
      Built-map (rest-sequence (AllowsAll parts) step.denotes) (
        Built-trans step (
          sequence-Built parts (seq_fragment before f) (link_model before f m') lo step.sized
            step.inside (omega (arith, step.starts, step.grows))))

  choices-Built :
      (parts : Particles) (before : Fragment) (m : ContentModel) (lo : ℕ)
      → IsSized m
      → Inside lo (positions m) m before
      → lo ≤ positions m
      → Built lo m (choices parts before m) (λ w. Accepts m before w ⊎ AllowsOne parts w)
  choices-Built nil before m lo sized left starts = record {
    sized = sized;
    starts = starts;
    grows = omega arith;
    kept = Agrees-refl m;
    inside = left;
    denotes = record {
      sound = λ w a. inl a;
      complete = λ w a. elim a [ inl b ↦ b | inr x ↦ absurd x ];
    };
  }
  choices-Built (cons part parts) before m lo sized left starts =
      let (f, m') = build part m in
      let step =
        choice-step before f m' left (Denotes-self m before) starts (build-Built part m sized) in
      Built-map (rest-choice (AllowsOne parts) step.denotes) (
        Built-trans step (
          choices-Built parts (choice_fragment before f) m' lo step.sized step.inside
            (omega (arith, step.starts, step.grows))))

-- What `build` makes of a particle accepts what the particle allows.
pub build_lem :
    (p : ContentParticle) (m : ContentModel)
    → IsSized m
    → Built (positions m) m (build p m) (Allows p)
build_lem p m sized = build-Built p m sized

pub sequence_lem :
    (parts : Particles) (before : Fragment) (m : ContentModel) (lo : ℕ)
    → IsSized m
    → Inside lo (positions m) m before
    → lo ≤ positions m
    → Built lo m (sequence parts before m) (Concat (Accepts m before) (AllowsAll parts))
sequence_lem parts before m lo sized left starts =
    sequence-Built parts before m lo sized left starts

pub choices_lem :
    (parts : Particles) (before : Fragment) (m : ContentModel) (lo : ℕ)
    → IsSized m
    → Inside lo (positions m) m before
    → lo ≤ positions m
    → Built lo m (choices parts before m) (λ w. Accepts m before w ⊎ AllowsOne parts w)
choices_lem parts before m lo sized left starts = choices-Built parts before m lo sized left starts
