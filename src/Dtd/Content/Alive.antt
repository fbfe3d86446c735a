-- ===== src/Dtd/Content/Alive.antt =====
-- No position of a compiled model is a dead end, when no choice of the particle is empty. The
-- grammar of a content model has no empty choice and no empty sequence.
use xenolith.Common.{ℕ, ◌≤◌, ◌≡◌, refl, inl, true, false, List, [], ◌∷◌, ◌++◌, arith, length-append}
use xenolith.Dtd.Content.{
  Occurs, once, optional, zero_or_more, one_or_more, ContentParticle, name, choice, seq, Particles,
  nil, cons, ContentModel, Fragment, link_model, apply, seq_fragment, choice_fragment,
  name_fragment, push_position, build, sequence, choices,
}
use xenolith.Dtd.Content.Language.{Words, done, Repeated, Allows, AllowsOne, AllowsAll}
use xenolith.Dtd.Content.Paths.{
  Accepts, positions, Inside, Inside-Agrees, Alive, Alive-Agrees, Agrees,
}
use xenolith.Dtd.Content.Sequence.{Alive-sequence}
use xenolith.Dtd.Content.Choice.{Alive-choice}
use xenolith.Dtd.Content.Repeat.{Alive-apply}
use xenolith.Dtd.Content.Build.{
  sequence-step, choice-step, Inside-empty, Denotes-self, build_lem, sequence_lem, choices_lem,
}
use xenolith.Dtd.Content.Built.{IsSized, Built, name-Built, Agrees-weaken}

abbrev mutual
  pub IsProper : ContentParticle → Type 0
  IsProper (name n occurs) = Unit {0}
  IsProper (choice parts occurs) = AreProper parts × IsNonempty parts
  IsProper (seq parts occurs) = AreProper parts

  pub AreProper : Particles → Type 0
  AreProper nil = Unit {0}
  AreProper (cons part parts) = IsProper part × AreProper parts

  pub IsNonempty : Particles → Type 0
  IsNonempty nil = ⊥
  IsNonempty (cons part parts) = Unit {0}

Repeated-word :
    (L : Words) (occurs : Occurs) → (w : List ℕ) × L w → (w : List ℕ) × Repeated L occurs w
Repeated-word L once h = h
Repeated-word L optional h = ([], inl refl)
Repeated-word L zero_or_more h = ([], done)
Repeated-word L one_or_more (w, h) =
    (w ++ [], record { front = w; back = []; splits = refl; in_front = h; in_back = done })

mutual
  word : (p : ContentParticle) → IsProper p → (w : List ℕ) × Allows p w
  word (name n occurs) h = Repeated-word (λ w. w ≡ n ∷ []) occurs (n ∷ [], refl)
  word (choice parts occurs) h = Repeated-word (AllowsOne parts) occurs (word_one parts h.0 h.1)
  word (seq parts occurs) h = Repeated-word (AllowsAll parts) occurs (word_all parts h)

  word_one :
      (parts : Particles) → AreProper parts → IsNonempty parts → (w : List ℕ) × AllowsOne parts w
  word_one nil h n = absurd n
  word_one (cons part parts) h n = let (w, a) = word part h.0 in (w, inl a)

  word_all : (parts : Particles) → AreProper parts → (w : List ℕ) × AllowsAll parts w
  word_all nil h = ([], refl)
  word_all (cons part parts) h =
      let (u, a) = word part h.0 in
      let (v, b) = word_all parts h.1 in
      (u ++ v, record { front = u; back = v; splits = refl; in_front = a; in_back = b })

module _ {lo : ℕ} {m m' : ContentModel} {part : Fragment} {L : Words} where
  part-Alive :
      (occurs : Occurs)
      → Built lo m (part, m') L
      → Alive lo (positions m') m' part
      → Alive lo (positions m') (apply part occurs m').1 (apply part occurs m').0
  part-Alive occurs b a =
      Alive-apply lo (positions m') m' part (omega (arith, b.sized)) b.inside occurs a

apply-positions :
    (occurs : Occurs) (f : Fragment) (m : ContentModel)
    → positions (apply f occurs m).1 ≡ positions m
unfolding apply
apply-positions once f m = refl
apply-positions optional f m = refl
apply-positions zero_or_more f m = refl
apply-positions one_or_more f m = refl

name-Alive :
    (n : ℕ) (m : ContentModel)
    → Alive
        (positions m)
        (positions (push_position n m))
        (push_position n m)
        (name_fragment (positions m))
name-Alive n m p l h = ([], ground (arith, length-append m.symbols (n ∷ [])))

empty-Alive : (f : Fragment) (m : ContentModel) → Alive (positions m) (positions m) m f
empty-Alive f m p l h = absurd (omega arith)

module _ {lo : ℕ} {m : ContentModel} (before part : Fragment) (m' : ContentModel) {L : Words}
    (left : Inside lo (positions m) m before) (starts : lo ≤ positions m)
    (b : Built (positions m) m (part, m') L) (left_alive : Alive lo (positions m) m before)
    (right_alive : Alive (positions m) (positions m') m' part) where
  here : Agrees lo (positions m) m m'
  here = Agrees-weaken {lo = 0} {lo' = lo} (omega arith) (omega arith) b.kept

  sequence-Alive' :
      (v : List ℕ) × Accepts m' part v
      → Alive lo (positions m') (link_model before part m') (seq_fragment before part)
  sequence-Alive' =
      Alive-sequence lo (positions m) (positions m') m' before part starts b.grows
        (omega (arith, b.sized)) (Inside-Agrees left here) b.inside
        (Alive-Agrees left here left_alive) right_alive

  choice-Alive : Alive lo (positions m') m' (choice_fragment before part)
  choice-Alive =
      Alive-choice lo (positions m) (positions m') m' before part starts b.grows
        (Inside-Agrees left here) b.inside (Alive-Agrees left here left_alive) right_alive

mutual
  unfolding build sequence choices

  build-Alive :
      (p : ContentParticle) (m : ContentModel)
      → IsSized m
      → IsProper p
      → Alive (positions m) (positions (build p m).1) (build p m).1 (build p m).0
  build-Alive (name n occurs) m sized h =
      rw (apply-positions occurs (name_fragment (positions m)) (push_position n m))
        (part-Alive occurs (name-Built n m sized) (name-Alive n m))
  build-Alive (choice parts occurs) m sized h =
      let none_yet : Fragment = record { nullable = false; first = []; last = [] } in
      let r = choices parts none_yet m in
      rw (apply-positions occurs r.0 r.1) (
        part-Alive occurs
          (choices_lem parts none_yet m (positions m) sized (Inside-empty false m) (omega arith))
          (choices-Alive parts none_yet m (positions m) sized (Inside-empty false m) (omega arith)
            (empty-Alive none_yet m) h.0))
  build-Alive (seq parts occurs) m sized h =
      let none_yet : Fragment = record { nullable = true; first = []; last = [] } in
      let r = sequence parts none_yet m in
      rw (apply-positions occurs r.0 r.1) (
        part-Alive occurs
          (sequence_lem parts none_yet m (positions m) sized (Inside-empty true m) (omega arith))
          (sequence-Alive parts none_yet m (positions m) sized (Inside-empty true m) (omega arith)
            (empty-Alive none_yet m) h))

  sequence-Alive :
      (parts : Particles) (before : Fragment) (m : ContentModel) (lo : ℕ)
      → IsSized m
      → Inside lo (positions m) m before
      → lo ≤ positions m
      → Alive lo (positions m) m before
      → AreProper parts
      → Alive lo
          (positions (sequence parts before m).1)
          (sequence parts before m).1
          (sequence parts before m).0
  sequence-Alive nil before m lo sized left starts alive h = alive
  sequence-Alive (cons part parts) before m lo sized left starts alive h =
      let (f, m') = build part m in
      let b = build_lem part m sized in
      let step = sequence-step before f m' sized left (Denotes-self m before) starts b in
      let (v, allowed) = word part h.0 in
      sequence-Alive parts (seq_fragment before f) (link_model before f m') lo step.sized
        step.inside (omega (arith, step.starts, step.grows))
        (sequence-Alive' before f m' left starts b alive (build-Alive part m sized h.0)
          (v, b.denotes.complete v allowed))
        h.1

  choices-Alive :
      (parts : Particles) (before : Fragment) (m : ContentModel) (lo : ℕ)
      → IsSized m
      → Inside lo (positions m) m before
      → lo ≤ positions m
      → Alive lo (positions m) m before
      → AreProper parts
      → Alive lo
          (positions (choices parts before m).1)
          (choices parts before m).1
          (choices parts before m).0
  choices-Alive nil before m lo sized left starts alive h = alive
  choices-Alive (cons part parts) before m lo sized left starts alive h =
      let (f, m') = build part m in
      let b = build_lem part m sized in
      let step = choice-step before f m' left (Denotes-self m before) starts b in
      choices-Alive parts (choice_fragment before f) m' lo step.sized step.inside
        (omega (arith, step.starts, step.grows))
        (choice-Alive before f m' left starts b alive (build-Alive part m sized h.0)) h.1

pub build-Alive' :
    (p : ContentParticle) (m : ContentModel)
    → IsSized m
    → IsProper p
    → Alive (positions m) (positions (build p m).1) (build p m).1 (build p m).0
build-Alive' p m sized h = build-Alive p m sized h
