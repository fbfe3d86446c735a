-- ===== src/Dtd/Content/Paths.antt =====
-- What a fragment of the automaton accepts, read off its position sets; and the facts on position
-- sets and on `link` that the other proofs rest on.
use xenolith.Common.{
  ℕ, ◌≤◌, ◌<◌, ◌≡◌, refl, sym, ◌∙◌, inl, inr, true, ◌&&◌, ◌||◌, List, [], ◌∷◌, arith, ◌==◌,
  Bool-cases, length, get_or, modify, get_or-modify_self, get_or-modify_ne, length-modify, contains,
  contains-append, ==_iff,
}
use xenolith.Dtd.Content.{
  ContentModel, Fragment, push_unique, extend_unique, link_one, link, link_model,
}
use xenolith.Dtd.Content.Run.{symbol, follows}
use xenolith.Dtd.Content.Language.{Words}

pub contains-push_unique :
    (target : List ℕ) (value a : ℕ)
    → contains (push_unique target value) a ≡ (contains target a || a == value)
unfolding push_unique
contains-push_unique target value a = elim (Bool-cases (contains target value)) [
  | inl old ↦ rw old (ground (arith, ==_iff a value, old))
  | inr new ↦ rw (new, contains-append) (ground arith)
]

pub contains-extend_unique :
    (values target : List ℕ) (a : ℕ)
    → contains (extend_unique target values) a ≡ (contains target a || contains values a)
unfolding extend_unique
contains-extend_unique [] target a = ground arith
contains-extend_unique (value ∷ values) target a = ground (
  arith,
  contains-extend_unique values (push_unique target value) a,
  contains-push_unique target value a,
)

pub length-link_one :
    (l : ℕ) (firsts : List ℕ) (follow : List (List ℕ))
    → length (link_one l firsts follow) ≡ length follow
unfolding link_one
length-link_one l [] follow = refl
length-link_one l (f ∷ firsts) follow =
    length-link_one l firsts _ ∙ length-modify (λ targets. push_unique targets f) l follow

pub length-link :
    (lasts firsts : List ℕ) (follow : List (List ℕ))
    → length (link lasts firsts follow) ≡ length follow
unfolding link
length-link [] firsts follow = refl
length-link (l ∷ lasts) firsts follow = length-link lasts firsts _ ∙ length-link_one l firsts follow

contains-modify :
    (l f p q : ℕ) (follow : List (List ℕ))
    → l < length follow
    → contains (get_or (modify (λ targets. push_unique targets f) l follow) p []) q
      ≡ (contains (get_or follow p []) q || (p == l && q == f))
contains-modify l f p q follow h = elim (Bool-cases (p == l)) [
  | inl same ↦
      rw
        (
          (==_iff p l).0 same,
          get_or-modify_self (λ targets. push_unique targets f) l follow [] h,
          contains-push_unique,
        )
        (ground arith)
  | inr other ↦
      rw (get_or-modify_ne (λ targets. push_unique targets f) l p follow [] (λ e. ground arith))
        (ground arith)
]

contains-link_one :
    (l : ℕ) (firsts : List ℕ) (p q : ℕ) (follow : List (List ℕ))
    → l < length follow
    → contains (get_or (link_one l firsts follow) p []) q
      ≡ (contains (get_or follow p []) q || (p == l && contains firsts q))
unfolding link_one
contains-link_one l [] p q follow h = ground arith
contains-link_one l (f ∷ firsts) p q follow h =
    contains-link_one l firsts p q (modify (λ targets. push_unique targets f) l follow)
      (omega (arith, length-modify (λ targets. push_unique targets f) l follow))
    ∙ ground (arith, contains-modify l f p q follow h)

-- `link` adds an edge from each of the positions in `lasts` to each of those in `firsts`.
pub contains-link :
    (lasts firsts : List ℕ) (p q : ℕ) (follow : List (List ℕ))
    → ((l : ℕ) → contains lasts l ≡ true → l < length follow)
    → contains (get_or (link lasts firsts follow) p []) q
      ≡ (contains (get_or follow p []) q || (contains lasts p && contains firsts q))
unfolding link
contains-link [] firsts p q follow h = ground arith
contains-link (l ∷ lasts) firsts p q follow h =
    contains-link lasts firsts p q (link_one l firsts follow)
      (λ k e. rw length-link_one (h k (ground arith)))
    ∙ ground (arith, contains-link_one l firsts p q follow (h l (ground arith)))

-- A word is read from position `p` on: each name is at a position that may follow the one before
-- it, and the last is one where a match may end.
abbrev pub Tail : ContentModel → List ℕ → List ℕ → ℕ → Type 0
Tail model last [] p = contains last p ≡ true
Tail model last (c ∷ w) p =
    (q : ℕ) × (contains (follows model p) q ≡ true) × (symbol model q ≡ c) × Tail model last w q

abbrev pub Accepts : ContentModel → Fragment → Words
Accepts model f [] = f.nullable ≡ true
Accepts model f (c ∷ w) =
    (q : ℕ) × (contains f.first q ≡ true) × (symbol model q ≡ c) × Tail model f.last w q

-- The fragment accepts the words of `L`.
pub record Denotes (model : ContentModel) (f : Fragment) (L : Words) : Type 0 where
  pub sound : (w : List ℕ) → Accepts model f w → L w
  pub complete : (w : List ℕ) → L w → Accepts model f w

abbrev pub positions : ContentModel → ℕ
positions model = length model.symbols

-- The positions from `lo` to `hi` hold the fragment, and no edge leads out of them.
pub record Inside (lo hi : ℕ) (model : ContentModel) (f : Fragment) : Type 0 where
  pub first_in : (q : ℕ) → contains f.first q ≡ true → (lo ≤ q) × (q < hi)
  pub last_in : (q : ℕ) → contains f.last q ≡ true → (lo ≤ q) × (q < hi)
  pub edge_in :
      (p q : ℕ) → lo ≤ p → p < hi → contains (follows model p) q ≡ true → (lo ≤ q) × (q < hi)

-- From each of the positions a word leads to an end.
abbrev pub Alive : ℕ → ℕ → ContentModel → Fragment → Type 0
Alive lo hi m f = (p : ℕ) → lo ≤ p → p < hi → (w : List ℕ) × Tail m f.last w p

-- Two models agree on the positions from `lo` to `hi`.
pub record Agrees (lo hi : ℕ) (m m' : ContentModel) : Type 0 where
  pub same_symbol : (p : ℕ) → lo ≤ p → p < hi → symbol m p ≡ symbol m' p
  pub same_follow :
      (p q : ℕ) → lo ≤ p → p < hi → contains (follows m p) q ≡ contains (follows m' p) q

module _ {lo hi : ℕ} {m m' : ContentModel} where
  pub Agrees-sym : Agrees lo hi m m' → Agrees lo hi m' m
  Agrees-sym a = record {
    same_symbol = λ p l h. sym (a.same_symbol p l h);
    same_follow = λ p q l h. sym (a.same_follow p q l h);
  }

  -- Edges that stay inside are all that a path from inside can take.
  pub Tail-Agrees :
      {f : Fragment} (last w : List ℕ) (p : ℕ)
      → Inside lo hi m f
      → Agrees lo hi m m'
      → lo ≤ p
      → p < hi
      → Tail m last w p
      → Tail m' last w p
  Tail-Agrees last [] p i a l h t = t
  Tail-Agrees last (c ∷ w) p i a l h (q, e, s, t) =
      let (l', h') = i.edge_in p q l h e in
      (
        q,
        sym (a.same_follow p q l h) ∙ e,
        sym (a.same_symbol q l' h') ∙ s,
        Tail-Agrees last w q i a l' h' t,
      )

  pub Inside-Agrees : {f : Fragment} → Inside lo hi m f → Agrees lo hi m m' → Inside lo hi m' f
  Inside-Agrees i a = record {
    first_in = i.first_in;
    last_in = i.last_in;
    edge_in = λ p q l h e. i.edge_in p q l h (a.same_follow p q l h ∙ e);
  }

  pub Accepts-Agrees :
      {f : Fragment} (w : List ℕ)
      → Inside lo hi m f
      → Agrees lo hi m m'
      → Accepts m f w
      → Accepts m' f w
  Accepts-Agrees [] i a t = t
  Accepts-Agrees {f} (c ∷ w) i a (q, e, s, t) =
      let (l, h) = i.first_in q e in
      (q, e, sym (a.same_symbol q l h) ∙ s, Tail-Agrees f.last w q i a l h t)

pub Denotes-Agrees :
    {lo hi : ℕ} {m m' : ContentModel} {f : Fragment} {L : Words}
    → Inside lo hi m f
    → Agrees lo hi m m'
    → Denotes m f L
    → Denotes m' f L
Denotes-Agrees i a d = record {
  sound = λ w t. d.sound w (Accepts-Agrees w (Inside-Agrees i a) (Agrees-sym a) t);
  complete = λ w t. Accepts-Agrees w i a (d.complete w t);
}

-- The edges after `link_model`.
pub follows-link_model :
    (before part : Fragment) (m : ContentModel) (p q : ℕ)
    → ((l : ℕ) → contains before.last l ≡ true → l < length m.follow)
    → contains (follows (link_model before part m) p) q
      ≡ (contains (follows m p) q || (contains before.last p && contains part.first q))
follows-link_model before part m p q h = contains-link before.last part.first p q m.follow h

pub Alive-Agrees :
    {lo hi : ℕ} {m m' : ContentModel} {f : Fragment}
    → Inside lo hi m f
    → Agrees lo hi m m'
    → Alive lo hi m f
    → Alive lo hi m' f
Alive-Agrees {f} i a alive p l h = let (w, t) = alive p l h in (w, Tail-Agrees f.last w p i a l h t)
