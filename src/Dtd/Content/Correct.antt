-- ===== src/Dtd/Content/Correct.antt =====
-- `ContentModel::matches` on a compiled model decides what the content particle allows.
use xenolith.Common.{
  ℕ, ◌≡◌, refl, sym, ◌∙◌, ◌↔◌, true, false, List, [], ◌∷◌, arith, and-both, contains, ==_iff,
}
use xenolith.Dtd.Content.{ContentParticle, ContentModel, Fragment, build, compile, empty_model}
use xenolith.Dtd.Content.Run.{symbol, dedup, ok, matching, reachable, finish, run, matches}
use xenolith.Dtd.Content.Language.{Allows}
use xenolith.Dtd.Content.Paths.{Tail, Accepts}
use xenolith.Dtd.Content.Build.{build_lem}
use xenolith.Dtd.Content.Sets.{
  contains-dedup, contains-matching, reachable-follows, follows-reachable, any-contains,
  contains-any, nonempty,
}

abbrev pub root : ContentModel → Fragment
root m = record { nullable = m.nullable; first = m.first; last = m.last }

-- Some position of the set reads the rest of the word.
abbrev pub Reads : ContentModel → List ℕ → List ℕ → Type 0
Reads m matched w = (p : ℕ) × (contains matched p ≡ true) × Tail m m.last w p

-- Some position of the set takes the first name, and reads on.
abbrev pub Starts : ContentModel → List ℕ → List ℕ → Type 0
Starts m active [] = ⊥
Starts m active (c ∷ w) =
    (q : ℕ) × (contains active q ≡ true) × (symbol m q ≡ c) × Tail m m.last w q

module _ (m : ContentModel) where
  pub matching-Starts :
      (c : ℕ) (w active : List ℕ) → Reads m (matching m c active) w → Starts m active (c ∷ w)
  matching-Starts c w active (q, e, t) =
      let (a, b) = and-both _ _ (sym (contains-matching m c active q) ∙ e) in
      (q, a, (==_iff (symbol m q) c).0 b, t)

  pub Starts-matching :
      (c : ℕ) (w active : List ℕ) → Starts m active (c ∷ w) → Reads m (matching m c active) w
  Starts-matching c w active (q, e, s, t) =
      (q, contains-matching m c active q ∙ ground (arith, ==_iff (symbol m q) c), t)

  pub reachable-Reads :
      (c : ℕ) (w next : List ℕ) → Starts m (dedup (reachable m next)) (c ∷ w) → Reads m next (c ∷ w)
  reachable-Reads c w next (q, e, s, t) =
      let (p, a, b) = reachable-follows m next q (sym (contains-dedup (reachable m next) q) ∙ e) in
      (p, a, (q, b, s, t))

  pub Reads-reachable :
      (c : ℕ) (w next : List ℕ) → Reads m next (c ∷ w) → Starts m (dedup (reachable m next)) (c ∷ w)
  Reads-reachable c w next (p, a, (q, b, s, t)) =
      (q, contains-dedup (reachable m next) q ∙ follows-reachable m next p q a b, s, t)

  run_sound :
      (w next : List ℕ) → run m false w (dedup (reachable m next)) next ≡ ok → Reads m next w
  unfolding run finish
  run_sound [] next e = any-contains m.last next (ground arith)
  run_sound (c ∷ w) next e =
      let active = dedup (reachable m next) in
      reachable-Reads c w next
        (matching-Starts c w active (run_sound w (matching m c active) (ground arith)))

  run_complete :
      (w next : List ℕ) → Reads m next w → run m false w (dedup (reachable m next)) next ≡ ok
  unfolding run finish
  run_complete [] next (p, e, t) = rw (contains-any m.last next p e t) refl
  run_complete (c ∷ w) next r =
      let active = dedup (reachable m next) in
      let found = Starts-matching c w active (Reads-reachable c w next r) in
      rw (nonempty (matching m c active) found.0 found.1)
        (run_complete w (matching m c active) found)

  matches-sound : (w : List ℕ) → matches m w ≡ ok → Accepts m (root m) w
  unfolding matches run finish
  matches-sound [] e = ground arith
  matches-sound (c ∷ w) e =
      matching-Starts c w m.first (run_sound w (matching m c m.first) (ground arith))

  matches_complete : (w : List ℕ) → Accepts m (root m) w → matches m w ≡ ok
  unfolding matches run finish
  matches_complete [] e = rw e refl
  matches_complete (c ∷ w) e =
      let found = Starts-matching c w m.first e in
      rw (nonempty (matching m c m.first) found.0 found.1)
        (run_complete w (matching m c m.first) found)

-- A compiled model holds the fragment that was built.
pub Tail-compile :
    (p : ContentParticle) (last w : List ℕ) (q : ℕ)
    → Tail (compile p) last w q ↔ Tail (build p empty_model).1 last w q
unfolding compile
Tail-compile p last [] q = (λ t. t, λ t. t)
Tail-compile p last (c ∷ w) q = (
  λ t. (t.0, t.1, t.2, (Tail-compile p last w t.0).0 t.3),
  λ t. (t.0, t.1, t.2, (Tail-compile p last w t.0).1 t.3),
)

pub compile-Accepts :
    (p : ContentParticle) (w : List ℕ)
    → Accepts (compile p) (root (compile p)) w
      ↔ Accepts (build p empty_model).1 (build p empty_model).0 w
unfolding compile
compile-Accepts p [] = (λ a. a, λ a. a)
compile-Accepts p (c ∷ w) = (
  λ t. (t.0, t.1, t.2, (Tail-compile p _ w t.0).0 t.3),
  λ t. (t.0, t.1, t.2, (Tail-compile p _ w t.0).1 t.3),
)

-- For every content particle and every sequence of child names, `matches` on the compiled model
-- returns `Ok` exactly when the sequence is one that the particle allows by the grammar of XML.
pub matches-compile : (p : ContentParticle) (w : List ℕ) → (matches (compile p) w ≡ ok) ↔ Allows p w
matches-compile p w =
    let built = (build_lem p empty_model refl).denotes in
    (
      λ e. built.sound w ((compile-Accepts p w).0 (matches-sound (compile p) w e)),
      λ a. matches_complete (compile p) w ((compile-Accepts p w).1 (built.complete w a)),
    )
