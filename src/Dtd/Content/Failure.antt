-- ===== src/Dtd/Content/Failure.antt =====
-- What `ContentModel::matches` reports when a sequence does not match.
use mathlib.Core.List.{append_assoc}
use xenolith.Common.{
  ℕ, ◌<◌, ◌≡◌, refl, sym, ap, subst, ◌∙◌, ◌↔◌, ◌⊎◌, ◌≢◌, inl, inr, Bool, true, false, List, [], ◌∷◌,
  ◌++◌, Option, none, some, map, arith, ◌==◌, Bool-cases, or-cases, or-left, or-right, and-both,
  is_empty, contains, ==_iff, ==-self,
}
use xenolith.Dtd.Content.{ContentParticle, ContentModel, compile, empty_model}
use xenolith.Dtd.Content.Run.{
  symbol, dedup, MatchFailure, ok, err, matching, reachable, symbols_of, finish, run, matches,
}
use xenolith.Dtd.Content.Language.{Allows}
use xenolith.Dtd.Content.Paths.{Accepts, positions, Inside, Alive}
use xenolith.Dtd.Content.Build.{build_lem}
use xenolith.Dtd.Content.Alive.{IsProper, build-Alive'}
use xenolith.Dtd.Content.Sets.{
  contains-sort, contains-dedup_adjacent, contains-dedup, contains-matching, reachable-follows,
}
use xenolith.Dtd.Content.Correct.{
  root, Reads, Starts, matches-compile, matching-Starts, Starts-matching, reachable-Reads,
  Reads-reachable, Tail-compile, compile-Accepts,
}

abbrev pub head : List ℕ → Option ℕ
head [] = none
head (c ∷ w) = some c

-- The particle does not allow the children. Those read, if any, begin a sequence that it allows; the
-- failure names the child after them, which no such sequence has there, or none at the end of the
-- children; and `allowed` holds exactly the names that can stand there.
pub record Explains (p : ContentParticle) (w : List ℕ) (f : MatchFailure) : Type 0 where
  pub read : List ℕ
  pub unread : List ℕ
  pub splits : w ≡ read ++ unread
  pub refused : ¬ Allows p w
  pub reached : (read ≡ []) ⊎ ((v : List ℕ) × Allows p (read ++ v))
  pub stuck : f.at ≡ head unread
  pub misplaced : (c : ℕ) (v : List ℕ) → f.at ≡ some c → ¬ Allows p (read ++ c ∷ v)
  pub allowed : (d : ℕ) → (contains f.allowed d ≡ true) ↔ ((v : List ℕ) × Allows p (read ++ d ∷ v))

first_member : (xs : List ℕ) → is_empty xs ≡ false → (q : ℕ) × (contains xs q ≡ true)
first_member [] e = cc
first_member (x ∷ xs) e = (x, or-left _ _ (==-self x))

-- A name that no position of the set takes starts nothing there.
unmatched :
    (m : ContentModel) (c : ℕ) (v active : List ℕ)
    → is_empty (matching m c active) ≡ true
    → ¬ Starts m active (c ∷ v)
unmatched m c v active e t = go (matching m c active) e (Starts-matching m c v active t)
  where
    go : (matched : List ℕ) → is_empty matched ≡ true → ¬ Reads m matched v
    go [] e (q, a, r) = ground arith
    go (x ∷ matched) e r = ground arith

contains-map :
    (f : ℕ → ℕ) (xs : List ℕ) (d : ℕ)
    → contains (map f xs) d ≡ true
    → (q : ℕ) × (contains xs q ≡ true) × (f q ≡ d)
contains-map f [] d e = cc
contains-map f (x ∷ xs) d e = elim (or-cases (d == f x) _ e) [
  | inl a ↦ (x, or-left _ _ (==-self x), sym ((==_iff d (f x)).0 a))
  | inr a ↦ let (q, b, c) = contains-map f xs d a in (q, or-right _ _ b, c)
]

map-contains :
    (f : ℕ → ℕ) (xs : List ℕ) (q : ℕ) → contains xs q ≡ true → contains (map f xs) (f q) ≡ true
map-contains f [] q e = cc
map-contains f (x ∷ xs) q e = elim (or-cases (q == x) _ e) [
  | inl a ↦ or-left (f q == f x) _ (rw ((==_iff q x).0 a) (==-self (f x)))
  | inr a ↦ or-right _ _ (map-contains f xs q a)
]

contains-symbols_of :
    (m : ContentModel) (active : List ℕ) (d : ℕ)
    → contains (symbols_of m active) d ≡ contains (map (symbol m) active) d
unfolding symbols_of
contains-symbols_of m active d =
    contains-dedup_adjacent _ d ∙ contains-sort (map (symbol m) active) d

module _ (p : ContentParticle) (m : ContentModel) (inside : Inside 0 (positions m) m (root m))
    (alive : Alive 0 (positions m) m (root m))
    (sound : (w : List ℕ) → Accepts m (root m) w → Allows p w)
    (complete : (w : List ℕ) → Allows p w → Accepts m (root m) w) where
  -- After `u`, the words that go on are those that start in the active set.
  record Residual (u active : List ℕ) : Type 0 where
    forth : (d : ℕ) (v : List ℕ) → Accepts m (root m) (u ++ d ∷ v) → Starts m active (d ∷ v)
    back : (d : ℕ) (v : List ℕ) → Starts m active (d ∷ v) → Accepts m (root m) (u ++ d ∷ v)
    within_model : (q : ℕ) → contains active q ≡ true → q < positions m

  Residual-first : Residual [] m.first
  Residual-first = record {
    forth = λ d v a. a;
    back = λ d v a. a;
    within_model = λ q e. (inside.first_in q e).1;
  }

  Residual-next :
      (u active : List ℕ) (c : ℕ)
      → Residual u active
      → Residual (u ++ c ∷ []) (dedup (reachable m (matching m c active)))
  Residual-next u active c r =
      let next = matching m c active in
      record {
        forth = λ d v a.
            Reads-reachable m d v next
              (Starts-matching m c (d ∷ v) active (r.forth c (d ∷ v) (rw append_assoc at a)));
        back = λ d v a.
            rw append_assoc (
              r.back c (d ∷ v) (matching-Starts m c (d ∷ v) active (reachable-Reads m d v next a)));
        within_model = λ q e.
            let (k, a, b) =
              reachable-follows m next q (sym (contains-dedup (reachable m next) q) ∙ e) in
            (inside.edge_in k q (omega arith)
              (r.within_model k (and-both _ _ (sym (contains-matching m c active k) ∙ a)).0) b).1;
      }

  allowed_iff :
      (u active : List ℕ) (d : ℕ)
      → Residual u active
      → (contains (symbols_of m active) d ≡ true) ↔ ((v : List ℕ) × Allows p (u ++ d ∷ v))
  allowed_iff u active d r = (
    λ e.
        let (q, a, s) =
          contains-map (symbol m) active d (sym (contains-symbols_of m active d) ∙ e) in
        let (v, t) = alive q (omega arith) (r.within_model q a) in
        (v, sound (u ++ d ∷ v) (r.back d v (q, a, s, t))),
    λ h.
        let (q, a, s, t) = r.forth d h.0 (complete _ h.1) in
        contains-symbols_of m active d
        ∙ subst (λ c. contains (map (symbol m) active) c ≡ true) s
            (map-contains (symbol m) active q a),
  )

  -- The names read so far begin a sequence that the particle allows.
  abbrev Begins : List ℕ → Type 0
  Begins u = (u ≡ []) ⊎ ((v : List ℕ) × Allows p (u ++ v))

  Begins-next :
      (u active : List ℕ) (c : ℕ)
      → Residual u active
      → is_empty (matching m c active) ≡ false
      → Begins (u ++ c ∷ [])
  Begins-next u active c r moved =
      let (q, a) = first_member (matching m c active) moved in
      let (kept, same) = and-both _ _ (sym (contains-matching m c active q) ∙ a) in
      let (v, t) = alive q (omega arith) (r.within_model q kept) in
      let starts = matching-Starts m c v active (q, a, t) in
      inr (v, rw append_assoc (sound (u ++ c ∷ v) (r.back c v starts)))

  Explains-here :
      (u w active : List ℕ) (f : MatchFailure)
      → Residual u active
      → Begins u
      → ¬ Allows p (u ++ w)
      → ((c : ℕ) → head w ≡ some c → is_empty (matching m c active) ≡ true)
      → f ≡ record { at = head w; allowed = symbols_of m active }
      → Explains p (u ++ w) f
  Explains-here u w active f r begins out unfit e = record {
    read = u;
    unread = w;
    splits = refl;
    refused = out;
    reached = begins;
    stuck = ap (λ (g : MatchFailure). g.at) e;
    misplaced = λ c v at a.
        let here : head w ≡ some c = ap (λ (g : MatchFailure). g.at) (sym e) ∙ at in
        unmatched m c v active (unfit c here) (r.forth c v (complete (u ++ c ∷ v) a));
    allowed = λ d. rw (ap (λ (g : MatchFailure). g.allowed) e) (allowed_iff u active d r);
  }

  run-Explains :
      (w u active next : List ℕ) (no_children : Bool) (f : MatchFailure)
      → Residual u active
      → Begins u
      → ¬ Allows p (u ++ w)
      → run m no_children w active next ≡ err f
      → Explains p (u ++ w) f
  unfolding run finish
  run-Explains [] u active next no_children f r begins out e =
      Explains-here u [] active f r begins out (λ c h. ground arith) (ground arith)
  run-Explains (c ∷ w) u active next no_children f r begins out e =
      elim (Bool-cases (is_empty (matching m c active))) [
        | inl stuck ↦
            Explains-here u (c ∷ w) active f r begins out
              (λ d h. let same : c ≡ d = ground arith in rw (← same) stuck) (ground arith)
        | inr moved ↦ rw (← append_assoc u (c ∷ []) w) (
            run-Explains w (u ++ c ∷ []) (dedup (reachable m (matching m c active)))
              (matching m c active) no_children f (Residual-next u active c r)
              (Begins-next u active c r moved) (rw (append_assoc u (c ∷ []) w) out) (ground arith))
      ]

ok-err : (f : MatchFailure) → ok ≢ err f
ok-err f e = ground arith

compile-Inside :
    (p : ContentParticle) → Inside 0 (positions (compile p)) (compile p) (root (compile p))
unfolding compile
compile-Inside p =
    let inside = (build_lem p empty_model refl).inside in
    record { first_in = inside.first_in; last_in = inside.last_in; edge_in = inside.edge_in }

compile-Alive :
    (p : ContentParticle)
    → IsProper p
    → Alive 0 (positions (compile p)) (compile p) (root (compile p))
unfolding compile
compile-Alive p h q l k =
    let (w, t) = build-Alive' p empty_model refl h q l k in (w, (Tail-compile p _ w q).1 t)

-- When `matches` on the compiled model of a particle with no empty choice fails, the particle does not
-- allow the children. The failure names the first child that does not fit, or none where the children
-- ran out: the children before it, if there are any, begin a sequence that the particle allows, and
-- these children with the named one after them begin none. The names it lists as allowed are exactly
-- those that can stand there: after the children read before it, a name is listed if and only if the
-- particle allows some sequence that goes on with that name.
pub matches-Explains :
    (p : ContentParticle) (w : List ℕ) (f : MatchFailure)
    → IsProper p
    → matches (compile p) w ≡ err f
    → Explains p w f
unfolding matches
matches-Explains p w f h e =
    let m = compile p in
    let denotes = (build_lem p empty_model refl).denotes in
    let inside = compile-Inside p in
    let alive = compile-Alive p h in
    let sound : (v : List ℕ) → Accepts m (root m) v → Allows p v =
      λ v a. denotes.sound v ((compile-Accepts p v).0 a) in
    let complete : (v : List ℕ) → Allows p v → Accepts m (root m) v =
      λ v a. (compile-Accepts p v).1 (denotes.complete v a) in
    let out : ¬ Allows p w = λ a. ok-err f (sym ((matches-compile p w).1 a) ∙ e) in
    run-Explains p m inside alive sound complete w [] m.first [] (is_empty w) f
      (Residual-first p m inside alive sound complete) (inl refl) out e
