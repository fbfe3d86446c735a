-- ===== src/Dom/Walk/Preorder.antt =====
-- The walk of crates/xenolith/src/dom/walk.rs, which follows links, is the recursion over children.
use xenolith.Common.{
  ℕ, zero, suc, ◌+◌, ◌≤◌, ◌<◌, ◌≡◌, refl, sym, ◌∙◌, ap, true, false, List, [], ◌∷◌, ◌++◌, none,
  some, arith, ◌==◌, contains, length, length-append, append_assoc, append-nil, ==_iff, ==-self,
  Bool-cases, inl, inr,
}
use xenolith.Dom.{Document}
use xenolith.Dom.Siblings.{after_in, Distinct}
use xenolith.Dom.Insert.{children}
use xenolith.Dom.Rooted.{under, height, height_unique, height-held}
use xenolith.Dom.Tree.{IsWellFormed}
use xenolith.Dom.Walk.{Visit, enter, leave, next_visit, walk_from, walk}

abbrev pub concat_map : (ℕ → List (Visit × ℕ)) → List ℕ → List (Visit × ℕ)
concat_map g [] = []
concat_map g (x ∷ xs) = g x ++ concat_map g xs

-- Every node is entered before and left after its children, to so many levels below `x`.
abbrev pub visits : Document → ℕ → ℕ → List (Visit × ℕ)
visits doc zero x = (enter, x) ∷ (leave, x) ∷ []
visits doc (suc levels) x =
    (enter, x) ∷ concat_map (visits doc levels) (children doc x) ++ (leave, x) ∷ []

module _ (doc : Document) (good : IsWellFormed doc) (start : ℕ) where
  abbrev depth : ℕ → ℕ
  depth x = height doc (good.rooted x)

  depth-child : (x y : ℕ) → contains (children doc y) x ≡ true → depth x ≡ suc (depth y)
  depth-child x y h =
      height_unique doc refl (good.rooted x) (under (good.rep.stands y x h).0 (good.rooted y))

  depth-held : (x : ℕ) → x < doc.held → depth x < doc.held
  depth-held x b = height-held doc good.bounded (good.rooted x) b

  -- What is reported from entering `y` until it is left.
  abbrev Reports : ℕ → ℕ → Type 0
  Reports levels y =
      (n : ℕ)
      → walk_from (length (visits doc levels y) + n) doc start (some (enter, y))
        ≡ visits doc levels y ++ walk_from n doc start (next_visit doc start (leave, y))

  leave-last :
      (x y : ℕ)
      → (x == start) ≡ false
      → (doc.slot x).next_sibling ≡ none
      → (doc.slot x).parent ≡ some y
      → next_visit doc start (leave, x) ≡ some (leave, y)
  unfolding next_visit
  leave-last x y n e p = rw (n, e, p) refl

  leave-before :
      (x z : ℕ)
      → (x == start) ≡ false
      → (doc.slot x).next_sibling ≡ some z
      → next_visit doc start (leave, x) ≡ some (enter, z)
  unfolding next_visit
  leave-before x z n e = rw (n, e) refl

  siblings-Reports :
      (levels y : ℕ) (x : ℕ) (xs : List ℕ)
      → ((z : ℕ) → contains (x ∷ xs) z ≡ true → Reports levels z)
      → ((z : ℕ) → contains (x ∷ xs) z ≡ true → (z == start) ≡ false)
      → ((z : ℕ) → contains (x ∷ xs) z ≡ true → (doc.slot z).parent ≡ some y)
      → Distinct (x ∷ xs)
      → ((z : ℕ) → contains (x ∷ xs) z ≡ true → (doc.slot z).next_sibling ≡ after_in z (x ∷ xs))
      → (n : ℕ)
      → walk_from (length (concat_map (visits doc levels) (x ∷ xs)) + n) doc start (some (enter, x))
        ≡ concat_map (visits doc levels) (x ∷ xs) ++ walk_from n doc start (some (leave, y))
  siblings-Reports levels y x [] rep ne par d next n =
      let step =
        leave-last x y (ne x (ground arith)) (next x (ground arith) ∙ ground arith)
          (par x (ground arith)) in
      rw (append-nil (visits doc levels x))
        (rep x (ground arith) n ∙ ap (λ v. visits doc levels x ++ walk_from n doc start v) step)
  siblings-Reports levels y x (z ∷ xs) rep ne par d next n =
      let here = visits doc levels x in
      let later = concat_map (visits doc levels) (z ∷ xs) in
      let step = leave-before x z (ne x (ground arith)) (next x (ground arith) ∙ ground arith) in
      let rest =
        siblings-Reports levels y z xs (λ w h. rep w (ground arith)) (λ w h. ne w (ground arith))
          (λ w h. par w (ground arith)) d.1 (λ w h. ground (arith, next w)) n in
      let fuel : length (here ++ later) + n ≡ length here + (length later + n) =
        omega (arith, length-append here later) in
      ap (λ k. walk_from k doc start (some (enter, x))) fuel
      ∙ rep x (ground arith) (length later + n)
      ∙ ap (λ v. here ++ walk_from (length later + n) doc start v) step
      ∙ ap (here ++◌) rest
      ∙ sym (append_assoc here later (walk_from n doc start (some (leave, y))))

  deepest : (y : ℕ) (xs : List ℕ) → children doc y ≡ xs → doc.held ≤ depth y + 1 → xs ≡ []
  deepest y [] e deep = refl
  deepest y (c ∷ cs) e deep =
      let h : contains (children doc y) c ≡ true = rw e (ground arith) in
      let b = (good.bounded c y (good.rep.stands y c h).0).0 in
      absurd (omega (arith, depth-child c y h, depth-held c b))

  enter-none : (y : ℕ) → children doc y ≡ [] → next_visit doc start (enter, y) ≡ some (leave, y)
  unfolding next_visit
  enter-none y e = rw (good.rep.first y, e) refl

  enter-first :
      (y c : ℕ) (cs : List ℕ)
      → children doc y ≡ c ∷ cs
      → next_visit doc start (enter, y) ≡ some (enter, c)
  unfolding next_visit
  enter-first y c cs e = rw (good.rep.first y, e) refl

  -- A node without children is entered and left.
  childless-Reports :
      (y n : ℕ)
      → children doc y ≡ []
      → walk_from (2 + n) doc start (some (enter, y))
        ≡ (enter, y) ∷ (leave, y) ∷ walk_from n doc start (next_visit doc start (leave, y))
  childless-Reports y n e =
      let two : 2 + n ≡ suc (suc n) = omega arith in
      ap (λ k. walk_from k doc start (some (enter, y))) two
      ∙ ap (λ v. (enter, y) ∷ walk_from (suc n) doc start v) (enter-none y e)

  child-apart :
      (y z : ℕ) → depth start ≤ depth y → contains (children doc y) z ≡ true → (z == start) ≡ false
  child-apart y z below h = elim (Bool-cases (z == start)) [
    | inl e ↦ absurd (omega (arith, depth-child z y h, ap depth ((==_iff z start).0 e)))
    | inr e ↦ e
  ]

  -- A node with children, each of which reports as it should.
  parent-Reports :
      (levels y n : ℕ) (xs : List ℕ)
      → children doc y ≡ xs
      → depth start ≤ depth y
      → ((z : ℕ) → contains (children doc y) z ≡ true → Reports levels z)
      → walk_from (length (visits doc (suc levels) y) + n) doc start (some (enter, y))
        ≡ visits doc (suc levels) y ++ walk_from n doc start (next_visit doc start (leave, y))
  parent-Reports levels y n [] e below rep = rw e (childless-Reports y n e)
  parent-Reports levels y n (c ∷ cs) e below rep =
      let inner = concat_map (visits doc levels) (c ∷ cs) in
      let back = next_visit doc start (leave, y) in
      let listed : (z : ℕ) → contains (c ∷ cs) z ≡ true → contains (children doc y) z ≡ true =
        λ z h. rw e h in
      let run =
        siblings-Reports levels y c cs (λ z h. rep z (listed z h))
          (λ z h. child-apart y z below (listed z h)) (λ z h. (good.rep.stands y z (listed z h)).0)
          (rw e at (good.rep.distinct y))
          (λ z h. (good.rep.stands y z (listed z h)).2 ∙ ap (after_in z) e) (suc n) in
      let fuel : length ((enter, y) ∷ inner ++ (leave, y) ∷ []) + n ≡ suc (length inner + suc n) =
        omega (arith, length-append inner ((leave, y) ∷ [])) in
      rw e (
        ap (λ k. walk_from k doc start (some (enter, y))) fuel
        ∙ ap (λ v. (enter, y) ∷ walk_from (length inner + suc n) doc start v) (enter-first y c cs e)
        ∙ ap ((enter, y) ∷◌)
            (run ∙ sym (append_assoc inner ((leave, y) ∷ []) (walk_from n doc start back))))

  node-Reports :
      (levels y : ℕ)
      → y < doc.held
      → doc.held ≤ depth y + suc levels
      → depth start ≤ depth y
      → Reports levels y
  node-Reports zero y b deep below n = childless-Reports y n (deepest y (children doc y) refl deep)
  node-Reports (suc levels) y b deep below n =
      parent-Reports levels y n (children doc y) refl below λ z h.
        let down = depth-child z y h in
        node-Reports levels z (good.bounded z y (good.rep.stands y z h).0).0 (omega arith)
          (omega arith)

walk_from-none : (n : ℕ) (doc : Document) (start : ℕ) → walk_from n doc start none ≡ []
walk_from-none zero doc start = refl
walk_from-none (suc n) doc start = refl

leave-start : (doc : Document) (start : ℕ) → next_visit doc start (leave, start) ≡ none
unfolding next_visit
leave-start doc start = rw (==-self start) refl

-- Walking a subtree by its links reports each node once on entering and once on leaving, in document
-- order: the recursion over the children of each node. As much fuel as there are visits is enough, and
-- more changes nothing. The document is well formed, and the start is its own.
pub walk-visits :
    (doc : Document) (start n : ℕ)
    → IsWellFormed doc
    → start < doc.held
    → walk (length (visits doc doc.held start) + n) doc start ≡ visits doc doc.held start
unfolding walk
walk-visits doc start n good b =
    let run = node-Reports doc good start doc.held start b (omega arith) (omega arith) n in
    let all_visits = visits doc doc.held start in
    run
    ∙ ap (λ v. all_visits ++ walk_from n doc start v) (leave-start doc start)
    ∙ ap (all_visits ++◌) (walk_from-none n doc start)
    ∙ append-nil all_visits
