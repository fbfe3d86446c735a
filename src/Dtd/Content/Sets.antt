-- ===== src/Dtd/Content/Sets.antt =====
-- The position sets of a run: sorting, removing duplicates and filtering, by membership.
use xenolith.Common.{
  ℕ, ◌≡◌, refl, sym, ap, ◌∙◌, inl, inr, true, false, ◌&&◌, ◌||◌, List, [], ◌∷◌, arith, ◌==◌,
  Bool-cases, or-cases, or-left, or-right, is_empty, contains, contains-append, any, ==_iff,
  ==-self,
}
use xenolith.Dtd.Content.{ContentModel}
use xenolith.Dtd.Content.Run.{
  symbol, follows, sort_insert, sort, dedup_after, dedup_adjacent, dedup, matching, reachable,
}

contains-sort_insert :
    (x : ℕ) (ys : List ℕ) (a : ℕ) → contains (sort_insert x ys) a ≡ (a == x || contains ys a)
unfolding sort_insert
contains-sort_insert x [] a = refl
contains-sort_insert x (y ∷ ys) a = ground (arith, contains-sort_insert x ys a)

pub contains-sort : (xs : List ℕ) (a : ℕ) → contains (sort xs) a ≡ contains xs a
unfolding sort
contains-sort [] a = refl
contains-sort (x ∷ xs) a =
    contains-sort_insert x (sort xs) a ∙ ap (λ b. a == x || b) (contains-sort xs a)

contains-dedup_after :
    (x : ℕ) (ys : List ℕ) (a : ℕ)
    → (a == x || contains (dedup_after x ys) a) ≡ (a == x || contains ys a)
unfolding dedup_after
contains-dedup_after x [] a = refl
contains-dedup_after x (y ∷ ys) a =
    ground (arith, contains-dedup_after x ys a, contains-dedup_after y ys a)

pub contains-dedup_adjacent : (xs : List ℕ) (a : ℕ) → contains (dedup_adjacent xs) a ≡ contains xs a
unfolding dedup_adjacent
contains-dedup_adjacent [] a = refl
contains-dedup_adjacent (x ∷ xs) a = contains-dedup_after x xs a

pub contains-dedup : (xs : List ℕ) (a : ℕ) → contains (dedup xs) a ≡ contains xs a
unfolding dedup
contains-dedup xs a = contains-dedup_adjacent (sort xs) a ∙ contains-sort xs a

pub contains-matching :
    (m : ContentModel) (c : ℕ) (active : List ℕ) (p : ℕ)
    → contains (matching m c active) p ≡ (contains active p && symbol m p == c)
unfolding matching
contains-matching m c [] p = refl
contains-matching m c (q ∷ active) p = elim (Bool-cases (p == q)) [
  | inl e ↦ rw (← (==_iff p q).0 e) (ground (arith, contains-matching m c active p, ==-self p))
  | inr e ↦ ground (arith, contains-matching m c active p, e)
]

pub reachable-follows :
    (m : ContentModel) (next : List ℕ) (q : ℕ)
    → contains (reachable m next) q ≡ true
    → (p : ℕ) × (contains next p ≡ true) × (contains (follows m p) q ≡ true)
unfolding reachable
reachable-follows m [] q e = cc
reachable-follows m (p ∷ next) q e =
    elim (or-cases _ _ (sym (contains-append (follows m p) (reachable m next) q) ∙ e)) [
      | inl a ↦ (p, or-left _ _ (==-self p), a)
      | inr a ↦ let (r, b, c) = reachable-follows m next q a in (r, or-right _ _ b, c)
    ]

pub follows-reachable :
    (m : ContentModel) (next : List ℕ) (p q : ℕ)
    → contains next p ≡ true
    → contains (follows m p) q ≡ true
    → contains (reachable m next) q ≡ true
unfolding reachable
follows-reachable m [] p q e f = cc
follows-reachable m (r ∷ next) p q e f =
    contains-append (follows m r) (reachable m next) q ∙ elim (or-cases (p == r) _ e) [
      | inl same ↦ or-left (contains (follows m r) q) _ (rw (← (==_iff p r).0 same) f)
      | inr there ↦ or-right _ _ (follows-reachable m next p q there f)
    ]

pub any-contains :
    (last matched : List ℕ)
    → any (contains last) matched ≡ true
    → (p : ℕ) × (contains matched p ≡ true) × (contains last p ≡ true)
any-contains last [] e = cc
any-contains last (p ∷ matched) e = elim (or-cases _ _ e) [
  | inl a ↦ (p, or-left _ _ (==-self p), a)
  | inr a ↦ let (r, b, c) = any-contains last matched a in (r, or-right _ _ b, c)
]

pub contains-any :
    (last matched : List ℕ) (p : ℕ)
    → contains matched p ≡ true
    → contains last p ≡ true
    → any (contains last) matched ≡ true
contains-any last [] p e f = cc
contains-any last (r ∷ matched) p e f = elim (or-cases (p == r) _ e) [
  | inl same ↦ or-left (contains last r) _ (rw (← (==_iff p r).0 same) f)
  | inr there ↦ or-right _ _ (contains-any last matched p there f)
]

pub nonempty : (xs : List ℕ) (p : ℕ) → contains xs p ≡ true → is_empty xs ≡ false
nonempty [] p e = cc
nonempty (x ∷ xs) p e = refl
