-- ===== src/Dom/Rooted.antt =====
-- Climbing by the parents: every node of a tree is below a node with no parent, so the loop of
-- `is_ancestor`, crates/xenolith/src/dom/document.rs, ends within the number of the slots.
pub mod Kept
pub mod Avoiding
use xenolith.Common.{
  ℕ, zero, suc, ◌+◌, ◌≤◌, ◌<◌, ◌≡◌, ◌≢◌, refl, sym, ◌∙◌, ap, subst, Bool, true, false, ◌||◌, List,
  [], ◌∷◌, Option, none, some, arith, ◌==◌, if◌then◌else◌, contains, length, ==_iff, Bool-cases,
  Option-cases, inl, inr,
}
use xenolith.Dom.{Document}
use xenolith.Dom.Siblings.{Distinct}
use xenolith.Dom.Siblings.Bound.{Distinct-length}
use xenolith.Dom.Insert.{climb, is_ancestor}

pub data Rooted (doc : Document) : ℕ → Type 0 where
  top : {x : ℕ} → (doc.slot x).parent ≡ none → Rooted doc x
  under : {x p : ℕ} → (doc.slot x).parent ≡ some p → Rooted doc p → Rooted doc x

-- A path of parents that does not meet `c`.
pub data Avoids (doc : Document) (c : ℕ) : ℕ → Type 0 where
  away : {x : ℕ} → (x == c) ≡ false → (doc.slot x).parent ≡ none → Avoids doc c x
  past :
      {x p : ℕ} → (x == c) ≡ false → (doc.slot x).parent ≡ some p → Avoids doc c p → Avoids doc c x

module _ (doc : Document) where
  abbrev pub height : {x : ℕ} → Rooted doc x → ℕ
  height (top e) = 0
  height (under e r) = suc (height r)

  abbrev path : {x : ℕ} → Rooted doc x → List ℕ
  path {x} (top e) = x ∷ []
  path {x} (under e r) = x ∷ path r

  length-path : {x : ℕ} (r : Rooted doc x) → length (path r) ≡ suc (height r)
  length-path (top e) = refl
  length-path (under e r) = ap suc (length-path r)

  -- A node has one height.
  pub height_unique :
      {x y : ℕ} → x ≡ y → (r : Rooted doc x) (s : Rooted doc y) → height r ≡ height s
  height_unique q (top e) (top d) = refl
  height_unique q (top e) (under d s) = cc
  height_unique q (under e r) (top d) = cc
  height_unique {x} {y} q (under {p = p} e r) (under {p = p'} d s) =
      let same : p ≡ p' = cc in ap suc (height_unique same r s)

  at_self :
      {x y n : ℕ} (r : Rooted doc x)
      → (x == y) ≡ true
      → height r ≤ n
      → (s : Rooted doc y) × (height s ≤ n)
  at_self {x} {y} {n} r e h =
      subst (λ t. (s : Rooted doc t) × (height s ≤ n)) ((==_iff x y).0 e) (r, h)

  path-height :
      {x : ℕ} (r : Rooted doc x) (y : ℕ)
      → contains (path r) y ≡ true
      → (s : Rooted doc y) × (height s ≤ height r)
  path-height {x} (top e) y h = at_self (top e) (ground arith) (omega arith)
  path-height {x} (under e r) y h = elim (Bool-cases (x == y)) [
    | inl k ↦ at_self (under e r) k (omega arith)
    | inr k ↦ let (s, b) = path-height r y (ground arith) in (s, omega arith)
  ]

  -- The nodes of a path get higher, so they are distinct.
  path-Distinct : {x : ℕ} (r : Rooted doc x) → Distinct (path r)
  path-Distinct (top e) = (refl, tt)
  path-Distinct {x} (under e r) = elim (Bool-cases (contains (path r) x)) [
    | inl k ↦
        let (s, b) = path-height r x k in
        absurd (omega (arith, b, height_unique refl s (under e r)))
    | inr k ↦ (k, path-Distinct r)
  ]

  module _
      (bounded : (x p : ℕ) → (doc.slot x).parent ≡ some p → (x < doc.held) × (p < doc.held)) where
    path_below :
        {x : ℕ} (r : Rooted doc x)
        → x < doc.held
        → (y : ℕ) → contains (path r) y ≡ true
        → y < doc.held
    path_below (top e) b y h = ground arith
    path_below {x} (under {p = p} e r) b y h = ground (arith, path_below r (bounded x p e).1 y)

    pub height-held : {x : ℕ} (r : Rooted doc x) → x < doc.held → height r < doc.held
    height-held r b =
        omega (
          arith,
          length-path r,
          Distinct-length doc.held (path r) (path-Distinct r) (path_below r b),
        )

  pub climb-Avoids :
      {x : ℕ} (r : Rooted doc x) (fuel c : ℕ)
      → height r < fuel
      → climb fuel c (some x) doc ≡ false
      → Avoids doc c x
  climb-Avoids r zero c h k = absurd (omega arith)
  climb-Avoids {x} (top e) (suc fuel) c h k = away (ground arith) e
  climb-Avoids {x} (under e r) (suc fuel) c h k =
      past (ground arith) e (climb-Avoids r fuel c (omega arith) (ground (arith, e)))
