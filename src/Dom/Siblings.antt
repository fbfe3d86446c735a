-- ===== src/Dom/Siblings.antt =====
-- Lists of distinct nodes as orders of siblings: who comes first and last, before and after a node.
-- These are what the five links of a slot stand for in crates/xenolith/src/dom/document.rs.
pub mod Put
pub mod Bound
pub mod Splice
use xenolith.Common.{
  ℕ, zero, suc, ◌+◌, ◌≤◌, ◌<◌, ◌≡◌, ◌≢◌, refl, Bool, true, false, ◌||◌, List, [], ◌∷◌, ◌++◌, Option,
  none, some, arith, ◌==◌, if◌then◌else◌, contains, Bool-cases, inl, inr,
}

abbrev pub is_some_of : Option ℕ → ℕ → Bool
is_some_of none x = false
is_some_of (some y) x = y == x

abbrev pub first_of : List ℕ → Option ℕ
first_of [] = none
first_of (x ∷ xs) = some x

abbrev pub last_from : Option ℕ → List ℕ → Option ℕ
last_from o [] = o
last_from o (x ∷ xs) = last_from (some x) xs

abbrev pub last_of : List ℕ → Option ℕ
last_of xs = last_from none xs

abbrev pub after_in : ℕ → List ℕ → Option ℕ
after_in x [] = none
after_in x (y ∷ ys) = if y == x then first_of ys else after_in x ys

-- The element before `x` in a list that `o` stands before.
abbrev pub before_from : Option ℕ → ℕ → List ℕ → Option ℕ
before_from o x [] = none
before_from o x (y ∷ ys) = if y == x then o else before_from (some y) x ys

abbrev pub before_in : ℕ → List ℕ → Option ℕ
before_in x xs = before_from none x xs

abbrev pub Distinct : List ℕ → Type 0
Distinct [] = Unit
Distinct (x ∷ xs) = (contains xs x ≡ false) × Distinct xs

abbrev pub without : ℕ → List ℕ → List ℕ
without c [] = []
without c (x ∷ xs) = if x == c then without c xs else x ∷ without c xs

-- `c` put before `r`.
abbrev pub put_before : ℕ → ℕ → List ℕ → List ℕ
put_before c r [] = []
put_before c r (x ∷ xs) = if x == r then c ∷ x ∷ xs else x ∷ put_before c r xs

pub contains-without :
    (c x : ℕ) (xs : List ℕ) → contains (without c xs) x ≡ (if c == x then false else contains xs x)
contains-without c x [] = ground arith
contains-without c x (y ∷ ys) = ground (arith, contains-without c x ys)

pub without-absent : (c : ℕ) (xs : List ℕ) → contains xs c ≡ false → without c xs ≡ xs
without-absent c [] h = refl
without-absent c (x ∷ xs) h = ground (arith, without-absent c xs)

pub without-Distinct : (c : ℕ) (xs : List ℕ) → Distinct xs → Distinct (without c xs)
without-Distinct c [] d = tt
without-Distinct c (x ∷ xs) d = ground (arith, without-Distinct c xs, contains-without c x xs)

pub first_of-absent :
    (c : ℕ) (xs : List ℕ) → contains xs c ≡ false → is_some_of (first_of xs) c ≡ false
first_of-absent c [] h = refl
first_of-absent c (x ∷ xs) h = ground arith

pub before_from-absent :
    (o : Option ℕ) (c : ℕ) (xs : List ℕ) → contains xs c ≡ false → before_from o c xs ≡ none
before_from-absent o c [] h = refl
before_from-absent o c (x ∷ xs) h = ground (arith, before_from-absent (some x) c xs)

pub after_in-absent : (c : ℕ) (xs : List ℕ) → contains xs c ≡ false → after_in c xs ≡ none
after_in-absent c [] h = refl
after_in-absent c (x ∷ xs) h = ground (arith, after_in-absent c xs)

pub is_some_of-after_in :
    (c x : ℕ) (xs : List ℕ) → contains xs x ≡ false → is_some_of (after_in c xs) x ≡ false
is_some_of-after_in c x [] h = refl
is_some_of-after_in c x (y ∷ ys) h =
    ground (arith, is_some_of-after_in c x ys, first_of-absent x ys)

-- A node that does not come first has the same one before it, whatever the list stands after.
before_from_other :
    (o p : Option ℕ) (x : ℕ) (xs : List ℕ)
    → before_from o x xs ≡ (if is_some_of (first_of xs) x then o else before_from p x xs)
before_from_other o p x [] = refl
before_from_other o p x (y ∷ ys) = ground arith

pub is_some_of-before_from :
    (o : Option ℕ) (c x : ℕ) (xs : List ℕ)
    → contains xs x ≡ false
    → is_some_of o x ≡ false
    → is_some_of (before_from o c xs) x ≡ false
is_some_of-before_from o c x [] h k = refl
is_some_of-before_from o c x (y ∷ ys) h k = ground (arith, is_some_of-before_from (some y) c x ys)

pub before_from-first :
    (c y : ℕ) (ys : List ℕ)
    → contains ys y ≡ false
    → is_some_of (before_from (some y) c ys) y ≡ is_some_of (first_of ys) c
before_from-first c y [] h = refl
before_from-first c y (z ∷ ys) h = ground (arith, is_some_of-before_from (some z) c y ys)

pub first_of-without :
    (c : ℕ) (xs : List ℕ)
    → Distinct xs
    → first_of (without c xs) ≡ (if is_some_of (first_of xs) c then after_in c xs else first_of xs)
first_of-without c [] d = refl
first_of-without c (x ∷ xs) d = ground (arith, without-absent c xs)

-- Taking `c` out joins its neighbours, and no other node sees it.
after_in-without_from :
    (o : Option ℕ) (c x : ℕ) (xs : List ℕ)
    → Distinct xs
    → is_some_of o x ≡ false
    → (x == c) ≡ false
    → after_in x (without c xs)
      ≡ (if is_some_of (before_from o c xs) x then after_in c xs else after_in x xs)
after_in-without_from o c x [] d k n = refl
after_in-without_from o c x (y ∷ ys) d k n = ground (
  arith,
  after_in-without_from (some y) c x ys,
  without-absent c ys,
  first_of-without c ys d.1,
  before_from-first c y ys d.0,
)

before_from-without :
    (o : Option ℕ) (c x : ℕ) (xs : List ℕ)
    → Distinct xs
    → (x == c) ≡ false
    → before_from o x (without c xs)
      ≡ (if is_some_of (after_in c xs) x then before_from o c xs else before_from o x xs)
before_from-without o c x [] d n = refl
before_from-without o c x (y ∷ ys) d n = ground (
  arith,
  before_from-without (some y) c x ys,
  without-absent c ys,
  before_from_other o (some c) x ys,
  is_some_of-after_in c x ys,
)

pub last_from-without :
    (o : Option ℕ) (c : ℕ) (xs : List ℕ)
    → Distinct xs
    → contains xs c ≡ true
    → last_from o (without c xs)
      ≡ elim (after_in c xs) [ none ↦ before_from o c xs | some _ ↦ last_from o xs ]
last_from-without o c [] d k = cc
last_from-without o c (x ∷ []) d k = ground arith
last_from-without o c (x ∷ y ∷ ys) d k =
    ground (arith, last_from-without (some x) c (y ∷ ys), without-absent c (y ∷ ys))

pub after_in-without :
    (c x : ℕ) (xs : List ℕ)
    → Distinct xs
    → (x == c) ≡ false
    → after_in x (without c xs)
      ≡ (if is_some_of (before_in c xs) x then after_in c xs else after_in x xs)
after_in-without c x xs d n = after_in-without_from none c x xs d refl n

pub before_in-without :
    (c x : ℕ) (xs : List ℕ)
    → Distinct xs
    → (x == c) ≡ false
    → before_in x (without c xs)
      ≡ (if is_some_of (after_in c xs) x then before_in c xs else before_in x xs)
before_in-without c x xs d n = before_from-without none c x xs d n

pub before_from-some :
    (y c : ℕ) (xs : List ℕ) → contains xs c ≡ true → (z : ℕ) × (before_from (some y) c xs ≡ some z)
before_from-some y c [] h = cc
before_from-some y c (x ∷ xs) h = elim (Bool-cases (x == c)) [
  | inl e ↦ (y, rw e refl)
  | inr e ↦ let (z, k) = before_from-some x c xs (ground arith) in (z, rw e k)
]

pub first_of-without_in :
    (c : ℕ) (xs : List ℕ)
    → Distinct xs
    → contains xs c ≡ true
    → first_of (without c xs)
      ≡ elim (before_in c xs) [ none ↦ after_in c xs | some _ ↦ first_of xs ]
first_of-without_in c [] d h = cc
first_of-without_in c (x ∷ xs) d h = elim (Bool-cases (x == c)) [
  | inl e ↦ rw e (ground (arith, without-absent c xs))
  | inr e ↦ rw (e, (before_from-some x c xs (ground arith)).1) refl
]

pub last_of-without :
    (c : ℕ) (xs : List ℕ)
    → Distinct xs
    → contains xs c ≡ true
    → last_of (without c xs) ≡ elim (after_in c xs) [ none ↦ before_in c xs | some _ ↦ last_of xs ]
last_of-without c xs d k = last_from-without none c xs d k

-- No node comes after itself.
pub after_in_self : (c : ℕ) (xs : List ℕ) → Distinct xs → is_some_of (after_in c xs) c ≡ false
after_in_self c [] d = refl
after_in_self c (x ∷ xs) d = ground (arith, after_in_self c xs, first_of-absent c xs)
