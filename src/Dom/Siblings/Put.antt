-- ===== src/Dom/Siblings/Put.antt =====
-- The neighbours of a node after another is put into the list, at the end or before a node of it:
-- crates/xenolith/src/dom/document.rs, `link_last` and `link_before`.
use xenolith.Common.{
  ℕ, ◌≡◌, refl, true, false, List, [], ◌∷◌, ◌++◌, Option, none, some, arith, ◌==◌, if◌then◌else◌,
  contains, contains-append, Bool-cases, inl, inr,
}
use xenolith.Dom.Siblings.{
  is_some_of, first_of, last_from, last_of, after_in, before_from, before_from-first,
  before_from-some, before_in, Distinct, put_before,
}

pub contains-put_before :
    (c r x : ℕ) (xs : List ℕ)
    → contains xs r ≡ true
    → contains (put_before c r xs) x ≡ (if c == x then true else contains xs x)
contains-put_before c r x [] h = cc
contains-put_before c r x (y ∷ ys) h = ground (arith, contains-put_before c r x ys)

pub put_before-Distinct :
    (c r : ℕ) (xs : List ℕ)
    → Distinct xs
    → contains xs c ≡ false
    → contains xs r ≡ true
    → Distinct (put_before c r xs)
put_before-Distinct c r [] d h k = cc
put_before-Distinct c r (x ∷ xs) d h k =
    ground (arith, put_before-Distinct c r xs, contains-put_before c r x xs)

pub append-Distinct :
    (c : ℕ) (xs : List ℕ) → Distinct xs → contains xs c ≡ false → Distinct (xs ++ c ∷ [])
append-Distinct c [] d h = (refl, tt)
append-Distinct c (x ∷ xs) d h = ground (arith, append-Distinct c xs, contains-append xs (c ∷ []) x)

pub is_some_of-last_from :
    (o : Option ℕ) (x : ℕ) (xs : List ℕ)
    → contains xs x ≡ false
    → is_some_of o x ≡ false
    → is_some_of (last_from o xs) x ≡ false
is_some_of-last_from o x [] h k = k
is_some_of-last_from o x (y ∷ ys) h k = ground (arith, is_some_of-last_from (some y) x ys)

last_from-some : (x : ℕ) (xs : List ℕ) → (y : ℕ) × (last_from (some x) xs ≡ some y)
last_from-some x [] = (x, refl)
last_from-some x (z ∷ xs) = last_from-some z xs

first_of-put_before :
    (c r : ℕ) (xs : List ℕ)
    → first_of (put_before c r xs) ≡ (if is_some_of (first_of xs) r then some c else first_of xs)
first_of-put_before c r [] = refl
first_of-put_before c r (x ∷ xs) = ground arith

pub after_in-append :
    (o : Option ℕ) (c x : ℕ) (xs : List ℕ)
    → Distinct xs
    → contains xs c ≡ false
    → is_some_of o x ≡ false
    → after_in x (xs ++ c ∷ []) ≡ (if is_some_of (last_from o xs) x then some c else after_in x xs)
after_in-append o c x [] d h k = ground arith
after_in-append o c x (y ∷ []) d h k = ground arith
after_in-append o c x (y ∷ z ∷ ys) d h k =
    ground (arith, after_in-append (some y) c x (z ∷ ys), is_some_of-last_from (some z) x ys)

pub before_from-append :
    (o : Option ℕ) (c x : ℕ) (xs : List ℕ)
    → contains xs c ≡ false
    → before_from o x (xs ++ c ∷ []) ≡ (if c == x then last_from o xs else before_from o x xs)
before_from-append o c x [] h = ground arith
before_from-append o c x (y ∷ ys) h = ground (arith, before_from-append (some y) c x ys)

pub first_of-append :
    (c : ℕ) (xs : List ℕ)
    → first_of (xs ++ c ∷ []) ≡ elim (last_of xs) [ none ↦ some c | some _ ↦ first_of xs ]
first_of-append c [] = refl
first_of-append c (x ∷ xs) = rw (last_from-some x xs).1 refl

pub last_from-append : (o : Option ℕ) (c : ℕ) (xs : List ℕ) → last_from o (xs ++ c ∷ []) ≡ some c
last_from-append o c [] = refl
last_from-append o c (x ∷ xs) = last_from-append (some x) c xs

pub after_in-put_before :
    (o : Option ℕ) (c r x : ℕ) (xs : List ℕ)
    → Distinct xs
    → contains xs c ≡ false
    → contains xs r ≡ true
    → is_some_of o x ≡ false
    → after_in x (put_before c r xs) ≡ (
        if c == x
        then some r
        else if is_some_of (before_from o r xs) x
        then some c
        else after_in x xs)
after_in-put_before o c r x [] d h k n = cc
after_in-put_before o c r x (y ∷ ys) d h k n = ground (
  arith,
  after_in-put_before (some y) c r x ys,
  first_of-put_before c r ys,
  before_from-first r y ys,
)

pub before_from-put_before :
    (o : Option ℕ) (c r x : ℕ) (xs : List ℕ)
    → Distinct xs
    → contains xs c ≡ false
    → contains xs r ≡ true
    → before_from o x (put_before c r xs)
      ≡ (if c == x then before_from o r xs else if r == x then some c else before_from o x xs)
before_from-put_before o c r x [] d h k = cc
before_from-put_before o c r x (y ∷ ys) d h k =
    ground (arith, before_from-put_before (some y) c r x ys)

pub last_from-put_before :
    (o : Option ℕ) (c r : ℕ) (xs : List ℕ)
    → contains xs r ≡ true
    → last_from o (put_before c r xs) ≡ last_from o xs
last_from-put_before o c r [] k = cc
last_from-put_before o c r (y ∷ ys) k = ground (arith, last_from-put_before (some y) c r ys)

pub first_of-put_before_in :
    (c r : ℕ) (xs : List ℕ)
    → contains xs r ≡ true
    → first_of (put_before c r xs) ≡ elim (before_in r xs) [ none ↦ some c | some _ ↦ first_of xs ]
first_of-put_before_in c r [] h = cc
first_of-put_before_in c r (x ∷ xs) h = elim (Bool-cases (x == r)) [
  | inl e ↦ rw e refl
  | inr e ↦ rw (e, (before_from-some x r xs (ground arith)).1) refl
]
