-- ===== src/Uri/Cut.antt =====
-- Cutting a text at a delimiter: the lemmas on `find`, `split_once` and `strip_prefix` that the
-- proofs on crates/xenolith/src/uri.rs share.
use xenolith.Common.{
  ℕ, ==_iff, zero, suc, drop, ◌≡◌, refl, Bool, true, false, [], ◌∷◌, ◌++◌, none, some, arith,
  ==-self, contains, all,
}
use xenolith.Text.{Text, before, from, after}

pub before-cut : (c : ℕ) (s t : Text) → contains s c ≡ false → before c (s ++ c ∷ t) ≡ s
before-cut c [] t h = ground (arith, ==-self c)
before-cut c (d ∷ s) t h = ground (arith, before-cut c s t)

pub before-free : (c : ℕ) (s : Text) → contains s c ≡ false → before c s ≡ s
before-free c [] h = refl
before-free c (d ∷ s) h = ground (arith, before-free c s)

pub after-cut : (c : ℕ) (s t : Text) → contains s c ≡ false → after c (s ++ c ∷ t) ≡ some t
unfolding after
after-cut c [] t h = ground (arith, ==-self c)
after-cut c (d ∷ s) t h = ground (arith, after-cut c s t)

pub after-free : (c : ℕ) (s : Text) → contains s c ≡ false → after c s ≡ none
unfolding after
after-free c [] h = refl
after-free c (d ∷ s) h = ground (arith, after-free c s)

pub from-cut : (c : ℕ) (s t : Text) → contains s c ≡ false → from c (s ++ c ∷ t) ≡ c ∷ t
from-cut c [] t h = ground (arith, ==-self c)
from-cut c (d ∷ s) t h = ground (arith, from-cut c s t)

pub from-free : (c : ℕ) (s : Text) → contains s c ≡ false → from c s ≡ []
from-free c [] h = refl
from-free c (d ∷ s) h = ground (arith, from-free c s)

pub contains-before : (c : ℕ) (s : Text) → contains (before c s) c ≡ false
contains-before c [] = refl
contains-before c (d ∷ s) = ground (arith, contains-before c s)

module _ (p : ℕ → Bool) where
  pub all-before : (c : ℕ) (s : Text) → all p s ≡ true → all p (before c s) ≡ true
  all-before c [] h = refl
  all-before c (d ∷ s) h = ground (arith, all-before c s)

  pub all-from : (c : ℕ) (s : Text) → all p s ≡ true → all p (from c s) ≡ true
  all-from c [] h = refl
  all-from c (d ∷ s) h = ground (arith, all-from c s)

  pub all-after : (c : ℕ) (s t : Text) → all p s ≡ true → after c s ≡ some t → all p t ≡ true
  unfolding after
  all-after c [] t h e = ground arith
  all-after c (d ∷ s) t h e = ground (arith, all-after c s t)

-- A text without a character that is part of a text without it.
pub contains-before_of :
    (c d : ℕ) (s : Text) → contains s d ≡ false → contains (before c s) d ≡ false
contains-before_of c d [] h = refl
contains-before_of c d (e ∷ s) h = ground (arith, contains-before_of c d s)

pub contains-from_of : (c d : ℕ) (s : Text) → contains s d ≡ false → contains (from c s) d ≡ false
contains-from_of c d [] h = refl
contains-from_of c d (e ∷ s) h = ground (arith, contains-from_of c d s)

pub contains-after_of :
    (c d : ℕ) (s t : Text) → contains s d ≡ false → after c s ≡ some t → contains t d ≡ false
unfolding after
contains-after_of c d [] t h e = ground arith
contains-after_of c d (x ∷ s) t h e = ground (arith, contains-after_of c d s t)

pub all-drop : (p : ℕ → Bool) (n : ℕ) (s : Text) → all p s ≡ true → all p (drop n s) ≡ true
all-drop p zero s h = h
all-drop p (suc n) [] h = refl
all-drop p (suc n) (c ∷ s) h = ground (arith, all-drop p n s)

pub join-cut : (c : ℕ) (s t : Text) → after c s ≡ some t → s ≡ before c s ++ c ∷ t
unfolding after
join-cut c [] t e = ground arith
join-cut c (d ∷ s) t e = ground (arith, ==_iff d c, join-cut c s t)
