-- ===== src/Uri/Parsed.antt =====
-- What `UriReference::parse` returns is well-formed: `split_scheme`, `split_authority` and
-- `components` on a text of the characters of a URI.
use xenolith.Common.{
  ℕ, ◌≡◌, refl, inl, inr, Bool, true, false, Bool-cases, and-both, List, [], ◌∷◌, Option, none,
  Option-cases, arith, contains, all, drop,
}
use xenolith.Text.{
  Text, before, from, after, starts_with, eq_text_iff, to_lower, to_ascii_lowercase,
  is_ascii_alphabetic,
}
use xenolith.Uri.{
  is_uri_char, is_scheme, is_scheme_char, split_once_at, split_scheme, split_authority, components,
}
use xenolith.Uri.Cut.{all-from, all-after, all-drop}
use xenolith.Uri.Printed.{
  IsWellFormed, holds, is_lower_scheme, names_scheme, is_rooted, free_of, path_fits,
}

-- Cutting at a delimiter takes it out of the part before.
free_of-before :
    (c : ℕ) (marks : List ℕ) (s : Text)
    → free_of marks s ≡ true
    → free_of (c ∷ marks) (before c s) ≡ true
free_of-before c marks [] h = refl
free_of-before c marks (d ∷ s) h = ground (arith, free_of-before c marks s)

to_lower_idem : (c : ℕ) → to_lower (to_lower c) ≡ to_lower c
unfolding to_lower
to_lower_idem c = ground arith

pub to_ascii_lowercase_idem :
    (s : Text) → to_ascii_lowercase (to_ascii_lowercase s) ≡ to_ascii_lowercase s
unfolding to_ascii_lowercase
to_ascii_lowercase_idem [] = refl
to_ascii_lowercase_idem (c ∷ s) = rw (to_lower_idem c, to_ascii_lowercase_idem s) refl

is_scheme_char-lower : (c : ℕ) → is_scheme_char c ≡ true → is_scheme_char (to_lower c) ≡ true
unfolding to_lower
is_scheme_char-lower c h = ground arith

all_scheme-lower :
    (s : Text) → all is_scheme_char s ≡ true → all is_scheme_char (to_ascii_lowercase s) ≡ true
unfolding to_ascii_lowercase
all_scheme-lower [] h = refl
all_scheme-lower (c ∷ s) h = ground (arith, is_scheme_char-lower c, all_scheme-lower s)

is_alphabetic-lower :
    (c : ℕ) → is_ascii_alphabetic c ≡ true → is_ascii_alphabetic (to_lower c) ≡ true
unfolding to_lower
is_alphabetic-lower c h = ground arith

is_lower_scheme-lower :
    (s : Text) → is_scheme s ≡ true → is_lower_scheme (to_ascii_lowercase s) ≡ true
unfolding is_scheme
is_lower_scheme-lower [] h = ground arith
is_lower_scheme-lower (c ∷ s) h =
    let same =
      eq_text_iff (to_ascii_lowercase (to_ascii_lowercase (c ∷ s))) (to_ascii_lowercase (c ∷ s)) in
    let split = and-both (is_ascii_alphabetic c) (all is_scheme_char s) h in
    rw (same.1 (to_ascii_lowercase_idem (c ∷ s))) (
      unfold to_ascii_lowercase in
      rw (is_alphabetic-lower c split.0, all_scheme-lower s split.1) refl)

-- What `split_scheme` leaves.
split_scheme-holds : (s : Text) → holds is_lower_scheme (split_scheme s).0 ≡ true
unfolding split_scheme
split_scheme-holds s = elim (Option-cases (after b':' s)) [
  | inl e ↦ rw e refl
  | inr (t, e) ↦ elim (Bool-cases (is_scheme (before b':' s))) [
    | inl f ↦ rw (e, f) (is_lower_scheme-lower (before b':' s) f)
    | inr f ↦ rw (e, f) refl
  ]
]

split_scheme-all : (p : ℕ → Bool) (s : Text) → all p s ≡ true → all p (split_scheme s).1 ≡ true
unfolding split_scheme
split_scheme-all p s h = elim (Option-cases (after b':' s)) [
  | inl e ↦ rw e h
  | inr (t, e) ↦ elim (Bool-cases (is_scheme (before b':' s))) [
    | inl f ↦ rw (e, f) (all-after p b':' s t h e)
    | inr f ↦ rw (e, f) h
  ]
]

contains-after-none : (c : ℕ) (s : Text) → after c s ≡ none → contains s c ≡ false
unfolding after
contains-after-none c [] e = refl
contains-after-none c (d ∷ s) e = ground (arith, contains-after-none c s)

split_scheme-none : (s : Text) → (split_scheme s).0 ≡ none → names_scheme (split_scheme s).1 ≡ false
unfolding split_scheme
split_scheme-none s h = elim (Option-cases (after b':' s)) [
  | inl e ↦ rw (e, contains-after-none b':' s e) refl
  | inr (t, e) ↦ elim (Bool-cases (is_scheme (before b':' s))) [
    | inl f ↦ ground (arith, rw (e, f) at h)
    | inr f ↦ rw (e, f) (ground arith)
  ]
]

-- What `split_authority` leaves.
split_authority-all :
    (p : ℕ → Bool) (s : Text) → all p s ≡ true → all p (split_authority s).1 ≡ true
unfolding split_authority
split_authority-all p s h = elim (Bool-cases (starts_with (b'/' ∷ b'/' ∷ []) s)) [
  | inl e ↦ rw e (all-from p b'/' (drop 2 s) (all-drop p 2 s h))
  | inr e ↦ rw e h
]

split_authority-holds :
    (marks : List ℕ) (s : Text)
    → free_of marks s ≡ true
    → holds (free_of (b'/' ∷ marks)) (split_authority s).0 ≡ true
unfolding split_authority
split_authority-holds marks s h = elim (Bool-cases (starts_with (b'/' ∷ b'/' ∷ []) s)) [
  | inl e ↦ rw e (free_of-before b'/' marks (drop 2 s) (all-drop _ 2 s h))
  | inr e ↦ rw e refl
]

is_rooted-from : (s : Text) → is_rooted (from b'/' s) ≡ true
unfolding starts_with
is_rooted-from [] = refl
is_rooted-from (c ∷ s) = ground (arith, is_rooted-from s)

split_authority-fits :
    (scheme : Option Text) (s : Text)
    → (scheme ≡ none → names_scheme s ≡ false)
    → path_fits scheme (split_authority s).0 (split_authority s).1 ≡ true
unfolding split_authority
split_authority-fits scheme s h = elim (Bool-cases (starts_with (b'/' ∷ b'/' ∷ []) s)) [
  | inl e ↦ rw e (is_rooted-from (drop 2 s))
  | inr e ↦ rw e (ground arith)
]

split_once-holds :
    (marks : List ℕ) (c : ℕ) (s : Text)
    → free_of marks s ≡ true
    → holds (free_of marks) (split_once_at s c).1 ≡ true
unfolding split_once_at
split_once-holds marks c s h = elim (Option-cases (after c s)) [
  | inl e ↦ rw e refl
  | inr (t, e) ↦ rw e (all-after _ c s t h e)
]

split_once-free :
    (marks : List ℕ) (c : ℕ) (s : Text)
    → free_of marks s ≡ true
    → free_of (c ∷ marks) (split_once_at s c).0 ≡ true
unfolding split_once_at
split_once-free marks c s h = free_of-before c marks s h

free_of-nil : (s : Text) → all is_uri_char s ≡ true → free_of [] s ≡ true
free_of-nil [] h = refl
free_of-nil (c ∷ s) h = ground (arith, free_of-nil s)

pub components-IsWellFormed : (s : Text) → all is_uri_char s ≡ true → IsWellFormed (components s)
unfolding components
components-IsWellFormed s h = record {
  scheme_fits = split_scheme-holds main;
  authority_fits = split_authority-holds (b'?' ∷ b'#' ∷ []) hier hier_free;
  path_free = split_authority-all _ hier hier_free;
  query_fits = split_once-holds (b'#' ∷ []) b'?' rest rest_free;
  fragment_fits = split_once-holds [] b'#' s uri;
  path_follows = split_authority-fits (split_scheme main).0 hier (split_scheme-none main);
}
  where
    uri : free_of [] s ≡ true
    uri = free_of-nil s h

    rest : Text
    rest = (split_once_at s b'#').0

    rest_free : free_of (b'#' ∷ []) rest ≡ true
    rest_free = split_once-free [] b'#' s uri

    main : Text
    main = (split_once_at rest b'?').0

    main_free : free_of (b'?' ∷ b'#' ∷ []) main ≡ true
    main_free = split_once-free (b'#' ∷ []) b'?' rest rest_free

    hier : Text
    hier = (split_scheme main).1

    hier_free : free_of (b'?' ∷ b'#' ∷ []) hier ≡ true
    hier_free = split_scheme-all _ main main_free
