-- ===== src/Chars/Names.antt =====
-- Names, NCNames and QNames against each other: crates/xenolith/src/chars.rs.
use xenolith.Common.{
  ℕ, ◌≡◌, ◌↔◌, refl, ◌∙◌, inl, inr, true, false, [], ◌∷◌, ◌++◌, Option, none, some, Option-cases,
  arith, all, contains,
}
use xenolith.Text.{Text, before, after}
use xenolith.Uri.Cut.{before-cut, after-cut, after-free, join-cut}
use xenolith.Chars.{
  is_char, is_name_start_char, is_name_char, is_ncname_start_char, is_ncname_char, is_name,
  is_ncname, is_nmtoken, split_qname, qname_of,
}

-- The classes are nested: an NCName is a Name without a colon, a Name is a Nmtoken, and each of
-- their characters may stand in a document.
is_char-name_char : (c : ℕ) → is_name_char c ≡ true → is_char c ≡ true
unfolding is_char is_name_char is_name_start_char
is_char-name_char c h = ground arith

all_name-ncname :
    (s : Text)
    → (all is_ncname_char s ≡ true) ↔ ((all is_name_char s ≡ true) × (contains s b':' ≡ false))
unfolding is_ncname_char
all_name-ncname [] = (λ h. (refl, refl), λ h. refl)
all_name-ncname (c ∷ s) = ground (arith, all_name-ncname s)

all_char-name : (s : Text) → all is_name_char s ≡ true → all is_char s ≡ true
all_char-name [] h = refl
all_char-name (c ∷ s) h = ground (arith, is_char-name_char c, all_char-name s)

-- A text is an NCName where it is a Name and has no colon.
pub is_ncname_iff :
    (s : Text) → (is_ncname s ≡ true) ↔ ((is_name s ≡ true) × (contains s b':' ≡ false))
unfolding is_ncname is_name is_ncname_start_char
is_ncname_iff [] = ground arith
is_ncname_iff (c ∷ s) = ground (arith, all_name-ncname s)

-- A Name is a Nmtoken, and each of its characters may stand in a document.
pub is_nmtoken-name : (s : Text) → is_name s ≡ true → (is_nmtoken s ≡ true) × (all is_char s ≡ true)
unfolding is_name is_nmtoken
is_nmtoken-name [] h = ground arith
is_nmtoken-name (c ∷ s) h =
    let start : is_name_char c ≡ true = unfold is_name_char in ground arith in
    ground (arith, start, all_char-name (c ∷ s))

ncname-free : (s : Text) → is_ncname s ≡ true → contains s b':' ≡ false
ncname-free s h = ((is_ncname_iff s).0 h).1

-- The lexical form of a split name.
abbrev pub lexical : Option Text × Text → Text
lexical (none, local) = local
lexical (some prefix, local) = prefix ++ b':' ∷ local

abbrev pub IsPair : Option Text × Text → Type 0
IsPair (none, local) = is_ncname local ≡ true
IsPair (some prefix, local) = (is_ncname prefix ≡ true) × (is_ncname local ≡ true)

-- `split_qname` returns exactly the pairs of NCNames, the prefix optional, that the text is the
-- lexical form of; so no text has two of them.
pub split_qname_iff :
    (s : Text) (pair : Option Text × Text)
    → (split_qname s ≡ some pair) ↔ ((s ≡ lexical pair) × IsPair pair)
unfolding split_qname
split_qname_iff s (none, local) = elim (Option-cases (after b':' s)) [
  | inl e ↦ (
    λ h. let h : qname_of s (before b':' s) none ≡ some (none, local) = rw e at h in ground arith,
    λ (same, nc). rw same (rw (after-free b':' local (ncname-free local nc), nc) refl),
  )
  | inr (t, e) ↦ (
    λ h.
        let h : qname_of s (before b':' s) (some t) ≡ some (none, local) = rw e at h in
        ground arith,
    λ (same, nc). rw same (rw (after-free b':' local (ncname-free local nc), nc) refl),
  )
]
split_qname_iff s (some prefix, local) = elim (Option-cases (after b':' s)) [
  | inl e ↦ (
    λ h.
        let h : qname_of s (before b':' s) none ≡ some (some prefix, local) = rw e at h in
        ground arith,
    backward,
  )
  | inr (t, e) ↦ (
    λ h.
        let h : qname_of s (before b':' s) (some t) ≡ some (some prefix, local) = rw e at h in
        forward t e h,
    backward,
  )
]
  where
    forward :
        (t : Text)
        → after b':' s ≡ some t
        → qname_of s (before b':' s) (some t) ≡ some (some prefix, local)
        → (s ≡ prefix ++ b':' ∷ local) × ((is_ncname prefix ≡ true) × (is_ncname local ≡ true))
    forward t e h =
        let (first, (second, (valid, valid'))) : (before b':' s ≡ prefix)
            × ((t ≡ local) × ((is_ncname (before b':' s) ≡ true) × (is_ncname t ≡ true))) =
          ground arith in
        (join-cut b':' s t e ∙ rw (first, second) refl, (rw first at valid, rw second at valid'))

    backward :
        (s ≡ prefix ++ b':' ∷ local) × ((is_ncname prefix ≡ true) × (is_ncname local ≡ true))
        → split_qname s ≡ some (some prefix, local)
    backward (same, (valid, valid')) =
        let free = ncname-free prefix valid in
        rw same (
          rw (before-cut b':' prefix local free, after-cut b':' prefix local free, valid, valid')
            refl)
