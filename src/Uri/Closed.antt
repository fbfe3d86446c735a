-- ===== src/Uri/Closed.antt =====
-- Resolving keeps references well-formed: `UriReference::resolve` against `parse` and `Display`.
use xenolith.Common.{
  ℕ, zero, suc, ◌≡◌, refl, ◌⊎◌, inl, inr, Bool, true, false, Bool-cases, List, [], ◌∷◌, ◌++◌,
  Option, none, some, arith, ==_iff, if◌then◌else◌, all, all-append, is_empty, length,
}
use xenolith.Text.{Text, starts_with}
use xenolith.Uri.{UriReference, is_uri_char, parse, to_text, ok}
use xenolith.Uri.Cut.{all-before, all-from, all-drop}
use xenolith.Uri.Printed.{IsWellFormed, holds, is_lower_scheme, is_rooted, free_of, path_fits}
use xenolith.Uri.RoundTrip.{parse-to_text}
use xenolith.Uri.Resolve.{
  slash, pop_segment, leading, following, step, remove_loop, remove_dot_segments, directory,
  is_some, merge, or_else, split, resolve,
}
use xenolith.Uri.Segments.{render, settle}
use xenolith.Uri.Stable.{remove_dot_segments-split}

module _ (p : ℕ → Bool) (h : p slash ≡ true) where
  all-pop_segment : (out : Text) → all p out ≡ true → all p (pop_segment out) ≡ true
  unfolding pop_segment
  all-pop_segment [] a = refl
  all-pop_segment (c ∷ out) a = ground (arith, all-pop_segment out)

  all-leading : (s : Text) → all p s ≡ true → all p (leading s) ≡ true
  all-leading [] a = refl
  all-leading (c ∷ s) a = ground (arith, all-before p slash s)

  all-following : (s : Text) → all p s ≡ true → all p (following s) ≡ true
  all-following [] a = refl
  all-following (c ∷ s) a = all-from p slash s (ground arith)

  step-all :
      (input out : Text)
      → all p input ≡ true
      → all p out ≡ true
      → (all p (step input out).0 ≡ true) × (all p (step input out).1 ≡ true)
  unfolding step
  step-all input out a b = ground (
    arith,
    all-drop p 2 input a,
    all-drop p 3 input a,
    all-pop_segment out b,
    all-following input a,
    all-append p out (leading input) b (all-leading input a),
  )

  remove_loop-all :
      (n : ℕ) (input out : Text)
      → all p input ≡ true
      → all p out ≡ true
      → all p (remove_loop n input out) ≡ true
  unfolding remove_loop
  remove_loop-all n [] out a b = b
  remove_loop-all zero (c ∷ input) out a b = b
  remove_loop-all (suc n) (c ∷ input) out a b =
      let (a', b') = step-all (c ∷ input) out a b in remove_loop-all n _ _ a' b'

  remove_dot_segments-all :
      (path : Text) → all p path ≡ true → all p (remove_dot_segments path) ≡ true
  unfolding remove_dot_segments
  remove_dot_segments-all path a = remove_loop-all (length path) path [] a refl

  all-directory : (path : Text) → all p path ≡ true → all p (directory path) ≡ true
  unfolding directory
  all-directory [] a = refl
  all-directory (c ∷ path) a = ground (arith, all-directory path)

  all-merge :
      (base : UriReference) (path : Text)
      → all p base.path ≡ true
      → all p path ≡ true
      → all p (merge base path) ≡ true
  unfolding merge
  all-merge base path a b =
      ground (arith, all-append p (directory base.path) path (all-directory base.path a) b)

is_rooted-render : (segments : List Text) → is_rooted (render segments) ≡ true
unfolding render starts_with
is_rooted-render [] = refl
is_rooted-render (s ∷ segments) = refl

remove_dot_segments-is_rooted :
    (path : Text) → is_rooted path ≡ true → is_rooted (remove_dot_segments path) ≡ true
unfolding starts_with
remove_dot_segments-is_rooted [] h = unfold remove_dot_segments remove_loop in refl
remove_dot_segments-is_rooted (c ∷ path) h =
    let e : c ≡ slash = ground (arith, ==_iff c slash) in
    rw (e, remove_dot_segments-split path) (is_rooted-render (settle [] (split path)))

is_rooted-directory :
    (a path : Text)
    → is_rooted a ≡ true
    → is_empty a ≡ false
    → is_rooted (directory a ++ path) ≡ true
unfolding directory starts_with
is_rooted-directory [] path h e = ground arith
is_rooted-directory (c ∷ a) path h e = ground arith

is_rooted-merge :
    (base : UriReference) (path : Text)
    → is_some base.authority ≡ true
    → is_rooted base.path ≡ true
    → is_rooted (merge base path) ≡ true
unfolding merge starts_with
is_rooted-merge base path h rooted = ground (arith, is_rooted-directory base.path path rooted)

abbrev pub path_marks : List ℕ
path_marks = b'?' ∷ b'#' ∷ []

free_of-remove :
    (path : Text)
    → free_of path_marks path ≡ true
    → free_of path_marks (remove_dot_segments path) ≡ true
unfolding is_uri_char
free_of-remove path a = remove_dot_segments-all _ refl path a

free_of-merge :
    (base : UriReference) (path : Text)
    → free_of path_marks base.path ≡ true
    → free_of path_marks path ≡ true
    → free_of path_marks (merge base path) ≡ true
unfolding is_uri_char
free_of-merge base path a b = all-merge _ refl base path a b

rooted_fits :
    (scheme a : Option Text) (path : Text)
    → is_some a ≡ true
    → is_rooted path ≡ true
    → path_fits scheme a path ≡ true
rooted_fits scheme (some a) path h r = r
rooted_fits scheme none path h r = ground arith

fits_rooted :
    (scheme a : Option Text) (path : Text)
    → is_some a ≡ true
    → path_fits scheme a path ≡ true
    → is_rooted path ≡ true
fits_rooted scheme (some a) path h r = r
fits_rooted scheme none path h r = ground arith

-- A reference with its dot segments removed, which takes another scheme.
removed-IsWellFormed :
    (scheme : Option Text) (u : UriReference)
    → IsWellFormed u
    → holds is_lower_scheme scheme ≡ true
    → is_some u.authority ≡ true
    → IsWellFormed (record u { scheme = scheme; path = remove_dot_segments u.path })
removed-IsWellFormed scheme u w h authority = record {
  scheme_fits = h;
  authority_fits = w.authority_fits;
  path_free = free_of-remove u.path w.path_free;
  query_fits = w.query_fits;
  fragment_fits = w.fragment_fits;
  path_follows = rooted_fits scheme u.authority _ authority (
      remove_dot_segments-is_rooted u.path
        (fits_rooted u.scheme u.authority u.path authority w.path_follows));
}

module _ (base reference : UriReference) (wb : IsWellFormed base)
    (wr : IsWellFormed reference) where
  same_path-IsWellFormed : IsWellFormed (record {
    scheme = base.scheme;
    authority = base.authority;
    path = base.path;
    query = or_else reference.query base.query;
    fragment = reference.fragment;
  })
  same_path-IsWellFormed = record {
    scheme_fits = wb.scheme_fits;
    authority_fits = wb.authority_fits;
    path_free = wb.path_free;
    query_fits = ground (arith, wb.query_fits, wr.query_fits);
    fragment_fits = wr.fragment_fits;
    path_follows = wb.path_follows;
  }

  merged-IsWellFormed :
      is_some base.authority ≡ true
      → IsWellFormed (record {
        scheme = base.scheme;
        authority = base.authority;
        path =
            if starts_with (slash ∷ []) reference.path
            then remove_dot_segments reference.path
            else remove_dot_segments (merge base reference.path);
        query = reference.query;
        fragment = reference.fragment;
      })
  merged-IsWellFormed h = record {
    scheme_fits = wb.scheme_fits;
    authority_fits = wb.authority_fits;
    path_free = ground (
      arith,
      free_of-remove reference.path wr.path_free,
      free_of-remove (merge base reference.path)
          (free_of-merge base reference.path wb.path_free wr.path_free),
    );
    query_fits = wr.query_fits;
    fragment_fits = wr.fragment_fits;
    path_follows = rooted_fits base.scheme base.authority _ h (
        ground (
          arith,
          remove_dot_segments-is_rooted reference.path,
          remove_dot_segments-is_rooted (merge base reference.path) (
              is_rooted-merge base reference.path h
                (fits_rooted base.scheme base.authority base.path h wb.path_follows)),
        ));
  }

  -- Resolving a well-formed reference against a well-formed base that has an authority gives a
  -- well-formed reference again, where the reference names an authority itself or no scheme.
  pub resolve-IsWellFormed :
      is_some base.authority ≡ true
      → (reference.scheme ≡ none) ⊎ (is_some reference.authority ≡ true)
      → IsWellFormed (resolve base reference)
  unfolding resolve
  resolve-IsWellFormed h safe = elim (Bool-cases (is_some reference.authority)) [
    | inl e ↦ elim (Bool-cases (is_some reference.scheme)) [
      | inl f ↦ rw f (removed-IsWellFormed reference.scheme reference wr wr.scheme_fits e)
      | inr f ↦ rw (f, e) (removed-IsWellFormed base.scheme reference wr wb.scheme_fits e)
    ]
    | inr e ↦
        let f : is_some reference.scheme ≡ false = ground (arith, safe) in
        elim (Bool-cases (is_empty reference.path)) [
          | inl g ↦ rw (f, e, g) same_path-IsWellFormed
          | inr g ↦ rw (f, e, g) (merged-IsWellFormed h)
        ]
  ]

  -- What a well-formed base that has an authority resolves is printed as a text that parses to it
  -- again, where the well-formed reference names an authority itself or no scheme.
  pub parse-resolve :
      is_some base.authority ≡ true
      → (reference.scheme ≡ none) ⊎ (is_some reference.authority ≡ true)
      → parse (to_text (resolve base reference)) ≡ ok (resolve base reference)
  parse-resolve h safe = parse-to_text (resolve base reference) (resolve-IsWellFormed h safe)
