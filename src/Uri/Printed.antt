-- ===== src/Uri/Printed.antt =====
-- What `UriReference::parse` finds in a reference that `Display` has printed.
use xenolith.Common.{
  ℕ, ◌≡◌, refl, ◌≢◌, ap, inl, inr, Bool, true, false, not, ◌&&◌, ◌||◌, Bool-cases, and-both, List,
  [], ◌∷◌, ◌++◌, Option, none, some, Option-cases, arith, ◌==◌, ==_iff, contains, contains-append,
  all, is_empty, append-nil, append_assoc,
}
use xenolith.Text.{Text, before, from, after, starts_with, eq_text, eq_text_iff, to_ascii_lowercase}
use xenolith.Uri.{
  UriReference, is_uri_char, is_scheme, is_scheme_char, split_once_at, split_scheme,
  split_authority, components, prefixed, scheme_text, to_text,
}
use xenolith.Uri.Cut.{before-cut, before-free, after-cut, after-free, from-cut, from-free}

-- A test of a component that may be missing.
abbrev pub holds : (Text → Bool) → Option Text → Bool
holds p none = true
holds p (some s) = p s

abbrev pub is_lower_scheme : Text → Bool
is_lower_scheme s = is_scheme s && eq_text (to_ascii_lowercase s) s

-- Whether a text starts with something that `parse` takes for a scheme.
abbrev pub names_scheme : Text → Bool
names_scheme s = contains s b':' && is_scheme (before b':' s)

abbrev pub is_rooted : Text → Bool
is_rooted path = is_empty path || starts_with (b'/' ∷ []) path

abbrev pub free_of : List ℕ → Text → Bool
free_of marks s = all (λ c. not (contains marks c) && is_uri_char c) s

-- What the path may be, by the components before it.
abbrev pub path_fits : Option Text → Option Text → Text → Bool
path_fits scheme (some a) path = is_rooted path
path_fits none none path = not (starts_with (b'/' ∷ b'/' ∷ []) path) && not (names_scheme path)
path_fits (some s) none path = not (starts_with (b'/' ∷ b'/' ∷ []) path)

-- No component holds a delimiter of a later one, and all are made of the characters of a URI.
pub record IsWellFormed (u : UriReference) : Type 0 where
  pub scheme_fits : holds is_lower_scheme u.scheme ≡ true
  pub authority_fits : holds (free_of (b'/' ∷ b'?' ∷ b'#' ∷ [])) u.authority ≡ true
  pub path_free : free_of (b'?' ∷ b'#' ∷ []) u.path ≡ true
  pub query_fits : holds (free_of (b'#' ∷ [])) u.query ≡ true
  pub fragment_fits : holds (free_of []) u.fragment ≡ true
  pub path_follows : path_fits u.scheme u.authority u.path ≡ true

pub free_of-uri : (marks : List ℕ) (s : Text) → free_of marks s ≡ true → all is_uri_char s ≡ true
free_of-uri marks [] h = refl
free_of-uri marks (c ∷ s) h = ground (arith, free_of-uri marks s)

-- A character that a test refuses is in no text whose characters all pass it.
pub all-contains :
    (p : ℕ → Bool) (c : ℕ) (s : Text) → p c ≡ false → all p s ≡ true → contains s c ≡ false
all-contains p c [] e h = refl
all-contains p c (d ∷ s) e h = elim (Bool-cases (c == d)) [
  | inl f ↦ ground (arith, ap p ((==_iff c d).0 f))
  | inr f ↦ ground (arith, all-contains p c s)
]

pub is_scheme-all : (s : Text) → is_scheme s ≡ true → all is_scheme_char s ≡ true
unfolding is_scheme
is_scheme-all [] h = refl
is_scheme-all (c ∷ s) h = ground arith

split_once-prefixed :
    (c : ℕ) (s : Text) (o : Option Text)
    → contains s c ≡ false
    → split_once_at (s ++ prefixed (c ∷ []) o) c ≡ (s, o)
unfolding split_once_at
split_once-prefixed c s none h = rw (append-nil s, before-free c s h, after-free c s h) refl
split_once-prefixed c s (some t) h = rw (before-cut c s t h, after-cut c s t h) refl

pub after-contains : (c : ℕ) (s t : Text) → after c s ≡ some t → contains s c ≡ true
unfolding after
after-contains c [] t e = ground arith
after-contains c (d ∷ s) t e = ground (arith, after-contains c s t)

cut_path :
    (a path : Text)
    → contains a b'/' ≡ false
    → is_rooted path ≡ true
    → ◌≡◌ {A = Option Text × Text}
        (some (before b'/' (a ++ path)), from b'/' (a ++ path))
        (some a, path)
unfolding starts_with
cut_path a [] free h = rw (append-nil a, before-free b'/' a free, from-free b'/' a free) refl
cut_path a (c ∷ path) free h =
    let e : c ≡ b'/' = ground (arith, ==_iff c b'/') in
    rw (e, before-cut b'/' a path free, from-cut b'/' a path free) refl

-- What `split_scheme` finds in a printed reference.
split_scheme-text :
    (scheme : Option Text) (rest : Text)
    → holds is_lower_scheme scheme ≡ true
    → (scheme ≡ none → names_scheme rest ≡ false)
    → split_scheme (scheme_text scheme ++ rest) ≡ (scheme, rest)
unfolding split_scheme
split_scheme-text none rest h free = elim (Option-cases (after b':' rest)) [
  | inl e ↦ rw e refl
  | inr (t, e) ↦
      let plain : is_scheme (before b':' rest) ≡ false =
        ground (arith, free refl, after-contains b':' rest t e) in
      rw (e, plain) refl
]
split_scheme-text (some s) rest h free =
    let (valid, lower) = and-both (is_scheme s) (eq_text (to_ascii_lowercase s) s) h in
    let colon = all-contains is_scheme_char b':' s refl (is_scheme-all s valid) in
    rw
      (
        append_assoc s (b':' ∷ []) rest,
        before-cut b':' s rest colon,
        after-cut b':' s rest colon,
        valid,
        (eq_text_iff (to_ascii_lowercase s) s).0 lower,
      )
      refl

split_authority-text :
    (authority : Option Text) (path : Text)
    → holds (free_of (b'/' ∷ b'?' ∷ b'#' ∷ [])) authority ≡ true
    → (authority ≡ none → starts_with (b'/' ∷ b'/' ∷ []) path ≡ false)
    → (authority ≢ none → is_rooted path ≡ true)
    → split_authority (prefixed (b'/' ∷ b'/' ∷ []) authority ++ path) ≡ (authority, path)
unfolding split_authority starts_with
split_authority-text none path h single rooted = rw (single refl) refl
split_authority-text (some a) path h single rooted =
    let slashes = all-contains _ b'/' a refl h in
    cut_path a path slashes (rooted (λ e. ground arith))

contains_scheme-text :
    (scheme : Option Text) (c : ℕ)
    → holds is_lower_scheme scheme ≡ true
    → is_scheme_char c ≡ false
    → (b':' == c) ≡ false
    → contains (scheme_text scheme) c ≡ false
contains_scheme-text none c h e f = refl
contains_scheme-text (some s) c h e f =
    let (valid, _) = and-both (is_scheme s) (eq_text (to_ascii_lowercase s) s) h in
    ground (
      arith,
      contains-append s (b':' ∷ []) c,
      all-contains is_scheme_char c s e (is_scheme-all s valid),
    )

contains-prefixed :
    (mark : Text) (marks : List ℕ) (o : Option Text) (c : ℕ)
    → contains mark c ≡ false
    → contains marks c ≡ true
    → holds (free_of marks) o ≡ true
    → contains (prefixed mark o) c ≡ false
contains-prefixed mark marks none c e f h = refl
contains-prefixed mark marks (some s) c e f h = ground (
  arith,
  contains-append mark s c,
  all-contains (λ d. not (contains marks d) && is_uri_char d) c s (rw f refl) h,
)

-- The parts of a printed reference before its query.
abbrev pub hier_text : UriReference → Text
hier_text u = prefixed (b'/' ∷ b'/' ∷ []) u.authority ++ u.path

abbrev pub main_text : UriReference → Text
main_text u = scheme_text u.scheme ++ hier_text u

pub to_text-parts :
    (u : UriReference)
    → to_text u ≡ (main_text u ++ prefixed (b'?' ∷ []) u.query) ++ prefixed (b'#' ∷ []) u.fragment
unfolding to_text
to_text-parts u = rw (append_assoc, append_assoc, append_assoc) refl

module _ (u : UriReference) (w : IsWellFormed u) where
  main-free :
      (c : ℕ)
      → is_scheme_char c ≡ false
      → (b':' == c) ≡ false
      → (b'/' == c) ≡ false
      → contains (b'?' ∷ b'#' ∷ []) c ≡ true
      → contains (main_text u) c ≡ false
  main-free c e f g h = ground (
    arith,
    contains-append (scheme_text u.scheme) (hier_text u) c,
    contains-append (prefixed (b'/' ∷ b'/' ∷ []) u.authority) u.path c,
    contains_scheme-text u.scheme c w.scheme_fits e f,
    contains-prefixed (b'/' ∷ b'/' ∷ []) (b'/' ∷ b'?' ∷ b'#' ∷ []) u.authority c (ground arith)
        (ground arith) w.authority_fits,
    all-contains (λ d. not (contains (b'?' ∷ b'#' ∷ []) d) && is_uri_char d) c u.path (rw h refl)
        w.path_free,
  )

  split_fragment-text :
      split_once_at (to_text u) b'#' ≡ (main_text u ++ prefixed (b'?' ∷ []) u.query, u.fragment)
  split_fragment-text = rw (to_text-parts u) (
      split_once-prefixed b'#' (main_text u ++ prefixed (b'?' ∷ []) u.query) u.fragment (
        ground (
          arith,
          contains-append (main_text u) (prefixed (b'?' ∷ []) u.query) b'#',
          main-free b'#' refl refl refl refl,
          contains-prefixed (b'?' ∷ []) (b'#' ∷ []) u.query b'#' refl refl w.query_fits,
        )))

  split_query-text :
      split_once_at (main_text u ++ prefixed (b'?' ∷ []) u.query) b'?' ≡ (main_text u, u.query)
  split_query-text =
      split_once-prefixed b'?' (main_text u) u.query (main-free b'?' refl refl refl refl)

  not_scheme : u.scheme ≡ none → names_scheme (hier_text u) ≡ false
  not_scheme e = elim (Option-cases u.authority) [
    | inl f ↦ rw f (ground (arith, rw (e, f) at w.path_follows))
    | inr (a, f) ↦ rw f (unfold is_scheme in ground arith)
  ]

  split_scheme_text : split_scheme (main_text u) ≡ (u.scheme, hier_text u)
  split_scheme_text = split_scheme-text u.scheme (hier_text u) w.scheme_fits not_scheme

  split_authority_text : split_authority (hier_text u) ≡ (u.authority, u.path)
  split_authority_text =
      split_authority-text u.authority u.path w.authority_fits (λ e. ground (arith, w.path_follows))
        (λ e. ground (arith, w.path_follows))

  pub components-to_text : components (to_text u) ≡ u
  unfolding components
  components-to_text =
      rw (split_fragment-text, split_query-text, split_scheme_text, split_authority_text) refl
