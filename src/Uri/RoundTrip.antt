-- ===== src/Uri/RoundTrip.antt =====
-- `UriReference::parse` and `new` against `Display`.
use xenolith.Common.{
  ℕ, ◌≡◌, refl, ◌↔◌, ◌∙◌, ap, ◌⊎◌, inl, inr, true, false, Bool-cases, and-both, List, [], ◌∷◌, ◌++◌,
  Option, none, some, Option-cases, arith, all, all-append,
}
use xenolith.Text.{Text, eq_text, to_ascii_lowercase}
use xenolith.Uri.{
  UriReference, Result, ok, err, bad_char, is_uri_char, is_scheme, is_scheme_char, find_bad,
  components, prefixed, scheme_text, is_ambiguous, parse, to_text, candidate, check_parsed, new,
  eq_uri,
}
use xenolith.Uri.Printed.{
  IsWellFormed, holds, is_lower_scheme, free_of, free_of-uri, is_scheme-all, components-to_text,
}
use xenolith.Uri.Parsed.{components-IsWellFormed}
use xenolith.Uri.Relative.{eq_uri_iff}

find_bad-none : (s : Text) → all is_uri_char s ≡ true → find_bad s ≡ none
unfolding find_bad
find_bad-none [] h = refl
find_bad-none (c ∷ s) h = ground (arith, find_bad-none s)

find_bad-all : (s : Text) → find_bad s ≡ none → all is_uri_char s ≡ true
unfolding find_bad
find_bad-all [] h = refl
find_bad-all (c ∷ s) h = ground (arith, find_bad-all s)

uri-scheme_char : (c : ℕ) → is_scheme_char c ≡ true → is_uri_char c ≡ true
unfolding is_uri_char
uri-scheme_char c h = ground arith

all_uri-scheme : (s : Text) → all is_scheme_char s ≡ true → all is_uri_char s ≡ true
all_uri-scheme [] h = refl
all_uri-scheme (c ∷ s) h = ground (arith, uri-scheme_char c, all_uri-scheme s)

all_uri-scheme_text :
    (scheme : Option Text)
    → holds is_lower_scheme scheme ≡ true
    → all is_uri_char (scheme_text scheme) ≡ true
unfolding is_uri_char
all_uri-scheme_text none h = refl
all_uri-scheme_text (some s) h =
    all-append is_uri_char s (b':' ∷ [])
      (ground (
        arith,
        all_uri-scheme s
            (is_scheme-all s (and-both (is_scheme s) (eq_text (to_ascii_lowercase s) s) h).0),
      ))
      refl

all_uri-prefixed :
    (mark : Text) (marks : List ℕ) (o : Option Text)
    → all is_uri_char mark ≡ true
    → holds (free_of marks) o ≡ true
    → all is_uri_char (prefixed mark o) ≡ true
all_uri-prefixed mark marks none m h = refl
all_uri-prefixed mark marks (some s) m h = all-append is_uri_char mark s m (free_of-uri marks s h)

all_uri-to_text : (u : UriReference) → IsWellFormed u → all is_uri_char (to_text u) ≡ true
unfolding to_text is_uri_char
all_uri-to_text u w =
    all-append is_uri_char (scheme_text u.scheme) _ (all_uri-scheme_text u.scheme w.scheme_fits) (
      all-append is_uri_char (prefixed (b'/' ∷ b'/' ∷ []) u.authority) _
        (all_uri-prefixed (b'/' ∷ b'/' ∷ []) (b'/' ∷ b'?' ∷ b'#' ∷ []) u.authority refl
          w.authority_fits)
        (all-append is_uri_char u.path _ (free_of-uri (b'?' ∷ b'#' ∷ []) u.path w.path_free) (
          all-append is_uri_char (prefixed (b'?' ∷ []) u.query) _
            (all_uri-prefixed (b'?' ∷ []) (b'#' ∷ []) u.query refl w.query_fits)
            (all_uri-prefixed (b'#' ∷ []) [] u.fragment refl w.fragment_fits))))

parse-components :
    (s : Text)
    → find_bad s ≡ none
    → is_ambiguous (components s) ≡ false
    → parse s ≡ ok (components s)
unfolding parse
parse-components s free clear = rw (free, clear) refl

clear-IsWellFormed : (u : UriReference) → IsWellFormed u → is_ambiguous u ≡ false
clear-IsWellFormed u w = ground (arith, w.path_follows)

-- A well-formed reference is printed as a text that parses to the reference itself.
pub parse-to_text : (u : UriReference) → IsWellFormed u → parse (to_text u) ≡ ok u
parse-to_text u w =
    parse-components (to_text u) (find_bad-none (to_text u) (all_uri-to_text u w))
      (rw (components-to_text u w) (clear-IsWellFormed u w))
    ∙ ap ok (components-to_text u w)

parse_total : (s : Text) → find_bad s ≡ none → parse s ≡ ok (components s)
parse_total s free =
    parse-components s free
      (clear-IsWellFormed (components s) (components-IsWellFormed s (find_bad-all s free)))

parse_bad : (s : Text) (bad : ℕ) → find_bad s ≡ some bad → parse s ≡ err (bad_char bad)
unfolding parse
parse_bad s bad e = rw e refl

-- Whatever `parse` returns is well-formed.
pub parse-IsWellFormed : (s : Text) (u : UriReference) → parse s ≡ ok u → IsWellFormed u
parse-IsWellFormed s u h = elim (Option-cases (find_bad s)) [
  | inl e ↦
      let same : components s ≡ u = ground (arith, parse_total s e) in
      rw same at (components-IsWellFormed s (find_bad-all s e))
  | inr (bad, e) ↦ ground (arith, parse_bad s bad e)
]

-- The first character of a text that is not one of a URI, and where it stands.
abbrev pub FirstBad : Text → ℕ → Type 0
FirstBad s bad =
    (front : Text) × ((back : Text) × ((s ≡ front ++ bad ∷ back)
        × ((all is_uri_char front ≡ true) × (is_uri_char bad ≡ false))))

find_bad-some : (s : Text) (bad : ℕ) → find_bad s ≡ some bad → FirstBad s bad
unfolding find_bad
find_bad-some [] bad e = ground arith
find_bad-some (c ∷ s) bad e = elim (Bool-cases (is_uri_char c)) [
  | inl f ↦
      let (front, (back, (same, (good, wrong)))) = find_bad-some s bad (rw f at e) in
      (c ∷ front, (back, (ap (c ∷◌) same, (rw f good, wrong))))
  | inr f ↦
      let same : c ≡ bad = ground (arith, rw f at e) in
      ([], (s, (rw same refl, (refl, rw same at f))))
]

-- `parse` succeeds on every text of URI characters, whatever the delimiters in it and also where no
-- valid scheme stands before a colon; on any other text it reports the first character that is not a
-- URI character, and no other error.
pub parse_lem :
    (s : Text)
    → ((all is_uri_char s ≡ true) × (parse s ≡ ok (components s)))
      ⊎ ((bad : ℕ) × (FirstBad s bad × (parse s ≡ err (bad_char bad))))
parse_lem s = elim (Option-cases (find_bad s)) [
  | inl e ↦ inl (find_bad-all s e, parse_total s e)
  | inr (bad, e) ↦ inr (bad, (find_bad-some s bad e, parse_bad s bad e))
]

check_parsed_lem :
    (u v : UriReference) (r : Result UriReference) → check_parsed u r ≡ ok v → (r ≡ ok u) × (v ≡ u)
check_parsed_lem u v (err e) h = ground arith
check_parsed_lem u v (ok w) h = elim (Bool-cases (eq_uri w u)) [
  | inl e ↦ (ap ok ((eq_uri_iff w u).0 e), ground (arith, rw e at h))
  | inr e ↦ ground (arith, rw e at h)
]

-- `new` accepts exactly the components that form a well-formed reference, the scheme once it is
-- lower-cased, and returns them.
pub new_iff :
    (scheme authority : Option Text) (path : Text) (query fragment : Option Text) (u : UriReference)
    → (new scheme authority path query fragment ≡ ok u) ↔ (
        (u ≡ candidate scheme authority path query fragment)
        × IsWellFormed (candidate scheme authority path query fragment))
unfolding new
new_iff scheme authority path query fragment u = (
  λ h.
      let (parsed, same) = check_parsed_lem c u (parse (to_text c)) h in
      (same, parse-IsWellFormed (to_text c) c parsed),
  λ (same, w). rw (same, parse-to_text c w, (eq_uri_iff c c).1 refl) refl,
)
  where
    c : UriReference
    c = candidate scheme authority path query fragment
