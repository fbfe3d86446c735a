-- ===== src/Uri/Tests.antt =====
-- URI references at concrete inputs, and the theorems applied there.
use xenolith.Common.{ℕ, ◌≡◌, ◌≢◌, refl, ◌↔◌, ◌⊎◌, inl, true, [], ◌∷◌, some, none, arith, all}
use xenolith.Text.{
  Text, codes, starts_with, after, eq_text, eq_option, to_ascii_lowercase, to_lower,
}
use xenolith.Uri.{
  UriReference, ok, err, bad_char, is_uri_char, is_scheme, find_bad, split_once_at, split_scheme,
  split_authority, components, parse, to_text, new, candidate, eq_uri,
}
use xenolith.Uri.Printed.{IsWellFormed}
use xenolith.Uri.Parsed.{components-IsWellFormed}
use xenolith.Uri.RoundTrip.{FirstBad, parse-to_text, parse-IsWellFormed, parse_lem, new_iff}
use xenolith.Uri.Resolve.{
  pop_segment, step, remove_loop, remove_dot_segments, directory, merge, resolve, resolve_text,
  split, path_segments, last_segment, but_last, dir_segments, common, ups, join, relative_path,
  relativize, is_some,
}
use xenolith.Uri.Closed.{parse-resolve}
use xenolith.Uri.Dots.{Rounds, remove_loop-Rounds, remove_dot_segments-settle}
use xenolith.Uri.Segments.{render, settle}
use xenolith.Uri.Stable.{remove_dot_segments_idem}
use xenolith.Uri.Relative.{resolve-relativize, resolve-relativize_relative}

abbrev base_text : Text
base_text = codes "http://a/b/c/d;p?q"

abbrev base : UriReference
base = components base_text

abbrev up : UriReference
up = components (codes "../../g?y")

-- The examples of RFC 3986, section 5.4.
resolve_up : resolve_text base_text (codes "../../g") ≡ ok (codes "http://a/g")
unfolding resolve_text parse find_bad is_uri_char components split_once_at after split_scheme
    is_scheme split_authority starts_with resolve merge directory remove_dot_segments remove_loop
    step pop_segment eq_text to_text to_ascii_lowercase to_lower
resolve_up = refl

resolve_dots : resolve_text base_text (codes "./g/./h/..") ≡ ok (codes "http://a/b/c/g/")
unfolding resolve_text parse find_bad is_uri_char components split_once_at after split_scheme
    is_scheme split_authority starts_with resolve merge directory remove_dot_segments remove_loop
    step pop_segment eq_text to_text to_ascii_lowercase to_lower
resolve_dots = refl

base-IsWellFormed : IsWellFormed base
unfolding is_uri_char
base-IsWellFormed = components-IsWellFormed base_text refl

up-IsWellFormed : IsWellFormed up
unfolding is_uri_char
up-IsWellFormed = components-IsWellFormed (codes "../../g?y") refl

parse-to_text_example : parse (to_text base) ≡ ok base
parse-to_text_example = parse-to_text base base-IsWellFormed

base_parses : parse base_text ≡ ok base
unfolding parse find_bad is_uri_char components split_once_at after split_scheme is_scheme
    split_authority starts_with
base_parses = refl

parse-IsWellFormed_example : IsWellFormed base
parse-IsWellFormed_example = parse-IsWellFormed base_text base base_parses

-- A scheme may not begin with a digit: the text is a path then, and no error.
invalid_scheme :
    parse (codes "1a:b")
    ≡ ok (record {
      scheme = none;
      authority = none;
      path = codes "1a:b";
      query = none;
      fragment = none;
    })
unfolding parse find_bad is_uri_char components split_once_at after split_scheme is_scheme
    split_authority starts_with
invalid_scheme = refl

parse_lem_example :
    ((all is_uri_char (codes "a b") ≡ true) × (parse (codes "a b") ≡ ok (components (codes "a b"))))
    ⊎ ((bad : ℕ) × (FirstBad (codes "a b") bad × (parse (codes "a b") ≡ err (bad_char bad))))
parse_lem_example = parse_lem (codes "a b")

new_iff_example : (new (some (codes "HTTP")) (some (codes "a/b")) [] none none ≡ ok base) ↔ (
    (base ≡ candidate (some (codes "HTTP")) (some (codes "a/b")) [] none none)
    × IsWellFormed (candidate (some (codes "HTTP")) (some (codes "a/b")) [] none none))
new_iff_example = new_iff (some (codes "HTTP")) (some (codes "a/b")) [] none none base

base_authority : is_some base.authority ≡ true
unfolding split_once_at after split_scheme is_scheme split_authority starts_with components
base_authority = refl

base_scheme : is_some base.scheme ≡ true
unfolding split_once_at after split_scheme is_scheme split_authority starts_with components
base_scheme = refl

up_scheme : up.scheme ≡ none
unfolding split_once_at after split_scheme is_scheme split_authority starts_with components
up_scheme = refl

parse-resolve_example : parse (to_text (resolve base up)) ≡ ok (resolve base up)
parse-resolve_example =
    parse-resolve base up base-IsWellFormed up-IsWellFormed base_authority (inl up_scheme)

remove_loop-Rounds_example : Rounds (codes "/a/.") [] (remove_loop 9 (codes "/a/.") [])
remove_loop-Rounds_example = remove_loop-Rounds 9 (codes "/a/.") [] (omega arith)

remove_dot_segments-settle_example :
    remove_dot_segments (render (codes "a" ∷ codes ".." ∷ codes "b" ∷ []))
    ≡ render (settle [] (codes "a" ∷ codes ".." ∷ codes "b" ∷ []))
remove_dot_segments-settle_example =
    remove_dot_segments-settle (codes "a") (codes ".." ∷ codes "b" ∷ []) (refl, (refl, (refl, tt)))

remove_dot_segments_idem_example :
    remove_dot_segments (remove_dot_segments (codes "/a/./b/../c"))
    ≡ remove_dot_segments (codes "/a/./b/../c")
remove_dot_segments_idem_example = remove_dot_segments_idem (codes "a/./b/../c")

abbrev sibling : UriReference
sibling = record {
  scheme = some (codes "http");
  authority = some (codes "a");
  path = codes "/b/x/y";
  query = none;
  fragment = some (codes "f");
}

resolve-relativize_example : resolve base (relativize base sibling) ≡ sibling
unfolding split eq_text
resolve-relativize_example = resolve-relativize base sibling refl (refl, (refl, (refl, (refl, tt))))

-- The relative reference of `sibling` is not `sibling` itself.
relativize-sibling : to_text (relativize base sibling) ≡ codes "../x/y#f"
unfolding relativize relative_path eq_option eq_uri eq_text directory dir_segments path_segments
    last_segment but_last common ups join split resolve merge remove_dot_segments remove_loop step
    pop_segment components split_once_at after split_scheme is_scheme split_authority starts_with
    to_text to_ascii_lowercase to_lower
relativize-sibling = refl

resolve-relativize_relative_example :
    (relativize base up ≡ up) × (resolve base (relativize base up) ≢ up)
resolve-relativize_relative_example = resolve-relativize_relative base up base_scheme up_scheme
