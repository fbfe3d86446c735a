-- ===== src/Uri.antt =====
-- URI references (RFC 3986): parsing, printing, resolving, relativizing and escaping.
-- crates/xenolith/src/uri.rs. The normalization of that file is in `Uri/Normal`.
pub mod Cut
mod Tests
mod Printed
mod Parsed
mod RoundTrip
pub mod Resolve
pub mod Segments
pub mod Normal
mod Closed
pub mod Dots
pub mod Stable
pub mod Relative
use xenolith.Common.{
  ℕ, zero, suc, ◌+◌, ◌*◌, ◌/◌, ◌%◌, Bool, true, false, not, ◌&&◌, ◌||◌, List, [], ◌∷◌, ◌++◌, Option,
  none, some, ◌==◌, ltb, leb, within, if◌then◌else◌, contains, is_empty, all, take_while,
  drop_while, length, drop, get_or,
}
use xenolith.Text.{
  Text, is_ascii_alphabetic, is_ascii_alphanumeric, to_lower, to_ascii_lowercase, starts_with,
  before, from, after, eq_text, eq_option, encode_utf8,
}

pub record UriReference : Type 0 where
  pub scheme : Option Text
  pub authority : Option Text
  pub path : Text
  pub query : Option Text
  pub fragment : Option Text

pub data UriError : Type 0 where
  bad_char : ℕ → UriError
  ambiguous not_components : UriError

pub data Result {ℓ} (A : Type ℓ) : Type ℓ where
  ok : A → Result A
  err : UriError → Result A

infixl 5 ◌>>=◌
abbrev pub ◌>>=◌ {ℓ κ} : {A : Type ℓ} {B : Type κ} → Result A → (A → Result B) → Result B
ok a >>= f = f a
err e >>= f = err e

abbrev pub is_uri_mark : ℕ → Bool
is_uri_mark c =
    contains
      (b'-' ∷ b'.' ∷ b'_' ∷ b'~' ∷ b':' ∷ b'/' ∷ b'?' ∷ b'#' ∷ b'[' ∷ b']' ∷ b'@' ∷ b'!' ∷ b'$'
        ∷ b'&' ∷ b'\'' ∷ b'(' ∷ b')' ∷ b'*' ∷ b'+' ∷ b',' ∷ b';' ∷ b'=' ∷ b'%' ∷ [])
      c

unfoldable pub is_uri_char : ℕ → Bool
is_uri_char c = is_ascii_alphanumeric c || is_uri_mark c

abbrev pub is_scheme_char : ℕ → Bool
is_scheme_char c = is_ascii_alphanumeric c || c == b'+' || c == b'-' || c == b'.'

unfoldable pub is_scheme : Text → Bool
is_scheme [] = false
is_scheme (c ∷ s) = is_ascii_alphabetic c && all is_scheme_char s

-- `s.chars().find(|c| !is_uri_char(*c))`
unfoldable pub find_bad : Text → Option ℕ
find_bad [] = none
find_bad (c ∷ s) = if not (is_uri_char c) then some c else find_bad s

unfoldable pub split_once_at : Text → ℕ → Text × Option Text
split_once_at s delimiter = (before delimiter s, after delimiter s)

-- The scheme and what follows its colon.
abbrev pub scheme_of : Text → Text → Option Text → Option Text × Text
scheme_of rest name none = (none, rest)
scheme_of rest name (some following) =
    if is_scheme name then (some (to_ascii_lowercase name), following) else (none, rest)

unfoldable pub split_scheme : Text → Option Text × Text
split_scheme rest = scheme_of rest (before b':' rest) (after b':' rest)

unfoldable pub split_authority : Text → Option Text × Text
split_authority rest =
    if starts_with (b'/' ∷ b'/' ∷ []) rest
    then (some (before b'/' (drop 2 rest)), from b'/' (drop 2 rest))
    else (none, rest)

abbrev pub is_none : Option Text → Bool
is_none none = true
is_none (some s) = false

-- What `parse` builds, once every character is allowed.
unfoldable pub components : Text → UriReference
components s =
    let (rest, fragment) = split_once_at s b'#' in
    let (rest', query) = split_once_at rest b'?' in
    let (scheme, hier) = split_scheme rest' in
    let (authority, path) = split_authority hier in
    record {
      scheme = scheme;
      authority = authority;
      path = path;
      query = query;
      fragment = fragment;
    }

abbrev pub is_ambiguous : UriReference → Bool
is_ambiguous u = is_none u.scheme && is_none u.authority && starts_with (b'/' ∷ b'/' ∷ []) u.path

-- What `parse` does with the first character that is not allowed, if there is one.
abbrev pub parse_checked : Text → Option ℕ → Result UriReference
parse_checked s (some bad) = err (bad_char bad)
parse_checked s none = if is_ambiguous (components s) then err ambiguous else ok (components s)

unfoldable pub parse : Text → Result UriReference
parse s = parse_checked s (find_bad s)

abbrev pub prefixed : Text → Option Text → Text
prefixed mark none = []
prefixed mark (some s) = mark ++ s

-- `Display`.
abbrev pub scheme_text : Option Text → Text
scheme_text none = []
scheme_text (some s) = s ++ b':' ∷ []

unfoldable pub to_text : UriReference → Text
to_text u =
    scheme_text u.scheme
    ++ (prefixed (b'/' ∷ b'/' ∷ []) u.authority
        ++ (u.path ++ (prefixed (b'?' ∷ []) u.query ++ prefixed (b'#' ∷ []) u.fragment)))

unfoldable pub eq_uri : UriReference → UriReference → Bool
eq_uri u v =
    eq_option u.scheme v.scheme
    && (eq_option u.authority v.authority
        && (eq_text u.path v.path
            && (eq_option u.query v.query && eq_option u.fragment v.fragment)))

abbrev pub lower_option : Option Text → Option Text
lower_option none = none
lower_option (some s) = some (to_ascii_lowercase s)

abbrev pub check_parsed : UriReference → Result UriReference → Result UriReference
check_parsed u (err e) = err e
check_parsed u (ok v) = if eq_uri v u then ok u else err not_components

abbrev pub candidate : Option Text → Option Text → Text → Option Text → Option Text → UriReference
candidate scheme authority path query fragment = record {
  scheme = lower_option scheme;
  authority = authority;
  path = path;
  query = query;
  fragment = fragment;
}

unfoldable pub new :
    Option Text → Option Text → Text → Option Text → Option Text → Result UriReference
new scheme authority path query fragment =
    let u = candidate scheme authority path query fragment in check_parsed u (parse (to_text u))

abbrev pub is_absolute : UriReference → Bool
is_absolute u = not (is_none u.scheme)

abbrev pub without_fragment : UriReference → UriReference
without_fragment u = record u { fragment = none }
