-- ===== src/Uri/Relative.antt =====
-- `UriReference::relativize` against `UriReference::resolve`.
use xenolith.Common.{◌≡◌, refl, ◌≢◌, ◌↔◌, true, false, none, arith}
use xenolith.Text.{eq_option, eq_text_iff, eq_option_iff}
use xenolith.Uri.{UriReference, eq_uri}
use xenolith.Uri.Resolve.{resolve, relative_path, relativize, is_some}
use xenolith.Uri.Stable.{IsDotless, remove_dot_segments_plain}

pub eq_uri_iff : (u v : UriReference) → (eq_uri u v ≡ true) ↔ (u ≡ v)
unfolding eq_uri
eq_uri_iff u v = ground (
  arith,
  eq_option_iff u.scheme v.scheme,
  eq_option_iff u.authority v.authority,
  eq_text_iff u.path v.path,
  eq_option_iff u.query v.query,
  eq_option_iff u.fragment v.fragment,
)

resolve_absolute :
    (base target : UriReference)
    → is_some target.scheme ≡ true
    → IsDotless target.path
    → resolve base target ≡ target
unfolding resolve
resolve_absolute base target absolute dotless =
    rw (absolute, remove_dot_segments_plain target.path dotless) refl

-- Resolving what `relativize` returns gives the target back, for every base and every absolute
-- target whose path has no dot segment.
pub resolve-relativize :
    (base target : UriReference)
    → is_some target.scheme ≡ true
    → IsDotless target.path
    → resolve base (relativize base target) ≡ target
unfolding relativize
resolve-relativize base target absolute dotless = ground (
  arith,
  resolve_absolute base target absolute dotless,
  eq_uri_iff
      (resolve base (record {
        scheme = none;
        authority = none;
        path = relative_path base.path target.path;
        query = target.query;
        fragment = target.fragment;
      }))
      target,
)

schemes_differ :
    (base target : UriReference)
    → is_some base.scheme ≡ true
    → target.scheme ≡ none
    → eq_option base.scheme target.scheme ≡ false
schemes_differ base target absolute relative =
    ground (arith, eq_option_iff base.scheme target.scheme)

resolve_scheme :
    (base reference : UriReference)
    → reference.scheme ≡ none
    → base.scheme ≡ (resolve base reference).scheme
unfolding resolve
resolve_scheme base reference relative = ground arith

-- A relative target is not given back by an absolute base, whatever its path: `relativize` returns
-- the target itself, since the schemes differ, and resolving that gives it the scheme of the base.
pub resolve-relativize_relative :
    (base target : UriReference)
    → is_some base.scheme ≡ true
    → target.scheme ≡ none
    → (relativize base target ≡ target) × (resolve base (relativize base target) ≢ target)
unfolding relativize
resolve-relativize_relative base target absolute relative = (same, λ e. other (rw same at e))
  where
    same : relativize base target ≡ target
    same = rw (schemes_differ base target absolute relative) refl

    other : resolve base target ≢ target
    other e =
        let f : base.scheme ≡ target.scheme = rw e at (resolve_scheme base target relative) in
        ground arith
