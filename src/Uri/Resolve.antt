-- ===== src/Uri/Resolve.antt =====
-- Resolving and relativizing a URI reference: the second part of crates/xenolith/src/uri.rs.
use xenolith.Common.{
  ℕ, zero, suc, ◌-◌, Bool, true, false, not, ◌&&◌, ◌||◌, List, [], ◌∷◌, ◌++◌, Option, none, some,
  ◌==◌, if◌then◌else◌, contains, is_empty, length, drop,
}
use xenolith.Text.{Text, starts_with, before, from, eq_text, eq_option}
use xenolith.Uri.{UriReference, eq_uri, Result, ok, parse, to_text, ◌>>=◌}

abbrev pub slash : ℕ
slash = b'/'

-- `pop_segment`: what stands before the last `/`, or nothing where there is none.
unfoldable pub pop_segment : Text → Text
pop_segment [] = []
pop_segment (c ∷ out) = if contains out slash then c ∷ pop_segment out else []

-- Rule E: the leading segment, with its leading slash if there is one, and what follows it.
abbrev pub leading : Text → Text
leading [] = []
leading (c ∷ s) = c ∷ before slash s

abbrev pub following : Text → Text
following [] = []
following (c ∷ s) = from slash s

-- One round of the loop of `remove_dot_segments`: the rest of the input, and the output.
unfoldable pub step : Text → Text → Text × Text
unfolding starts_with eq_text pop_segment
step input out =
    if starts_with (b'.' ∷ b'.' ∷ slash ∷ []) input
    then (drop 3 input, out)
    else if starts_with (b'.' ∷ slash ∷ []) input
    then (drop 2 input, out)
    else if starts_with (slash ∷ b'.' ∷ slash ∷ []) input
    then (drop 2 input, out)
    else if eq_text input (slash ∷ b'.' ∷ [])
    then (slash ∷ [], out)
    else if starts_with (slash ∷ b'.' ∷ b'.' ∷ slash ∷ []) input
    then (drop 3 input, pop_segment out)
    else if eq_text input (slash ∷ b'.' ∷ b'.' ∷ [])
    then (slash ∷ [], pop_segment out)
    else if eq_text input (b'.' ∷ []) || eq_text input (b'.' ∷ b'.' ∷ [])
    then ([], out)
    else (following input, out ++ leading input)

-- The loop, for at most `fuel` rounds.
unfoldable pub remove_loop : ℕ → Text → Text → Text
remove_loop fuel [] out = out
remove_loop zero (c ∷ input) out = out
remove_loop (suc fuel) (c ∷ input) out =
    remove_loop fuel (step (c ∷ input) out).0 (step (c ∷ input) out).1

-- Each round shortens the input (`Dots.remove_loop-Rounds`).
unfoldable pub remove_dot_segments : Text → Text
remove_dot_segments path = remove_loop (length path) path []

-- `path[..path.rfind('/').map_or(0, |i| i + 1)]`
unfoldable pub directory : Text → Text
directory [] = []
directory (c ∷ path) = if contains path slash || c == slash then c ∷ directory path else []

abbrev pub is_some : Option Text → Bool
is_some none = false
is_some (some s) = true

unfoldable pub merge : UriReference → Text → Text
unfolding directory
merge base path =
    if is_some base.authority && is_empty base.path
    then slash ∷ path
    else directory base.path ++ path

abbrev pub or_else : Option Text → Option Text → Option Text
or_else none other = other
or_else (some s) other = some s

unfoldable pub resolve : UriReference → UriReference → UriReference
unfolding starts_with
resolve base reference =
    if is_some reference.scheme
    then record reference { path = remove_dot_segments reference.path }
    else if is_some reference.authority
    then record reference { scheme = base.scheme; path = remove_dot_segments reference.path }
    else if is_empty reference.path
    then record {
      scheme = base.scheme;
      authority = base.authority;
      path = base.path;
      query = or_else reference.query base.query;
      fragment = reference.fragment;
    }
    else record {
      scheme = base.scheme;
      authority = base.authority;
      path =
          if starts_with (slash ∷ []) reference.path
          then remove_dot_segments reference.path
          else remove_dot_segments (merge base reference.path);
      query = reference.query;
      fragment = reference.fragment;
    }

-- The function `uri::resolve` on texts.
unfoldable pub resolve_text : Text → Text → Result Text
resolve_text base reference = do b ← parse base; r ← parse reference; ok (to_text (resolve b r))

abbrev pub push_head : ℕ → List Text → List Text
push_head c [] = (c ∷ []) ∷ []
push_head c (s ∷ segments) = (c ∷ s) ∷ segments

-- `path.split('/')`
unfoldable pub split : Text → List Text
split [] = [] ∷ []
split (c ∷ path) = if c == slash then [] ∷ split path else push_head c (split path)

abbrev strip_slash : Text → Text
strip_slash [] = []
strip_slash (c ∷ path) = if c == slash then path else c ∷ path

unfoldable pub path_segments : Text → List Text
unfolding split
path_segments path = if is_empty (strip_slash path) then [] else split (strip_slash path)

-- `split_last`, with `("", [])` for no segments: the last one and those before it.
unfoldable pub last_segment : List Text → Text
last_segment [] = []
last_segment (s ∷ []) = s
last_segment (s ∷ t ∷ segments) = last_segment (t ∷ segments)

unfoldable pub but_last : List Text → List Text
but_last [] = []
but_last (s ∷ []) = []
but_last (s ∷ t ∷ segments) = s ∷ but_last (t ∷ segments)

unfoldable pub dir_segments : Text → List Text
unfolding path_segments last_segment but_last
dir_segments base_dir =
    let segments = path_segments base_dir in
    if not (is_empty segments) && is_empty (last_segment segments)
    then but_last segments
    else segments

-- `zip`, `take_while` and `count`: how many leading segments are the same.
unfoldable pub common : List Text → List Text → ℕ
unfolding eq_text
common (a ∷ as') (b ∷ bs) = if eq_text a b then suc (common as' bs) else 0
common _ _ = 0

unfoldable pub ups : ℕ → List Text
ups zero = []
ups (suc n) = (b'.' ∷ b'.' ∷ []) ∷ ups n

unfoldable pub join : List Text → Text
join [] = []
join (s ∷ []) = s
join (s ∷ t ∷ segments) = s ++ slash ∷ join (t ∷ segments)

-- The last branches of `relative_path`; `parts` is never empty.
abbrev relative_text : List Text → Text → Text
relative_text [] path = if is_empty path then b'.' ∷ [] else path
relative_text (first ∷ parts) path =
    if is_empty path
    then b'.' ∷ []
    else if not (eq_text first (b'.' ∷ b'.' ∷ [])) && contains first b':'
    then b'.' ∷ slash ∷ path
    else path

unfoldable pub relative_path : Text → Text → Text
unfolding directory dir_segments path_segments last_segment but_last common ups join eq_text
relative_path base_path target_path =
    let base_dirs = dir_segments (directory base_path) in
    let target_segments = path_segments target_path in
    let last = last_segment target_segments in
    let target_dirs = but_last target_segments in
    let same = common base_dirs target_dirs in
    let parts = ups (length base_dirs - same) ++ (drop same target_dirs ++ last ∷ []) in
    relative_text parts (join parts)

unfoldable pub relativize : UriReference → UriReference → UriReference
unfolding eq_option
relativize base target =
    let candidate : UriReference = record {
      scheme = none;
      authority = none;
      path = relative_path base.path target.path;
      query = target.query;
      fragment = target.fragment;
    } in
    if not (eq_option base.scheme target.scheme) || not (eq_option base.authority target.authority)
    then target
    else if eq_uri (resolve base candidate) target
    then candidate
    else target
