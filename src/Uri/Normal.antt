-- ===== src/Uri/Normal.antt =====
-- Normalizing a URI reference and escaping text into one: `normalize`, `escape_uri` and what they
-- call, in crates/xenolith/src/uri.rs. `normalize_percent` works on the bytes of its text, of which
-- it changes only ASCII ones, so it is written here on the code points.
mod Escape
mod Percent
mod Tests
use xenolith.Common.{
  ℕ, zero, suc, ◌+◌, ◌-◌, ◌*◌, ◌/◌, ◌%◌, Bool, true, false, not, ◌&&◌, ◌||◌, List, [], ◌∷◌, ◌++◌,
  Option, none, some, ◌==◌, within, if◌then◌else◌, contains, is_empty, get_or,
}
use xenolith.Text.{
  Text, codes, is_ascii_alphanumeric, to_ascii_lowercase, starts_with, before, from, after, eq_text,
  eq_option, encode_utf8,
}
use xenolith.Uri.{UriReference, is_uri_char, is_none, lower_option}
use xenolith.Uri.Resolve.{remove_dot_segments, is_some}

pub record SchemeRules : Type 0 where
  pub scheme : Text
  pub default_port : Option Text
  pub empty_path_is_root : Bool

abbrev pub schemes : List SchemeRules
schemes =
    record { scheme = codes "http"; default_port = some (codes "80"); empty_path_is_root = true }
    ∷ record {
      scheme = codes "https";
      default_port = some (codes "443");
      empty_path_is_root = true;
    }
    ∷ record { scheme = codes "file"; default_port = none; empty_path_is_root = true }
    ∷ []

abbrev find_rules : List SchemeRules → Text → Option SchemeRules
find_rules [] scheme = none
find_rules (r ∷ rs) scheme = if eq_text r.scheme scheme then some r else find_rules rs scheme

unfoldable pub rules_of : Text → Option SchemeRules
rules_of scheme = find_rules schemes scheme

abbrev pub scheme_rules : Option Text → Option SchemeRules
scheme_rules none = none
scheme_rules (some scheme) = rules_of scheme

unfoldable pub hex_digit : ℕ → Option ℕ
hex_digit byte =
    if within b'0' b'9' byte
    then some (byte - b'0')
    else if within b'a' b'f' byte
    then some (byte - b'a' + 10)
    else if within b'A' b'F' byte
    then some (byte - b'A' + 10)
    else none

abbrev pub hex_digits : List ℕ
hex_digits =
    b'0' ∷ b'1' ∷ b'2' ∷ b'3' ∷ b'4' ∷ b'5' ∷ b'6' ∷ b'7' ∷ b'8' ∷ b'9' ∷ b'A' ∷ b'B' ∷ b'C' ∷ b'D'
    ∷ b'E' ∷ b'F' ∷ []

-- `HEX[digit]`
unfoldable pub hex : ℕ → ℕ
hex digit = get_or hex_digits digit 0

unfoldable pub is_unreserved : ℕ → Bool
is_unreserved octet =
    is_ascii_alphanumeric octet
    || (octet == b'-' || (octet == b'.' || (octet == b'_' || octet == b'~')))

abbrev both_digits : Bool → Option ℕ → Option ℕ → Option (ℕ × ℕ)
both_digits true (some high) (some low) = some (high, low)
both_digits _ _ _ = none

-- The two digits of an encoded octet, where three characters are one.
unfoldable pub digits : ℕ → ℕ → ℕ → Option (ℕ × ℕ)
digits a b c = both_digits (a == b'%') (hex_digit b) (hex_digit c)

unfoldable pub normal_octet : ℕ → ℕ → Text
normal_octet high low =
    if is_unreserved (high * 16 + low)
    then (high * 16 + low) ∷ []
    else b'%' ∷ hex high ∷ hex low ∷ []

unfoldable pub normalize_percent : Text → Text
normalize_percent (a ∷ b ∷ c ∷ s) = elim (digits a b c) [
  | some (high, low) ↦ normal_octet high low ++ normalize_percent s
  | none ↦ a ∷ normalize_percent (b ∷ c ∷ s)
]
normalize_percent s = s

-- `rsplit_once`: what follows the last `c`, and what precedes it, if there is one.
unfoldable pub rsplit_once : ℕ → Text → Option Text × Text
rsplit_once c [] = (none, [])
rsplit_once c (d ∷ s) =
    if contains s c
    then (some (d ∷ front (rsplit_once c s).0), (rsplit_once c s).1)
    else if d == c
    then (some [], s)
    else (none, d ∷ s)
  where
    front : Option Text → Text
    front none = []
    front (some t) = t

-- The host and the port: at the last `:`, or at the first one after the last `]`.
unfoldable pub split_port : Text → Text × Option Text
split_port host_port = go (rsplit_once b']' host_port)
  where
    at_last : Option Text × Text → Text × Option Text
    at_last (none, s) = (s, none)
    at_last (some host, port) = (host, some port)

    go : Option Text × Text → Text × Option Text
    go (none, s) = at_last (rsplit_once b':' host_port)
    go (some front, rest) = (front ++ b']' ∷ before b':' rest, after b':' rest)

abbrev default_port_of : Option SchemeRules → Option Text
default_port_of none = none
default_port_of (some r) = r.default_port

-- The port as it is written, if it is neither empty nor the one that the scheme implies.
unfoldable pub port_text : Option Text → Option SchemeRules → Text
port_text none rules = []
port_text (some port) rules =
    if is_empty port || eq_option (some port) (default_port_of rules) then [] else b':' ∷ port

abbrev userinfo_text : Option Text → Text
userinfo_text none = []
userinfo_text (some userinfo) = normalize_percent userinfo ++ b'@' ∷ []

unfoldable pub normalize_authority : Text → Option SchemeRules → Text
normalize_authority authority rules =
    let (userinfo, host_port) = rsplit_once b'@' authority in
    let (host, port) = split_port host_port in
    userinfo_text userinfo ++ (normalize_percent (to_ascii_lowercase host) ++ port_text port rules)

abbrev normalize_option : Option Text → Option Text
normalize_option none = none
normalize_option (some s) = some (normalize_percent s)

abbrev authority_option : Option Text → Option SchemeRules → Option Text
authority_option none rules = none
authority_option (some s) rules = some (normalize_authority s rules)

abbrev root_if_empty : Option SchemeRules → Bool
root_if_empty none = false
root_if_empty (some r) = r.empty_path_is_root

-- The path: its dot segments go where it is hierarchical, and it becomes `/` where it is empty and
-- the scheme says so.
unfoldable pub normalize_path : Option Text → Option Text → Text → Text
normalize_path scheme authority given =
    let decoded = normalize_percent given in
    let path =
      if is_some scheme && (is_some authority || starts_with (b'/' ∷ []) decoded)
      then remove_dot_segments decoded
      else decoded in
    if is_empty path && (is_some authority && root_if_empty (scheme_rules scheme))
    then b'/' ∷ []
    else path

unfoldable pub normalize : UriReference → UriReference
normalize u =
    let scheme = lower_option u.scheme in
    record {
      scheme = scheme;
      authority = authority_option u.authority (scheme_rules scheme);
      path = normalize_path scheme u.authority u.path;
      query = normalize_option u.query;
      fragment = normalize_option u.fragment;
    }

unfoldable pub escape_bytes : List ℕ → Text
escape_bytes [] = []
escape_bytes (byte ∷ bytes) = b'%' ∷ hex (byte / 16) ∷ hex (byte % 16) ∷ escape_bytes bytes

unfoldable pub escape_char : ℕ → Text
escape_char c = if is_uri_char c then c ∷ [] else escape_bytes (encode_utf8 c)

unfoldable pub escape_uri : Text → Text
escape_uri [] = []
escape_uri (c ∷ s) = escape_char c ++ escape_uri s
