-- ===== src/Uri/Normal/Tests.antt =====
-- Normalizing and escaping at concrete inputs, and the theorems applied there.
use xenolith.Common.{◌≡◌, refl, true, all}
use xenolith.Text.{
  codes, starts_with, after, eq_text, eq_option, to_ascii_lowercase, to_lower, encode_utf8,
}
use xenolith.Uri.{
  is_uri_char, is_scheme, split_once_at, split_scheme, split_authority, components, to_text,
}
use xenolith.Uri.Resolve.{pop_segment, step, remove_loop, remove_dot_segments}
use xenolith.Uri.Normal.{
  normalize, normalize_authority, normalize_path, normalize_percent, normal_octet, digits,
  hex_digit, hex, is_unreserved, rsplit_once, split_port, port_text, rules_of, escape_uri,
  escape_char, escape_bytes,
}
use xenolith.Uri.Normal.Percent.{octets, is_percent_formed, normalize_percent_lem}
use xenolith.Uri.Normal.Escape.{all_uri-escape_uri, octets-escape_uri, escape_uri_idem}

normalize_host :
    to_text (normalize (components (codes "HTTP://Me%2f@Example.ORG:80")))
    ≡ codes "http://Me%2F@example.org/"
unfolding to_text normalize normalize_path normalize_authority normalize_percent normal_octet digits
    hex_digit hex is_unreserved rsplit_once split_port port_text rules_of components split_once_at
    after split_scheme is_scheme split_authority starts_with remove_dot_segments remove_loop step
    pop_segment eq_text eq_option to_ascii_lowercase to_lower
normalize_host = refl

escape_space : escape_uri (codes "my docs/あ%20") ≡ codes "my%20docs/%E3%81%82%20"
unfolding escape_uri escape_char escape_bytes is_uri_char encode_utf8 hex
escape_space = refl

-- The text `%%34%31`, in which a `%` starts no encoded octet, needs two runs.
normalize_percent_twice :
    (normalize_percent (codes "%%34%31") ≡ codes "%41")
    × (normalize_percent (normalize_percent (codes "%%34%31")) ≡ codes "A")
unfolding normalize_percent normal_octet digits hex_digit hex is_unreserved
normalize_percent_twice = (refl, refl)

normalize_percent_lem_example :
    (octets (normalize_percent (codes "a%7eb%2f")) ≡ octets (codes "a%7eb%2f"))
    × (normalize_percent (normalize_percent (codes "a%7eb%2f"))
        ≡ normalize_percent (codes "a%7eb%2f"))
unfolding is_percent_formed digits hex_digit
normalize_percent_lem_example = normalize_percent_lem (codes "a%7eb%2f") refl

all_uri-escape_uri_example : all is_uri_char (escape_uri (codes "a b")) ≡ true
all_uri-escape_uri_example = all_uri-escape_uri (codes "a b") refl

octets-escape_uri_example : octets (escape_uri (codes "%4 %41")) ≡ octets (codes "%4 %41")
octets-escape_uri_example = octets-escape_uri (codes "%4 %41") refl

escape_uri_idem_example : escape_uri (escape_uri (codes "a b")) ≡ escape_uri (codes "a b")
escape_uri_idem_example = escape_uri_idem (codes "a b") refl
