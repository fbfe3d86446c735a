-- ===== src/Chars.antt =====
-- The character classes of XML 1.0 and Namespaces in XML: crates/xenolith/src/chars.rs.
pub mod Names
mod Tests
use xenolith.Common.{
  ℕ, Bool, true, false, not, ◌&&◌, ◌||◌, List, [], ◌∷◌, Option, none, some, ◌==◌, within,
  if◌then◌else◌, all, contains, is_empty,
}
use xenolith.Text.{Text, before, after, is_ascii_alphabetic, is_ascii_alphanumeric, is_ascii_digit}

abbrev pub is_whitespace : ℕ → Bool
is_whitespace c = c == b' ' || (c == 9 || (c == 13 || c == 10))

-- Whether a code point is in one of the ranges.
abbrev pub in_ranges : List (ℕ × ℕ) → ℕ → Bool
in_ranges [] c = false
in_ranges ((low, high) ∷ ranges) c = within low high c || in_ranges ranges c

unfoldable pub is_char : ℕ → Bool
is_char c =
    c == 9
    || (c == 10
        || (c == 13
            || in_ranges ((0x20, 0xD7FF) ∷ (0xE000, 0xFFFD) ∷ (0x1_0000, 0x10_FFFF) ∷ []) c))

abbrev name_start_ranges : List (ℕ × ℕ)
name_start_ranges =
    (b':', b':')
    ∷ (b'A', b'Z')
    ∷ (b'_', b'_')
    ∷ (b'a', b'z')
    ∷ (0xC0, 0xD6)
    ∷ (0xD8, 0xF6)
    ∷ (0xF8, 0x2FF)
    ∷ (0x370, 0x37D)
    ∷ (0x37F, 0x1FFF)
    ∷ (0x200C, 0x200D)
    ∷ (0x2070, 0x218F)
    ∷ (0x2C00, 0x2FEF)
    ∷ (0x3001, 0xD7FF)
    ∷ (0xF900, 0xFDCF)
    ∷ (0xFDF0, 0xFFFD)
    ∷ (0x1_0000, 0xE_FFFF)
    ∷ []

unfoldable pub is_name_start_char : ℕ → Bool
is_name_start_char c = in_ranges name_start_ranges c

unfoldable pub is_name_char : ℕ → Bool
is_name_char c =
    is_name_start_char c
    || in_ranges
        ((b'-', b'-')
          ∷ (b'.', b'.')
          ∷ (b'0', b'9')
          ∷ (0xB7, 0xB7)
          ∷ (0x300, 0x36F)
          ∷ (0x203F, 0x2040)
          ∷ [])
        c

unfoldable pub is_ncname_start_char : ℕ → Bool
is_ncname_start_char c = not (c == b':') && is_name_start_char c

unfoldable pub is_ncname_char : ℕ → Bool
is_ncname_char c = not (c == b':') && is_name_char c

unfoldable pub is_pubid_char : ℕ → Bool
is_pubid_char c =
    c == b' '
    || (c == 13
        || (c == 10
            || (is_ascii_alphanumeric c
                || contains
                    (b'-' ∷ b'\'' ∷ b'(' ∷ b')' ∷ b'+' ∷ b',' ∷ b'.' ∷ b'/' ∷ b':' ∷ b'=' ∷ b'?'
                      ∷ b';' ∷ b'!' ∷ b'*' ∷ b'#' ∷ b'@' ∷ b'$' ∷ b'_' ∷ b'%' ∷ [])
                    c)))

abbrev pub is_pubid_literal : Text → Bool
is_pubid_literal s = all is_pubid_char s

unfoldable pub is_name : Text → Bool
is_name [] = false
is_name (c ∷ s) = is_name_start_char c && all is_name_char s

unfoldable pub is_ncname : Text → Bool
is_ncname [] = false
is_ncname (c ∷ s) = is_ncname_start_char c && all is_ncname_char s

unfoldable pub is_enc_name : Text → Bool
is_enc_name [] = false
is_enc_name (c ∷ s) =
    is_ascii_alphabetic c
    && all (λ d. is_ascii_alphanumeric d || (d == b'.' || (d == b'_' || d == b'-'))) s

unfoldable pub is_nmtoken : Text → Bool
is_nmtoken s = not (is_empty s) && all is_name_char s

-- What `split_qname` makes of the result of `split_once`.
abbrev pub qname_of : Text → Text → Option Text → Option (Option Text × Text)
qname_of s prefix none = if is_ncname s then some (none, s) else none
qname_of s prefix (some local) =
    if is_ncname prefix && is_ncname local then some (some prefix, local) else none

unfoldable pub split_qname : Text → Option (Option Text × Text)
split_qname s = qname_of s (before b':' s) (after b':' s)
