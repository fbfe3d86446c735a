-- ===== src/Scan.antt =====
-- The boundaries of tokens: crates/xenolith/src/io/parse/scan.rs, with the token limits of
-- crates/xenolith/src/io/parse/config.rs. A length is a number of bytes, as in the source: the text
-- that is left is a list of code points, and `byte_len` is its length in UTF-8. A message is left
-- out of an error, down to what it is about.
pub mod Markup
mod Below
mod Complete
pub mod Lengths
mod Bounds
pub mod Append
mod Stable
mod Doctype
mod Tests
mod Resume
use xenolith.Common.{
  ℕ, zero, suc, ◌+◌, ◌-◌, Bool, true, false, not, ◌&&◌, ◌||◌, List, [], ◌∷◌, Option, none, some,
  ◌==◌, ltb, leb, if◌then◌else◌, any, length, drop, is_empty,
}
use xenolith.Text.{Text, codes, starts_with}
use xenolith.Chars.{is_whitespace}

pub data TokenKind : Type 0 where
  comment c_data processing_instruction xml_declaration start_element end_element doctype text :
      TokenKind

pub record TokenLimits : Type 0 where
  pub max_reference : Option ℕ
  pub max_comment : Option ℕ
  pub max_cdata : Option ℕ
  pub max_pi : Option ℕ
  pub max_tag : Option ℕ
  pub max_doctype : Option ℕ

abbrev pub default_token_limits : TokenLimits
default_token_limits = record {
  max_reference = some 1024;
  max_comment = some 1_048_576;
  max_cdata = some 16_777_216;
  max_pi = some 65_536;
  max_tag = some 1_048_576;
  max_doctype = some 262_144;
}

unfoldable pub limit : TokenKind → TokenLimits → Option ℕ
limit comment bounds = bounds.max_comment
limit c_data bounds = bounds.max_cdata
limit processing_instruction bounds = bounds.max_pi
limit xml_declaration bounds = bounds.max_pi
limit start_element bounds = bounds.max_tag
limit end_element bounds = bounds.max_tag
limit doctype bounds = bounds.max_doctype
limit text bounds = none

pub data ScanResult : Type 0 where
  found : TokenKind → ℕ → ScanResult
  reference : ℕ → ScanResult
  pending : ScanResult

pub data ScanError : Type 0 where
  empty_remainder doctype_not_closed not_markup less_than_in_tag text_at_markup : ScanError
  bad_reference : ScanError
  not_terminated ended_within : TokenKind → ScanError
  too_long : ℕ → ScanError

pub data Scanned : Type 0 where
  ok : ScanResult → Scanned
  err : ScanError → Scanned

-- `char::len_utf8`
unfoldable pub len_utf8 : ℕ → ℕ
len_utf8 c = if ltb c 0x80 then 1 else if ltb c 0x800 then 2 else if ltb c 0x1_0000 then 3 else 4

unfoldable pub byte_len : Text → ℕ
byte_len [] = 0
byte_len (c ∷ s) = len_utf8 c + byte_len s

-- `Scan::within`: only a token that is not complete yet can be too long.
abbrev pub within_limit : Option ℕ → Text → ScanResult → Scanned
within_limit (some max) rest pending =
    if ltb max (byte_len rest) then err (too_long max) else ok pending
within_limit _ rest result = ok result

abbrev pub bounded : Option ℕ → Text → Scanned → Scanned
bounded max rest (ok result) = within_limit max rest result
bounded max rest (err e) = err e

abbrev pub incomplete : TokenKind → Bool → Scanned
incomplete kind true = err (ended_within kind)
incomplete kind false = ok pending

abbrev pub cut_further : ℕ → Option (ℕ × Text) → Option (ℕ × Text)
cut_further n none = none
cut_further n (some (at, rest)) = some (n + at, rest)

-- `find(terminator)`: how many bytes there are up to the end of its first occurrence, and the text
-- that follows it.
unfoldable pub cut : Text → Text → Option (ℕ × Text)
cut terminator [] = none
cut terminator (c ∷ s) =
    if starts_with terminator (c ∷ s)
    then some (byte_len terminator, drop (length terminator) (c ∷ s))
    else cut_further (len_utf8 c) (cut terminator s)

abbrev pub delimited_by : TokenKind → ℕ → Bool → Option (ℕ × Text) → Scanned
delimited_by kind from complete (some (at, rest)) = ok (found kind (from + at))
delimited_by kind from true none = err (not_terminated kind)
delimited_by kind from false none = ok pending

-- The first `from` characters are ASCII.
unfoldable pub delimited : Text → TokenKind → ℕ → Text → Bool → Scanned
delimited rest kind from terminator complete =
    if leb (byte_len rest) from
    then incomplete kind complete
    else delimited_by kind from complete (cut terminator (drop from rest))

abbrev pub is_quote : ℕ → Bool
is_quote c = c == b'"' || c == b'\''

-- The loop of `scan_start_tag`, at a byte offset and with the open quote.
unfoldable pub tag_loop : Text → ℕ → Option ℕ → Bool → Scanned
tag_loop [] i quote complete = incomplete start_element complete
tag_loop (c ∷ s) i (some q) complete =
    tag_loop s (i + len_utf8 c) (if c == q then none else some q) complete
tag_loop (c ∷ s) i none complete = elim (c == b'>') [
  | true ↦ ok (found start_element (i + 1))
  | false ↦ elim (c == b'<') [
    | true ↦ err less_than_in_tag
    | false ↦ tag_loop s (i + len_utf8 c) (if is_quote c then some c else none) complete
  ]
]

abbrev pub skip_first : Text → Text
skip_first [] = []
skip_first (c ∷ s) = s

abbrev pub first_len : Text → ℕ
first_len [] = 0
first_len (c ∷ s) = len_utf8 c

unfoldable pub scan_start_tag : Text → Bool → Scanned
scan_start_tag rest complete = tag_loop (skip_first rest) (first_len rest) none complete

abbrev pub scanned_reference : Bool → Scanned
scanned_reference true = err bad_reference
scanned_reference false = ok pending

unfoldable pub reference_loop : Text → ℕ → Bool → Scanned
reference_loop [] i complete = scanned_reference complete
reference_loop (c ∷ s) i complete = elim (c == b';') [
  | true ↦ ok (reference (i + 1))
  | false ↦ elim (c == b'<' || (c == b'&' || is_whitespace c)) [
    | true ↦ err bad_reference
    | false ↦ reference_loop s (i + len_utf8 c) complete
  ]
]

unfoldable pub scan_reference : Text → Bool → Scanned
scan_reference rest complete = reference_loop (skip_first rest) (first_len rest) complete
