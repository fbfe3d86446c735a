-- ===== src/Write.antt =====
-- Writing text so that it reads back the same: crates/xenolith/src/io/write/escape.rs and
-- line_break.rs.
pub mod Read
mod Cdata
mod Tests
use xenolith.Common.{
  ℕ, zero, suc, Bool, true, false, List, [], ◌∷◌, ◌++◌, Option, none, some, ◌==◌, if◌then◌else◌,
  length, drop, is_empty,
}
use xenolith.Text.{Text, codes, starts_with}

pub data LineBreak : Type 0 where
  cr cr_lf lf space : LineBreak

abbrev pub as_str : LineBreak → Text
as_str cr = 13 ∷ []
as_str cr_lf = 13 ∷ 10 ∷ []
as_str lf = 10 ∷ []
as_str space = b' ' ∷ []

unfoldable pub text_char : ℕ → Text
text_char c =
    if c == b'&'
    then codes "&amp;"
    else if c == b'<'
    then codes "&lt;"
    else if c == b'>'
    then codes "&gt;"
    else if c == 13
    then codes "&#13;"
    else c ∷ []

-- `push_text`: what it appends.
unfoldable pub push_text : Text → Text
push_text [] = []
push_text (c ∷ s) = text_char c ++ push_text s

unfoldable pub attribute_char : ℕ → Text
attribute_char c =
    if c == b'&'
    then codes "&amp;"
    else if c == b'<'
    then codes "&lt;"
    else if c == b'"'
    then codes "&quot;"
    else if c == 9
    then codes "&#9;"
    else if c == 10
    then codes "&#10;"
    else if c == 13
    then codes "&#13;"
    else c ∷ []

unfoldable pub push_attribute : Text → Text
push_attribute [] = []
push_attribute (c ∷ s) = attribute_char c ++ push_attribute s

unfoldable pub push_section : Text → Text
push_section s = codes "<![CDATA[" ++ (s ++ codes "]]>")

-- The text before the first `]]>` and the text after it.
abbrev pub ahead : ℕ → Option (Text × Text) → Option (Text × Text)
ahead c none = none
ahead c (some (front, back)) = some (c ∷ front, back)

unfoldable pub find_end : Text → Option (Text × Text)
find_end [] = none
find_end (c ∷ s) =
    if starts_with (codes "]]>") (c ∷ s) then some ([], drop 3 (c ∷ s)) else ahead c (find_end s)

abbrev pub section_unless_empty : Text → Text
section_unless_empty s = if is_empty s then [] else push_section s

-- The loop of `push_cdata`, for at most `fuel` rounds.
unfoldable pub cdata_loop : ℕ → Text → Text
cdata_loop zero rest = section_unless_empty rest
cdata_loop (suc fuel) rest = elim (find_end rest) [
  | none ↦ section_unless_empty rest
  | some (front, back) ↦ section_unless_empty front ++ (codes "]]&gt;" ++ cdata_loop fuel back)
]

unfoldable pub push_cdata : Text → Text
push_cdata s = if is_empty s then push_section s else cdata_loop (length s) s
