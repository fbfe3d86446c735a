-- ===== src/Decl.antt =====
-- The text declaration at the start of an external entity: crates/xenolith/src/io/decl.rs. A message is
-- left out of an error, down to what it is about.
mod Span
mod Tests
use xenolith.Common.{
  ℕ, zero, suc, ◌+◌, Bool, true, false, not, ◌&&◌, ◌||◌, List, [], ◌∷◌, ◌++◌, Option, none, some,
  ◌==◌, leb, if◌then◌else◌, length, drop, is_empty, any, take_while, drop_while,
}
use xenolith.Text.{Text, codes, starts_with, before, after, eq_text}
use xenolith.Chars.{is_whitespace}
use xenolith.Scan.{byte_len}
use xenolith.Detect.{before_end}

pub data DeclError : Type 0 where
  missing_equals unquoted unterminated not_closed version_after_encoding has_standalone
        no_encoding :
      DeclError
  repeated unknown : Text → DeclError

pub data Parsed {ℓ} (A : Type ℓ) : Type ℓ where
  ok : A → Parsed A
  err : DeclError → Parsed A

pub data TextDecl : Type 0 where
  absent need_more : TextDecl
  present : ℕ → TextDecl

abbrev pub trim : Text → Text
trim s = drop_while is_whitespace s

abbrev pub ends_name : ℕ → Bool
ends_name c = c == b'=' || is_whitespace c

abbrev pub value_to : Text → Text → Option Text → Parsed (Text × (Text × Text))
value_to name value none = err unterminated
value_to name value (some rest) = ok (name, (value, rest))

abbrev pub value_in : Text → Text → Parsed (Text × (Text × Text))
value_in name [] = err unquoted
value_in name (quote ∷ rest) =
    if quote == b'"' || quote == b'\''
    then value_to name (before quote rest) (after quote rest)
    else err unquoted

abbrev pub value_after : Text → Text → Parsed (Text × (Text × Text))
value_after name [] = err missing_equals
value_after name (c ∷ rest) = if c == b'=' then value_in name (trim rest) else err missing_equals

-- The name, the value and what follows them.
unfoldable pub pseudo_attribute : Text → Parsed (Text × (Text × Text))
pseudo_attribute s =
    value_after (take_while (λ c. not (ends_name c)) (trim s))
      (trim (drop_while (λ c. not (ends_name c)) (trim s)))

abbrev pub seen_name : List Text → Text → Bool
seen_name seen name = any (λ s. eq_text s name) seen

-- What is wrong with one more name, if anything.
unfoldable pub refused : List Text → Text → Option DeclError
refused seen name =
    if seen_name seen name
    then some (repeated name)
    else if eq_text name (codes "version")
    then (if is_empty seen then none else some version_after_encoding)
    else if eq_text name (codes "encoding")
    then none
    else if eq_text name (codes "standalone")
    then some has_standalone
    else some (unknown name)

abbrev pub finished : List Text → Parsed (List Text)
finished seen = if seen_name seen (codes "encoding") then ok seen else err no_encoding

-- The loop over the pseudo-attributes, for at most `fuel` rounds, with the names seen.
unfoldable pub attributes_loop : ℕ → Text → List Text → Parsed (List Text)
attributes_loop zero rest seen = finished seen
attributes_loop (suc fuel) rest seen = elim (is_empty (trim rest)) [
  | true ↦ finished seen
  | false ↦ elim (pseudo_attribute rest) [
    | err e ↦ err e
    | ok (name, (value, tail)) ↦ elim (refused seen name) [
      | some e ↦ err e
      | none ↦ attributes_loop fuel tail (seen ++ name ∷ [])
    ]
  ]
]

abbrev pub span_of : ℕ → Parsed (List Text) → Parsed TextDecl
span_of len (err e) = err e
span_of len (ok seen) = ok (present len)

-- From what stands before the `?>`; every round of the loop takes a character at least.
abbrev pub span_to : Bool → Option Text → Parsed TextDecl
span_to true none = err not_closed
span_to false none = ok need_more
span_to last (some front) =
    span_of (byte_len front + 2) (attributes_loop (length front) (drop 5 front) [])

-- By the character that follows `<?xml`.
abbrev pub span_from : Text → Bool → Text → Parsed TextDecl
span_from rem last [] = if last then ok absent else ok need_more
span_from rem last (c ∷ s) = if is_whitespace c then span_to last (before_end rem) else ok absent

unfoldable pub text_declaration_span : Text → Bool → Parsed TextDecl
text_declaration_span rem last =
    if not last && (leb (byte_len rem) 5 && starts_with rem (codes "<?xml"))
    then ok need_more
    else if starts_with (codes "<?xml") rem
    then span_from rem last (drop 5 rem)
    else ok absent
