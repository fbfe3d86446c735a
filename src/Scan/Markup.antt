-- ===== src/Scan/Markup.antt =====
-- Document type declarations, text and the choice between tokens: the rest of
-- crates/xenolith/src/io/parse/scan.rs.
use xenolith.Common.{
  ℕ, zero, suc, ◌+◌, ◌-◌, Bool, true, false, not, ◌&&◌, ◌||◌, List, [], ◌∷◌, Option, none, some,
  ◌==◌, leb, if◌then◌else◌, any, length, drop,
}
use xenolith.Text.{Text, codes, starts_with}
use xenolith.Scan.{
  comment, c_data, processing_instruction, start_element, end_element, doctype, text, TokenLimits,
  limit, ScanResult, found, pending, empty_remainder, doctype_not_closed, not_markup,
  text_at_markup, Scanned, ok, err, len_utf8, byte_len, bounded, incomplete, cut, delimited,
  is_quote, scan_start_tag, scan_reference,
}

abbrev pub next_quote : ℕ → Option ℕ → Option ℕ
next_quote c (some q) = if c == q then none else some q
next_quote c none = if is_quote c then some c else none

abbrev pub next_depth : ℕ → Option ℕ → ℕ → ℕ
next_depth c (some q) depth = depth
next_depth c none depth = if c == b'[' then suc depth else if c == b']' then depth - 1 else depth

abbrev pub closes : ℕ → Option ℕ → ℕ → Bool
closes c (some q) depth = false
closes c none depth = c == b'>' && depth == 0

abbrev pub opens : Text → Option ℕ → Text → Bool
opens mark (some q) tail = false
opens mark none tail = starts_with mark tail

-- The loop of `scan_doctype`, for at most `fuel` rounds, at a byte offset and with the open quote. A
-- comment or a processing instruction that does not end leaves nothing to look at.
unfoldable pub doctype_loop : ℕ → Text → ℕ → Option ℕ → ℕ → Option ℕ
doctype_loop fuel [] i quote depth = none
doctype_loop zero (c ∷ s) i quote depth = none
doctype_loop (suc fuel) (c ∷ s) i quote depth = elim (opens (codes "<!--") quote (c ∷ s)) [
  | true ↦ elim (cut (codes "-->") (drop 4 (c ∷ s))) [
    | some (n, rest) ↦ doctype_loop fuel rest (i + (4 + n)) quote depth
    | none ↦ none
  ]
  | false ↦ elim (opens (codes "<?") quote (c ∷ s)) [
    | true ↦ elim (cut (codes "?>") (drop 2 (c ∷ s))) [
      | some (n, rest) ↦ doctype_loop fuel rest (i + (2 + n)) quote depth
      | none ↦ none
    ]
    | false ↦ elim (closes c quote depth) [
      | true ↦ some (i + 1)
      | false ↦ doctype_loop fuel s (i + len_utf8 c) (next_quote c quote) (next_depth c quote depth)
    ]
  ]
]

-- Every round takes a character at least (`Scan.Doctype.doctype_loop-fuel`).
unfoldable pub scan_doctype : Text → Option ℕ
scan_doctype rest = doctype_loop (length rest) rest 0 none 0

abbrev pub doctype_found : Option ℕ → Bool → Scanned
doctype_found (some len) complete = ok (found doctype len)
doctype_found none true = err doctype_not_closed
doctype_found none false = ok pending

abbrev pub markup_prefixes : List Text
markup_prefixes = codes "<!--" ∷ codes "<![CDATA[" ∷ codes "<!DOCTYPE" ∷ []

unfoldable pub scan_markup_declaration : Text → Bool → TokenLimits → Scanned
scan_markup_declaration rest complete bounds =
    if starts_with (codes "<!--") rest
    then bounded (limit comment bounds) rest (delimited rest comment 4 (codes "-->") complete)
    else if starts_with (codes "<![CDATA[") rest
    then bounded (limit c_data bounds) rest (delimited rest c_data 9 (codes "]]>") complete)
    else if starts_with (codes "<!DOCTYPE") rest
    then bounded (limit doctype bounds) rest (doctype_found (scan_doctype rest) complete)
    else if not complete && any (λ p. starts_with rest p) markup_prefixes
    then ok pending
    else err not_markup

abbrev pub further : ℕ → Option ℕ → Option ℕ
further n none = none
further n (some at) = some (n + at)

-- The bytes before the first `<` or `&`.
unfoldable pub find_mark : Text → Option ℕ
find_mark [] = none
find_mark (c ∷ s) = if c == b'<' || c == b'&' then some 0 else further (len_utf8 c) (find_mark s)

-- How many of the last two bytes are `]`, from the end.
unfoldable pub held : Text → ℕ
held [] = 0
held (c ∷ []) = if c == b']' then 1 else 0
held (c ∷ d ∷ []) = if d == b']' then (if c == b']' then 2 else 1) else 0
held (c ∷ d ∷ e ∷ s) = held (d ∷ e ∷ s)

abbrev pub fragment_of : ℕ → ScanResult
fragment_of zero = pending
fragment_of (suc n) = found text (suc n)

unfoldable pub text_fragment : Text → ScanResult
text_fragment rest = fragment_of (byte_len rest - held rest)

abbrev pub text_until : Text → Bool → ℕ → Option ℕ → Scanned
text_until rest complete fragment_len (some zero) = err text_at_markup
text_until rest complete fragment_len (some (suc n)) = ok (found text (suc n))
text_until rest true fragment_len none = ok (found text (byte_len rest))
text_until rest false fragment_len none =
    if leb fragment_len (byte_len rest) then ok (text_fragment rest) else ok pending

unfoldable pub scan_text : Text → Bool → ℕ → Scanned
scan_text rest complete fragment_len = text_until rest complete fragment_len (find_mark rest)

-- What `scan` does with a text that begins with `<`, by the character after that.
abbrev pub scan_markup : Text → Bool → TokenLimits → Scanned
scan_markup [] complete bounds = incomplete start_element complete
scan_markup (c ∷ []) complete bounds = incomplete start_element complete
scan_markup (c ∷ d ∷ s) complete bounds =
    if d == b'?'
    then bounded (limit processing_instruction bounds) (c ∷ d ∷ s)
        (delimited (c ∷ d ∷ s) processing_instruction 2 (codes "?>") complete)
    else if d == b'/'
    then bounded (limit end_element bounds) (c ∷ d ∷ s)
        (delimited (c ∷ d ∷ s) end_element 2 (codes ">") complete)
    else if d == b'!'
    then scan_markup_declaration (c ∷ d ∷ s) complete bounds
    else bounded (limit start_element bounds) (c ∷ d ∷ s) (scan_start_tag (c ∷ d ∷ s) complete)

unfoldable pub scan : Text → Bool → TokenLimits → ℕ → Scanned
scan [] complete bounds text_fragment_len = err empty_remainder
scan (c ∷ s) complete bounds text_fragment_len =
    if c == b'&'
    then bounded bounds.max_reference (c ∷ s) (scan_reference (c ∷ s) complete)
    else if not (c == b'<')
    then scan_text (c ∷ s) complete text_fragment_len
    else scan_markup (c ∷ s) complete bounds
