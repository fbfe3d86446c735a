-- ===== src/Scan/Complete.antt =====
-- The scanner at the end of its input: crates/xenolith/src/io/parse/scan.rs.
use xenolith.Common.{
  ℕ, zero, suc, ◌+◌, ◌≢◌, refl, inl, inr, true, [], ◌∷◌, Option, none, some, Option-cases, arith,
  ◌==◌, if◌then◌else◌,
}
use xenolith.Text.{Text, codes}
use xenolith.Scan.{
  TokenKind, comment, c_data, processing_instruction, start_element, end_element, doctype,
  TokenLimits, limit, found, reference, pending, Scanned, ok, err, len_utf8, bounded, delimited,
  is_quote, tag_loop, scan_start_tag, reference_loop, scan_reference,
}
use xenolith.Scan.Markup.{
  doctype_found, scan_doctype, scan_markup_declaration, scan_text, scan_markup, scan, find_mark,
}

bounded_complete :
    (max : Option ℕ) (rest : Text) (r : Scanned) → r ≢ ok pending → bounded max rest r ≢ ok pending
bounded_complete max rest (err e) h k = ground arith
bounded_complete none rest (ok r) h k = h k
bounded_complete (some max) rest (ok pending) h k = h refl
bounded_complete (some max) rest (ok (found kind n)) h k = ground arith
bounded_complete (some max) rest (ok (reference n)) h k = ground arith

delimited_complete :
    (rest : Text) (kind : TokenKind) (from : ℕ) (t : Text)
    → delimited rest kind from t true ≢ ok pending
unfolding delimited
delimited_complete rest kind from t h = ground arith

tag_complete : (s : Text) (i : ℕ) (quote : Option ℕ) → tag_loop s i quote true ≢ ok pending
unfolding tag_loop
tag_complete [] i quote h = ground arith
tag_complete (c ∷ s) i (some q) h =
    tag_complete s (i + len_utf8 c) (if c == q then none else some q) h
tag_complete (c ∷ s) i none h =
    ground (arith, tag_complete s (i + len_utf8 c) (if is_quote c then some c else none))

reference_complete : (s : Text) (i : ℕ) → reference_loop s i true ≢ ok pending
unfolding reference_loop
reference_complete [] i h = ground arith
reference_complete (c ∷ s) i h = ground (arith, reference_complete s (i + len_utf8 c))

markup_complete :
    (rest : Text) (bounds : TokenLimits) → scan_markup_declaration rest true bounds ≢ ok pending
unfolding scan_markup_declaration
markup_complete rest bounds h = ground (
  arith,
  bounded_complete (limit comment bounds) rest _ (delimited_complete rest comment 4 (codes "-->")),
  bounded_complete (limit c_data bounds) rest _ (delimited_complete rest c_data 9 (codes "]]>")),
  bounded_complete (limit doctype bounds) rest (doctype_found (scan_doctype rest) true)
      (λ k. ground arith),
)

text_complete : (rest : Text) (n : ℕ) → scan_text rest true n ≢ ok pending
unfolding scan_text
text_complete rest n h = elim (Option-cases (find_mark rest)) [
  | inl e ↦ ground (arith, rw e at h)
  | inr (zero, e) ↦ ground (arith, rw e at h)
  | inr (suc m, e) ↦ ground (arith, rw e at h)
]

scan_markup_complete :
    (rest : Text) (bounds : TokenLimits) → scan_markup rest true bounds ≢ ok pending
scan_markup_complete [] bounds h = ground arith
scan_markup_complete (c ∷ []) bounds h = ground arith
scan_markup_complete (c ∷ d ∷ s) bounds h = ground (
  arith,
  bounded_complete (limit processing_instruction bounds) (c ∷ d ∷ s) _
      (delimited_complete (c ∷ d ∷ s) processing_instruction 2 (codes "?>")),
  bounded_complete (limit end_element bounds) (c ∷ d ∷ s) _
      (delimited_complete (c ∷ d ∷ s) end_element 2 (codes ">")),
  markup_complete (c ∷ d ∷ s) bounds,
  bounded_complete (limit start_element bounds) (c ∷ d ∷ s) (scan_start_tag (c ∷ d ∷ s) true)
      (unfold scan_start_tag in tag_complete (d ∷ s) (len_utf8 c) none),
)

-- At the end of the entity the scanner never asks for more input: it returns a token or an error.
pub scan_complete :
    (rest : Text) (bounds : TokenLimits) (text_fragment_len : ℕ)
    → scan rest true bounds text_fragment_len ≢ ok pending
unfolding scan
scan_complete [] bounds n h = ground arith
scan_complete (c ∷ s) bounds n h = ground (
  arith,
  bounded_complete bounds.max_reference (c ∷ s) (scan_reference (c ∷ s) true)
      (unfold scan_reference in reference_complete s (len_utf8 c)),
  text_complete (c ∷ s) n,
  scan_markup_complete (c ∷ s) bounds,
)
