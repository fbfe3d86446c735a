-- ===== src/Scan/Resume.antt =====
-- More input does not change a token that is already complete:
-- crates/xenolith/src/io/parse/scan.rs.
use xenolith.Common.{
  ℕ, ◌≡◌, ◌∙◌, inl, inr, Bool, false, Bool-cases, [], ◌∷◌, ◌++◌, none, Option-cases, arith, ◌==◌,
  if◌then◌else◌, any, length, length-append,
}
use xenolith.Text.{Text, codes, starts_with}
use xenolith.Scan.{
  TokenKind, comment, c_data, processing_instruction, start_element, end_element, doctype,
  TokenLimits, limit, found, pending, not_markup, ok, err, len_utf8, delimited, scan_start_tag,
}
use xenolith.Scan.Markup.{
  doctype_found, scan_doctype, scan_markup_declaration, markup_prefixes, scan_markup, scan,
  doctype_loop,
}
use xenolith.Scan.Lengths.{length-starts_with}
use xenolith.Scan.Append.{
  starts_with-append, tag_loop-append, bounded_inv, bounded_found, delimited-append,
}
use xenolith.Scan.Stable.{doctype_loop-append}

doctype_found-append :
    (rest m : Text) (complete : Bool) (kind : TokenKind) (n : ℕ)
    → doctype_found (scan_doctype rest) false ≡ ok (found kind n)
    → doctype_found (scan_doctype (rest ++ m)) complete ≡ ok (found kind n)
unfolding scan_doctype
doctype_found-append rest m complete kind n h =
    elim (Option-cases (doctype_loop (length rest) rest 0 none 0)) [
      | inl e ↦ ground (arith, rw e at h)
      | inr (k, e) ↦
          rw
            (doctype_loop-append (length rest) (length (rest ++ m)) rest m 0 none 0 k
              (omega (arith, length-append rest m)) e)
            (rw e at h)
    ]

markup-append :
    (rest m : Text) (complete : Bool) (bounds : TokenLimits) (kind : TokenKind) (n : ℕ)
    → scan_markup_declaration rest false bounds ≡ ok (found kind n)
    → scan_markup_declaration (rest ++ m) complete bounds ≡ ok (found kind n)
unfolding scan_markup_declaration
markup-append rest m complete bounds kind n h =
    elim (Bool-cases (starts_with (codes "<!--") rest)) [
      | inl e ↦
          let long = length-starts_with (codes "<!--") rest e in
          rw (starts_with-append (codes "<!--") rest m long ∙ e) (
            bounded_found (limit comment bounds) (rest ++ m)
              (delimited (rest ++ m) comment 4 (codes "-->") complete) kind n
              (delimited-append rest m comment 4 (codes "-->") complete kind n long (
                bounded_inv (limit comment bounds) rest
                  (delimited rest comment 4 (codes "-->") false) kind n (rw e at h))))
      | inr e ↦ elim (Bool-cases (starts_with (codes "<![CDATA[") rest)) [
        | inl f ↦
            let long = length-starts_with (codes "<![CDATA[") rest f in
            rw
              (
                starts_with-append (codes "<!--") rest m (omega arith) ∙ e,
                starts_with-append (codes "<![CDATA[") rest m long ∙ f,
              )
              (bounded_found (limit c_data bounds) (rest ++ m)
                (delimited (rest ++ m) c_data 9 (codes "]]>") complete) kind n
                (delimited-append rest m c_data 9 (codes "]]>") complete kind n long (
                  bounded_inv (limit c_data bounds) rest
                    (delimited rest c_data 9 (codes "]]>") false) kind n (rw (e, f) at h))))
        | inr f ↦ elim (Bool-cases (starts_with (codes "<!DOCTYPE") rest)) [
          | inl g ↦
              let long = length-starts_with (codes "<!DOCTYPE") rest g in
              rw
                (
                  starts_with-append (codes "<!--") rest m (omega arith) ∙ e,
                  starts_with-append (codes "<![CDATA[") rest m long ∙ f,
                  starts_with-append (codes "<!DOCTYPE") rest m long ∙ g,
                )
                (bounded_found (limit doctype bounds) (rest ++ m)
                  (doctype_found (scan_doctype (rest ++ m)) complete) kind n
                  (doctype_found-append rest m complete kind n (
                    bounded_inv (limit doctype bounds) rest
                      (doctype_found (scan_doctype rest) false) kind n (rw (e, f, g) at h))))
          | inr g ↦
              let h : (if any (λ p. starts_with rest p) markup_prefixes
                    then ok pending
                    else err not_markup)
                  ≡ ok (found kind n) =
                rw (e, f, g) at h in
              ground arith
        ]
      ]
    ]

start_tag-append :
    (c : ℕ) (s m : Text) (complete : Bool) (kind : TokenKind) (n : ℕ)
    → scan_start_tag (c ∷ s) false ≡ ok (found kind n)
    → scan_start_tag (c ∷ (s ++ m)) complete ≡ ok (found kind n)
unfolding scan_start_tag
start_tag-append c s m complete kind n h = tag_loop-append s m (len_utf8 c) none complete kind n h

scan_markup-append :
    (rest m : Text) (complete : Bool) (bounds : TokenLimits) (kind : TokenKind) (n : ℕ)
    → scan_markup rest false bounds ≡ ok (found kind n)
    → scan_markup (rest ++ m) complete bounds ≡ ok (found kind n)
scan_markup-append [] m complete bounds kind n h = ground arith
scan_markup-append (c ∷ []) m complete bounds kind n h = ground arith
scan_markup-append (c ∷ d ∷ s) m complete bounds kind n h = elim (Bool-cases (d == b'?')) [
  | inl e ↦ rw e (
      bounded_found (limit processing_instruction bounds) ((c ∷ d ∷ s) ++ m)
        (delimited ((c ∷ d ∷ s) ++ m) processing_instruction 2 (codes "?>") complete) kind n
        (delimited-append (c ∷ d ∷ s) m processing_instruction 2 (codes "?>") complete kind n
          (omega arith)
          (bounded_inv (limit processing_instruction bounds) (c ∷ d ∷ s)
            (delimited (c ∷ d ∷ s) processing_instruction 2 (codes "?>") false) kind n
            (rw e at h))))
  | inr e ↦ elim (Bool-cases (d == b'/')) [
    | inl f ↦
        rw (e, f)
          (bounded_found (limit end_element bounds) ((c ∷ d ∷ s) ++ m)
            (delimited ((c ∷ d ∷ s) ++ m) end_element 2 (codes ">") complete) kind n
            (delimited-append (c ∷ d ∷ s) m end_element 2 (codes ">") complete kind n (omega arith)
              (bounded_inv (limit end_element bounds) (c ∷ d ∷ s)
                (delimited (c ∷ d ∷ s) end_element 2 (codes ">") false) kind n (rw (e, f) at h))))
    | inr f ↦ elim (Bool-cases (d == b'!')) [
      | inl g ↦
          rw (e, f, g) (markup-append (c ∷ d ∷ s) m complete bounds kind n (rw (e, f, g) at h))
      | inr g ↦
          rw (e, f, g)
            (bounded_found (limit start_element bounds) ((c ∷ d ∷ s) ++ m)
              (scan_start_tag ((c ∷ d ∷ s) ++ m) complete) kind n
              (start_tag-append c (d ∷ s) m complete kind n (
                bounded_inv (limit start_element bounds) (c ∷ d ∷ s)
                  (scan_start_tag (c ∷ d ∷ s) false) kind n (rw (e, f, g) at h))))
    ]
  ]
]

-- A token of markup that the scanner finds before the entity has ended is found the same, with the
-- same length, whatever input follows and whether or not the entity ends there.
pub scan-append :
    (s more : Text) (complete : Bool) (bounds : TokenLimits) (text_fragment_len : ℕ)
    (kind : TokenKind) (n : ℕ)
    → scan (b'<' ∷ s) false bounds text_fragment_len ≡ ok (found kind n)
    → scan (b'<' ∷ (s ++ more)) complete bounds text_fragment_len ≡ ok (found kind n)
unfolding scan
scan-append s more complete bounds text_fragment_len kind n h =
    scan_markup-append (b'<' ∷ s) more complete bounds kind n h
