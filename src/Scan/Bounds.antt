-- ===== src/Scan/Bounds.antt =====
-- The tokens that the scanner finds are not empty and lie within the text:
-- crates/xenolith/src/io/parse/scan.rs.
use xenolith.Common.{
  ℕ, zero, suc, ◌+◌, ◌-◌, ◌≡◌, ◌≤◌, refl, inl, inr, Bool, true, false, ◌&&◌, Bool-cases, [], ◌∷◌,
  Option, none, some, Option-cases, arith, ◌==◌, leb, if◌then◌else◌, length, drop,
}
use xenolith.Text.{Text, codes, starts_with}
use xenolith.Scan.{
  TokenKind, comment, c_data, processing_instruction, start_element, end_element, doctype,
  TokenLimits, limit, found, reference, pending, Scanned, ok, err, len_utf8, byte_len, bounded, cut,
  delimited, is_quote, tag_loop, scan_start_tag, reference_loop, scan_reference,
}
use xenolith.Scan.Markup.{
  doctype_found, scan_doctype, scan_markup_declaration, scan_text, scan_markup, scan, find_mark,
  held, fragment_of, text_fragment,
}
use xenolith.Scan.Lengths.{len_utf8_pos, byte_len-drop, byte_len-cut, length-starts_with}
use xenolith.Scan.Below.{below, scan_doctype_bounds}

abbrev pub in_bounds : ℕ → Scanned → Bool
in_bounds len (ok (found kind n)) = leb 1 n && leb n len
in_bounds len (ok (reference n)) = leb 1 n && leb n len
in_bounds len (ok pending) = true
in_bounds len (err e) = true

in_bounds_le : (a b : ℕ) (r : Scanned) → a ≤ b → in_bounds a r ≡ true → in_bounds b r ≡ true
in_bounds_le a b (ok (found kind n)) l h = ground arith
in_bounds_le a b (ok (reference n)) l h = ground arith
in_bounds_le a b (ok pending) l h = refl
in_bounds_le a b (err e) l h = refl

in_bounds-bounded :
    (max : Option ℕ) (rest : Text) (len : ℕ) (r : Scanned)
    → in_bounds len r ≡ true
    → in_bounds len (bounded max rest r) ≡ true
in_bounds-bounded max rest len (err e) h = refl
in_bounds-bounded none rest len (ok r) h = h
in_bounds-bounded (some max) rest len (ok pending) h = ground arith
in_bounds-bounded (some max) rest len (ok (found kind n)) h = h
in_bounds-bounded (some max) rest len (ok (reference n)) h = h

in_bounds-delimited :
    (rest : Text) (kind : TokenKind) (from : ℕ) (t : Text) (complete : Bool)
    → 1 ≤ from
    → from ≤ length rest
    → in_bounds (byte_len rest) (delimited rest kind from t complete) ≡ true
unfolding delimited
in_bounds-delimited rest kind from t complete pos long =
    elim (Option-cases (cut t (drop from rest))) [
      | inl e ↦ rw e (ground arith)
      | inr ((n, r), e) ↦
          let whole = byte_len-cut t (drop from rest) n r e in
          let more = byte_len-drop from rest long in rw e (ground arith)
    ]

in_bounds-tag :
    (s : Text) (i : ℕ) (quote : Option ℕ) (complete : Bool)
    → in_bounds (i + byte_len s) (tag_loop s i quote complete) ≡ true
unfolding tag_loop byte_len
in_bounds-tag [] i quote complete = ground arith
in_bounds-tag (c ∷ s) i (some q) complete =
    in_bounds_le (i + len_utf8 c + byte_len s) (i + (len_utf8 c + byte_len s))
      (tag_loop s (i + len_utf8 c) (if c == q then none else some q) complete) (omega arith)
      (in_bounds-tag s (i + len_utf8 c) (if c == q then none else some q) complete)
in_bounds-tag (c ∷ s) i none complete =
    let ih : in_bounds (i + (len_utf8 c + byte_len s))
          (tag_loop s (i + len_utf8 c) (if is_quote c then some c else none) complete)
        ≡ true =
      in_bounds_le (i + len_utf8 c + byte_len s) (i + (len_utf8 c + byte_len s))
        (tag_loop s (i + len_utf8 c) (if is_quote c then some c else none) complete) (omega arith)
        (in_bounds-tag s (i + len_utf8 c) (if is_quote c then some c else none) complete) in
    let pos = len_utf8_pos c in ground arith

in_bounds-reference :
    (s : Text) (i : ℕ) (complete : Bool)
    → in_bounds (i + byte_len s) (reference_loop s i complete) ≡ true
unfolding reference_loop byte_len
in_bounds-reference [] i complete = ground arith
in_bounds-reference (c ∷ s) i complete =
    let ih : in_bounds (i + (len_utf8 c + byte_len s)) (reference_loop s (i + len_utf8 c) complete)
        ≡ true =
      in_bounds_le (i + len_utf8 c + byte_len s) (i + (len_utf8 c + byte_len s))
        (reference_loop s (i + len_utf8 c) complete) (omega arith)
        (in_bounds-reference s (i + len_utf8 c) complete) in
    let pos = len_utf8_pos c in ground arith

in_bounds-find_mark : (s : Text) (n : ℕ) → find_mark s ≡ some n → n ≤ byte_len s
unfolding find_mark byte_len
in_bounds-find_mark [] n h = ground arith
in_bounds-find_mark (c ∷ s) n h = elim (Option-cases (find_mark s)) [
  | inl e ↦ ground (arith, rw e at h)
  | inr (m, e) ↦ let below = in_bounds-find_mark s m e in ground (arith, rw e at h)
]

in_bounds-text :
    (rest : Text) (complete : Bool) (n : ℕ)
    → 1 ≤ byte_len rest
    → in_bounds (byte_len rest) (scan_text rest complete n) ≡ true
unfolding scan_text text_fragment
in_bounds-text rest complete n h = elim (Option-cases (find_mark rest)) [
  | inr (zero, e) ↦ rw e refl
  | inr (suc m, e) ↦ let below = in_bounds-find_mark rest (suc m) e in rw e (ground arith)
  | inl e ↦ rw e (ground (arith, fragment (byte_len rest - held rest) (omega arith)))
]
  where
    fragment : (m : ℕ) → m ≤ byte_len rest → in_bounds (byte_len rest) (ok (fragment_of m)) ≡ true
    fragment zero k = refl
    fragment (suc m) k = ground arith

doctype_found_bounds :
    (len : ℕ) (o : Option ℕ) (complete : Bool)
    → below len o ≡ true
    → in_bounds len (doctype_found o complete) ≡ true
doctype_found_bounds len (some n) complete h = h
doctype_found_bounds len none true h = refl
doctype_found_bounds len none false h = refl

in_bounds-markup :
    (rest : Text) (complete : Bool) (bounds : TokenLimits)
    → in_bounds (byte_len rest) (scan_markup_declaration rest complete bounds) ≡ true
unfolding scan_markup_declaration
in_bounds-markup rest complete bounds = elim (Bool-cases (starts_with (codes "<!--") rest)) [
  | inl e ↦ rw e (
      in_bounds-bounded (limit comment bounds) rest (byte_len rest)
        (delimited rest comment 4 (codes "-->") complete)
        (in_bounds-delimited rest comment 4 (codes "-->") complete (omega arith)
          (length-starts_with (codes "<!--") rest e)))
  | inr e ↦ elim (Bool-cases (starts_with (codes "<![CDATA[") rest)) [
    | inl f ↦
        rw (e, f)
          (in_bounds-bounded (limit c_data bounds) rest (byte_len rest)
            (delimited rest c_data 9 (codes "]]>") complete)
            (in_bounds-delimited rest c_data 9 (codes "]]>") complete (omega arith)
              (length-starts_with (codes "<![CDATA[") rest f)))
    | inr f ↦ elim (Bool-cases (starts_with (codes "<!DOCTYPE") rest)) [
      | inl g ↦
          rw (e, f, g)
            (in_bounds-bounded (limit doctype bounds) rest (byte_len rest)
              (doctype_found (scan_doctype rest) complete)
              (doctype_found_bounds (byte_len rest) (scan_doctype rest) complete
                (scan_doctype_bounds rest)))
      | inr g ↦ rw (e, f, g) (ground arith)
    ]
  ]
]

in_bounds-scan_markup :
    (rest : Text) (complete : Bool) (bounds : TokenLimits)
    → in_bounds (byte_len rest) (scan_markup rest complete bounds) ≡ true
in_bounds-scan_markup [] complete bounds = ground arith
in_bounds-scan_markup (c ∷ []) complete bounds = ground arith
in_bounds-scan_markup (c ∷ d ∷ s) complete bounds = ground (
  arith,
  in_bounds-bounded (limit processing_instruction bounds) (c ∷ d ∷ s) (byte_len (c ∷ d ∷ s))
      (delimited (c ∷ d ∷ s) processing_instruction 2 (codes "?>") complete)
      (in_bounds-delimited (c ∷ d ∷ s) processing_instruction 2 (codes "?>") complete (omega arith)
        (omega arith)),
  in_bounds-bounded (limit end_element bounds) (c ∷ d ∷ s) (byte_len (c ∷ d ∷ s))
      (delimited (c ∷ d ∷ s) end_element 2 (codes ">") complete)
      (in_bounds-delimited (c ∷ d ∷ s) end_element 2 (codes ">") complete (omega arith)
        (omega arith)),
  in_bounds-markup (c ∷ d ∷ s) complete bounds,
  in_bounds-bounded (limit start_element bounds) (c ∷ d ∷ s) (byte_len (c ∷ d ∷ s))
      (scan_start_tag (c ∷ d ∷ s) complete)
      (unfold scan_start_tag byte_len in in_bounds-tag (d ∷ s) (len_utf8 c) none complete),
)

-- Every token and reference that the scanner finds is at least a byte long and ends within the
-- text, so the parser makes progress and never reads past the text.
pub in_bounds-scan :
    (rest : Text) (complete : Bool) (bounds : TokenLimits) (text_fragment_len : ℕ)
    → in_bounds (byte_len rest) (scan rest complete bounds text_fragment_len) ≡ true
unfolding scan
in_bounds-scan [] complete bounds n = refl
in_bounds-scan (c ∷ s) complete bounds n = ground (
  arith,
  in_bounds-bounded bounds.max_reference (c ∷ s) (byte_len (c ∷ s))
      (scan_reference (c ∷ s) complete)
      (unfold scan_reference byte_len in in_bounds-reference s (len_utf8 c) complete),
  in_bounds-text (c ∷ s) complete n (unfold byte_len in omega (arith, len_utf8_pos c)),
  in_bounds-scan_markup (c ∷ s) complete bounds,
)
