-- ===== src/Scan/Below.antt =====
-- `scan_doctype` of crates/xenolith/src/io/parse/scan.rs ends within the text.
use xenolith.Common.{
  ℕ, zero, suc, ◌+◌, ◌≡◌, ◌≤◌, refl, inl, inr, Bool, true, ◌&&◌, Bool-cases, [], ◌∷◌, Option, none,
  some, Option-cases, arith, leb, length, drop,
}
use xenolith.Text.{Text, codes}
use xenolith.Scan.{len_utf8, byte_len, cut}
use xenolith.Scan.Markup.{scan_doctype, opens, closes, next_quote, next_depth, doctype_loop}
use xenolith.Scan.Lengths.{len_utf8_pos, byte_len-drop, byte_len-cut, length-starts_with}

abbrev pub below : ℕ → Option ℕ → Bool
below len none = true
below len (some n) = leb 1 n && leb n len

below_le : (a b : ℕ) (r : Option ℕ) → a ≤ b → below a r ≡ true → below b r ≡ true
below_le a b none l h = refl
below_le a b (some n) l h = ground arith

length-opens :
    (mark : Text) (quote : Option ℕ) (s : Text) → opens mark quote s ≡ true → length mark ≤ length s
length-opens mark (some q) s h = ground arith
length-opens mark none s h = length-starts_with mark s h

-- What is left after a comment or a processing instruction in the declaration.
skipped :
    (mark t s : Text) (quote : Option ℕ) (n : ℕ) (rest : Text)
    → opens mark quote s ≡ true
    → cut t (drop (length mark) s) ≡ some (n, rest)
    → (length mark + n) + byte_len rest ≤ byte_len s
skipped mark t s quote n rest o h = omega (
  arith,
  byte_len-drop (length mark) s (length-opens mark quote s o),
  byte_len-cut t (drop (length mark) s) n rest h,
)

below-doctype :
    (fuel : ℕ) (s : Text) (i : ℕ) (quote : Option ℕ) (depth : ℕ)
    → below (i + byte_len s) (doctype_loop fuel s i quote depth) ≡ true
unfolding doctype_loop
below-doctype fuel [] i quote depth = ground arith
below-doctype zero (c ∷ s) i quote depth = ground arith
below-doctype (suc fuel) (c ∷ s) i quote depth =
    elim (Bool-cases (opens (codes "<!--") quote (c ∷ s))) [
      | inl e ↦ elim (Option-cases (cut (codes "-->") (drop 4 (c ∷ s)))) [
        | inl f ↦ rw (e, f, doctype_loop) refl
        | inr ((n, rest), f) ↦
            rw (e, f, doctype_loop)
              (below_le (i + (4 + n) + byte_len rest) (i + byte_len (c ∷ s))
                (doctype_loop fuel rest (i + (4 + n)) quote depth)
                (omega (arith, skipped (codes "<!--") (codes "-->") (c ∷ s) quote n rest e f))
                (below-doctype fuel rest (i + (4 + n)) quote depth))
      ]
      | inr e ↦ elim (Bool-cases (opens (codes "<?") quote (c ∷ s))) [
        | inl g ↦ elim (Option-cases (cut (codes "?>") (drop 2 (c ∷ s)))) [
          | inl f ↦ rw (e, g, f, doctype_loop) refl
          | inr ((n, rest), f) ↦
              rw (e, g, f, doctype_loop)
                (below_le (i + (2 + n) + byte_len rest) (i + byte_len (c ∷ s))
                  (doctype_loop fuel rest (i + (2 + n)) quote depth)
                  (omega (arith, skipped (codes "<?") (codes "?>") (c ∷ s) quote n rest g f))
                  (below-doctype fuel rest (i + (2 + n)) quote depth))
        ]
        | inr g ↦ elim (Bool-cases (closes c quote depth)) [
          | inl k ↦
              rw (e, g, k, doctype_loop)
                (unfold byte_len in let pos = len_utf8_pos c in ground arith)
          | inr k ↦
              rw (e, g, k, doctype_loop)
                (below_le (i + len_utf8 c + byte_len s) (i + byte_len (c ∷ s))
                  (doctype_loop fuel s (i + len_utf8 c) (next_quote c quote)
                    (next_depth c quote depth))
                  (unfold byte_len in omega arith)
                  (below-doctype fuel s (i + len_utf8 c) (next_quote c quote)
                    (next_depth c quote depth)))
        ]
      ]
    ]

pub scan_doctype_bounds : (rest : Text) → below (byte_len rest) (scan_doctype rest) ≡ true
unfolding scan_doctype
scan_doctype_bounds rest =
    below_le (0 + byte_len rest) (byte_len rest) (doctype_loop (length rest) rest 0 none 0)
      (omega arith) (below-doctype (length rest) rest 0 none 0)
