-- ===== src/Scan/Doctype.antt =====
-- The loop of `scan_doctype` ends by its own test: crates/xenolith/src/io/parse/scan.rs.
use xenolith.Common.{
  ℕ, zero, suc, ◌+◌, ◌≡◌, ◌≤◌, refl, inl, inr, true, Bool-cases, [], ◌∷◌, Option, none, some,
  Option-cases, arith, length, drop,
}
use xenolith.Text.{Text, codes}
use xenolith.Scan.{len_utf8, cut}
use xenolith.Scan.Markup.{opens, closes, next_quote, next_depth, doctype_loop}
use xenolith.Scan.Lengths.{length-starts_with}
use xenolith.Scan.Append.{length-cut}

-- A text that ends within a mark opens nothing: nothing in the mark closes the declaration.

length-drop : (n : ℕ) (s : Text) → n ≤ length s → length (drop n s) + n ≡ length s
length-drop zero s h = omega arith
length-drop (suc n) [] h = absurd (omega arith)
length-drop (suc n) (c ∷ s) h = omega (arith, length-drop n s (omega arith))

length-opens :
    (mark : Text) (quote : Option ℕ) (s : Text) → opens mark quote s ≡ true → length mark ≤ length s
length-opens mark (some q) s h = ground arith
length-opens mark none s h = length-starts_with mark s h

shorter :
    (mark t s : Text) (quote : Option ℕ) (n : ℕ) (rest : Text)
    → opens mark quote s ≡ true
    → cut t (drop (length mark) s) ≡ some (n, rest)
    → length rest + length mark ≤ length s
shorter mark t s quote n rest o h = omega (
  arith,
  length-drop (length mark) s (length-opens mark quote s o),
  length-cut t (drop (length mark) s) n rest h,
)

-- Fuel beyond the length of the text changes nothing: every round of the loop takes a character at
-- least, so the loop has ended by its own test.
pub doctype_loop-fuel :
    (fuel more : ℕ) (s : Text) (i : ℕ) (quote : Option ℕ) (depth : ℕ)
    → length s ≤ fuel
    → length s ≤ more
    → doctype_loop fuel s i quote depth ≡ doctype_loop more s i quote depth
unfolding doctype_loop
doctype_loop-fuel fuel more [] i quote depth l k = refl
doctype_loop-fuel zero more (c ∷ s) i quote depth l k = absurd (omega arith)
doctype_loop-fuel (suc fuel) zero (c ∷ s) i quote depth l k = absurd (omega arith)
doctype_loop-fuel (suc fuel) (suc more) (c ∷ s) i quote depth l k =
    elim (Bool-cases (opens (codes "<!--") quote (c ∷ s))) [
      | inl e ↦ elim (Option-cases (cut (codes "-->") (drop 4 (c ∷ s)))) [
        | inl f ↦ rw (e, f, doctype_loop) refl
        | inr ((n, rest), f) ↦
            let less = shorter (codes "<!--") (codes "-->") (c ∷ s) quote n rest e f in
            rw (e, f, doctype_loop)
              (doctype_loop-fuel fuel more rest (i + (4 + n)) quote depth (omega arith)
                (omega arith))
      ]
      | inr e ↦ elim (Bool-cases (opens (codes "<?") quote (c ∷ s))) [
        | inl g ↦ elim (Option-cases (cut (codes "?>") (drop 2 (c ∷ s)))) [
          | inl f ↦ rw (e, g, f, doctype_loop) refl
          | inr ((n, rest), f) ↦
              let less = shorter (codes "<?") (codes "?>") (c ∷ s) quote n rest g f in
              rw (e, g, f, doctype_loop)
                (doctype_loop-fuel fuel more rest (i + (2 + n)) quote depth (omega arith)
                  (omega arith))
        ]
        | inr g ↦ elim (Bool-cases (closes c quote depth)) [
          | inl h ↦ rw (e, g, h, doctype_loop) refl
          | inr h ↦
              rw (e, g, h, doctype_loop)
                (doctype_loop-fuel fuel more s (i + len_utf8 c) (next_quote c quote)
                  (next_depth c quote depth) (omega arith) (omega arith))
        ]
      ]
    ]
