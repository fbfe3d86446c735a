-- ===== src/Scan/Stable.antt =====
-- More input does not change where a document type declaration ends:
-- crates/xenolith/src/io/parse/scan.rs.
use xenolith.Common.{
  ℕ, zero, suc, ◌+◌, ◌≡◌, ◌≤◌, refl, ◌∙◌, inl, inr, true, false, Bool-cases, ==_iff, [], ◌∷◌, ◌++◌,
  Option, none, some, Option-cases, arith, length, drop,
}
use xenolith.Text.{Text, codes, starts_with}
use xenolith.Scan.{len_utf8, cut}
use xenolith.Scan.Markup.{opens, closes, next_quote, next_depth, doctype_loop}
use xenolith.Scan.Lengths.{length-starts_with}
use xenolith.Scan.Append.{starts_with-append, cut-append, drop-append}

-- A text that ends within a mark opens nothing: nothing in the mark closes the declaration.
length-opens :
    (mark : Text) (quote : Option ℕ) (s : Text) → opens mark quote s ≡ true → length mark ≤ length s
length-opens mark (some q) s h = ground arith
length-opens mark none s h = length-starts_with mark s h

loop_one : (fuel i depth : ℕ) → doctype_loop fuel (b'<' ∷ []) i none depth ≡ none
unfolding doctype_loop starts_with
loop_one zero i depth = refl
loop_one (suc fuel) i depth = refl

loop_two : (fuel i depth : ℕ) → doctype_loop fuel (b'<' ∷ b'!' ∷ []) i none depth ≡ none
unfolding doctype_loop starts_with
loop_two zero i depth = refl
loop_two (suc zero) i depth = refl
loop_two (suc (suc fuel)) i depth = refl

loop_three : (fuel i depth : ℕ) → doctype_loop fuel (b'<' ∷ b'!' ∷ b'-' ∷ []) i none depth ≡ none
unfolding doctype_loop starts_with
loop_three zero i depth = refl
loop_three (suc zero) i depth = refl
loop_three (suc (suc zero)) i depth = refl
loop_three (suc (suc (suc fuel))) i depth = refl

loop_comment_cut :
    (fuel : ℕ) (s m : Text) (i depth : ℕ)
    → starts_with (codes "<!--") s ≡ false
    → starts_with (codes "<!--") (s ++ m) ≡ true
    → doctype_loop fuel s i none depth ≡ none
unfolding starts_with
loop_comment_cut fuel [] m i depth e f = unfold doctype_loop in refl
loop_comment_cut fuel (c ∷ []) m i depth e f =
    let first : c ≡ b'<' = ground (arith, ==_iff b'<' c) in rw first (loop_one fuel i depth)
loop_comment_cut fuel (c ∷ d ∷ []) m i depth e f =
    let first : c ≡ b'<' = ground (arith, ==_iff b'<' c) in
    let second : d ≡ b'!' = ground (arith, ==_iff b'!' d) in
    rw (first, second) (loop_two fuel i depth)
loop_comment_cut fuel (c ∷ d ∷ x ∷ []) m i depth e f =
    let first : c ≡ b'<' = ground (arith, ==_iff b'<' c) in
    let second : d ≡ b'!' = ground (arith, ==_iff b'!' d) in
    let third : x ≡ b'-' = ground (arith, ==_iff b'-' x) in
    rw (first, second, third) (loop_three fuel i depth)
loop_comment_cut fuel (c ∷ d ∷ x ∷ y ∷ s) m i depth e f = ground arith

loop_instruction_cut :
    (fuel : ℕ) (s m : Text) (i depth : ℕ)
    → starts_with (codes "<?") s ≡ false
    → starts_with (codes "<?") (s ++ m) ≡ true
    → doctype_loop fuel s i none depth ≡ none
unfolding starts_with
loop_instruction_cut fuel [] m i depth e f = unfold doctype_loop in refl
loop_instruction_cut fuel (c ∷ []) m i depth e f =
    let first : c ≡ b'<' = ground (arith, ==_iff b'<' c) in rw first (loop_one fuel i depth)
loop_instruction_cut fuel (c ∷ d ∷ s) m i depth e f = ground arith

-- A mark that opens in the longer text opens in the shorter one, where that one goes on to an end.
opens_same :
    (mark : Text) (quote : Option ℕ) (s m : Text) (o : Option ℕ) (n : ℕ)
    → (starts_with mark s ≡ false → starts_with mark (s ++ m) ≡ true → quote ≡ none → o ≡ none)
    → o ≡ some n
    → opens mark quote (s ++ m) ≡ opens mark quote s
opens_same mark (some q) s m o n cut h = refl
opens_same mark none s m o n cut h = elim (Bool-cases (starts_with mark s)) [
  | inl e ↦ starts_with-append mark s m (length-starts_with mark s e)
  | inr e ↦ elim (Bool-cases (starts_with mark (s ++ m))) [
    | inl f ↦ ground (arith, cut e f refl)
    | inr f ↦ rw (e, f) refl
  ]
]

comment_same :
    (fuel : ℕ) (s m : Text) (i : ℕ) (quote : Option ℕ) (depth n : ℕ)
    → doctype_loop fuel s i quote depth ≡ some n
    → opens (codes "<!--") quote (s ++ m) ≡ opens (codes "<!--") quote s
comment_same fuel s m i quote depth n h =
    opens_same (codes "<!--") quote s m (doctype_loop fuel s i quote depth) n
      (λ e f q. rw q (loop_comment_cut fuel s m i depth e f)) h

instruction_same :
    (fuel : ℕ) (s m : Text) (i : ℕ) (quote : Option ℕ) (depth n : ℕ)
    → doctype_loop fuel s i quote depth ≡ some n
    → opens (codes "<?") quote (s ++ m) ≡ opens (codes "<?") quote s
instruction_same fuel s m i quote depth n h =
    opens_same (codes "<?") quote s m (doctype_loop fuel s i quote depth) n
      (λ e f q. rw q (loop_instruction_cut fuel s m i depth e f)) h

pub doctype_loop-append :
    (fuel big : ℕ) (s m : Text) (i : ℕ) (quote : Option ℕ) (depth n : ℕ)
    → fuel ≤ big
    → doctype_loop fuel s i quote depth ≡ some n
    → doctype_loop big (s ++ m) i quote depth ≡ some n
unfolding doctype_loop
doctype_loop-append fuel big [] m i quote depth n l h = ground arith
doctype_loop-append zero big (c ∷ s) m i quote depth n l h = ground arith
doctype_loop-append (suc fuel) zero (c ∷ s) m i quote depth n l h = absurd (omega arith)
doctype_loop-append (suc fuel) (suc big) (c ∷ s) m i quote depth n l h =
    let same = comment_same (suc fuel) (c ∷ s) m i quote depth n h in
    let same' = instruction_same (suc fuel) (c ∷ s) m i quote depth n h in
    elim (Bool-cases (opens (codes "<!--") quote (c ∷ s))) [
      | inl e ↦ elim (Option-cases (cut (codes "-->") (drop 4 (c ∷ s)))) [
        | inl f ↦ ground (arith, rw (e, f, doctype_loop) at h)
        | inr ((k, rest), f) ↦
            let long = length-opens (codes "<!--") quote (c ∷ s) e in
            let h' : doctype_loop fuel rest (i + (4 + k)) quote depth ≡ some n =
              rw (e, f, doctype_loop) at h in
            let f' : cut (codes "-->") (drop 4 ((c ∷ s) ++ m)) ≡ some (k, rest ++ m) =
              rw (drop-append 4 (c ∷ s) m long)
                (cut-append (codes "-->") (drop 4 (c ∷ s)) m k rest f) in
            rw (same ∙ e, f', doctype_loop)
              (doctype_loop-append fuel big rest m (i + (4 + k)) quote depth n (omega arith) h')
      ]
      | inr e ↦ elim (Bool-cases (opens (codes "<?") quote (c ∷ s))) [
        | inl g ↦ elim (Option-cases (cut (codes "?>") (drop 2 (c ∷ s)))) [
          | inl f ↦ ground (arith, rw (e, g, f, doctype_loop) at h)
          | inr ((k, rest), f) ↦
              let long = length-opens (codes "<?") quote (c ∷ s) g in
              let h' : doctype_loop fuel rest (i + (2 + k)) quote depth ≡ some n =
                rw (e, g, f, doctype_loop) at h in
              let f' : cut (codes "?>") (drop 2 ((c ∷ s) ++ m)) ≡ some (k, rest ++ m) =
                rw (drop-append 2 (c ∷ s) m long)
                  (cut-append (codes "?>") (drop 2 (c ∷ s)) m k rest f) in
              rw (same ∙ e, same' ∙ g, f', doctype_loop)
                (doctype_loop-append fuel big rest m (i + (2 + k)) quote depth n (omega arith) h')
        ]
        | inr g ↦ elim (Bool-cases (closes c quote depth)) [
          | inl k ↦ rw (same ∙ e, same' ∙ g, k, doctype_loop) (rw (e, g, k, doctype_loop) at h)
          | inr k ↦
              rw (same ∙ e, same' ∙ g, k, doctype_loop)
                (doctype_loop-append fuel big s m (i + len_utf8 c) (next_quote c quote)
                  (next_depth c quote depth) n (omega arith) (rw (e, g, k, doctype_loop) at h))
        ]
      ]
    ]
