-- ===== src/Xpointer/Dead.antt =====
-- A selector once nothing more can be selected, and while the selected element is open:
-- crates/xenolith/src/xpointer/element.rs.
use xenolith.Common.{
  ℕ, suc, ◌+◌, ◌≡◌, refl, ◌∙◌, ap, false, List, [], ◌∷◌, ◌++◌, none, arith, length, length-append,
}
use xenolith.Event.{
  EventRef, start_document, end_document, start_element, end_element, content, doctype,
}
use xenolith.Xpointer.{ElementSelector, increment, pop, on_start, on_end, filter}
use xenolith.Xpointer.Trees.{keep_if, kept}

abbrev pub IsDead : ElementSelector → Type 0
IsDead s = (s.searching ≡ false) × (s.selected ≡ none)

-- A dead selector selects nothing and stays dead.
filter-IsDead :
    (e : EventRef) (s : ElementSelector)
    → IsDead s
    → ((filter e s).0 ≡ false) × IsDead (filter e s).1
unfolding filter on_start on_end
filter-IsDead (doctype d) s (h, k) = (refl, (h, k))
filter-IsDead start_document s (h, k) = (refl, (h, k))
filter-IsDead end_document s (h, k) = (refl, (h, k))
filter-IsDead (content c) s (h, k) = (rw (k) refl, (h, k))
filter-IsDead (start_element start) s (h, k) = rw (h, k) (refl, (refl, refl))
filter-IsDead (end_element end) s (h, k) = ground arith

pub kept-IsDead : (es : List EventRef) (s : ElementSelector) → IsDead s → kept es s ≡ []
kept-IsDead [] s d = refl
kept-IsDead (e ∷ es) s d =
    let (h, d') = filter-IsDead e s d in
    ap (λ b. keep_if b e (kept es (filter e s).1)) h ∙ kept-IsDead es (filter e s).1 d'

pub increment_last : (xs : List ℕ) (n : ℕ) → increment (xs ++ n ∷ []) ≡ xs ++ (n + 1) ∷ []
increment_last [] n = refl
increment_last (x ∷ []) n = refl
increment_last (x ∷ y ∷ xs) n = ap (x ∷◌) (increment_last (y ∷ xs) n)

pub pop_last : (xs : List ℕ) (n : ℕ) → pop (xs ++ n ∷ []) ≡ xs
pop_last [] n = refl
pop_last (x ∷ []) n = refl
pop_last (x ∷ y ∷ xs) n = ap (x ∷◌) (pop_last (y ∷ xs) n)

pub length_last : (xs : List ℕ) (n : ℕ) → length (xs ++ n ∷ []) ≡ suc (length xs)
length_last xs n = omega (arith, length-append xs (n ∷ []))
