-- ===== src/Xpointer/Steps.antt =====
-- One event of an element() selector whose open elements are known: `on_start` and `on_end` of
-- crates/xenolith/src/xpointer/element.rs.
use xenolith.Common.{
  ℕ, ◌+◌, ◌-◌, ◌≡◌, refl, ap, Bool, true, false, List, [], ◌∷◌, ◌++◌, Option, none, some, arith,
  ltb, leb, if◌then◌else◌, length, drop, length-append, Bool-cases, inl, inr, ==-self,
}
use xenolith.Text.{eq_text, eq_option, eq_text_iff}
use xenolith.Event.{StartElementEventRef}
use xenolith.Xpointer.{
  ElementScheme, ElementSelector, Ids, take, slice, is_at, is_target, aim, base_of, has_scheme_id,
  on_start, on_end, close_selected,
}
use xenolith.Xpointer.Dead.{increment_last, pop_last, length_last}

abbrev pub selector_at : ElementScheme → Ids → List ℕ → Option ℕ → Option ℕ → Bool → ElementSelector
selector_at scheme ids counts anchor selected searching = record {
  scheme = scheme;
  ids = ids;
  counts = counts;
  anchor = anchor;
  selected = selected;
  searching = searching;
}

take-front : (xs ys : List ℕ) → take (length xs) (xs ++ ys) ≡ xs
take-front [] ys = refl
take-front (x ∷ xs) ys = ap (x ∷◌) (take-front xs ys)

drop-front : (xs ys : List ℕ) → drop (length xs) (xs ++ ys) ≡ ys
drop-front [] ys = refl
drop-front (x ∷ xs) ys = drop-front xs ys

length-eq_text : (xs ys : List ℕ) → eq_text xs ys ≡ true → length xs ≡ length ys
length-eq_text xs ys h = ap length ((eq_text_iff xs ys).0 h)

slice-front :
    (front path : List ℕ) (m : ℕ)
    → slice (length front) (length (front ++ path)) ((front ++ path) ++ m ∷ []) ≡ some path
slice-front front path m =
    let size = length-append front path in
    let low : leb (length front) (length (front ++ path)) ≡ true = ground (arith, size) in
    let high : leb (length (front ++ path)) (length ((front ++ path) ++ m ∷ [])) ≡ true =
      ground (arith, length_last (front ++ path) m) in
    rw (low, high, take-front (front ++ path) (m ∷ []), drop-front front path) refl

-- The test of `start_element` compares the positions below the base.
pub is_target_lem :
    (front path steps : List ℕ) (depth m : ℕ)
    → depth + 1 ≡ length (front ++ path)
    → is_target (length front) depth steps ((front ++ path) ++ m ∷ []) ≡ eq_text path steps
unfolding eq_option
is_target_lem front path steps depth m h =
    rw (h, slice-front front path m)
      (elim (Bool-cases (eq_text path steps)) [
        | inl same ↦
            let size : length front + length steps ≡ length (front ++ path) =
              omega (arith, length-append front path, length-eq_text path steps same) in
            rw (size, ==-self (length (front ++ path)), same) refl
        | inr other ↦ ground arith
      ])

module _ (scheme : ElementScheme) (ids : Ids) where
  abbrev State : Type 0
  State = ElementSelector

  pub on_start-searching :
      (start : StartElementEventRef) (opened : List ℕ) (n : ℕ) (anchor : Option ℕ)
      → on_start start (selector_at scheme ids (opened ++ n ∷ []) anchor none true)
        ≡ aim
            (length opened)
            (selector_at scheme ids ((opened ++ (n + 1) ∷ []) ++ 0 ∷ []) anchor none true)
            (base_of scheme.id anchor (has_scheme_id ids start scheme.id) (length opened))
  unfolding on_start
  on_start-searching start opened n anchor =
      let depth : length (opened ++ n ∷ []) - 1 ≡ length opened =
        omega (arith, length_last opened n) in
      simp (depth, increment_last opened n) refl

  pub on_start-selected :
      (start : StartElementEventRef) (opened : List ℕ) (n d : ℕ) (anchor : Option ℕ)
      → on_start start (selector_at scheme ids (opened ++ n ∷ []) anchor (some d) false)
        ≡ (true, selector_at scheme ids ((opened ++ (n + 1) ∷ []) ++ 0 ∷ []) anchor (some d) false)
  unfolding on_start
  on_start-selected start opened n d anchor = simp (increment_last opened n) refl

  pub on_end-opened :
      (opened : List ℕ) (k m : ℕ) (anchor selected : Option ℕ) (searching : Bool)
      → on_end (selector_at scheme ids ((opened ++ k ∷ []) ++ m ∷ []) anchor selected searching)
        ≡ close_selected
            (length opened)
            (if is_at anchor (length opened)
              then selector_at scheme ids (opened ++ k ∷ []) none selected false
              else selector_at scheme ids (opened ++ k ∷ []) anchor selected searching)
            selected
  unfolding on_end
  on_end-opened opened k m anchor selected searching =
      let counts = (opened ++ k ∷ []) ++ m ∷ [] in
      let depth : length counts - 2 ≡ length opened =
        omega (arith, length_last (opened ++ k ∷ []) m, length_last opened k) in
      let more : ltb 1 (length counts) ≡ true =
        ground (arith, length_last (opened ++ k ∷ []) m, length_last opened k) in
      simp (depth, more, pop_last (opened ++ k ∷ []) m) refl
