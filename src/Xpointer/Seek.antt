-- ===== src/Xpointer/Seek.antt =====
-- The search of an element() selector over a document: crates/xenolith/src/xpointer/element.rs.
use xenolith.Common.{
  ℕ, ◌+◌, ◌≤◌, ◌<◌, ◌≡◌, refl, ◌∙◌, ap, sym, true, false, List, [], ◌∷◌, ◌++◌, Option, none, some,
  arith, if◌then◌else◌, length, length-append, append_assoc, Bool-cases, inl, inr,
}
use xenolith.Text.{eq_text}
use xenolith.Event.{EventRef, StartElementEventRef, EndElementEventRef, start_element, end_element}
use xenolith.Xpointer.{ElementScheme, Ids, is_at, aim, base_of, has_scheme_id, is_target, filter}
use xenolith.Xpointer.Trees.{
  Element, Nodes, nothing, element, leaf, events, elements, or_else, find, found_events, kept,
}
use xenolith.Xpointer.Dead.{length_last}
use xenolith.Xpointer.Steps.{is_target_lem}
use xenolith.Xpointer.Kept.{at, kept-start, kept-passed, kept-end_selected, kept-selected}

pub found-or_else :
    (a b : Option Element) (rest : List EventRef)
    → found_events (or_else a b) rest ≡ found_events a (found_events b rest)
found-or_else none b rest = refl
found-or_else (some e) b rest = refl

module _ (scheme : ElementScheme) (ids : Ids) where
  -- The element that is selected: its events are kept, and no more.
  pub kept-found :
      (start : StartElementEventRef) (children : Nodes) (end : EndElementEventRef)
      (tail : List EventRef) (opened : List ℕ) (k : ℕ) (anchor : Option ℕ)
      → ((j : ℕ) → length opened < j → is_at anchor j ≡ false)
      → start_element start
          ∷ kept
              (events children ++ end_element end ∷ tail)
              (at scheme ids ((opened ++ k ∷ []) ++ 0 ∷ []) anchor (some (length opened)) false)
        ≡ start_element start ∷ events children ++ end_element end ∷ []
  kept-found start children end tail opened k anchor na = ap (start_element start ∷◌) (
      kept-selected scheme ids children (end_element end ∷ tail) (opened ++ k ∷ []) 0
        (length opened) anchor (omega (arith, length_last opened k)) na
      ∙ ap (events children ++◌)
          (kept-end_selected scheme ids end tail opened k (0 + elements children) anchor))

  module _ (front : List ℕ) (anchor : Option ℕ) where
    -- The child sequence counts from the element at `front`.
    abbrev pub IsBase : Type 0
    IsBase =
        ((start : StartElementEventRef) (depth : ℕ)
          → base_of scheme.id anchor (has_scheme_id ids start scheme.id) depth
            ≡ some (length front, anchor))
        × ((j : ℕ) → length front ≤ j → is_at anchor j ≡ false)

    aim-base :
        (start : StartElementEventRef) (opened path : List ℕ) (k : ℕ)
        → IsBase
        → opened ++ k ∷ [] ≡ front ++ path
        → aim
            (length opened)
            (at scheme ids ((opened ++ k ∷ []) ++ 0 ∷ []) anchor none true)
            (base_of scheme.id anchor (has_scheme_id ids start scheme.id) (length opened))
          ≡ (if eq_text path scheme.steps
              then (
                true,
                at scheme ids ((opened ++ k ∷ []) ++ 0 ∷ []) anchor (some (length opened)) false,
              )
              else (false, at scheme ids ((opened ++ k ∷ []) ++ 0 ∷ []) anchor none true))
    aim-base start opened path k (base, na) e =
        let counts = (opened ++ k ∷ []) ++ 0 ∷ [] in
        let test : is_target (length front) (length opened) scheme.steps counts
            ≡ eq_text path scheme.steps =
          ap (λ xs. is_target (length front) (length opened) scheme.steps (xs ++ 0 ∷ [])) e
          ∙ is_target_lem front path scheme.steps (length opened) 0
              (omega (arith, length_last opened k, ap length e)) in
        rw (base start (length opened), test) refl

    pub kept-seek :
        (nodes : Nodes) (tail : List EventRef) (opened path : List ℕ) (n : ℕ)
        → IsBase
        → opened ≡ front ++ path
        → kept (events nodes ++ tail) (at scheme ids (opened ++ n ∷ []) anchor none true)
          ≡ found_events
              (find (λ q start. eq_text q scheme.steps) path n nodes)
              (kept tail (at scheme ids (opened ++ (n + elements nodes) ∷ []) anchor none true))
    unfolding filter
    kept-seek nothing tail opened path n base e =
        let same : n ≡ n + 0 = omega arith in
        ap (λ m. kept tail (at scheme ids (opened ++ m ∷ []) anchor none true)) same
    kept-seek (leaf c rest) tail opened path n base e = kept-seek rest tail opened path n base e
    kept-seek (element start children end rest) tail opened path n base e =
        let opened' = opened ++ (n + 1) ∷ [] in
        let here = path ++ (n + 1) ∷ [] in
        let e' : opened' ≡ front ++ here =
          ap (λ xs. xs ++ (n + 1) ∷ []) e ∙ append_assoc front path ((n + 1) ∷ []) in
        let after = end_element end ∷ events rest ++ tail in
        let aims = aim-base start opened here (n + 1) base e' in
        let deep : length front ≤ length opened =
          omega (arith, ap length e, length-append front path) in
        ap
          (λ es.
            kept (start_element start ∷ es) (at scheme ids (opened ++ n ∷ []) anchor none true))
          (append_assoc (events children) (end_element end ∷ events rest) tail)
        ∙ elim (Bool-cases (eq_text here scheme.steps)) [
          | inl same ↦
              kept-start scheme ids start (events children ++ after) opened n anchor true
                (at scheme ids (opened' ++ 0 ∷ []) anchor (some (length opened)) false)
                (aims ∙ rw (same) refl)
              ∙ kept-found start children end (events rest ++ tail) opened (n + 1) anchor
                  (λ j l. base.1 j (omega arith))
              ∙ rw (same) refl
          | inr other ↦
              let rest_found = find (λ q start. eq_text q scheme.steps) path (n + 1) rest in
              let within_found = find (λ q start. eq_text q scheme.steps) here 0 children in
              let count : n + 1 + elements rest ≡ n + (elements rest + 1) = omega arith in
              let left =
                kept tail
                  (at scheme ids (opened ++ (n + (elements rest + 1)) ∷ []) anchor none true) in
              kept-passed scheme ids start children end (events rest ++ tail) opened n anchor
                (found_events within_found) (aims ∙ rw (other) refl) (base.1 (length opened) deep)
                (kept-seek children after opened' here 0 base e')
              ∙ ap (found_events within_found) (
                  kept-seek rest tail opened path (n + 1) base e
                  ∙ ap
                      (λ m.
                        found_events rest_found
                          (kept tail (at scheme ids (opened ++ m ∷ []) anchor none true)))
                      count)
              ∙ sym (found-or_else within_found rest_found left)
              ∙ rw (other) refl
        ]
