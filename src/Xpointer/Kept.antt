-- ===== src/Xpointer/Kept.antt =====
-- The events that an element() selector keeps, one by one and while the selected element is open:
-- crates/xenolith/src/xpointer/element.rs.
use xenolith.Common.{
  ℕ, ◌+◌, ◌<◌, ◌≡◌, refl, ◌∙◌, ap, sym, Bool, true, false, List, [], ◌∷◌, ◌++◌, Option, none, some,
  arith, ◌==◌, if◌then◌else◌, length, append_assoc, ==-self, Bool-cases, inl, inr,
}
use xenolith.Event.{
  EventRef, StartElementEventRef, EndElementEventRef, start_element, end_element, content,
}
use xenolith.Xpointer.{
  ElementScheme, ElementSelector, Ids, is_at, aim, base_of, has_scheme_id, close_selected, filter,
}
use xenolith.Xpointer.Trees.{Nodes, nothing, element, leaf, events, elements, keep_if, kept}
use xenolith.Xpointer.Dead.{kept-IsDead, length_last}
use xenolith.Xpointer.Steps.{selector_at, on_start-searching, on_start-selected, on_end-opened}

kept-next :
    (e : EventRef) (es : List EventRef) (s s' : ElementSelector) (selects : Bool)
    → filter e s ≡ (selects, s')
    → kept (e ∷ es) s ≡ keep_if selects e (kept es s')
kept-next e es s s' selects h = ap (λ (p : Bool × ElementSelector). keep_if p.0 e (kept es p.1)) h

module _ (scheme : ElementScheme) (ids : Ids) where
  abbrev pub at : List ℕ → Option ℕ → Option ℕ → Bool → ElementSelector
  at = selector_at scheme ids

  pub kept-start :
      (start : StartElementEventRef) (es : List EventRef) (opened : List ℕ) (n : ℕ)
      (anchor : Option ℕ) (selects : Bool) (s' : ElementSelector)
      → aim
          (length opened)
          (at ((opened ++ (n + 1) ∷ []) ++ 0 ∷ []) anchor none true)
          (base_of scheme.id anchor (has_scheme_id ids start scheme.id) (length opened))
        ≡ (selects, s')
      → kept (start_element start ∷ es) (at (opened ++ n ∷ []) anchor none true)
        ≡ keep_if selects (start_element start) (kept es s')
  unfolding filter
  kept-start start es opened n anchor selects s' h =
      kept-next (start_element start) es (at (opened ++ n ∷ []) anchor none true) s' selects
        (on_start-searching scheme ids start opened n anchor ∙ h)

  -- The end of an element that is neither the anchor nor selected, while the search goes on.
  pub kept-end_searching :
      (end : EndElementEventRef) (es : List EventRef) (opened : List ℕ) (k m : ℕ)
      (anchor : Option ℕ)
      → is_at anchor (length opened) ≡ false
      → kept (end_element end ∷ es) (at ((opened ++ k ∷ []) ++ m ∷ []) anchor none true)
        ≡ kept es (at (opened ++ k ∷ []) anchor none true)
  unfolding filter
  kept-end_searching end es opened k m anchor h =
      kept-next (end_element end) es (at ((opened ++ k ∷ []) ++ m ∷ []) anchor none true)
        (at (opened ++ k ∷ []) anchor none true) false
        (on_end-opened scheme ids opened k m anchor none true ∙ rw (h) refl)

  -- The end of the anchor ends the search.
  pub kept-end_anchor :
      (end : EndElementEventRef) (es : List EventRef) (opened : List ℕ) (k m : ℕ)
      → kept
          (end_element end ∷ es)
          (at ((opened ++ k ∷ []) ++ m ∷ []) (some (length opened)) none true)
        ≡ []
  unfolding filter
  kept-end_anchor end es opened k m =
      kept-next (end_element end) es
        (at ((opened ++ k ∷ []) ++ m ∷ []) (some (length opened)) none true)
        (at (opened ++ k ∷ []) none none false) false
        (on_end-opened scheme ids opened k m (some (length opened)) none true
          ∙ rw (==-self (length opened)) refl)
      ∙ kept-IsDead es (at (opened ++ k ∷ []) none none false) (refl, refl)

  -- The end of the selected element is the last event that is kept.
  pub kept-end_selected :
      (end : EndElementEventRef) (es : List EventRef) (opened : List ℕ) (k m : ℕ)
      (anchor : Option ℕ)
      → kept
          (end_element end ∷ es)
          (at ((opened ++ k ∷ []) ++ m ∷ []) anchor (some (length opened)) false)
        ≡ end_element end ∷ []
  unfolding filter
  kept-end_selected end es opened k m anchor =
      let counts = opened ++ k ∷ [] in
      let left : Option ℕ = if is_at anchor (length opened) then none else anchor in
      let closes : close_selected (length opened)
            (if is_at anchor (length opened)
              then at counts none (some (length opened)) false
              else at counts anchor (some (length opened)) false)
            (some (length opened))
          ≡ (true, at counts left none false) =
        elim (Bool-cases (is_at anchor (length opened))) [
          | inl same ↦ rw (same, ==-self (length opened)) refl
          | inr other ↦ rw (other, ==-self (length opened)) refl
        ] in
      kept-next (end_element end) es (at (counts ++ m ∷ []) anchor (some (length opened)) false)
        (at counts left none false) true
        (on_end-opened scheme ids opened k m anchor (some (length opened)) false ∙ closes)
      ∙ ap (end_element end ∷◌) (kept-IsDead es (at counts left none false) (refl, refl))

  -- Within the selected element, at depth `d`, every event is kept.
  pub kept-selected :
      (nodes : Nodes) (tail : List EventRef) (opened : List ℕ) (n d : ℕ) (anchor : Option ℕ)
      → d < length opened
      → ((k : ℕ) → d < k → is_at anchor k ≡ false)
      → kept (events nodes ++ tail) (at (opened ++ n ∷ []) anchor (some d) false)
        ≡ events nodes ++ kept tail (at (opened ++ (n + elements nodes) ∷ []) anchor (some d) false)
  unfolding filter
  kept-selected nothing tail opened n d anchor b na =
      let same : n ≡ n + 0 = omega arith in
      ap (λ m. kept tail (at (opened ++ m ∷ []) anchor (some d) false)) same
  kept-selected (leaf c rest) tail opened n d anchor b na =
      ap (content c ∷◌) (kept-selected rest tail opened n d anchor b na)
  kept-selected (element start children end rest) tail opened n d anchor b na =
      let opened' = opened ++ (n + 1) ∷ [] in
      let deeper : d < length opened' = omega (arith, length_last opened (n + 1)) in
      let after = end_element end ∷ events rest ++ tail in
      let other : (d == length opened) ≡ false = ground arith in
      let count : n + 1 + elements rest ≡ n + (elements rest + 1) = omega arith in
      ap (λ es. kept (start_element start ∷ es) (at (opened ++ n ∷ []) anchor (some d) false))
        (append_assoc (events children) (end_element end ∷ events rest) tail)
      ∙ kept-next (start_element start) (events children ++ after)
          (at (opened ++ n ∷ []) anchor (some d) false)
          (at (opened' ++ 0 ∷ []) anchor (some d) false) true
          (on_start-selected scheme ids start opened n d anchor)
      ∙ ap (start_element start ∷◌) (
          kept-selected children after opened' 0 d anchor deeper na
          ∙ ap (events children ++◌) (
              kept-next (end_element end) (events rest ++ tail)
                (at (opened' ++ (0 + elements children) ∷ []) anchor (some d) false)
                (at opened' anchor (some d) false) true
                (on_end-opened scheme ids opened (n + 1) (0 + elements children) anchor (some d)
                    false
                  ∙ rw (na (length opened) b, other) refl)
              ∙ ap (end_element end ∷◌) (
                  kept-selected rest tail opened (n + 1) d anchor b na
                  ∙ ap (λ m. events rest ++ kept tail (at (opened ++ m ∷ []) anchor (some d) false))
                      count)))
      ∙ ap (start_element start ∷◌) (
          sym (
            append_assoc (events children) (end_element end ∷ events rest)
              (kept tail (at (opened ++ (n + (elements rest + 1)) ∷ []) anchor (some d) false))))

  -- An element that is not selected, while the search goes on below it and after it.
  pub kept-passed :
      (start : StartElementEventRef) (children : Nodes) (end : EndElementEventRef)
      (tail : List EventRef) (opened : List ℕ) (n : ℕ) (anchor : Option ℕ)
      (result : List EventRef → List EventRef)
      → aim
          (length opened)
          (at ((opened ++ (n + 1) ∷ []) ++ 0 ∷ []) anchor none true)
          (base_of scheme.id anchor (has_scheme_id ids start scheme.id) (length opened))
        ≡ (false, at ((opened ++ (n + 1) ∷ []) ++ 0 ∷ []) anchor none true)
      → is_at anchor (length opened) ≡ false
      → kept
          (events children ++ end_element end ∷ tail)
          (at ((opened ++ (n + 1) ∷ []) ++ 0 ∷ []) anchor none true)
        ≡ result (
            kept
              (end_element end ∷ tail)
              (at ((opened ++ (n + 1) ∷ []) ++ (0 + elements children) ∷ []) anchor none true))
      → kept
          (start_element start ∷ events children ++ end_element end ∷ tail)
          (at (opened ++ n ∷ []) anchor none true)
        ≡ result (kept tail (at (opened ++ (n + 1) ∷ []) anchor none true))
  kept-passed start children end tail opened n anchor result aims na inside =
      kept-start start (events children ++ end_element end ∷ tail) opened n anchor false
        (at ((opened ++ (n + 1) ∷ []) ++ 0 ∷ []) anchor none true) aims
      ∙ inside
      ∙ ap result (kept-end_searching end tail opened (n + 1) (0 + elements children) anchor na)
