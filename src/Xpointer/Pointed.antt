-- ===== src/Xpointer/Pointed.antt =====
-- An element() pointer selects the element that it points to: crates/xenolith/src/xpointer/element.rs.
use xenolith.Common.{
  ℕ, ◌+◌, ◌≡◌, refl, ◌∙◌, ap, sym, true, false, List, [], ◌∷◌, ◌++◌, Option, none, some, arith,
  length, append_assoc, append-nil, Bool-cases, inl, inr,
}
use xenolith.Text.{Text, eq_text}
use xenolith.Event.{
  EventRef, StartElementEventRef, EndElementEventRef, DoctypeEventRef, Content, start_document,
  end_document, start_element, end_element, content, doctype,
}
use xenolith.Xpointer.{ElementScheme, Ids, has_id, is_target, filter, selector, read_doctype}
use xenolith.Xpointer.Trees.{
  Element, Nodes, nothing, element, leaf, events, elements, or_else, find, found_events, kept,
  element_at, element_within, element_with_id, pointed,
}
use xenolith.Xpointer.Dead.{length_last}
use xenolith.Xpointer.Steps.{is_target_lem}
use xenolith.Xpointer.Kept.{at, kept-start, kept-passed, kept-end_anchor}
use xenolith.Xpointer.Seek.{kept-found, kept-seek}

-- What is selected once an element has the ID.
abbrev pub within_events : List ℕ → Option Element → List EventRef → List EventRef
within_events steps none rest = rest
within_events steps (some e) rest = found_events (element_within steps (some e)) []

within-or_else :
    (steps : List ℕ) (a b : Option Element) (rest : List EventRef)
    → within_events steps (or_else a b) rest ≡ within_events steps a (within_events steps b rest)
within-or_else steps none b rest = refl
within-or_else steps (some e) b rest = refl

is_target-anchor :
    (opened steps : List ℕ) (k : ℕ)
    → is_target (length opened + 1) (length opened) steps ((opened ++ k ∷ []) ++ 0 ∷ [])
      ≡ eq_text [] steps
is_target-anchor opened steps k =
    let front = opened ++ k ∷ [] in
    let depth : length front ≡ length opened + 1 = omega (arith, length_last opened k) in
    let whole = append-nil front in
    ap (λ b. is_target b (length opened) steps (front ++ 0 ∷ [])) (sym depth)
    ∙ ap (λ xs. is_target (length front) (length opened) steps (xs ++ 0 ∷ [])) (sym whole)
    ∙ is_target_lem front [] steps (length opened) 0 (omega (arith, depth, ap length whole))

module _ (ids : Ids) (id : Text) where
  abbrev by_id : List ℕ → ElementScheme
  by_id steps = record { id = some id; steps = steps }

  -- From the start of the element with the ID on.
  kept-anchor :
      (steps : List ℕ) (start : StartElementEventRef) (children : Nodes) (end : EndElementEventRef)
      (tail : List EventRef) (opened : List ℕ) (n : ℕ)
      → has_id ids start id ≡ true
      → kept
          (start_element start ∷ events children ++ end_element end ∷ tail)
          (at (by_id steps) ids (opened ++ n ∷ []) none none true)
        ≡ found_events
            (element_within steps (some (record { start = start; children = children; end = end })))
            []
  unfolding eq_text
  kept-anchor [] start children end tail opened n h =
      let scheme = by_id [] in
      let anchor : Option ℕ = some (length opened) in
      kept-start scheme ids start (events children ++ end_element end ∷ tail) opened n none true
        (at scheme ids ((opened ++ (n + 1) ∷ []) ++ 0 ∷ []) anchor (some (length opened)) false)
        (rw (h, is_target-anchor opened [] (n + 1)) refl)
      ∙ kept-found scheme ids start children end tail opened (n + 1) anchor (λ j l. ground arith)
  kept-anchor (step ∷ steps) start children end tail opened n h =
      let scheme = by_id (step ∷ steps) in
      let opened' = opened ++ (n + 1) ∷ [] in
      let anchor : Option ℕ = some (length opened) in
      let depth : length opened + 1 ≡ length opened' = omega (arith, length_last opened (n + 1)) in
      kept-start scheme ids start (events children ++ end_element end ∷ tail) opened n none false
        (at scheme ids (opened' ++ 0 ∷ []) anchor none true)
        (rw (h, is_target-anchor opened (step ∷ steps) (n + 1)) refl)
      ∙ kept-seek scheme ids opened' anchor children (end_element end ∷ tail) opened' [] 0
          ((λ start' d. ap (λ b. some (b, anchor)) depth), (λ j l. ground arith))
          (sym (append-nil opened'))
      ∙ ap (found_events (element_at (step ∷ steps) children))
          (kept-end_anchor scheme ids end tail opened (n + 1) (0 + elements children))

  kept-by_id :
      (steps : List ℕ) (nodes : Nodes) (tail : List EventRef) (opened : List ℕ) (n : ℕ)
      → kept (events nodes ++ tail) (at (by_id steps) ids (opened ++ n ∷ []) none none true)
        ≡ within_events steps
            (find (λ q start. has_id ids start id) opened n nodes)
            (kept tail (at (by_id steps) ids (opened ++ (n + elements nodes) ∷ []) none none true))
  unfolding filter
  kept-by_id steps nothing tail opened n =
      let same : n ≡ n + 0 = omega arith in
      ap (λ m. kept tail (at (by_id steps) ids (opened ++ m ∷ []) none none true)) same
  kept-by_id steps (leaf c rest) tail opened n = kept-by_id steps rest tail opened n
  kept-by_id steps (element start children end rest) tail opened n =
      let scheme = by_id steps in
      let opened' = opened ++ (n + 1) ∷ [] in
      let after = end_element end ∷ events rest ++ tail in
      ap (λ es. kept (start_element start ∷ es) (at scheme ids (opened ++ n ∷ []) none none true))
        (append_assoc (events children) (end_element end ∷ events rest) tail)
      ∙ elim (Bool-cases (has_id ids start id)) [
        | inl same ↦
            kept-anchor steps start children end (events rest ++ tail) opened n same
            ∙ rw (same) refl
        | inr other ↦
            let rest_found = find (λ q start. has_id ids start id) opened (n + 1) rest in
            let within_found = find (λ q start. has_id ids start id) opened' 0 children in
            let count : n + 1 + elements rest ≡ n + (elements rest + 1) = omega arith in
            let left =
              kept tail (at scheme ids (opened ++ (n + (elements rest + 1)) ∷ []) none none true) in
            kept-passed scheme ids start children end (events rest ++ tail) opened n none
              (within_events steps within_found) (rw (other) refl) refl
              (kept-by_id steps children after opened' 0)
            ∙ ap (within_events steps within_found) (
                kept-by_id steps rest tail opened (n + 1)
                ∙ ap
                    (λ m.
                      within_events steps rest_found
                        (kept tail (at scheme ids (opened ++ m ∷ []) none none true)))
                    count)
            ∙ sym (within-or_else steps within_found rest_found left)
            ∙ rw (other) refl
      ]

within-nothing :
    (steps : List ℕ) (e : Option Element)
    → within_events steps e [] ≡ found_events (element_within steps e) []
within-nothing steps none = refl
within-nothing steps (some e) = refl

-- A document in events: contents before the type declaration, the declaration if there is one, and the rest.
abbrev pub declared : Option DoctypeEventRef → Ids
declared none = []
declared (some d) = read_doctype d.pool d.attlists []

abbrev pub body_events : Option DoctypeEventRef → Nodes → List EventRef
body_events none nodes = events nodes ++ end_document ∷ []
body_events (some d) nodes = doctype d ∷ events nodes ++ end_document ∷ []

abbrev pub prolog_events : List Content → List EventRef → List EventRef
prolog_events [] rest = rest
prolog_events (c ∷ prolog) rest = content c ∷ prolog_events prolog rest

abbrev pub document_events : List Content → Option DoctypeEventRef → Nodes → List EventRef
document_events prolog d nodes = start_document ∷ prolog_events prolog (body_events d nodes)

kept-prolog :
    (prolog : List Content) (rest : List EventRef) (scheme : ElementScheme)
    → kept (prolog_events prolog rest) (selector scheme) ≡ kept rest (selector scheme)
unfolding filter
kept-prolog [] rest scheme = refl
kept-prolog (c ∷ prolog) rest scheme = kept-prolog prolog rest scheme

kept-nodes :
    (id : Option Text) (steps : List ℕ) (ids : Ids) (nodes : Nodes)
    → kept
        (events nodes ++ end_document ∷ [])
        (at (record { id = id; steps = steps }) ids (0 ∷ []) none none true)
      ≡ found_events (pointed (record { id = id; steps = steps }) ids nodes) []
unfolding filter
kept-nodes none steps ids nodes =
    kept-seek (record { id = none; steps = steps }) ids [] none nodes (end_document ∷ []) [] [] 0
      ((λ start d. refl), (λ j l. refl)) refl
kept-nodes (some id) steps ids nodes =
    kept-by_id ids id steps nodes (end_document ∷ []) [] 0
    ∙ within-nothing steps (element_with_id ids id nodes)

kept-body :
    (scheme : ElementScheme) (d : Option DoctypeEventRef) (nodes : Nodes)
    → kept (body_events d nodes) (selector scheme)
      ≡ found_events (pointed scheme (declared d) nodes) []
unfolding filter
kept-body scheme none nodes = kept-nodes scheme.id scheme.steps [] nodes
kept-body scheme (some d) nodes =
    kept-nodes scheme.id scheme.steps (read_doctype d.pool d.attlists []) nodes

-- Of the events of a document, the selector of an element() scheme selects exactly those of the element
-- that the scheme points to, from its start to its end: the element at the positions of the child
-- sequence, counted from the document, or within the first element with the ID. None are selected where
-- there is no such element.
pub kept-pointed :
    (scheme : ElementScheme) (prolog : List Content) (d : Option DoctypeEventRef) (nodes : Nodes)
    → kept (document_events prolog d nodes) (selector scheme)
      ≡ found_events (pointed scheme (declared d) nodes) []
unfolding filter
kept-pointed scheme prolog d nodes =
    kept-prolog prolog (body_events d nodes) scheme ∙ kept-body scheme d nodes
