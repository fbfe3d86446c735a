-- ===== src/Xpointer/Trees.antt =====
-- Documents as trees, the events they give, and what an element() pointer points to in one: the
-- specification of crates/xenolith/src/xpointer/element.rs.
use xenolith.Common.{
  ℕ, ◌+◌, Bool, true, false, List, [], ◌∷◌, ◌++◌, Option, none, some, if◌then◌else◌,
}
use xenolith.Text.{Text, eq_text}
use xenolith.Event.{
  StartElementEventRef, EndElementEventRef, Content, EventRef, start_element, end_element, content,
}
use xenolith.Xpointer.{ElementScheme, ElementSelector, Ids, has_id, filter}

pub data Nodes : Type 0 where
  nothing : Nodes
  element : StartElementEventRef → Nodes → EndElementEventRef → Nodes → Nodes
  leaf : Content → Nodes → Nodes

pub record Element : Type 0 where
  pub start : StartElementEventRef
  pub children : Nodes
  pub end : EndElementEventRef

abbrev pub events : Nodes → List EventRef
events nothing = []
events (element start children end rest) =
    start_element start ∷ events children ++ end_element end ∷ events rest
events (leaf c rest) = content c ∷ events rest

abbrev pub element_events : Element → List EventRef
element_events e = start_element e.start ∷ events e.children ++ end_element e.end ∷ []

-- How many elements there are beside each other.
abbrev pub elements : Nodes → ℕ
elements nothing = 0
elements (element start children end rest) = elements rest + 1
elements (leaf c rest) = elements rest

abbrev pub or_else : Option Element → Option Element → Option Element
or_else (some e) other = some e
or_else none other = other

-- The first element, in document order, that passes a test on its positions, its own last, and its start.
-- `n` elements come before the nodes under the same parent, whose positions are `path`.
abbrev pub find : (List ℕ → StartElementEventRef → Bool) → List ℕ → ℕ → Nodes → Option Element
find test path n nothing = none
find test path n (leaf c rest) = find test path n rest
find test path n (element start children end rest) =
    let here = path ++ (n + 1) ∷ [] in
    if test here start
    then some (record { start = start; children = children; end = end })
    else or_else (find test here 0 children) (find test path (n + 1) rest)

-- The element at these positions.
abbrev pub element_at : List ℕ → Nodes → Option Element
element_at steps nodes = find (λ path start. eq_text path steps) [] 0 nodes

-- The child sequence within an element.
abbrev pub element_within : List ℕ → Option Element → Option Element
element_within steps none = none
element_within [] (some e) = some e
element_within (n ∷ steps) (some e) = element_at (n ∷ steps) e.children

abbrev pub element_with_id : Ids → Text → Nodes → Option Element
element_with_id ids id nodes = find (λ path start. has_id ids start id) [] 0 nodes

abbrev pub pointed : ElementScheme → Ids → Nodes → Option Element
pointed scheme ids nodes = elim scheme.id [
  | none ↦ element_at scheme.steps nodes
  | some id ↦ element_within scheme.steps (element_with_id ids id nodes)
]

-- The events that are selected.
abbrev pub keep_if : Bool → EventRef → List EventRef → List EventRef
keep_if true e rest = e ∷ rest
keep_if false e rest = rest

abbrev pub kept : List EventRef → ElementSelector → List EventRef
kept [] s = []
kept (e ∷ es) s = let (selects, s') = filter e s in keep_if selects e (kept es s')

abbrev pub found_events : Option Element → List EventRef → List EventRef
found_events none rest = rest
found_events (some e) rest = element_events e
