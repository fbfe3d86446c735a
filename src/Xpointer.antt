-- ===== src/Xpointer.antt =====
-- The element() scheme of XPointer: crates/xenolith/src/xpointer/element.rs. A scheme keeps the open
-- elements as counts and answers for every event whether the pointer selects it. An error is the offset
-- that is reported, in bytes.
pub mod Trees
pub mod Dead
pub mod Steps
pub mod Kept
pub mod Seek
pub mod Pointed
mod Tests
use xenolith.Common.{
  ℕ, zero, suc, ◌+◌, ◌-◌, ◌*◌, ◌^◌, Bool, true, false, not, ◌&&◌, ◌||◌, List, [], ◌∷◌, ◌++◌, Option,
  none, some, ◌==◌, ltb, leb, if◌then◌else◌, length, drop, is_empty, all, any, keep,
}
use xenolith.Text.{Text, codes, eq_text, eq_option, is_ascii_digit, starts_with, before, after}
use xenolith.Chars.{is_whitespace, is_ncname}
use xenolith.Scan.{byte_len}
use xenolith.Uri.Resolve.{split}
use xenolith.Name.{NameId, NamePool, resolve}
use xenolith.Dom.Create.{xml_ns}
use xenolith.Event
use xenolith.Event.{
  AttributeRef, StartElementEventRef, AttType, AttDef, DoctypeEventRef, EventRef, start_document,
  end_document, start_element, end_element, content, doctype, lexical,
}

pub record ElementScheme : Type 0 where
  pub id : Option Text
  pub steps : List ℕ

unfoldable pub shorthand : Text → ElementScheme
shorthand id = record { id = some id; steps = [] }

pub data Parsed {ℓ} (A : Type ℓ) : Type ℓ where
  ok : A → Parsed A
  err : ℕ → Parsed A

-- The number that the digits write.
abbrev pub number : ℕ → Text → ℕ
number n [] = n
number n (c ∷ s) = number (n * 10 + (c - b'0')) s

-- `parse` into usize, of digits alone, filtered.
unfoldable pub position_of : Text → Option ℕ
position_of step =
    if is_empty step || (starts_with (b'0' ∷ []) step || not (all is_ascii_digit step))
    then none
    else if ltb (number 0 step) (2 ^ 64)
    then some (number 0 step)
    else none

abbrev pub prepend : ℕ → Parsed (List ℕ) → Parsed (List ℕ)
prepend step (ok steps) = ok (step ∷ steps)
prepend step (err at) = err at

unfoldable pub parse_steps : ℕ → List Text → Parsed (List ℕ)
parse_steps at [] = ok []
parse_steps at (step ∷ rest) = elim (position_of step) [
  | none ↦ err at
  | some position ↦ prepend position (parse_steps (at + (byte_len step + 1)) rest)
]

abbrev pub with_id : Option Text → Parsed (List ℕ) → Parsed ElementScheme
with_id id (ok steps) = ok (record { id = id; steps = steps })
with_id id (err at) = err at

-- The child sequence after the first slash; without a slash there is none.
abbrev pub steps_after : ℕ → Option Text → Parsed (List ℕ)
steps_after at none = ok []
steps_after at (some s) = parse_steps at (split s)

unfoldable pub parse : Text → Parsed ElementScheme
parse [] = err 0
parse data_text =
    let name = before b'/' data_text in
    if not (is_empty name) && not (is_ncname name)
    then err 0
    else with_id (if is_empty name then none else some name)
        (steps_after (byte_len name + 1) (after b'/' data_text))

-- The map `ids`.
abbrev pub Ids : Type 0
Ids = List (Text × List Text)

pub record ElementSelector : Type 0 where
  pub scheme : ElementScheme
  pub ids : Ids
  pub counts : List ℕ
  pub anchor : Option ℕ
  pub selected : Option ℕ
  pub searching : Bool

abbrev pub selector : ElementScheme → ElementSelector
selector scheme = record {
  scheme = scheme;
  ids = [];
  counts = 0 ∷ [];
  anchor = none;
  selected = none;
  searching = true;
}

-- The names of the attributes that are declared as `ID`.
abbrev pub name_if_id : NamePool → AttType → NameId → Option Text
name_if_id pool Event.id name = resolve pool name
name_if_id pool _ name = none

abbrev pub push_some : Option Text → List Text → List Text
push_some none names = names
push_some (some name) names = name ∷ names

abbrev pub id_names : NamePool → List AttDef → List Text
id_names pool [] = []
id_names pool (definition ∷ rest) =
    push_some (name_if_id pool definition.att_type definition.name) (id_names pool rest)

abbrev pub insert_ids : Option Text → List Text → Ids → Ids
insert_ids none names ids = ids
insert_ids (some element) [] ids = ids
insert_ids (some element) (name ∷ names) ids = (element, name ∷ names) ∷ ids

unfoldable pub read_doctype : NamePool → List (NameId × List AttDef) → Ids → Ids
read_doctype pool [] ids = ids
read_doctype pool ((element, definitions) ∷ rest) ids =
    read_doctype pool rest (insert_ids (resolve pool element) (id_names pool definitions) ids)

-- `get` of the map `ids`, with no names where there is no entry.
abbrev pub declared_ids : Text → Ids → List Text
declared_ids name [] = []
declared_ids name ((element, names) ∷ rest) =
    if eq_text element name then names else declared_ids name rest

abbrev pub push_char : ℕ → List Text → List Text
push_char c [] = (c ∷ []) ∷ []
push_char c (piece ∷ pieces) = (c ∷ piece) ∷ pieces

-- `split` at white space.
abbrev pub pieces : Text → List Text
pieces [] = [] ∷ []
pieces (c ∷ s) = if is_whitespace c then [] ∷ pieces s else push_char c (pieces s)

-- The one token is this one.
abbrev pub is_only : Text → List Text → Bool
is_only id (token ∷ []) = eq_text token id
is_only id _ = false

abbrev pub is_id_attribute : List Text → AttributeRef → Bool
is_id_attribute declared attr =
    (eq_option attr.namespace (some xml_ns) && eq_text attr.local (codes "id"))
    || any (λ name. eq_text name (lexical attr.prefix attr.local)) declared

unfoldable pub has_id : Ids → StartElementEventRef → Text → Bool
has_id ids start id =
    let declared = declared_ids (lexical start.prefix start.local) ids in
    any
      (λ attr.
        is_id_attribute declared attr
        && is_only id (keep (λ token. not (is_empty token)) (pieces attr.value)))
      start.attributes

-- The last count goes up by one.
abbrev pub increment : List ℕ → List ℕ
increment [] = []
increment (n ∷ []) = (n + 1) ∷ []
increment (n ∷ m ∷ counts) = n ∷ increment (m ∷ counts)

abbrev pub pop : List ℕ → List ℕ
pop [] = []
pop (n ∷ []) = []
pop (n ∷ m ∷ counts) = n ∷ pop (m ∷ counts)

abbrev pub take : ℕ → List ℕ → List ℕ
take zero xs = []
take (suc n) [] = []
take (suc n) (x ∷ xs) = x ∷ take n xs

-- `counts.get(base..end)`
abbrev pub slice : ℕ → ℕ → List ℕ → Option (List ℕ)
slice base end counts =
    if leb base end && leb end (length counts) then some (drop base (take end counts)) else none

abbrev pub is_at : Option ℕ → ℕ → Bool
is_at none depth = false
is_at (some at) depth = at == depth

abbrev pub is_some : Option ℕ → Bool
is_some none = false
is_some (some _) = true

-- Where the child sequence starts, with the anchor; `none` while the element with the ID is not found.
abbrev pub base_of : Option Text → Option ℕ → Bool → ℕ → Option (ℕ × Option ℕ)
base_of none anchor found depth = some (0, anchor)
base_of (some id) (some anchor) found depth = some (anchor + 1, some anchor)
base_of (some id) none true depth = some (depth + 1, some depth)
base_of (some id) none false depth = none

abbrev pub has_scheme_id : Ids → StartElementEventRef → Option Text → Bool
has_scheme_id ids start none = false
has_scheme_id ids start (some id) = has_id ids start id

abbrev pub is_target : ℕ → ℕ → List ℕ → List ℕ → Bool
is_target base depth steps counts =
    (depth + 1) == (base + length steps) && eq_option (slice base (depth + 1) counts) (some steps)

abbrev pub aim : ℕ → ElementSelector → Option (ℕ × Option ℕ) → Bool × ElementSelector
aim depth s none = (false, s)
aim depth s (some (base, anchor)) =
    if is_target base depth s.scheme.steps s.counts
    then (true, record s { anchor = anchor; selected = some depth; searching = false })
    else (false, record s { anchor = anchor })

unfoldable pub on_start : StartElementEventRef → ElementSelector → Bool × ElementSelector
on_start start s =
    let depth = length s.counts - 1 in
    let s' = record s { counts = increment s.counts ++ 0 ∷ [] } in
    if s.searching
    then aim depth s' (base_of s.scheme.id s.anchor (has_scheme_id s.ids start s.scheme.id) depth)
    else (is_some s.selected, s')

abbrev pub close_selected : ℕ → ElementSelector → Option ℕ → Bool × ElementSelector
close_selected depth s none = (false, s)
close_selected depth s (some selected) =
    (true, if selected == depth then record s { selected = none } else s)

unfoldable pub on_end : ElementSelector → Bool × ElementSelector
on_end s =
    let depth = length s.counts - 2 in
    let popped = record s { counts = if ltb 1 (length s.counts) then pop s.counts else s.counts } in
    let closed =
      if is_at s.anchor depth then record popped { anchor = none; searching = false } else popped in
    close_selected depth closed s.selected

unfoldable pub filter : EventRef → ElementSelector → Bool × ElementSelector
filter (doctype d) s = (false, record s { ids = read_doctype d.pool d.attlists s.ids })
filter (start_element start) s = on_start start s
filter (end_element _) s = on_end s
filter start_document s = (false, s)
filter end_document s = (false, s)
filter (content _) s = (is_some s.selected, s)
