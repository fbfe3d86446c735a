-- ===== src/Xpointer/Tests.antt =====
-- Runs of the element() scheme on a small document: crates/xenolith/src/xpointer/element.rs.
use xenolith.Common.{◌≡◌, refl, List, [], ◌∷◌, none, some}
use xenolith.Text.{Text, codes, eq_text, eq_option, starts_with, after}
use xenolith.Chars.{
  is_ncname, is_ncname_start_char, is_ncname_char, is_name_start_char, is_name_char,
}
use xenolith.Scan.{byte_len, len_utf8}
use xenolith.Uri.Resolve.{split}
use xenolith.Dom.Create.{xml_ns}
use xenolith.Event.{
  AttributeRef, StartElementEventRef, EndElementEventRef, characters, comment, lexical,
}
use xenolith.Xpointer.{ElementScheme, ok, err, parse, parse_steps, position_of, selector, has_id}
use xenolith.Xpointer.Trees.{Nodes, nothing, element, leaf, pointed, kept, found_events}
use xenolith.Xpointer.Pointed.{document_events, kept-pointed}

abbrev start_of : Text → List AttributeRef → StartElementEventRef
start_of name attributes = record {
  prefix = none;
  local = name;
  namespace = none;
  attributes = attributes;
}

abbrev end_of : Text → EndElementEventRef
end_of name = record { prefix = none; local = name; namespace = none }

abbrev xml_id : Text → AttributeRef
xml_id value = record {
  prefix = some (codes "xml");
  local = codes "id";
  namespace = some xml_ns;
  value = value;
}

abbrev empty_element : Text → Nodes → Nodes
empty_element name rest = element (start_of name []) nothing (end_of name) rest

-- <a><b xml:id=" x "><c/>t<d/></b><e/></a>
abbrev list : Nodes
list =
    element (start_of (codes "a") [])
      (element (start_of (codes "b") (xml_id (codes " x ") ∷ []))
        (empty_element (codes "c")
          (leaf (characters (codes "t")) (empty_element (codes "d") nothing)))
        (end_of (codes "b")) (empty_element (codes "e") nothing))
      (end_of (codes "a")) nothing

abbrev second_of_x : ElementScheme
second_of_x = record { id = some (codes "x"); steps = 2 ∷ [] }

pointed_by_id :
    pointed second_of_x [] list
    ≡ some
        (record { start = start_of (codes "d") []; children = nothing; end = end_of (codes "d") })
unfolding has_id lexical eq_text eq_option
pointed_by_id = refl

pointed_by_positions :
    pointed (record { id = none; steps = 1 ∷ 2 ∷ [] }) [] list
    ≡ some
        (record { start = start_of (codes "e") []; children = nothing; end = end_of (codes "e") })
unfolding has_id lexical eq_text eq_option
pointed_by_positions = refl

parsed : parse (codes "x/2") ≡ ok second_of_x
unfolding parse parse_steps position_of after split is_ncname is_ncname_start_char is_ncname_char
    is_name_start_char is_name_char starts_with
parsed = refl

leading_zero : parse (codes "/1/02") ≡ err 3
unfolding parse parse_steps position_of after split is_ncname byte_len len_utf8 starts_with
leading_zero = refl

kept-pointed_example :
    kept (document_events (comment (codes "c") ∷ []) none list) (selector second_of_x)
    ≡ found_events (pointed second_of_x [] list) []
kept-pointed_example = kept-pointed second_of_x (comment (codes "c") ∷ []) none list
