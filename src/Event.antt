-- ===== src/Event.antt =====
-- The events of a document as a consumer sees them: crates/xenolith/src/event.rs, with `AttributeRef` of
-- attr.rs and the attribute declarations of dtd/model.rs. Locations, and what is inherited (base URI,
-- language, space), are left out.
use xenolith.Common.{List, ◌++◌, ◌∷◌, Option, none, some}
use xenolith.Text.{Text}
use xenolith.Name.{NameId, NamePool}

pub record AttributeRef : Type 0 where
  pub prefix : Option Text
  pub local : Text
  pub namespace : Option Text
  pub value : Text

pub record StartElementEventRef : Type 0 where
  pub prefix : Option Text
  pub local : Text
  pub namespace : Option Text
  pub attributes : List AttributeRef

pub record EndElementEventRef : Type 0 where
  pub prefix : Option Text
  pub local : Text
  pub namespace : Option Text

pub data AttType : Type 0 where
  cdata id id_ref id_refs entity entities nmtoken nmtokens : AttType
  notation enumeration : List NameId → AttType

pub record AttDef : Type 0 where
  pub name : NameId
  pub att_type : AttType

pub record DoctypeEventRef : Type 0 where
  pub name : Option Text
  pub public_id : Option Text
  pub system_id : Option Text
  pub attlists : List (NameId × List AttDef)
  pub pool : NamePool

-- The events within elements that neither start nor end one.
pub data Content : Type 0 where
  characters cdata_section comment : Text → Content
  processing_instruction : Text → Text → Content

pub data EventRef : Type 0 where
  start_document end_document : EventRef
  start_element : StartElementEventRef → EventRef
  end_element : EndElementEventRef → EventRef
  content : Content → EventRef
  doctype : DoctypeEventRef → EventRef

-- `lexical` of name.rs.
unfoldable pub lexical : Option Text → Text → Text
lexical (some prefix) local = prefix ++ b':' ∷ local
lexical none local = local
